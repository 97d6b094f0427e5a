-- ===== src/Towers/Game.antt =====
-- The whole game: `towers_clear`, `towers_solve`, `towers_verify` and `main`.
use mathlib.Core.List.{append-nil}
use cellift_meta.Base.{
  length-map, ℕ, zero, suc, ◌+◌, ◌-◌, ◌^◌, ◌<◌, ◌≡◌, refl, sym, ap, subst, ◌∙◌, false, Option, some,
  List, [], ◌∷◌, ◌++◌, map, length, arith, ==_self, lt→ltb, le→leb, ◌≤◌,
}
use cellift_meta.Towers.{
  Peg, peg_a, peg_b, peg_c, peg_eq, put, Heap, Towers, list_clear, clear_list, towers_clear,
  towers_solve, towers_solve_h, towers_verify, verify_nodes, least_moves, pool, num_discs_max,
  towers_run, towers_main,
}
use cellift_meta.Towers.Pool.{Chain}
use cellift_meta.Towers.Linked.{peg_eq_self}
use cellift_meta.Towers.Stacks.{IsStacks, list_pop-IsStacks}
use cellift_meta.Towers.Solve.{IsTowers, IsTowers_same, towers_solve_h-IsTowers}
use cellift_meta.Towers.Setup.{seq, IsPool, pool-IsPool, towers_init-IsTowers, length-seq}

size-length :
    (h : Heap) (room : ℕ) (s : Peg → List ℕ) (p : Peg) → IsStacks h room s → h.size p ≡ length (s p)
size-length h room s p st =
    st.linked.sizes p ∙ sym (length-map h.val (st.nodes p)) ∙ ap length (st.values p)

list_clear-IsStacks :
    (fuel : ℕ) (h : Heap) (room : ℕ) (s : Peg → List ℕ) (p : Peg) (vs : List ℕ)
    → IsStacks h room s
    → s p ≡ vs
    → length vs < fuel
    → (h' : Heap) × (list_clear fuel h p ≡ some h')
      × (s' : Peg → List ℕ) × IsStacks h' (room + length vs) s'
      × ((q : Peg) → peg_eq q p ≡ false → s' q ≡ s q)
unfolding list_clear
list_clear-IsStacks zero h room s p vs st e f = absurd (omega arith)
list_clear-IsStacks (suc fuel) h room s p [] st e f = (
  h,
  rw (size-length h room s p st, e) refl,
  s,
  subst (λ (r : ℕ). IsStacks h r s) {x = room} {y = room + 0} (omega arith) st,
  λ q ne. refl,
)
list_clear-IsStacks (suc fuel) h room s p (v ∷ vs) st e f =
    let (h1, run1, st1) = list_pop-IsStacks h room s p v vs st e in
    let (h2, run2, s2, st2, same) =
      list_clear-IsStacks fuel h1 (suc room) (put s p vs) p vs st1 (rw (peg_eq_self p) refl)
        (omega arith) in
    (
      h2,
      rw (size-length h room s p st, e, lt→ltb 0 (suc (length vs)) (omega arith), run1) run2,
      s2,
      subst (λ (r : ℕ). IsStacks h2 r s2) {x = suc room + length vs} {y = room + suc (length vs)}
          (omega arith) st2,
      λ q ne. same q ne ∙ rw (ne) refl,
    )

IsStacks-IsPool :
    (h : Heap) (room n : ℕ) (s : Peg → List ℕ) → room ≡ n → IsStacks h room s → IsPool h n
IsStacks-IsPool h room n s e st = record {
  unused = st.unused;
  chain = st.linked.free_chain;
  once = st.linked.free_distinct;
  rooms = st.rooms ∙ e;
}

clear_list-IsStacks :
    (h : Heap) (room : ℕ) (s : Peg → List ℕ) (p : Peg)
    → IsStacks h room s
    → (h' : Heap) × (clear_list h p ≡ some h')
      × (s' : Peg → List ℕ) × IsStacks h' (room + length (s p)) s'
      × ((q : Peg) → peg_eq q p ≡ false → s' q ≡ s q)
unfolding clear_list
clear_list-IsStacks h room s p st =
    list_clear-IsStacks (suc (h.size p)) h room s p (s p) st refl
      (omega (arith, size-length h room s p st))

-- The state in which the tower of `n` discs is on the first peg, and no move has been made.
abbrev IsStart : ℕ → Towers → Type 0
IsStart n t = IsTowers n t 0 0 peg_a peg_b peg_c (seq 1 n) [] []

towers_clear-IsStart :
    (n : ℕ) (t : Towers) → IsStart n t → (t' : Towers) × (towers_clear t ≡ some t') × IsStart n t'
unfolding towers_clear
towers_clear-IsStart n t w =
    let (h1, run1, s1, st1, same1) = clear_list-IsStacks t.heap 0 w.stacks peg_a w.holds in
    let (h2, run2, s2, st2, same2) = clear_list-IsStacks h1 _ s1 peg_b st1 in
    let (h3, run3, s3, st3, same3) = clear_list-IsStacks h2 _ s2 peg_c st2 in
    let l : IsPool h3 n =
      IsStacks-IsPool h3 _ n s3
        (omega (
          arith,
          ap length w.at_start,
          length-seq 1 n,
          ap length (same1 peg_b refl ∙ w.at_temp),
          ap length (same2 peg_c refl ∙ same1 peg_c refl ∙ w.at_dest),
        ))
        st3 in
    let (t', run4, w') = towers_init-IsTowers h3 n l in
    (t', rw (run1, run2, run3, w.discs) run4, w')

verify_nodes-zero :
    (fuel : ℕ) (t : Towers) (ptr : Option ℕ) (count m : ℕ) (ns : List ℕ)
    → Chain t.heap.next ptr ns
    → map t.heap.val ns ≡ seq (count + 1) m
    → m < fuel
    → t.num_discs < 31
    → t.num_moves ≡ 2 ^ t.num_discs - 1
    → verify_nodes fuel t ptr count ≡ some 0
unfolding verify_nodes least_moves
verify_nodes-zero zero t ptr count m ns c e f fits moves = absurd (omega arith)
verify_nodes-zero (suc fuel) t ptr count m [] c e f fits moves =
    rw (c, lt→ltb t.num_discs 31 fits, moves, ==_self (2 ^ t.num_discs - 1)) refl
verify_nodes-zero (suc fuel) t ptr count zero (n ∷ ns) c e f fits moves = absurd (cc)
verify_nodes-zero (suc fuel) t ptr count (suc m) (n ∷ ns) c e f fits moves =
    let head : t.heap.val n ≡ count + 1 = cc in
    let tail : map t.heap.val ns ≡ seq (count + 1 + 1) m = cc in
    let rest : verify_nodes fuel t (t.heap.next n) (count + 1) ≡ some 0 =
      verify_nodes-zero fuel t (t.heap.next n) (count + 1) m ns c.1 tail (omega arith) fits moves in
    rw (c.0, head, ==_self (count + 1)) rest

towers_verify-zero :
    (n : ℕ) (t : Towers)
    → n < 31
    → IsTowers n t (2 ^ n - 1) 0 peg_a peg_b peg_c [] [] (seq 1 n)
    → towers_verify t ≡ some 0
unfolding towers_verify
towers_verify-zero n t small w =
    let sizes : (p : Peg) → t.heap.size p ≡ length (w.stacks p) =
      λ p. size-length t.heap 0 w.stacks p w.holds in
    let full : t.heap.size peg_c ≡ t.num_discs =
      sizes peg_c ∙ ap length w.at_dest ∙ length-seq 1 n ∙ sym w.discs in
    let rest : verify_nodes (suc t.num_discs) t (t.heap.head peg_c) 0 ≡ some 0 =
      verify_nodes-zero (suc t.num_discs) t (t.heap.head peg_c) 0 n (w.holds.nodes peg_c)
        (w.holds.linked.chains peg_c) (w.holds.values peg_c ∙ w.at_dest) (omega (arith, w.discs))
        (omega (arith, w.discs)) (w.counted ∙ ap (λ (k : ℕ). 2 ^ k - 1) (sym w.discs)) in
    rw
      (
        sizes peg_a ∙ ap length w.at_start,
        sizes peg_b ∙ ap length w.at_temp,
        full,
        ==_self t.num_discs,
      )
      rest

towers_solve-IsTowers :
    (n : ℕ) (t : Towers)
    → 0 < n
    → IsStart n t
    → (t' : Towers) × (towers_solve t ≡ some t')
      × IsTowers n t' (2 ^ n - 1) 0 peg_a peg_b peg_c [] [] (seq 1 n)
unfolding towers_solve
towers_solve-IsTowers zero t h w = absurd (omega arith)
towers_solve-IsTowers (suc k) t h w =
    let w0 : IsTowers (suc k) t 0 0 peg_a peg_b peg_c (seq 1 (suc k) ++ []) [] [] =
      subst (λ (l : List ℕ). IsTowers (suc k) t 0 0 peg_a peg_b peg_c l [] [])
        (sym (append-nil (seq 1 (suc k)))) w in
    let (t', run, w') =
      towers_solve_h-IsTowers (suc k) k t 0 0 peg_a peg_b peg_c (seq 1 (suc k)) [] [] []
        (record {
          start_temp = refl;
          temp_start = refl;
          start_dest = refl;
          dest_start = refl;
          temp_dest = refl;
          dest_temp = refl;
        })
        (length-seq 1 (suc k)) w0 in
    (
      t',
      ap (λ (d : ℕ). towers_solve_h d t peg_a peg_b peg_c) w.discs ∙ run,
      IsTowers_same (suc k) t' (0 + (2 ^ suc k - 1)) (2 ^ suc k - 1) 0 peg_a peg_b peg_c [] [] []
          (seq 1 (suc k) ++ []) (seq 1 (suc k)) (omega arith) refl (append-nil (seq 1 (suc k))) w',
    )

-- The program ends with the code 0 for every number of discs that its pool has nodes for, from 1
-- to 7: after `towers_init` and `towers_clear`, `towers_solve` has moved all discs from the first
-- peg to the third, in their order and in `2 ^ n - 1` moves, and `towers_verify` finds this to be
-- so.
pub towers_main-zero : (n : ℕ) (h : Heap) → 0 < n → n ≤ num_discs_max → towers_main n h ≡ some 0
unfolding towers_main towers_run
towers_main-zero n h lt le =
    let (t1, run1, w1) = towers_init-IsTowers (pool n h) n (pool-IsPool n h lt) in
    let (t2, run2, w2) = towers_clear-IsStart n t1 w1 in
    let (t3, run3, w3) = towers_solve-IsTowers n t2 lt w2 in
    rw (lt→ltb 0 n lt, le→leb num_discs_max n le, towers_run, run1, run2, run3)
      (towers_verify-zero n t3 (omega arith) w3)
