-- ===== src/Towers/Solve.antt =====
-- `towers_solve_h` moves a tower from peg to peg in the least number of moves.
use native.Mathlib.Nat.{pow-suc, one-le-pow}
use mathlib.Core.List.{append_assoc}
use cellift_meta.Base.{
  ℕ, zero, suc, ◌+◌, ◌-◌, ◌^◌, ◌≡◌, refl, sym, ap, ◌∙◌, false, some, List, [], ◌∷◌, ◌++◌, length,
  arith,
}
use cellift_meta.Towers.{Peg, peg_eq, put, Towers, move, towers_solve_h}
use cellift_meta.Towers.Linked.{peg_eq_self}
use cellift_meta.Towers.Stacks.{IsStacks, list_push-IsStacks, list_pop-IsStacks}

-- After `moves` moves the peg `start` holds `a`, `temp` holds `b` and `dest` holds `c`.
pub record IsTowers (size : ℕ) (t : Towers) (moves room : ℕ) (start temp dest : Peg)
    (a b c : List ℕ) : Type 0 where
  pub stacks : Peg → List ℕ
  pub holds : IsStacks t.heap room stacks
  pub at_start : stacks start ≡ a
  pub at_temp : stacks temp ≡ b
  pub at_dest : stacks dest ≡ c
  pub counted : t.num_moves ≡ moves
  pub discs : t.num_discs ≡ size

-- The three pegs are different.
pub record AreThree (start temp dest : Peg) : Type 0 where
  pub start_temp : peg_eq start temp ≡ false
  pub temp_start : peg_eq temp start ≡ false
  pub start_dest : peg_eq start dest ≡ false
  pub dest_start : peg_eq dest start ≡ false
  pub temp_dest : peg_eq temp dest ≡ false
  pub dest_temp : peg_eq dest temp ≡ false

module _ (size : ℕ) where
  move-IsTowers :
      (t : Towers) (moves room : ℕ) (start temp dest : Peg) (d : ℕ) (a b c : List ℕ)
      → AreThree start temp dest
      → IsTowers size t moves room start temp dest (d ∷ a) b c
      → (t' : Towers) × (move t start dest ≡ some t')
        × IsTowers size t' (moves + 1) room start temp dest a b (d ∷ c)
  unfolding move
  move-IsTowers t moves room start temp dest d a b c three w =
      let (h1, run1, st1) = list_pop-IsStacks t.heap room w.stacks start d a w.holds w.at_start in
      let (h2, run2, st2) = list_push-IsStacks h1 room (put w.stacks start a) dest d st1 in
      (
        record t { heap = h2; num_moves = t.num_moves + 1 },
        rw (run1, move, run2) refl,
        record {
          stacks = put (put w.stacks start a) dest (d ∷ put w.stacks start a dest);
          holds = st2;
          at_start = rw (three.start_dest, peg_eq_self start) refl;
          at_temp = rw (three.temp_dest, three.temp_start) w.at_temp;
          at_dest = rw (peg_eq_self dest, three.dest_start, w.at_dest) refl;
          counted = omega (arith, w.counted);
          discs = w.discs;
        },
      )

  IsTowers_turn :
      (t : Towers) (moves room : ℕ) (start temp dest : Peg) (a b c : List ℕ)
      → IsTowers size t moves room start temp dest a b c
      → IsTowers size t moves room start dest temp a c b
  IsTowers_turn t moves room start temp dest a b c w = record {
    stacks = w.stacks;
    holds = w.holds;
    at_start = w.at_start;
    at_temp = w.at_dest;
    at_dest = w.at_temp;
    counted = w.counted;
    discs = w.discs;
  }

  IsTowers_swap :
      (t : Towers) (moves room : ℕ) (start temp dest : Peg) (a b c : List ℕ)
      → IsTowers size t moves room start temp dest a b c
      → IsTowers size t moves room temp start dest b a c
  IsTowers_swap t moves room start temp dest a b c w = record {
    stacks = w.stacks;
    holds = w.holds;
    at_start = w.at_temp;
    at_temp = w.at_start;
    at_dest = w.at_dest;
    counted = w.counted;
    discs = w.discs;
  }

  pub IsTowers_same :
      (t : Towers) (m m' room : ℕ) (start temp dest : Peg) (a a' b c c' : List ℕ)
      → m ≡ m'
      → a ≡ a'
      → c ≡ c'
      → IsTowers size t m room start temp dest a b c
      → IsTowers size t m' room start temp dest a' b c'
  IsTowers_same t m m' room start temp dest a a' b c c' em ea ec w = record {
    stacks = w.stacks;
    holds = w.holds;
    at_start = w.at_start ∙ ea;
    at_temp = w.at_temp;
    at_dest = w.at_dest ∙ ec;
    counted = w.counted ∙ em;
    discs = w.discs;
  }

  AreThree_turn : (start temp dest : Peg) → AreThree start temp dest → AreThree start dest temp
  AreThree_turn start temp dest three = record {
    start_temp = three.start_dest;
    temp_start = three.dest_start;
    start_dest = three.start_temp;
    dest_start = three.temp_start;
    temp_dest = three.dest_temp;
    dest_temp = three.temp_dest;
  }

  AreThree_swap : (start temp dest : Peg) → AreThree start temp dest → AreThree temp start dest
  AreThree_swap start temp dest three = record {
    start_temp = three.temp_start;
    temp_start = three.start_temp;
    start_dest = three.temp_dest;
    dest_start = three.dest_temp;
    temp_dest = three.start_dest;
    dest_temp = three.dest_start;
  }

  -- A list that is not empty has a last element.
  split_last :
      (d : ℕ) (ds : List ℕ)
      → (es : List ℕ) × (e : ℕ) × (d ∷ ds ≡ es ++ (e ∷ [])) × (length es ≡ length ds)
  split_last d [] = ([], d, refl, refl)
  split_last d (d' ∷ ds) =
      let (es, e, eq, len) = split_last d' ds in
      (d ∷ es, e, ap (λ (l : List ℕ). d ∷ l) eq, ap suc len)

  -- A tower of `n + 1` discs moves from one peg to another in `2 ^ (n + 1) - 1` moves and in its
  -- order, whatever lies below it and on the other pegs, which stays as it was.
  pub towers_solve_h-IsTowers :
      (n : ℕ) (t : Towers) (moves room : ℕ) (start temp dest : Peg) (ds a b c : List ℕ)
      → AreThree start temp dest
      → length ds ≡ suc n
      → IsTowers size t moves room start temp dest (ds ++ a) b c
      → (t' : Towers) × (towers_solve_h (suc n) t start temp dest ≡ some t')
        × IsTowers size t' (moves + (2 ^ suc n - 1)) room start temp dest a b (ds ++ c)
  unfolding towers_solve_h
  towers_solve_h-IsTowers n t moves room start temp dest [] a b c three len w = absurd (omega arith)
  towers_solve_h-IsTowers zero t moves room start temp dest (d ∷ []) a b c three len w =
      move-IsTowers t moves room start temp dest d a b c three w
  towers_solve_h-IsTowers zero t moves room start temp dest (d ∷ d' ∷ ds) a b c three len w =
      absurd (omega arith)
  towers_solve_h-IsTowers (suc n) t moves room start temp dest (d0 ∷ ds0) a b c three len w =
      let (es, e, split, short) = split_last d0 ds0 in
      let solve = towers_solve_h-IsTowers n in
      let w0 : IsTowers size t moves room start temp dest (es ++ (e ∷ a)) b c =
        IsTowers_same t moves moves room start temp dest ((d0 ∷ ds0) ++ a) (es ++ (e ∷ a)) b c c
          refl (ap (λ (l : List ℕ). l ++ a) split ∙ append_assoc es (e ∷ []) a) refl w in
      let (t1, run1, w1) =
        solve t moves room start dest temp es (e ∷ a) c b (AreThree_turn start temp dest three)
          (omega arith) (IsTowers_turn t moves room start temp dest (es ++ (e ∷ a)) b c w0) in
      let m1 : ℕ = moves + (2 ^ suc n - 1) in
      let (t2, run2, w2) =
        move-IsTowers t1 m1 room start temp dest e a (es ++ b) c three
          (IsTowers_turn t1 m1 room start dest temp (e ∷ a) c (es ++ b) w1) in
      let (t3, run3, w3) =
        solve t2 (m1 + 1) room temp start dest es b a (e ∷ c) (AreThree_swap start temp dest three)
          (omega arith) (IsTowers_swap t2 (m1 + 1) room start temp dest a (es ++ b) (e ∷ c) w2) in
      (
        t3,
        rw (run1, run2, run3) refl,
        IsTowers_same t3 (m1 + 1 + (2 ^ suc n - 1)) (moves + (2 ^ suc (suc n) - 1)) room start temp
            dest a a b (es ++ (e ∷ c)) ((d0 ∷ ds0) ++ c)
            (omega (arith, pow-suc 2 (suc n), one-le-pow (suc n) 2 (omega arith))) refl
            (sym (ap (λ (l : List ℕ). l ++ c) split ∙ append_assoc es (e ∷ []) c))
            (IsTowers_swap t3 (m1 + 1 + (2 ^ suc n - 1)) room temp start dest b a (es ++ (e ∷ c))
              w3),
      )
