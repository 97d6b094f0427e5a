-- ===== src/Towers/Setup.antt =====
-- The pool that `main` links, and `towers_init`: the tower on the first peg.
use mathlib.Core.Path.{ap₂}
use cellift_meta.Base.{
  Option, subst, sym, store_other, ◌≤◌, ◌⊎◌, inl, inr, Bool-cases, ==_false, if◌then◌else◌, ◌==◌, ℕ,
  zero, suc, ◌+◌, ◌-◌, ◌<◌, ◌≡◌, refl, ap, ◌∙◌, none, some, List, [], ◌∷◌, length, arith,
}
use cellift_meta.Towers.{
  pool_loop, Peg, peg_a, peg_b, peg_c, put, Heap, Towers, list_init, push_discs, towers_init, pool,
}
use cellift_meta.Towers.Pool.{Apart, Distinct, Chain, OwnedBy}
use cellift_meta.Towers.Stacks.{IsStacks, list_push-IsStacks}
use cellift_meta.Towers.Solve.{IsTowers}

-- `k`, `k + 1` and so on, `m` numbers.
abbrev pub seq : ℕ → ℕ → List ℕ
seq k zero = []
seq k (suc m) = k ∷ seq (k + 1) m

-- The free list of a heap has `room` nodes.
pub record IsPool (h : Heap) (room : ℕ) : Type 0 where
  pub unused : List ℕ
  pub chain : Chain h.next h.free unused
  pub once : Distinct unused
  pub rooms : length unused ≡ room

pub length-seq : (k m : ℕ) → length (seq k m) ≡ m
length-seq k zero = refl
length-seq k (suc m) = ap suc (length-seq (k + 1) m)

Apart-seq : (n k m : ℕ) → n < k → Apart n (seq k m)
Apart-seq n k zero h = tt
Apart-seq n k (suc m) h = (omega arith, Apart-seq n (k + 1) m (omega arith))

Distinct-seq : (k m : ℕ) → Distinct (seq k m)
Distinct-seq k zero = tt
Distinct-seq k (suc m) = (Apart-seq k (k + 1) m (omega arith), Distinct-seq (k + 1) m)

pool_loop-free : (rounds i : ℕ) (h : Heap) → (pool_loop rounds i h).free ≡ h.free
unfolding pool_loop
pool_loop-free zero i h = refl
pool_loop-free (suc rounds) i h = pool_loop-free rounds (i + 1) _

pool_loop-outside :
    (rounds i j : ℕ) (h : Heap)
    → (j < i) ⊎ (i + rounds ≤ j)
    → (pool_loop rounds i h).next j ≡ h.next j
unfolding pool_loop
pool_loop-outside zero i j h out = refl
pool_loop-outside (suc rounds) i j h out =
    pool_loop-outside rounds (i + 1) j _ (omega arith)
    ∙ store_other h.next i j (some (i + 1)) (==_false j i (omega arith))

pool_loop-inside :
    (rounds i j d : ℕ) (h : Heap)
    → j ≡ i + d
    → d < rounds
    → (pool_loop rounds i h).next j ≡ some (j + 1)
unfolding pool_loop
pool_loop-inside zero i j d h e lt = absurd (omega arith)
pool_loop-inside (suc rounds) i j zero h e lt =
    pool_loop-outside rounds (i + 1) j _ (omega arith) ∙ ground arith
pool_loop-inside (suc rounds) i j (suc d) h e lt =
    pool_loop-inside rounds (i + 1) j d _ (omega arith) (omega arith)

pool-next :
    (n k : ℕ) (h : Heap) → k < n → (pool n h).next k ≡ (if k == n - 1 then none else some (k + 1))
unfolding pool
pool-next n k h lt = elim (Bool-cases (k == n - 1)) [
  | inl last ↦ rw (last) (pool_loop-outside (n - 1) 0 k _ (ground arith) ∙ rw (last) refl)
  | inr before ↦ rw (before) (pool_loop-inside (n - 1) 0 k k _ (omega arith) (ground arith))
]

Chain-pool :
    (n : ℕ) (h : Heap) (k m : ℕ) → k + suc m ≡ n → Chain (pool n h).next (some k) (seq k (suc m))
Chain-pool n h k zero e = (refl, pool-next n k h (omega arith) ∙ ground arith)
Chain-pool n h k (suc m) e = (
  refl,
  subst (λ (p : Option ℕ). Chain (pool n h).next p (seq (k + 1) (suc m)))
      (sym (pool-next n k h (omega arith) ∙ rw (==_false k (n - 1) (omega arith)) refl))
      (Chain-pool n h (k + 1) m (omega arith)),
)

pub pool-IsPool : (n : ℕ) (h : Heap) → 0 < n → IsPool (pool n h) n
pool-IsPool zero h lt = absurd (omega arith)
pool-IsPool (suc m) h lt =
    let linked : Chain (pool (suc m) h).next (some 0) (seq 0 (suc m)) =
      Chain-pool (suc m) h 0 m (omega arith) in
    record {
      unused = seq 0 (suc m);
      chain = (unfold pool in pool_loop-free (suc m - 1) 0 _, linked.1);
      once = Distinct-seq 0 (suc m);
      rooms = length-seq 0 (suc m);
    }

all_free : (ns : List ℕ) → OwnedBy (λ _. none) none ns
all_free [] = tt
all_free (n ∷ ns) = (refl, all_free ns)

abbrev init_lists : Heap → Heap
init_lists h = list_init (list_init (list_init h peg_a) peg_b) peg_c

init_lists-head : (h : Heap) (p : Peg) → (init_lists h).head p ≡ none
unfolding list_init
init_lists-head h peg_a = refl
init_lists-head h peg_b = refl
init_lists-head h peg_c = refl

init_lists-size : (h : Heap) (p : Peg) → (init_lists h).size p ≡ 0
unfolding list_init
init_lists-size h peg_a = refl
init_lists-size h peg_b = refl
init_lists-size h peg_c = refl

init_lists-IsStacks : (h : Heap) (room : ℕ) → IsPool h room → IsStacks (init_lists h) room (λ _. [])
unfolding list_init
init_lists-IsStacks h room l = record {
  unused = l.unused;
  nodes = λ _. [];
  owner = λ _. none;
  linked = record {
    free_chain = l.chain;
    chains = λ p. init_lists-head h p;
    free_owned = all_free l.unused;
    owned = λ p. tt;
    free_distinct = l.once;
    distinct = λ p. tt;
    sizes = λ p. init_lists-size h p;
  };
  rooms = l.rooms;
  values = λ p. refl;
}

push_discs-IsStacks :
    (rounds i n : ℕ) (h : Heap) (s : Peg → List ℕ)
    → rounds + i ≡ n
    → IsStacks h rounds s
    → s peg_a ≡ seq (rounds + 1) i
    → (h' : Heap) × (push_discs rounds n i h ≡ some h')
      × (s' : Peg → List ℕ) × IsStacks h' 0 s'
      × (s' peg_a ≡ seq 1 n)
      × (s' peg_b ≡ s peg_b)
      × (s' peg_c ≡ s peg_c)
unfolding push_discs
push_discs-IsStacks zero i n h s e st at =
    (h, refl, s, st, at ∙ ap (seq 1) {x = i} {y = n} (omega arith), refl, refl)
push_discs-IsStacks (suc rounds) i n h s e st at =
    let (h1, run, st1) = list_push-IsStacks h rounds s peg_a (n - i) st in
    let (h2, run2, s2, st2, a2, b2, c2) =
      push_discs-IsStacks rounds (i + 1) n h1 (put s peg_a ((n - i) ∷ s peg_a)) (omega arith) st1 (
        ap₂ (λ (d : ℕ) (ds : List ℕ). d ∷ ds) {x = n - i} {y = rounds + 1} (omega arith)
          (at ∙ ap (λ (k : ℕ). seq k i) {x = suc rounds + 1} {y = rounds + 1 + 1} (omega arith))
        ∙ ap (seq (rounds + 1)) {x = suc i} {y = i + 1} (omega arith)) in
    (h2, rw (run) run2, s2, st2, a2, b2, c2)

pub towers_init-IsTowers :
    (h : Heap) (n : ℕ)
    → IsPool h n
    → (t : Towers) × (towers_init h n ≡ some t) × IsTowers n t 0 0 peg_a peg_b peg_c (seq 1 n) [] []
unfolding towers_init
towers_init-IsTowers h n l =
    let (h', run, s, st, a, b, c) =
      push_discs-IsStacks n 0 n (init_lists h) (λ _. []) (omega arith) (init_lists-IsStacks h n l)
        refl in
    (
      record { num_discs = n; heap = h'; num_moves = 0 },
      rw (run) refl,
      record {
        stacks = s;
        holds = st;
        at_start = a;
        at_temp = b;
        at_dest = c;
        counted = refl;
        discs = refl;
      },
    )
