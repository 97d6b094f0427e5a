-- ===== src/Kernels/Median.antt =====
-- median/median.c: a filter of three neighbours over an array of `int`s.
use native.Mathlib.Decide.{dec_lt}
use cellift_meta.Base.{
  ℕ, zero, suc, ◌+◌, ◌-◌, ◌<◌, ◌≤◌, ◌≡◌, refl, ◌∙◌, ◌⊎◌, arith, if◌then◌else◌, store, ℤ, pos,
  pos_part, neg_part, ltb_ℤ,
}

-- The body of the loop: what it stores for the neighbours `a`, `b` and `c`.
unfoldable pub filter3 : ℤ → ℤ → ℤ → ℤ
filter3 a b c =
    if ltb_ℤ a b
    then (if ltb_ℤ b c then b else if ltb_ℤ c a then a else c)
    else (if ltb_ℤ a c then a else if ltb_ℤ c b then b else c)

unfoldable pub median_loop : ℕ → ℕ → (ℕ → ℤ) → (ℕ → ℤ) → ℕ → ℤ
unfolding filter3
median_loop zero i input results = results
median_loop (suc rounds) i input results =
    median_loop rounds (i + 1) input
      (store results i (filter3 (input (i - 1)) (input i) (input (i + 1))))

unfoldable pub median : ℕ → (ℕ → ℤ) → (ℕ → ℤ) → ℕ → ℤ
unfolding median_loop
median n input results =
    median_loop (n - 1 - 1) 1 input (store (store results 0 (pos 0)) (n - 1) (pos 0))

abbrev LeqZ : ℤ → ℤ → Type 0
LeqZ a b = pos_part a + neg_part b ≤ pos_part b + neg_part a

-- `m` is one of the three, at least two of them are at most `m`, and at least two at least `m`.
abbrev pub IsMedian : ℤ → ℤ → ℤ → ℤ → Type 0
IsMedian m a b c =
    ((m ≡ a) ⊎ ((m ≡ b) ⊎ (m ≡ c)))
    × ((LeqZ a m × LeqZ b m) ⊎ ((LeqZ a m × LeqZ c m) ⊎ (LeqZ b m × LeqZ c m)))
    × ((LeqZ m a × LeqZ m b) ⊎ ((LeqZ m a × LeqZ m c) ⊎ (LeqZ m b × LeqZ m c)))

filter3-IsMedian : (a b c : ℤ) → IsMedian (filter3 a b c) a b c
unfolding filter3
filter3-IsMedian a b c = ground arith

median_loop-outside :
    (rounds i : ℕ) (input results : ℕ → ℤ) (j : ℕ)
    → (j < i) ⊎ (i + rounds ≤ j)
    → median_loop rounds i input results j ≡ results j
unfolding median_loop
median_loop-outside zero i input results j h = refl
median_loop-outside (suc rounds) i input results j h =
    median_loop-outside rounds (i + 1) input
      (store results i (filter3 (input (i - 1)) (input i) (input (i + 1)))) j (omega arith)
    ∙ ground arith

median_loop-inside :
    (rounds i : ℕ) (input results : ℕ → ℤ) (j : ℕ)
    → i ≤ j
    → j < i + rounds
    → median_loop rounds i input results j ≡ filter3 (input (j - 1)) (input j) (input (j + 1))
unfolding median_loop
median_loop-inside zero i input results j h k = absurd (omega arith)
median_loop-inside (suc rounds) i input results j h k = elim (dec_lt i j) [
  | yes later ↦
      median_loop-inside rounds (i + 1) input
        (store results i (filter3 (input (i - 1)) (input i) (input (i + 1)))) j (omega arith)
        (omega arith)
  | no now ↦
      let e : j ≡ i = omega arith in
      rw e (
        median_loop-outside rounds (i + 1) input
          (store results i (filter3 (input (i - 1)) (input i) (input (i + 1)))) i (omega arith)
        ∙ ground arith)
]

-- Between the two ends of its array, `median` stores at each place the median of the number there
-- and its two neighbours.
pub median-IsMedian :
    (n i : ℕ) (input results : ℕ → ℤ)
    → 0 < i
    → i < n - 1
    → IsMedian (median n input results i) (input (i - 1)) (input i) (input (i + 1))
unfolding median
median-IsMedian n i input results lo hi =
    rw (median_loop-inside (n - 1 - 1) 1 input _ i (omega arith) (omega arith))
      (filter3-IsMedian (input (i - 1)) (input i) (input (i + 1)))

-- On an array of at least one number `median` zeroes the two ends, and stores nothing behind the
-- array.
pub median_ends :
    (n : ℕ) (input results : ℕ → ℤ)
    → 0 < n
    → (median n input results 0 ≡ pos 0)
      × (median n input results (n - 1) ≡ pos 0)
      × ((k : ℕ) → median n input results (n + k) ≡ results (n + k))
unfolding median
median_ends n input results h = (
  median_loop-outside (n - 1 - 1) 1 input _ 0 (omega arith) ∙ ground arith,
  median_loop-outside (n - 1 - 1) 1 input _ (n - 1) (omega arith) ∙ ground arith,
  λ k. median_loop-outside (n - 1 - 1) 1 input _ (n + k) (omega arith) ∙ ground arith,
)
