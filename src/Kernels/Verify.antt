-- ===== src/Kernels/Verify.antt =====
-- common/util.h: the two unrolled comparisons. The comparison of two elements is a parameter, so
-- that `verify_double` stands for every equality of floating-point numbers.
use mathlib.Core.Path.{ap₂}
use cellift_meta.Base.{
  ℕ, zero, suc, ◌+◌, ◌-◌, ◌*◌, ◌/◌, ◌%◌, ◌<◌, ◌≤◌, ◌≡◌, refl, sym, ap, ◌∙◌, Bool, true, false, not,
  ◌&&◌, ◌↔◌, inl, inr, arith, ◌==◌, if◌then◌else◌, Option, none, some, Bool-cases,
}

module _ {ℓ} {A : Type ℓ} (eq : A → A → Bool) (test expected : ℕ → A) where
  -- `some` is an early return.
  unfoldable pub verify_loop : ℕ → ℕ → Option ℕ
  verify_loop zero i = none
  verify_loop (suc rounds) i =
      if not (eq (test i) (expected i))
      then some (i + 1)
      else if not (eq (test (i + 1)) (expected (i + 1)))
      then some (i + 2)
      else verify_loop rounds (i + 2)

  unfoldable pub verify_double_loop : ℕ → ℕ → Option ℕ
  verify_double_loop zero i = none
  verify_double_loop (suc rounds) i =
      let eq1 = eq (test i) (expected i) in
      let eq2 = eq (test (i + 1)) (expected (i + 1)) in
      if not (eq1 && eq2)
      then some (i + 1 + (if eq1 then 1 else 0))
      else verify_double_loop rounds (i + 2)

  unfoldable pub verify_tail : ℕ → Option ℕ → ℕ
  verify_tail n (some r) = r
  verify_tail n none =
      if not (n % 2 == 0) && not (eq (test (n - 1)) (expected (n - 1))) then n else 0

  unfoldable pub verify : ℕ → ℕ
  unfolding verify_loop verify_tail
  verify n = verify_tail n (verify_loop (n / 2) 0)

  unfoldable pub verify_double : ℕ → ℕ
  unfolding verify_double_loop verify_tail
  verify_double n = verify_tail n (verify_double_loop (n / 2) 0)

  -- The number, from 1, of the first difference among `n` places from `i` on, or 0.
  unfoldable pub first_difference : ℕ → ℕ → ℕ
  first_difference zero i = 0
  first_difference (suc n) i =
      if eq (test i) (expected i) then first_difference n (i + 1) else i + 1

  -- The loop has passed over pairs of equal places, or has found the first difference.
  finish : ℕ → ℕ → Option ℕ → ℕ
  finish r i (some k) = k
  finish r i none = first_difference r i

  verify_loop-first_difference :
      (rounds r i len : ℕ)
      → len ≡ rounds * 2 + r
      → first_difference len i ≡ finish r (i + rounds * 2) (verify_loop rounds i)
  unfolding verify_loop finish first_difference
  verify_loop-first_difference zero r i len e =
      ap₂ (λ (n j : ℕ). first_difference n j) (omega arith) (omega arith)
  verify_loop-first_difference (suc rounds) r i zero e = absurd (omega arith)
  verify_loop-first_difference (suc rounds) r i (suc zero) e = absurd (omega arith)
  verify_loop-first_difference (suc rounds) r i (suc (suc len)) e = ground (
    arith,
    verify_loop-first_difference rounds r (i + 2) len (omega arith),
    ap (first_difference len) {x = i + 1 + 1} {y = i + 2} (omega arith),
    ap (first_difference r) {x = i + 2 + rounds * 2} {y = i + suc rounds * 2} (omega arith),
  )

  verify_tail-finish : (n : ℕ) (o : Option ℕ) → finish (n % 2) (0 + n / 2 * 2) o ≡ verify_tail n o
  unfolding finish verify_tail
  verify_tail-finish n (some k) = refl
  verify_tail-finish n none = elim (Bool-cases (n % 2 == 0)) [
    | inl even ↦ let e : n % 2 ≡ 0 = ground arith in rw e (unfold first_difference in refl)
    | inr odd ↦
        let e : n % 2 ≡ 1 = ground arith in
        let last : 0 + n / 2 * 2 ≡ n - 1 = omega arith in
        rw (e, last) (unfold first_difference in ground arith)
  ]

  -- The unrolled `verify` returns the number of the first place, from 1, at which the arrays
  -- differ, and 0 if they do not.
  pub verify-first_difference : (n : ℕ) → verify n ≡ first_difference n 0
  unfolding verify
  verify-first_difference n = sym (verify-finish n)
    where
      verify-finish : (k : ℕ) → first_difference k 0 ≡ verify_tail k (verify_loop (k / 2) 0)
      verify-finish k =
          verify_loop-first_difference (k / 2) (k % 2) 0 k (omega arith)
          ∙ verify_tail-finish k (verify_loop (k / 2) 0)

  verify_double_loop-verify_loop :
      (rounds i : ℕ) → verify_double_loop rounds i ≡ verify_loop rounds i
  unfolding verify_double_loop verify_loop
  verify_double_loop-verify_loop zero i = refl
  verify_double_loop-verify_loop (suc rounds) i =
      ground (arith, verify_double_loop-verify_loop rounds (i + 2))

  verify_double-verify : (n : ℕ) → verify_double n ≡ verify n
  unfolding verify_double verify
  verify_double-verify n = ap (verify_tail n) (verify_double_loop-verify_loop (n / 2) 0)

  first_difference-zero :
      (n i j : ℕ) → first_difference n i ≡ 0 → i ≤ j → j < i + n → eq (test j) (expected j) ≡ true
  unfolding first_difference
  first_difference-zero zero i j h lo hi = absurd (omega arith)
  first_difference-zero (suc n) i j h lo hi = ground (arith, first_difference-zero n (i + 1) j)

  first_difference_same :
      (n i : ℕ)
      → ((j : ℕ) → i ≤ j → j < i + n → eq (test j) (expected j) ≡ true)
      → first_difference n i ≡ 0
  unfolding first_difference
  first_difference_same zero i h = refl
  first_difference_same (suc n) i h =
      rw (h i (omega arith) (omega arith))
        (first_difference_same n (i + 1) (λ j lo hi. h j (omega arith) (omega arith)))

  first_difference-differ :
      (n i k : ℕ) → first_difference n i ≡ suc k → eq (test k) (expected k) ≡ false
  unfolding first_difference
  first_difference-differ zero i k h = absurd (omega arith)
  first_difference-differ (suc n) i k h = ground (arith, first_difference-differ n (i + 1) k)

  first_difference-before :
      (n i k j : ℕ) → first_difference n i ≡ suc k → i ≤ j → j < k → eq (test j) (expected j) ≡ true
  unfolding first_difference
  first_difference-before zero i k j h lo hi = absurd (omega arith)
  first_difference-before (suc n) i k j h lo hi =
      ground (arith, first_difference-before n (i + 1) k j)

  -- `verify_double`, which tests a pair at once, returns the same number as `verify` for every
  -- way to compare elements: the number of the first place, from 1, at which the arrays differ, or 0.
  pub verify_double-first_difference :
      (n : ℕ) → (verify_double n ≡ verify n) × (verify_double n ≡ first_difference n 0)
  verify_double-first_difference n =
      (verify_double-verify n, verify_double-verify n ∙ verify-first_difference n)

  -- `verify` returns 0 exactly when the arrays agree at all `n` places.
  pub verify-zero_iff :
      (n : ℕ) → (verify n ≡ 0) ↔ ((j : ℕ) → j < n → eq (test j) (expected j) ≡ true)
  verify-zero_iff n = (
    λ z j h.
        first_difference-zero n 0 j (sym (verify-first_difference n) ∙ z) (omega arith)
          (omega arith),
    λ all. verify-first_difference n ∙ first_difference_same n 0 (λ j lo hi. all j (omega arith)),
  )

  -- Where `verify` returns a number, the arrays differ at that place, counted from 1, and at none
  -- before it.
  pub verify_differ :
      (n k : ℕ)
      → verify n ≡ suc k
      → (eq (test k) (expected k) ≡ false) × ((j : ℕ) → j < k → eq (test j) (expected j) ≡ true)
  verify_differ n k d =
      let e : first_difference n 0 ≡ suc k = sym (verify-first_difference n) ∙ d in
      (first_difference-differ n 0 k e, λ j h. first_difference-before n 0 k j e (omega arith) h)
