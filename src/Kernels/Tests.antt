-- ===== src/Kernels/Tests.antt =====
-- Runs of the kernels, and what the theorems say of them.
use cellift_meta.Base.{ℕ, ◌-◌, ◌*◌, ◌%◌, ◌^◌, ◌≡◌, refl, arith, ◌==◌, if◌then◌else◌, ℤ, pos, negsuc}
use cellift_meta.Kernels.Multiply.{multiply, multiply-product}
use cellift_meta.Kernels.Verify.{verify, first_difference, verify-first_difference}

-- -3 times 5.
multiply_run : multiply (2 ^ 32 - 3) 5 ≡ 2 ^ 32 - 15
unfolding multiply
multiply_run = refl

-- An array that goes up to 4 and turns negative.
abbrev samples : ℕ → ℤ
samples i = if i == 5 then negsuc 6 else pos i

abbrev squares : ℕ → ℕ
squares i = i * i

abbrev spoilt : ℕ → ℕ
spoilt i = if i == 3 then 0 else i * i

verify_run : verify (λ (a b : ℕ). a == b) squares spoilt 5 ≡ 4
unfolding verify
verify_run = refl

multiply-product_example : multiply (2 ^ 32 - 3) 5 ≡ (2 ^ 32 - 3) * 5 % 2 ^ 32
multiply-product_example = multiply-product (2 ^ 32 - 3) 5 (omega arith)

verify-first_difference_example :
    verify (λ (a b : ℕ). a == b) squares spoilt 5
    ≡ first_difference (λ (a b : ℕ). a == b) squares spoilt 5 0
verify-first_difference_example = verify-first_difference (λ (a b : ℕ). a == b) squares spoilt 5
