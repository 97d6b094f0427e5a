-- ===== src/Kernels/Multiply.antt =====
-- multiply/multiply.c: 32 rounds of shift and add. An `int` is its 32-bit pattern; `>>` keeps the
-- sign, and sums and `<<` wrap.
use native.Mathlib.Nat.{
  mod-add-mod, mod-mod, mod-eq_of_lt, add-mul-mod_self_left, div-add-mod, pow-suc, add-zero,
  add-suc, mod-one,
}
use cellift_meta.Base.{
  ℕ, zero, suc, ◌+◌, ◌-◌, ◌*◌, ◌/◌, ◌%◌, ◌^◌, ◌<◌, ◌≤◌, ◌≡◌, sym, ap, ◌∙◌, ◌≡⟨◌⟩◌, ◌∎, inl, inr,
  arith, ◌==◌, ltb, if◌then◌else◌, bit_and, bit_and_one, mod_two_pow_suc, Bool-cases,
}

-- `x >> 1` of an `int`.
unfoldable pub shift_right : ℕ → ℕ
shift_right x = x / 2 + (if ltb x (2 ^ 31) then 0 else 2 ^ 31)

unfoldable pub shift_left : ℕ → ℕ
shift_left y = y * 2 % 2 ^ 32

unfoldable pub multiply_loop : ℕ → ℕ → ℕ → ℕ → ℕ
unfolding shift_right shift_left
multiply_loop zero x y result = result
multiply_loop (suc rounds) x y result =
    multiply_loop rounds (shift_right x) (shift_left y)
      (if bit_and x 1 == 1 then (result + y) % 2 ^ 32 else result)

unfoldable pub multiply : ℕ → ℕ → ℕ
unfolding multiply_loop
multiply x y = multiply_loop 32 x y 0

pow-add : (n k : ℕ) → 2 ^ (n + k) ≡ 2 ^ n * 2 ^ k
pow-add n zero = rw (add-zero n) (omega arith)
pow-add n (suc k) = rw (add-suc n k, pow-suc 2 (n + k), pow-suc 2 k, pow-add n k) (omega arith)

-- The low digits of `x >> 1` are those of `x / 2`.
shift_right-mod : (n x : ℕ) → n ≤ 31 → x < 2 ^ 32 → shift_right x % 2 ^ n ≡ x / 2 % 2 ^ n
unfolding shift_right
shift_right-mod n x h small = elim (Bool-cases (ltb x (2 ^ 31))) [
  | inl low ↦ rw low (ap (λ (t : ℕ). t % 2 ^ n) (omega arith))
  | inr high ↦ rw high (
      ap (λ (t : ℕ). (x / 2 + t) % 2 ^ n) {x = 2 ^ 31} {y = 2 ^ n * 2 ^ (31 - n)}
        (ap (λ (t : ℕ). 2 ^ t) {x = 31} {y = n + (31 - n)} (omega arith) ∙ pow-add n (31 - n))
      ∙ add-mul-mod_self_left (x / 2) (2 ^ n) (2 ^ (31 - n)))
]

shift_right-lt : (x : ℕ) → x < 2 ^ 32 → shift_right x < 2 ^ 32
unfolding shift_right
shift_right-lt x h = ground arith

mul_mod : (m a t b : ℕ) → (a + t * (b % m)) % m ≡ (a + t * b) % m
mul_mod m a t b =
    sym (add-mul-mod_self_left (a + t * (b % m)) m (t * (b / m)))
    ∙ ap (λ (s : ℕ). s % m) (omega (arith, ap (λ (s : ℕ). t * s) (div-add-mod b m)))

add_bit :
    (x y result : ℕ)
    → (if bit_and x 1 == 1 then (result + y) % 2 ^ 32 else result) % 2 ^ 32
      ≡ (result + (x % 2) * y) % 2 ^ 32
add_bit x y result = rw (bit_and_one x) (elim (Bool-cases (x % 2 == 1)) [
  | inl odd ↦
      let e : x % 2 ≡ 1 = ground arith in
      rw e (mod-mod (result + y) (2 ^ 32) ∙ ap (λ (t : ℕ). t % 2 ^ 32) (omega arith))
  | inr even ↦ let e : x % 2 ≡ 0 = ground arith in rw e (ap (λ (t : ℕ). t % 2 ^ 32) (omega arith))
])

multiply_loop-mod :
    (n x y result : ℕ)
    → n ≤ 32
    → x < 2 ^ 32
    → multiply_loop n x y result % 2 ^ 32 ≡ (result + (x % 2 ^ n) * y) % 2 ^ 32
unfolding multiply_loop
multiply_loop-mod zero x y result h small =
    rw (mod-one x) (ap (λ (t : ℕ). t % 2 ^ 32) (omega arith))
multiply_loop-mod (suc n) x y result h small =
    let result' : ℕ = if bit_and x 1 == 1 then (result + y) % 2 ^ 32 else result in
    let t : ℕ = x / 2 % 2 ^ n in
    multiply_loop (suc n) x y result % 2 ^ 32
    ≡⟨ multiply_loop-mod n (shift_right x) (shift_left y) result' (omega arith)
        (shift_right-lt x small) ⟩
      (result' + shift_right x % 2 ^ n * shift_left y) % 2 ^ 32
    ≡⟨ ap (λ (u : ℕ). (result' + u * shift_left y) % 2 ^ 32)
        (shift_right-mod n x (omega arith) small) ⟩
      (result' + t * shift_left y) % 2 ^ 32
    ≡⟨ mul_mod (2 ^ 32) result' t (y * 2) ⟩ (result' + t * (y * 2)) % 2 ^ 32
    ≡⟨ sym (mod-add-mod result' (2 ^ 32) (t * (y * 2))) ⟩ (result' % 2 ^ 32 + t * (y * 2)) % 2 ^ 32
    ≡⟨ ap (λ (u : ℕ). (u + t * (y * 2)) % 2 ^ 32) (add_bit x y result) ⟩
      ((result + x % 2 * y) % 2 ^ 32 + t * (y * 2)) % 2 ^ 32
    ≡⟨ mod-add-mod (result + x % 2 * y) (2 ^ 32) (t * (y * 2)) ⟩
      (result + x % 2 * y + t * (y * 2)) % 2 ^ 32
    ≡⟨ ap (λ (u : ℕ). u % 2 ^ 32) (omega (arith, ap (λ (u : ℕ). u * y) (mod_two_pow_suc n x))) ⟩
      (result + x % 2 ^ suc n * y) % 2 ^ 32 ∎

multiply_loop-lt : (n x y result : ℕ) → result < 2 ^ 32 → multiply_loop n x y result < 2 ^ 32
unfolding multiply_loop
multiply_loop-lt zero x y result h = h
multiply_loop-lt (suc n) x y result h =
    multiply_loop-lt n (shift_right x) (shift_left y) _ (ground arith)

-- `multiply` returns the product of two 32-bit patterns, modulo `2 ^ 32`; so it multiplies signed
-- numbers as well as unsigned ones.
pub multiply-product : (x y : ℕ) → x < 2 ^ 32 → multiply x y ≡ x * y % 2 ^ 32
unfolding multiply
multiply-product x y h =
    sym (mod-eq_of_lt (multiply_loop-lt 32 x y 0 (omega arith)))
    ∙ multiply_loop-mod 32 x y 0 (omega arith) h
    ∙ ap (λ (t : ℕ). t % 2 ^ 32) (rw (mod-eq_of_lt {m = 2 ^ 32} h) (omega arith))
