-- ===== src/Base/Bits.antt =====
-- `bit_and`, `bit_or` and `bit_xor` by their lowest digit, and what masks and fields mean as
-- arithmetic, at every width.
use Prim.Native.Nat.{
  ℕ, zero, suc, ◌+◌, ◌-◌, ◌*◌, ◌/◌, ◌%◌, ◌^◌, ◌≤◌, ◌<◌, min, max, bit_and, bit_or, digits, bitwise,
  bit_and-bitwise, bit_or-bitwise,
}
use mathlib.Core.Path.{◌≡◌, refl, ap}
use mathlib.Core.Logic.{◌↔◌}
use native.Mathlib.Nat.{pow-suc, pow-succ', one-le-pow, div-div-eq-div-mul, div-add-mod}
use native.Mathlib.Omega.{arith}

module _ (ends : ℕ → ℕ) (digit : ℕ → ℕ → ℕ) where
  -- More fuel than digits changes nothing.
  digits_more :
      (x y : ℕ) (more less : ℕ)
      → x ≤ less
      → x ≤ more
      → digits ends digit more x y ≡ digits ends digit less x y
  digits_more (suc x) y zero less below above = absurd (omega arith)
  digits_more (suc x) y (suc more) zero below above = absurd (omega arith)
  digits_more (suc x) y (suc more) (suc less) below above =
      ap (λ (t : ℕ). t * 2 + digit (suc x % 2) (y % 2))
        (digits_more (suc x / 2) (y / 2) more less (omega arith) (omega arith))
  digits_more zero y (suc more) (suc less) below above = refl
  digits_more zero y (suc more) zero below above = refl
  digits_more zero y zero (suc less) below above = refl
  digits_more zero y zero zero below above = refl

  bitwise_digit :
      (x y : ℕ)
      → bitwise ends digit (suc x) y
        ≡ bitwise ends digit (suc x / 2) (y / 2) * 2 + digit (suc x % 2) (y % 2)
  bitwise_digit x y =
      ap (λ (t : ℕ). t * 2 + digit (suc x % 2) (y % 2))
        (digits_more (suc x / 2) (y / 2) x (suc x / 2) (omega arith) (omega arith))

pub bit_or_step : (x y : ℕ) → bit_or x y ≡ bit_or (x / 2) (y / 2) * 2 + max (x % 2) (y % 2)
bit_or_step (suc x) y = simp bit_or-bitwise (bitwise_digit (λ rest. rest) max x y)
bit_or_step zero y = simp bit_or-bitwise (omega arith)

pub bit_and_step : (x y : ℕ) → bit_and x y ≡ bit_and (x / 2) (y / 2) * 2 + min (x % 2) (y % 2)
bit_and_step (suc x) y = simp bit_and-bitwise (bitwise_digit (λ rest. 0) min x y)
bit_and_step zero y = simp bit_and-bitwise (omega arith)

-- With 0, by halving.
zeros_below : (limit x : ℕ) → x < limit → (bit_and x 0 ≡ 0) × (bit_or x 0 ≡ x)
zeros_below (suc limit) (suc x) small =
    let half = zeros_below limit (suc x / 2) (omega arith) in
    (omega (arith, half.0, bit_and_step (suc x) 0), omega (arith, half.1, bit_or_step (suc x) 0))
zeros_below (suc limit) zero small = (refl, refl)
zeros_below zero x small = absurd (omega arith)

pub bit_and-zero : (x : ℕ) → bit_and x 0 ≡ 0
bit_and-zero x = (zeros_below (suc x) x (omega arith)).0

pub bit_or-zero : (x : ℕ) → bit_or x 0 ≡ x
bit_or-zero x = (zeros_below (suc x) x (omega arith)).1

-- The lowest digit of a remainder by a power of two.
pub mod_two_pow_suc : (k n : ℕ) → n % 2 ^ suc k ≡ (n / 2 % 2 ^ k) * 2 + n % 2
mod_two_pow_suc k n = rw (pow-succ' 2 k) (
    omega (
      arith,
      ap (λ (t : ℕ). 2 ^ k * t) (div-div-eq-div-mul n 2 (2 ^ k)),
      div-add-mod n (2 * 2 ^ k),
      div-add-mod (n / 2) (2 ^ k),
    ))

-- A mask of `k` ones keeps the remainder by `2 ^ k`.
pub bit_and_mask : (k a : ℕ) → bit_and a (2 ^ k - 1) ≡ a % 2 ^ k
bit_and_mask zero a = rw bit_and-zero (omega arith)
bit_and_mask (suc k) a = ground (
  arith,
  bit_and_step a (2 ^ suc k - 1),
  pow-suc 2 k,
  one-le-pow k 2,
  mod_two_pow_suc k a,
  bit_and_mask k (a / 2),
)

pub bit_and_one : (a : ℕ) → bit_and a 1 ≡ a % 2
bit_and_one a = bit_and_mask 1 a

-- The low digits of an `|` are zero exactly when those of both parts are.
pub bit_or_mod-zero_iff :
    (k a b : ℕ) → (bit_or a b % 2 ^ k ≡ 0) ↔ ((a % 2 ^ k ≡ 0) × (b % 2 ^ k ≡ 0))
bit_or_mod-zero_iff zero a b = (λ h. omega arith, λ h. omega arith)
bit_or_mod-zero_iff (suc k) a b = ground (
  arith,
  bit_or_step a b,
  mod_two_pow_suc k a,
  mod_two_pow_suc k b,
  mod_two_pow_suc k (bit_or a b),
  bit_or_mod-zero_iff k (a / 2) (b / 2),
)

-- An operand below `2 ^ k` sees only the lowest `k` digits of the other one.
pub bit_and_low : (k q r s : ℕ) → r < 2 ^ k → s < 2 ^ k → bit_and (q * 2 ^ k + r) s ≡ bit_and r s
bit_and_low zero q r s hr hs =
    let er : r ≡ 0 = omega arith in let es : s ≡ 0 = omega arith in rw (er, es, bit_and-zero) refl
bit_and_low (suc k) q r s hr hs = ground (
  arith,
  pow-succ' 2 k,
  ap (λ (t : ℕ). q * t) (pow-succ' 2 k),
  bit_and_step (q * 2 ^ suc k + r) s,
  bit_and_step r s,
  bit_and_low k q (r / 2) (s / 2),
)

pub bit_or_low :
    (k q r s : ℕ) → r < 2 ^ k → s < 2 ^ k → bit_or (q * 2 ^ k + r) s ≡ q * 2 ^ k + bit_or r s
bit_or_low zero q r s hr hs =
    let er : r ≡ 0 = omega arith in let es : s ≡ 0 = omega arith in rw (er, es, bit_or-zero) refl
bit_or_low (suc k) q r s hr hs = ground (
  arith,
  pow-succ' 2 k,
  ap (λ (t : ℕ). q * t) (pow-succ' 2 k),
  bit_or_step (q * 2 ^ suc k + r) s,
  bit_or_step r s,
  bit_or_low k q (r / 2) (s / 2),
)
