-- ===== src/Print/Hex.antt =====
-- `printhex` of benchmarks/benchmarks/common/syscalls.c, which benchmarks/env/v/vm.c repeats: the
-- string that it builds before it prints it.
use native.Mathlib.Nat.{div-div-eq-div-mul, pow-succ'}
use cellift_meta.Base.{
  ℕ, zero, suc, ◌+◌, ◌-◌, ◌/◌, ◌%◌, ◌^◌, ◌≤◌, ◌≡◌, refl, sym, ap, ◌∙◌, arith, ltb, if◌then◌else◌,
  Mem, store, bit_and, bit_and_mask, store_other, ==_false, ==_self,
}
use cellift_meta.Print.{digit_char}

-- `(x & 0xF) + ((x & 0xF) < 10 ? '0' : 'a'-10)`
unfoldable pub hex_char : ℕ → ℕ
hex_char x = bit_and x 0xF + (if ltb (bit_and x 0xF) 10 then b'0' else b'a' - 10)

unfoldable pub printhex_loop : ℕ → ℕ → ℕ → Mem → Mem
unfolding hex_char
printhex_loop zero i x str = str
printhex_loop (suc rounds) i x str =
    printhex_loop rounds (i + 1) (x / 2 ^ 4) (store str (15 - i) (hex_char x))

unfoldable pub printhex : ℕ → Mem → Mem
unfolding printhex_loop
printhex x str = store (printhex_loop 16 0 x str) 16 0

hex_char-digit : (x : ℕ) → hex_char x ≡ digit_char (x % 16)
unfolding hex_char digit_char
hex_char-digit x = rw (bit_and_mask 4 x) (ground arith)

printhex_loop-outside :
    (rounds i x j : ℕ) (str : Mem)
    → rounds + i ≡ 16
    → 16 ≤ j + i
    → printhex_loop rounds i x str j ≡ str j
unfolding printhex_loop
printhex_loop-outside zero i x j str e h = refl
printhex_loop-outside (suc rounds) i x j str e h =
    printhex_loop-outside rounds (i + 1) (x / 2 ^ 4) j _ (omega arith) (omega arith)
    ∙ store_other str (15 - i) j (hex_char x) (==_false j (15 - i) (omega arith))

printhex_loop-digit :
    (rounds i x j d : ℕ) (str : Mem)
    → rounds + i ≡ 16
    → j + i + d ≡ 15
    → printhex_loop rounds i x str j ≡ digit_char (x / 16 ^ d % 16)
unfolding printhex_loop
printhex_loop-digit zero i x j d str e h = absurd (omega arith)
printhex_loop-digit (suc rounds) i x j zero str e h =
    printhex_loop-outside rounds (i + 1) (x / 2 ^ 4) j _ (omega arith) (omega arith)
    ∙ ap (λ (k : ℕ). store str k (hex_char x) j) {x = 15 - i} {y = j} (omega arith)
    ∙ rw (==_self j) (
        hex_char-digit x
        ∙ ap (λ (k : ℕ). digit_char (k % 16)) {x = x} {y = x / 16 ^ 0} (omega arith))
printhex_loop-digit (suc rounds) i x j (suc d) str e h =
    printhex_loop-digit rounds (i + 1) (x / 2 ^ 4) j d _ (omega arith) (omega arith)
    ∙ ap (λ (k : ℕ). digit_char (k % 16))
        (div-div-eq-div-mul x 16 (16 ^ d) ∙ ap (λ (k : ℕ). x / k) (sym (pow-succ' 16 d)))

-- `printhex` builds a string of the 16 hexadecimal digits of its number, the highest first and each
-- written as `printnum` writes it, and ends it with a 0.
pub printhex-digit_char :
    (x j d : ℕ) (str : Mem)
    → j + d ≡ 15
    → (printhex x str j ≡ digit_char (x / 16 ^ d % 16)) × (printhex x str 16 ≡ 0)
unfolding printhex
printhex-digit_char x j d str h = (
  store_other (printhex_loop 16 0 x str) 16 j 0 (==_false j 16 (omega arith))
      ∙ printhex_loop-digit 16 0 x j d str (omega arith) (omega arith),
  refl,
)
