-- ===== src/Print.antt =====
-- The formatted output of benchmarks/benchmarks/common/syscalls.c, on a 64-bit target. `printnum`
-- and `vprintfmt` never look at what `putch` does with a character, so they are functions to the
-- list of the characters that they hand to it; `printf` and `sprintf` fold their `putch` over it.
-- The buffer of `putchar` belongs to one thread, and `syscall` adds a chunk to what was written.
pub mod Digits
pub mod Flags
pub mod Conversion
pub mod Text
pub mod Format
pub mod Sink
pub mod RoundTrip
pub mod Hex
pub mod Tests
use cellift_meta.Base.{
  ℕ, zero, suc, ◌+◌, ◌-◌, ◌*◌, ◌/◌, ◌%◌, ◌^◌, Bool, true, false, not, ◌&&◌, ◌||◌, Option, none,
  some, List, [], ◌∷◌, ◌++◌, ltb, leb, ◌==◌, if◌then◌else◌, length, replicate, Mem, store, ℤ, pos,
  negsuc, min,
}

-- `digs[digit] + (digs[digit] >= 10 ? 'a' - 10 : '0')`
unfoldable pub digit_char : ℕ → ℕ
digit_char d = d + (if leb 10 d then b'a' - 10 else b'0')

-- `digs` and `pos` when the first loop of `printnum` ends.
unfoldable pub collect : ℕ → ℕ → ℕ → Mem → ℕ → Option (Mem × ℕ)
collect zero base num digs place = none
collect (suc fuel) base num digs place =
    let digs' = store digs place (num % base) in
    let rest = collect fuel base (num / base) digs' (place + 1) in
    if ltb num base then some (digs', place + 1) else rest

-- `while (width-- > pos) putch(padc);`
unfoldable pub padding : ℤ → ℕ → ℕ → List ℕ
padding (pos zero) place padc = []
padding (pos (suc w)) place padc =
    let rest = padding (pos w) place padc in if ltb place (suc w) then padc ∷ rest else []
padding (negsuc w) place padc = []

-- `while (pos-- > 0) putch(digs[pos] …);`
unfoldable pub emit : Mem → ℕ → List ℕ
unfolding digit_char
emit digs zero = []
emit digs (suc place) = digit_char (digs place) ∷ emit digs place

unfoldable pub printnum_out : ℤ → ℕ → Option (Mem × ℕ) → Option (List ℕ)
unfolding padding emit
printnum_out width padc none = none
printnum_out width padc (some (digs, place)) = some (padding width place padc ++ emit digs place)

-- The array `digs` holds one digit for each bit of `num`, 64 in all.
unfoldable pub printnum : ℕ → ℕ → ℤ → ℕ → Option (List ℕ)
unfolding printnum_out collect
printnum num base width padc = printnum_out width padc (collect 64 base num (λ _. 0) 0)
