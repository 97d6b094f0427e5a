-- ===== src/Print/Tests.antt =====
-- Runs of the formatted output, and what the theorems say of them.
use cellift_meta.Base.{
  ℕ, ◌-◌, ◌^◌, ◌≤◌, ◌≡◌, ◌≢◌, refl, none, some, List, [], ◌∷◌, ◌++◌, arith, Mem, pos, length, map,
}
use cellift_meta.CString.{atol}
use cellift_meta.Print.{printnum, digit_char}
use cellift_meta.Print.Digits.{IsNumeral, fill, printnum-IsNumeral}
use cellift_meta.Print.Flags.{Arg, word, text}
use cellift_meta.Print.Conversion.{done, out_of_fuel, vprintfmt, format}
use cellift_meta.Print.Format.{vprintfmt_total}
use cellift_meta.Print.Sink.{Console, sprintf}
use cellift_meta.Print.Hex.{printhex}
use cellift_meta.Print.RoundTrip.{percent_ld, atol-sprintf}

-- `[%04x]%-3d|%s`
abbrev mixed : List ℕ
mixed =
    b'[' ∷ b'%' ∷ b'0' ∷ b'4' ∷ b'x' ∷ b']' ∷ b'%' ∷ b'-' ∷ b'3' ∷ b'd' ∷ b'|' ∷ b'%' ∷ b's' ∷ []

abbrev mixed_args : List Arg
mixed_args = word 0x2f ∷ word 7 ∷ text none ∷ []

-- A left-justified number is filled in front, with the flag's own character.
mixed_run :
    format mixed mixed_args
    ≡ done (
        b'[' ∷ b'0' ∷ b'0' ∷ b'2' ∷ b'f' ∷ b']' ∷ b'-' ∷ b'-' ∷ b'7' ∷ b'|' ∷ b'(' ∷ b'n' ∷ b'u'
        ∷ b'l' ∷ b'l' ∷ b')' ∷ [])
unfolding format printnum
mixed_run = refl

abbrev idle : Console
idle = record { pending = []; written = [] }

-- `x%c`
abbrev char_format : List ℕ
char_format = b'x' ∷ b'%' ∷ b'c' ∷ []

char_run : format char_format (word b'y' ∷ []) ≡ done (b'x' ∷ b'y' ∷ [])
unfolding format
char_run = refl

atol-sprintf_example :
    (m' : Mem) × (n : ℕ) × (sprintf (λ _. 0) 16 percent_ld (word (2 ^ 64 - 42) ∷ []) ≡ some (m', n))
    × (atol 3 70 m' 16 ≡ some (2 ^ 64 - 42))
atol-sprintf_example =
    atol-sprintf (λ _. 0) 16 (2 ^ 64 - 42) 70 (omega arith) (omega arith) (omega arith)

vprintfmt_total_example : vprintfmt 14 mixed mixed_args ≢ out_of_fuel
vprintfmt_total_example = vprintfmt_total 14 mixed mixed_args (omega arith)

printnum-IsNumeral_example :
    (ds : List ℕ) × IsNumeral 16 255 ds
    × (length ds ≤ 64)
    × (printnum 255 16 (pos 4) b'0' ≡ some (fill (pos 4) (length ds) b'0' ++ map digit_char ds))
printnum-IsNumeral_example = printnum-IsNumeral 255 16 b'0' (pos 4) (omega arith) (omega arith)

printhex_run : printhex 0x12ab (λ _. 7) 14 ≡ b'a'
unfolding printhex
printhex_run = refl
