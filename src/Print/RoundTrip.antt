-- ===== src/Print/RoundTrip.antt =====
-- `sprintf` and `atol` are inverse on 64-bit integers.
use mathlib.Core.List.{append-nil}
use native.Mathlib.Nat.{mod-eq_of_lt}
use cellift_meta.Base.{
  length-map, ℕ, ◌+◌, ◌-◌, ◌*◌, ◌^◌, ◌<◌, ◌≤◌, ◌≡◌, ◌≢◌, refl, ap, ◌∙◌, Bool, true, false, inl, inr,
  List, [], ◌∷◌, ◌++◌, Option, none, some, arith, length, map, All, Mem, leb, if◌then◌else◌,
  Bool-cases, negsuc,
}
use cellift_meta.CString.{atol}
use cellift_meta.CString.Number.{
  IsDigits, decimal, decimal_from, sign_chars, signed_long, atol-decimal,
}
use cellift_meta.Print.{digit_char}
use cellift_meta.Print.Digits.{IsNumeral, value_from, printnum-IsNumeral}
use cellift_meta.Print.Conversion.{done, format}
use cellift_meta.Print.Flags.{word}
use cellift_meta.Print.Sink.{sprintf, sprintf-IsString, IsText}

-- `%ld`
abbrev pub percent_ld : List ℕ
percent_ld = b'%' ∷ b'l' ∷ b'd' ∷ []

-- The magnitude and the sign of a 64-bit pattern.
abbrev pub magnitude : ℕ → ℕ
magnitude v = if leb (2 ^ 63) v then 2 ^ 64 - v else v

abbrev pub sign : ℕ → Option Bool
sign v = if leb (2 ^ 63) v then some true else none

-- `%ld` writes a `-` for a negative number, and the decimal numeral of its magnitude.
pub format-percent_ld :
    (v : ℕ)
    → v < 2 ^ 64
    → (ds : List ℕ) × IsNumeral 10 (magnitude v) ds
      × (length ds ≤ 64)
      × (format percent_ld (word v ∷ []) ≡ done (sign_chars (sign v) ++ map digit_char ds))
unfolding format
format-percent_ld v h = elim (Bool-cases (leb (2 ^ 63) v)) [
  | inl negative ↦
      let (ds, n, short, run) =
        printnum-IsNumeral (2 ^ 64 - v) 10 b' ' (negsuc 0) (omega arith) (ground arith) in
      rw
        (
          mod-eq_of_lt {n = v} {m = 2 ^ 64} h,
          negative,
          mod-eq_of_lt {n = 2 ^ 64 - v} {m = 2 ^ 64} (ground arith),
        )
        (ds, n, short, rw run (ap done (append-nil (b'-' ∷ map digit_char ds))))
  | inr positive ↦
      let (ds, n, short, run) = printnum-IsNumeral v 10 b' ' (negsuc 0) (omega arith) h in
      rw (mod-eq_of_lt {n = v} {m = 2 ^ 64} h, positive)
        (ds, n, short, rw run (ap done (append-nil (map digit_char ds))))
]

digit_char-digit : (d : ℕ) → d < 10 → digit_char d ≡ d + b'0'
unfolding digit_char
digit_char-digit d h = ground arith

map-digit_char-IsDigits : (ds : List ℕ) → All (λ d. d < 10) ds → IsDigits (map digit_char ds)
map-digit_char-IsDigits [] h = tt
map-digit_char-IsDigits (d ∷ ds) h =
    (omega (arith, digit_char-digit d h.0), map-digit_char-IsDigits ds h.1)

decimal_from-digits :
    (acc : ℕ) (ds : List ℕ)
    → All (λ d. d < 10) ds
    → decimal_from acc (map digit_char ds) ≡ value_from 10 acc ds
unfolding decimal_from value_from
decimal_from-digits acc [] h = refl
decimal_from-digits acc (d ∷ ds) h =
    ap (λ (k : ℕ). decimal_from k (map digit_char ds)) (omega (arith, digit_char-digit d h.0))
    ∙ decimal_from-digits (acc * 10 + d) ds h.1

IsDigits-IsText : (cs : List ℕ) → IsDigits cs → IsText cs
IsDigits-IsText [] h = tt
IsDigits-IsText (c ∷ cs) h = (omega arith, IsDigits-IsText cs h.1)

sign_chars-IsText : (s : Option Bool) (cs : List ℕ) → IsDigits cs → IsText (sign_chars s ++ cs)
sign_chars-IsText none cs h = IsDigits-IsText cs h
sign_chars-IsText (some true) cs h = (omega arith, IsDigits-IsText cs h)
sign_chars-IsText (some false) cs h = (omega arith, IsDigits-IsText cs h)

signed_long-magnitude : (v : ℕ) → v < 2 ^ 64 → signed_long 3 (sign v) (magnitude v) ≡ v
signed_long-magnitude v h = ground arith

-- `sprintf(buf, "%ld", v)` followed by `atol(buf)` gives `v` back, for each 64-bit integer but the
-- least, whose magnitude is no `long`.
pub atol-sprintf :
    (m : Mem) (buf v fuel : ℕ)
    → v < 2 ^ 64
    → v ≢ 2 ^ 63
    → 65 < fuel
    → (m' : Mem) × (n : ℕ) × (sprintf m buf percent_ld (word v ∷ []) ≡ some (m', n))
      × (atol 3 fuel m' buf ≡ some v)
atol-sprintf m buf v fuel h ne enough =
    let (ds, n, short, run) = format-percent_ld v h in
    let digits : IsDigits (map digit_char ds) = map-digit_char-IsDigits ds n.digits in
    let (m', writes, s, frame) =
      sprintf-IsString m buf percent_ld (sign_chars (sign v) ++ map digit_char ds) (word v ∷ []) run
        (sign_chars-IsText (sign v) (map digit_char ds) digits) in
    let value : decimal (map digit_char ds) ≡ magnitude v =
      unfold decimal in (decimal_from-digits 0 ds n.digits ∙ n.value) in
    (
      m',
      _,
      writes,
      atol-decimal 3 fuel m' buf 0 (sign v) (map digit_char ds) s digits (ground arith)
            (omega (arith, short, length-map digit_char ds))
          ∙ ap some (rw value (signed_long-magnitude v h)),
    )
