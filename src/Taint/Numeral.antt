-- ===== src/Taint/Numeral.antt =====
-- The extraction of a number that is written in digits.
use cellift_meta.Base.{
  ℕ, ◌+◌, ◌*◌, ◌^◌, ◌<◌, ◌≤◌, ◌≡◌, refl, ap, ◌∙◌, Bool, true, false, none, some, List, [], ◌∷◌,
  ◌++◌, map, All, ◌==◌, arith, lt→leb,
}
use cellift_meta.Taint.Stream.{
  stopped, behind, is_space, digit_value, digits, scan_number, sign, prefixed, number_of,
}
use cellift_meta.Taint.Hex.{hex_digit}

-- The value of digits, behind those of the value `n`.
abbrev pub value_of : ℕ → ℕ → List ℕ → ℕ
value_of base n [] = n
value_of base n (v ∷ vs) = value_of base (n * base + v) vs

-- The characters of digits.
abbrev pub numeral : List ℕ → List ℕ
numeral vs = map (hex_digit false) vs

-- Digits of a number that fits into 64 bits.
abbrev pub IsNumeral : ℕ → ℕ → List ℕ → Type 0
IsNumeral base v vs = (v < base) × All (λ w. w < base) vs × (value_of base 0 (v ∷ vs) < 2 ^ 64)

digit_value-hex_digit :
    (base v : ℕ) → base ≤ 16 → v < base → digit_value base (hex_digit false v) ≡ some v
unfolding digit_value
digit_value-hex_digit base v le lt = ground arith

digit_value-space : (base c : ℕ) → base ≤ 16 → is_space c ≡ true → digit_value base c ≡ none
unfolding digit_value
digit_value-space base c le space = ground arith

-- The end of a line, or a space.
abbrev pub IsEnd : List ℕ → Type 0
IsEnd [] = Unit {0}
IsEnd (c ∷ cs) = is_space c ≡ true

digits-end :
    (base n : ℕ) (any : Bool) (rest : List ℕ)
    → base ≤ 16
    → IsEnd rest
    → digits base n any rest ≡ (n, any, rest)
unfolding digits
digits-end base n any [] le end = refl
digits-end base n any (c ∷ cs) le end = rw (digit_value-space base c le end, digits) refl

digits-numeral :
    (base n : ℕ) (vs rest : List ℕ)
    → base ≤ 16
    → All (λ w. w < base) vs
    → IsEnd rest
    → digits base n true (numeral vs ++ rest) ≡ (value_of base n vs, true, rest)
unfolding digits
digits-numeral base n [] rest le small end = digits-end base n true rest le end
digits-numeral base n (v ∷ vs) rest le (h, small) end =
    rw (digit_value-hex_digit base v le h, digits)
      (digits-numeral base (n * base + v) vs rest le small end)

-- The digits of a number, whatever is read before the first one.
pub digits-first :
    (base v : ℕ) (vs rest : List ℕ)
    → base ≤ 16
    → v < base
    → All (λ w. w < base) vs
    → IsEnd rest
    → digits base 0 false (numeral (v ∷ vs) ++ rest) ≡ (value_of base 0 (v ∷ vs), true, rest)
unfolding digits
digits-first base v vs rest le h small end =
    rw (digit_value-hex_digit base v le h, digits)
      (digits-numeral base (0 * base + v) vs rest le small end)

number_of-fits :
    (n : ℕ) (rest : List ℕ) → n < 2 ^ 64 → number_of false (n, true, rest) ≡ (n, behind rest)
number_of-fits n rest h = rw (lt→leb n (2 ^ 64) h, number_of) refl

prefixed-ten : (cs : List ℕ) → prefixed 10 cs ≡ cs
prefixed-ten [] = refl
prefixed-ten (c ∷ []) = refl
prefixed-ten (c ∷ d ∷ cs) = refl

pub sign-hex_digit :
    (v : ℕ) (cs : List ℕ) → v < 10 → sign (hex_digit false v ∷ cs) ≡ (false, hex_digit false v ∷ cs)
sign-hex_digit v cs h =
    let minus : (hex_digit false v == b'-') ≡ false = ground arith in
    let plus : (hex_digit false v == b'+') ≡ false = ground arith in rw (minus, plus, sign) refl

pub scan_number-decimal :
    (v : ℕ) (vs rest : List ℕ)
    → IsNumeral 10 v vs
    → IsEnd rest
    → scan_number 10 (numeral (v ∷ vs) ++ rest) ≡ (value_of 10 0 (v ∷ vs), behind rest)
unfolding scan_number
scan_number-decimal v vs rest (h, small, fits) end =
    ap (λ (p : Bool × List ℕ). number_of p.0 (digits 10 0 false (prefixed 10 p.1)))
      (sign-hex_digit v (numeral vs ++ rest) h)
    ∙ ap (λ cs. number_of false (digits 10 0 false cs)) (prefixed-ten (numeral (v ∷ vs) ++ rest))
    ∙ ap (number_of false) (digits-first 10 v vs rest (omega arith) h small end)
    ∙ number_of-fits (value_of 10 0 (v ∷ vs)) rest fits

pub scan_number-hexadecimal :
    (v : ℕ) (vs : List ℕ)
    → IsNumeral 16 v vs
    → scan_number 16 (b'0' ∷ b'x' ∷ (numeral (v ∷ vs) ++ [])) ≡ (value_of 16 0 (v ∷ vs), stopped)
unfolding scan_number
scan_number-hexadecimal v vs (h, small, fits) =
    ap (number_of false) (digits-first 16 v vs [] (omega arith) h small tt)
    ∙ number_of-fits (value_of 16 0 (v ∷ vs)) [] fits
