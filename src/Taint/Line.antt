-- ===== src/Taint/Line.antt =====
-- What `read_taints` extracts from a line: an id, an address with `0x`, a length and the taint.
use cellift_meta.Base.{
  append_nil, ℕ, ◌<◌, ◌≤◌, ◌≡◌, refl, sym, ap, ◌∙◌, Bool, true, false, Option, some, List, [], ◌∷◌,
  ◌++◌, All, if◌then◌else◌, arith,
}
use cellift_meta.Taint.Stream.{
  Stream, stream, stopped, behind, is_space, skip_blanks, word, extract_word, extract_number,
  number_or, word_or,
}
use cellift_meta.Taint.Hex.{hex_digit}
use cellift_meta.Taint.Numeral.{
  value_of, numeral, IsNumeral, IsEnd, scan_number-decimal, scan_number-hexadecimal,
}

abbrev pub AreGraphic : List ℕ → Type 0
AreGraphic cs = All (λ c. is_space c ≡ false) cs

pub hex_digit-graphic : (v : ℕ) → v < 16 → is_space (hex_digit false v) ≡ false
hex_digit-graphic v h = ground arith

pub numeral-AreGraphic :
    (base : ℕ) (vs : List ℕ) → base ≤ 16 → All (λ w. w < base) vs → AreGraphic (numeral vs)
numeral-AreGraphic base [] le small = tt
numeral-AreGraphic base (v ∷ vs) le (h, small) =
    (hex_digit-graphic v (omega arith), numeral-AreGraphic base vs le small)

pub skip_blanks-graphic : (c : ℕ) (cs : List ℕ) → is_space c ≡ false → skip_blanks (c ∷ cs) ≡ c ∷ cs
unfolding skip_blanks
skip_blanks-graphic c cs h = ap (λ b. if b then skip_blanks cs else c ∷ cs) h

word-graphic : (cs rest : List ℕ) → AreGraphic cs → IsEnd rest → word (cs ++ rest) ≡ (cs, rest)
unfolding word
word-graphic [] [] graphic end = refl
word-graphic [] (c ∷ rest) graphic end =
    ap (λ b. if b then ([], c ∷ rest) else (c ∷ (word rest).0, (word rest).1)) end
word-graphic (c ∷ cs) rest (h, graphic) end =
    ap (λ b. if b then ([], c ∷ cs ++ rest) else (c ∷ (word (cs ++ rest)).0, (word (cs ++ rest)).1))
      h
    ∙ ap (λ (p : List ℕ × List ℕ). (c ∷ p.0, p.1)) (word-graphic cs rest graphic end)

-- A word at the start of a stream, or behind one space.
pub extract_word-graphic :
    (old : List ℕ) (lead : Bool) (c : ℕ) (cs rest : List ℕ)
    → is_space c ≡ false
    → AreGraphic cs
    → IsEnd rest
    → extract_word old (stream (if lead then b' ' ∷ c ∷ cs ++ rest else c ∷ cs ++ rest))
      ≡ (c ∷ cs, behind rest)
unfolding extract_word skip_blanks
extract_word-graphic old true c cs rest h graphic end =
    ap (word_or old) (skip_blanks-graphic c (cs ++ rest) h)
    ∙ ap (λ (p : List ℕ × List ℕ). (p.0, behind p.1)) (word-graphic (c ∷ cs) rest (h, graphic) end)
extract_word-graphic old false c cs rest h graphic end =
    ap (word_or old) (skip_blanks-graphic c (cs ++ rest) h)
    ∙ ap (λ (p : List ℕ × List ℕ). (p.0, behind p.1)) (word-graphic (c ∷ cs) rest (h, graphic) end)

-- A decimal number at the start of a stream, or behind one space.
pub extract_number-decimal :
    (old : Option ℕ) (lead : Bool) (v : ℕ) (vs rest : List ℕ)
    → IsNumeral 10 v vs
    → IsEnd rest
    → extract_number 10 old
        (stream (if lead then b' ' ∷ numeral (v ∷ vs) ++ rest else numeral (v ∷ vs) ++ rest))
      ≡ (some (value_of 10 0 (v ∷ vs)), behind rest)
unfolding extract_number skip_blanks
extract_number-decimal old true v vs rest (h, more, fits) end =
    ap (number_or 10 old) (
      skip_blanks-graphic (hex_digit false v) (numeral vs ++ rest)
        (hex_digit-graphic v (omega arith)))
    ∙ ap (λ (p : ℕ × Stream). (some p.0, p.1)) (scan_number-decimal v vs rest (h, more, fits) end)
extract_number-decimal old false v vs rest (h, more, fits) end =
    ap (number_or 10 old) (
      skip_blanks-graphic (hex_digit false v) (numeral vs ++ rest)
        (hex_digit-graphic v (omega arith)))
    ∙ ap (λ (p : ℕ × Stream). (some p.0, p.1)) (scan_number-decimal v vs rest (h, more, fits) end)

pub extract_number-hexadecimal :
    (old : Option ℕ) (v : ℕ) (vs : List ℕ)
    → IsNumeral 16 v vs
    → extract_number 16 old (stream (b'0' ∷ b'x' ∷ numeral (v ∷ vs)))
      ≡ (some (value_of 16 0 (v ∷ vs)), stopped)
unfolding extract_number skip_blanks
extract_number-hexadecimal old v vs num =
    ap (λ cs. number_or 16 old (b'0' ∷ b'x' ∷ cs)) (sym (append_nil (numeral (v ∷ vs))))
    ∙ ap (λ (p : ℕ × Stream). (some p.0, p.1)) (scan_number-hexadecimal v vs num)
