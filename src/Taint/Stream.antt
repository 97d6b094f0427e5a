-- ===== src/Taint/Stream.antt =====
-- What `read_taints` uses of the input streams: `getline`, and `>>` to a word and to a 64-bit number.
-- A stream that has failed or has come to its end extracts nothing and leaves the variable alone.
use cellift_meta.Base.{
  ℕ, ◌+◌, ◌-◌, ◌*◌, ◌%◌, ◌^◌, Bool, true, false, ◌&&◌, ◌||◌, Option, none, some, List, [], ◌∷◌, leb,
  ltb, ◌==◌, if◌then◌else◌,
}

abbrev pub newline : ℕ
newline = 10

abbrev pub extend : ℕ → List (List ℕ) → List (List ℕ)
extend c [] = (c ∷ []) ∷ []
extend c (line ∷ lines') = (c ∷ line) ∷ lines'

-- The lines that `getline` gives, one after the other; no line starts behind the last newline.
unfoldable pub lines : List ℕ → List (List ℕ)
lines [] = []
lines (c ∷ cs) = let rest = lines cs in if c == newline then [] ∷ rest else extend c rest

-- What is left of a stream, and whether an extraction from it can still succeed.
pub record Stream : Type 0 where
  pub rest : List ℕ
  pub good : Bool

abbrev pub stream : List ℕ → Stream
stream cs = record { rest = cs; good = true }

abbrev pub stopped : Stream
stopped = record { rest = []; good = false }

-- A stream behind an extraction that went well: at its end it is no longer good.
abbrev pub behind : List ℕ → Stream
behind [] = stopped
behind (c ∷ cs) = stream (c ∷ cs)

abbrev pub is_space : ℕ → Bool
is_space c = c == 32 || (leb 9 c && leb c 13)

unfoldable pub skip_blanks : List ℕ → List ℕ
skip_blanks [] = []
skip_blanks (c ∷ cs) = let rest = skip_blanks cs in if is_space c then rest else c ∷ cs

-- The characters up to a space, and what follows them.
unfoldable pub word : List ℕ → List ℕ × List ℕ
word [] = ([], [])
word (c ∷ cs) =
    let (taken, rest) = word cs in if is_space c then ([], c ∷ cs) else (c ∷ taken, rest)

abbrev pub word_or : List ℕ → List ℕ → List ℕ × Stream
word_or old [] = (old, stopped)
word_or old (c ∷ cs) = let (taken, rest) = word (c ∷ cs) in (taken, behind rest)

-- `isstream >> str`, where `old` is the value of `str`.
unfoldable pub extract_word : List ℕ → Stream → List ℕ × Stream
unfolding word skip_blanks
extract_word old s = if s.good then word_or old (skip_blanks s.rest) else (old, stopped)

-- The value of a digit in a base up to sixteen.
unfoldable pub digit_value : ℕ → ℕ → Option ℕ
digit_value base c =
    let v =
      if leb b'0' c && leb c b'9'
      then c - b'0'
      else if leb b'a' c && leb c b'f'
      then c - b'a' + 10
      else if leb b'A' c && leb c b'F'
      then c - b'A' + 10
      else base in
    if ltb v base then some v else none

-- The digits of a number: their value, with what is read before them, whether there is one, and what
-- follows them.
unfoldable pub digits : ℕ → ℕ → Bool → List ℕ → ℕ × Bool × List ℕ
unfolding digit_value
digits base n any [] = (n, any, [])
digits base n any (c ∷ cs) = elim (digit_value base c) [
  | none ↦ (n, any, c ∷ cs)
  | some v ↦ digits base (n * base + v) true cs
]

abbrev pub sign : List ℕ → Bool × List ℕ
sign [] = (false, [])
sign (c ∷ cs) = if c == b'-' then (true, cs) else if c == b'+' then (false, cs) else (false, c ∷ cs)

-- In base sixteen, `0x` may stand before the digits.
abbrev pub prefixed : ℕ → List ℕ → List ℕ
prefixed base (zero_digit ∷ x ∷ cs) =
    if base == 16 && (zero_digit == b'0' && (x == b'x' || x == b'X'))
    then cs
    else zero_digit ∷ x ∷ cs
prefixed base cs = cs

-- A number that does not fit becomes the largest, one without a digit 0, and both fail.
abbrev pub number_of : Bool → ℕ × Bool × List ℕ → ℕ × Stream
number_of negative (n, false, rest) = (0, stopped)
number_of negative (n, true, rest) =
    if leb (2 ^ 64) n
    then (2 ^ 64 - 1, stopped)
    else if negative
    then ((2 ^ 64 - n) % 2 ^ 64, behind rest)
    else (n, behind rest)

unfoldable pub scan_number : ℕ → List ℕ → ℕ × Stream
unfolding digits
scan_number base cs =
    let (negative, cs') = sign cs in number_of negative (digits base 0 false (prefixed base cs'))

abbrev pub number_or : ℕ → Option ℕ → List ℕ → Option ℕ × Stream
number_or base old [] = (old, stopped)
number_or base old (c ∷ cs) = let (n, s) = scan_number base (c ∷ cs) in (some n, s)

-- `isstream >> n`, where `old` is the value of `n`, if it has one.
unfoldable pub extract_number : ℕ → Option ℕ → Stream → Option ℕ × Stream
unfolding scan_number skip_blanks
extract_number base old s =
    if s.good then number_or base old (skip_blanks s.rest) else (old, stopped)
