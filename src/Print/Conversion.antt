-- ===== src/Print/Conversion.antt =====
-- `vprintfmt`: the conversions of an escape, and the loop over the format.
use cellift_meta.Base.{
  ℕ, zero, suc, ◌+◌, ◌-◌, ◌%◌, ◌^◌, not, ◌&&◌, Option, none, some, List, [], ◌∷◌, ◌++◌, leb, ◌==◌,
  if◌then◌else◌, length, min, ℤ, pos, negsuc, sub_ℕ, ltb_ℤ, pos_part, neg_part,
}
use cellift_meta.Print.{printnum}
use cellift_meta.Print.Flags.{
  Arg, word, text, Flags, initial, getuint, getint, Escape, escape, escape_fault, escape_fuel,
  read_flags,
}

-- `for (; width > 0; width--) putch(c);`
unfoldable pub pad : ℤ → ℕ → List ℕ
pad (pos zero) c = []
pad (pos (suc w)) c = c ∷ pad (pos w) c
pad (negsuc w) c = []

abbrev pub pred_ℤ : ℤ → ℤ
pred_ℤ (pos zero) = negsuc 0
pred_ℤ (pos (suc n)) = pos n
pred_ℤ (negsuc n) = negsuc (suc n)

-- `strnlen(p, precision)`: a negative bound is a huge `size_t`.
unfoldable pub bounded_length : List ℕ → ℤ → ℕ
bounded_length p (pos n) = min (length p) n
bounded_length p (negsuc n) = length p

-- The middle loop of `%s`: what it writes, and the width that is left.
unfoldable pub text_body : List ℕ → ℤ → ℤ → List ℕ × ℤ
text_body [] w precision = ([], w)
text_body (c ∷ cs) w (pos zero) = ([], w)
text_body (c ∷ cs) w (pos (suc q)) =
    let rest = text_body cs (pred_ℤ w) (pos q) in (c ∷ rest.0, rest.1)
text_body (c ∷ cs) w (negsuc q) =
    let rest = text_body cs (pred_ℤ w) (negsuc q) in (c ∷ rest.0, rest.1)

abbrev pub null_text : List ℕ
null_text = b'(' ∷ b'n' ∷ b'u' ∷ b'l' ∷ b'l' ∷ b')' ∷ []

-- The first loop of `%s` runs only with a width and a pad character other than `-`.
unfoldable pub text_rest : ℤ → ℤ → List ℕ → List ℕ
unfolding pad text_body
text_rest width precision p = let body = text_body p width precision in body.0 ++ pad body.1 b' '

unfoldable pub text_field : ℕ → ℤ → ℤ → List ℕ → List ℕ
text_field padc width precision p =
    let free = sub_ℕ (pos_part width) (neg_part width + bounded_length p precision) in
    if ltb_ℤ (pos 0) width && not (padc == b'-')
    then pad free padc ++ text_rest (if ltb_ℤ (pos 0) free then pos 0 else free) precision p
    else text_rest width precision p

unfoldable pub text_out : Flags → List ℕ → List ℕ
unfolding text_field text_rest pad bounded_length
text_out fl p = text_field fl.padc fl.width fl.precision p

-- The last one is a `printnum` whose first loop did not end within its fuel.
pub data Converted : Type 0 where
  printed : List ℕ → List Arg → Converted
  unknown : Converted
  fault : Converted
  endless : Converted

unfoldable pub with_prefix : List ℕ → List Arg → Option (List ℕ) → Converted
with_prefix prefix args none = endless
with_prefix prefix args (some out) = printed (prefix ++ out) args

-- The cases that read an integer.
unfoldable pub signed_number : Flags → List Arg → Converted
unfolding getint with_prefix
signed_number fl (word v ∷ args) =
    let num = getint fl.lflag v in
    if leb (2 ^ 63) num
    then with_prefix (b'-' ∷ []) args (printnum ((2 ^ 64 - num) % 2 ^ 64) 10 fl.width fl.padc)
    else with_prefix [] args (printnum num 10 fl.width fl.padc)
signed_number fl _ = fault

unfoldable pub unsigned_number : Flags → List ℕ → ℕ → List Arg → Converted
unfolding getuint with_prefix
unsigned_number fl prefix base (word v ∷ args) =
    with_prefix prefix args (printnum (getuint fl.lflag v) base fl.width fl.padc)
unsigned_number fl prefix base _ = fault

unfoldable pub char_out : List Arg → Converted
char_out (word v ∷ args) = printed ((v % 2 ^ 32) ∷ []) args
char_out _ = fault

unfoldable pub string_out : Flags → List Arg → Converted
unfolding text_out
string_out fl (text none ∷ args) = printed (text_out fl null_text) args
string_out fl (text (some p) ∷ args) = printed (text_out fl p) args
string_out fl _ = fault

unfoldable pub conversion : ℕ → Flags → List Arg → Converted
unfolding signed_number unsigned_number char_out string_out
conversion c fl args =
    if c == b'c'
    then char_out args
    else if c == b's'
    then string_out fl args
    else if c == b'd'
    then signed_number fl args
    else if c == b'u'
    then unsigned_number fl [] 10 args
    else if c == b'o'
    then unsigned_number fl [] 8 args
    else if c == b'p'
    then unsigned_number (record fl { lflag = 1 }) (b'0' ∷ b'x' ∷ []) 16 args
    else if c == b'x'
    then unsigned_number fl [] 16 args
    else if c == b'%'
    then printed (c ∷ []) args
    else unknown

pub data Outcome : Type 0 where
  done : List ℕ → Outcome
  undefined : Outcome
  out_of_fuel : Outcome

abbrev pub prepend : List ℕ → Outcome → Outcome
prepend out (done rest) = done (out ++ rest)
prepend out undefined = undefined
prepend out out_of_fuel = out_of_fuel

-- What a turn of the outer loop does with its escape; `next` is the rest of the loop. An unknown
-- escape is written as it stands, from `last_fmt` on, but the arguments that its flags took stay
-- taken.
module _ (next : List ℕ → List Arg → Outcome) (last_fmt : List ℕ) where
  unfoldable pub after_conversion : List ℕ → List Arg → Converted → Outcome
  after_conversion rest args (printed out args') = prepend out (next rest args')
  after_conversion rest args unknown = prepend (b'%' ∷ []) (next last_fmt args)
  after_conversion rest args fault = undefined
  after_conversion rest args endless = out_of_fuel

  unfoldable pub after_flags : Escape → Outcome
  unfolding after_conversion conversion
  after_flags (escape c fl rest args) = after_conversion rest args (conversion c fl args)
  after_flags escape_fault = undefined
  after_flags escape_fuel = out_of_fuel

unfoldable pub turn : (List ℕ → List Arg → Outcome) → ℕ → List ℕ → List Arg → Outcome
unfolding read_flags after_flags
turn next c cs args =
    if c == b'%'
    then after_flags next cs (read_flags (suc (length cs)) initial cs args)
    else prepend (c ∷ []) (next cs args)

unfoldable pub vprintfmt : ℕ → List ℕ → List Arg → Outcome
unfolding turn
vprintfmt zero fmt args = out_of_fuel
vprintfmt (suc fuel) [] args = done []
vprintfmt (suc fuel) (c ∷ cs) args = turn (vprintfmt fuel) c cs args

-- The format with the fuel that suffices for it.
unfoldable pub format : List ℕ → List Arg → Outcome
unfolding vprintfmt
format fmt args = vprintfmt (suc (length fmt)) fmt args
