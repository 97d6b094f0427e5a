-- ===== src/Print/Format.antt =====
-- `vprintfmt`: it ends, it copies what is no escape, and how `%ld` and unknown escapes come out.
use mathlib.Core.List.{append_assoc}
use cellift_meta.Base.{
  ℕ, zero, suc, ◌+◌, ◌-◌, ◌*◌, ◌<◌, ◌≤◌, ◌≡◌, ◌≢◌, ◌^◌, ◌%◌, Bool, true, false, leb, ℤ, none, some,
  if◌then◌else◌, refl, sym, ap, ◌∙◌, inl, inr, List, [], ◌∷◌, ◌++◌, arith, length, All, Bool-cases,
  ==_false, ◌==◌,
}
use cellift_meta.Print.Conversion.{
  after_conversion, after_flags, Converted, printed, unknown, fault, endless, with_prefix,
  signed_number, unsigned_number, char_out, string_out, conversion, Outcome, done, undefined,
  out_of_fuel, prepend, vprintfmt, format,
}
use cellift_meta.Print.{printnum}
use cellift_meta.Print.Digits.{printnum-IsNumeral}
use cellift_meta.Print.Flags.{
  sign_extend, getuint, getint, Arg, word, text, Flags, initial, Step, reswitch, convert, bad_arg,
  Escape, escape, escape_fault, escape_fuel, read_number, star, number, flag_step, read_flags,
  after_step,
}

-- How much of the format is left.
abbrev step_left : Step → ℕ
step_left (reswitch fl rest args) = length rest
step_left convert = 0
step_left bad_arg = 0

abbrev EscapeWithin : ℕ → Escape → Type 0
EscapeWithin n (escape c fl rest args) = length rest ≤ n
EscapeWithin n escape_fault = Unit
EscapeWithin n escape_fuel = ⊥

length-read_number : (cs : List ℕ) (n : ℕ) → length (read_number cs n).1 ≤ length cs
unfolding read_number
length-read_number [] n = omega arith
length-read_number (c ∷ cs) n = ground (arith, length-read_number cs (n * 10 + c - b'0'))

step_left-star :
    (fl : Flags) (cs : List ℕ) (args : List Arg) → step_left (star fl cs args) ≤ length cs
unfolding star
step_left-star fl cs [] = omega arith
step_left-star fl cs (word v ∷ args) = omega arith
step_left-star fl cs (text p ∷ args) = omega arith

step_left-number :
    (fl : Flags) (r : ℕ × List ℕ) (args : List Arg) → step_left (number fl r args) ≤ length r.1
unfolding number
step_left-number fl (n, rest) args = omega arith

step_left-flag_step :
    (fl : Flags) (c : ℕ) (cs : List ℕ) (args : List Arg)
    → step_left (flag_step fl c cs args) ≤ length cs
unfolding flag_step
step_left-flag_step fl c cs args = ground (
  arith,
  step_left-star fl cs args,
  step_left-number fl (read_number cs (c - b'0')) args,
  length-read_number cs (c - b'0'),
)

EscapeWithin-suc : (n k : ℕ) (e : Escape) → n ≤ k → EscapeWithin n e → EscapeWithin k e
EscapeWithin-suc n k (escape c fl rest args) h w = omega arith
EscapeWithin-suc n k escape_fault h w = tt
EscapeWithin-suc n k escape_fuel h w = w

module _ (next : Flags → List ℕ → List Arg → Escape) (n : ℕ)
    (within : (fl : Flags) (fmt : List ℕ) (args : List Arg)
      → length fmt ≤ n
      → EscapeWithin (length fmt) (next fl fmt args)) where
  after_step-within :
      (c : ℕ) (fl : Flags) (cs : List ℕ) (args : List Arg) (s : Step)
      → length cs ≤ n
      → step_left s ≤ length cs
      → EscapeWithin (suc (length cs)) (after_step next c fl cs args s)
  unfolding after_step
  after_step-within c fl cs args (reswitch fl' cs' args') fits w =
      EscapeWithin-suc (length cs') (suc (length cs)) (next fl' cs' args') (omega arith)
        (within fl' cs' args' (omega arith))
  after_step-within c fl cs args convert fits w = omega arith
  after_step-within c fl cs args bad_arg fits w = tt

read_flags-within :
    (fuel : ℕ) (fl : Flags) (fmt : List ℕ) (args : List Arg)
    → length fmt < fuel
    → EscapeWithin (length fmt) (read_flags fuel fl fmt args)
unfolding read_flags
read_flags-within zero fl fmt args h = absurd (omega arith)
read_flags-within (suc fuel) fl [] args h = omega arith
read_flags-within (suc fuel) fl (c ∷ cs) args h =
    after_step-within (read_flags fuel) (length cs)
      (λ fl' fmt' args' fits. read_flags-within fuel fl' fmt' args' (omega arith)) c fl cs args
      (flag_step fl c cs args) (omega arith) (step_left-flag_step fl c cs args)

getuint-lt : (lflag v : ℕ) → getuint lflag v < 2 ^ 64
unfolding getuint
getuint-lt lflag v = ground arith

getint-lt : (lflag v : ℕ) → getint lflag v < 2 ^ 64
unfolding getint sign_extend
getint-lt lflag v = ground arith

-- The loop of `printnum` over the digits ends.
with_prefix-ends :
    (prefix : List ℕ) (args : List Arg) (num base padc : ℕ) (width : ℤ)
    → 2 ≤ base
    → num < 2 ^ 64
    → with_prefix prefix args (printnum num base width padc) ≢ endless
unfolding with_prefix
with_prefix-ends prefix args num base padc width two fits e =
    let (ds, numeral, short, run) = printnum-IsNumeral num base padc width two fits in
    let there = ap (with_prefix prefix args) (sym run) ∙ e in ground arith

signed_number-ends : (fl : Flags) (args : List Arg) → signed_number fl args ≢ endless
unfolding signed_number
signed_number-ends fl [] = λ e. ground arith
signed_number-ends fl (text p ∷ args) = λ e. ground arith
signed_number-ends fl (word v ∷ args) = elim (Bool-cases (leb (2 ^ 63) (getint fl.lflag v))) [
  | inl negative ↦ rw negative (
      with_prefix-ends (b'-' ∷ []) args ((2 ^ 64 - getint fl.lflag v) % 2 ^ 64) 10 fl.padc fl.width
        (omega arith) (omega arith))
  | inr positive ↦ rw positive (
      with_prefix-ends [] args (getint fl.lflag v) 10 fl.padc fl.width (omega arith)
        (getint-lt fl.lflag v))
]

unsigned_number-ends :
    (fl : Flags) (prefix : List ℕ) (base : ℕ) (args : List Arg)
    → 2 ≤ base
    → unsigned_number fl prefix base args ≢ endless
unfolding unsigned_number
unsigned_number-ends fl prefix base [] two = λ e. ground arith
unsigned_number-ends fl prefix base (text p ∷ args) two = λ e. ground arith
unsigned_number-ends fl prefix base (word v ∷ args) two =
    with_prefix-ends prefix args (getuint fl.lflag v) base fl.padc fl.width two
      (getuint-lt fl.lflag v)

char_out-ends : (args : List Arg) → char_out args ≢ endless
unfolding char_out
char_out-ends [] e = ground arith
char_out-ends (text p ∷ args) e = ground arith
char_out-ends (word v ∷ args) e = ground arith

string_out-ends : (fl : Flags) (args : List Arg) → string_out fl args ≢ endless
unfolding string_out
string_out-ends fl [] e = ground arith
string_out-ends fl (word v ∷ args) e = ground arith
string_out-ends fl (text none ∷ args) e = ground arith
string_out-ends fl (text (some p) ∷ args) e = ground arith

if-ends :
    (b : Bool) (r r' : Converted) → r ≢ endless → r' ≢ endless → (if b then r else r') ≢ endless
if-ends true r r' h h' = h
if-ends false r r' h h' = h'

conversion-ends : (c : ℕ) (fl : Flags) (args : List Arg) → conversion c fl args ≢ endless
unfolding conversion
conversion-ends c fl args = if-ends (c == b'c') _ _ (char_out-ends args) (
    if-ends (c == b's') _ _ (string_out-ends fl args) (
      if-ends (c == b'd') _ _ (signed_number-ends fl args) (
        if-ends (c == b'u') _ _ (unsigned_number-ends fl [] 10 args (omega arith)) (
          if-ends (c == b'o') _ _ (unsigned_number-ends fl [] 8 args (omega arith)) (
            if-ends (c == b'p') _ _
              (unsigned_number-ends (record fl { lflag = 1 }) (b'0' ∷ b'x' ∷ []) 16 args
                (omega arith))
              (if-ends (c == b'x') _ _ (unsigned_number-ends fl [] 16 args (omega arith)) (
                if-ends (c == b'%') (printed (c ∷ []) args) unknown (λ e. ground arith)
                  (λ e. ground arith))))))))

prepend-ends : (out : List ℕ) (o : Outcome) → o ≢ out_of_fuel → prepend out o ≢ out_of_fuel
prepend-ends out o h = ground arith

module _ (next : List ℕ → List Arg → Outcome) (last_fmt : List ℕ)
    (ends : (fmt : List ℕ) (args : List Arg)
      → length fmt ≤ length last_fmt
      → next fmt args ≢ out_of_fuel) where
  after_conversion-ends :
      (rest : List ℕ) (args : List Arg) (r : Converted)
      → length rest ≤ length last_fmt
      → r ≢ endless
      → after_conversion next last_fmt rest args r ≢ out_of_fuel
  unfolding after_conversion
  after_conversion-ends rest args (printed out args') h ends' =
      prepend-ends out (next rest args') (ends rest args' h)
  after_conversion-ends rest args unknown h ends' =
      prepend-ends (b'%' ∷ []) (next last_fmt args) (ends last_fmt args (omega arith))
  after_conversion-ends rest args fault h ends' = ground arith
  after_conversion-ends rest args endless h ends' = absurd (ends' refl)

  after_flags-ends :
      (e : Escape) → EscapeWithin (length last_fmt) e → after_flags next last_fmt e ≢ out_of_fuel
  unfolding after_flags
  after_flags-ends (escape c fl rest args) h =
      after_conversion-ends rest args (conversion c fl args) h (conversion-ends c fl args)
  after_flags-ends escape_fault h = ground arith
  after_flags-ends escape_fuel h = absurd h

-- `vprintfmt` ends on every format and all arguments, with its output or, at an argument that is
-- missing or of another type than its conversion reads, undefined; and so do the loops over the
-- flags, over the digits of a number and over the format: for the loop over the format, a unit of
-- fuel for each character and one for the end are enough, and the loop over the digits never needs
-- more than 64 rounds.
pub vprintfmt_total :
    (fuel : ℕ) (fmt : List ℕ) (args : List Arg)
    → length fmt < fuel
    → vprintfmt fuel fmt args ≢ out_of_fuel
unfolding vprintfmt
vprintfmt_total zero fmt args h = absurd (omega arith)
vprintfmt_total (suc fuel) [] args h = ground arith
vprintfmt_total (suc fuel) (c ∷ cs) args h = elim (Bool-cases (c == b'%')) [
  | inl percent ↦ rw percent (
      after_flags-ends (vprintfmt fuel) cs
        (λ fmt args' fits. vprintfmt_total fuel fmt args' (omega arith))
        (read_flags (suc (length cs)) initial cs args)
        (read_flags-within (suc (length cs)) initial cs args (omega arith)))
  | inr plain ↦
      rw plain (
        prepend-ends (c ∷ []) (vprintfmt fuel cs args) (vprintfmt_total fuel cs args (omega arith)))
]

prepend-prepend : (a b : List ℕ) (o : Outcome) → prepend a (prepend b o) ≡ prepend (a ++ b) o
prepend-prepend a b (done rest) = ap done (sym (append_assoc a b rest))
prepend-prepend a b undefined = refl
prepend-prepend a b out_of_fuel = refl

prepend-nil : (o : Outcome) → prepend [] o ≡ o
prepend-nil (done rest) = refl
prepend-nil undefined = refl
prepend-nil out_of_fuel = refl

-- What stands in front of the first `%` is written as it is, and the rest is formatted as alone.
pub format-append :
    (plain fmt : List ℕ) (args : List Arg)
    → All (λ c. c ≢ b'%') plain
    → format (plain ++ fmt) args ≡ prepend plain (format fmt args)
unfolding format
format-append [] fmt args h = sym (prepend-nil _)
format-append (c ∷ plain) fmt args h =
    rw (==_false c b'%' h.0)
      (ap (prepend (c ∷ [])) (format-append plain fmt args h.1) ∙ prepend-prepend (c ∷ []) plain _)
