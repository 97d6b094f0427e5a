-- ===== src/Print/Flags.antt =====
-- The argument readers of benchmarks/benchmarks/common/syscalls.c and the part of `vprintfmt` that
-- reads the flags of an escape. A format is the list of its characters before the 0; where the
-- source reads the 0 itself, the list is empty and the character is 0. `int` fields are integers
-- that do not overflow. A register has 64 bits. `lflag = 1` means a 64-bit argument, as on rv64.
use cellift_meta.Base.{
  ℕ, zero, suc, ◌+◌, ◌-◌, ◌*◌, ◌%◌, ◌^◌, not, ◌&&◌, ◌||◌, Option, List, [], ◌∷◌, ltb, leb, ◌==◌,
  if◌then◌else◌, ℤ, pos, negsuc, sub_ℕ, ltb_ℤ,
}

-- A variadic argument: an integer register, or a `char*` that is NULL or points to a string.
pub data Arg : Type 0 where
  word : ℕ → Arg
  text : Option (List ℕ) → Arg

pub record Flags : Type 0 where
  pub padc : ℕ
  pub width : ℤ
  pub precision : ℤ
  pub lflag : ℕ
  pub altflag : ℕ

abbrev pub initial : Flags
initial = record { padc = b' '; width = negsuc 0; precision = negsuc 0; lflag = 0; altflag = 0 }

-- A `va_arg(ap, int)`, as the bit pattern of a 64-bit register.
unfoldable pub sign_extend : ℕ → ℕ
sign_extend v = let low = v % 2 ^ 32 in if ltb low (2 ^ 31) then low else low + (2 ^ 64 - 2 ^ 32)

unfoldable pub getuint : ℕ → ℕ → ℕ
getuint lflag v =
    if leb 2 lflag then v % 2 ^ 64 else if not (lflag == 0) then v % 2 ^ 64 else v % 2 ^ 32

unfoldable pub getint : ℕ → ℕ → ℕ
unfolding sign_extend
getint lflag v =
    if leb 2 lflag then v % 2 ^ 64 else if not (lflag == 0) then v % 2 ^ 64 else sign_extend v

-- The `int` that a 32-bit pattern stands for.
unfoldable pub to_int : ℕ → ℤ
to_int v = let low = v % 2 ^ 32 in if ltb low (2 ^ 31) then pos low else sub_ℕ low (2 ^ 32)

unfoldable pub process_precision : Flags → ℤ → Flags
process_precision fl p =
    if ltb_ℤ fl.width (pos 0)
    then record fl { width = p; precision = negsuc 0 }
    else record fl { precision = p }

-- The inner loop of the width field: the number, and the format from the first other character.
unfoldable pub read_number : List ℕ → ℕ → ℕ × List ℕ
read_number [] n = (n, [])
read_number (c ∷ cs) n =
    if ltb c b'0' || ltb b'9' c then (n, c ∷ cs) else read_number cs (n * 10 + c - b'0')

-- One pass through the `switch`: a flag has been read, or the character starts a conversion.
pub data Step : Type 0 where
  reswitch : Flags → List ℕ → List Arg → Step
  convert : Step
  bad_arg : Step

unfoldable pub star : Flags → List ℕ → List Arg → Step
unfolding process_precision to_int
star fl cs (word v ∷ args) = reswitch (process_precision fl (to_int v)) cs args
star fl cs _ = bad_arg

unfoldable pub number : Flags → ℕ × List ℕ → List Arg → Step
unfolding process_precision
number fl (n, rest) args = reswitch (process_precision fl (pos n)) rest args

unfoldable pub flag_step : Flags → ℕ → List ℕ → List Arg → Step
unfolding star number read_number
flag_step fl c cs args =
    if c == b'-'
    then reswitch (record fl { padc = b'-' }) cs args
    else if c == b'0'
    then reswitch (record fl { padc = b'0' }) cs args
    else if leb b'1' c && leb c b'9'
    then number fl (read_number cs (c - b'0')) args
    else if c == b'*'
    then star fl cs args
    else if c == b'.'
    then reswitch (if ltb_ℤ fl.width (pos 0) then record fl { width = pos 0 } else fl) cs args
    else if c == b'#'
    then reswitch (record fl { altflag = 1 }) cs args
    else if c == b'l'
    then reswitch (record fl { lflag = fl.lflag + 1 }) cs args
    else convert

-- The conversion character that the flags lead to, with what is left of the format and arguments.
pub data Escape : Type 0 where
  escape : ℕ → Flags → List ℕ → List Arg → Escape
  escape_fault : Escape
  escape_fuel : Escape

-- `goto reswitch` is the call of `next`.
unfoldable pub after_step :
    (Flags → List ℕ → List Arg → Escape) → ℕ → Flags → List ℕ → List Arg → Step → Escape
after_step next c fl cs args (reswitch fl' cs' args') = next fl' cs' args'
after_step next c fl cs args convert = escape c fl cs args
after_step next c fl cs args bad_arg = escape_fault

unfoldable pub read_flags : ℕ → Flags → List ℕ → List Arg → Escape
unfolding flag_step after_step
read_flags zero fl fmt args = escape_fuel
read_flags (suc fuel) fl [] args = escape 0 fl [] args
read_flags (suc fuel) fl (c ∷ cs) args =
    after_step (read_flags fuel) c fl cs args (flag_step fl c cs args)
