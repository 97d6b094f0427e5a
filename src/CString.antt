-- ===== src/CString.antt =====
-- The memory and string routines of benchmarks/benchmarks/common/syscalls.c, which
-- benchmarks/env/v/string.c repeats, and `memcmp` of the latter. A pointer is an address of a
-- byte-addressed memory, in which no object reaches past the end of the address space. Each loop
-- is a function over its variables, on fuel; `none` means that the fuel ran out.
pub mod Words
pub mod Copy
pub mod Fill
pub mod Compare
pub mod Scan
pub mod Number
pub mod Tests
use cellift_meta.Base.{
  ℕ, zero, suc, ◌+◌, ◌-◌, ◌*◌, ◌/◌, ◌%◌, ◌^◌, Bool, true, false, not, ◌&&◌, ◌||◌, Option, none,
  some, ltb, ◌==◌, if◌then◌else◌, bit_and, bit_or, Mem, store, ℤ, pos, sub_ℕ,
}

-- A word of `n` bytes, the lowest first.
unfoldable pub load_word : Mem → ℕ → ℕ → ℕ
load_word m a zero = 0
load_word m a (suc n) = m a + 256 * load_word m (a + 1) n

unfoldable pub store_word : Mem → ℕ → ℕ → ℕ → Mem
store_word m a zero v = m
store_word m a (suc n) v = store_word (store m a (v % 256)) (a + 1) n (v / 256)

-- `(a | b | …) & (sizeof(uintptr_t) - 1)) == 0`, where `sizeof(uintptr_t)` is `2 ^ k`.
unfoldable pub aligned : ℕ → ℕ → Bool
aligned k a = bit_and a (2 ^ k - 1) == 0

module _ (w : ℕ) where
  unfoldable pub copy_words : ℕ → Mem → ℕ → ℕ → ℕ → Option Mem
  copy_words zero m d s stop = none
  copy_words (suc fuel) m d s stop =
      let rest = copy_words fuel (store_word m d w (load_word m s w)) (d + w) (s + w) stop in
      if ltb d stop then rest else some m

  unfoldable pub fill_words : ℕ → Mem → ℕ → ℕ → ℕ → Option Mem
  fill_words zero m d word stop = none
  fill_words (suc fuel) m d word stop =
      let rest = fill_words fuel (store_word m d w word) (d + w) word stop in
      if ltb d stop then rest else some m

  -- The distance that `u1` and `u2` have moved when the loop ends.
  unfoldable pub compare_words : ℕ → Mem → ℕ → ℕ → ℕ → ℕ → Option ℕ
  compare_words zero m u1 u2 stop moved = none
  compare_words (suc fuel) m u1 u2 stop moved =
      let rest = compare_words fuel m (u1 + w) (u2 + w) stop (moved + w) in
      if not (ltb u1 stop)
      then some moved
      else if not (load_word m u1 w == load_word m u2 w)
      then some moved
      else rest

unfoldable pub copy_bytes : ℕ → Mem → ℕ → ℕ → ℕ → Option Mem
copy_bytes zero m d s stop = none
copy_bytes (suc fuel) m d s stop =
    let rest = copy_bytes fuel (store m d (m s)) (d + 1) (s + 1) stop in
    if ltb d stop then rest else some m

unfoldable pub fill_bytes : ℕ → Mem → ℕ → ℕ → ℕ → Option Mem
fill_bytes zero m d byte stop = none
fill_bytes (suc fuel) m d byte stop =
    let rest = fill_bytes fuel (store m d (byte % 256)) (d + 1) byte stop in
    if ltb d stop then rest else some m

-- `while (n--)`: the rounds are counted by `n`.
unfoldable pub compare_bytes : Mem → ℕ → ℕ → ℕ → ℤ
compare_bytes m s1 s2 zero = pos 0
compare_bytes m s1 s2 (suc n) =
    if not (m s1 == m s2) then sub_ℕ (m s1) (m s2) else compare_bytes m (s1 + 1) (s2 + 1) n

-- The pattern that `memset` builds in a word of `2 ^ k` bytes; each shift drops what leaves it.
unfoldable pub spread : ℕ → ℕ → ℕ
spread k byte =
    let modulus = 2 ^ (8 * 2 ^ k) in
    let word0 = bit_and byte 0xff in
    let word1 = bit_or word0 (word0 * 2 ^ 8 % modulus) in
    let word2 = bit_or word1 (word1 * 2 ^ 16 % modulus) in
    bit_or word2 (word2 * 2 ^ 16 % modulus * 2 ^ 16 % modulus)

module _ (k : ℕ) where
  unfoldable pub memcpy : Mem → ℕ → ℕ → ℕ → Option Mem
  memcpy m dest src len =
      if aligned k (bit_or (bit_or dest src) len)
      then copy_words (2 ^ k) (suc len) m dest src (dest + len)
      else copy_bytes (suc len) m dest src (dest + len)

  unfoldable pub memset : Mem → ℕ → ℕ → ℕ → Option Mem
  memset m dest byte len =
      if aligned k (bit_or dest len)
      then fill_words (2 ^ k) (suc len) m dest (spread k byte) (dest + len)
      else fill_bytes (suc len) m dest byte (dest + len)

  after_words : Mem → ℕ → ℕ → ℕ → Option ℕ → Option ℤ
  after_words m s1 s2 n none = none
  after_words m s1 s2 n (some moved) = some (compare_bytes m (s1 + moved) (s2 + moved) (n - moved))

  unfoldable pub memcmp : Mem → ℕ → ℕ → ℕ → Option ℤ
  unfolding after_words
  memcmp m s1 s2 n =
      if aligned k (bit_or s1 s2)
      then after_words m s1 s2 n (compare_words (2 ^ k) (suc n) m s1 s2 (s1 + n / 2 ^ k * 2 ^ k) 0)
      else some (compare_bytes m s1 s2 n)

-- `while (*p) p++; return p - s;`, with `count` the distance so far.
unfoldable pub strlen_loop : ℕ → Mem → ℕ → ℕ → Option ℕ
strlen_loop zero m p count = none
strlen_loop (suc fuel) m p count =
    let rest = strlen_loop fuel m (p + 1) (count + 1) in if m p == 0 then some count else rest

unfoldable pub strlen : ℕ → Mem → ℕ → Option ℕ
unfolding strlen_loop
strlen fuel m s = strlen_loop fuel m s 0

-- `while (n-- && *p) p++;`
unfoldable pub strnlen_loop : Mem → ℕ → ℕ → ℕ → ℕ
strnlen_loop m p zero count = count
strnlen_loop m p (suc n) count = if m p == 0 then count else strnlen_loop m (p + 1) n (count + 1)

unfoldable pub strnlen : Mem → ℕ → ℕ → ℕ
unfolding strnlen_loop
strnlen m s n = strnlen_loop m s n 0

unfoldable pub strcmp : ℕ → Mem → ℕ → ℕ → Option ℤ
strcmp zero m s1 s2 = none
strcmp (suc fuel) m s1 s2 =
    let c1 = m s1 in
    let c2 = m s2 in
    let rest = strcmp fuel m (s1 + 1) (s2 + 1) in
    if not (c1 == 0) && (c1 == c2) then rest else some (sub_ℕ c1 c2)

-- `while ((*d++ = *src++)) ;`
unfoldable pub strcpy : ℕ → Mem → ℕ → ℕ → Option Mem
strcpy zero m d src = none
strcpy (suc fuel) m d src =
    let c = m src in
    let m' = store m d c in
    let rest = strcpy fuel m' (d + 1) (src + 1) in if c == 0 then some m' else rest

-- `while (*str == ' ') str++;`
unfoldable pub skip_spaces : ℕ → Mem → ℕ → Option ℕ
skip_spaces zero m p = none
skip_spaces (suc fuel) m p =
    let rest = skip_spaces fuel m (p + 1) in if m p == b' ' then rest else some p

-- `long` is a two's complement word of `2 ^ k` bytes, written as its bit pattern.
module _ (k : ℕ) where
  abbrev pub long_mod : ℕ
  long_mod = 2 ^ (8 * 2 ^ k)

  unfoldable pub atol_digits : ℕ → Mem → ℕ → ℕ → Option ℕ
  atol_digits zero m p res = none
  atol_digits (suc fuel) m p res =
      let rest =
        atol_digits fuel m (p + 1) ((res * 10 % long_mod + m p + long_mod - b'0') % long_mod) in
      if m p == 0 then some res else rest

  atol_sign : Bool → Option ℕ → Option ℕ
  atol_sign sign none = none
  atol_sign sign (some res) = some (if sign then (long_mod - res) % long_mod else res)

  atol_from : ℕ → Mem → Option ℕ → Option ℕ
  unfolding atol_sign atol_digits
  atol_from fuel m none = none
  atol_from fuel m (some p) =
      if m p == b'-' || m p == b'+'
      then atol_sign (m p == b'-') (atol_digits fuel m (p + 1) 0)
      else atol_sign false (atol_digits fuel m p 0)

  unfoldable pub atol : ℕ → Mem → ℕ → Option ℕ
  unfolding atol_from skip_spaces
  atol fuel m str = atol_from fuel m (skip_spaces fuel m str)
