-- ===== src/CString/Tests.antt =====
-- Runs of the memory and string routines on small memories, and what the theorems say of them.
use cellift_meta.Base.{
  place, place-IsBytes, ℕ, zero, suc, ◌-◌, ◌^◌, ◌≡◌, refl, inr, some, List, [], ◌∷◌, arith, Mem,
  IsBytes, negsuc,
}
use cellift_meta.CString.{memcpy, memcmp, compare_bytes, strcmp, atol}
use cellift_meta.CString.Copy.{IsCopy, memcpy-IsCopy}
use cellift_meta.CString.Compare.{SameBytes, memcmp-compare_bytes}
use cellift_meta.CString.Scan.{IsString}

-- `ab`, its 0, a byte, `abd` and its 0.
abbrev bytes : List ℕ
bytes = b'a' ∷ b'b' ∷ 0 ∷ 7 ∷ b'a' ∷ b'b' ∷ b'd' ∷ 0 ∷ []

bytes-IsBytes : IsBytes (place bytes)
bytes-IsBytes = place-IsBytes bytes (
  omega arith,
  (
    omega arith,
    (omega arith, (omega arith, (omega arith, (omega arith, (omega arith, (omega arith, tt)))))),
  ),
)

-- ` -42` and its 0.
abbrev numeral : List ℕ
numeral = b' ' ∷ b'-' ∷ b'4' ∷ b'2' ∷ 0 ∷ []

ab : IsString (place bytes) 0 (b'a' ∷ b'b' ∷ [])
unfolding place
ab = (refl, omega arith, (refl, omega arith, refl))

abd : IsString (place bytes) 4 (b'a' ∷ b'b' ∷ b'd' ∷ [])
unfolding place
abd = (refl, omega arith, (refl, omega arith, (refl, omega arith, refl)))

same_start : SameBytes (place bytes) 0 4 2
unfolding place
same_start zero h = refl
same_start (suc zero) h = refl
same_start (suc (suc i)) h = absurd (omega arith)

strcmp_run : strcmp 4 (place bytes) 0 4 ≡ some (negsuc 99)
unfolding strcmp place
strcmp_run = refl

atol_run : atol 3 9 (place numeral) 0 ≡ some (2 ^ 64 - 42)
unfolding atol place
atol_run = refl

memcpy-IsCopy_example :
    (m' : Mem) × (memcpy 3 (place bytes) 16 0 8 ≡ some m') × IsCopy (place bytes) m' 16 0 8
memcpy-IsCopy_example = memcpy-IsCopy 3 (place bytes) 16 0 8 bytes-IsBytes (inr (omega arith))

memcmp-compare_bytes_example :
    memcmp 2 (place bytes) 0 4 3 ≡ some (compare_bytes (place bytes) 0 4 3)
memcmp-compare_bytes_example = memcmp-compare_bytes 2 (place bytes) 0 4 3 bytes-IsBytes
