-- ===== src/Vm/Entry.antt =====
-- The life of an entry of the user page table: fresh, accessed, dirty.
use native.Mathlib.Nat.{add-zero}
use cellift_meta.Base.{
  ℕ, ◌+◌, ◌*◌, ◌/◌, ◌^◌, ◌<◌, ◌≡◌, ◌≢◌, ap, ◌∙◌, arith, bit_and, bit_or, bit_and_low, bit_or_low,
}
use cellift_meta.Vm.{frame_of, new_pte}

pub data Stage : Type 0 where
  fresh accessed dirty : Stage

-- V, R, W, X and U, and then also A, and then also D.
abbrev pub bits : Stage → ℕ
bits fresh = 0x1f
bits accessed = 0x5f
bits dirty = 0xdf

unfoldable pub entry : ℕ → Stage → ℕ
entry addr s = addr / 2 ^ 12 * 2 ^ 10 + bits s

pub new_pte-entry : (addr : ℕ) → new_pte addr ≡ entry addr fresh
unfolding new_pte entry
new_pte-entry addr =
    let q : ℕ = addr / 2 ^ 12 in
    let low = λ (r s : ℕ). bit_or_low 10 q r s in
    rw (← add-zero (q * 2 ^ 10)) (
      rw
        (
          low 0 0x1 (omega arith) (omega arith),
          low 0x1 0x10 (omega arith) (omega arith),
          low 0x11 0x2 (omega arith) (omega arith),
          low 0x13 0x4 (omega arith) (omega arith),
          low 0x17 0x8 (omega arith) (omega arith),
        )
        (omega arith))

pub frame_of-entry : (addr : ℕ) (s : Stage) → frame_of (entry addr s) ≡ addr / 2 ^ 12
unfolding entry
frame_of-entry addr fresh = omega arith
frame_of-entry addr accessed = omega arith
frame_of-entry addr dirty = omega arith

pub entry-ne-zero : (addr : ℕ) (s : Stage) → entry addr s ≢ 0
unfolding entry
entry-ne-zero addr fresh = omega arith
entry-ne-zero addr accessed = omega arith
entry-ne-zero addr dirty = omega arith

bits-lt : (s : Stage) → bits s < 2 ^ 10
bits-lt fresh = omega arith
bits-lt accessed = omega arith
bits-lt dirty = omega arith

pub bit_and-entry :
    (addr mask : ℕ) (s : Stage)
    → mask < 2 ^ 10
    → bit_and (entry addr s) mask ≡ bit_and (bits s) mask
unfolding entry
bit_and-entry addr mask s h = bit_and_low 10 (addr / 2 ^ 12) (bits s) mask (bits-lt s) h

pub bit_or-entry :
    (addr mask : ℕ) (s t : Stage)
    → mask < 2 ^ 10
    → bit_or (bits s) mask ≡ bits t
    → bit_or (entry addr s) mask ≡ entry addr t
unfolding entry
bit_or-entry addr mask s t h e =
    bit_or_low 10 (addr / 2 ^ 12) (bits s) mask (bits-lt s) h
    ∙ ap (λ (r : ℕ). addr / 2 ^ 12 * 2 ^ 10 + r) e
