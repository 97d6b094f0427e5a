-- ===== src/Elf/Layout/Fields.antt =====
-- Fields of at least one byte, and the place that their alignment gives them.
use native.Mathlib.Nat.{lt-div-mul-add}
use cellift_meta.Base.{
  ℕ, ◌+◌, ◌-◌, ◌*◌, ◌/◌, ◌≤◌, ◌<◌, ◌≡◌, sym, ap, ◌∙◌, Bool, true, false, ◌&&◌, ltb, ltb→lt,
  Bool-cases, inl, inr, List, [], ◌∷◌, All, arith,
}
use cellift_meta.Elf.Layout.{Field, alignment, align_up}

-- A field with at least one byte.
abbrev pub IsPositive : Field → Type 0
IsPositive fd = 0 < alignment fd

unfoldable pub are_positive : List Field → Bool
are_positive [] = true
are_positive (fd ∷ fds) = ltb 0 (alignment fd) && are_positive fds

pub are_positive-IsPositive : (fds : List Field) → are_positive fds ≡ true → All IsPositive fds
unfolding are_positive
are_positive-IsPositive [] h = tt
are_positive-IsPositive (fd ∷ fds) h = elim (Bool-cases (ltb 0 (alignment fd))) [
  | inl first ↦ (
    ltb→lt 0 (alignment fd) first,
    are_positive-IsPositive fds (sym (ap (λ b. b && are_positive fds) first) ∙ h),
  )
  | inr none ↦ let no : false ≡ true = sym (ap (λ b. b && are_positive fds) none) ∙ h in absurd (cc)
]

pub align_up-le : (place a : ℕ) → 0 < a → place ≤ align_up place a
unfolding align_up
align_up-le place a h =
    let above : place + (a - 1) < (place + (a - 1)) / a * a + a = lt-div-mul-add h in omega arith
