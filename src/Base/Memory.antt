-- ===== src/Base/Memory.antt =====
-- Byte-addressed memory: a function from addresses to what they hold, with the store that every
-- module writes by. Addresses are numbers; no object reaches past the end of the address space.
use native.Mathlib.Omega.{arith}
use mathlib.Core.List.{List, [], ◌∷◌}
use cellift_meta.Base.Lists.{All}
use Prim.Native.Nat.{ℕ, zero, suc, ◌+◌, ◌≤◌, ◌<◌}
use mathlib.Core.Logic.{◌⊎◌, inl, inr}
use cellift_meta.Base.Tests.{◌==◌, if◌then◌else◌, Bool-cases}
use mathlib.Core.Path.{◌≡◌, refl, sym, ◌∙◌}
use mathlib.Core.Bool.{true, false}

abbrev pub Mem : Type 0
Mem = ℕ → ℕ

abbrev pub store {ℓ} : {A : Type ℓ} → (ℕ → A) → ℕ → A → ℕ → A
store m a v b = if b == a then v else m b

abbrev pub Disjoint : ℕ → ℕ → ℕ → ℕ → Type 0
Disjoint a n b k = (a + n ≤ b) ⊎ (b + k ≤ a)

-- `b` is none of the `n` cells from `a` on.
abbrev pub Outside : ℕ → ℕ → ℕ → Type 0
Outside a n b = (b < a) ⊎ (a + n ≤ b)

-- Every cell holds a byte.
abbrev pub IsBytes : Mem → Type 0
IsBytes m = (a : ℕ) → m a < 256

pub store_same {ℓ} :
    {A : Type ℓ} (m : ℕ → A) (a b : ℕ) (v : A) → (b == a) ≡ true → store m a v b ≡ v
store_same m a b v h = rw (h) refl

pub store_other {ℓ} :
    {A : Type ℓ} (m : ℕ → A) (a b : ℕ) (v : A) → (b == a) ≡ false → store m a v b ≡ m b
store_other m a b v h = rw (h) refl

-- What a map holds after an update is the new value or the old one.
pub store-cases {ℓ} :
    {A : Type ℓ} (m : ℕ → A) (a b : ℕ) (v w : A)
    → store m a v b ≡ w
    → (((b == a) ≡ true) × (v ≡ w)) ⊎ (((b == a) ≡ false) × (m b ≡ w))
store-cases m a b v w e = elim (Bool-cases (b == a)) [
  | inl same ↦ inl (same, sym (store_same m a b v same) ∙ e)
  | inr other ↦ inr (other, sym (store_other m a b v other) ∙ e)
]

-- A memory that holds a list of bytes from address 0 on, and 0 behind them.
unfoldable pub place : List ℕ → Mem
place [] b = 0
place (c ∷ cs) zero = c
place (c ∷ cs) (suc b) = place cs b

pub place-IsBytes : (cs : List ℕ) → All (λ c. c < 256) cs → IsBytes (place cs)
unfolding place
place-IsBytes [] h b = omega arith
place-IsBytes (c ∷ cs) h zero = h.0
place-IsBytes (c ∷ cs) h (suc b) = place-IsBytes cs h.1 b
