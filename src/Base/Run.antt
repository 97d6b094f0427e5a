-- ===== src/Base/Run.antt =====
-- The end of a call that may not return: an `assert` that fails, `abort()` or an exception that
-- nothing catches; `exit`; and an access outside an object, which C++ leaves undefined.
use Prim.Native.Nat.{ℕ}
use mathlib.Core.Path.{◌≡◌, refl}
use mathlib.Core.Bool.{Bool, true, false}

pub data Run {ℓ} (A : Type ℓ) : Type ℓ where
  returned : A → Run A
  aborted : Run A
  exited : ℕ → Run A
  strayed : Run A

infixl 5 ◌>>=◌ ◌>>◌
abbrev pub ◌>>=◌ {ℓ κ} : {A : Type ℓ} {B : Type κ} → Run A → (A → Run B) → Run B
returned a >>= f = f a
aborted >>= f = aborted
exited code >>= f = exited code
strayed >>= f = strayed

abbrev pub ◌>>◌ {ℓ} : {B : Type ℓ} → Run (Unit {0}) → Run B → Run B
m >> k = m >>= λ _. k

abbrev pub assert : Bool → Run (Unit {0})
assert true = returned tt
assert false = aborted

-- An access that is defined only if it stays inside its object.
abbrev pub within : Bool → Run (Unit {0})
within true = returned tt
within false = strayed

pub >>=-eq-returned {ℓ κ} :
    {A : Type ℓ} {B : Type κ} (m : Run A) (f : A → Run B) {b : B}
    → (m >>= f) ≡ returned b
    → (a : A) × (m ≡ returned a) × (f a ≡ returned b)
>>=-eq-returned (returned a) f h = (a, refl, h)
>>=-eq-returned aborted f h = absurd (cc)
>>=-eq-returned (exited code) f h = absurd (cc)
>>=-eq-returned strayed f h = absurd (cc)

pub returned_injective {ℓ} : {A : Type ℓ} {a b : A} → returned a ≡ returned b → a ≡ b
returned_injective e = cc

pub assert-eq-returned : (b : Bool) → assert b ≡ returned tt → b ≡ true
assert-eq-returned true h = refl
assert-eq-returned false h = absurd (cc)

pub assert-then {ℓ} :
    {B : Type ℓ} (b : Bool) (m : Run B) {x : B}
    → (assert b >> m) ≡ returned x
    → (b ≡ true) × (m ≡ returned x)
assert-then true m h = (refl, h)
assert-then false m h = absurd (cc)

pub within-then {ℓ} :
    {B : Type ℓ} (b : Bool) (m : Run B) {x : B}
    → (within b >> m) ≡ returned x
    → (b ≡ true) × (m ≡ returned x)
within-then true m h = (refl, h)
within-then false m h = absurd (cc)
