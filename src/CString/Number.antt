-- ===== src/CString/Number.antt =====
-- `atol` on decimal numerals.
use native.Mathlib.Nat.{
  add-mod_right, mod-add-mod, mod-eq_of_lt, add-mul-mod_self_left, div-add-mod, zero-mod,
}
use cellift_meta.Base.{
  ℕ, zero, suc, ◌+◌, ◌-◌, ◌*◌, ◌/◌, ◌%◌, ◌<◌, ◌≤◌, ◌≡◌, ◌≢◌, sym, ap, ◌∙◌, Bool, true, false,
  Option, none, some, arith, Mem, List, [], ◌∷◌, ◌++◌, length, replicate, All, ◌≡⟨◌⟩◌, ◌∎, ==_false,
}
use cellift_meta.CString.{long_mod, skip_spaces, atol_digits, atol}
use cellift_meta.CString.Scan.{IsString}

abbrev pub IsDigits : List ℕ → Type 0
IsDigits = All (λ c. (b'0' ≤ c) × (c ≤ b'9'))

-- The number that decimal digits write, behind those already read.
unfoldable pub decimal_from : ℕ → List ℕ → ℕ
decimal_from acc [] = acc
decimal_from acc (c ∷ cs) = decimal_from (acc * 10 + (c - b'0')) cs

unfoldable pub decimal : List ℕ → ℕ
unfolding decimal_from
decimal = decimal_from 0

-- No sign, `-` or `+`.
abbrev pub sign_chars : Option Bool → List ℕ
sign_chars none = []
sign_chars (some true) = b'-' ∷ []
sign_chars (some false) = b'+' ∷ []

-- The bit pattern of the signed number.
abbrev pub signed_long : ℕ → Option Bool → ℕ → ℕ
signed_long k (some true) v = (long_mod k - v) % long_mod k
signed_long k _ v = v

skip_spaces_lem :
    (fuel : ℕ) (m : Mem) (a n : ℕ) (rest : List ℕ)
    → IsString m a (replicate n b' ' ++ rest)
    → ((p : ℕ) → IsString m p rest → m p ≢ b' ')
    → n < fuel
    → (p : ℕ) × (skip_spaces fuel m a ≡ some p) × IsString m p rest
unfolding skip_spaces
skip_spaces_lem zero m a n rest s stop f = absurd (omega arith)
skip_spaces_lem (suc fuel) m a zero rest s stop f = (a, ground (arith, stop a s), s)
skip_spaces_lem (suc fuel) m a (suc n) rest s stop f =
    let (p, run, t) = skip_spaces_lem fuel m (a + 1) n rest s.2 stop (omega arith) in
    (p, ground arith, t)

step_mod :
    (l acc c : ℕ) → b'0' ≤ c → (acc % l * 10 % l + c + l - b'0') % l ≡ (acc * 10 + (c - b'0')) % l
step_mod l acc c h =
    let d : ℕ = c - b'0' in
    (acc % l * 10 % l + c + l - b'0') % l
    ≡⟨ ap (λ (t : ℕ). t % l) (omega arith) ⟩ (acc % l * 10 % l + d + l) % l
    ≡⟨ add-mod_right (acc % l * 10 % l + d) l ⟩ (acc % l * 10 % l + d) % l
    ≡⟨ mod-add-mod (acc % l * 10) l d ⟩ (acc % l * 10 + d) % l
    ≡⟨ sym (add-mul-mod_self_left (acc % l * 10 + d) l (acc / l * 10)) ⟩
      (acc % l * 10 + d + l * (acc / l * 10)) % l
    ≡⟨ ap (λ (t : ℕ). t % l) (omega (arith, div-add-mod acc l)) ⟩ (acc * 10 + d) % l ∎

-- What follows the spaces and the sign is no space and no sign.
digits_start :
    (m : Mem) (p : ℕ) (cs : List ℕ)
    → IsString m p cs
    → IsDigits cs
    → (m p ≢ b' ') × (m p ≢ b'-') × (m p ≢ b'+')
digits_start m p [] s d = ground arith
digits_start m p (c ∷ cs) s d = ground arith

module _ (k : ℕ) where
  atol_digits-decimal :
      (fuel : ℕ) (m : Mem) (p acc : ℕ) (cs : List ℕ)
      → IsString m p cs
      → IsDigits cs
      → length cs < fuel
      → atol_digits k fuel m p (acc % long_mod k) ≡ some (decimal_from acc cs % long_mod k)
  unfolding atol_digits decimal_from
  atol_digits-decimal zero m p acc cs s d f = absurd (omega arith)
  atol_digits-decimal (suc fuel) m p acc [] s d f = ground arith
  atol_digits-decimal (suc fuel) m p acc (c ∷ cs) s d f =
      rw (s.0, ==_false c 0 s.1, step_mod (long_mod k) acc c d.0.0)
        (atol_digits-decimal fuel m (p + 1) (acc * 10 + (c - b'0')) cs s.2 d.1 (omega arith))

  atol_digits-fits :
      (fuel : ℕ) (m : Mem) (p : ℕ) (cs : List ℕ)
      → IsString m p cs
      → IsDigits cs
      → decimal cs * 2 < long_mod k
      → length cs < fuel
      → atol_digits k fuel m p 0 ≡ some (decimal cs)
  unfolding decimal
  atol_digits-fits fuel m p cs s d fits f =
      ap (atol_digits k fuel m p) (sym (zero-mod (long_mod k)))
      ∙ atol_digits-decimal fuel m p 0 cs s d f
      ∙ ap some (mod-eq_of_lt (omega arith))

  -- `atol` reads past spaces and a sign, and returns the number that the digits write, negated
  -- behind `-`, when that number is below `2 ^ (w - 1)` for a `long` of `w` bits.
  pub atol-decimal :
      (fuel : ℕ) (m : Mem) (a spaces : ℕ) (sign : Option Bool) (cs : List ℕ)
      → IsString m a (replicate spaces b' ' ++ (sign_chars sign ++ cs))
      → IsDigits cs
      → decimal cs * 2 < long_mod k
      → spaces + length cs < fuel
      → atol k fuel m a ≡ some (signed_long k sign (decimal cs))
  unfolding atol
  atol-decimal fuel m a spaces none cs s d fits f =
      let (p, skip, t) =
        skip_spaces_lem fuel m a spaces cs s (λ q u. (digits_start m q cs u d).0) (omega arith) in
      rw skip (ground (arith, digits_start m p cs t d, atol_digits-fits fuel m p cs t d))
  atol-decimal fuel m a spaces (some true) cs s d fits f =
      let (p, skip, t) =
        skip_spaces_lem fuel m a spaces (b'-' ∷ cs) s (λ q u. ground arith) (omega arith) in
      rw skip (ground (arith, atol_digits-fits fuel m (p + 1) cs t.2 d))
  atol-decimal fuel m a spaces (some false) cs s d fits f =
      let (p, skip, t) =
        skip_spaces_lem fuel m a spaces (b'+' ∷ cs) s (λ q u. ground arith) (omega arith) in
      rw skip (ground (arith, atol_digits-fits fuel m (p + 1) cs t.2 d))
