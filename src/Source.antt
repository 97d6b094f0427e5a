-- ===== src/Source.antt =====
-- How a simulation takes what a loader holds: it asks for sections, one call after the other, until
-- there are none. The loaders of elfloader.cc and taintloader.cc are such sources.
use cellift_meta.Base.{
  ℕ, zero, suc, ◌+◌, ◌-◌, ◌<◌, ◌≤◌, ◌≡◌, refl, sym, ap, ◌∙◌, Option, none, some, List, [], ◌∷◌,
  length, get_elem?, arith,
}
use cellift_meta.Base.Run.{Run, returned, ◌>>=◌}

-- A call that gives the next section or none, the sections that are left, and the state in which none
-- is left.
pub record Source : Type 1 where
  pub State : Type 0
  pub get : State → Run (Option (ℕ × ℕ) × State)
  pub IsReady : State → Type 0
  pub pending : State → List (ℕ × ℕ)
  pub finish : State → State
  pub get-none :
      (s : State) → IsReady s → pending s ≡ [] → (get s ≡ returned (none, s)) × (finish s ≡ s)
  pub get-some :
      (s : State) (x : ℕ × ℕ) (xs : List (ℕ × ℕ))
      → IsReady s
      → pending s ≡ x ∷ xs
      → (s' : State) × (get s ≡ returned (some x, s'))
        × IsReady s'
        × (pending s' ≡ xs)
        × (finish s' ≡ finish s)

-- What is left of a list behind `n` elements.
abbrev pub drop {ℓ} : {A : Type ℓ} → ℕ → List A → List A
drop zero xs = xs
drop (suc n) [] = []
drop (suc n) (x ∷ xs) = drop n xs

module _ {ℓ} {A : Type ℓ} where
  abbrev head? : List A → Option A
  head? [] = none
  head? (x ∷ xs) = some x

  abbrev tail : List A → List A
  tail [] = []
  tail (x ∷ xs) = xs

  -- An element is left: it stands at the index, and the others are left behind it.
  pub drop-cons :
      (l : List A) (i : ℕ) (x : A) (xs : List A)
      → drop i l ≡ x ∷ xs
      → (get_elem? l i ≡ some x) × (drop (i + 1) l ≡ xs) × (i < length l)
  drop-cons [] zero x xs e = absurd (cc)
  drop-cons [] (suc i) x xs e = absurd (cc)
  drop-cons (y ∷ l) zero x xs e = (ap head? e, ap tail e, omega arith)
  drop-cons (y ∷ l) (suc i) x xs e =
      let (here, rest, less) = drop-cons l i x xs e in
      (
        here,
        ap (λ (k : ℕ). drop k (y ∷ l)) {x = suc i + 1} {y = suc (i + 1)} (omega arith) ∙ rest,
        omega arith,
      )

  -- Nothing is left.
  pub drop-nil : (l : List A) (i : ℕ) → drop i l ≡ [] → (get_elem? l i ≡ none) × (length l ≤ i)
  drop-nil [] zero e = (refl, omega arith)
  drop-nil [] (suc i) e = (refl, omega arith)
  drop-nil (x ∷ l) zero e = absurd (cc)
  drop-nil (x ∷ l) (suc i) e = let (here, less) = drop-nil l i e in (here, omega arith)

  pub drop_all : (l : List A) → drop (length l) l ≡ []
  drop_all [] = refl
  drop_all (x ∷ l) = drop_all l

  pub length-drop : (l : List A) (i : ℕ) → length (drop i l) + i ≡ length l + (i - length l)
  length-drop [] zero = refl
  length-drop [] (suc i) = omega arith
  length-drop (x ∷ l) zero = omega arith
  length-drop (x ∷ l) (suc i) = omega (arith, length-drop l i)

module _ (source : Source) where
  open source use {State, get, IsReady, pending, finish}

  abbrev also : ℕ × ℕ → Option (List (ℕ × ℕ) × State) → Run (Option (List (ℕ × ℕ) × State))
  also x none = returned none
  also x (some (xs, s)) = returned (some (x ∷ xs, s))

  abbrev follow :
      (State → Run (Option (List (ℕ × ℕ) × State)))
      → Option (ℕ × ℕ) × State
      → Run (Option (List (ℕ × ℕ) × State))
  follow next (some x, s) = next s >>= also x
  follow next (none, s) = returned (some ([], s))

  -- `while (get(&address, &len)) …`, with at most `fuel` calls: what the calls give, and the state behind
  -- the last one. `none` means that the calls go on.
  unfoldable pub drain : ℕ → State → Run (Option (List (ℕ × ℕ) × State))
  drain zero s = returned none
  drain (suc fuel) s = get s >>= follow (λ s'. drain fuel s')

  -- One call for each section that is left, and one for the end.
  pub drain-pending :
      (fuel : ℕ) (xs : List (ℕ × ℕ)) (s : State)
      → IsReady s
      → pending s ≡ xs
      → length xs < fuel
      → drain fuel s ≡ returned (some (xs, finish s))
  unfolding drain
  drain-pending zero xs s ready left enough = absurd (omega arith)
  drain-pending (suc fuel) [] s ready left enough =
      let (end, same) = source.get-none s ready left in
      ap (λ r. r >>= follow (λ s'. drain fuel s')) end
      ∙ ap (λ (s' : State). returned (some ([], s'))) (sym same)
  drain-pending (suc fuel) (x ∷ xs) s ready left enough =
      let (s', call, ready', left', same) = source.get-some s x xs ready left in
      ap (λ r. r >>= follow (λ s''. drain fuel s'')) call
      ∙ ap (λ r. r >>= also x) (drain-pending fuel xs s' ready' left' (omega arith))
      ∙ ap (λ (s'' : State). returned (some (x ∷ xs, s''))) same
