-- ===== src/Taint/Consistent.antt =====
-- The three vectors have the same length, each section of an id has a taint, and no index is past the
-- end of its sections: what every operation keeps.
use cellift_meta.Base.{
  ℕ, zero, suc, ◌<◌, ◌≤◌, ◌≡◌, refl, ap, none, some, List, [], ◌∷◌, length, get_elem?, set, All,
  arith, le→leb,
}
use cellift_meta.Base.Run.{returned}
use cellift_meta.Taint.{Assignments, Taint, resize, max_taints, init_taint_vectors}

-- An address has a taint.
abbrev pub HasTaint : Assignments → ℕ × ℕ → Type 0
HasTaint m s = (str : List ℕ) × (m s.0 ≡ some str)

-- The entries of one id in the three vectors.
abbrev pub IsEntryOf : List (ℕ × ℕ) → Assignments → ℕ → Type 0
IsEntryOf l m i = All (HasTaint m) l × (i ≤ length l)

abbrev pub IsMatching : List (List (ℕ × ℕ)) → List Assignments → List ℕ → Type 0
IsMatching [] [] [] = Unit {0}
IsMatching (l ∷ ls) (m ∷ ms) (i ∷ is) = IsEntryOf l m i × IsMatching ls ms is
IsMatching _ _ _ = ⊥

abbrev pub IsConsistent : Taint → Type 0
IsConsistent st = IsMatching st.sections st.assignments st.section_index

IsMatching-resize :
    (n : ℕ) (ls : List (List (ℕ × ℕ))) (ms : List Assignments) (is : List ℕ)
    → IsMatching ls ms is
    → IsMatching (resize [] n ls) (resize (λ _. none) n ms) (resize 0 n is)
unfolding resize
IsMatching-resize zero ls ms is h = tt
IsMatching-resize (suc n) [] [] [] h = ((tt, omega arith), IsMatching-resize n [] [] [] tt)
IsMatching-resize (suc n) (l ∷ ls) (m ∷ ms) (i ∷ is) (e, h) = (e, IsMatching-resize n ls ms is h)
IsMatching-resize (suc n) [] [] (i ∷ is) h = absurd h
IsMatching-resize (suc n) [] (m ∷ ms) is h = absurd h
IsMatching-resize (suc n) (l ∷ ls) [] is h = absurd h
IsMatching-resize (suc n) (l ∷ ls) (m ∷ ms) [] h = absurd h

-- The entries of an id that the vectors have.
pub IsMatching-at :
    (ls : List (List (ℕ × ℕ))) (ms : List Assignments) (is : List ℕ) (id : ℕ)
    → IsMatching ls ms is
    → id < length ls
    → (l : List (ℕ × ℕ)) × (m : Assignments) × (i : ℕ) × (get_elem? ls id ≡ some l)
      × (get_elem? ms id ≡ some m)
      × (get_elem? is id ≡ some i)
      × IsEntryOf l m i
IsMatching-at [] ms is id h lt = absurd (omega arith)
IsMatching-at (l ∷ ls) (m ∷ ms) (i ∷ is) zero (e, h) lt = (l, m, i, refl, refl, refl, e)
IsMatching-at (l ∷ ls) (m ∷ ms) (i ∷ is) (suc id) (e, h) lt =
    IsMatching-at ls ms is id h (omega arith)
IsMatching-at (l ∷ ls) [] is id h lt = absurd h
IsMatching-at (l ∷ ls) (m ∷ ms) [] id h lt = absurd h

-- New entries for an id.
pub IsMatching-set :
    (ls : List (List (ℕ × ℕ))) (ms : List Assignments) (is : List ℕ) (id : ℕ) (l : List (ℕ × ℕ))
    (m : Assignments) (i : ℕ)
    → IsMatching ls ms is
    → IsEntryOf l m i
    → IsMatching (set ls id l) (set ms id m) (set is id i)
IsMatching-set [] [] [] id l m i h e = tt
IsMatching-set (l' ∷ ls) (m' ∷ ms) (i' ∷ is) zero l m i (e', h) e = (e, h)
IsMatching-set (l' ∷ ls) (m' ∷ ms) (i' ∷ is) (suc id) l m i (e', h) e =
    (e', IsMatching-set ls ms is id l m i h e)
IsMatching-set [] [] (i' ∷ is) id l m i h e = absurd h
IsMatching-set [] (m' ∷ ms) is id l m i h e = absurd h
IsMatching-set (l' ∷ ls) [] is id l m i h e = absurd h
IsMatching-set (l' ∷ ls) (m' ∷ ms) [] id l m i h e = absurd h

length-resize {ℓ} : {A : Type ℓ} (x : A) (n : ℕ) (xs : List A) → length (resize x n xs) ≡ n
unfolding resize
length-resize x zero xs = refl
length-resize x (suc n) [] = ap suc (length-resize x n [])
length-resize x (suc n) (y ∷ xs) = ap suc (length-resize x n xs)

-- For a number of ids that a vector can have, `init_taint_vectors` returns vectors of that length, which
-- are consistent when the old ones are.
pub init_taint_vectors-IsConsistent :
    (num_taints : ℕ) (st : Taint)
    → num_taints ≤ max_taints
    → IsConsistent st
    → (st' : Taint) × (init_taint_vectors num_taints st ≡ returned st')
      × IsConsistent st'
      × (length st'.sections ≡ num_taints)
unfolding init_taint_vectors
init_taint_vectors-IsConsistent num_taints st le h = (
  record {
    sections = resize [] num_taints st.sections;
    assignments = resize (λ _. none) num_taints st.assignments;
    section_index = resize 0 num_taints st.section_index;
  },
  rw (le→leb max_taints num_taints le) refl,
  IsMatching-resize num_taints st.sections st.assignments st.section_index h,
  length-resize [] num_taints st.sections,
)
