-- ===== src/Taint/Keep.antt =====
-- `read_taints`, `get_taint_section` and `read_taint_section` keep the vectors consistent.
use cellift_meta.Base.{
  ℕ, zero, suc, ◌+◌, ◌<◌, ◌≤◌, ◌≡◌, refl, sym, ap, ◌∙◌, subst, Option, none, some, List, [], ◌∷◌,
  ◌++◌, length, get_elem?, set, set-same, store, All, ◌==◌, ==_self, arith, Bool-cases,
  Option-cases, ◌⊎◌, inl, inr, store_same, store_other, length-set, length-append, some_injective,
}
use cellift_meta.Base.Run.{returned, ◌>>=◌}
use cellift_meta.Taint.{Assignments, Taint, untainted, max_taints, init_taint_vectors}
use cellift_meta.Taint.Read.{at, at-some, add_taint, read_taints}
use cellift_meta.Taint.Queue.{get_taint_section, answer}
use cellift_meta.Taint.Text.{
  Entry, IsEntry, id_of, offset_of, num_of, all_of, add_all, text, read_taints-text,
}
use cellift_meta.Taint.Consistent.{
  HasTaint, IsConsistent, IsMatching, IsMatching-at, IsMatching-set,
  init_taint_vectors-IsConsistent,
}

-- A further assignment leaves every address its taint.
HasTaint-store :
    (m : Assignments) (l : List (ℕ × ℕ)) (a : ℕ) (str : List ℕ)
    → All (HasTaint m) l
    → All (HasTaint (store m a (some str))) l
HasTaint-store m [] a str h = tt
HasTaint-store m (s ∷ l) a str ((old, e), h) = (
  elim (Bool-cases (s.0 == a)) [
    | inl same ↦ (str, store_same m a s.0 (some str) same)
    | inr other ↦ (old, store_other m a s.0 (some str) other ∙ e)
  ],
  HasTaint-store m l a str h,
)

All-snoc :
    (m : Assignments) (l : List (ℕ × ℕ)) (s : ℕ × ℕ)
    → All (HasTaint m) l
    → HasTaint m s
    → All (HasTaint m) (l ++ (s ∷ []))
All-snoc m [] s h k = (k, tt)
All-snoc m (s' ∷ l) s (k', h) k = (k', All-snoc m l s h k)

-- An id that the vectors have gets its section and its taint.
pub add_taint-IsConsistent :
    (id offset num : ℕ) (contents : List ℕ) (st : Taint)
    → IsConsistent st
    → id < length st.sections
    → (st' : Taint) × (add_taint id offset num contents st ≡ returned st')
      × IsConsistent st'
      × (length st'.sections ≡ length st.sections)
unfolding add_taint
add_taint-IsConsistent id offset num contents st h lt =
    let (l, m, i, l_at, m_at, i_at, (taints, le)) =
      IsMatching-at st.sections st.assignments st.section_index id h lt in
    let l' = l ++ ((offset, num) ∷ []) in
    let m' = store m offset (some contents) in
    let st' : Taint = record st {
      sections = set st.sections id l';
      assignments = set st.assignments id m';
    } in
    (
      st',
      ap
            (λ r. r >>= λ pushed. at st.assignments id >>= λ assigned. returned (record st {
              sections = set st.sections id (pushed ++ ((offset, num) ∷ []));
              assignments = set st.assignments id (store assigned offset (some contents));
            }))
            (at-some st.sections id l l_at)
          ∙ ap
              (λ r. r >>= λ assigned. returned (record st {
                sections = set st.sections id l';
                assignments = set st.assignments id (store assigned offset (some contents));
              }))
              (at-some st.assignments id m m_at),
      subst (λ is. IsMatching st'.sections st'.assignments is) (set-same st.section_index id i i_at)
          (IsMatching-set st.sections st.assignments st.section_index id l' m' i h (
            All-snoc m' l (offset, num) (HasTaint-store m l offset contents taints)
                (contents, store_same m offset offset (some contents) (==_self offset)),
            omega (arith, length-append l ((offset, num) ∷ [])),
          )),
      length-set st.sections id l',
    )

pub add_all-IsConsistent :
    (es : List Entry) (st : Taint)
    → IsConsistent st
    → All (λ e. id_of e < length st.sections) es
    → (st' : Taint) × (add_all es st ≡ returned st') × IsConsistent st'
unfolding add_all
add_all-IsConsistent [] st h known = (st, refl, h)
add_all-IsConsistent (e ∷ es) st h (lt, known) =
    let (st1, run, h1, len) =
      add_taint-IsConsistent (id_of e) (offset_of e) (num_of e) (all_of e.contents) st h lt in
    let (st', run', h') =
      add_all-IsConsistent es st1 h1 (subst (λ n. All (λ e. id_of e < n) es) (sym len) known) in
    (st', ap (λ r. r >>= λ st2. add_all es st2) run ∙ run', h')

-- A taint file of entries, which have a decimal id below the number of taints, an address in
-- hexadecimal digits behind `0x`, a decimal length, both below 2^64, and a taint without blanks,
-- is read to its end behind `init_taint_vectors`, for a number of taints that a vector can have;
-- and then the vectors are consistent.
pub read_taints-IsConsistent :
    (es : List Entry) (num_taints : ℕ)
    → num_taints ≤ max_taints
    → All IsEntry es
    → All (λ e. id_of e < num_taints) es
    → (st : Taint) × ((init_taint_vectors num_taints untainted >>= λ st1.
          read_taints (some (text es)) st1)
        ≡ returned st)
      × IsConsistent st
read_taints-IsConsistent es num_taints le entries known =
    let (st1, run, h, len) = init_taint_vectors-IsConsistent num_taints untainted le tt in
    let (st, run', h') =
      add_all-IsConsistent es st1 h (subst (λ n. All (λ e. id_of e < n) es) (sym len) known) in
    (
      st,
      ap (λ r. r >>= λ st2. read_taints (some (text es)) st2) run
          ∙ read_taints-text es st1 entries
          ∙ run',
      h',
    )

All-at :
    (m : Assignments) (l : List (ℕ × ℕ)) (i : ℕ) (s : ℕ × ℕ)
    → All (HasTaint m) l
    → get_elem? l i ≡ some s
    → HasTaint m s × (i < length l)
All-at m [] i s h e = absurd (cc)
All-at m (s' ∷ l) zero s (k, h) e = (subst (HasTaint m) (some_injective e) k, omega arith)
All-at m (s' ∷ l) (suc i) s (k, h) e = let (k', lt) = All-at m l i s h e in (k', omega arith)

-- For an id that consistent vectors have, `get_taint_section` returns, and leaves them consistent: it
-- gives none and changes nothing, or it gives a section whose address has a taint.
pub get_taint_section-IsConsistent :
    (st : Taint) (id : ℕ)
    → IsConsistent st
    → id < length st.sections
    → (o : Option (ℕ × ℕ)) × (st' : Taint) × (get_taint_section st id ≡ returned (o, st'))
      × IsConsistent st'
      × (((o ≡ none) × (st' ≡ st))
          ⊎ ((s : ℕ × ℕ) × (m : Assignments) × (o ≡ some s)
              × (get_elem? st'.assignments id ≡ some m)
              × HasTaint m s))
unfolding get_taint_section
get_taint_section-IsConsistent st id h lt =
    let (l, m, i, l_at, m_at, i_at, (taints, le)) =
      IsMatching-at st.sections st.assignments st.section_index id h lt in
    let run : get_taint_section st id ≡ returned (answer st id i (get_elem? l i)) =
      ap (λ r. r >>= λ i'. at st.sections id >>= λ l'. returned (answer st id i' (get_elem? l' i')))
        (at-some st.section_index id i i_at)
      ∙ ap (λ r. r >>= λ l'. returned (answer st id i (get_elem? l' i)))
          (at-some st.sections id l l_at) in
    elim (Option-cases (get_elem? l i)) [
      | inl none' ↦
          (none, st, run ∙ ap (λ o. returned (answer st id i o)) none', h, inl (refl, refl))
      | inr (s, some') ↦
          let (k, less) = All-at m l i s taints some' in
          let is' = set st.section_index id (i + 1) in
          (
            some s,
            record st { section_index = is' },
            run ∙ ap (λ o. returned (answer st id i o)) some',
            subst (λ ls. IsMatching ls st.assignments is') (set-same st.sections id l l_at)
                (subst (λ ms. IsMatching (set st.sections id l) ms is')
                  (set-same st.assignments id m m_at)
                  (IsMatching-set st.sections st.assignments st.section_index id l m (i + 1) h
                    (taints, omega arith))),
            inr (s, m, refl, m_at, k),
          )
    ]
