-- ===== src/Taint/Drain.antt =====
-- The vectors as a source of the sections of an id.
use cellift_meta.Base.{
  ℕ, zero, suc, ◌+◌, ◌<◌, ◌≤◌, ◌≡◌, refl, sym, ap, ◌∙◌, Option, none, some, List, [], ◌∷◌, length,
  get_elem?, set, set-same, get_elem?-set, arith, All, leb,
}
use cellift_meta.Base.Run.{returned, assert-then, ◌>>=◌, >>=-eq-returned, returned_injective}
use cellift_meta.Source.{Source, drop, drop-cons, drop-nil, drain, drain-pending}
use cellift_meta.Taint.{Taint, untainted, max_taints, init_taint_vectors}
use cellift_meta.Taint.Read.{at, at-some, add_taint, read_taints}
use cellift_meta.Taint.Queue.{get_taint_section, answer}
use cellift_meta.Taint.Spec.{
  sections_of, add_taint-eq-returned, get_elem?-resize, read_taints-Holds,
}
use cellift_meta.Taint.Text.{
  read_taints-text, Entry, IsEntry, id_of, offset_of, num_of, all_of, add_all, text,
}

pub get_taint_section-answer :
    (st : Taint) (id i : ℕ) (l : List (ℕ × ℕ))
    → get_elem? st.section_index id ≡ some i
    → get_elem? st.sections id ≡ some l
    → get_taint_section st id ≡ returned (answer st id i (get_elem? l i))
unfolding get_taint_section
get_taint_section-answer st id i l i_at l_at =
    ap (λ r. r >>= λ i'. at st.sections id >>= λ l'. returned (answer st id i' (get_elem? l' i')))
      (at-some st.section_index id i i_at)
    ∙ ap (λ r. r >>= λ l'. returned (answer st id i (get_elem? l' i)))
        (at-some st.sections id l l_at)

pub set-set : (xs : List ℕ) (i x y : ℕ) → set (set xs i x) i y ≡ set xs i y
set-set [] i x y = refl
set-set (z ∷ xs) zero x y = refl
set-set (z ∷ xs) (suc i) x y = ap (λ l. z ∷ l) (set-set xs i x y)

-- What is left of the sections of an id, by its index and its sections.
abbrev pub left_of : Option ℕ → Option (List (ℕ × ℕ)) → List (ℕ × ℕ)
left_of (some i) (some l) = drop i l
left_of (some i) none = []
left_of none l = []

-- The vectors when the sections of an id are all given.
abbrev pub finished_of : ℕ → Option (List (ℕ × ℕ)) → Taint → Taint
finished_of id (some l) st = record st { section_index = set st.section_index id (length l) }
finished_of id none st = st

-- The vectors have the id, and its index is not past its end.
abbrev pub IsKnown : ℕ → Taint → Type 0
IsKnown id st =
    (i : ℕ) × (l : List (ℕ × ℕ)) × (get_elem? st.section_index id ≡ some i)
    × (get_elem? st.sections id ≡ some l)
    × (i ≤ length l)

pub finished_of-same :
    (id i : ℕ) (l : List (ℕ × ℕ)) (st : Taint)
    → get_elem? st.section_index id ≡ some i
    → i ≡ length l
    → record st { section_index = set st.section_index id (length l) } ≡ st
finished_of-same id i l st i_at end =
    ap (λ (is : List ℕ). record st { section_index = is })
      (ap (set st.section_index id) (sym end) ∙ set-same st.section_index id i i_at)

pub left_of-eq :
    (id i : ℕ) (l xs : List (ℕ × ℕ)) (st : Taint)
    → get_elem? st.section_index id ≡ some i
    → get_elem? st.sections id ≡ some l
    → left_of (get_elem? st.section_index id) (get_elem? st.sections id) ≡ xs
    → drop i l ≡ xs
left_of-eq id i l xs st i_at l_at left =
    sym (ap (λ o. left_of o (get_elem? st.sections id)) i_at ∙ ap (left_of (some i)) l_at) ∙ left

pub get_taint_section-none :
    (id : ℕ) (st : Taint)
    → IsKnown id st
    → left_of (get_elem? st.section_index id) (get_elem? st.sections id) ≡ []
    → (get_taint_section st id ≡ returned (none, st))
      × (finished_of id (get_elem? st.sections id) st ≡ st)
get_taint_section-none id st (i, l, i_at, l_at, le) left =
    let (at', less) = drop-nil l i (left_of-eq id i l [] st i_at l_at left) in
    (
      get_taint_section-answer st id i l i_at l_at ∙ ap (λ o. returned (answer st id i o)) at',
      ap (λ o. finished_of id o st) l_at ∙ finished_of-same id i l st i_at (omega arith),
    )

pub get_taint_section-some :
    (id : ℕ) (st : Taint) (s : ℕ × ℕ) (rest : List (ℕ × ℕ))
    → IsKnown id st
    → left_of (get_elem? st.section_index id) (get_elem? st.sections id) ≡ s ∷ rest
    → (st' : Taint) × (get_taint_section st id ≡ returned (some s, st'))
      × IsKnown id st'
      × (left_of (get_elem? st'.section_index id) (get_elem? st'.sections id) ≡ rest)
      × (finished_of id (get_elem? st'.sections id) st'
          ≡ finished_of id (get_elem? st.sections id) st)
get_taint_section-some id st s rest (i, l, i_at, l_at, le) left =
    let (at', left', less) =
      drop-cons l i s rest (left_of-eq id i l (s ∷ rest) st i_at l_at left) in
    let st' : Taint = record st { section_index = set st.section_index id (i + 1) } in
    let next = get_elem?-set st.section_index id i (i + 1) i_at in
    (
      st',
      get_taint_section-answer st id i l i_at l_at ∙ ap (λ o. returned (answer st id i o)) at',
      (i + 1, l, next, l_at, omega arith),
      ap (λ o. left_of o (get_elem? st.sections id)) next
          ∙ ap (left_of (some (i + 1))) l_at
          ∙ left',
      ap (λ o. finished_of id o st') l_at
          ∙ ap (λ (is : List ℕ). record st { section_index = is })
              (set-set st.section_index id (i + 1) (length l))
          ∙ sym (ap (λ o. finished_of id o st) l_at),
    )

abbrev pub taint_source : ℕ → Source
taint_source id = record {
  State = Taint;
  get = λ st. get_taint_section st id;
  IsReady = IsKnown id;
  pending = λ st. left_of (get_elem? st.section_index id) (get_elem? st.sections id);
  finish = λ st. finished_of id (get_elem? st.sections id) st;
  get-none = λ st ready left. get_taint_section-none id st ready left;
  get-some = λ st s rest ready left. get_taint_section-some id st s rest ready left;
}

add_all-section_index :
    (es : List Entry) (st st' : Taint)
    → add_all es st ≡ returned st'
    → st'.section_index ≡ st.section_index
unfolding add_all
add_all-section_index [] st st' h = ap (λ (s : Taint). s.section_index) (sym (returned_injective h))
add_all-section_index (e ∷ es) st st' h =
    let (st1, run, h') =
      >>=-eq-returned (add_taint (id_of e) (offset_of e) (num_of e) (all_of e.contents) st)
        (λ s. add_all es s) h in
    let (l, m, l_at, m_at, made) =
      add_taint-eq-returned (id_of e) (offset_of e) (num_of e) (all_of e.contents) st st1 run in
    add_all-section_index es st1 st' h' ∙ ap (λ (s : Taint). s.section_index) (sym made)

pub init_taint_vectors-section_index :
    (num_taints id : ℕ) (st : Taint)
    → id < num_taints
    → init_taint_vectors num_taints untainted ≡ returned st
    → get_elem? st.section_index id ≡ some 0
unfolding init_taint_vectors
init_taint_vectors-section_index num_taints id st lt h =
    let (fits, e) = assert-then (leb num_taints max_taints) _ h in
    ap (λ (s : Taint). get_elem? s.section_index id) (sym (returned_injective e))
    ∙ get_elem?-resize 0 num_taints id lt

-- A taint file of entries, which have a decimal id below the number of taints, an address in
-- hexadecimal digits behind `0x`, a decimal length, both below 2^64, and a taint without blanks,
-- is read to its end behind `init_taint_vectors`, for a number of taints that a vector can have;
-- and then `get_taint_section`, asked for an id below that number until it answers that there are
-- no more, gives the sections that the file gives the id, each once and in the order of the file,
-- with one call for each of them and one for the end.
pub read_taints-drain_taint :
    (es : List Entry) (num_taints id fuel : ℕ)
    → num_taints ≤ max_taints
    → id < num_taints
    → All IsEntry es
    → All (λ e. id_of e < num_taints) es
    → length (sections_of id es) < fuel
    → (st : Taint) × (st' : Taint) × ((init_taint_vectors num_taints untainted >>= λ st1.
          read_taints (some (text es)) st1)
        ≡ returned st)
      × (drain (taint_source id) fuel st ≡ returned (some (sections_of id es, st')))
read_taints-drain_taint es num_taints id fuel le lt entries known enough =
    let (st, run, (sections_at, taints)) = read_taints-Holds es num_taints id le lt entries known in
    let (st1, init_run, read_run) =
      >>=-eq-returned (init_taint_vectors num_taints untainted)
        (λ st1. read_taints (some (text es)) st1) run in
    let kept = add_all-section_index es st1 st (sym (read_taints-text es st1 entries) ∙ read_run) in
    let start =
      ap (λ (is : List ℕ). get_elem? is id) kept
      ∙ init_taint_vectors-section_index num_taints id st1 lt init_run in
    (
      st,
      finished_of id (get_elem? st.sections id) st,
      run,
      drain-pending (taint_source id) fuel (sections_of id es) st
          (0, sections_of id es, start, sections_at, omega arith)
          (ap (λ o. left_of o (get_elem? st.sections id)) start ∙ ap (left_of (some 0)) sections_at)
          enough,
    )
