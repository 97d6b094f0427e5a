-- ===== src/Taint/Spec.antt =====
-- What the vectors hold for each id behind a taint file: its sections in the order of the file, and at
-- each address the last taint that the file gives.
use cellift_meta.Base.{
  ℕ, zero, suc, ◌<◌, ◌≤◌, ◌≡◌, refl, sym, ap, ◌∙◌, subst, Option, none, some, List, [], ◌∷◌, ◌++◌,
  append_nil, append_one, get_elem?, get_elem?-set, get_elem?-set_other, set, store, All, ◌==◌,
  ==_iff, if◌then◌else◌, arith, Bool-cases, inl, inr, Bool, true, false, ◌&&◌, leb, some_injective,
}
use cellift_meta.Base.Run.{returned, assert-then, ◌>>=◌, >>=-eq-returned, returned_injective}
use cellift_meta.Taint.{Assignments, Taint, resize, untainted, max_taints, init_taint_vectors}
use cellift_meta.Taint.Read.{at, add_taint, read_taints}
use cellift_meta.Taint.Text.{
  Entry, IsEntry, id_of, offset_of, num_of, all_of, add_all, text, read_taints-text,
}
use cellift_meta.Taint.Consistent.{init_taint_vectors-IsConsistent}
use cellift_meta.Taint.Keep.{add_all-IsConsistent}

abbrev pub prepend : Bool → ℕ × ℕ → List (ℕ × ℕ) → List (ℕ × ℕ)
prepend true s l = s ∷ l
prepend false s l = l

-- The sections that the entries give to an id.
unfoldable pub sections_of : ℕ → List Entry → List (ℕ × ℕ)
sections_of id [] = []
sections_of id (e ∷ es) = prepend (id_of e == id) (offset_of e, num_of e) (sections_of id es)

-- The last taint that the entries give to an id and an address, or else an old one.
unfoldable pub last_taint : ℕ → ℕ → List Entry → Option (List ℕ) → Option (List ℕ)
last_taint id a [] old = old
last_taint id a (e ∷ es) old =
    last_taint id a es (if id_of e == id && a == offset_of e then some (all_of e.contents) else old)

-- The entries of an id in the vectors.
abbrev pub Holds : Taint → ℕ → List (ℕ × ℕ) → (ℕ → Option (List ℕ)) → Type 0
Holds st id l taint =
    (get_elem? st.sections id ≡ some l)
    × ((m : Assignments) × (get_elem? st.assignments id ≡ some m) × ((a : ℕ) → m a ≡ taint a))

at-eq-returned {ℓ} :
    {A : Type ℓ} (v : List A) (i : ℕ) (x : A) → at v i ≡ returned x → get_elem? v i ≡ some x
at-eq-returned [] i x e = absurd (cc)
at-eq-returned (y ∷ v) zero x e = ap some (returned_injective e)
at-eq-returned (y ∷ v) (suc i) x e = at-eq-returned v i x e

-- What a returned `add_taint` has found and has made.
pub add_taint-eq-returned :
    (id offset num : ℕ) (contents : List ℕ) (st st' : Taint)
    → add_taint id offset num contents st ≡ returned st'
    → (l : List (ℕ × ℕ)) × (m : Assignments) × (get_elem? st.sections id ≡ some l)
      × (get_elem? st.assignments id ≡ some m)
      × (record st {
        sections = set st.sections id (l ++ ((offset, num) ∷ []));
        assignments = set st.assignments id (store m offset (some contents));
      }
          ≡ st')
unfolding add_taint
add_taint-eq-returned id offset num contents st st' h =
    let (l, l_at, e) = >>=-eq-returned (at st.sections id) _ h in
    let (m, m_at, e') = >>=-eq-returned (at st.assignments id) _ e in
    (
      l,
      m,
      at-eq-returned st.sections id l l_at,
      at-eq-returned st.assignments id m m_at,
      returned_injective e',
    )

-- The vectors behind a push and an assignment for the id `i`.
abbrev added : Taint → ℕ → ℕ × ℕ → List ℕ → List (ℕ × ℕ) → Assignments → Taint
added st i s contents l m = record st {
  sections = set st.sections i (l ++ (s ∷ []));
  assignments = set st.assignments i (store m s.0 (some contents));
}

-- The taint of an address behind an entry, for this id or for another one.
abbrev pub behind_entry : Bool → Entry → (ℕ → Option (List ℕ)) → ℕ → Option (List ℕ)
behind_entry b e taint a = if b && a == offset_of e then some (all_of e.contents) else taint a

abbrev pub pair_of : Entry → ℕ × ℕ
pair_of e = (offset_of e, num_of e)

added-here :
    (e : Entry) (id : ℕ) (l l' : List (ℕ × ℕ)) (m' : Assignments) (taint : ℕ → Option (List ℕ))
    (st : Taint)
    → Holds st id l taint
    → get_elem? st.sections id ≡ some l'
    → get_elem? st.assignments id ≡ some m'
    → Holds
        (added st id (pair_of e) (all_of e.contents) l' m')
        id
        (l ++ (pair_of e ∷ []))
        (behind_entry true e taint)
added-here e id l l' m' taint st (l_at, (m, m_at, same)) l'_at m'_at =
    let l_same : l' ≡ l = some_injective (sym l'_at ∙ l_at) in
    let m_same : m' ≡ m = some_injective (sym m'_at ∙ m_at) in
    (
      get_elem?-set st.sections id l' (l' ++ (pair_of e ∷ [])) l'_at
          ∙ ap (λ (x : List (ℕ × ℕ)). some (x ++ (pair_of e ∷ []))) l_same,
      (
        store m' (offset_of e) (some (all_of e.contents)),
        get_elem?-set st.assignments id m' (store m' (offset_of e) (some (all_of e.contents)))
            m'_at,
        λ a.
            ap (λ o. if a == offset_of e then some (all_of e.contents) else o)
              (ap (λ (f : Assignments). f a) m_same ∙ same a),
      ),
    )

added-there :
    (e : Entry) (i id : ℕ) (l l' : List (ℕ × ℕ)) (m' : Assignments) (taint : ℕ → Option (List ℕ))
    (st : Taint)
    → Holds st id l taint
    → ¬ (i ≡ id)
    → Holds
        (added st i (pair_of e) (all_of e.contents) l' m')
        id
        (l ++ [])
        (behind_entry false e taint)
added-there e i id l l' m' taint st (l_at, (m, m_at, same)) ne = (
  get_elem?-set_other st.sections i id (l' ++ (pair_of e ∷ [])) ne
      ∙ l_at
      ∙ ap some (sym (append_nil l)),
  (
    m,
    get_elem?-set_other st.assignments i id (store m' (offset_of e) (some (all_of e.contents))) ne
        ∙ m_at,
    same,
  ),
)

pub add_taint-Holds :
    (e : Entry) (id : ℕ) (l : List (ℕ × ℕ)) (taint : ℕ → Option (List ℕ)) (st st' : Taint)
    → Holds st id l taint
    → add_taint (id_of e) (offset_of e) (num_of e) (all_of e.contents) st ≡ returned st'
    → Holds st' id
        (l ++ prepend (id_of e == id) (pair_of e) [])
        (behind_entry (id_of e == id) e taint)
add_taint-Holds e id l taint st st' held h =
    let (l', m', l'_at, m'_at, made) =
      add_taint-eq-returned (id_of e) (offset_of e) (num_of e) (all_of e.contents) st st' h in
    let shape = λ (b : Bool) (s : Taint).
      Holds s id (l ++ prepend b (pair_of e) []) (behind_entry b e taint) in
    subst (shape (id_of e == id)) made (elim (Bool-cases (id_of e == id)) [
      | inl here ↦
          let eq : id_of e ≡ id = (==_iff (id_of e) id).0 here in
          subst (λ b. shape b (added st (id_of e) (pair_of e) (all_of e.contents) l' m')) (sym here)
            (subst (λ i. shape true (added st i (pair_of e) (all_of e.contents) l' m')) (sym eq)
              (added-here e id l l' m' taint st held
                (subst (λ i. get_elem? st.sections i ≡ some l') eq l'_at)
                (subst (λ i. get_elem? st.assignments i ≡ some m') eq m'_at)))
      | inr there ↦
          subst (λ b. shape b (added st (id_of e) (pair_of e) (all_of e.contents) l' m'))
            (sym there)
            (added-there e (id_of e) id l l' m' taint st held (λ eq. absurd (ground arith)))
    ])

prepend_append :
    (b : Bool) (s : ℕ × ℕ) (l r : List (ℕ × ℕ)) → (l ++ prepend b s []) ++ r ≡ l ++ prepend b s r
prepend_append true s l r = append_one l s r
prepend_append false s l r = ap (λ x. x ++ r) (append_nil l)

add_all-Holds :
    (es : List Entry) (id : ℕ) (l : List (ℕ × ℕ)) (taint : ℕ → Option (List ℕ)) (st st' : Taint)
    → Holds st id l taint
    → add_all es st ≡ returned st'
    → Holds st' id (l ++ sections_of id es) (λ a. last_taint id a es (taint a))
unfolding add_all sections_of last_taint
add_all-Holds [] id l taint st st' held h =
    subst (λ s. Holds s id (l ++ []) taint) (returned_injective h)
      (subst (λ x. Holds st id x taint) (sym (append_nil l)) held)
add_all-Holds (e ∷ es) id l taint st st' held h =
    let (st1, run, h') =
      >>=-eq-returned (add_taint (id_of e) (offset_of e) (num_of e) (all_of e.contents) st)
        (λ s. add_all es s) h in
    subst (λ x. Holds st' id x (λ a. last_taint id a es (behind_entry (id_of e == id) e taint a)))
      (prepend_append (id_of e == id) (pair_of e) l (sections_of id es))
      (add_all-Holds es id (l ++ prepend (id_of e == id) (pair_of e) [])
        (behind_entry (id_of e == id) e taint) st1 st'
        (add_taint-Holds e id l taint st st1 held run) h')

pub get_elem?-resize {ℓ} :
    {A : Type ℓ} (x : A) (n i : ℕ) → i < n → get_elem? (resize x n []) i ≡ some x
unfolding resize
get_elem?-resize x zero i h = absurd (omega arith)
get_elem?-resize x (suc n) zero h = refl
get_elem?-resize x (suc n) (suc i) h = get_elem?-resize x n i (omega arith)

pub init_taint_vectors-Holds :
    (num_taints id : ℕ) (st : Taint)
    → id < num_taints
    → init_taint_vectors num_taints untainted ≡ returned st
    → Holds st id [] (λ _. none)
unfolding init_taint_vectors
init_taint_vectors-Holds num_taints id st lt h =
    let (fits, e) = assert-then (leb num_taints max_taints) _ h in
    subst (λ s. Holds s id [] (λ _. none)) (returned_injective e)
      (
        get_elem?-resize [] num_taints id lt,
        (λ _. none, get_elem?-resize (λ _. none) num_taints id lt, λ a. refl),
      )

-- A taint file of entries, which have a decimal id below the number of taints, an address in
-- hexadecimal digits behind `0x`, a decimal length, both below 2^64, and a taint without blanks,
-- is read to its end behind `init_taint_vectors`, for a number of taints that a vector can have;
-- then an id below that number has the sections that the file gives it, in the order of the file,
-- and at each address the last taint that the file gives it there, or none.
pub read_taints-Holds :
    (es : List Entry) (num_taints id : ℕ)
    → num_taints ≤ max_taints
    → id < num_taints
    → All IsEntry es
    → All (λ e. id_of e < num_taints) es
    → (st : Taint) × ((init_taint_vectors num_taints untainted >>= λ st1.
          read_taints (some (text es)) st1)
        ≡ returned st)
      × Holds st id (sections_of id es) (λ a. last_taint id a es none)
read_taints-Holds es num_taints id le lt entries known =
    let (st1, run, h, len) = init_taint_vectors-IsConsistent num_taints untainted le tt in
    let (st, run', h') =
      add_all-IsConsistent es st1 h (subst (λ n. All (λ e. id_of e < n) es) (sym len) known) in
    (
      st,
      ap (λ r. r >>= λ st2. read_taints (some (text es)) st2) run
          ∙ read_taints-text es st1 entries
          ∙ run',
      add_all-Holds es id [] (λ _. none) st1 st (init_taint_vectors-Holds num_taints id st1 lt run)
          run',
    )
