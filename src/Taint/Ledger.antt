-- ===== src/Taint/Ledger.antt =====
-- What the calls of the taint loader mean: all entries read so far, and how many sections of each id
-- have been given.
use cellift_meta.Base.{
  ℕ, ◌+◌, ◌<◌, ◌≡◌, refl, sym, ap, ◌∙◌, subst, Bool, true, false, ◌&&◌, Bool-cases, if◌then◌else◌,
  ◌==◌, Option, none, some, List, [], ◌∷◌, ◌++◌, append_one, append_nil, get_elem?, store, set, All,
  Mem, inl, inr,
}
use cellift_meta.Base.Run.{Run, returned, exited, ◌>>=◌}
use cellift_meta.Elf.Queue.Copy.{overlay}
use cellift_meta.Taint.{Assignments, Taint}
use cellift_meta.Taint.Read.{at-some, add_taint}
use cellift_meta.Taint.Decode.{decode}
use cellift_meta.Taint.Text.{Entry, id_of, offset_of, num_of, all_of, add_all}
use cellift_meta.Taint.Spec.{
  sections_of, last_taint, prepend, pair_of, behind_entry, add_taint-Holds,
}

-- A taint file of entries is read, the next section of an id is asked for, or the taint at an address.
pub data Call : Type 0 where
  read : List Entry → Call
  next : ℕ → Call
  fetch : ℕ → ℕ → Mem → Call

pub data Answer : Type 0 where
  done : Answer
  section : Option (ℕ × ℕ) → Answer
  buffer : Mem → Answer

pub record Ledger : Type 0 where
  pub all : List Entry
  pub given : ℕ → ℕ

abbrev pub empty_ledger : Ledger
empty_ledger = record { all = []; given = λ _. 0 }

-- No taint is an empty one.
abbrev pub text_of : Option (List ℕ) → List ℕ
text_of none = []
text_of (some str) = str

abbrev pub give : ℕ → Option (ℕ × ℕ) → Ledger → Run (Answer × Ledger)
give id none ledger = returned (section none, ledger)
give id (some s) ledger =
    returned
      (section (some s), record ledger { given = store ledger.given id (ledger.given id + 1) })

abbrev pub show_bytes : Mem → Option (List ℕ) → Ledger → Run (Answer × Ledger)
show_bytes buf none ledger = exited 0
show_bytes buf (some bs) ledger = returned (buffer (overlay bs buf), ledger)

unfoldable pub ledger_step : Call → Ledger → Run (Answer × Ledger)
unfolding sections_of last_taint decode
ledger_step (read es) ledger = returned (done, record ledger { all = ledger.all ++ es })
ledger_step (next id) ledger =
    give id (get_elem? (sections_of id ledger.all) (ledger.given id)) ledger
ledger_step (fetch id a buf) ledger =
    show_bytes buf (decode (text_of (last_taint id a ledger.all none))) ledger

-- The vectors hold, for an id, what the ledger says.
abbrev pub IsKept : ℕ → List Entry → (ℕ → ℕ) → Taint → Type 0
IsKept id all given st =
    (m : Assignments) × (get_elem? st.sections id ≡ some (sections_of id all))
    × (get_elem? st.assignments id ≡ some m)
    × ((a : ℕ) → text_of (m a) ≡ text_of (last_taint id a all none))
    × (get_elem? st.section_index id ≡ some (given id))

-- The vectors hold what the ledger says, for each of the first `n` ids.
abbrev pub IsLedger : ℕ → Ledger → Taint → Type 0
IsLedger n ledger st = (id : ℕ) → id < n → IsKept id ledger.all ledger.given st

sections_of-snoc :
    (id : ℕ) (es : List Entry) (e : Entry)
    → sections_of id es ++ prepend (id_of e == id) (pair_of e) [] ≡ sections_of id (es ++ (e ∷ []))
unfolding sections_of
sections_of-snoc id [] e = refl
sections_of-snoc id (e' ∷ es) e = elim (Bool-cases (id_of e' == id)) [
  | inl here ↦ rw (here) (ap (λ l. pair_of e' ∷ l) (sections_of-snoc id es e))
  | inr there ↦ rw (there) (sections_of-snoc id es e)
]

last_taint-snoc :
    (id a : ℕ) (es : List Entry) (e : Entry) (old : Option (List ℕ))
    → last_taint id a (es ++ (e ∷ [])) old
      ≡ behind_entry (id_of e == id) e (λ a'. last_taint id a' es old) a
unfolding last_taint
last_taint-snoc id a [] e old = refl
last_taint-snoc id a (e' ∷ es) e old =
    last_taint-snoc id a es e (behind_entry (id_of e' == id) e' (λ _. old) a)

text_of-if :
    (b : Bool) (new old old' : Option (List ℕ))
    → text_of old ≡ text_of old'
    → text_of (if b then new else old) ≡ text_of (if b then new else old')
text_of-if true new old old' e = refl
text_of-if false new old old' e = e

add_taint-returned :
    (id offset num : ℕ) (contents : List ℕ) (st : Taint) (m : Assignments) (l : List (ℕ × ℕ))
    → get_elem? st.sections id ≡ some l
    → get_elem? st.assignments id ≡ some m
    → (st' : Taint) × (add_taint id offset num contents st ≡ returned st')
      × (st'.section_index ≡ st.section_index)
unfolding add_taint
add_taint-returned id offset num contents st m l l_at m_at = (
  record st {
    sections = set st.sections id (l ++ ((offset, num) ∷ []));
    assignments = set st.assignments id (store m offset (some contents));
  },
  rw (at-some st.sections id l l_at, at-some st.assignments id m m_at) refl,
  refl,
)

-- One more entry, of an id that the vectors have.
add_taint-IsKept :
    (n : ℕ) (e : Entry) (ledger : Ledger) (st : Taint)
    → id_of e < n
    → IsLedger n ledger st
    → (st' : Taint) × (add_taint (id_of e) (offset_of e) (num_of e) (all_of e.contents) st
        ≡ returned st')
      × IsLedger n (record ledger { all = ledger.all ++ (e ∷ []) }) st'
add_taint-IsKept n e ledger st lt kept =
    let (st', run, same) =
      add_taint-returned (id_of e) (offset_of e) (num_of e) (all_of e.contents) st
        ((kept (id_of e) lt).0) (sections_of (id_of e) ledger.all) ((kept (id_of e) lt).1)
        ((kept (id_of e) lt).2) in
    (
      st',
      run,
      λ id less.
          let (m, l_at, m_at, taints, i_at) = kept id less in
          let (l_at', (m', m_at', taints')) =
            add_taint-Holds e id (sections_of id ledger.all) m st st' (l_at, (m, m_at, λ a. refl))
              run in
          (
            m',
            l_at' ∙ ap some (sections_of-snoc id ledger.all e),
            m_at',
            λ a.
                ap text_of (taints' a)
                ∙ text_of-if (id_of e == id && a == offset_of e) (some (all_of e.contents)) (m a)
                    (last_taint id a ledger.all none) (taints a)
                ∙ sym (ap text_of (last_taint-snoc id a ledger.all e none)),
            ap (λ is. get_elem? is id) same ∙ i_at,
          ),
    )

pub add_all-IsKept :
    (n : ℕ) (es : List Entry) (ledger : Ledger) (st : Taint)
    → All (λ e. id_of e < n) es
    → IsLedger n ledger st
    → (st' : Taint) × (add_all es st ≡ returned st')
      × IsLedger n (record ledger { all = ledger.all ++ es }) st'
unfolding add_all
add_all-IsKept n [] ledger st known kept = (
  st,
  refl,
  subst (λ all. IsLedger n (record ledger { all = all }) st) (sym (append_nil ledger.all)) kept,
)
add_all-IsKept n (e ∷ es) ledger st (lt, known) kept =
    let (st1, run, kept1) = add_taint-IsKept n e ledger st lt kept in
    let (st', run', kept') =
      add_all-IsKept n es (record ledger { all = ledger.all ++ (e ∷ []) }) st1 known kept1 in
    (
      st',
      ap (λ r. r >>= λ st2. add_all es st2) run ∙ run',
      subst (λ all. IsLedger n (record ledger { all = all }) st') (append_one ledger.all e es)
          kept',
    )
