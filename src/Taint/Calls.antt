-- ===== src/Taint/Calls.antt =====
-- Calls of the taint loader in any order, and that they get the answers of the ledger.
use cellift_meta.Base.{
  ℕ, ◌+◌, ◌<◌, ◌≤◌, ◌≡◌, refl, sym, ap, ◌∙◌, Bool-cases, ◌==◌, ==_iff, Option, none, some,
  Option-cases, List, [], get_elem?, get_elem?-set, get_elem?-set_other, set, store, store_same,
  store_other, some_injective, All, Mem, inl, inr, arith,
}
use cellift_meta.Base.Run.{Run, returned, ◌>>=◌}
use cellift_meta.Calls.{answers, Agrees, exiting, answering, answers-Agrees}
use cellift_meta.Elf.Queue.Copy.{overlay, copy_out-all}
use cellift_meta.Taint.{Assignments, Taint, untainted, max_taints, init_taint_vectors}
use cellift_meta.Taint.Read.{at-some, read_taints}
use cellift_meta.Taint.Queue.{get_taint_section, answer, find_or_add, read_taint_section}
use cellift_meta.Taint.Decode.{decode, write_bytes-decode}
use cellift_meta.Taint.Text.{Entry, IsEntry, id_of, text, read_taints-text}
use cellift_meta.Taint.Consistent.{init_taint_vectors-IsConsistent}
use cellift_meta.Taint.Spec.{sections_of, last_taint, init_taint_vectors-Holds}
use cellift_meta.Taint.Drain.{get_taint_section-answer, init_taint_vectors-section_index}
use cellift_meta.Taint.Ledger.{
  Call, read, next, fetch, Answer, done, section, buffer, Ledger, empty_ledger, text_of, give,
  show_bytes, ledger_step, IsKept, IsLedger, add_all-IsKept,
}

-- The calls of the program.
unfoldable pub taint_step : Call → Taint → Run (Answer × Taint)
unfolding read_taints get_taint_section read_taint_section
taint_step (read es) st = read_taints (some (text es)) st >>= λ st'. returned (done, st')
taint_step (next id) st = get_taint_section st id >>= λ (s, st'). returned (section s, st')
taint_step (fetch id a buf) st =
    read_taint_section st id a buf >>= λ (st', buf'). returned (buffer buf', st')

-- Files of entries, and ids below the number of taints.
abbrev pub IsCallable : ℕ → Call → Type 0
IsCallable n (read es) = All IsEntry es × All (λ e. id_of e < n) es
IsCallable n (next id) = id < n
IsCallable n (fetch id a buf) = id < n

read-Agrees :
    (n : ℕ) (es : List Entry) (ledger : Ledger) (st : Taint)
    → IsCallable n (read es)
    → IsLedger n ledger st
    → Agrees (IsLedger n) (taint_step (read es) st) (ledger_step (read es) ledger)
unfolding taint_step ledger_step
read-Agrees n es ledger st (entries, known) kept =
    let (st', run, kept') = add_all-IsKept n es ledger st known kept in
    answering done st' _
      (ap (λ r. r >>= λ st''. returned (done, st'')) (read_taints-text es st entries ∙ run)) refl
      kept'

-- A section of an id is given: the index of this id moves on.
IsKept-given :
    (id id' i : ℕ) (all : List Entry) (given : ℕ → ℕ) (st : Taint)
    → i ≡ given id
    → get_elem? st.section_index id ≡ some i
    → IsKept id' all given st
    → IsKept id' all
        (store given id (given id + 1))
        (record st { section_index = set st.section_index id (i + 1) })
IsKept-given id id' i all given st same at' (m, l_at, m_at, taints, i_at) = (
  m,
  l_at,
  m_at,
  taints,
  elim (Bool-cases (id' == id)) [
    | inl here ↦
        let eq : id ≡ id' = sym ((==_iff id' id).0 here) in
        ap (get_elem? (set st.section_index id (i + 1))) (sym eq)
        ∙ get_elem?-set st.section_index id i (i + 1) at'
        ∙ ap (λ k. some (k + 1)) same
        ∙ ap some (sym (store_same given id id' (given id + 1) here))
    | inr there ↦
        get_elem?-set_other st.section_index id id' (i + 1) (λ eq. absurd (ground arith))
        ∙ i_at
        ∙ ap some (sym (store_other given id id' (given id + 1) there))
  ],
)

next-Agrees :
    (n id : ℕ) (ledger : Ledger) (st : Taint)
    → id < n
    → IsLedger n ledger st
    → Agrees (IsLedger n) (taint_step (next id) st) (ledger_step (next id) ledger)
unfolding taint_step ledger_step
next-Agrees n id ledger st lt kept =
    let (m, l_at, m_at, taints, i_at) = kept id lt in
    let i = ledger.given id in
    let l = sections_of id ledger.all in
    let run = get_taint_section-answer st id i l i_at l_at in
    let shown : Run (Option (ℕ × ℕ) × Taint) → Run (Answer × Taint) =
      λ r. r >>= λ (s, st'). returned (section s, st') in
    elim (Option-cases (get_elem? l i)) [
      | inl end ↦
          answering (section none) st ledger
            (ap shown (run ∙ ap (λ o. returned (answer st id i o)) end))
            (ap (λ o. give id o ledger) end) kept
      | inr (s, there) ↦
          answering (section (some s))
            (record st { section_index = set st.section_index id (i + 1) })
            (record ledger { given = store ledger.given id (i + 1) })
            (ap shown (run ∙ ap (λ o. returned (answer st id i o)) there))
            (ap (λ o. give id o ledger) there)
            (λ id' less. IsKept-given id id' i ledger.all ledger.given st refl i_at (kept id' less))
    ]

-- The look-up of a taint may add an empty one.
find_or_add-text_of :
    (m : Assignments) (a a' : ℕ)
    → ((find_or_add m a).0 ≡ text_of (m a)) × (text_of ((find_or_add m a).1 a') ≡ text_of (m a'))
find_or_add-text_of m a a' = elim (Option-cases (m a)) [
  | inr (str, there) ↦ (rw (there, find_or_add) refl, rw (there, find_or_add) refl)
  | inl nothing ↦ (
    rw (nothing, find_or_add) refl,
    rw (nothing, find_or_add)
        (elim (Bool-cases (a' == a)) [
          | inl here ↦
              ap text_of (store_same m a a' (some []) here)
              ∙ ap text_of (sym nothing ∙ ap m (sym ((==_iff a' a).0 here)))
          | inr there ↦ ap text_of (store_other m a a' (some []) there)
        ]),
  )
]

IsKept-found :
    (id id' a : ℕ) (m : Assignments) (all : List Entry) (given : ℕ → ℕ) (st : Taint)
    → get_elem? st.assignments id ≡ some m
    → IsKept id all given st
    → IsKept id' all given st
    → IsKept id' all given (record st { assignments = set st.assignments id (find_or_add m a).1 })
IsKept-found id id' a m all given st at' (n, n_l, n_at, n_taints, n_i)
      (m', l_at, m_at, taints, i_at) =
    elim (Bool-cases (id' == id)) [
      | inl here ↦
          let eq : id ≡ id' = sym ((==_iff id' id).0 here) in
          let same : m ≡ m' = some_injective (sym at' ∙ ap (get_elem? st.assignments) eq ∙ m_at) in
          (
            (find_or_add m a).1,
            l_at,
            ap (get_elem? (set st.assignments id (find_or_add m a).1)) (sym eq)
                ∙ get_elem?-set st.assignments id m (find_or_add m a).1 at',
            λ b.
                (find_or_add-text_of m a b).1
                ∙ ap (λ (f : Assignments). text_of (f b)) same
                ∙ taints b,
            i_at,
          )
      | inr there ↦ (
        m',
        l_at,
        get_elem?-set_other st.assignments id id' (find_or_add m a).1 (λ eq. absurd (ground arith))
            ∙ m_at,
        taints,
        i_at,
      )
    ]

fetch-Agrees :
    (n id a : ℕ) (buf : Mem) (ledger : Ledger) (st : Taint)
    → id < n
    → IsLedger n ledger st
    → Agrees (IsLedger n) (taint_step (fetch id a buf) st) (ledger_step (fetch id a buf) ledger)
unfolding taint_step ledger_step read_taint_section
fetch-Agrees n id a buf ledger st lt kept =
    let (m, l_at, m_at, taints, i_at) = kept id lt in
    let str = text_of (last_taint id a ledger.all none) in
    let found : (find_or_add m a).0 ≡ str = (find_or_add-text_of m a a).0 ∙ taints a in
    let st' : Taint = record st { assignments = set st.assignments id (find_or_add m a).1 } in
    let wrote = write_bytes-decode str 0 buf in
    elim (Option-cases (decode str)) [
      | inl bad ↦
          exiting 0 (rw (at-some st.assignments id m m_at, found, wrote, bad) refl)
            (ap (λ o. show_bytes buf o ledger) bad)
      | inr (bs, good) ↦
          answering (buffer (overlay bs buf)) st' ledger
            (rw (at-some st.assignments id m m_at, found, wrote, good, copy_out-all bs buf) refl)
            (ap (λ o. show_bytes buf o ledger) good)
            (λ id' less.
              IsKept-found id id' a m ledger.all ledger.given st m_at (kept id lt) (kept id' less))
    ]

step-Agrees :
    (n : ℕ) (call : Call) (ledger : Ledger) (st : Taint)
    → IsCallable n call
    → IsLedger n ledger st
    → Agrees (IsLedger n) (taint_step call st) (ledger_step call ledger)
step-Agrees n (read es) ledger st callable kept = read-Agrees n es ledger st callable kept
step-Agrees n (next id) ledger st callable kept = next-Agrees n id ledger st callable kept
step-Agrees n (fetch id a buf) ledger st callable kept =
    fetch-Agrees n id a buf ledger st callable kept

init_taint_vectors-IsLedger :
    (n : ℕ) (st : Taint) → init_taint_vectors n untainted ≡ returned st → IsLedger n empty_ledger st
unfolding sections_of last_taint
init_taint_vectors-IsLedger n st run id lt =
    let (l_at, (m, m_at, taints)) = init_taint_vectors-Holds n id st lt run in
    (m, l_at, m_at, λ a. ap text_of (taints a), init_taint_vectors-section_index n id st lt run)

-- Any sequence of calls behind `init_taint_vectors`, for a number of taints that a vector can
-- have: of `read_taints` on files of entries, which have a decimal id below that number, an
-- address in hexadecimal digits behind `0x`, a decimal length, both below 2^64, and a taint
-- without blanks, of `get_taint_section` and of `read_taint_section` for ids below that number, in
-- any order, gets from the program the answers that the entries read so far and the number of
-- sections already given to each id determine: `get_taint_section` gives the next section of the
-- id in the order of the entries, `read_taint_section` the bytes that the last taint of the id at
-- the address spells, none when there is no taint; and the program ends with the code 0 at the
-- same call, when a taint does not spell bytes.
pub answers-taint_step :
    (n : ℕ) (calls : List Call)
    → n ≤ max_taints
    → All (IsCallable n) calls
    → (init_taint_vectors n untainted >>= λ st. answers taint_step calls st)
      ≡ answers ledger_step calls empty_ledger
answers-taint_step n calls le callable =
    let (st, run, h, len) = init_taint_vectors-IsConsistent n untainted le tt in
    ap (λ r. r >>= λ st'. answers taint_step calls st') run
    ∙ answers-Agrees taint_step ledger_step (IsLedger n) (IsCallable n)
        (λ call ledger st' callable' kept. step-Agrees n call ledger st' callable' kept) calls
        empty_ledger st callable (init_taint_vectors-IsLedger n st run)
