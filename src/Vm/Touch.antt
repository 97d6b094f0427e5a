-- ===== src/Vm/Touch.antt =====
-- `handle_fault` of benchmarks/env/v/vm.c on a page that has an entry, and on addresses outside
-- the user's pages.
use cellift_meta.Base.{
  subst, ℕ, ◌*◌, ◌/◌, ◌<◌, ◌≤◌, ◌≡◌, ◌≢◌, ◌⊎◌, refl, sym, ap, ◌∙◌, inl, inr, arith, ◌==◌,
  if◌then◌else◌, Option, none, some, store, lt→leb, le→ltb, le→leb, ==_false, ==_iff, Bool-cases,
}
use cellift_meta.Vm.{
  Vm, Result, running, terminated, touch, handle_fault, pte_a, pte_d, set_pte, max_test_pages,
  pgsize, cause_store_page_fault,
}
use cellift_meta.Vm.Entry.{
  Stage, fresh, accessed, dirty, entry, frame_of-entry, entry-ne-zero, bit_and-entry, bit_or-entry,
}
use cellift_meta.Vm.Invariant.{IsValid, frame_addr, option_absurd}
use cellift_meta.Vm.Fault.{handle_fault-touch, contents, some_injective}

-- The stage that a fault leads to, if the fault is a legal one.
unfoldable pub next_stage : Stage → ℕ → Option Stage
next_stage fresh cause = some accessed
next_stage accessed cause = if cause == cause_store_page_fault then some dirty else none
next_stage dirty cause = none

module _ {Page : Type 0} where
  -- What a legal fault makes of the entry `pte` of a page, and the end of the program else.
  unfoldable Outcome : Vm Page → ℕ → ℕ → Option Stage → Result Page
  Outcome v page addr (some s) = running (set_pte v page (entry addr s))
  Outcome v page addr none = terminated 3 v

  touch-Outcome :
      (v : Vm Page) (page cause addr : ℕ) (s : Stage)
      → v.user_llpt page ≡ entry addr s
      → touch v page cause ≡ Outcome v page addr (next_stage s cause)
  unfolding touch next_stage Outcome
  touch-Outcome v page cause addr fresh e =
      rw
        (
          e,
          bit_and-entry addr pte_a fresh (omega arith),
          bit_or-entry addr pte_a fresh accessed (omega arith) refl,
        )
        refl
  touch-Outcome v page cause addr accessed e = elim (Bool-cases (cause == cause_store_page_fault)) [
    | inl store ↦
        rw
          (
            e,
            store,
            bit_and-entry addr pte_a accessed (omega arith),
            bit_and-entry addr pte_d accessed (omega arith),
            bit_or-entry addr pte_d accessed dirty (omega arith) refl,
          )
          refl
    | inr other ↦
        rw
          (
            e,
            other,
            bit_and-entry addr pte_a accessed (omega arith),
            bit_and-entry addr pte_d accessed (omega arith),
          )
          refl
  ]
  touch-Outcome v page cause addr dirty e =
      rw
        (
          e,
          bit_and-entry addr pte_a dirty (omega arith),
          bit_and-entry addr pte_d dirty (omega arith),
        )
        refl

  set_pte-IsValid :
      (entropy : ℕ) (v : Vm Page) (count : ℕ) (owner : ℕ → Option ℕ) (stage : ℕ → Stage)
      (page i : ℕ) (s : Stage)
      → IsValid entropy v count owner stage
      → owner page ≡ some i
      → IsValid entropy
          (set_pte v page (entry (frame_addr entropy i) s))
          count
          owner
          (store stage page s)
  set_pte-IsValid entropy v count owner stage page i s valid e = record {
    head = valid.head;
    addrs = valid.addrs;
    nexts = valid.nexts;
    unmapped = λ p f.
        let other = ==_false p page (λ eq. option_absurd (sym f ∙ ap owner eq ∙ e)) in
        rw (other) (valid.unmapped p f);
    mapped = λ p j f. elim (Bool-cases (p == page)) [
      | inl same ↦
          let eq : j ≡ i = some_injective (sym f ∙ ap owner ((==_iff p page).0 same) ∙ e) in
          (
            (valid.mapped p j f).0,
            rw (same) (ap (λ (k : ℕ). entry (frame_addr entropy k) s) (sym eq)),
          )
      | inr other ↦ ((valid.mapped p j f).0, rw (other) (valid.mapped p j f).1)
    ];
    once = valid.once;
    bound = valid.bound;
  }

  set_pte-contents :
      (v : Vm Page) (page addr q : ℕ) (s t : Stage)
      → v.user_llpt page ≡ entry addr s
      → contents (set_pte v page (entry addr t)) q ≡ contents v q
  unfolding contents
  set_pte-contents v page addr q s t e = elim (Bool-cases (q == page)) [
    | inl same ↦
        rw
          (
            same,
            ap v.user_llpt ((==_iff q page).0 same),
            e,
            ==_false (entry addr s) 0 (entry-ne-zero addr s),
            ==_false (entry addr t) 0 (entry-ne-zero addr t),
            frame_of-entry addr s,
            frame_of-entry addr t,
          )
          refl
    | inr other ↦ rw (other) refl
  ]

  -- What a fault of a page at stage `s` leads to: a later stage in a valid state in which the pages
  -- hold what they held, or the end of the program.
  pub Moves :
      ℕ → Vm Page → ℕ → (ℕ → Option ℕ) → (ℕ → Stage) → ℕ → Result Page → Option Stage → Type 0
  Moves entropy v count owner stage page r none = r ≡ terminated 3 v
  Moves entropy v count owner stage page r (some s) =
      (v' : Vm Page) × (r ≡ running v')
      × IsValid entropy v' count owner (store stage page s)
      × ((q : ℕ) → contents v' q ≡ contents v q)

  Outcome-Moves :
      (entropy : ℕ) (v : Vm Page) (count : ℕ) (owner : ℕ → Option ℕ) (stage : ℕ → Stage)
      (page i : ℕ) (s : Option Stage)
      → IsValid entropy v count owner stage
      → owner page ≡ some i
      → Moves entropy v count owner stage page (Outcome v page (frame_addr entropy i) s) s
  unfolding Moves Outcome
  Outcome-Moves entropy v count owner stage page i none valid e = refl
  Outcome-Moves entropy v count owner stage page i (some s) valid e = (
    set_pte v page (entry (frame_addr entropy i) s),
    refl,
    set_pte-IsValid entropy v count owner stage page i s valid e,
    λ q. set_pte-contents v page (frame_addr entropy i) q (stage page) s (valid.mapped page i e).1,
  )

  -- A fault on a mapped page in range: of a fresh entry it sets the accessed bit, whatever its
  -- cause; of an accessed one the dirty bit, when the cause is a store; and any other fault ends the
  -- program with code 3 and the state as it was. Where the program goes on, the invariant holds of the state after, and
  -- the pages hold what they held.
  pub handle_fault-Moves :
      (entropy : ℕ) (v : Vm Page) (count : ℕ) (owner : ℕ → Option ℕ) (stage : ℕ → Stage)
      (addr cause i : ℕ)
      → IsValid entropy v count owner stage
      → pgsize ≤ addr
      → addr < max_test_pages * pgsize
      → owner (addr / pgsize) ≡ some i
      → Moves entropy v count owner stage
          (addr / pgsize)
          (handle_fault v addr cause)
          (next_stage (stage (addr / pgsize)) cause)
  handle_fault-Moves entropy v count owner stage addr cause i valid low high e =
      let page : ℕ = addr / pgsize in
      let at = (valid.mapped page i e).1 in
      let s : Option Stage = next_stage (stage page) cause in
      let nonzero : v.user_llpt page ≢ 0 =
        λ eq. entry-ne-zero (frame_addr entropy i) (stage page) (sym at ∙ eq) in
      subst (λ (r : Result Page). Moves entropy v count owner stage page r s)
        (sym (
          handle_fault-touch v addr cause low high nonzero
          ∙ touch-Outcome v page cause (frame_addr entropy i) (stage page) at))
        (Outcome-Moves entropy v count owner stage page i s valid e)

  -- A fault outside the user's pages ends the program with code 3, whatever the state, which stays as it was.
  pub handle_fault-out_of_range :
      (v : Vm Page) (addr cause : ℕ)
      → (addr < pgsize) ⊎ (max_test_pages * pgsize ≤ addr)
      → handle_fault v addr cause ≡ terminated 3 v
  unfolding handle_fault
  handle_fault-out_of_range v addr cause (inl low) = rw (lt→leb addr pgsize low) refl
  handle_fault-out_of_range v addr cause (inr high) =
      rw (le→leb addr pgsize (omega arith), le→ltb addr (max_test_pages * pgsize) high) refl
