-- ===== src/Vm/Fault.antt =====
-- `handle_fault` of benchmarks/env/v/vm.c: what a page fault does to the page table, the frames and
-- the free list.
use cellift_meta.Base.{
  ℕ, ◌+◌, ◌*◌, ◌/◌, ◌^◌, ◌<◌, ◌≤◌, ◌≡◌, ◌≢◌, refl, sym, ap, ◌∙◌, false, arith, ◌==◌, if◌then◌else◌,
  Option, none, some, store, lt→ltb, ==_self, store-cases, inl, inr, ==_iff, ==_false, Bool-cases,
  Option-cases, le→leb, bit_or,
}
use cellift_meta.Vm.{
  Ptr, null, free_node, Node, Vm, running, node_at, copy_in, pop_free, map_page, touch,
  handle_fault, new_pte, pte_a, pte_d, frame_of, max_test_pages, pgsize, ptr_eq,
}
use cellift_meta.Vm.Entry.{
  Stage, fresh, accessed, dirty, entry, new_pte-entry, frame_of-entry, entry-ne-zero, bit_or-entry,
}
use cellift_meta.Vm.Invariant.{
  IsValid, option_absurd, frame_addr, frame_addr_distinct, free_ptr_before,
}

-- The entry of a page while its frame is filled.
filling : (addr : ℕ) → bit_or (bit_or (new_pte addr) pte_a) pte_d ≡ entry addr dirty
filling addr =
    rw (new_pte-entry addr, bit_or-entry addr pte_a fresh accessed (omega arith) refl)
      (bit_or-entry addr pte_d accessed dirty (omega arith) refl)

pub some_injective : {A : Type 0} {a b : A} → some a ≡ some b → a ≡ b
some_injective e = cc

module _ {Page : Type 0} where
  -- What the user finds in a page, if it is mapped.
  unfoldable pub contents : Vm Page → ℕ → Option Page
  contents v page =
      if v.user_llpt page == 0 then none else some (v.frame (frame_of (v.user_llpt page)))

  -- The state after a page got the first node of the free list.
  unfoldable mapped_vm : Vm Page → ℕ → Node → Vm Page
  mapped_vm v page node = record v {
    user_llpt = store (store v.user_llpt page (entry node.addr dirty)) page (entry node.addr fresh);
    user_mapping = store v.user_mapping page node;
    freelist_head = node.next;
    freelist_tail = if ptr_eq node.next v.freelist_tail then null else v.freelist_tail;
    frame = store v.frame (node.addr / 2 ^ 12) (v.image page);
  }

  map_page-mapped_vm :
      (v : Vm Page) (page : ℕ)
      → ptr_eq v.freelist_head null ≡ false
      → (v.user_mapping page).addr ≡ 0
      → map_page v page ≡ running (mapped_vm v page (node_at v v.freelist_head))
  unfolding map_page mapped_vm pop_free copy_in
  map_page-mapped_vm v page h e =
      let node : Node = node_at v v.freelist_head in
      rw
        (
          h,
          e,
          filling node.addr,
          new_pte-entry node.addr,
          ==_self page,
          frame_of-entry node.addr dirty,
        )
        refl

  mapped_vm-IsValid :
      (entropy : ℕ) (v : Vm Page) (count : ℕ) (owner : ℕ → Option ℕ) (stage : ℕ → Stage) (page : ℕ)
      → IsValid entropy v count owner stage
      → owner page ≡ none
      → count < max_test_pages
      → IsValid entropy
          (mapped_vm v page (v.freelist_nodes count))
          (count + 1)
          (store owner page (some count))
          (store stage page fresh)
  unfolding mapped_vm
  mapped_vm-IsValid entropy v count owner stage page valid none_yet h = record {
    head = valid.nexts count h;
    addrs = valid.addrs;
    nexts = valid.nexts;
    unmapped = λ p e. elim (store-cases owner page p (some count) none e) [
      | inl same ↦ absurd (option_absurd (sym same.1))
      | inr other ↦ let old = valid.unmapped p other.1 in rw (other.0) old
    ];
    mapped = λ p i e. elim (store-cases owner page p (some count) (some i) e) [
      | inl same ↦
          let eq : count ≡ i = some_injective same.1 in
          (
            omega arith,
            rw (same.0, valid.addrs count h)
                (ap (λ (j : ℕ). entry (frame_addr entropy j) fresh) eq),
          )
      | inr other ↦ let old = valid.mapped p i other.1 in (omega arith, rw (other.0) old.1)
    ];
    once = λ p q i e f. elim (store-cases owner page p (some count) (some i) e) [
      | inl same ↦ elim (store-cases owner page q (some count) (some i) f) [
        | inl same2 ↦ omega (arith, (==_iff p page).0 same.0, (==_iff q page).0 same2.0)
        | inr other ↦ absurd (omega (arith, some_injective same.1, (valid.mapped q i other.1).0))
      ]
      | inr one ↦ elim (store-cases owner page q (some count) (some i) f) [
        | inl same ↦ absurd (omega (arith, some_injective same.1, (valid.mapped p i one.1).0))
        | inr two ↦ valid.once p q i one.1 two.1
      ]
    ];
    bound = omega arith;
  }

  -- In range and without an entry, a fault is `map_page`; with one, it is `touch`.
  handle_fault-map_page :
      (v : Vm Page) (addr cause : ℕ)
      → pgsize ≤ addr
      → addr < max_test_pages * pgsize
      → v.user_llpt (addr / pgsize) ≡ 0
      → handle_fault v addr cause ≡ map_page v (addr / pgsize)
  unfolding handle_fault
  handle_fault-map_page v addr cause low high e =
      rw (le→leb addr pgsize low, lt→ltb addr (max_test_pages * pgsize) high, e) refl

  pub handle_fault-touch :
      (v : Vm Page) (addr cause : ℕ)
      → pgsize ≤ addr
      → addr < max_test_pages * pgsize
      → v.user_llpt (addr / pgsize) ≢ 0
      → handle_fault v addr cause ≡ touch v (addr / pgsize) cause
  unfolding handle_fault
  handle_fault-touch v addr cause low high ne =
      rw
        (
          le→leb addr pgsize low,
          lt→ltb addr (max_test_pages * pgsize) high,
          ==_false (v.user_llpt (addr / pgsize)) 0 ne,
        )
        refl

  node_at-head :
      (entropy : ℕ) (v : Vm Page) (count : ℕ) (owner : ℕ → Option ℕ) (stage : ℕ → Stage)
      → IsValid entropy v count owner stage
      → count < max_test_pages
      → v.freelist_head ≡ free_node count
  node_at-head entropy v count owner stage valid h = valid.head ∙ free_ptr_before count h

  map_page-running :
      (v : Vm Page) (page count : ℕ)
      → v.freelist_head ≡ free_node count
      → (v.user_mapping page).addr ≡ 0
      → map_page v page ≡ running (mapped_vm v page (v.freelist_nodes count))
  unfolding node_at
  map_page-running v page count head unmapped =
      map_page-mapped_vm v page (ap (λ (p : Ptr). ptr_eq p null) head) unmapped
      ∙ ap (λ (p : Ptr). running (mapped_vm v page (node_at v p))) head

  mapped_vm-contents :
      (entropy : ℕ) (v : Vm Page) (count : ℕ) (owner : ℕ → Option ℕ) (stage : ℕ → Stage)
      (page q : ℕ)
      → IsValid entropy v count owner stage
      → owner page ≡ none
      → count < max_test_pages
      → contents (mapped_vm v page (v.freelist_nodes count)) q
        ≡ store (contents v) page (some (v.image page)) q
  unfolding contents mapped_vm
  mapped_vm-contents entropy v count owner stage page q valid e h = elim (Bool-cases (q == page)) [
    | inl same ↦
        let addr : ℕ = (v.freelist_nodes count).addr in
        rw
          (
            same,
            ==_false (entry addr fresh) 0 (entry-ne-zero addr fresh),
            frame_of-entry addr fresh,
            ==_self (addr / 2 ^ 12),
          )
          refl
    | inr other ↦ elim (Option-cases (owner q)) [
      | inl free ↦ rw (other, (valid.unmapped q free).0) refl
      | inr (i, f) ↦
          let addr : ℕ = (v.freelist_nodes count).addr in
          let at = valid.mapped q i f in
          let used : ℕ = frame_addr entropy i in
          let apart : used / pgsize ≢ addr / pgsize = λ eq.
            (omega (
              arith,
              at.0,
              frame_addr_distinct entropy i count (omega (arith, at.0)) h
                  (eq ∙ ap (λ (a : ℕ). a / pgsize) (valid.addrs count h)),
            )) in
          rw
            (
              other,
              at.1,
              ==_false (entry used (stage q)) 0 (entry-ne-zero used (stage q)),
              frame_of-entry used (stage q),
              ==_false (used / 2 ^ 12) (addr / 2 ^ 12) apart,
            )
            refl
    ]
  ]

  -- A fault on a page in range that has no frame runs through while a frame is free. The page gets
  -- the next free frame with a fresh entry, the invariant holds of the state after, and what the
  -- user's pages hold is what they held before, with the image of the page in its place.
  pub handle_fault-contents :
      (entropy : ℕ) (v : Vm Page) (count : ℕ) (owner : ℕ → Option ℕ) (stage : ℕ → Stage)
      (addr cause : ℕ)
      → IsValid entropy v count owner stage
      → count < max_test_pages
      → pgsize ≤ addr
      → addr < max_test_pages * pgsize
      → owner (addr / pgsize) ≡ none
      → (v' : Vm Page) × (handle_fault v addr cause ≡ running v')
        × IsValid entropy v'
            (count + 1)
            (store owner (addr / pgsize) (some count))
            (store stage (addr / pgsize) fresh)
        × ((page : ℕ)
            → contents v' page
              ≡ store (contents v) (addr / pgsize) (some (v.image (addr / pgsize))) page)
  handle_fault-contents entropy v count owner stage addr cause valid h low high e =
      let page : ℕ = addr / pgsize in
      let node : Node = v.freelist_nodes count in
      (
        mapped_vm v page node,
        handle_fault-map_page v addr cause low high (valid.unmapped page e).0
            ∙ map_page-running v page count (node_at-head entropy v count owner stage valid h)
                (valid.unmapped page e).1,
        mapped_vm-IsValid entropy v count owner stage page valid e h,
        λ q. mapped_vm-contents entropy v count owner stage page q valid e h,
      )
