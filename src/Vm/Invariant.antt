-- ===== src/Vm/Invariant.antt =====
-- The invariant of the memory manager, and the free list that `vm_boot` builds.
use native.Mathlib.Decide.{dec_lt}
use cellift_meta.Base.{
  ℕ, zero, suc, ◌+◌, ◌*◌, ◌/◌, ◌%◌, ◌<◌, ◌≤◌, ◌≡◌, ◌≢◌, refl, sym, ap, ◌∙◌, arith, if◌then◌else◌,
  ltb, Option, none, some, store, lt→ltb, le→ltb,
}
use cellift_meta.Vm.{
  Ptr, null, free_node, Node, Vm, lfsr_next, boot_list, vm_boot, max_test_pages, pgsize, dram_base,
}
use cellift_meta.Vm.Lfsr.{shifts, IsState, shifts_distinct}
use cellift_meta.Vm.Entry.{Stage, fresh, entry}

-- The start of the shift register.
abbrev pub seed : ℕ → ℕ
seed entropy = 1 + entropy % max_test_pages

-- The physical address of the frame number `i` of the free list.
unfoldable pub frame_addr : ℕ → ℕ → ℕ
frame_addr entropy i = dram_base + (max_test_pages + shifts i (seed entropy)) * pgsize

-- The free list from its node number `i` on.
abbrev pub free_ptr : ℕ → Ptr
free_ptr i = if ltb i max_test_pages then free_node i else null

module _ {Page : Type 0} where
  -- `count` frames are in use, each by one page: `owner` says which frame a page has, and `stage`
  -- how far its entry has come.
  pub record IsValid (entropy : ℕ) (v : Vm Page) (count : ℕ) (owner : ℕ → Option ℕ)
      (stage : ℕ → Stage) : Type 0 where
    pub head : v.freelist_head ≡ free_ptr count
    pub addrs : (i : ℕ) → i < max_test_pages → (v.freelist_nodes i).addr ≡ frame_addr entropy i
    pub nexts : (i : ℕ) → i < max_test_pages → (v.freelist_nodes i).next ≡ free_ptr (i + 1)
    pub unmapped :
        (page : ℕ) → owner page ≡ none → (v.user_llpt page ≡ 0) × ((v.user_mapping page).addr ≡ 0)
    pub mapped :
        (page i : ℕ)
        → owner page ≡ some i
        → (i < count) × (v.user_llpt page ≡ entry (frame_addr entropy i) (stage page))
    pub once : (page other i : ℕ) → owner page ≡ some i → owner other ≡ some i → page ≡ other
    pub bound : count ≤ max_test_pages

seed-IsState : (entropy : ℕ) → IsState (seed entropy)
seed-IsState entropy = omega arith

-- Different places of the free list have different frames.
pub frame_addr_distinct :
    (entropy i j : ℕ)
    → i < max_test_pages
    → j < max_test_pages
    → frame_addr entropy i / pgsize ≡ frame_addr entropy j / pgsize
    → i ≡ j
unfolding frame_addr
frame_addr_distinct entropy i j hi hj e = elim (dec_lt i j) [
  | yes lt ↦ absurd (shifts_distinct (seed entropy) i j (seed-IsState entropy) lt hj (omega arith))
  | no ge ↦ elim (dec_lt j i) [
    | yes gt ↦
        absurd (shifts_distinct (seed entropy) j i (seed-IsState entropy) gt hi (omega arith))
    | no le ↦ omega arith
  ]
]

boot_list-before :
    (rounds i random j : ℕ) (nodes : ℕ → Node) → j < i → boot_list rounds i random nodes j ≡ nodes j
unfolding boot_list
boot_list-before zero i random j nodes h = refl
boot_list-before (suc rounds) i random j nodes h =
    boot_list-before rounds (i + 1) (lfsr_next random) j _ (omega arith) ∙ ground arith

boot_list-at :
    (rounds i random d j : ℕ) (nodes : ℕ → Node)
    → j ≡ i + d
    → d < rounds
    → boot_list rounds i random nodes j ≡ record {
      addr = dram_base + (max_test_pages + shifts d random) * pgsize;
      next = free_node (j + 1);
    }
unfolding boot_list shifts
boot_list-at zero i random d j nodes e h = absurd (omega arith)
boot_list-at (suc rounds) i random zero j nodes e h =
    boot_list-before rounds (i + 1) (lfsr_next random) j _ (omega arith) ∙ ground arith
boot_list-at (suc rounds) i random (suc d) j nodes e h =
    boot_list-at rounds (i + 1) (lfsr_next random) d j _ (omega arith) (omega arith)

boot_addr :
    (nodes : ℕ → Node) (rounds random i : ℕ)
    → i < rounds
    → (boot_list rounds 0 random nodes i).addr
      ≡ dram_base + (max_test_pages + shifts i random) * pgsize
boot_addr nodes rounds random i h =
    ap (λ (n : Node). n.addr) (boot_list-at rounds 0 random i i nodes (omega arith) h)

boot_next :
    (nodes : ℕ → Node) (rounds random i : ℕ)
    → i < rounds
    → (boot_list rounds 0 random nodes i).next ≡ free_node (i + 1)
boot_next nodes rounds random i h =
    ap (λ (n : Node). n.next) (boot_list-at rounds 0 random i i nodes (omega arith) h)

close-addr :
    (nodes : ℕ → Node) (last i : ℕ)
    → (store nodes last (record (nodes last) { next = null }) i).addr ≡ (nodes i).addr
close-addr nodes last i = ground arith

close-next-last :
    (nodes : ℕ → Node) (last : ℕ)
    → (store nodes last (record (nodes last) { next = null }) last).next ≡ null
close-next-last nodes last = ground arith

close-next :
    (nodes : ℕ → Node) (last i : ℕ)
    → i ≢ last
    → (store nodes last (record (nodes last) { next = null }) i).next ≡ (nodes i).next
close-next nodes last i h = ground arith

pub free_ptr_before : (i : ℕ) → i < max_test_pages → free_ptr i ≡ free_node i
free_ptr_before i h = ground (arith, lt→ltb i max_test_pages h)

free_ptr_end : (i : ℕ) → i ≡ max_test_pages → free_ptr i ≡ null
free_ptr_end i h = ground (arith, le→ltb i max_test_pages (omega arith))

pub option_absurd : {A : Type 0} {a : A} → none ≢ some a
option_absurd e = cc

-- `vm_boot` leaves the 63 frames of the free list in the order of the shift register, no page
-- mapped, and the list ending behind its last node.
pub vm_boot-IsValid :
    {Page : Type 0} (entropy : ℕ) (frame image : ℕ → Page)
    → IsValid entropy (vm_boot entropy frame image) 0 (λ _. none) (λ _. fresh)
unfolding vm_boot frame_addr
vm_boot-IsValid entropy frame image =
    let cleared : ℕ → Node = λ _. record { addr = 0; next = null } in
    let nodes = boot_list 63 0 (seed entropy) cleared in
    record {
      head = refl;
      addrs = λ i h. close-addr nodes 62 i ∙ boot_addr cleared 63 (seed entropy) i h;
      nexts = λ i h. elim (dec_lt i 62) [
        | yes lt ↦
            close-next nodes 62 i (omega arith)
            ∙ boot_next cleared 63 (seed entropy) i h
            ∙ sym (free_ptr_before (i + 1) (omega arith))
        | no ge ↦
            ap (λ (j : ℕ). (store nodes 62 (record (nodes 62) { next = null }) j).next) {x = i}
              {y = 62} (omega arith)
            ∙ close-next-last nodes 62
            ∙ sym (free_ptr_end (i + 1) (omega arith))
      ];
      unmapped = λ page e. (refl, refl);
      mapped = λ page i e. absurd (option_absurd e);
      once = λ page other i e f. absurd (option_absurd e);
      bound = omega arith;
    }
