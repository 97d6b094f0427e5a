-- ===== src/Vm.antt =====
-- The user-mode memory manager of benchmarks/env/v/vm.c, for one hart and the Sv39 layout:
-- `vm_boot`'s free list, `handle_fault`, `evict` and `handle_trap`. The state holds the last-level
-- user page table, the two arrays of nodes, the ends of the free list, and the contents of the
-- physical frames and of the kernel's view of the program image, page by page. A failed `assert`
-- ends the program with code 3.
pub mod Lfsr
pub mod Entry
pub mod Invariant
pub mod Fault
pub mod Touch
pub mod Tests
use cellift_meta.Base.{
  ℕ, zero, suc, ◌+◌, ◌-◌, ◌*◌, ◌/◌, ◌%◌, ◌^◌, ◌≡◌, Bool, true, false, not, ◌&&◌, ◌||◌, Option, none,
  some, ltb, leb, ◌==◌, if◌then◌else◌, bit_and, bit_or, bit_xor, store,
}

abbrev pub pgsize : ℕ
pgsize = 2 ^ 12

abbrev pub max_test_pages : ℕ
max_test_pages = 63

abbrev pub dram_base : ℕ
dram_base = 0x8000_0000

abbrev pub pte_a : ℕ
pte_a = 0x40

abbrev pub pte_d : ℕ
pte_d = 0x80

abbrev pub cause_store_page_fault : ℕ
cause_store_page_fault = 0xf

-- `LFSR_NEXT` of env/v/riscv_test.h.
unfoldable pub lfsr_next : ℕ → ℕ
lfsr_next x = bit_or (bit_and (bit_xor x (x / 2)) 1 * 2 ^ 5) (x / 2)

-- A `freelist_t*`: NULL, `&freelist_nodes[i]` or `&user_mapping[i]`.
pub data Ptr : Type 0 where
  null : Ptr
  free_node : ℕ → Ptr
  mapping_node : ℕ → Ptr

abbrev pub ptr_eq : Ptr → Ptr → Bool
ptr_eq null null = true
ptr_eq (free_node i) (free_node j) = i == j
ptr_eq (mapping_node i) (mapping_node j) = i == j
ptr_eq _ _ = false

pub record Node : Type 0 where
  pub addr : ℕ
  pub next : Ptr

-- The frame that an entry of the page table names.
abbrev pub frame_of : ℕ → ℕ
frame_of pte = pte / 2 ^ 10

-- `assert(addr >= PGSIZE && addr < MAX_TEST_PAGES * PGSIZE)`
abbrev pub in_range : ℕ → Bool
in_range addr = leb pgsize addr && ltb addr (max_test_pages * pgsize)

unfoldable pub new_pte : ℕ → ℕ
new_pte addr =
    bit_or (bit_or (bit_or (bit_or (bit_or (addr / 2 ^ 12 * 2 ^ 10) 0x1) 0x10) 0x2) 0x4) 0x8

-- `vm_boot`: the free list that the LFSR shuffles.
unfoldable pub boot_list : ℕ → ℕ → ℕ → (ℕ → Node) → ℕ → Node
unfolding lfsr_next
boot_list zero i random nodes = nodes
boot_list (suc rounds) i random nodes = boot_list rounds (i + 1) (lfsr_next random) (
    store nodes i
      (record { addr = dram_base + (max_test_pages + random) * pgsize; next = free_node (i + 1) }))

-- `Page` is what a page holds.
module _ (Page : Type 0) where
  pub record Vm : Type 0 where
    pub user_llpt : ℕ → ℕ
    pub user_mapping : ℕ → Node
    pub freelist_nodes : ℕ → Node
    pub freelist_head : Ptr
    pub freelist_tail : Ptr
    pub frame : ℕ → Page
    pub image : ℕ → Page

  -- The program goes on, or ends by `terminate`.
  pub data Result : Type 0 where
    running : Vm → Result
    terminated : ℕ → Vm → Result

module _ {Page : Type 0} where
  infixl 5 ◌>>=◌
  abbrev pub ◌>>=◌ : Result Page → (Vm Page → Result Page) → Result Page
  running v >>= f = f v
  terminated code v >>= f = terminated code v

  abbrev pub assert : Bool → Vm Page → Result Page
  assert true v = running v
  assert false v = terminated 3 v

  unfoldable pub node_at : Vm Page → Ptr → Node
  node_at v null = record { addr = 0; next = null }
  node_at v (free_node i) = v.freelist_nodes i
  node_at v (mapping_node i) = v.user_mapping i

  unfoldable pub set_next : Vm Page → Ptr → Ptr → Vm Page
  set_next v null p = v
  set_next v (free_node i) p = record v {
    freelist_nodes = store v.freelist_nodes i (record (v.freelist_nodes i) { next = p });
  }
  set_next v (mapping_node i) p = record v {
    user_mapping = store v.user_mapping i (record (v.user_mapping i) { next = p });
  }

  -- `memcpy` of a page from the image to the user's page.
  unfoldable pub copy_in : Vm Page → ℕ → Vm Page
  copy_in v page = record v { frame = store v.frame (frame_of (v.user_llpt page)) (v.image page) }

  abbrev pub set_pte : Vm Page → ℕ → ℕ → Vm Page
  set_pte v page pte = record v { user_llpt = store v.user_llpt page pte }

  -- The part of `handle_fault` for a page that has an entry.
  unfoldable pub touch : Vm Page → ℕ → ℕ → Result Page
  touch v page cause =
      let pte = v.user_llpt page in
      if bit_and pte pte_a == 0 then running (set_pte v page (bit_or pte pte_a)) else do
        v' ← assert (bit_and pte pte_d == 0 && (cause == cause_store_page_fault)) v
        running (set_pte v' page (bit_or pte pte_d))

  unfoldable pub pop_free : Vm Page → Vm Page
  unfolding node_at
  pop_free v =
      let head = (node_at v v.freelist_head).next in
      record v {
        freelist_head = head;
        freelist_tail = if ptr_eq head v.freelist_tail then null else v.freelist_tail;
      }

  -- The part of `handle_fault` for a page that has none.
  unfoldable pub map_page : Vm Page → ℕ → Result Page
  unfolding pop_free new_pte copy_in
  map_page v page = do
    v1 ← assert (not (ptr_eq v.freelist_head null)) v
    let node = node_at v v.freelist_head
    let v2 = set_pte (pop_free v1) page (bit_or (bit_or (new_pte node.addr) pte_a) pte_d)
    v3 ← assert ((v2.user_mapping page).addr == 0) v2
    let v4 = copy_in (record v3 { user_mapping = store v3.user_mapping page node }) page
    running (set_pte v4 page (new_pte node.addr))

  unfoldable pub handle_fault : Vm Page → ℕ → ℕ → Result Page
  unfolding touch map_page
  handle_fault v addr cause = do
    v' ← assert (in_range addr) v
    let page = addr / pgsize
    if not (v'.user_llpt page == 0) then touch v' page cause else map_page v' page

  -- The end of the free list takes the node of an evicted page.
  unfoldable pub push_free : Vm Page → Ptr → Vm Page
  unfolding set_next
  push_free v node =
      if ptr_eq v.freelist_tail null
      then record v { freelist_head = node; freelist_tail = node }
      else record (set_next v v.freelist_tail node) { freelist_tail = node }

  -- `same` is the test of `memcmp`.
  module _ (same : Page → Page → Bool) where
    unfoldable pub write_back : Vm Page → ℕ → Result Page
    unfolding copy_in
    write_back v page =
        if same (v.frame (frame_of (v.user_llpt page))) (v.image page) then running v else do
          v' ← assert (not (bit_and (v.user_llpt page) pte_d == 0)) v
          running (copy_in v' page)

    unfoldable pub release : Vm Page → ℕ → Vm Page
    unfolding push_free
    release v page =
        push_free
          (record v {
            user_mapping = store v.user_mapping page (record (v.user_mapping page) { addr = 0 });
          })
          (mapping_node page)

    unfoldable pub evict : Vm Page → ℕ → Result Page
    unfolding write_back release
    evict v addr = do
      v0 ← assert (in_range addr) v
      let page = addr / pgsize
      if (v0.user_mapping page).addr == 0 then running v0 else do
        v1 ← assert (not (bit_and (v0.user_llpt page) pte_a == 0)) v0
        v2 ← write_back v1 page
        running (release v2 page)

    -- `for (long i = 1; i < MAX_TEST_PAGES; i++) evict(i*PGSIZE);`
    unfoldable pub evict_all : ℕ → ℕ → Vm Page → Result Page
    unfolding evict
    evict_all zero i v = running v
    evict_all (suc rounds) i v = do v' ← evict v (i * pgsize); evict_all rounds (i + 1) v'

  unfoldable pub vm_boot : ℕ → (ℕ → Page) → (ℕ → Page) → Vm Page
  vm_boot entropy frame image =
      let cleared : ℕ → Node = λ _. record { addr = 0; next = null } in
      let nodes = boot_list max_test_pages 0 (1 + entropy % max_test_pages) cleared in
      record {
        user_llpt = λ _. 0;
        user_mapping = cleared;
        freelist_nodes =
            store nodes (max_test_pages - 1) (record (nodes (max_test_pages - 1)) { next = null });
        freelist_head = free_node 0;
        freelist_tail = free_node (max_test_pages - 1);
        frame = frame;
        image = image;
      }

-- What `handle_trap` reads of the trap frame; `fssr` says whether the word at `epc` is the `fssr`
-- instruction.
pub record Trap : Type 0 where
  pub cause : ℕ
  pub a0 : ℕ
  pub epc : ℕ
  pub badvaddr : ℕ
  pub fssr : Bool

module _ {Page : Type 0} (same : Page → Page → Bool) where
  unfoldable pub handle_trap : Vm Page → Trap → Result Page
  unfolding evict_all handle_fault
  handle_trap v tf =
      if tf.cause == 0x8
      then (do v' ← evict_all same (max_test_pages - 1) 1 v; terminated tf.a0 v')
      else if tf.cause == 0x2
      then (do
        v' ← assert (tf.epc % 4 == 0) v
        if tf.fssr then terminated 1 v' else assert false v')
      else if (tf.cause == 0xc || tf.cause == 0xd) || tf.cause == cause_store_page_fault
      then handle_fault v tf.badvaddr tf.cause
      else assert false v
