-- ===== src/Towers.antt =====
-- towers/towers_main.c: the Towers of Hanoi on lists whose nodes come from a pool. A pointer to a
-- node is its place in the pool, or `none` for NULL; `none` as a result is a read through NULL, an
-- access outside the pool, a shift out of `int` or, for `towers_solve_h`, a recursion without end.
-- Counters are numbers that do not overflow.
pub mod Pool
pub mod Linked
pub mod Stacks
pub mod Solve
pub mod Setup
pub mod Game
pub mod Tests
use cellift_meta.Base.{
  ℕ, zero, suc, ◌+◌, ◌-◌, ◌^◌, Option, none, some, Bool, true, false, not, ◌==◌, if◌then◌else◌,
  store, ltb, leb, ◌&&◌,
}

pub data Peg : Type 0 where
  peg_a peg_b peg_c : Peg

abbrev pub peg_eq : Peg → Peg → Bool
peg_eq peg_a peg_a = true
peg_eq peg_b peg_b = true
peg_eq peg_c peg_c = true
peg_eq _ _ = false

abbrev pub put {ℓ} : {A : Type ℓ} → (Peg → A) → Peg → A → Peg → A
put f p a q = if peg_eq q p then a else f q

-- The nodes of the pool, the head of the free list, and the heads and sizes of the pegs' lists.
pub record Heap : Type 0 where
  pub next : ℕ → Option ℕ
  pub val : ℕ → ℕ
  pub free : Option ℕ
  pub head : Peg → Option ℕ
  pub size : Peg → ℕ

-- `list_push` when the free list starts with `node`.
abbrev push_node : Heap → Peg → ℕ → ℕ → Heap
push_node h list v node = record {
  free = h.next node;
  next = store h.next node (h.head list);
  head = put h.head list (some node);
  val = store h.val node v;
  size = put h.size list (h.size list + 1);
}

unfoldable pub list_push : Heap → Peg → ℕ → Option Heap
list_push h list v = elim h.free [ none ↦ none | some node ↦ some (push_node h list v node) ]

-- `list_pop` when the list starts with `node`.
abbrev pop_node : Heap → Peg → ℕ → Heap
pop_node h list node = record h {
  head = put h.head list (h.next node);
  next = store h.next node h.free;
  free = some node;
  size = put h.size list (h.size list - 1);
}

unfoldable pub list_pop : Heap → Peg → Option (ℕ × Heap)
list_pop h list = elim (h.head list) [
  | none ↦ none
  | some node ↦ some (h.val node, pop_node h list node)
]

pub record Towers : Type 0 where
  pub num_discs : ℕ
  pub heap : Heap
  pub num_moves : ℕ

-- `val = list_pop(startPeg); list_push(destPeg,val); this->numMoves++;`
unfoldable pub move : Towers → Peg → Peg → Option Towers
unfolding list_pop list_push
move t start dest = elim (list_pop t.heap start) [
  | none ↦ none
  | some (v, h) ↦ elim (list_push h dest v) [
    | none ↦ none
    | some h' ↦ some (record t { heap = h'; num_moves = t.num_moves + 1 })
  ]
]

unfoldable pub and_then : Option Towers → (Towers → Option Towers) → Option Towers
and_then none f = none
and_then (some t) f = f t

-- The call with 1 in the middle is a `move`.
unfoldable pub towers_solve_h : ℕ → Towers → Peg → Peg → Peg → Option Towers
unfolding move and_then
towers_solve_h zero t start temp dest = none
towers_solve_h (suc zero) t start temp dest = move t start dest
towers_solve_h (suc (suc n)) t start temp dest =
    and_then (towers_solve_h (suc n) t start dest temp)
      (λ t1. and_then (move t1 start dest) (λ t2. towers_solve_h (suc n) t2 temp start dest))

unfoldable pub towers_solve : Towers → Option Towers
unfolding towers_solve_h
towers_solve t = towers_solve_h t.num_discs t peg_a peg_b peg_c

unfoldable pub list_init : Heap → Peg → Heap
list_init h list = record h { head = put h.head list none; size = put h.size list 0 }

unfoldable pub heap_then {ℓ} : {A : Type ℓ} → Option Heap → (Heap → Option A) → Option A
heap_then none f = none
heap_then (some h) f = f h

-- `for ( i = 0; i < n; i++ ) list_push( &(this->pegA), n-i );`
unfoldable pub push_discs : ℕ → ℕ → ℕ → Heap → Option Heap
unfolding heap_then list_push
push_discs zero n i h = some h
push_discs (suc rounds) n i h = heap_then (list_push h peg_a (n - i)) (push_discs rounds n (i + 1))

unfoldable pub towers_init : Heap → ℕ → Option Towers
unfolding heap_then push_discs list_init
towers_init h n =
    heap_then (push_discs n n 0 (list_init (list_init (list_init h peg_a) peg_b) peg_c))
      (λ h'. some (record { num_discs = n; heap = h'; num_moves = 0 }))

-- The value that a pop returns is dropped.
abbrev popped : Option (ℕ × Heap) → Option Heap
popped none = none
popped (some (v, h)) = some h

unfoldable pub list_clear : ℕ → Heap → Peg → Option Heap
unfolding heap_then list_pop
list_clear zero h list = none
list_clear (suc fuel) h list =
    if ltb 0 (h.size list)
    then heap_then (popped (list_pop h list)) (λ h'. list_clear fuel h' list)
    else some h

-- `list_clear` runs as often as the list is long.
unfoldable pub clear_list : Heap → Peg → Option Heap
unfolding list_clear
clear_list h list = list_clear (suc (h.size list)) h list

unfoldable pub towers_clear : Towers → Option Towers
unfolding clear_list towers_init heap_then
towers_clear t = heap_then (clear_list t.heap peg_a) (λ h1.
    heap_then (clear_list h1 peg_b)
      (λ h2. heap_then (clear_list h2 peg_c) (λ h3. towers_init h3 t.num_discs)))

-- `(1 << numDiscs) - 1` in `int`: a larger shift is undefined.
unfoldable pub least_moves : ℕ → Option ℕ
least_moves n = if ltb n 31 then some (2 ^ n - 1) else none

abbrev pub check_moves : ℕ → Option ℕ → Option ℕ
check_moves moves none = none
check_moves moves (some least) = some (if not (moves == least) then 6 else 0)

-- The loop over the nodes of `pegC`, and the test behind it.
unfoldable pub verify_nodes : ℕ → Towers → Option ℕ → ℕ → Option ℕ
unfolding least_moves
verify_nodes zero t ptr count = none
verify_nodes (suc fuel) t none count = check_moves t.num_moves (least_moves t.num_discs)
verify_nodes (suc fuel) t (some node) count =
    if not (t.heap.val node == count + 1)
    then some 5
    else verify_nodes fuel t (t.heap.next node) (count + 1)

unfoldable pub towers_verify : Towers → Option ℕ
unfolding verify_nodes
towers_verify t =
    if not (t.heap.size peg_a == 0)
    then some 2
    else if not (t.heap.size peg_b == 0)
    then some 3
    else if not (t.heap.size peg_c == t.num_discs)
    then some 4
    else verify_nodes (suc t.num_discs) t (t.heap.head peg_c) 0

-- `NUM_DISCS_MAX`, the number of nodes of the pool.
abbrev pub num_discs_max : ℕ
num_discs_max = 7

-- `main`: the loop that links the pool, and the pool with its first `n` nodes linked, for at most the
-- seven that it has.
unfoldable pub pool_loop : ℕ → ℕ → Heap → Heap
pool_loop zero i h = h
pool_loop (suc rounds) i h =
    pool_loop rounds (i + 1)
      (record h { next = store h.next i (some (i + 1)); val = store h.val i i })

unfoldable pub pool : ℕ → Heap → Heap
unfolding pool_loop
pool n h =
    pool_loop (n - 1) 0
      (record h { free = some 0; next = store h.next (n - 1) none; val = store h.val (n - 1) 99 })

-- Behind the pool.
unfoldable pub towers_run : ℕ → Heap → Option ℕ
unfolding towers_init towers_clear towers_solve towers_verify and_then
towers_run n h = elim (and_then (and_then (towers_init h n) towers_clear) towers_solve) [
  | none ↦ none
  | some t ↦ towers_verify t
]

-- The first access is to `g_nodePool[num_discs-1]`, which the pool has for 1 to 7 discs.
unfoldable pub towers_main : ℕ → Heap → Option ℕ
unfolding pool towers_run
towers_main n h = if ltb 0 n && leb n num_discs_max then towers_run n (pool n h) else none
