-- ===== src/Elf/Queue.antt =====
-- `get_section` and `read_section`: how the simulation takes the loaded sections. `section_index` and
-- the counter of the copy are `int`: fewer than 2^31 sections, and data below 2^31 bytes.
pub mod Drain
pub mod Copy
use cellift_meta.Base.{ℕ, zero, suc, ◌+◌, Option, none, some, List, [], ◌∷◌, Mem, store, get_elem?}
use cellift_meta.Base.Run.{Run, returned, aborted}
use cellift_meta.Elf.{Loader}

-- The address and the length that `get_section` stores when it returns 1, and the loader behind it.
unfoldable pub get_section : Loader → Option (ℕ × ℕ) × Loader
get_section st = elim (get_elem? st.sections st.section_index) [
  | some s ↦ (some s, record st { section_index = st.section_index + 1 })
  | none ↦ (none, st)
]

-- The loop over the data, from the place `i` of the buffer on.
unfoldable pub copy_out : List ℕ → ℕ → Mem → Mem
copy_out [] i buf = buf
copy_out (datum ∷ data') i buf = copy_out data' (i + 1) (store buf i datum)

-- The buffer, from its first byte on.
unfoldable pub read_section : Loader → ℕ → Mem → Run Mem
unfolding copy_out
read_section st address buf = elim (st.mems address) [
  | none ↦ aborted
  | some mem ↦ returned (copy_out mem 0 buf)
]
