-- ===== src/Taint.antt =====
-- design-processing/common/dv/taintloader.cc: the taint that a simulation gives to its memory at the
-- start. Ids, addresses and counts are the values that the unsigned types give them; an id that a
-- vector does not have is `strayed`, and a vector holds at most 2^63-1 bytes. The code reads the id and
-- the number of bytes of a line as decimal numbers and the address as a hexadecimal one, where
-- README.md says that all of them are hexadecimal; the model reads what the code reads.
-- `taint_section_index` and the counter of `read_taint_section`, which it doubles, are `int`: they are
-- modelled for fewer than 2^31 sections of an id and taints below 2^31 characters.
pub mod Stream
pub mod Read
pub mod Queue
pub mod Hex
pub mod Numeral
pub mod Line
pub mod Text
pub mod Consistent
pub mod Keep
pub mod Spec
pub mod Delivered
pub mod Decode
pub mod Ledger
pub mod Calls
pub mod Drain
pub mod Malformed
pub mod Spaced
pub mod Tests
use cellift_meta.Base.{ℕ, zero, suc, ◌+◌, ◌-◌, ◌/◌, ◌^◌, Option, none, some, List, [], ◌∷◌, leb}
use cellift_meta.Base.Run.{Run, returned, ◌>>◌, assert, ◌>>=◌}

-- `std::map<uint64_t, std::string>`
abbrev pub Assignments : Type 0
Assignments = ℕ → Option (List ℕ)

-- The vectors of the loader; an id is a place in each of them.
pub record Taint : Type 0 where
  pub sections : List (List (ℕ × ℕ))
  pub assignments : List Assignments
  pub section_index : List ℕ

abbrev pub untainted : Taint
untainted = record { sections = []; assignments = []; section_index = [] }

-- `std::vector::resize`
unfoldable pub resize {ℓ} : {A : Type ℓ} → A → ℕ → List A → List A
resize filler zero xs = []
resize filler (suc n) [] = filler ∷ resize filler n []
resize filler (suc n) (x ∷ xs) = x ∷ resize filler n xs

-- The longest vector of maps, which have 48 bytes each.
abbrev pub max_taints : ℕ
max_taints = (2 ^ 63 - 1) / 48

-- `resize` throws for more elements than a vector can have.
unfoldable pub init_taint_vectors : ℕ → Taint → Run Taint
unfolding resize
init_taint_vectors num_taints st = do
  assert (leb num_taints max_taints)
  returned (record {
    sections = resize [] num_taints st.sections;
    assignments = resize (λ _. none) num_taints st.assignments;
    section_index = resize 0 num_taints st.section_index;
  })
