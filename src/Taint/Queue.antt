-- ===== src/Taint/Queue.antt =====
-- `get_taint_section` and `read_taint_section`: how the simulation takes the taint. The indices and the
-- place in the string are `int`: fewer than 2^31 sections of an id, and strings below 2^31 characters.
use cellift_meta.Base.{
  ℕ, ◌+◌, ◌-◌, ◌*◌, ◌&&◌, Option, none, some, List, [], ◌∷◌, get_elem?, set, store, Mem, leb,
  bit_or, if◌then◌else◌,
}
use cellift_meta.Base.Run.{Run, returned, exited, ◌>>=◌}
use cellift_meta.Taint.{Assignments, Taint}
use cellift_meta.Taint.Read.{at}

abbrev pub answer : Taint → ℕ → ℕ → Option (ℕ × ℕ) → Option (ℕ × ℕ) × Taint
answer st id i (some s) = (some s, record st { section_index = set st.section_index id (i + 1) })
answer st id i none = (none, st)

-- The address and the length that `get_taint_section` stores when it returns 1, and the vectors
-- behind it.
unfoldable pub get_taint_section : Taint → ℕ → Run (Option (ℕ × ℕ) × Taint)
get_taint_section st id = do
  i ← at st.section_index id
  l ← at st.sections id
  returned (answer st id i (get_elem? l i))

unfoldable pub char_to_hex : ℕ → Run ℕ
char_to_hex c =
    if leb b'0' c && leb c b'9'
    then returned (c - b'0')
    else if leb b'a' c && leb c b'f'
    then returned (c - b'a' + 10)
    else if leb b'A' c && leb c b'F'
    then returned (c - b'A' + 10)
    else exited 0

-- The loop over the bytes, from the place `i` of the buffer on; a last odd character is left out.
unfoldable pub write_bytes : List ℕ → ℕ → Mem → Run Mem
unfolding char_to_hex
write_bytes [] i buf = returned buf
write_bytes (c ∷ []) i buf = returned buf
write_bytes (high ∷ low ∷ cs) i buf = do
  h ← char_to_hex high
  l ← char_to_hex low
  write_bytes cs (i + 1) (store buf i (bit_or (h * 16) l))

-- `m[address]` adds an empty string where there is none.
abbrev pub find_or_add : Assignments → ℕ → List ℕ × Assignments
find_or_add m address = elim (m address) [
  | some str ↦ (str, m)
  | none ↦ ([], store m address (some []))
]

-- The vectors and the buffer behind the call.
unfoldable pub read_taint_section : Taint → ℕ → ℕ → Mem → Run (Taint × Mem)
unfolding write_bytes
read_taint_section st id address buf = do
  m ← at st.assignments id
  let (str, m') = find_or_add m address
  buf' ← write_bytes str 0 buf
  returned (record st { assignments = set st.assignments id m' }, buf')
