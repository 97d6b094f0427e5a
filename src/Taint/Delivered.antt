-- ===== src/Taint/Delivered.antt =====
-- From a taint file to the bytes that the simulation gets.
use cellift_meta.Base.{ℕ, ◌<◌, ◌≤◌, ◌≡◌, ◌∙◌, none, some, List, length, get_elem?, All, Mem}
use cellift_meta.Base.Run.{returned, ◌>>=◌}
use cellift_meta.Taint.{Taint, untainted, max_taints, init_taint_vectors}
use cellift_meta.Taint.Read.{read_taints}
use cellift_meta.Taint.Queue.{read_taint_section}
use cellift_meta.Taint.Hex.{Cased, bytes_of, hex_string, read_taint_section-hex_string}
use cellift_meta.Taint.Text.{Entry, IsEntry, id_of, text}
use cellift_meta.Taint.Spec.{last_taint, read_taints-Holds}

-- A taint file of entries, which have a decimal id below the number of taints, an address in
-- hexadecimal digits behind `0x`, a decimal length, both below 2^64, and a taint without blanks,
-- is read to its end behind `init_taint_vectors`, for a number of taints that a vector can have;
-- and where the last taint that the file gives an id below that number and an address spells some
-- bytes, two digits for each and every digit in either case, `read_taint_section` of them writes
-- these bytes to the start of the buffer, and leaves the rest of the buffer and the vectors as
-- they were.
pub read_taint_section-text :
    (es : List Entry) (num_taints id address : ℕ) (bs : List Cased) (buf : Mem)
    → num_taints ≤ max_taints
    → id < num_taints
    → All IsEntry es
    → All (λ e. id_of e < num_taints) es
    → last_taint id address es none ≡ some (hex_string bs)
    → All (λ b. b < 256) (bytes_of bs)
    → (st : Taint) × (buf' : Mem) × ((init_taint_vectors num_taints untainted >>= λ st1.
          read_taints (some (text es)) st1)
        ≡ returned st)
      × (read_taint_section st id address buf ≡ returned (st, buf'))
      × ((k : ℕ) → k < length (bytes_of bs) → some (buf' k) ≡ get_elem? (bytes_of bs) k)
      × ((k : ℕ) → length (bytes_of bs) ≤ k → buf' k ≡ buf k)
read_taint_section-text es num_taints id address bs buf le lt entries known spelled small =
    let (st, run, (sections_at, (m, m_at, taints))) =
      read_taints-Holds es num_taints id le lt entries known in
    let (buf', read, front, back) =
      read_taint_section-hex_string st id address m bs buf m_at (taints address ∙ spelled) small in
    (st, buf', run, read, front, back)
