-- ===== src/Taint/Hex.antt =====
-- The bytes that `read_taint_section` reads from a string of hexadecimal digits.
use cellift_meta.Base.{
  ℕ, ◌+◌, ◌-◌, ◌*◌, ◌/◌, ◌%◌, ◌<◌, ◌≤◌, ◌≡◌, refl, sym, ap, ◌∙◌, Bool, true, false, ◌&&◌, ◌||◌,
  some, List, [], ◌∷◌, length, get_elem?, set, set-same, store, All, Mem, leb, ltb, ◌==◌, ==_iff,
  if◌then◌else◌, bit_or, arith, every_below, every_below-at, inl, inr, Bool-cases,
}
use cellift_meta.Base.Run.{Run, returned, exited, ◌>>=◌}
use cellift_meta.Elf.Queue.{copy_out}
use cellift_meta.Elf.Queue.Copy.{copy_out-inside, copy_out-outside}
use cellift_meta.Taint.{Assignments, Taint}
use cellift_meta.Taint.Read.{at-some}
use cellift_meta.Taint.Queue.{char_to_hex, find_or_add, write_bytes, read_taint_section}

-- The digit of a value below sixteen, in one case or the other.
abbrev pub hex_digit : Bool → ℕ → ℕ
hex_digit upper v = if ltb v 10 then v + b'0' else if upper then v - 10 + b'A' else v - 10 + b'a'

-- A byte, and whether its high and its low digit are written in upper case.
pub record Cased : Type 0 where
  pub byte : ℕ
  pub upper_high : Bool
  pub upper_low : Bool

abbrev pub bytes_of : List Cased → List ℕ
bytes_of [] = []
bytes_of (b ∷ bs) = b.byte ∷ bytes_of bs

-- Two digits for each byte, each in its own case.
abbrev pub hex_string : List Cased → List ℕ
hex_string [] = []
hex_string (b ∷ bs) =
    hex_digit b.upper_high (b.byte / 16) ∷ hex_digit b.upper_low (b.byte % 16) ∷ hex_string bs

abbrev pub is_hex : ℕ → Bool
is_hex c = (leb b'0' c && leb c b'9') || ((leb b'a' c && leb c b'f') || (leb b'A' c && leb c b'F'))

-- Whether the pairs of a string are pairs of digits.
unfoldable pub are_hex : List ℕ → Bool
are_hex [] = true
are_hex (c ∷ []) = true
are_hex (high ∷ low ∷ cs) = (is_hex high && is_hex low) && are_hex cs

pub char_to_hex-hex_digit :
    (upper : Bool) (v : ℕ) → v < 16 → char_to_hex (hex_digit upper v) ≡ returned v
unfolding char_to_hex
char_to_hex-hex_digit true v h = ground arith
char_to_hex-hex_digit false v h = ground arith

char_to_hex-returned : (c : ℕ) → is_hex c ≡ true → (v : ℕ) × (char_to_hex c ≡ returned v)
unfolding char_to_hex
char_to_hex-returned c h = elim (Bool-cases (leb b'0' c && leb c b'9')) [
  | inl digit ↦ (c - b'0', rw (digit) refl)
  | inr other ↦ elim (Bool-cases (leb b'a' c && leb c b'f')) [
    | inl low ↦ (c - b'a' + 10, rw (other, low) refl)
    | inr higher ↦ (c - b'A' + 10, ground arith)
  ]
]

char_to_hex-exited : (c : ℕ) → is_hex c ≡ false → char_to_hex c ≡ exited 0
unfolding char_to_hex
char_to_hex-exited c h = ground arith

pub nibbles : (b : ℕ) → b < 256 → bit_or (b / 16 * 16) (b % 16) ≡ b
unfolding every_below
nibbles b h = (==_iff _ b).0 (every_below-at 256 (λ b. bit_or (b / 16 * 16) (b % 16) == b) b refl h)

write_bytes-hex_string :
    (bs : List Cased) (i : ℕ) (buf : Mem)
    → All (λ b. b < 256) (bytes_of bs)
    → write_bytes (hex_string bs) i buf ≡ returned (copy_out (bytes_of bs) i buf)
unfolding write_bytes copy_out
write_bytes-hex_string [] i buf small = refl
write_bytes-hex_string (b ∷ bs) i buf (h, small) =
    rw
      (
        char_to_hex-hex_digit b.upper_high (b.byte / 16) (omega arith),
        char_to_hex-hex_digit b.upper_low (b.byte % 16) (omega arith),
        nibbles b.byte h,
      )
      (write_bytes-hex_string bs (i + 1) (store buf i b.byte) small)

write_bytes-exited :
    (cs : List ℕ) (i : ℕ) (buf : Mem) → are_hex cs ≡ false → write_bytes cs i buf ≡ exited 0
unfolding write_bytes are_hex
write_bytes-exited [] i buf h = absurd (cc)
write_bytes-exited (c ∷ []) i buf h = absurd (cc)
write_bytes-exited (high ∷ low ∷ cs) i buf h = elim (Bool-cases (is_hex high)) [
  | inr bad ↦ rw (char_to_hex-exited high bad) refl
  | inl good ↦
      let (v, first) = char_to_hex-returned high good in
      elim (Bool-cases (is_hex low)) [
        | inr bad ↦ rw (first, char_to_hex-exited low bad) refl
        | inl good' ↦
            let (w, second) = char_to_hex-returned low good' in
            rw (first, second)
              (write_bytes-exited cs (i + 1) (store buf i (bit_or (v * 16) w))
                (sym (ap (λ b. b && are_hex cs) (ap (λ b. b && is_hex low) good ∙ good')) ∙ h))
      ]
]

find_or_add-some :
    (m : Assignments) (address : ℕ) (str : List ℕ)
    → m address ≡ some str
    → find_or_add m address ≡ (str, m)
find_or_add-some m address str e = rw (e, find_or_add) refl

-- The rest of `read_taint_section`, behind the look-up.
abbrev write_found : Taint → ℕ → Mem → List ℕ × Assignments → Run (Taint × Mem)
write_found st id buf (str, m) = write_bytes str 0 buf >>= λ buf'.
    returned (record st { assignments = set st.assignments id m }, buf')

read_taint_section-found :
    (st : Taint) (id address : ℕ) (m : Assignments) (str : List ℕ) (buf : Mem)
    → get_elem? st.assignments id ≡ some m
    → m address ≡ some str
    → read_taint_section st id address buf ≡ write_found st id buf (str, m)
unfolding read_taint_section
read_taint_section-found st id address m str buf there kept =
    ap (λ r. r >>= λ m'. write_found st id buf (find_or_add m' address))
      (at-some st.assignments id m there)
    ∙ ap (write_found st id buf) (find_or_add-some m address str kept)

-- Where the string for an id and an address spells some bytes, two digits for each and every digit
-- in either case, `read_taint_section` of them returns, has written these bytes to the start of
-- the buffer, and has left the rest of the buffer and the vectors as they were.
pub read_taint_section-hex_string :
    (st : Taint) (id address : ℕ) (m : Assignments) (bs : List Cased) (buf : Mem)
    → get_elem? st.assignments id ≡ some m
    → m address ≡ some (hex_string bs)
    → All (λ b. b < 256) (bytes_of bs)
    → (buf' : Mem) × (read_taint_section st id address buf ≡ returned (st, buf'))
      × ((k : ℕ) → k < length (bytes_of bs) → some (buf' k) ≡ get_elem? (bytes_of bs) k)
      × ((k : ℕ) → length (bytes_of bs) ≤ k → buf' k ≡ buf k)
unfolding read_taint_section
read_taint_section-hex_string st id address m bs buf there spelled small = (
  copy_out (bytes_of bs) 0 buf,
  read_taint_section-found st id address m (hex_string bs) buf there spelled
      ∙ ap (λ r. r >>= λ buf'. returned (record st { assignments = set st.assignments id m }, buf'))
          (write_bytes-hex_string bs 0 buf small)
      ∙ ap
          (λ (l : List Assignments).
            returned (record st { assignments = l }, copy_out (bytes_of bs) 0 buf))
          (set-same st.assignments id m there),
  λ k h.
      ap (λ (b : ℕ). some (copy_out (bytes_of bs) 0 buf b)) {x = k} {y = 0 + k} (omega arith)
      ∙ copy_out-inside (bytes_of bs) 0 k buf h,
  λ k h. copy_out-outside (bytes_of bs) 0 k buf (omega arith),
)

-- Where one of the pairs of characters of the string for an id and an address is no pair of digits,
-- `read_taint_section` of them ends the program, with the code 0.
pub read_taint_section-exited :
    (st : Taint) (id address : ℕ) (m : Assignments) (str : List ℕ) (buf : Mem)
    → get_elem? st.assignments id ≡ some m
    → m address ≡ some str
    → are_hex str ≡ false
    → read_taint_section st id address buf ≡ exited 0
unfolding read_taint_section
read_taint_section-exited st id address m str buf there kept bad =
    read_taint_section-found st id address m str buf there kept
    ∙ ap (λ r. r >>= λ buf'. returned (record st { assignments = set st.assignments id m }, buf'))
        (write_bytes-exited str 0 buf bad)
