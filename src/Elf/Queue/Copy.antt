-- ===== src/Elf/Queue/Copy.antt =====
-- What `read_section` writes into the buffer.
use cellift_meta.Base.{
  ℕ, zero, suc, ◌+◌, ◌<◌, ◌≤◌, ◌≡◌, refl, ap, ◌∙◌, some, List, [], ◌∷◌, length, get_elem?, arith,
  Mem, store, ◌⊎◌, store_other, ==_false, ==_iff, store_same, Option, none, Option-cases, inl, inr,
  fun_ext,
}
use cellift_meta.Base.Run.{Run, returned, aborted}
use cellift_meta.Elf.{Loader}
use cellift_meta.Elf.Queue.{copy_out, read_section}

pub copy_out-outside :
    (mem : List ℕ) (i b : ℕ) (buf : Mem)
    → (b < i) ⊎ (i + length mem ≤ b)
    → copy_out mem i buf b ≡ buf b
unfolding copy_out
copy_out-outside [] i b buf out = refl
copy_out-outside (d ∷ mem) i b buf out =
    copy_out-outside mem (i + 1) b (store buf i d) (omega arith)
    ∙ store_other buf i b d (==_false b i (omega arith))

pub copy_out-inside :
    (mem : List ℕ) (i k : ℕ) (buf : Mem)
    → k < length mem
    → some (copy_out mem i buf (i + k)) ≡ get_elem? mem k
unfolding copy_out
copy_out-inside [] i k buf h = absurd (omega arith)
copy_out-inside (d ∷ mem) i zero buf h =
    ap some (copy_out-outside mem (i + 1) (i + 0) (store buf i d) (omega arith) ∙ ground arith)
copy_out-inside (d ∷ mem) i (suc k) buf h =
    ap (λ (b : ℕ). some (copy_out mem (i + 1) (store buf i d) b)) {x = i + suc k} {y = i + 1 + k}
      (omega arith)
    ∙ copy_out-inside mem (i + 1) k (store buf i d) (omega arith)

-- Where the loader has data for an address, `read_section` of it succeeds, has written the data to
-- the start of the buffer, and has left the rest of the buffer as it was.
pub read_section-copy :
    (st : Loader) (address : ℕ) (mem : List ℕ) (buf : Mem)
    → st.mems address ≡ some mem
    → (buf' : Mem) × (read_section st address buf ≡ returned buf')
      × ((k : ℕ) → k < length mem → some (buf' k) ≡ get_elem? mem k)
      × ((k : ℕ) → length mem ≤ k → buf' k ≡ buf k)
unfolding read_section
read_section-copy st address mem buf e = (
  copy_out mem 0 buf,
  rw (e, read_section) refl,
  λ k h.
      ap (λ (b : ℕ). some (copy_out mem 0 buf b)) {x = k} {y = 0 + k} (omega arith)
      ∙ copy_out-inside mem 0 k buf h,
  λ k h. copy_out-outside mem 0 k buf (omega arith),
)

-- A buffer with some bytes in front.
abbrev pub overlay : List ℕ → Mem → Mem
overlay [] buf k = buf k
overlay (b ∷ bs) buf zero = b
overlay (b ∷ bs) buf (suc k) = overlay bs (λ i. buf (suc i)) k

-- What a call for data gives: the buffer with the data in front, and no result when there are none.
abbrev pub fetched : Option (List ℕ) → Mem → Run Mem
fetched none buf = aborted
fetched (some mem) buf = returned (overlay mem buf)

copy_out-overlay :
    (mem : List ℕ) (i k : ℕ) (buf : Mem)
    → copy_out mem i buf (i + k) ≡ overlay mem (λ j. buf (i + j)) k
unfolding copy_out
copy_out-overlay [] i k buf = refl
copy_out-overlay (b ∷ bs) i zero buf =
    copy_out-outside bs (i + 1) (i + 0) (store buf i b) (omega arith)
    ∙ store_same buf i (i + 0) b ((==_iff (i + 0) i).1 (omega arith))
copy_out-overlay (b ∷ bs) i (suc k) buf =
    ap (copy_out bs (i + 1) (store buf i b)) {x = i + suc k} {y = i + 1 + k} (omega arith)
    ∙ copy_out-overlay bs (i + 1) k (store buf i b)
    ∙ ap (λ (rest : Mem). overlay bs rest k)
        (fun_ext (λ j.
          store_other buf i (i + 1 + j) b (==_false (i + 1 + j) i (omega arith))
          ∙ ap buf {x = i + 1 + j} {y = i + suc j} (omega arith)))

pub copy_out-all : (mem : List ℕ) (buf : Mem) → copy_out mem 0 buf ≡ overlay mem buf
copy_out-all mem buf = fun_ext (λ k.
    ap (copy_out mem 0 buf) {x = k} {y = 0 + k} (omega arith)
    ∙ copy_out-overlay mem 0 k buf
    ∙ ap (λ (rest : Mem). overlay mem rest k)
        (fun_ext (λ j. ap buf {x = 0 + j} {y = j} (omega arith))))

-- `read_section` aborts for an address without data, and otherwise puts the data in front of the
-- buffer and writes nothing else.
pub read_section-fetched :
    (st : Loader) (address : ℕ) (buf : Mem)
    → read_section st address buf ≡ fetched (st.mems address) buf
unfolding read_section
read_section-fetched st address buf = elim (Option-cases (st.mems address)) [
  | inl none' ↦ rw (none', read_section) refl
  | inr (mem, some') ↦ rw (some', read_section) (ap returned (copy_out-all mem buf))
]
