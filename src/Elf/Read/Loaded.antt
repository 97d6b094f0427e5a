-- ===== src/Elf/Read/Loaded.antt =====
-- From a file to the bytes that the simulation gets, and the files that are refused.
use cellift_meta.Base.{
  ℕ, ◌+◌, ◌*◌, ◌^◌, ◌≤◌, ◌<◌, ◌≡◌, refl, ap, ◌∙◌, Bool, true, false, ◌||◌, Option, none, some, List,
  [], ◌∷◌, length, get_elem?, some_injective, if◌then◌else◌, leb, ◌==◌, ◌⊎◌, inl, inr, Bool-cases,
  All, Mem, arith, zero, suc, le→leb, leb→le, subst, ◌%◌,
}
use cellift_meta.Base.Run.{
  returned, aborted, ◌>>=◌, assert-then, >>=-eq-returned, returned_injective,
}
use cellift_meta.Elf.{File, Class, bits, Loader, unloaded}
use cellift_meta.Elf.Layout.{size_of, elf64_ehdr}
use cellift_meta.Elf.Header.{Phdr, ehdr, is_elf, is_elf32, is_elf64, phdr_layout}
use cellift_meta.Elf.Segments.{slice, load_segments}
use cellift_meta.Elf.Segments.Spec.{
  headers, with_data, first_data, IsLoadedWith, load_segments-IsLoadedWith,
}
use cellift_meta.Elf.Segments.Safe.{IsFitting, load_segments_total, small_file, wrap_small}
use cellift_meta.Elf.Sections.{load_sections}
use cellift_meta.Elf.Read.{
  class_of, load_elf, Opened, absent, unreadable, mapped, read_file, read_elf,
}
use cellift_meta.Elf.Queue.{read_section}
use cellift_meta.Elf.Queue.Copy.{read_section-copy}

-- The segments of a file that have data, in order.
abbrev pub segments : File → List Phdr
segments f =
    with_data (headers (class_of f) f (ehdr (class_of f) f) (ehdr (class_of f) f).e_phnum 0)

-- The first segment at an address.
unfoldable pub first_at : ℕ → List Phdr → Option Phdr
first_at a [] = none
first_at a (ph ∷ phs) = let rest = first_at a phs in if a == ph.p_paddr then some ph else rest

-- A file of at least 64 bytes, of which the first four are 0x7f, `E`, `L` and `F` and the fifth is 1
-- or 2.
abbrev pub IsElf : Opened → Type 0
IsElf absent = ⊥
IsElf unreadable = ⊥
IsElf (mapped f) =
    (64 ≤ f.size)
    × (f.byte 0 ≡ 0x7f)
    × (f.byte 1 ≡ 0x45)
    × (f.byte 2 ≡ 0x4c)
    × (f.byte 3 ≡ 0x46)
    × ((f.byte 4 ≡ 1) ⊎ (f.byte 4 ≡ 2))

magic_bytes : (f : File) → 64 ≤ f.size → (is_elf32 f || is_elf64 f) ≡ true → IsElf (mapped f)
unfolding is_elf32 is_elf64 is_elf
magic_bytes f long magic = ground arith

-- `read_elf` aborts on everything that is not a file of at least 64 bytes that starts with the bytes
-- 0x7f, `E`, `L`, `F` and then 1 or 2: when there is no file, when it cannot be read, when it is
-- shorter, and when one of these bytes is another.
pub read_elf-aborted : (o : Opened) (st : Loader) → ¬ IsElf o → read_elf o st ≡ aborted
unfolding read_elf read_file size_of
read_elf-aborted absent st other = refl
read_elf-aborted unreadable st other = refl
read_elf-aborted (mapped f) st other = elim (Bool-cases (leb 64 f.size)) [
  | inr short ↦ rw (short) refl
  | inl long ↦ elim (Bool-cases (is_elf32 f || is_elf64 f)) [
    | inr wrong ↦ rw (long, wrong) refl
    | inl magic ↦ absurd (other (magic_bytes f (leb→le 64 f.size long) magic))
  ]
]

-- Whenever `read_elf` returns, the file is large enough and has a magic number, the entry is that of
-- its header, and the loader has the sections and the data of its segments besides the old ones.
pub read_elf-IsLoadedWith :
    (f : File) (st st' : Loader)
    → read_elf (mapped f) st ≡ returned st'
    → ((is_elf32 f || is_elf64 f) ≡ true)
      × (size_of elf64_ehdr ≤ f.size)
      × IsLoadedWith f (segments f) (record st { entry = (ehdr (class_of f) f).e_entry }) st'
unfolding read_elf read_file load_elf
read_elf-IsLoadedWith f st st' h =
    let eh = ehdr (class_of f) f in
    let st1 : Loader = record st { entry = eh.e_entry } in
    let (long, e1) = assert-then (leb (size_of elf64_ehdr) f.size) _ h in
    let (magic, e2) = assert-then (is_elf32 f || is_elf64 f) _ e1 in
    let ((st2, symbols), run, e3) =
      >>=-eq-returned (load_elf (class_of f) f st) (λ (st2, symbols). returned st2) e2 in
    let (fits, e4) =
      assert-then
        (leb ((eh.e_phoff + eh.e_phnum * size_of (phdr_layout (class_of f))) % 2 ^ 64) f.size) _
        run in
    let (st3, segments_run, e5) =
      >>=-eq-returned (load_segments (class_of f) f eh eh.e_phnum 0 st1)
        (λ st2. load_sections (class_of f) f eh >>= λ symbols. returned (st2, symbols)) e4 in
    let (symbols', sections_run, e6) =
      >>=-eq-returned (load_sections (class_of f) f eh) (λ symbols. returned (st3, symbols)) e5 in
    let same : st3 ≡ st' =
      ap (λ (p : Loader × List (List ℕ × ℕ)). p.0) (returned_injective e6)
      ∙ returned_injective e3 in
    (
      magic,
      leb→le (size_of elf64_ehdr) f.size long,
      subst (λ s. IsLoadedWith f (segments f) st1 s) same
          (load_segments-IsLoadedWith (class_of f) f eh eh.e_phnum 0 st1 st3 segments_run),
    )

abbrev pub data_of : File → Option Phdr → Option (List ℕ)
data_of f none = none
data_of f (some ph) = some (slice f ph.p_offset ph.p_filesz)

data_of-if :
    (f : File) (b : Bool) (ph : Phdr) (o : Option Phdr) (d : Option (List ℕ))
    → d ≡ data_of f o
    → (if b then some (slice f ph.p_offset ph.p_filesz) else d)
      ≡ data_of f (if b then some ph else o)
data_of-if f true ph o d e = refl
data_of-if f false ph o d e = e

-- An empty memory has at an address what the first segment there has in the file.
pub first_data-first_at :
    (f : File) (phs : List Phdr) (a : ℕ) → first_data f phs none a ≡ data_of f (first_at a phs)
unfolding first_data first_at
first_data-first_at f [] a = refl
first_data-first_at f (ph ∷ phs) a =
    data_of-if f (a == ph.p_paddr) ph (first_at a phs) (first_data f phs none a)
      (first_data-first_at f phs a)

pub length-slice : (f : File) (a n : ℕ) → length (slice f a n) ≡ n
unfolding slice
length-slice f a zero = refl
length-slice f a (suc n) = ap suc (length-slice f (a + 1) n)

slice_at : (f : File) (a n k : ℕ) → k < n → get_elem? (slice f a n) k ≡ some (f.byte (a + k))
unfolding slice
slice_at f a zero k h = absurd (omega arith)
slice_at f a (suc n) zero h = ap (λ i. some (f.byte i)) {x = a} {y = a + 0} (omega arith)
slice_at f a (suc n) (suc k) h =
    slice_at f (a + 1) n k (omega arith)
    ∙ ap (λ i. some (f.byte i)) {x = a + 1 + k} {y = a + suc k} (omega arith)

pub load_elf-total :
    (c : Class) (f : File) (symbols : List (List ℕ × ℕ)) (st : Loader)
    → f.size < 2 ^ bits c
    → (ehdr c f).e_phoff + (ehdr c f).e_phnum * size_of (phdr_layout c) ≤ f.size
    → All (IsFitting f) (headers c f (ehdr c f) (ehdr c f).e_phnum 0)
    → load_sections c f (ehdr c f) ≡ returned symbols
    → (st' : Loader) × (load_elf c f st ≡ returned (st', symbols))
unfolding load_elf
load_elf-total c f symbols st small table fits sections_run =
    let eh = ehdr c f in
    let (st2, run, loaded) =
      load_segments_total c f eh eh.e_phnum 0 (record st { entry = eh.e_entry }) small
        (subst (λ k. eh.e_phoff + k * size_of (phdr_layout c) ≤ f.size) {x = eh.e_phnum}
          {y = 0 + eh.e_phnum} (omega arith) table)
        fits in
    (
      st2,
      rw
          (
            le→leb f.size _ (
                wrap_small (eh.e_phoff + eh.e_phnum * size_of (phdr_layout c)) f.size table
                  (small_file c f small)),
            run,
            sections_run,
          )
          refl,
    )

-- A file of at least 64 bytes with a magic number, as small as its addresses allow, whose program
-- headers stay inside it, whose loadable segments stay inside it and are not larger than their
-- memory of less than 2^63 bytes, and whose sections `load_sections` accepts, is loaded from the
-- state without a section; and then `read_section` of an address gives the bytes in the file of the first
-- segment there, and leaves the rest of the buffer as it was.
pub read_elf-read_section :
    (f : File) (symbols : List (List ℕ × ℕ)) (a : ℕ) (ph : Phdr) (buf : Mem)
    → size_of elf64_ehdr ≤ f.size
    → (is_elf32 f || is_elf64 f) ≡ true
    → f.size < 2 ^ bits (class_of f)
    → (ehdr (class_of f) f).e_phoff
        + (ehdr (class_of f) f).e_phnum * size_of (phdr_layout (class_of f))
      ≤ f.size
    → All
        (IsFitting f)
        (headers (class_of f) f (ehdr (class_of f) f) (ehdr (class_of f) f).e_phnum 0)
    → load_sections (class_of f) f (ehdr (class_of f) f) ≡ returned symbols
    → first_at a (segments f) ≡ some ph
    → (st : Loader) × (buf' : Mem) × (read_elf (mapped f) unloaded ≡ returned st)
      × (read_section st a buf ≡ returned buf')
      × ((k : ℕ) → k < ph.p_filesz → buf' k ≡ f.byte (ph.p_offset + k))
      × ((k : ℕ) → ph.p_filesz ≤ k → buf' k ≡ buf k)
unfolding read_elf read_file
read_elf-read_section f symbols a ph buf long magic small table fits sections_run first =
    let (st, load) = load_elf-total (class_of f) f symbols unloaded small table fits sections_run in
    let run : read_elf (mapped f) unloaded ≡ returned st =
      rw (le→leb f.size (size_of elf64_ehdr) long, magic, load) refl in
    let (magic', long', (sections', mems', entry', index')) =
      read_elf-IsLoadedWith f unloaded st run in
    let mem = slice f ph.p_offset ph.p_filesz in
    let (buf', copied, front, back) =
      read_section-copy st a mem buf
        (mems' a ∙ first_data-first_at f (segments f) a ∙ ap (data_of f) first) in
    let len = length-slice f ph.p_offset ph.p_filesz in
    (
      st,
      buf',
      run,
      copied,
      λ k h. some_injective (front k (omega arith) ∙ slice_at f ph.p_offset ph.p_filesz k h),
      λ k h. back k (omega arith),
    )
