-- ===== src/Elf/Image/Cut.antt =====
-- Files that lost their end are refused.
use native.Mathlib.Nat.{suc-mul, zero-mul}
use cellift_meta.Base.{
  ℕ, suc, ◌+◌, ◌*◌, ◌%◌, ◌^◌, ◌<◌, ◌≤◌, ◌≡◌, refl, sym, ap, ◌∙◌, subst, List, [], ◌∷◌, length,
  length-append, All, ◌⊎◌, inl, inr, Bool-cases, ==_iff, ==_false, leb, leb→le, leb→lt, lt→leb,
  arith,
}
use cellift_meta.Base.Run.{Run, returned, aborted}
use cellift_meta.Elf.{File, Class, elf32, elf64, bits, Loader}
use cellift_meta.Elf.Layout.{size_of, elf64_ehdr}
use cellift_meta.Elf.Layout.Encode.{Stored}
use cellift_meta.Elf.Header.{Ehdr, Phdr, ehdr_layout, phdr_layout, shdr_layout, ehdr, phdr_at}
use cellift_meta.Elf.Segments.{
  pt_load, sum_of, load_bytes, load_segment, phdr_offset, load_segments,
}
use cellift_meta.Elf.Segments.Spec.{headers}
use cellift_meta.Elf.Segments.Safe.{small_file, load_segment-total, phdr-inside}
use cellift_meta.Elf.Sections.{load_sections}
use cellift_meta.Elf.Read.{load_elf, mapped, read_file, read_elf}
use cellift_meta.Elf.Image.{
  Segment, IsSegment, phdrs, contents, data_start, shdr_start, image_size, image, image_file,
}
use cellift_meta.Elf.Image.Parts.{image-HasParts}
use cellift_meta.Elf.Image.Structs.{IsEhdr-encode, IsPhdr}
use cellift_meta.Elf.Image.Segments.{AreDescribed, headers-AreDescribed}
use cellift_meta.Elf.Image.Names.{ehdr-HasMagic}
use cellift_meta.Elf.Image.InOrder.{IsWritable}

-- The first `n` bytes of a file.
abbrev pub cut : ℕ → File → File
cut n f = record { size = n; byte = f.byte }

Ends : Run Loader → Type 0
Ends run = (run ≡ aborted) ⊎ ((st : Loader) × (run ≡ returned st))

sum_of-exact : (c : Class) (a b : ℕ) → a + b < 2 ^ bits c → sum_of c a b ≡ a + b
sum_of-exact elf32 a b h = omega arith
sum_of-exact elf64 a b h = omega arith

-- A segment behind the end of the file is refused.
load_segment-aborted :
    (c : Class) (f : File) (offset : ℕ) (s : Segment) (ph : Phdr) (st : Loader)
    → IsSegment c s
    → IsPhdr offset s ph
    → offset + length s.payload < 2 ^ bits c
    → f.size < offset + length s.payload
    → load_segment c f ph st ≡ aborted
unfolding load_segment load_bytes
load_segment-aborted c f offset s ph st segment here small far =
    let (address, full, le, memsz, fits) = segment in
    let (type, start, paddr, filesz, mem) = here in
    let sum = sum_of-exact c ph.p_offset ph.p_filesz (omega arith) in
    rw
      (
        (==_iff ph.p_type pt_load).1 type,
        ==_false ph.p_memsz 0 (omega arith),
        ==_false ph.p_filesz 0 (omega arith),
        lt→leb f.size (sum_of c ph.p_offset ph.p_filesz) (omega arith),
      )
      refl

load_segment-Ends :
    (c : Class) (f : File) (offset : ℕ) (s : Segment) (ph : Phdr) (st : Loader)
    → IsSegment c s
    → IsPhdr offset s ph
    → f.size < 2 ^ bits c
    → offset + length s.payload < 2 ^ bits c
    → Ends (load_segment c f ph st)
unfolding Ends
load_segment-Ends c f offset s ph st segment here small room =
    let (address, full, le, memsz, fits) = segment in
    let (type, start, paddr, filesz, mem) = here in
    elim (Bool-cases (leb (offset + length s.payload) f.size)) [
      | inl inside' ↦
          let there = leb→le (offset + length s.payload) f.size inside' in
          inr (load_segment-total c f ph st small (inr (omega arith, omega arith, omega arith)))
      | inr outside ↦
          inl (load_segment-aborted c f offset s ph st segment here room (leb→lt _ _ outside))
    ]

load_segments-Ends :
    (c : Class) (f : File) (eh : Ehdr) (ss : List Segment) (i offset : ℕ) (st : Loader)
    → All (IsSegment c) ss
    → f.size < 2 ^ bits c
    → eh.e_phoff + (i + length ss) * size_of (phdr_layout c) ≤ f.size
    → offset + length (contents ss) < 2 ^ bits c
    → AreDescribed offset ss (headers c f eh (length ss) i)
    → Ends (load_segments c f eh (length ss) i st)
unfolding load_segments headers contents Ends
load_segments-Ends c f eh [] i offset st segments small there room d = inr (st, refl)
load_segments-Ends c f eh (s ∷ ss) i offset st (segment, segments) small there room (here, rest) =
    let len = length-append s.payload (contents ss) in
    let there' =
      subst (λ k. eh.e_phoff + k * size_of (phdr_layout c) ≤ f.size) {x = i + suc (length ss)}
        {y = i + 1 + length ss} (omega arith) there in
    let inside' = phdr-inside c f eh (length ss) i small there in
    elim (load_segment-Ends c f offset s (phdr_at c f (phdr_offset c eh i)) st segment here small
      (omega arith)) [
        | inl stop ↦ inl (rw (inside', stop) refl)
        | inr (st1, go) ↦
            elim (load_segments-Ends c f eh ss (i + 1) (offset + length s.payload) st1 segments
              small there' (omega arith) rest) [
                | inl stop ↦ inl (rw (inside', go) stop)
                | inr (st', run) ↦ inr (st', rw (inside', go) run)
              ]
      ]

-- `LOAD_ELF` of a file without the end of its section headers.
load_elf-aborted :
    (c : Class) (f : File) (st : Loader)
    → (ehdr c f).e_phoff + (ehdr c f).e_phnum * size_of (phdr_layout c) < 2 ^ 64
    → f.size < ((ehdr c f).e_shoff + (ehdr c f).e_shnum * size_of (shdr_layout c)) % 2 ^ 64
    → ((st1 : Loader)
        → (ehdr c f).e_phoff + (ehdr c f).e_phnum * size_of (phdr_layout c) ≤ f.size
        → Ends (load_segments c f (ehdr c f) (ehdr c f).e_phnum 0 st1))
    → load_elf c f st ≡ aborted
unfolding load_elf load_sections Ends
load_elf-aborted c f st table far ends =
    let eh = ehdr c f in
    let short = lt→leb f.size ((eh.e_shoff + eh.e_shnum * size_of (shdr_layout c)) % 2 ^ 64) far in
    elim (Bool-cases (leb ((eh.e_phoff + eh.e_phnum * size_of (phdr_layout c)) % 2 ^ 64) f.size)) [
      | inr outside ↦ rw (outside) refl
      | inl inside' ↦
          let there =
            leb→le ((eh.e_phoff + eh.e_phnum * size_of (phdr_layout c)) % 2 ^ 64) f.size inside' in
          elim (ends (record st { entry = eh.e_entry }) (omega arith)) [
            | inl stop ↦ rw (inside', stop) refl
            | inr (st', run) ↦ rw (inside', run, short) refl
          ]
    ]

cut-aborted :
    (c : Class) (entry n : ℕ) (ss : List Segment) (st : Loader)
    → IsWritable c entry ss
    → n < length (image c entry ss)
    → load_elf c (cut n (image_file c entry ss)) st ≡ aborted
cut-aborted c entry n ss st writable less =
    let f = cut n (image_file c entry ss) in
    let (segments, e, count, small) = writable in
    let (h1, h2, h3, h4, h5, size) = image-HasParts c entry ss in
    let (entry', phoff, phnum, shoff, shnum, shstrndx) =
      IsEhdr-encode c f entry (length ss) (shdr_start c ss) e count (omega arith) h1 in
    let table : (ehdr c f).e_phoff + (ehdr c f).e_phnum * size_of (phdr_layout c)
        ≡ data_start c ss =
      ap (λ k. (ehdr c f).e_phoff + k * size_of (phdr_layout c)) phnum
      ∙ ap (λ k. k + length ss * size_of (phdr_layout c)) phoff in
    let last : (ehdr c f).e_shoff + (ehdr c f).e_shnum * size_of (shdr_layout c) ≡ image_size c ss =
      ap (λ k. (ehdr c f).e_shoff + k * size_of (shdr_layout c)) shnum
      ∙ omega (arith, suc-mul 0 (size_of (shdr_layout c)), zero-mul (size_of (shdr_layout c))) in
    let limit = small_file c (image_file c entry ss) (omega arith) in
    let start : size_of (ehdr_layout c) ≡ (ehdr c f).e_phoff + 0 * size_of (phdr_layout c) =
      omega (arith, zero-mul (size_of (phdr_layout c))) in
    load_elf-aborted c f st (omega arith) (omega arith) (λ st1 there.
      let there' : (ehdr c f).e_phoff + (0 + length ss) * size_of (phdr_layout c) ≤ f.size =
        subst (λ k. (ehdr c f).e_phoff + k * size_of (phdr_layout c) ≤ f.size)
          {x = (ehdr c f).e_phnum} {y = 0 + length ss} (omega arith) there in
      subst (λ k. Ends (load_segments c f (ehdr c f) k 0 st1)) (sym phnum)
        (load_segments-Ends c f (ehdr c f) ss 0 (data_start c ss) st1 segments (omega arith) there'
          (omega arith)
          (headers-AreDescribed c f (ehdr c f) ss 0 (data_start c ss) segments (omega arith) there'
            (omega arith) (subst (λ a. Stored f.byte a (phdrs c (data_start c ss) ss)) start h2))))

-- A file that was written from segments, fewer than 2^16, whose data are not empty and fit into
-- their memory of less than 2^63 bytes, and where the entry, the addresses and sizes of the segments
-- and the size of the file are numbers of the width of an address, and lost any number of bytes at
-- its end, is refused: the call aborts, whatever was loaded before, and reads nothing from outside
-- the file.
pub read_elf-cut :
    (c : Class) (entry n : ℕ) (ss : List Segment) (st : Loader)
    → IsWritable c entry ss
    → n < length (image c entry ss)
    → read_elf (mapped (cut n (image_file c entry ss))) st ≡ aborted
unfolding read_elf read_file
read_elf-cut c entry n ss st writable less =
    let f = cut n (image_file c entry ss) in
    let (magic, class) =
      ehdr-HasMagic c f entry (length ss) (shdr_start c ss) ((image-HasParts c entry ss).0) in
    elim (Bool-cases (leb (size_of elf64_ehdr) n)) [
      | inr short ↦ rw (short) refl
      | inl long ↦ rw (long, magic, class, cut-aborted c entry n ss st writable less) refl
    ]
