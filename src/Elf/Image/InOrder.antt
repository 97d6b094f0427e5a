-- ===== src/Elf/Image/InOrder.antt =====
-- A written file is in order: its parts are where the loader looks for them.
use native.Mathlib.Nat.{suc-mul, zero-mul}
use cellift_meta.Base.{ℕ, ◌+◌, ◌*◌, ◌%◌, ◌^◌, ◌<◌, ◌≤◌, ◌≡◌, sym, subst, List, length, All, arith}
use cellift_meta.Elf.{File, Class, elf32, elf64, bits}
use cellift_meta.Elf.Layout.{size_of, elf64_ehdr}
use cellift_meta.Elf.Layout.Encode.{Stored}
use cellift_meta.Elf.Header.{Phdr, ehdr_layout, phdr_layout, shdr_layout, ehdr, shdr_at}
use cellift_meta.Elf.Segments.Spec.{headers}
use cellift_meta.Elf.Segments.Safe.{small_file}
use cellift_meta.Elf.Sections.{shdr_offset}
use cellift_meta.Elf.Sections.Symbols.{section_headers, IsPassedOver}
use cellift_meta.Elf.Sections.Total.{IsNamed}
use cellift_meta.Elf.Read.Loadable.{HasSegments, name_table, HasSections, IsInOrder}
use cellift_meta.Elf.Image.{
  Segment, IsSegment, phdrs, data_start, names_start, shdr_start, image_size, image, image_file,
}
use cellift_meta.Elf.Image.Parts.{image-HasParts}
use cellift_meta.Elf.Image.Structs.{IsEhdr, IsEhdr-encode, IsShdr, IsShdr-encode}
use cellift_meta.Elf.Image.Segments.{AreDescribed, headers-AreDescribed, described-IsFitting}
use cellift_meta.Elf.Image.Names.{HasMagic, ehdr-HasMagic, names-IsNamed, IsShdr-IsPassedOver}

-- What a file can be written from: segments, at most as many as a header can count, an entry of the
-- class, and no more bytes than an address of the class reaches.
abbrev pub IsWritable : Class → ℕ → List Segment → Type 0
IsWritable c entry ss =
    All (IsSegment c) ss
    × (entry < 2 ^ bits c)
    × (length ss < 2 ^ 16)
    × (image_size c ss < 2 ^ bits c)

pub image-HasMagic :
    (c : Class) (entry : ℕ) (ss : List Segment) → HasMagic c (image_file c entry ss)
image-HasMagic c entry ss =
    ehdr-HasMagic c (image_file c entry ss) entry (length ss) (shdr_start c ss)
      ((image-HasParts c entry ss).0)

pub image-long :
    (c : Class) (entry : ℕ) (ss : List Segment) → size_of elf64_ehdr ≤ length (image c entry ss)
unfolding size_of
image-long elf32 entry ss =
    let (h1, h2, h3, h4, h5, size) = image-HasParts elf32 entry ss in omega arith
image-long elf64 entry ss =
    let (h1, h2, h3, h4, h5, size) = image-HasParts elf64 entry ss in omega arith

image-small :
    (c : Class) (entry : ℕ) (ss : List Segment)
    → image_size c ss < 2 ^ bits c
    → length (image c entry ss) < 2 ^ bits c
image-small c entry ss h = let (h1, h2, h3, h4, h5, size) = image-HasParts c entry ss in omega arith

pub image-IsEhdr :
    (c : Class) (entry : ℕ) (ss : List Segment)
    → IsWritable c entry ss
    → IsEhdr c entry (length ss) (shdr_start c ss) (ehdr c (image_file c entry ss))
image-IsEhdr c entry ss (segments, e, n, small) =
    IsEhdr-encode c (image_file c entry ss) entry (length ss) (shdr_start c ss) e n (omega arith)
      ((image-HasParts c entry ss).0)

-- The program headers of a written file.
abbrev pub image_headers : Class → ℕ → List Segment → List Phdr
image_headers c entry ss =
    let f = image_file c entry ss in headers c f (ehdr c f) (ehdr c f).e_phnum 0

pub image-AreDescribed :
    (c : Class) (entry : ℕ) (ss : List Segment)
    → IsWritable c entry ss
    → AreDescribed (data_start c ss) ss (image_headers c entry ss)
image-AreDescribed c entry ss writable =
    let f = image_file c entry ss in
    let (segments, e, n, small) = writable in
    let (h1, h2, h3, h4, h5, size) = image-HasParts c entry ss in
    let (entry', phoff, phnum, shoff, shnum, shstrndx) = image-IsEhdr c entry ss writable in
    let none = zero-mul (size_of (phdr_layout c)) in
    subst (λ k. AreDescribed (data_start c ss) ss (headers c f (ehdr c f) k 0)) (sym phnum)
      (headers-AreDescribed c f (ehdr c f) ss 0 (data_start c ss) segments
        (image-small c entry ss small)
        (subst (λ k. (ehdr c f).e_phoff + k * size_of (phdr_layout c) ≤ f.size) {x = length ss}
          {y = 0 + length ss} (omega arith) (omega arith))
        (omega arith)
        (subst (λ a. Stored f.byte a (phdrs c (data_start c ss) ss)) {x = size_of (ehdr_layout c)}
          {y = (ehdr c f).e_phoff + 0 * size_of (phdr_layout c)} (omega arith) h2))

image-HasSegments :
    (c : Class) (entry : ℕ) (ss : List Segment)
    → IsWritable c entry ss
    → HasSegments c (image_file c entry ss)
image-HasSegments c entry ss writable =
    let f = image_file c entry ss in
    let (segments, e, n, small) = writable in
    let (h1, h2, h3, h4, h5, size) = image-HasParts c entry ss in
    let (entry', phoff, phnum, shoff, shnum, shstrndx) = image-IsEhdr c entry ss writable in
    (
      subst (λ k. (ehdr c f).e_phoff + k * size_of (phdr_layout c) ≤ f.size) (sym phnum)
          (omega arith),
      described-IsFitting c f (data_start c ss) ss (image_headers c entry ss) segments (omega arith)
          (image-AreDescribed c entry ss writable),
    )

-- The section header of the table of names, which is the first one.
image-IsShdr :
    (c : Class) (entry : ℕ) (ss : List Segment)
    → IsWritable c entry ss
    → IsShdr
        (names_start c ss)
        (shdr_at c (image_file c entry ss) (shdr_offset c (ehdr c (image_file c entry ss)) 0))
unfolding shdr_offset
image-IsShdr c entry ss writable =
    let f = image_file c entry ss in
    let (segments, e, n, small) = writable in
    let (h1, h2, h3, h4, h5, size) = image-HasParts c entry ss in
    let (entry', phoff, phnum, shoff, shnum, shstrndx) = image-IsEhdr c entry ss writable in
    let fits = small_file c f (image-small c entry ss small) in
    let start : ((ehdr c f).e_shoff + 0 * size_of (shdr_layout c)) % 2 ^ 64 ≡ shdr_start c ss =
      omega (arith, zero-mul (size_of (shdr_layout c))) in
    subst (λ a. IsShdr (names_start c ss) (shdr_at c f a)) (sym start)
      (IsShdr-encode c f (shdr_start c ss) (names_start c ss) (omega arith) h5)

-- The only section is its own table of names.
HasSections-one :
    (c : Class) (f : File)
    → (ehdr c f).e_shnum ≡ 1
    → (ehdr c f).e_shstrndx ≡ 0
    → (ehdr c f).e_shoff + size_of (shdr_layout c) ≤ f.size
    → (let sh = shdr_at c f (shdr_offset c (ehdr c f) 0) in
        (sh.sh_offset + sh.sh_size ≤ f.size) × IsNamed f sh sh × IsPassedOver f sh sh)
    → HasSections c f
unfolding section_headers
HasSections-one c f number index there (table_there, named, passed) =
    let Table = λ (k : ℕ). shdr_at c f (shdr_offset c (ehdr c f) k) in
    let one = suc-mul 0 (size_of (shdr_layout c)) in
    let none = zero-mul (size_of (shdr_layout c)) in
    subst
      (λ k.
        ((ehdr c f).e_shoff + k * size_of (shdr_layout c) ≤ f.size)
        × ((ehdr c f).e_shstrndx < k)
        × ((name_table c f).sh_offset + (name_table c f).sh_size ≤ f.size)
        × All (IsNamed f (name_table c f)) (section_headers c f (ehdr c f) k 0)
        × All (IsPassedOver f (name_table c f)) (section_headers c f (ehdr c f) k 0))
      (sym number)
      (
        omega arith,
        omega arith,
        subst (λ k. (Table k).sh_offset + (Table k).sh_size ≤ f.size) (sym index) table_there,
        (subst (λ k. IsNamed f (Table k) (Table 0)) (sym index) named, tt),
        (subst (λ k. IsPassedOver f (Table k) (Table 0)) (sym index) passed, tt),
      )

image-HasSections :
    (c : Class) (entry : ℕ) (ss : List Segment)
    → IsWritable c entry ss
    → HasSections c (image_file c entry ss)
image-HasSections c entry ss writable =
    let f = image_file c entry ss in
    let (segments, e, n, small) = writable in
    let (h1, h2, h3, h4, h5, size) = image-HasParts c entry ss in
    let (entry', phoff, phnum, shoff, shnum, shstrndx) = image-IsEhdr c entry ss writable in
    let sh = shdr_at c f (shdr_offset c (ehdr c f) 0) in
    let table = image-IsShdr c entry ss writable in
    let (name, type, offset, size') = table in
    HasSections-one c f shnum shstrndx (omega arith) (
      omega arith,
      names-IsNamed f (names_start c ss) sh h4 (omega arith)
          (small_file c f (image-small c entry ss small)) table,
      IsShdr-IsPassedOver f (names_start c ss) sh table,
    )

pub image-IsInOrder :
    (c : Class) (entry : ℕ) (ss : List Segment)
    → IsWritable c entry ss
    → IsInOrder c (image_file c entry ss)
image-IsInOrder c entry ss writable = (
  image-small c entry ss (writable.3),
  image-HasSegments c entry ss writable,
  image-HasSections c entry ss writable,
)
