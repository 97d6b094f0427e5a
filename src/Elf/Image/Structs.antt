-- ===== src/Elf/Image/Structs.antt =====
-- The structs of a written file, read back by the loader.
use cellift_meta.Base.{ℕ, ◌^◌, ◌<◌, ◌≡◌, refl, length, All, arith}
use cellift_meta.Elf.{File, Class, elf32, elf64, bits}
use cellift_meta.Elf.Layout.{size_of, field_width}
use cellift_meta.Elf.Layout.Fields.{IsPositive, are_positive, are_positive-IsPositive}
use cellift_meta.Elf.Layout.Encode.{encode, Stored, field-encode}
use cellift_meta.Elf.Header.{
  Ehdr, Phdr, Shdr, ehdr_layout, phdr_layout, shdr_layout, ehdr, phdr_at, phdr32_at, phdr64_at,
  shdr_at,
}
use cellift_meta.Elf.Image.{Segment, IsSegment, ehdr_values, phdr_values, shdr_values}

ehdr-IsPositive : (c : Class) → All IsPositive (ehdr_layout c)
unfolding are_positive
ehdr-IsPositive elf32 = are_positive-IsPositive (ehdr_layout elf32) refl
ehdr-IsPositive elf64 = are_positive-IsPositive (ehdr_layout elf64) refl

phdr-IsPositive : (c : Class) → All IsPositive (phdr_layout c)
unfolding are_positive
phdr-IsPositive elf32 = are_positive-IsPositive (phdr_layout elf32) refl
phdr-IsPositive elf64 = are_positive-IsPositive (phdr_layout elf64) refl

shdr-IsPositive : (c : Class) → All IsPositive (shdr_layout c)
unfolding are_positive
shdr-IsPositive elf32 = are_positive-IsPositive (shdr_layout elf32) refl
shdr-IsPositive elf64 = are_positive-IsPositive (shdr_layout elf64) refl

-- The fields of the file header that the loader uses.
abbrev pub IsEhdr : Class → ℕ → ℕ → ℕ → Ehdr → Type 0
IsEhdr c entry phnum shoff eh =
    (eh.e_entry ≡ entry)
    × (eh.e_phoff ≡ size_of (ehdr_layout c))
    × (eh.e_phnum ≡ phnum)
    × (eh.e_shoff ≡ shoff)
    × (eh.e_shnum ≡ 1)
    × (eh.e_shstrndx ≡ 0)

pub IsEhdr-encode :
    (c : Class) (f : File) (entry phnum shoff : ℕ)
    → entry < 2 ^ bits c
    → phnum < 2 ^ 16
    → shoff < 2 ^ bits c
    → Stored f.byte 0 (encode 0 (ehdr_layout c) (ehdr_values c entry phnum shoff))
    → IsEhdr c entry phnum shoff (ehdr c f)
unfolding ehdr field_width size_of
IsEhdr-encode elf32 f entry phnum shoff e n o h =
    let at = λ (i v : ℕ).
      field-encode f.byte 0 (ehdr_layout elf32) (ehdr_values elf32 entry phnum shoff) i v
        (ehdr-IsPositive elf32) h in
    (
      at 4 (entry) refl (omega arith) (omega arith),
      at 5 (52) refl (omega arith) (omega arith),
      at 10 (phnum) refl (omega arith) (omega arith),
      at 6 (shoff) refl (omega arith) (omega arith),
      at 12 (1) refl (omega arith) (omega arith),
      at 13 (0) refl (omega arith) (omega arith),
    )
IsEhdr-encode elf64 f entry phnum shoff e n o h =
    let at = λ (i v : ℕ).
      field-encode f.byte 0 (ehdr_layout elf64) (ehdr_values elf64 entry phnum shoff) i v
        (ehdr-IsPositive elf64) h in
    (
      at 4 (entry) refl (omega arith) (omega arith),
      at 5 (64) refl (omega arith) (omega arith),
      at 10 (phnum) refl (omega arith) (omega arith),
      at 6 (shoff) refl (omega arith) (omega arith),
      at 12 (1) refl (omega arith) (omega arith),
      at 13 (0) refl (omega arith) (omega arith),
    )

-- The fields of a program header that the loader uses.
abbrev pub IsPhdr : ℕ → Segment → Phdr → Type 0
IsPhdr offset s ph =
    (ph.p_type ≡ 1)
    × (ph.p_offset ≡ offset)
    × (ph.p_paddr ≡ s.address)
    × (ph.p_filesz ≡ length s.payload)
    × (ph.p_memsz ≡ s.memsz)

pub IsPhdr-encode :
    (c : Class) (f : File) (a offset : ℕ) (s : Segment)
    → IsSegment c s
    → offset < 2 ^ bits c
    → Stored f.byte a (encode 0 (phdr_layout c) (phdr_values c offset s))
    → IsPhdr offset s (phdr_at c f a)
unfolding phdr_at phdr32_at phdr64_at field_width
IsPhdr-encode elf32 f a offset s (address, full, le, memsz, small) o h =
    let at = λ (i v : ℕ).
      field-encode f.byte a (phdr_layout elf32) (phdr_values elf32 offset s) i v
        (phdr-IsPositive elf32) h in
    (
      at 0 (1) refl (omega arith) (omega arith),
      at 1 (offset) refl (omega arith) (omega arith),
      at 3 (s.address) refl (omega arith) (omega arith),
      at 4 (length s.payload) refl (omega arith) (omega arith),
      at 5 (s.memsz) refl (omega arith) (omega arith),
    )
IsPhdr-encode elf64 f a offset s (address, full, le, memsz, small) o h =
    let at = λ (i v : ℕ).
      field-encode f.byte a (phdr_layout elf64) (phdr_values elf64 offset s) i v
        (phdr-IsPositive elf64) h in
    (
      at 0 (1) refl (omega arith) (omega arith),
      at 2 (offset) refl (omega arith) (omega arith),
      at 4 (s.address) refl (omega arith) (omega arith),
      at 5 (length s.payload) refl (omega arith) (omega arith),
      at 6 (s.memsz) refl (omega arith) (omega arith),
    )

-- The fields of the section header that the loader uses.
abbrev pub IsShdr : ℕ → Shdr → Type 0
IsShdr offset sh = (sh.sh_name ≡ 1) × (sh.sh_type ≡ 3) × (sh.sh_offset ≡ offset) × (sh.sh_size ≡ 11)

pub IsShdr-encode :
    (c : Class) (f : File) (a offset : ℕ)
    → offset < 2 ^ bits c
    → Stored f.byte a (encode 0 (shdr_layout c) (shdr_values offset))
    → IsShdr offset (shdr_at c f a)
unfolding shdr_at field_width
IsShdr-encode elf32 f a offset o h =
    let at = λ (i v : ℕ).
      field-encode f.byte a (shdr_layout elf32) (shdr_values offset) i v (shdr-IsPositive elf32)
        h in
    (
      at 0 (1) refl (omega arith) (omega arith),
      at 1 (3) refl (omega arith) (omega arith),
      at 4 (offset) refl (omega arith) (omega arith),
      at 5 (11) refl (omega arith) (omega arith),
    )
IsShdr-encode elf64 f a offset o h =
    let at = λ (i v : ℕ).
      field-encode f.byte a (shdr_layout elf64) (shdr_values offset) i v (shdr-IsPositive elf64)
        h in
    (
      at 0 (1) refl (omega arith) (omega arith),
      at 1 (3) refl (omega arith) (omega arith),
      at 4 (offset) refl (omega arith) (omega arith),
      at 5 (11) refl (omega arith) (omega arith),
    )
