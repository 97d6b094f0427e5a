-- ===== src/Elf/Image.antt =====
-- Files written from segments: the header, a program header for each segment, the data, and a table of
-- names with its section header. The loader is to get from them what was written.
pub mod Parts
pub mod Structs
pub mod Segments
pub mod Names
pub mod InOrder
pub mod Delivered
pub mod Cut
pub mod Order
pub mod Calls
pub mod Tests
use cellift_meta.Base.{
  ℕ, ◌+◌, ◌*◌, ◌^◌, ◌<◌, ◌≤◌, List, [], ◌∷◌, ◌++◌, length, place, All, Option, none, some,
  if◌then◌else◌, ◌==◌,
}
use cellift_meta.Elf.{File, Class, elf32, elf64, bits}
use cellift_meta.Elf.Layout.{size_of}
use cellift_meta.Elf.Layout.Encode.{encode}
use cellift_meta.Elf.Header.{ehdr_layout, phdr_layout, shdr_layout}
use cellift_meta.Elf.Sections.{shstrtab_name}

pub record Segment : Type 0 where
  pub address : ℕ
  pub memsz : ℕ
  pub payload : List ℕ

-- The first bytes of a file, as one number: 0x7f, `ELF`, the class, little-endian, version 1.
abbrev pub ident : Class → ℕ
ident elf32 = 0x010101464c457f
ident elf64 = 0x010102464c457f

abbrev pub ehdr_values : Class → ℕ → ℕ → ℕ → List ℕ
ehdr_values c entry phnum shoff =
    ident c
    ∷ 2
    ∷ 243
    ∷ 1
    ∷ entry
    ∷ size_of (ehdr_layout c)
    ∷ shoff
    ∷ 0
    ∷ size_of (ehdr_layout c)
    ∷ size_of (phdr_layout c)
    ∷ phnum
    ∷ size_of (shdr_layout c)
    ∷ 1
    ∷ 0
    ∷ []

abbrev pub phdr_values : Class → ℕ → Segment → List ℕ
phdr_values elf32 offset s =
    1 ∷ offset ∷ s.address ∷ s.address ∷ length s.payload ∷ s.memsz ∷ 5 ∷ 4096 ∷ []
phdr_values elf64 offset s =
    1 ∷ 5 ∷ offset ∷ s.address ∷ s.address ∷ length s.payload ∷ s.memsz ∷ 4096 ∷ []

-- The section header of the table of names.
abbrev pub shdr_values : ℕ → List ℕ
shdr_values offset = 1 ∷ 3 ∷ 0 ∷ 0 ∷ offset ∷ 11 ∷ 0 ∷ 0 ∷ 1 ∷ 0 ∷ []

-- The program headers, where the data start at `offset`.
unfoldable pub phdrs : Class → ℕ → List Segment → List ℕ
unfolding encode
phdrs c offset [] = []
phdrs c offset (s ∷ ss) =
    encode 0 (phdr_layout c) (phdr_values c offset s) ++ phdrs c (offset + length s.payload) ss

unfoldable pub contents : List Segment → List ℕ
contents [] = []
contents (s ∷ ss) = s.payload ++ contents ss

abbrev pub names : List ℕ
names = 0 ∷ (shstrtab_name ++ (0 ∷ []))

-- Where the parts of a file start.
abbrev pub data_start : Class → List Segment → ℕ
data_start c ss = size_of (ehdr_layout c) + length ss * size_of (phdr_layout c)

abbrev pub names_start : Class → List Segment → ℕ
names_start c ss = data_start c ss + length (contents ss)

abbrev pub shdr_start : Class → List Segment → ℕ
shdr_start c ss = names_start c ss + 11

abbrev pub image_size : Class → List Segment → ℕ
image_size c ss = shdr_start c ss + size_of (shdr_layout c)

unfoldable pub image : Class → ℕ → List Segment → List ℕ
unfolding encode phdrs contents
image c entry ss =
    encode 0 (ehdr_layout c) (ehdr_values c entry (length ss) (shdr_start c ss))
    ++ (phdrs c (data_start c ss) ss
        ++ (contents ss ++ (names ++ encode 0 (shdr_layout c) (shdr_values (names_start c ss)))))

abbrev pub image_file : Class → ℕ → List Segment → File
image_file c entry ss = record { size = length (image c entry ss); byte = place (image c entry ss) }

-- Data that are not empty and fit into their memory, at an address of the class.
abbrev pub IsSegment : Class → Segment → Type 0
IsSegment c s =
    (s.address < 2 ^ bits c)
    × (0 < length s.payload)
    × (length s.payload ≤ s.memsz)
    × (s.memsz < 2 ^ bits c)
    × (s.memsz < 2 ^ 63)

-- The data of the first segment at an address.
unfoldable pub data_at : ℕ → List Segment → Option (List ℕ)
data_at a [] = none
data_at a (s ∷ ss) = let rest = data_at a ss in if a == s.address then some s.payload else rest
