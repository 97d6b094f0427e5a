-- ===== src/Elf/Layout.antt =====
-- The structs of design-processing/common/dv/elf.h, which elfloader.cc repeats, as C++ lays them out:
-- each scalar at the next multiple of its width, in the order of the fields.
pub mod Fields
pub mod Encode
use cellift_meta.Base.{ℕ, zero, suc, ◌+◌, ◌-◌, ◌*◌, ◌/◌, List, [], ◌∷◌, Mem, ltb, if◌then◌else◌}
use cellift_meta.CString.{load_word}

-- A scalar of some width in bytes, or an array of bytes.
pub data Field : Type 0 where
  scalar : ℕ → Field
  bytes : ℕ → Field

abbrev pub u8 : Field
u8 = scalar 1

abbrev pub u16 : Field
u16 = scalar 2

abbrev pub u32 : Field
u32 = scalar 4

abbrev pub u64 : Field
u64 = scalar 8

abbrev pub width : Field → ℕ
width (scalar w) = w
width (bytes n) = n

abbrev pub alignment : Field → ℕ
alignment (scalar w) = w
alignment (bytes n) = 1

unfoldable pub align_up : ℕ → ℕ → ℕ
align_up place a = (place + (a - 1)) / a * a

-- Where the field number `i` starts, when `place` is free.
unfoldable pub offset_from : ℕ → List Field → ℕ → ℕ
unfolding align_up
offset_from place [] i = place
offset_from place (fd ∷ fds) zero = align_up place (alignment fd)
offset_from place (fd ∷ fds) (suc i) = offset_from (align_up place (alignment fd) + width fd) fds i

unfoldable pub end_from : ℕ → List Field → ℕ
unfolding align_up
end_from place [] = place
end_from place (fd ∷ fds) = end_from (align_up place (alignment fd) + width fd) fds

unfoldable pub widest : List Field → ℕ
widest [] = 1
widest (fd ∷ fds) = let rest = widest fds in if ltb rest (alignment fd) then alignment fd else rest

unfoldable pub size_of : List Field → ℕ
unfolding end_from widest align_up
size_of fds = align_up (end_from 0 fds) (widest fds)

unfoldable pub field_width : List Field → ℕ → ℕ
field_width [] i = 0
field_width (fd ∷ fds) zero = width fd
field_width (fd ∷ fds) (suc i) = field_width fds i

-- The field number `i` of a struct at the address `a`.
unfoldable pub field : List Field → Mem → ℕ → ℕ → ℕ
unfolding offset_from field_width load_word
field fds m a i = load_word m (a + offset_from 0 fds i) (field_width fds i)

-- `e_ident`, `e_type`, `e_machine`, `e_version`, `e_entry`, `e_phoff`, `e_shoff`, `e_flags`,
-- `e_ehsize`, `e_phentsize`, `e_phnum`, `e_shentsize`, `e_shnum`, `e_shstrndx`
abbrev pub elf32_ehdr : List Field
elf32_ehdr =
    bytes 16 ∷ u16 ∷ u16 ∷ u32 ∷ u32 ∷ u32 ∷ u32 ∷ u32 ∷ u16 ∷ u16 ∷ u16 ∷ u16 ∷ u16 ∷ u16 ∷ []

abbrev pub elf64_ehdr : List Field
elf64_ehdr =
    bytes 16 ∷ u16 ∷ u16 ∷ u32 ∷ u64 ∷ u64 ∷ u64 ∷ u32 ∷ u16 ∷ u16 ∷ u16 ∷ u16 ∷ u16 ∷ u16 ∷ []

-- `sh_name`, `sh_type`, `sh_flags`, `sh_addr`, `sh_offset`, `sh_size`, `sh_link`, `sh_info`,
-- `sh_addralign`, `sh_entsize`
abbrev pub elf32_shdr : List Field
elf32_shdr = u32 ∷ u32 ∷ u32 ∷ u32 ∷ u32 ∷ u32 ∷ u32 ∷ u32 ∷ u32 ∷ u32 ∷ []

abbrev pub elf64_shdr : List Field
elf64_shdr = u32 ∷ u32 ∷ u64 ∷ u64 ∷ u64 ∷ u64 ∷ u32 ∷ u32 ∷ u64 ∷ u64 ∷ []

-- `p_type`, `p_offset`, `p_vaddr`, `p_paddr`, `p_filesz`, `p_memsz`, `p_flags`, `p_align`
abbrev pub elf32_phdr : List Field
elf32_phdr = u32 ∷ u32 ∷ u32 ∷ u32 ∷ u32 ∷ u32 ∷ u32 ∷ u32 ∷ []

-- `p_type`, `p_flags`, `p_offset`, `p_vaddr`, `p_paddr`, `p_filesz`, `p_memsz`, `p_align`
abbrev pub elf64_phdr : List Field
elf64_phdr = u32 ∷ u32 ∷ u64 ∷ u64 ∷ u64 ∷ u64 ∷ u64 ∷ u64 ∷ []

-- `st_name`, `st_value`, `st_size`, `st_info`, `st_other`, `st_shndx`
abbrev pub elf32_sym : List Field
elf32_sym = u32 ∷ u32 ∷ u32 ∷ u8 ∷ u8 ∷ u16 ∷ []

-- `st_name`, `st_info`, `st_other`, `st_shndx`, `st_value`, `st_size`
abbrev pub elf64_sym : List Field
elf64_sym = u32 ∷ u8 ∷ u8 ∷ u16 ∷ u64 ∷ u64 ∷ []
