-- ===== src/Elf/Header/Bytes.antt =====
-- Where the bytes of each field of the structs of design-processing/common/dv/elf.h are.
use cellift_meta.Base.{ℕ, ◌+◌, ◌≡◌, refl, [], ◌∷◌, map}
use cellift_meta.CString.{load_word}
use cellift_meta.Elf.{File, elf32, elf64}
use cellift_meta.Elf.Layout.{
  size_of, elf32_ehdr, elf64_ehdr, elf32_shdr, elf64_shdr, elf32_phdr, elf64_phdr, elf32_sym,
  elf64_sym,
}
use cellift_meta.Elf.Header.{
  Ehdr, Shdr, Phdr, Sym, ehdr, shdr_at, phdr_at, phdr32_at, phdr64_at, sym_at, sym32_at, sym64_at,
}

abbrev pub ehdr_bytes32 : File → ℕ → Ehdr
ehdr_bytes32 f a = record {
  e_type = load_word f.byte (a + 16) 2;
  e_machine = load_word f.byte (a + 18) 2;
  e_version = load_word f.byte (a + 20) 4;
  e_entry = load_word f.byte (a + 24) 4;
  e_phoff = load_word f.byte (a + 28) 4;
  e_shoff = load_word f.byte (a + 32) 4;
  e_flags = load_word f.byte (a + 36) 4;
  e_ehsize = load_word f.byte (a + 40) 2;
  e_phentsize = load_word f.byte (a + 42) 2;
  e_phnum = load_word f.byte (a + 44) 2;
  e_shentsize = load_word f.byte (a + 46) 2;
  e_shnum = load_word f.byte (a + 48) 2;
  e_shstrndx = load_word f.byte (a + 50) 2;
}

abbrev pub ehdr_bytes64 : File → ℕ → Ehdr
ehdr_bytes64 f a = record {
  e_type = load_word f.byte (a + 16) 2;
  e_machine = load_word f.byte (a + 18) 2;
  e_version = load_word f.byte (a + 20) 4;
  e_entry = load_word f.byte (a + 24) 8;
  e_phoff = load_word f.byte (a + 32) 8;
  e_shoff = load_word f.byte (a + 40) 8;
  e_flags = load_word f.byte (a + 48) 4;
  e_ehsize = load_word f.byte (a + 52) 2;
  e_phentsize = load_word f.byte (a + 54) 2;
  e_phnum = load_word f.byte (a + 56) 2;
  e_shentsize = load_word f.byte (a + 58) 2;
  e_shnum = load_word f.byte (a + 60) 2;
  e_shstrndx = load_word f.byte (a + 62) 2;
}

abbrev pub shdr_bytes32 : File → ℕ → Shdr
shdr_bytes32 f a = record {
  sh_name = load_word f.byte (a + 0) 4;
  sh_type = load_word f.byte (a + 4) 4;
  sh_flags = load_word f.byte (a + 8) 4;
  sh_addr = load_word f.byte (a + 12) 4;
  sh_offset = load_word f.byte (a + 16) 4;
  sh_size = load_word f.byte (a + 20) 4;
  sh_link = load_word f.byte (a + 24) 4;
  sh_info = load_word f.byte (a + 28) 4;
  sh_addralign = load_word f.byte (a + 32) 4;
  sh_entsize = load_word f.byte (a + 36) 4;
}

abbrev pub shdr_bytes64 : File → ℕ → Shdr
shdr_bytes64 f a = record {
  sh_name = load_word f.byte (a + 0) 4;
  sh_type = load_word f.byte (a + 4) 4;
  sh_flags = load_word f.byte (a + 8) 8;
  sh_addr = load_word f.byte (a + 16) 8;
  sh_offset = load_word f.byte (a + 24) 8;
  sh_size = load_word f.byte (a + 32) 8;
  sh_link = load_word f.byte (a + 40) 4;
  sh_info = load_word f.byte (a + 44) 4;
  sh_addralign = load_word f.byte (a + 48) 8;
  sh_entsize = load_word f.byte (a + 56) 8;
}

abbrev pub phdr_bytes32 : File → ℕ → Phdr
phdr_bytes32 f a = record {
  p_type = load_word f.byte (a + 0) 4;
  p_flags = load_word f.byte (a + 24) 4;
  p_offset = load_word f.byte (a + 4) 4;
  p_vaddr = load_word f.byte (a + 8) 4;
  p_paddr = load_word f.byte (a + 12) 4;
  p_filesz = load_word f.byte (a + 16) 4;
  p_memsz = load_word f.byte (a + 20) 4;
  p_align = load_word f.byte (a + 28) 4;
}

abbrev pub phdr_bytes64 : File → ℕ → Phdr
phdr_bytes64 f a = record {
  p_type = load_word f.byte (a + 0) 4;
  p_flags = load_word f.byte (a + 4) 4;
  p_offset = load_word f.byte (a + 8) 8;
  p_vaddr = load_word f.byte (a + 16) 8;
  p_paddr = load_word f.byte (a + 24) 8;
  p_filesz = load_word f.byte (a + 32) 8;
  p_memsz = load_word f.byte (a + 40) 8;
  p_align = load_word f.byte (a + 48) 8;
}

abbrev pub sym_bytes32 : File → ℕ → Sym
sym_bytes32 f a = record {
  st_name = load_word f.byte (a + 0) 4;
  st_info = load_word f.byte (a + 12) 1;
  st_other = load_word f.byte (a + 13) 1;
  st_shndx = load_word f.byte (a + 14) 2;
  st_value = load_word f.byte (a + 4) 4;
  st_size = load_word f.byte (a + 8) 4;
}

abbrev pub sym_bytes64 : File → ℕ → Sym
sym_bytes64 f a = record {
  st_name = load_word f.byte (a + 0) 4;
  st_info = load_word f.byte (a + 4) 1;
  st_other = load_word f.byte (a + 5) 1;
  st_shndx = load_word f.byte (a + 6) 2;
  st_value = load_word f.byte (a + 8) 8;
  st_size = load_word f.byte (a + 16) 8;
}

-- The loader reads the fields of each struct from the bytes where the format of ELF files has them, with
-- the lowest byte first: those of the file header from the start of the file, and those of a section
-- header, a program header and a symbol from any offset; and the structs have the sizes of the format.
pub structs_bytes :
    (f : File) (a : ℕ)
    → (ehdr elf32 f ≡ ehdr_bytes32 f 0)
      × (ehdr elf64 f ≡ ehdr_bytes64 f 0)
      × (shdr_at elf32 f a ≡ shdr_bytes32 f a)
      × (shdr_at elf64 f a ≡ shdr_bytes64 f a)
      × (phdr_at elf32 f a ≡ phdr_bytes32 f a)
      × (phdr_at elf64 f a ≡ phdr_bytes64 f a)
      × (sym_at elf32 f a ≡ sym_bytes32 f a)
      × (sym_at elf64 f a ≡ sym_bytes64 f a)
      × (map size_of (
            elf32_ehdr ∷ elf64_ehdr ∷ elf32_shdr ∷ elf64_shdr ∷ elf32_phdr ∷ elf64_phdr ∷ elf32_sym
            ∷ elf64_sym ∷ [])
          ≡ 52 ∷ 64 ∷ 40 ∷ 64 ∷ 32 ∷ 56 ∷ 16 ∷ 24 ∷ [])
unfolding ehdr shdr_at phdr_at phdr32_at phdr64_at sym_at sym32_at sym64_at size_of
structs_bytes f a = (refl, refl, refl, refl, refl, refl, refl, refl, refl)
