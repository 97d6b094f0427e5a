-- ===== src/Elf/Header.antt =====
-- The structs of elf.h as the loader reads them from a file, and the test of the magic number.
pub mod Bytes
use cellift_meta.Base.{ℕ, Bool, ◌&&◌, List, ◌==◌}
use cellift_meta.Elf.{File, Class, elf32, elf64}
use cellift_meta.Elf.Layout.{
  Field, field, elf32_ehdr, elf64_ehdr, elf32_shdr, elf64_shdr, elf32_phdr, elf64_phdr, elf32_sym,
  elf64_sym,
}

pub record Ehdr : Type 0 where
  pub e_type : ℕ
  pub e_machine : ℕ
  pub e_version : ℕ
  pub e_entry : ℕ
  pub e_phoff : ℕ
  pub e_shoff : ℕ
  pub e_flags : ℕ
  pub e_ehsize : ℕ
  pub e_phentsize : ℕ
  pub e_phnum : ℕ
  pub e_shentsize : ℕ
  pub e_shnum : ℕ
  pub e_shstrndx : ℕ

pub record Shdr : Type 0 where
  pub sh_name : ℕ
  pub sh_type : ℕ
  pub sh_flags : ℕ
  pub sh_addr : ℕ
  pub sh_offset : ℕ
  pub sh_size : ℕ
  pub sh_link : ℕ
  pub sh_info : ℕ
  pub sh_addralign : ℕ
  pub sh_entsize : ℕ

pub record Phdr : Type 0 where
  pub p_type : ℕ
  pub p_flags : ℕ
  pub p_offset : ℕ
  pub p_vaddr : ℕ
  pub p_paddr : ℕ
  pub p_filesz : ℕ
  pub p_memsz : ℕ
  pub p_align : ℕ

pub record Sym : Type 0 where
  pub st_name : ℕ
  pub st_info : ℕ
  pub st_other : ℕ
  pub st_shndx : ℕ
  pub st_value : ℕ
  pub st_size : ℕ

abbrev pub ehdr_layout : Class → List Field
ehdr_layout elf32 = elf32_ehdr
ehdr_layout elf64 = elf64_ehdr

abbrev pub shdr_layout : Class → List Field
shdr_layout elf32 = elf32_shdr
shdr_layout elf64 = elf64_shdr

abbrev pub phdr_layout : Class → List Field
phdr_layout elf32 = elf32_phdr
phdr_layout elf64 = elf64_phdr

abbrev pub sym_layout : Class → List Field
sym_layout elf32 = elf32_sym
sym_layout elf64 = elf64_sym

-- `hdr.e_ident[i]`
abbrev pub e_ident : File → ℕ → ℕ
e_ident f i = f.byte i

-- `IS_ELF`, `IS_ELF32` and `IS_ELF64`
unfoldable pub is_elf : File → Bool
is_elf f =
    e_ident f 0 == 0x7f && (e_ident f 1 == b'E' && (e_ident f 2 == b'L' && (e_ident f 3 == b'F')))

unfoldable pub is_elf32 : File → Bool
unfolding is_elf
is_elf32 f = is_elf f && (e_ident f 4 == 1)

unfoldable pub is_elf64 : File → Bool
unfolding is_elf
is_elf64 f = is_elf f && (e_ident f 4 == 2)

-- `*(ehdr_t*)buf`; the fields have the same order in both classes.
unfoldable pub ehdr : Class → File → Ehdr
unfolding field
ehdr c f =
    let at = λ (i : ℕ). field (ehdr_layout c) f.byte 0 i in
    record {
      e_type = at 1;
      e_machine = at 2;
      e_version = at 3;
      e_entry = at 4;
      e_phoff = at 5;
      e_shoff = at 6;
      e_flags = at 7;
      e_ehsize = at 8;
      e_phentsize = at 9;
      e_phnum = at 10;
      e_shentsize = at 11;
      e_shnum = at 12;
      e_shstrndx = at 13;
    }

-- A section header at the offset `a`; the fields have the same order in both classes.
unfoldable pub shdr_at : Class → File → ℕ → Shdr
unfolding field
shdr_at c f a =
    let at = λ (i : ℕ). field (shdr_layout c) f.byte a i in
    record {
      sh_name = at 0;
      sh_type = at 1;
      sh_flags = at 2;
      sh_addr = at 3;
      sh_offset = at 4;
      sh_size = at 5;
      sh_link = at 6;
      sh_info = at 7;
      sh_addralign = at 8;
      sh_entsize = at 9;
    }

unfoldable pub phdr32_at : File → ℕ → Phdr
unfolding field
phdr32_at f a =
    let at = λ (i : ℕ). field elf32_phdr f.byte a i in
    record {
      p_type = at 0;
      p_offset = at 1;
      p_vaddr = at 2;
      p_paddr = at 3;
      p_filesz = at 4;
      p_memsz = at 5;
      p_flags = at 6;
      p_align = at 7;
    }

unfoldable pub phdr64_at : File → ℕ → Phdr
unfolding field
phdr64_at f a =
    let at = λ (i : ℕ). field elf64_phdr f.byte a i in
    record {
      p_type = at 0;
      p_flags = at 1;
      p_offset = at 2;
      p_vaddr = at 3;
      p_paddr = at 4;
      p_filesz = at 5;
      p_memsz = at 6;
      p_align = at 7;
    }

unfoldable pub phdr_at : Class → File → ℕ → Phdr
unfolding phdr32_at phdr64_at
phdr_at elf32 f a = phdr32_at f a
phdr_at elf64 f a = phdr64_at f a

unfoldable pub sym32_at : File → ℕ → Sym
unfolding field
sym32_at f a =
    let at = λ (i : ℕ). field elf32_sym f.byte a i in
    record {
      st_name = at 0;
      st_value = at 1;
      st_size = at 2;
      st_info = at 3;
      st_other = at 4;
      st_shndx = at 5;
    }

unfoldable pub sym64_at : File → ℕ → Sym
unfolding field
sym64_at f a =
    let at = λ (i : ℕ). field elf64_sym f.byte a i in
    record {
      st_name = at 0;
      st_info = at 1;
      st_other = at 2;
      st_shndx = at 3;
      st_value = at 4;
      st_size = at 5;
    }

unfoldable pub sym_at : Class → File → ℕ → Sym
unfolding sym32_at sym64_at
sym_at elf32 f a = sym32_at f a
sym_at elf64 f a = sym64_at f a
