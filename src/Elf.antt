-- ===== src/Elf.antt =====
-- design-processing/common/dv/elfloader.cc: the loader that a simulation calls to fill its memory.
-- A file is its size and its bytes. Reads of a struct or a string that do not stay inside the file
-- are `strayed`; offsets and addresses wrap as their types do. The allocation of `zeros` succeeds
-- up to the largest size that a vector can have. `write` and `read_section` count bytes in an `int`,
-- and `section_index` is an `int`: they are modelled for data below 2^31 bytes and for fewer than
-- 2^31 sections, where these do not overflow.
pub mod Layout
pub mod Header
pub mod Segments
pub mod Sections
pub mod Read
pub mod Queue
pub mod Image
pub mod Tests
use cellift_meta.Base.{ℕ, ◌≤◌, ◌+◌, ◌^◌, Bool, List, [], Option, none, leb}

pub record File : Type 0 where
  pub size : ℕ
  pub byte : ℕ → ℕ

-- Which of the two sets of structs a file uses.
pub data Class : Type 0 where
  elf32 elf64 : Class

-- The bits of an address.
abbrev pub bits : Class → ℕ
bits elf32 = 32
bits elf64 = 64

-- `n` bytes from the offset `a` on stay inside the file.
abbrev pub inside : File → ℕ → ℕ → Bool
inside f a n = leb (a + n) f.size

-- `std::map<uint64_t, std::vector<uint8_t>>`
abbrev pub Mems : Type 0
Mems = ℕ → Option (List ℕ)

-- The variables of the loader. A map from names is a list with the newest binding in front.
pub record Loader : Type 0 where
  pub sections : List (ℕ × ℕ)
  pub symbols : List (List ℕ × ℕ)
  pub mems : Mems
  pub entry : ℕ
  pub section_index : ℕ

abbrev pub unloaded : Loader
unloaded = record { sections = []; symbols = []; mems = λ _. none; entry = 0; section_index = 0 }
