-- ===== src/Elf/Read.antt =====
-- `read_elf` and `LOAD_ELF`.
pub mod Loaded
pub mod Backed
pub mod Loadable
pub mod Strayed
use cellift_meta.Base.{ℕ, ◌+◌, ◌*◌, ◌%◌, ◌^◌, Bool, true, false, ◌||◌, List, leb, if◌then◌else◌}
use cellift_meta.Base.Run.{Run, returned, aborted, ◌>>=◌, ◌>>◌, assert}
use cellift_meta.Elf.{File, Class, elf32, elf64, Loader}
use cellift_meta.Elf.Layout.{size_of, elf64_ehdr}
use cellift_meta.Elf.Header.{Ehdr, ehdr, is_elf32, is_elf64, phdr_layout}
use cellift_meta.Elf.Segments.{load_segments}
use cellift_meta.Elf.Sections.{load_sections}

-- `LOAD_ELF`: the loader behind it, and the map of symbols that shadows the loader's.
unfoldable pub load_elf : Class → File → Loader → Run (Loader × List (List ℕ × ℕ))
unfolding load_segments load_sections ehdr size_of
load_elf c f st = do
  let eh = ehdr c f
  let st1 = record st { entry = eh.e_entry }
  assert (leb ((eh.e_phoff + eh.e_phnum * size_of (phdr_layout c)) % 2 ^ 64) f.size)
  st2 ← load_segments c f eh eh.e_phnum 0 st1
  symbols ← load_sections c f eh
  returned (st2, symbols)

-- What the system makes of the file name: no file descriptor, a file that `fstat` or `mmap` refuses,
-- or the contents of the file.
pub data Opened : Type 0 where
  absent : Opened
  unreadable : Opened
  mapped : File → Opened

-- The structs that `LOAD_ELF` is used with.
abbrev pub class_of : File → Class
class_of f = if is_elf32 f then elf32 else elf64

-- `read_elf` on a file that is mapped.
unfoldable pub read_file : File → Loader → Run Loader
unfolding load_elf is_elf32 is_elf64 size_of
read_file f st = do
  assert (leb (size_of elf64_ehdr) f.size)
  assert (is_elf32 f || is_elf64 f)
  (st', symbols) ← load_elf (class_of f) f st
  returned st'

-- The local map of symbols ends with the call.
unfoldable pub read_elf : Opened → Loader → Run Loader
unfolding read_file
read_elf absent st = aborted
read_elf unreadable st = aborted
read_elf (mapped f) st = read_file f st
