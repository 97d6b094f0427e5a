-- ===== src/Elf/Tests.antt =====
-- Two small files, one of each class, and what the theorems say of their loading.
use cellift_meta.Base.{
  every_below, every_below-at, not, ==_iff, ◌==◌, ℕ, ◌+◌, ◌≡◌, refl, Option, none, some, List, [],
  ◌∷◌, ◌++◌, length, place, Mem, map, arith, ◌<◌, ◌≤◌, store, inl, inr, true, ◌||◌, ◌&&◌, leb,
  if◌then◌else◌,
}
use cellift_meta.Base.Run.{Run, returned, aborted, strayed}
use cellift_meta.Elf.{File, elf32, elf64, Loader, unloaded}
use cellift_meta.Elf.Read.{class_of, mapped, read_elf}
use cellift_meta.Elf.Queue.{read_section}
use cellift_meta.Elf.Queue.Drain.{loader_source, finished}
use cellift_meta.Source.{drain}
use cellift_meta.Elf.Queue.Copy.{overlay, read_section-fetched}
use cellift_meta.Elf.Read.Loaded.{
  segments, first_at, read_elf-aborted, read_elf-IsLoadedWith, read_elf-read_section,
}
use cellift_meta.Elf.Read.Loadable.{IsLoadable, read_elf-drain}
use cellift_meta.Elf.Read.Strayed.{read_elf-strayed}
use cellift_meta.Elf.Header.Bytes.{
  structs_bytes, ehdr_bytes32, ehdr_bytes64, shdr_bytes32, shdr_bytes64, phdr_bytes32, phdr_bytes64,
  sym_bytes32, sym_bytes64,
}
use cellift_meta.Elf.Read.Backed.{IsBacked, read_elf-IsBacked}
use cellift_meta.Elf.Header.{Ehdr, Shdr, Phdr, ehdr, is_elf32, is_elf64, shdr_at, phdr_at, sym_at}
use cellift_meta.Elf.Layout.{
  size_of, elf32_ehdr, elf64_ehdr, elf32_shdr, elf64_shdr, elf32_phdr, elf64_phdr, elf32_sym,
  elf64_sym,
}
use cellift_meta.Elf.Layout.Encode.{le}
use cellift_meta.Elf.Segments.{load_segments, phdr_offset}
use cellift_meta.Elf.Segments.Spec.{headers, with_data, IsLoadedWith}
use cellift_meta.Elf.Segments.Safe.{load_segments_total}
use cellift_meta.Elf.Sections.{load_sections, load_symbols, shdr_offset}
use cellift_meta.Elf.Sections.Total.{load_sections_total}
use cellift_meta.Elf.Sections.Symbols.{section_headers, AreSymbols, load_symbols-AreSymbols}

abbrev magic : ℕ → List ℕ
magic class = 0x7f ∷ b'E' ∷ b'L' ∷ b'F' ∷ class ∷ 1 ∷ 1 ∷ 0 ∷ le 8 0

-- A segment of three bytes in five at 0x8000, the string table of the section names and its header.
file64_bytes : List ℕ
unfolding le
file64_bytes =
    magic 2
    ++ (le 2 2
        ++ (le 2 243
            ++ (le 4 1
                ++ (le 8 0x8000
                    ++ (le 8 64
                        ++ (le 8 136
                            ++ (le 4 0
                                ++ (le 2 64
                                    ++ (le 2 56
                                        ++ (le 2 1
                                            ++ (le 2 64
                                                ++ (le 2 1
                                                    ++ (le 2 0
                                                        ++ (le 4 1
                                                            ++ (le 4 5
                                                            ++ (le 8 120
                                                            ++ (le 8 0x8000
                                                            ++ (le 8 0x8000
                                                            ++ (le 8 3
                                                            ++ (le 8 5
                                                            ++ (le 8 4096
                                                            ++ (7 ∷ 8 ∷ 9 ∷ 0 ∷ b'.' ∷ b's' ∷ b'h'
                                                            ∷ b's' ∷ b't' ∷ b'r' ∷ b't' ∷ b'a'
                                                            ∷ b'b' ∷ 0 ∷ 0 ∷ 0 ∷ []
                                                            ++ (le 4 1
                                                            ++ (le 4 3
                                                            ++ (le 8 0
                                                            ++ (le 8 0
                                                            ++ (le 8 123
                                                            ++ (le 8 11
                                                            ++ (le 4 0
                                                            ++ (le 4 0
                                                            ++ (le 8 1
                                                            ++ le 8 0)))))))))))))))))))))))))))))))

file64 : File
unfolding file64_bytes
file64 = record { size = length file64_bytes; byte = place file64_bytes }

size_run : file64.size ≡ 200
unfolding file64
size_run = refl

loads : Run Loader → Option (List (ℕ × ℕ) × Option (List ℕ) × ℕ)
loads (returned st) = some (st.sections, st.mems 0x8000, st.entry)
loads _ = none

file64_run :
    loads (read_elf (mapped file64) unloaded)
    ≡ some ((0x8000, 5) ∷ [], some (7 ∷ 8 ∷ 9 ∷ []), 0x8000)
unfolding loads file64 read_elf place
file64_run = refl

structs_bytes_example :
    (ehdr elf32 file64 ≡ ehdr_bytes32 file64 0)
    × (ehdr elf64 file64 ≡ ehdr_bytes64 file64 0)
    × (shdr_at elf32 file64 64 ≡ shdr_bytes32 file64 64)
    × (shdr_at elf64 file64 64 ≡ shdr_bytes64 file64 64)
    × (phdr_at elf32 file64 64 ≡ phdr_bytes32 file64 64)
    × (phdr_at elf64 file64 64 ≡ phdr_bytes64 file64 64)
    × (sym_at elf32 file64 64 ≡ sym_bytes32 file64 64)
    × (sym_at elf64 file64 64 ≡ sym_bytes64 file64 64)
    × (map size_of (
          elf32_ehdr ∷ elf64_ehdr ∷ elf32_shdr ∷ elf64_shdr ∷ elf32_phdr ∷ elf64_phdr ∷ elf32_sym
          ∷ elf64_sym ∷ [])
        ≡ 52 ∷ 64 ∷ 40 ∷ 64 ∷ 32 ∷ 56 ∷ 16 ∷ 24 ∷ [])
structs_bytes_example = structs_bytes file64 64

abbrev two_sections : Loader
two_sections = record unloaded {
  sections = (0x8000, 5) ∷ (0x9000, 4) ∷ [];
  mems = store (store (λ _. none) 0x8000 (some (7 ∷ 8 ∷ 9 ∷ []))) 0x9000 (some (1 ∷ []));
}

read_section-fetched_example :
    read_section two_sections 0x8000 (λ _. 5) ≡ returned (overlay (7 ∷ 8 ∷ 9 ∷ []) (λ _. 5))
read_section-fetched_example = read_section-fetched two_sections 0x8000 (λ _. 5)

-- The program header of the file.
abbrev code : Phdr
code = record {
  p_type = 1;
  p_flags = 5;
  p_offset = 120;
  p_vaddr = 0x8000;
  p_paddr = 0x8000;
  p_filesz = 3;
  p_memsz = 5;
  p_align = 4096;
}

header64 : Ehdr
unfolding ehdr file64 place
header64 = ehdr elf64 file64

header64_run : (header64.e_phoff ≡ 64) × (header64.e_phnum ≡ 1)
unfolding header64
header64_run = (refl, refl)

load_segments_total_example :
    (st' : Loader) × (load_segments elf64 file64 header64 1 0 unloaded ≡ returned st')
    × IsLoadedWith file64 (with_data (headers elf64 file64 header64 1 0)) unloaded st'
unfolding file64 header64 headers phdr_at phdr_offset size_of place
load_segments_total_example =
    load_segments_total elf64 file64 header64 1 0 unloaded (omega arith) (omega arith)
      (inr (omega arith, omega arith, omega arith), tt)

-- The same file with a segment of nine bytes at the offset 2^64 - 8.
wrapping : File
unfolding file64
wrapping = record file64 {
  byte = λ i.
      if i == 96
      then 9
      else if i == 72
      then 0xf8
      else if leb 73 i && leb i 79
      then 0xff
      else file64.byte i;
}

read_elf-strayed_example : read_elf (mapped wrapping) unloaded ≡ strayed
unfolding wrapping file64 is_elf32 is_elf64 headers phdr_at phdr_offset ehdr size_of place
read_elf-strayed_example =
    read_elf-strayed wrapping 0 unloaded (omega arith) refl (omega arith) (omega arith)
      (omega arith) tt (refl, omega arith, omega arith, omega arith, omega arith)

-- The same file with the class 3.
classless : File
unfolding file64
classless = record file64 { byte = λ i. if i == 4 then 3 else file64.byte i }

read_elf-aborted_example : read_elf (mapped classless) unloaded ≡ aborted
unfolding classless
read_elf-aborted_example =
    read_elf-aborted (mapped classless) unloaded (λ (long, b0, b1, b2, b3, b4). elim b4 [
      | inl one ↦ absurd (omega arith)
      | inr two ↦ absurd (omega arith)
    ])

read_elf-read_section_example :
    (st : Loader) × (buf' : Mem) × (read_elf (mapped file64) unloaded ≡ returned st)
    × (read_section st 0x8000 (λ _. 5) ≡ returned buf')
    × ((k : ℕ) → k < 3 → buf' k ≡ file64.byte (120 + k))
    × ((k : ℕ) → 3 ≤ k → buf' k ≡ 5)
unfolding file64 is_elf32 is_elf64 headers with_data first_at phdr_at phdr_offset ehdr size_of
    load_sections place
read_elf-read_section_example =
    read_elf-read_section file64 [] 0x8000 code (λ _. 5) (omega arith) refl (omega arith)
      (omega arith) (inr (omega arith, omega arith, omega arith), tt) refl refl

loaded64 : (st : Loader) × (read_elf (mapped file64) unloaded ≡ returned st)
loaded64 = let (st, buf', run, copied, front, back) = read_elf-read_section_example in (st, run)

read_elf-IsLoadedWith_example :
    ((is_elf32 file64 || is_elf64 file64) ≡ true)
    × (size_of elf64_ehdr ≤ file64.size)
    × IsLoadedWith file64
        (segments file64)
        (record unloaded { entry = (ehdr (class_of file64) file64).e_entry })
        loaded64.0
read_elf-IsLoadedWith_example = read_elf-IsLoadedWith file64 unloaded loaded64.0 loaded64.1

read_elf-IsBacked_example : IsBacked loaded64.0
read_elf-IsBacked_example = read_elf-IsBacked file64 unloaded loaded64.0 tt loaded64.1

name_graphic : (k : ℕ) → k < 9 → ¬ (file64.byte (124 + k) ≡ 0)
unfolding file64 place every_below
name_graphic k less e =
    let shown = every_below-at 9 (λ i. not (file64.byte (124 + i) == 0)) k refl less in
    let null = (==_iff (file64.byte (124 + k)) 0).1 e in absurd (cc)

load_sections_total_example : load_sections elf64 file64 header64 ≡ returned []
unfolding file64 header64 section_headers shdr_at place size_of shdr_offset
load_sections_total_example =
    load_sections_total elf64 file64 header64 (omega arith) (omega arith) (omega arith)
      (omega arith) ((9, (omega arith, refl, name_graphic), omega arith), tt) (inl refl, tt)

-- A symbol `m` of value 0x40, and its string table.
abbrev symbol_file : File
symbol_file = record {
  size = 19;
  byte =
      place (1 ∷ 0 ∷ 0 ∷ 0 ∷ 0x40 ∷ 0 ∷ 0 ∷ 0 ∷ 0 ∷ 0 ∷ 0 ∷ 0 ∷ 0 ∷ 0 ∷ 0 ∷ 0 ∷ 0 ∷ b'm' ∷ 0 ∷ []);
}

abbrev table_at : ℕ → ℕ → Shdr
table_at offset size = record {
  sh_name = 0;
  sh_type = 3;
  sh_flags = 0;
  sh_addr = 0;
  sh_offset = offset;
  sh_size = size;
  sh_link = 0;
  sh_info = 0;
  sh_addralign = 1;
  sh_entsize = 0;
}

load_symbols-AreSymbols_example :
    AreSymbols elf32 symbol_file (table_at 16 3) (table_at 0 16) 1 0 [] ((b'm' ∷ [], 0x40) ∷ [])
unfolding load_symbols place sym_at size_of
load_symbols-AreSymbols_example =
    load_symbols-AreSymbols elf32 symbol_file (table_at 16 3) (table_at 0 16) 1 0 []
      ((b'm' ∷ [], 0x40) ∷ []) refl

file64-IsLoadable : IsLoadable file64
unfolding file64 is_elf32 is_elf64 headers phdr_at phdr_offset ehdr size_of place section_headers
    shdr_at shdr_offset
file64-IsLoadable = (
  omega arith,
  refl,
  (
    omega arith,
    (omega arith, (inr (omega arith, omega arith, omega arith), tt)),
    (
      omega arith,
      omega arith,
      omega arith,
      ((9, (omega arith, refl, name_graphic), omega arith), tt),
      (inl refl, tt),
    ),
  ),
)

read_elf-drain_example :
    (st : Loader) × (read_elf (mapped file64) unloaded ≡ returned st)
    × (drain loader_source 2 st ≡ returned (some ((0x8000, 5) ∷ [], finished st)))
    × IsBacked st
unfolding file64 is_elf32 headers with_data phdr_at phdr_offset ehdr size_of place
read_elf-drain_example = read_elf-drain file64 2 file64-IsLoadable (omega arith)
