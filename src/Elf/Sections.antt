-- ===== src/Elf/Sections.antt =====
-- The loops of `LOAD_ELF` over the section headers and the symbols.
pub mod Symbols
pub mod Total
use cellift_meta.Base.{
  ℕ, zero, suc, ◌+◌, ◌-◌, ◌*◌, ◌/◌, ◌%◌, ◌^◌, Bool, true, false, not, ◌&&◌, List, [], ◌∷◌, leb, ltb,
  ◌==◌, if◌then◌else◌, bit_and,
}
use cellift_meta.Base.Run.{Run, returned, ◌>>=◌, ◌>>◌, assert, within}
use cellift_meta.Elf.{File, Class, bits, inside}
use cellift_meta.Elf.Layout.{size_of}
use cellift_meta.Elf.Header.{Ehdr, Shdr, Sym, shdr_layout, shdr_at, sym_layout, sym_at}
use cellift_meta.Elf.Segments.{sum_of, slice}

abbrev pub sht_progbits : ℕ
sht_progbits = 0x1

abbrev pub sht_group : ℕ
sht_group = 0x11

abbrev pub strtab_name : List ℕ
strtab_name = b'.' ∷ b's' ∷ b't' ∷ b'r' ∷ b't' ∷ b'a' ∷ b'b' ∷ []

abbrev pub shstrtab_name : List ℕ
shstrtab_name = b'.' ∷ b's' ∷ b'h' ∷ b's' ∷ b't' ∷ b'r' ∷ b't' ∷ b'a' ∷ b'b' ∷ []

abbrev pub symtab_name : List ℕ
symtab_name = b'.' ∷ b's' ∷ b'y' ∷ b'm' ∷ b't' ∷ b'a' ∷ b'b' ∷ []

-- `strcmp` of the string at `a` with a literal, `== 0`.
unfoldable pub name_is : File → ℕ → List ℕ → Run Bool
name_is f a [] = do within (inside f a 1); returned (f.byte a == 0)
name_is f a (c ∷ cs) = do
  within (inside f a 1)
  let rest = name_is f (a + 1) cs
  if f.byte a == c then rest else returned false

-- `strnlen` of the string at `a`.
unfoldable pub name_length : File → ℕ → ℕ → Run ℕ
name_length f a zero = returned 0
name_length f a (suc n) = do
  within (inside f a 1)
  let rest = (name_length f (a + 1) n >>= λ m. returned (m + 1))
  if f.byte a == 0 then returned 0 else rest

-- `sh[i]`
unfoldable pub shdr_offset : Class → Ehdr → ℕ → ℕ
shdr_offset c eh i = (eh.e_shoff + i * size_of (shdr_layout c)) % 2 ^ 64

unfoldable pub section : Class → File → Ehdr → ℕ → Run Shdr
unfolding shdr_offset shdr_at size_of
section c f eh i = do
  within (inside f (shdr_offset c eh i) (size_of (shdr_layout c)))
  returned (shdr_at c f (shdr_offset c eh i))

-- `unsigned max_len = table.sh_size - name;`
abbrev pub max_len : Shdr → ℕ → ℕ
max_len table name = (table.sh_size % 2 ^ 32 + 2 ^ 32 - name) % 2 ^ 32

-- `strtab + name`
abbrev pub name_offset : Shdr → ℕ → ℕ
name_offset table name = (table.sh_offset + name) % 2 ^ 64

-- The rest of a condition, unless its first part decides it.
abbrev pub unless : Run Bool → Run (Unit {0}) → Run (Unit {0})
unless test rest = test >>= λ b. if b then returned tt else rest

-- The `assert` on the length of a name.
unfoldable pub check_length : File → Shdr → ℕ → Run (Unit {0})
unfolding name_length
check_length f table name = do
  n ← name_length f (name_offset table name) (max_len table name)
  assert (ltb n (max_len table name))

-- The check of a section's name, and the tests that it depends on.
unfoldable pub check_name : File → Shdr → Shdr → Run (Unit {0})
unfolding name_is check_length
check_name f table sh =
    if bit_and sh.sh_type sht_group == 0
    then returned tt
    else unless (name_is f (name_offset table sh.sh_name) strtab_name) (
        unless (name_is f (name_offset table sh.sh_name) shstrtab_name)
          (check_length f table sh.sh_name))

pub record Tables : Type 0 where
  pub strtabidx : ℕ
  pub symtabidx : ℕ

-- The rest of the body of the loop: `continue`, and the two tests for the tables.
unfoldable pub note_section : File → Shdr → ℕ → Shdr → Tables → Run Tables
unfolding name_is
note_section f table i sh t = if not (bit_and sh.sh_type sht_progbits == 0) then returned t else (do
  is_strtab ← name_is f (name_offset table sh.sh_name) strtab_name
  is_symtab ← name_is f (name_offset table sh.sh_name) symtab_name
  returned (record {
    strtabidx = if is_strtab then i else t.strtabidx;
    symtabidx = if is_symtab then i else t.symtabidx;
  }))

-- The `rounds` section headers from the number `i` on.
unfoldable pub scan_sections : Class → File → Ehdr → Shdr → ℕ → ℕ → Tables → Run Tables
unfolding section check_name note_section
scan_sections c f eh table zero i t = returned t
scan_sections c f eh table (suc rounds) i t = do
  sh ← section c f eh i
  check_name f table sh
  t' ← note_section f table i sh t
  scan_sections c f eh table rounds (i + 1) t'

-- `sym[i]`
unfoldable pub sym_offset : Class → Shdr → ℕ → ℕ
sym_offset c symtab i = (symtab.sh_offset + i * size_of (sym_layout c)) % 2 ^ 64

unfoldable pub load_symbol :
    Class → File → Shdr → Shdr → ℕ → List (List ℕ × ℕ) → Run (List (List ℕ × ℕ))
unfolding sym_offset sym_at size_of name_length slice
load_symbol c f strtab symtab i symbols = do
  within (inside f (sym_offset c symtab i) (size_of (sym_layout c)))
  let sym = sym_at c f (sym_offset c symtab i)
  assert (ltb sym.st_name strtab.sh_size)
  n ← name_length f (name_offset strtab sym.st_name) (max_len strtab sym.st_name)
  assert (ltb n (max_len strtab sym.st_name))
  returned ((slice f (name_offset strtab sym.st_name) n, sym.st_value) ∷ symbols)

unfoldable pub load_symbols :
    Class → File → Shdr → Shdr → ℕ → ℕ → List (List ℕ × ℕ) → Run (List (List ℕ × ℕ))
unfolding load_symbol
load_symbols c f strtab symtab zero i symbols = returned symbols
load_symbols c f strtab symtab (suc rounds) i symbols = do
  symbols' ← load_symbol c f strtab symtab i symbols
  load_symbols c f strtab symtab rounds (i + 1) symbols'

unfoldable pub load_tables : Class → File → Ehdr → Tables → Run (List (List ℕ × ℕ))
unfolding load_symbols section size_of
load_tables c f eh t =
    if not (t.strtabidx == 0) && not (t.symtabidx == 0)
    then (do
      strtab ← section c f eh t.strtabidx
      symtab ← section c f eh t.symtabidx
      load_symbols c f strtab symtab (symtab.sh_size / size_of (sym_layout c)) 0 [])
    else returned []

-- `LOAD_ELF` behind the loop over the segments; the result is its local map of symbols.
unfoldable pub load_sections : Class → File → Ehdr → Run (List (List ℕ × ℕ))
unfolding section scan_sections load_tables size_of
load_sections c f eh = do
  assert (leb ((eh.e_shoff + eh.e_shnum * size_of (shdr_layout c)) % 2 ^ 64) f.size)
  assert (ltb eh.e_shstrndx eh.e_shnum)
  table ← section c f eh eh.e_shstrndx
  assert (leb (sum_of c table.sh_offset table.sh_size) f.size)
  t ← scan_sections c f eh table eh.e_shnum 0 (record { strtabidx = 0; symtabidx = 0 })
  load_tables c f eh t
