-- ===== src/Elf/Read/Loadable.antt =====
-- Files in order: `read_elf` loads them, and the simulation gets their segments.
use cellift_meta.Base.{
  ℕ, ◌+◌, ◌*◌, ◌^◌, ◌≤◌, ◌<◌, ◌≡◌, refl, ap, ◌∙◌, true, ◌||◌, some, [], map, length, length-map,
  All, le→leb, arith,
}
use cellift_meta.Base.Run.{returned}
use cellift_meta.Source.{drain, drain-pending, drop}
use cellift_meta.Elf.{File, Class, bits, Loader, unloaded}
use cellift_meta.Elf.Layout.{size_of, elf64_ehdr}
use cellift_meta.Elf.Header.{Shdr, ehdr, is_elf32, is_elf64, phdr_layout, shdr_layout, shdr_at}
use cellift_meta.Elf.Segments.Spec.{headers, section_of}
use cellift_meta.Elf.Segments.Safe.{IsFitting}
use cellift_meta.Elf.Sections.{shdr_offset, load_sections}
use cellift_meta.Elf.Sections.Symbols.{section_headers, IsPassedOver}
use cellift_meta.Elf.Sections.Total.{IsNamed, load_sections_total}
use cellift_meta.Elf.Read.{class_of, mapped, read_file, read_elf}
use cellift_meta.Elf.Read.Loaded.{segments, load_elf-total, read_elf-IsLoadedWith}
use cellift_meta.Elf.Read.Backed.{IsBacked, read_elf-IsBacked}
use cellift_meta.Elf.Queue.Drain.{loader_source, finished}

-- The program headers stay inside the file, and so do the loadable segments, each of which is at most
-- as long in the file as in memory, and shorter there than 2^63 bytes.
abbrev pub HasSegments : Class → File → Type 0
HasSegments c f =
    ((ehdr c f).e_phoff + (ehdr c f).e_phnum * size_of (phdr_layout c) ≤ f.size)
    × All (IsFitting f) (headers c f (ehdr c f) (ehdr c f).e_phnum 0)

-- The table of the section names.
abbrev pub name_table : Class → File → Shdr
name_table c f = shdr_at c f (shdr_offset c (ehdr c f) (ehdr c f).e_shstrndx)

-- The section headers and their names stay inside the file, and no section is taken for the string
-- table of the symbols.
abbrev pub HasSections : Class → File → Type 0
HasSections c f =
    ((ehdr c f).e_shoff + (ehdr c f).e_shnum * size_of (shdr_layout c) ≤ f.size)
    × ((ehdr c f).e_shstrndx < (ehdr c f).e_shnum)
    × ((name_table c f).sh_offset + (name_table c f).sh_size ≤ f.size)
    × All (IsNamed f (name_table c f)) (section_headers c f (ehdr c f) (ehdr c f).e_shnum 0)
    × All (IsPassedOver f (name_table c f)) (section_headers c f (ehdr c f) (ehdr c f).e_shnum 0)

-- A file in order, for one set of structs.
abbrev pub IsInOrder : Class → File → Type 0
IsInOrder c f = (f.size < 2 ^ bits c) × HasSegments c f × HasSections c f

-- A file in order.
abbrev pub IsLoadable : File → Type 0
IsLoadable f =
    (size_of elf64_ehdr ≤ f.size) × ((is_elf32 f || is_elf64 f) ≡ true) × IsInOrder (class_of f) f

HasSections-load_sections :
    (c : Class) (f : File)
    → f.size < 2 ^ bits c
    → HasSections c f
    → load_sections c f (ehdr c f) ≡ returned []
HasSections-load_sections c f small (there, names, table_there, named, passed) =
    load_sections_total c f (ehdr c f) small there names table_there named passed

pub read_elf-total :
    (f : File) (st : Loader)
    → IsLoadable f
    → (st' : Loader) × (read_elf (mapped f) st ≡ returned st')
unfolding read_elf read_file
read_elf-total f st (long, magic, (small, (table, fits), sections')) =
    let (st', load) =
      load_elf-total (class_of f) f [] st small table fits
        (HasSections-load_sections (class_of f) f small sections') in
    (st', rw (le→leb f.size (size_of elf64_ehdr) long, magic, load) refl)

-- Let a file have at least 64 bytes, a magic number, and a size below the number of addresses of
-- its class, 2^32 or 2^64. Let its program headers stay inside it; let each segment that is
-- loadable stay inside it and have a p_filesz of at most its p_memsz, which is below 2^63; let the
-- section headers and the string table of the section names stay inside it, with the header of
-- that table among them; let each section name end inside the file and inside that table; and let no section be taken
-- for the string table of the symbols. Then `read_elf` loads it from the state without a section;
-- and `get_section`, asked until it answers that there are no more, gives the sections of the
-- segments with data, each once and in the order of the file, and each of them has data that
-- `read_section` finds.
pub read_elf-drain :
    (f : File) (fuel : ℕ)
    → IsLoadable f
    → length (segments f) < fuel
    → (st : Loader) × (read_elf (mapped f) unloaded ≡ returned st)
      × (drain loader_source fuel st ≡ returned (some (map section_of (segments f), finished st)))
      × IsBacked st
read_elf-drain f fuel loadable enough =
    let (st, run) = read_elf-total f unloaded loadable in
    let (magic, long, (sections', mems', entry', index')) =
      read_elf-IsLoadedWith f unloaded st run in
    let len = length-map section_of (segments f) in
    (
      st,
      run,
      drain-pending loader_source fuel (map section_of (segments f)) st (omega arith)
          (ap (λ (i : ℕ). drop i st.sections) index' ∙ sections') (omega arith),
      read_elf-IsBacked f unloaded st tt run,
    )
