-- ===== src/Elf/Sections/Total.antt =====
-- Section headers and names that stay inside their file: the loops over them end.
use cellift_meta.Base.{
  ℕ, zero, suc, ◌+◌, ◌-◌, ◌*◌, ◌^◌, ◌≤◌, ◌<◌, ◌≡◌, refl, ap, ◌∙◌, subst, Bool, true, false, not,
  List, [], ◌∷◌, ltb, ◌==◌, ==_iff, ==_false, if◌then◌else◌, bit_and, All, inl, inr, Bool-cases,
  arith, le→leb, lt→ltb,
}
use cellift_meta.Base.Run.{Run, returned, ◌>>=◌, assert}
use cellift_meta.Elf.{File, Class, bits, inside}
use cellift_meta.Elf.Layout.{size_of}
use cellift_meta.Elf.Header.{Ehdr, Shdr, shdr_layout, shdr_at}
use cellift_meta.Elf.Segments.{sum_of}
use cellift_meta.Elf.Segments.Safe.{stride-inside, small_file, wrap_small, sum_of-fits}
use cellift_meta.Elf.Sections.{
  sht_group, sht_progbits, strtab_name, shstrtab_name, symtab_name, name_is, name_length,
  shdr_offset, section, max_len, name_offset, unless, check_length, check_name, Tables,
  note_section, scan_sections, load_tables, load_sections,
}
use cellift_meta.Elf.Sections.Symbols.{
  section_headers, IsPassedOver, IsCString, scan_sections-strtabidx,
}

IsCString-tail : (f : File) (a n : ℕ) → IsCString f a (suc n) → IsCString f (a + 1) n
IsCString-tail f a n (room, end, before) = (
  omega arith,
  ap f.byte {x = a + 1 + n} {y = a + suc n} (omega arith) ∙ end,
  λ k less e.
      before (suc k) (omega arith) (ap f.byte {x = a + suc k} {y = a + 1 + k} (omega arith) ∙ e),
)

inside-CString : (f : File) (a n : ℕ) → IsCString f a n → inside f a 1 ≡ true
inside-CString f a n (room, end, before) = le→leb f.size (a + 1) (omega arith)

-- A comparison with a literal ends at the end of the string.
name_is-returned :
    (f : File) (a n : ℕ) (cs : List ℕ)
    → IsCString f a n
    → All (λ c. 0 < c) cs
    → (b : Bool) × (name_is f a cs ≡ returned b)
unfolding name_is
name_is-returned f a n [] str positive = (f.byte a == 0, rw (inside-CString f a n str) refl)
name_is-returned f a zero (c ∷ cs) (room, end, before) (p, positive) =
    let here : f.byte a ≡ 0 = ap f.byte {x = a} {y = a + 0} (omega arith) ∙ end in
    (
      false,
      rw
          (
            inside-CString f a zero (room, end, before),
            ==_false (f.byte a) c (λ e. absurd (omega arith)),
          )
          refl,
    )
name_is-returned f a (suc n) (c ∷ cs) str (p, positive) =
    let (b, run) = name_is-returned f (a + 1) n cs (IsCString-tail f a n str) positive in
    elim (Bool-cases (f.byte a == c)) [
      | inl same ↦ (b, rw (inside-CString f a (suc n) str, same) run)
      | inr other ↦ (false, rw (inside-CString f a (suc n) str, other) refl)
    ]

name_length-returned :
    (f : File) (a n m : ℕ) → IsCString f a n → n < m → name_length f a m ≡ returned n
unfolding name_length
name_length-returned f a n zero str lt = absurd (omega arith)
name_length-returned f a zero (suc m) (room, end, before) lt =
    let here : f.byte a ≡ 0 = ap f.byte {x = a} {y = a + 0} (omega arith) ∙ end in
    rw (inside-CString f a zero (room, end, before), (==_iff (f.byte a) 0).1 here) refl
name_length-returned f a (suc n) (suc m) str lt =
    let go : (f.byte a == 0) ≡ false =
      ==_false (f.byte a) 0
        (λ e. str.2 0 (omega arith) (ap f.byte {x = a + 0} {y = a} (omega arith) ∙ e)) in
    rw
      (
        inside-CString f a (suc n) str,
        go,
        name_length-returned f (a + 1) n m (IsCString-tail f a n str) (omega arith),
      )
      (ap returned {x = n + 1} {y = suc n} (omega arith))

-- The name of a section is a string inside the file and inside the table of names.
abbrev pub IsNamed : File → Shdr → Shdr → Type 0
IsNamed f table sh =
    (n : ℕ) × IsCString f (name_offset table sh.sh_name) n × (n < max_len table sh.sh_name)

unless-returned :
    (test : Run Bool) (rest : Run (Unit {0})) (b : Bool)
    → test ≡ returned b
    → rest ≡ returned tt
    → unless test rest ≡ returned tt
unless-returned test rest true e k = ap (λ r. unless r rest) e
unless-returned test rest false e k = ap (λ r. unless r rest) e ∙ k

strtab-positive : All (λ c. 0 < c) strtab_name
strtab-positive = (
  omega arith,
  (omega arith, (omega arith, (omega arith, (omega arith, (omega arith, (omega arith, tt)))))),
)

symtab-positive : All (λ c. 0 < c) symtab_name
symtab-positive = (
  omega arith,
  (omega arith, (omega arith, (omega arith, (omega arith, (omega arith, (omega arith, tt)))))),
)

pub shstrtab-positive : All (λ c. 0 < c) shstrtab_name
shstrtab-positive = (
  omega arith,
  (
    omega arith,
    (
      omega arith,
      (omega arith, (omega arith, (omega arith, (omega arith, (omega arith, (omega arith, tt)))))),
    ),
  ),
)

check_name-returned :
    (f : File) (table sh : Shdr) → IsNamed f table sh → check_name f table sh ≡ returned tt
unfolding check_name check_length
check_name-returned f table sh (n, str, short) =
    elim (Bool-cases (bit_and sh.sh_type sht_group == 0)) [
      | inl none ↦ rw (none) refl
      | inr some ↦
          let at = name_offset table sh.sh_name in
          let (b, first) = name_is-returned f at n strtab_name str strtab-positive in
          let (b', second) = name_is-returned f at n shstrtab_name str shstrtab-positive in
          let checked : check_length f table sh.sh_name ≡ returned tt =
            ap (λ r. r >>= λ k. assert (ltb k (max_len table sh.sh_name)))
              (name_length-returned f at n (max_len table sh.sh_name) str short)
            ∙ ap assert (lt→ltb n (max_len table sh.sh_name) short) in
          rw (some) (unless-returned _ _ b first (unless-returned _ _ b' second checked))
    ]

note_section-returned :
    (f : File) (table : Shdr) (i : ℕ) (sh : Shdr) (t : Tables)
    → IsNamed f table sh
    → (t' : Tables) × (note_section f table i sh t ≡ returned t')
unfolding note_section
note_section-returned f table i sh t (n, str, short) =
    elim (Bool-cases (not (bit_and sh.sh_type sht_progbits == 0))) [
      | inl odd ↦ (t, rw (odd) refl)
      | inr even ↦
          let at = name_offset table sh.sh_name in
          let (b, first) = name_is-returned f at n strtab_name str strtab-positive in
          let (b', second) = name_is-returned f at n symtab_name str symtab-positive in
          (
            record {
              strtabidx = if b then i else t.strtabidx;
              symtabidx = if b' then i else t.symtabidx;
            },
            rw (even, first, second) refl,
          )
    ]

shdr-inside :
    (c : Class) (f : File) (eh : Ehdr) (n i : ℕ)
    → f.size < 2 ^ bits c
    → eh.e_shoff + (i + suc n) * size_of (shdr_layout c) ≤ f.size
    → inside f (shdr_offset c eh i) (size_of (shdr_layout c)) ≡ true
unfolding shdr_offset
shdr-inside c f eh n i small h =
    le→leb f.size _
      (stride-inside eh.e_shoff i n (size_of (shdr_layout c)) f.size h (small_file c f small))

section-returned :
    (c : Class) (f : File) (eh : Ehdr) (n i : ℕ)
    → f.size < 2 ^ bits c
    → eh.e_shoff + (i + suc n) * size_of (shdr_layout c) ≤ f.size
    → section c f eh i ≡ returned (shdr_at c f (shdr_offset c eh i))
unfolding section
section-returned c f eh n i small h = rw (shdr-inside c f eh n i small h) refl

scan_sections-returned :
    (c : Class) (f : File) (eh : Ehdr) (table : Shdr) (n i : ℕ) (t : Tables)
    → f.size < 2 ^ bits c
    → eh.e_shoff + (i + n) * size_of (shdr_layout c) ≤ f.size
    → All (IsNamed f table) (section_headers c f eh n i)
    → (t' : Tables) × (scan_sections c f eh table n i t ≡ returned t')
unfolding scan_sections section_headers
scan_sections-returned c f eh table zero i t small there named = (t, refl)
scan_sections-returned c f eh table (suc n) i t small there (name, named) =
    let sh = shdr_at c f (shdr_offset c eh i) in
    let (t1, noted) = note_section-returned f table i sh t name in
    let (t', rest) =
      scan_sections-returned c f eh table n (i + 1) t1 small
        (subst (λ k. eh.e_shoff + k * size_of (shdr_layout c) ≤ f.size) {x = i + suc n}
          {y = i + 1 + n} (omega arith) there)
        named in
    (
      t',
      rw (section-returned c f eh n i small there, check_name-returned f table sh name, noted) rest,
    )

-- In a file as small as its addresses allow, whose section headers and table of section names stay
-- inside it, with an index of that table that is in range, where the name of each section is a
-- string inside the file and the table, and each section has an odd type or another name than
-- `.strtab`, the loops over the section headers end, without a symbol.
pub load_sections_total :
    (c : Class) (f : File) (eh : Ehdr)
    → f.size < 2 ^ bits c
    → eh.e_shoff + eh.e_shnum * size_of (shdr_layout c) ≤ f.size
    → eh.e_shstrndx < eh.e_shnum
    → (shdr_at c f (shdr_offset c eh eh.e_shstrndx)).sh_offset
        + (shdr_at c f (shdr_offset c eh eh.e_shstrndx)).sh_size
      ≤ f.size
    → All
        (IsNamed f (shdr_at c f (shdr_offset c eh eh.e_shstrndx)))
        (section_headers c f eh eh.e_shnum 0)
    → All
        (IsPassedOver f (shdr_at c f (shdr_offset c eh eh.e_shstrndx)))
        (section_headers c f eh eh.e_shnum 0)
    → load_sections c f eh ≡ returned []
unfolding load_sections load_tables
load_sections_total c f eh small there names table_there named passed =
    let table = shdr_at c f (shdr_offset c eh eh.e_shstrndx) in
    let start : Tables = record { strtabidx = 0; symtabidx = 0 } in
    let (t, scanned) =
      scan_sections-returned c f eh table eh.e_shnum 0 start small
        (subst (λ k. eh.e_shoff + k * size_of (shdr_layout c) ≤ f.size) {x = eh.e_shnum}
          {y = 0 + eh.e_shnum} (omega arith) there)
        named in
    let unnoticed = scan_sections-strtabidx c f eh table eh.e_shnum 0 start t passed scanned in
    let last = eh.e_shnum - suc eh.e_shstrndx in
    let found : section c f eh eh.e_shstrndx ≡ returned table =
      section-returned c f eh last eh.e_shstrndx small (
        subst (λ k. eh.e_shoff + k * size_of (shdr_layout c) ≤ f.size) {x = eh.e_shnum}
          {y = eh.e_shstrndx + suc last} (omega arith) there) in
    let no_tables : load_tables c f eh t ≡ returned [] = rw (unnoticed, load_tables) refl in
    rw
      (
        le→leb f.size _ (
            wrap_small (eh.e_shoff + eh.e_shnum * size_of (shdr_layout c)) f.size there
              (small_file c f small)),
        lt→ltb eh.e_shstrndx eh.e_shnum names,
        found,
        le→leb f.size (sum_of c table.sh_offset table.sh_size)
            (sum_of-fits c table.sh_offset table.sh_size f.size table_there small),
        scanned,
      )
      no_tables
