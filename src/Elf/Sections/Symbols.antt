-- ===== src/Elf/Sections/Symbols.antt =====
-- The symbols that the loop over a symbol table finds, and the sections that are passed over.
use cellift_meta.Base.{
  ℕ, zero, suc, ◌+◌, ◌≤◌, ◌<◌, ◌≡◌, refl, sym, ap, ◌∙◌, false, not, List, [], ◌∷◌, ltb, ◌==◌,
  ==_iff, if◌then◌else◌, bit_and, All, ◌⊎◌, inl, inr, Bool-cases, arith, subst, ltb→lt, leb→le,
}
use cellift_meta.Base.Run.{
  returned, ◌>>=◌, assert-then, within-then, >>=-eq-returned, returned_injective,
}
use cellift_meta.Elf.{File, Class, inside}
use cellift_meta.Elf.Layout.{size_of}
use cellift_meta.Elf.Header.{Ehdr, Shdr, shdr_layout, shdr_at, sym_layout, sym_at}
use cellift_meta.Elf.Segments.{slice}
use cellift_meta.Elf.Sections.{
  sht_progbits, strtab_name, symtab_name, name_is, name_length, shdr_offset, section, max_len,
  name_offset, check_name, Tables, note_section, scan_sections, sym_offset, load_symbol,
  load_symbols,
}

-- The section headers from the number `i` on.
unfoldable pub section_headers : Class → File → Ehdr → ℕ → ℕ → List Shdr
section_headers c f eh zero i = []
section_headers c f eh (suc n) i =
    shdr_at c f (shdr_offset c eh i) ∷ section_headers c f eh n (i + 1)

-- A section that `continue` skips, or that is no string table of the symbols.
abbrev pub IsPassedOver : File → Shdr → Shdr → Type 0
IsPassedOver f table sh =
    ((bit_and sh.sh_type sht_progbits == 0) ≡ false)
    ⊎ (name_is f (name_offset table sh.sh_name) strtab_name ≡ returned false)

note_section-strtabidx :
    (f : File) (table : Shdr) (i : ℕ) (sh : Shdr) (t t' : Tables)
    → IsPassedOver f table sh
    → note_section f table i sh t ≡ returned t'
    → t'.strtabidx ≡ t.strtabidx
unfolding note_section
note_section-strtabidx f table i sh t t' (inl odd) h =
    let run : note_section f table i sh t ≡ returned t = rw (odd, note_section) refl in
    ap (λ (u : Tables). u.strtabidx) (returned_injective (sym h ∙ run))
note_section-strtabidx f table i sh t t' (inr other) h =
    elim (Bool-cases (not (bit_and sh.sh_type sht_progbits == 0))) [
      | inl odd ↦
          let run : note_section f table i sh t ≡ returned t = rw (odd, note_section) refl in
          ap (λ (u : Tables). u.strtabidx) (returned_injective (sym h ∙ run))
      | inr even ↦
          let run : note_section f table i sh t ≡ (
              name_is f (name_offset table sh.sh_name) symtab_name >>= λ is_symtab.
              returned (record {
                strtabidx = t.strtabidx;
                symtabidx = if is_symtab then i else t.symtabidx;
              })) =
            rw (even, other, note_section) refl in
          let (b, named, e) =
            >>=-eq-returned (name_is f (name_offset table sh.sh_name) symtab_name)
              (λ is_symtab. returned (record {
                strtabidx = t.strtabidx;
                symtabidx = if is_symtab then i else t.symtabidx;
              }))
              (sym run ∙ h) in
          sym (ap (λ (u : Tables). u.strtabidx) (returned_injective e))
    ]

section-eq-returned :
    (c : Class) (f : File) (eh : Ehdr) (i : ℕ) (sh : Shdr)
    → section c f eh i ≡ returned sh
    → sh ≡ shdr_at c f (shdr_offset c eh i)
unfolding section
section-eq-returned c f eh i sh h = sym (
    returned_injective
      (within-then (inside f (shdr_offset c eh i) (size_of (shdr_layout c))) _ h).1)

pub scan_sections-strtabidx :
    (c : Class) (f : File) (eh : Ehdr) (table : Shdr) (n i : ℕ) (t t' : Tables)
    → All (IsPassedOver f table) (section_headers c f eh n i)
    → scan_sections c f eh table n i t ≡ returned t'
    → t'.strtabidx ≡ t.strtabidx
unfolding scan_sections section_headers
scan_sections-strtabidx c f eh table zero i t t' passed h =
    ap (λ (u : Tables). u.strtabidx) (sym (returned_injective h))
scan_sections-strtabidx c f eh table (suc n) i t t' (pass, passed) h =
    let (sh, at, e) = >>=-eq-returned (section c f eh i) _ h in
    let (u, checked, e1) = >>=-eq-returned (check_name f table sh) _ e in
    let (t1, noted, e2) = >>=-eq-returned (note_section f table i sh t) _ e1 in
    scan_sections-strtabidx c f eh table n (i + 1) t1 t' passed e2
    ∙ note_section-strtabidx f table i sh t t1
        (subst (IsPassedOver f table) (sym (section-eq-returned c f eh i sh at)) pass) noted

-- A string of `n` characters at `a`, with its end.
abbrev pub IsCString : File → ℕ → ℕ → Type 0
IsCString f a n =
    (a + n < f.size) × (f.byte (a + n) ≡ 0) × ((k : ℕ) → k < n → ¬ (f.byte (a + k) ≡ 0))

IsCString-before :
    (f : File) (a n k : ℕ)
    → (f.byte a == 0) ≡ false
    → ((j : ℕ) → j < n → ¬ (f.byte (a + 1 + j) ≡ 0))
    → k < n + 1
    → ¬ (f.byte (a + k) ≡ 0)
IsCString-before f a n zero go before less e =
    absurd (ground (arith, ap f.byte {x = a} {y = a + 0} (omega arith)))
IsCString-before f a n (suc k) go before less e =
    before k (omega arith) (ap f.byte {x = a + 1 + k} {y = a + suc k} (omega arith) ∙ e)

name_length-IsCString :
    (f : File) (a m n : ℕ) → name_length f a m ≡ returned n → n < m → IsCString f a n
unfolding name_length
name_length-IsCString f a zero n h lt = absurd (omega arith)
name_length-IsCString f a (suc m) n h lt =
    let rest = (name_length f (a + 1) m >>= λ k. returned (k + 1)) in
    let (here, e) = within-then (inside f a 1) _ h in
    let room : a + 1 ≤ f.size = leb→le (a + 1) f.size here in
    elim (Bool-cases (f.byte a == 0)) [
      | inl end ↦
          let zero' : 0 ≡ n =
            returned_injective (sym (ap (λ b. if b then returned 0 else rest) end) ∙ e) in
          let last : f.byte a ≡ 0 = (==_iff (f.byte a) 0).0 end in
          (
            omega arith,
            ap f.byte {x = a + n} {y = a} (omega arith) ∙ last,
            λ k less. absurd (omega arith),
          )
      | inr go ↦
          let (n', run, e') =
            >>=-eq-returned (name_length f (a + 1) m) (λ k. returned (k + 1))
              (sym (ap (λ b. if b then returned 0 else rest) go) ∙ e) in
          let same : n' + 1 ≡ n = returned_injective e' in
          let (inside', end, before) = name_length-IsCString f (a + 1) m n' run (omega arith) in
          (
            omega arith,
            ap f.byte {x = a + n} {y = a + 1 + n'} (omega arith) ∙ end,
            λ k less. IsCString-before f a n' k go before (omega arith),
          )
    ]

-- The symbol number `i` of the tables, as a name with its end and a value.
abbrev pub IsSymbol : Class → File → Shdr → Shdr → ℕ → List ℕ × ℕ → Type 0
IsSymbol c f strtab symtab i s =
    let sym = sym_at c f (sym_offset c symtab i) in
    (n : ℕ) × IsCString f (name_offset strtab sym.st_name) n
    × (s.0 ≡ slice f (name_offset strtab sym.st_name) n)
    × (s.1 ≡ sym.st_value)
    × (sym.st_name < strtab.sh_size)

load_symbol-IsSymbol :
    (c : Class) (f : File) (strtab symtab : Shdr) (i : ℕ) (symbols symbols' : List (List ℕ × ℕ))
    → load_symbol c f strtab symtab i symbols ≡ returned symbols'
    → (s : List ℕ × ℕ) × (symbols' ≡ s ∷ symbols) × IsSymbol c f strtab symtab i s
unfolding load_symbol
load_symbol-IsSymbol c f strtab symtab i symbols symbols' h =
    let sm = sym_at c f (sym_offset c symtab i) in
    let (there, e1) = within-then (inside f (sym_offset c symtab i) (size_of (sym_layout c))) _ h in
    let (known, e2) = assert-then (ltb sm.st_name strtab.sh_size) _ e1 in
    let (n, measured, e3) =
      >>=-eq-returned (name_length f (name_offset strtab sm.st_name) (max_len strtab sm.st_name)) _
        e2 in
    let (short, e4) = assert-then (ltb n (max_len strtab sm.st_name)) _ e3 in
    (
      (slice f (name_offset strtab sm.st_name) n, sm.st_value),
      sym (returned_injective e4),
      (
        n,
        name_length-IsCString f (name_offset strtab sm.st_name) (max_len strtab sm.st_name) n
            measured (ltb→lt n (max_len strtab sm.st_name) short),
        refl,
        refl,
        ltb→lt sm.st_name strtab.sh_size known,
      ),
    )

-- The symbols from the number `i` on, the last one in front of the others.
abbrev pub AreSymbols :
    Class → File → Shdr → Shdr → ℕ → ℕ → List (List ℕ × ℕ) → List (List ℕ × ℕ) → Type 0
AreSymbols c f strtab symtab zero i symbols symbols' = symbols' ≡ symbols
AreSymbols c f strtab symtab (suc n) i symbols symbols' =
    (s : List ℕ × ℕ) × IsSymbol c f strtab symtab i s
    × AreSymbols c f strtab symtab n (i + 1) (s ∷ symbols) symbols'

-- Whenever the loop over the symbols returns, it has put each symbol of the table in front of the old
-- ones, one after the other: its name is a string that ends inside the file, and its value that of the
-- symbol.
pub load_symbols-AreSymbols :
    (c : Class) (f : File) (strtab symtab : Shdr) (n i : ℕ) (symbols symbols' : List (List ℕ × ℕ))
    → load_symbols c f strtab symtab n i symbols ≡ returned symbols'
    → AreSymbols c f strtab symtab n i symbols symbols'
unfolding load_symbols
load_symbols-AreSymbols c f strtab symtab zero i symbols symbols' h = sym (returned_injective h)
load_symbols-AreSymbols c f strtab symtab (suc n) i symbols symbols' h =
    let (symbols1, run, e) = >>=-eq-returned (load_symbol c f strtab symtab i symbols) _ h in
    let (s, same, named) = load_symbol-IsSymbol c f strtab symtab i symbols symbols1 run in
    (
      s,
      named,
      load_symbols-AreSymbols c f strtab symtab n (i + 1) (s ∷ symbols) symbols'
          (subst (λ l. load_symbols c f strtab symtab n (i + 1) l ≡ returned symbols') same e),
    )
