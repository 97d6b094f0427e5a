-- ===== src/Elf/Segments/Spec.antt =====
-- What the program headers of a file ask for, and that `load_segments` does it.
use cellift_meta.Base.{
  append_nil, append_one, ℕ, zero, suc, ◌+◌, ◌≡◌, refl, sym, ap, ◌∙◌, Bool, true, false, not, ◌&&◌,
  Option, none, some, List, [], ◌∷◌, ◌++◌, map, ◌==◌, leb, ==_iff, if◌then◌else◌, store, ◌⊎◌, inl,
  inr, Bool-cases, Option-cases, store_same, store_other, subst,
}
use cellift_meta.Base.Run.{
  Run, returned, ◌>>=◌, ◌>>◌, assert-then, within-then, >>=-eq-returned, returned_injective,
}
use cellift_meta.Elf.{File, Class, inside, Mems, Loader}
use cellift_meta.Elf.Layout.{size_of}
use cellift_meta.Elf.Header.{Ehdr, Phdr, phdr_layout, phdr_at}
use cellift_meta.Elf.Segments.{
  pt_load, sum_of, slice, insert_new, write, load_bytes, resize_zeros, load_segment, phdr_offset,
  load_segments,
}

-- A loadable segment that has bytes in memory and in the file.
abbrev pub has_data : Phdr → Bool
has_data ph = ph.p_type == pt_load && (not (ph.p_memsz == 0) && not (ph.p_filesz == 0))

-- The program headers from the number `i` on.
unfoldable pub headers : Class → File → Ehdr → ℕ → ℕ → List Phdr
headers c f eh zero i = []
headers c f eh (suc n) i = phdr_at c f (phdr_offset c eh i) ∷ headers c f eh n (i + 1)

abbrev pub keep : Bool → Phdr → List Phdr → List Phdr
keep true ph phs = ph ∷ phs
keep false ph phs = phs

unfoldable pub with_data : List Phdr → List Phdr
with_data [] = []
with_data (ph ∷ phs) = keep (has_data ph) ph (with_data phs)

abbrev pub section_of : Phdr → ℕ × ℕ
section_of ph = (ph.p_paddr, ph.p_memsz)

-- What memory holds at an address: the old data, or else those of the first segment there.
unfoldable pub first_data : File → List Phdr → Option (List ℕ) → ℕ → Option (List ℕ)
first_data f phs (some mem) a = some mem
first_data f [] none a = none
first_data f (ph ∷ phs) none a =
    let rest = first_data f phs none a in
    if a == ph.p_paddr then some (slice f ph.p_offset ph.p_filesz) else rest

-- A loader behind the segments `phs` of a file.
abbrev pub IsLoadedWith : File → List Phdr → Loader → Loader → Type 0
IsLoadedWith f phs st st' =
    (st'.sections ≡ st.sections ++ map section_of phs)
    × ((a : ℕ) → st'.mems a ≡ first_data f phs (st.mems a) a)
    × (st'.entry ≡ st.entry)
    × (st'.section_index ≡ st.section_index)

segment_cases :
    (load nothing empty : Bool) (run : Run Loader) (resize : Run (Unit {0})) (st st' : Loader)
    → (if load && not nothing
        then ((if not empty then run else returned st) >>= λ st1. resize >> returned st1)
        else returned st)
      ≡ returned st'
    → (((load && (not nothing && not empty)) ≡ true) × (run ≡ returned st'))
      ⊎ (((load && (not nothing && not empty)) ≡ false) × (st' ≡ st))
segment_cases false nothing empty run resize st st' h = inr (refl, sym (returned_injective h))
segment_cases true true empty run resize st st' h = inr (refl, sym (returned_injective h))
segment_cases true false true run resize st st' h =
    let (u, ok, e) = >>=-eq-returned resize (λ _. returned st) h in
    inr (refl, sym (returned_injective e))
segment_cases true false false run resize st st' h =
    let (st1, ok, e) = >>=-eq-returned run (λ st1. resize >> returned st1) h in
    let (u, ok', e') = >>=-eq-returned resize (λ _. returned st1) e in inl (refl, ok ∙ e')

-- The loader behind the bytes of a segment.
abbrev pub loaded : File → Phdr → Loader → Loader
loaded f ph st =
    write (record st { sections = st.sections ++ ((ph.p_paddr, ph.p_memsz) ∷ []) }) ph.p_paddr
      (slice f ph.p_offset ph.p_filesz)

load_bytes-loaded :
    (c : Class) (f : File) (ph : Phdr) (st st' : Loader)
    → load_bytes c f ph st ≡ returned st'
    → st' ≡ loaded f ph st
unfolding load_bytes
load_bytes-loaded c f ph st st' h =
    let (fits, e) = assert-then (leb (sum_of c ph.p_offset ph.p_filesz) f.size) _ h in
    let (there, e') = within-then (inside f ph.p_offset ph.p_filesz) _ e in
    sym (returned_injective e')

pub load_segment-cases :
    (c : Class) (f : File) (ph : Phdr) (st st' : Loader)
    → load_segment c f ph st ≡ returned st'
    → ((has_data ph ≡ true) × (st' ≡ loaded f ph st)) ⊎ ((has_data ph ≡ false) × (st' ≡ st))
unfolding load_segment
load_segment-cases c f ph st st' h =
    elim (segment_cases (ph.p_type == pt_load) (ph.p_memsz == 0) (ph.p_filesz == 0)
      (load_bytes c f ph st) (resize_zeros c ph) st st' h) [
        | inl (yes', e) ↦ inl (yes', load_bytes-loaded c f ph st st' e)
        | inr no' ↦ inr no'
      ]

first_data-other :
    (f : File) (ph : Phdr) (phs : List Phdr) (o : Option (List ℕ)) (a : ℕ)
    → (a == ph.p_paddr) ≡ false
    → first_data f phs o a ≡ first_data f (ph ∷ phs) o a
unfolding first_data
first_data-other f ph phs (some mem) a h = refl
first_data-other f ph phs none a h =
    sym (ap (λ b. if b then some (slice f ph.p_offset ph.p_filesz) else first_data f phs none a) h)

first_data-same :
    (f : File) (ph : Phdr) (phs : List Phdr) (o : Option (List ℕ)) (a : ℕ)
    → o ≡ none
    → (a == ph.p_paddr) ≡ true
    → first_data f (ph ∷ phs) o a ≡ some (slice f ph.p_offset ph.p_filesz)
unfolding first_data
first_data-same f ph phs o a e h =
    ap (λ o'. first_data f (ph ∷ phs) o' a) e
    ∙ ap (λ b. if b then some (slice f ph.p_offset ph.p_filesz) else first_data f phs none a) h

first_data-some :
    (f : File) (phs : List Phdr) (o : Option (List ℕ)) (mem : List ℕ) (a : ℕ)
    → o ≡ some mem
    → first_data f phs o a ≡ some mem
unfolding first_data
first_data-some f phs o mem a e = ap (λ o'. first_data f phs o' a) e

insert_new-none :
    (mems : Mems) (p : ℕ) (mem : List ℕ)
    → mems p ≡ none
    → insert_new mems p mem ≡ store mems p (some mem)
unfolding insert_new
insert_new-none mems p mem e = rw (e, insert_new) refl

insert_new-some :
    (mems : Mems) (p : ℕ) (mem old : List ℕ) → mems p ≡ some old → insert_new mems p mem ≡ mems
unfolding insert_new
insert_new-some mems p mem old e = rw (e, insert_new) refl

-- The data at an address, behind a segment that is new or not.
first_data-insert :
    (f : File) (ph : Phdr) (phs : List Phdr) (mems : Mems) (a : ℕ)
    → first_data f phs (insert_new mems ph.p_paddr (slice f ph.p_offset ph.p_filesz) a) a
      ≡ first_data f (ph ∷ phs) (mems a) a
first_data-insert f ph phs mems a =
    let mem = slice f ph.p_offset ph.p_filesz in
    elim (Option-cases (mems ph.p_paddr)) [
      | inl e ↦
          ap (λ (m : Mems). first_data f phs (m a) a) (insert_new-none mems ph.p_paddr mem e)
          ∙ elim (Bool-cases (a == ph.p_paddr)) [
            | inl same ↦
                first_data-some f phs (store mems ph.p_paddr (some mem) a) mem a
                  (store_same mems ph.p_paddr a (some mem) same)
                ∙ sym (
                    first_data-same f ph phs (mems a) a (ap mems ((==_iff a ph.p_paddr).0 same) ∙ e)
                      same)
            | inr other ↦
                ap (λ (o : Option (List ℕ)). first_data f phs o a)
                  (store_other mems ph.p_paddr a (some mem) other)
                ∙ first_data-other f ph phs (mems a) a other
          ]
      | inr (old, e) ↦
          ap (λ (m : Mems). first_data f phs (m a) a) (insert_new-some mems ph.p_paddr mem old e)
          ∙ elim (Bool-cases (a == ph.p_paddr)) [
            | inl same ↦
                let here = ap mems ((==_iff a ph.p_paddr).0 same) ∙ e in
                first_data-some f phs (mems a) old a here
                ∙ sym (first_data-some f (ph ∷ phs) (mems a) old a here)
            | inr other ↦ first_data-other f ph phs (mems a) a other
          ]
    ]

keep-false : (b : Bool) (ph : Phdr) (phs : List Phdr) → b ≡ false → keep b ph phs ≡ phs
keep-false b ph phs e = ap (λ b'. keep b' ph phs) e

keep-true : (b : Bool) (ph : Phdr) (phs : List Phdr) → b ≡ true → keep b ph phs ≡ ph ∷ phs
keep-true b ph phs e = ap (λ b'. keep b' ph phs) e

first_data-nil : (f : File) (o : Option (List ℕ)) (a : ℕ) → o ≡ first_data f [] o a
unfolding first_data
first_data-nil f none a = refl
first_data-nil f (some mem) a = refl

IsLoadedWith-nil : (f : File) (st : Loader) → IsLoadedWith f [] st st
IsLoadedWith-nil f st =
    (sym (append_nil st.sections), λ a. first_data-nil f (st.mems a) a, refl, refl)

IsLoadedWith-cons :
    (f : File) (ph : Phdr) (phs : List Phdr) (st st' : Loader)
    → IsLoadedWith f phs (loaded f ph st) st'
    → IsLoadedWith f (ph ∷ phs) st st'
unfolding write
IsLoadedWith-cons f ph phs st st' (sections', mems', entry', index') = (
  sections' ∙ append_one st.sections (section_of ph) (map section_of phs),
  λ a. mems' a ∙ first_data-insert f ph phs st.mems a,
  entry',
  index',
)

-- Whenever the loop over the program headers ends with a loader, this has the sections of the
-- segments with data behind the old ones, in order, and at each address the old data or else those of
-- the first such segment there.
pub load_segments-IsLoadedWith :
    (c : Class) (f : File) (eh : Ehdr) (n i : ℕ) (st st' : Loader)
    → load_segments c f eh n i st ≡ returned st'
    → IsLoadedWith f (with_data (headers c f eh n i)) st st'
unfolding load_segments headers with_data
load_segments-IsLoadedWith c f eh zero i st st' h =
    subst (λ s. IsLoadedWith f [] st s) (returned_injective h) (IsLoadedWith-nil f st)
load_segments-IsLoadedWith c f eh (suc n) i st st' h =
    let ph = phdr_at c f (phdr_offset c eh i) in
    let rest = with_data (headers c f eh n (i + 1)) in
    let (there, e) = within-then (inside f (phdr_offset c eh i) (size_of (phdr_layout c))) _ h in
    let (st1, run, e') =
      >>=-eq-returned (load_segment c f ph st) (λ st2. load_segments c f eh n (i + 1) st2) e in
    let ih = load_segments-IsLoadedWith c f eh n (i + 1) st1 st' e' in
    elim (load_segment-cases c f ph st st1 run) [
      | inl (data', same) ↦
          subst (λ l. IsLoadedWith f l st st') (sym (keep-true (has_data ph) ph rest data'))
            (IsLoadedWith-cons f ph rest st st' (subst (λ s. IsLoadedWith f rest s st') same ih))
      | inr (bare, same) ↦
          subst (λ l. IsLoadedWith f l st st') (sym (keep-false (has_data ph) ph rest bare))
            (subst (λ s. IsLoadedWith f rest s st') same ih)
    ]
