-- ===== src/Elf/Read/Backed.antt =====
-- Every section that the simulation is told of has data that it can read.
use cellift_meta.Base.{
  ℕ, zero, suc, ◌+◌, ◌≡◌, refl, sym, ap, ◌∙◌, true, Option, none, some, List, [], ◌∷◌, ◌++◌, map,
  get_elem?, some_injective, ◌==◌, ==_self, subst, All, Mem, Bool-cases, ◌⊎◌, inl, inr,
}
use cellift_meta.Base.Run.{returned}
use cellift_meta.Elf.{File, Mems, Loader}
use cellift_meta.Elf.Header.{Phdr}
use cellift_meta.Elf.Segments.{slice}
use cellift_meta.Elf.Segments.Spec.{first_data, section_of}
use cellift_meta.Elf.Read.{mapped, read_elf}
use cellift_meta.Elf.Read.Loaded.{read_elf-IsLoadedWith, segments}
use cellift_meta.Elf.Queue.{get_section, read_section}
use cellift_meta.Elf.Queue.Copy.{read_section-copy}

-- There are data at an address.
abbrev pub HasData : Mems → ℕ → Type 0
HasData mems a = (mem : List ℕ) × (mems a ≡ some mem)

-- There are data at the address of each section.
abbrev pub IsBacked : Loader → Type 0
IsBacked st = All (λ (s : ℕ × ℕ). HasData st.mems s.0) st.sections

All-append : (P : ℕ × ℕ → Type 0) (xs ys : List (ℕ × ℕ)) → All P xs → All P ys → All P (xs ++ ys)
All-append P [] ys px py = py
All-append P (x ∷ xs) ys (p, px) py = (p, All-append P xs ys px py)

All-map :
    (P Q : ℕ × ℕ → Type 0) (xs : List (ℕ × ℕ)) → ((x : ℕ × ℕ) → P x → Q x) → All P xs → All Q xs
All-map P Q [] f px = tt
All-map P Q (x ∷ xs) f (p, px) = (f x p, All-map P Q xs f px)

All-at :
    (P : ℕ × ℕ → Type 0) (xs : List (ℕ × ℕ)) (i : ℕ) (x : ℕ × ℕ)
    → All P xs
    → get_elem? xs i ≡ some x
    → P x
All-at P [] i x px e = absurd (cc)
All-at P (y ∷ xs) zero x (p, px) e = subst P (some_injective e) p
All-at P (y ∷ xs) (suc i) x (p, px) e = All-at P xs i x px e

first_data-old :
    (f : File) (phs : List Phdr) (o : Option (List ℕ)) (mem : List ℕ) (a : ℕ)
    → o ≡ some mem
    → first_data f phs o a ≡ some mem
unfolding first_data
first_data-old f phs o mem a e = ap (λ o'. first_data f phs o' a) e

-- A segment's own address has data, and further segments leave it so.
first_data-has :
    (f : File) (phs : List Phdr) (ph : Phdr) (o : Option (List ℕ)) (a : ℕ)
    → ((a == ph.p_paddr) ≡ true) ⊎ ((mem : List ℕ) × (first_data f phs o a ≡ some mem))
    → (mem : List ℕ) × (first_data f (ph ∷ phs) o a ≡ some mem)
unfolding first_data
first_data-has f phs ph (some old) a h = (old, refl)
first_data-has f phs ph none a (inl here) = (slice f ph.p_offset ph.p_filesz, rw (here) refl)
first_data-has f phs ph none a (inr (mem, e)) = elim (Bool-cases (a == ph.p_paddr)) [
  | inl here ↦ (slice f ph.p_offset ph.p_filesz, rw (here) refl)
  | inr there ↦ (mem, rw (there) e)
]

All-sections :
    (f : File) (mems : Mems) (phs : List Phdr)
    → All
        (λ (s : ℕ × ℕ). (mem : List ℕ) × (first_data f phs (mems s.0) s.0 ≡ some mem))
        (map section_of phs)
All-sections f mems [] = tt
All-sections f mems (ph ∷ phs) = (
  first_data-has f phs ph (mems ph.p_paddr) ph.p_paddr (inl (==_self ph.p_paddr)),
  All-map (λ s. (mem : List ℕ) × (first_data f phs (mems s.0) s.0 ≡ some mem))
      (λ s. (mem : List ℕ) × (first_data f (ph ∷ phs) (mems s.0) s.0 ≡ some mem))
      (map section_of phs) (λ s h. first_data-has f phs ph (mems s.0) s.0 (inr h))
      (All-sections f mems phs),
)

-- When every section of the loader has data at its address and `read_elf` returns, every section of
-- the new loader has.
pub read_elf-IsBacked :
    (f : File) (st st' : Loader)
    → IsBacked st
    → read_elf (mapped f) st ≡ returned st'
    → IsBacked st'
read_elf-IsBacked f st st' backed run =
    let (magic, long, (sections', mems', entry', index')) = read_elf-IsLoadedWith f st st' run in
    let told =
      All-append (λ s. (mem : List ℕ) × (first_data f (segments f) (st.mems s.0) s.0 ≡ some mem))
        st.sections (map section_of (segments f))
        (All-map (λ s. HasData st.mems s.0)
          (λ s. (mem : List ℕ) × (first_data f (segments f) (st.mems s.0) s.0 ≡ some mem))
          st.sections (λ s (mem, e). (mem, first_data-old f (segments f) (st.mems s.0) mem s.0 e))
          backed)
        (All-sections f st.mems (segments f)) in
    subst (λ l. All (λ (s : ℕ × ℕ). HasData st'.mems s.0) l) (sym sections')
      (All-map (λ s. (mem : List ℕ) × (first_data f (segments f) (st.mems s.0) s.0 ≡ some mem))
        (λ s. HasData st'.mems s.0) (st.sections ++ map section_of (segments f))
        (λ s (mem, e). (mem, mems' s.0 ∙ e)) told)

next : Loader → Option (ℕ × ℕ) → Option (ℕ × ℕ) × Loader
next st o = elim o [
  | some s ↦ (some s, record st { section_index = st.section_index + 1 })
  | none ↦ (none, st)
]

next-some :
    (st st' : Loader) (o : Option (ℕ × ℕ)) (s : ℕ × ℕ)
    → next st o ≡ (some s, st')
    → (o ≡ some s) × (record st { section_index = st.section_index + 1 } ≡ st')
unfolding next
next-some st st' (some x) s e =
    (ap (λ (p : Option (ℕ × ℕ) × Loader). p.0) e, ap (λ (p : Option (ℕ × ℕ) × Loader). p.1) e)
next-some st st' none s e = absurd (cc)

-- When every section of the loader has data at its address and `get_section` gives one, then
-- `read_section` of its address succeeds, and every section of the loader behind still has data.
pub get_section-IsBacked :
    (st st' : Loader) (a n : ℕ) (buf : Mem)
    → IsBacked st
    → get_section st ≡ (some (a, n), st')
    → IsBacked st' × ((buf' : Mem) × (read_section st' a buf ≡ returned buf'))
unfolding get_section next
get_section-IsBacked st st' a n buf backed run =
    let (there, same) = next-some st st' (get_elem? st.sections st.section_index) (a, n) run in
    let (mem, e) =
      All-at (λ s. HasData st.mems s.0) st.sections st.section_index (a, n) backed there in
    let (buf', copied, front, back) =
      read_section-copy (record st { section_index = st.section_index + 1 }) a mem buf e in
    subst (λ st''. IsBacked st'' × ((buf'' : Mem) × (read_section st'' a buf ≡ returned buf'')))
      same (backed, (buf', copied))
