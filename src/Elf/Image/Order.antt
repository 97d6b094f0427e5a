-- ===== src/Elf/Image/Order.antt =====
-- The order of the segments in a file does not matter, when they are at different addresses.
use mathlib.Core.List.{Perm, Permᴰ, Pairwise, Pairwise-cons, mem-cons_self}
use mathlib.Core.List.Perm
use mathlib.Core.List.Permᴰ
use mathlib.Core.Logic.{∥∥₁_elim}
use mathlib.Core.HLevel.{¬_prop}
use mathlib.Mathlib.Data.Multiset.Defs.{of_list, coe-eq-coe}
use cellift_meta.Base.{
  ℕ, ◌≡◌, refl, sym, ap, ◌∙◌, some, List, [], ◌∷◌, Mem, Bool-cases, inl, inr, ◌==◌, ==_iff,
  if◌then◌else◌,
}
use cellift_meta.Base.Run.{returned}
use cellift_meta.Elf.{Class, Loader, unloaded}
use cellift_meta.Elf.Read.{mapped, read_elf}
use cellift_meta.Elf.Queue.{read_section}
use cellift_meta.Elf.Queue.Copy.{read_section-fetched, fetched}
use cellift_meta.Elf.Image.{Segment, image_file, data_at}
use cellift_meta.Elf.Image.InOrder.{IsWritable}
use cellift_meta.Elf.Image.Delivered.{target, image-IsLoadedFrom}

abbrev Differs : Segment → Segment → Type 0
Differs s t = ¬ (s.address ≡ t.address)

-- No two segments are at the same address.
abbrev pub AreApart : List Segment → Type 0
AreApart ss = Pairwise Differs ss

data_at-swap :
    (a : ℕ) (s t : Segment) (ss : List Segment)
    → Differs s t
    → data_at a (s ∷ t ∷ ss) ≡ data_at a (t ∷ s ∷ ss)
unfolding data_at
data_at-swap a s t ss apart = elim (Bool-cases (a == s.address)) [
  | inr other ↦ rw (other) refl
  | inl here ↦ elim (Bool-cases (a == t.address)) [
    | inr other ↦ rw (here, other) refl
    | inl there ↦ absurd (apart (sym ((==_iff a s.address).0 here) ∙ (==_iff a t.address).0 there))
  ]
]

data_at-Permᴰ :
    (a : ℕ) (ss ss' : List Segment) → Permᴰ ss ss' → AreApart ss → data_at a ss ≡ data_at a ss'
unfolding data_at
data_at-Permᴰ a [] [] Permᴰ.nil apart = refl
data_at-Permᴰ a (s ∷ ss) (s' ∷ ss') (Permᴰ.cons e d) apart =
    ap (λ o. if a == s.address then some s.payload else o)
      (data_at-Permᴰ a ss ss' d (((Pairwise-cons {R = Differs}).0 apart).1))
    ∙ ap (λ u. data_at a (u ∷ ss')) e
data_at-Permᴰ a (s ∷ t ∷ ss) (t' ∷ s' ∷ _) (Permᴰ.swap e e') apart =
    data_at-swap a s t ss (((Pairwise-cons {R = Differs}).0 apart).0 t mem-cons_self)
    ∙ ap (λ u. data_at a (u ∷ s ∷ ss)) e'
    ∙ ap (λ u. data_at a (t' ∷ u ∷ ss)) e
data_at-Permᴰ a ss ss' (Permᴰ.trans {l₂ = ss1} d d') apart =
    data_at-Permᴰ a ss ss1 d apart
    ∙ data_at-Permᴰ a ss1 ss' d'
        (Permᴰ.pairwise {R = Differs} (λ s t. ¬_prop) (λ s t ne e. ne (sym e)) d apart)

data_at-perm :
    (a : ℕ) (ss ss' : List Segment) → Perm ss ss' → AreApart ss → data_at a ss ≡ data_at a ss'
data_at-perm a ss ss' p apart = ∥∥₁_elim p (hlevel) (λ d. data_at-Permᴰ a ss ss' d apart)

-- Two files, of either class, that were written from the same segments in any order, fewer than
-- 2^16, whose data are not empty and fit into their memory of less than 2^63 bytes, and where the
-- entry, the addresses and sizes of the segments and the size of the file are numbers of the width
-- of an address, when no two of the segments are at the same address: both are loaded, the sections
-- of the two loaders are the same up to their order, and `read_section` does the same with both.
pub read_elf-image_order :
    (c c' : Class) (entry entry' : ℕ) (ss ss' : List Segment)
    → IsWritable c entry ss
    → IsWritable c' entry' ss'
    → of_list ss ≡ of_list ss'
    → AreApart ss
    → (st : Loader) × (st' : Loader) × (read_elf (mapped (image_file c entry ss)) unloaded
        ≡ returned st)
      × (read_elf (mapped (image_file c' entry' ss')) unloaded ≡ returned st')
      × (of_list st.sections ≡ of_list st'.sections)
      × ((a : ℕ) (buf : Mem) → read_section st a buf ≡ read_section st' a buf)
read_elf-image_order c c' entry entry' ss ss' writable writable' same apart =
    let (st, run, (e, sections, mems, kept, index)) =
      image-IsLoadedFrom c entry ss unloaded writable in
    let (st', run', (e', sections', mems', kept', index')) =
      image-IsLoadedFrom c' entry' ss' unloaded writable' in
    let p : Perm ss ss' = coe-eq-coe.0 same in
    (
      st,
      st',
      run,
      run',
      ap of_list sections ∙ coe-eq-coe.1 (Perm.map target p) ∙ ap of_list (sym sections'),
      λ a buf.
          read_section-fetched st a buf
          ∙ ap (λ o. fetched o buf)
              (mems a refl ∙ data_at-perm a ss ss' p apart ∙ sym (mems' a refl))
          ∙ sym (read_section-fetched st' a buf),
    )
