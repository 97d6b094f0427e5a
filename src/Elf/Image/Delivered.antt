-- ===== src/Elf/Image/Delivered.antt =====
-- A written file is delivered to the simulation as it was written.
use cellift_meta.Base.{
  ℕ, ◌<◌, ◌≡◌, refl, sym, ap, ◌∙◌, subst, Option, none, some, List, [], ◌∷◌, ◌++◌, map, length,
  length-map, Mem, Bool-cases, inl, inr, ◌==◌, arith,
}
use cellift_meta.Base.Run.{returned}
use cellift_meta.Source.{drop, drain, drain-pending}
use cellift_meta.Elf.{Class, Loader, unloaded}
use cellift_meta.Elf.Header.{ehdr}
use cellift_meta.Elf.Segments.Spec.{headers, with_data, section_of, first_data}
use cellift_meta.Elf.Read.{class_of, mapped, read_elf}
use cellift_meta.Elf.Read.Loaded.{segments, read_elf-IsLoadedWith}
use cellift_meta.Elf.Read.Loadable.{IsInOrder, IsLoadable, read_elf-total}
use cellift_meta.Elf.Queue.{read_section}
use cellift_meta.Elf.Queue.Copy.{read_section-fetched, fetched}
use cellift_meta.Elf.Queue.Drain.{loader_source, finished}
use cellift_meta.Elf.Image.{Segment, data_start, image_file, data_at}
use cellift_meta.Elf.Image.Parts.{image-HasParts}
use cellift_meta.Elf.Image.Segments.{with_data-described, described-sections, described-data}
use cellift_meta.Elf.Image.InOrder.{
  IsWritable, image-HasMagic, image-long, image-IsEhdr, image_headers, image-AreDescribed,
  image-IsInOrder,
}

image-IsLoadable :
    (c : Class) (entry : ℕ) (ss : List Segment)
    → IsWritable c entry ss
    → IsLoadable (image_file c entry ss)
image-IsLoadable c entry ss writable =
    let (magic, class) = image-HasMagic c entry ss in
    (
      image-long c entry ss,
      magic,
      subst (λ k. IsInOrder k (image_file c entry ss)) (sym class)
          (image-IsInOrder c entry ss writable),
    )

-- All program headers are segments with data.
image-segments :
    (c : Class) (entry : ℕ) (ss : List Segment)
    → IsWritable c entry ss
    → segments (image_file c entry ss) ≡ image_headers c entry ss
image-segments c entry ss writable =
    let f = image_file c entry ss in
    let (magic, class) = image-HasMagic c entry ss in
    ap (λ k. with_data (headers k f (ehdr k f) (ehdr k f).e_phnum 0)) class
    ∙ with_data-described c (data_start c ss) ss (image_headers c entry ss) (writable.0)
        (image-AreDescribed c entry ss writable)

-- The address and the size in memory of a segment.
abbrev pub target : Segment → ℕ × ℕ
target s = (s.address, s.memsz)

image-sections :
    (c : Class) (entry : ℕ) (ss : List Segment)
    → IsWritable c entry ss
    → map section_of (segments (image_file c entry ss)) ≡ map target ss
image-sections c entry ss writable =
    ap (map section_of) (image-segments c entry ss writable)
    ∙ described-sections (data_start c ss) ss (image_headers c entry ss)
        (image-AreDescribed c entry ss writable)

image-data :
    (c : Class) (entry a : ℕ) (ss : List Segment)
    → IsWritable c entry ss
    → first_data (image_file c entry ss) (segments (image_file c entry ss)) none a ≡ data_at a ss
image-data c entry a ss writable =
    let f = image_file c entry ss in
    ap (λ phs. first_data f phs none a) (image-segments c entry ss writable)
    ∙ described-data f (data_start c ss) a ss (image_headers c entry ss)
        ((image-HasParts c entry ss).2) (image-AreDescribed c entry ss writable)

image-entry :
    (c : Class) (entry : ℕ) (ss : List Segment)
    → IsWritable c entry ss
    → (ehdr (class_of (image_file c entry ss)) (image_file c entry ss)).e_entry ≡ entry
image-entry c entry ss writable =
    let f = image_file c entry ss in
    ap (λ k. (ehdr k f).e_entry) ((image-HasMagic c entry ss).1)
    ∙ (image-IsEhdr c entry ss writable).0

-- A loader behind the written file of the segments `ss`: what it had before and what they add.
abbrev pub IsLoadedFrom : ℕ → List Segment → Loader → Loader → Type 0
IsLoadedFrom entry ss st st' =
    (st'.entry ≡ entry)
    × (st'.sections ≡ st.sections ++ map target ss)
    × ((a : ℕ) → st.mems a ≡ none → st'.mems a ≡ data_at a ss)
    × ((a : ℕ) (mem : List ℕ) → st.mems a ≡ some mem → st'.mems a ≡ some mem)
    × (st'.section_index ≡ st.section_index)

pub image-IsLoadedFrom :
    (c : Class) (entry : ℕ) (ss : List Segment) (st : Loader)
    → IsWritable c entry ss
    → (st' : Loader) × (read_elf (mapped (image_file c entry ss)) st ≡ returned st')
      × IsLoadedFrom entry ss st st'
unfolding first_data
image-IsLoadedFrom c entry ss st writable =
    let f = image_file c entry ss in
    let (st', run) = read_elf-total f st (image-IsLoadable c entry ss writable) in
    let (magic, long, (sections', mems', entry', index')) = read_elf-IsLoadedWith f st st' run in
    (
      st',
      run,
      (
        entry' ∙ image-entry c entry ss writable,
        sections' ∙ ap (λ l. st.sections ++ l) (image-sections c entry ss writable),
        λ a e.
            mems' a ∙ ap (λ o. first_data f (segments f) o a) e ∙ image-data c entry a ss writable,
        λ a mem e. mems' a ∙ ap (λ o. first_data f (segments f) o a) e,
        index',
      ),
    )

-- What a loader gives: for the segments `ss`, their addresses and sizes in order, and for each address
-- the data of the first of them there.
abbrev pub IsDelivering : ℕ → List Segment → Loader → Type 0
IsDelivering fuel ss st =
    (drain loader_source fuel st ≡ returned (some (map target ss, finished st)))
    × ((a : ℕ) (buf : Mem) → read_section st a buf ≡ fetched (data_at a ss) buf)

IsDelivering-all :
    (fuel : ℕ) (ss : List Segment) (st : Loader)
    → length ss < fuel
    → st.section_index ≡ 0
    → st.sections ≡ map target ss
    → ((a : ℕ) → st.mems a ≡ data_at a ss)
    → IsDelivering fuel ss st
IsDelivering-all fuel ss st enough index sections mems =
    let len = length-map target ss in
    (
      drain-pending loader_source fuel (map target ss) st (omega arith)
          (ap (λ (i : ℕ). drop i st.sections) index ∙ sections) (omega arith),
      λ a buf. read_section-fetched st a buf ∙ ap (λ o. fetched o buf) (mems a),
    )

-- Write a file of either class from segments, fewer than 2^16, whose data are not empty and fit into
-- their memory of less than 2^63 bytes, and where the entry, the addresses and sizes of the segments
-- and the size of the file are numbers of the width of an address, and load it into an empty loader:
-- the call returns, the entry is the one that was written, `get_section`, asked until there are no
-- more, gives the address and the size in memory of each segment once and in order, and
-- `read_section` puts the data of the first segment at its address in front of the buffer, writes
-- nothing behind them, and aborts at every other address.
pub read_elf-image :
    (c : Class) (entry : ℕ) (ss : List Segment) (fuel : ℕ)
    → IsWritable c entry ss
    → length ss < fuel
    → (st : Loader) × (read_elf (mapped (image_file c entry ss)) unloaded ≡ returned st)
      × (st.entry ≡ entry)
      × IsDelivering fuel ss st
read_elf-image c entry ss fuel writable enough =
    let (st, run, (entry', sections', mems', kept, index')) =
      image-IsLoadedFrom c entry ss unloaded writable in
    (st, run, entry', IsDelivering-all fuel ss st enough index' sections' (λ a. mems' a refl))

pub data_at-append :
    (a : ℕ) (ss ss' : List Segment) (old new : Option (List ℕ))
    → old ≡ data_at a ss
    → (old ≡ none → new ≡ data_at a ss')
    → ((mem : List ℕ) → old ≡ some mem → new ≡ some mem)
    → new ≡ data_at a (ss ++ ss')
unfolding data_at
data_at-append a [] ss' old new e none' some' = none' e
data_at-append a (s ∷ ss) ss' old new e none' some' = elim (Bool-cases (a == s.address)) [
  | inl here ↦ some' s.payload (e ∙ rw (here) refl) ∙ rw (here) refl
  | inr there ↦ data_at-append a ss ss' old new (e ∙ rw (there) refl) none' some' ∙ rw (there) refl
]
