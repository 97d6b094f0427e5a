-- ===== src/Elf/Image/Calls.antt =====
-- Calls of the loader in any order, and the loader that a reader of its interface has in mind.
use mathlib.Core.List.{map-append}
use cellift_meta.Base.{
  ℕ, ◌+◌, ◌≡◌, refl, sym, ap, ◌∙◌, Option, none, some, Option-cases, List, [], ◌++◌, map, get_elem?,
  All, Mem, inl, inr,
}
use cellift_meta.Base.Run.{Run, returned, ◌>>=◌}
use cellift_meta.Calls.{answers, Agrees, aborting, answering, answers-Agrees}
use cellift_meta.Elf.{Class, Loader, unloaded}
use cellift_meta.Elf.Read.{mapped, read_elf}
use cellift_meta.Elf.Queue.{get_section, read_section}
use cellift_meta.Elf.Queue.Copy.{read_section-fetched, fetched, overlay}
use cellift_meta.Elf.Queue.Drain.{get_section-some, get_section-none}
use cellift_meta.Elf.Image.{Segment, image_file, data_at}
use cellift_meta.Elf.Image.InOrder.{IsWritable}
use cellift_meta.Elf.Image.Delivered.{target, image-IsLoadedFrom, data_at-append}

-- A file that was written from segments is loaded, the next section is asked for, or the data at an
-- address.
pub data Call : Type 0 where
  load : Class → ℕ → List Segment → Call
  next : Call
  fetch : ℕ → Mem → Call

pub data Answer : Type 0 where
  done : Answer
  section : Option (ℕ × ℕ) → Answer
  buffer : Mem → Answer

-- The calls of the program.
unfoldable pub loader_step : Call → Loader → Run (Answer × Loader)
unfolding read_elf get_section read_section
loader_step (load c entry ss) st =
    read_elf (mapped (image_file c entry ss)) st >>= λ st'. returned (done, st')
loader_step next st = let (s, st') = get_section st in returned (section s, st')
loader_step (fetch a buf) st = read_section st a buf >>= λ buf'. returned (buffer buf', st)

-- All segments loaded so far, in order, and how many of them have been given.
pub record Shelf : Type 0 where
  pub all : List Segment
  pub given : ℕ

abbrev pub empty_shelf : Shelf
empty_shelf = record { all = []; given = 0 }

abbrev pub give : Option (ℕ × ℕ) → Shelf → Run (Answer × Shelf)
give none shelf = returned (section none, shelf)
give (some s) shelf = returned (section (some s), record shelf { given = shelf.given + 1 })

-- What the calls mean.
unfoldable pub shelf_step : Call → Shelf → Run (Answer × Shelf)
unfolding data_at
shelf_step (load c entry ss) shelf = returned (done, record shelf { all = shelf.all ++ ss })
shelf_step next shelf = give (get_elem? (map target shelf.all) shelf.given) shelf
shelf_step (fetch a buf) shelf =
    fetched (data_at a shelf.all) buf >>= λ buf'. returned (buffer buf', shelf)

-- A loader that holds what is on the shelf.
abbrev IsShelf : Shelf → Loader → Type 0
IsShelf shelf st =
    (st.sections ≡ map target shelf.all)
    × ((a : ℕ) → st.mems a ≡ data_at a shelf.all)
    × (st.section_index ≡ shelf.given)

-- The files that are loaded can be written.
abbrev pub IsCallable : Call → Type 0
IsCallable (load c entry ss) = IsWritable c entry ss
IsCallable next = Unit {0}
IsCallable (fetch a buf) = Unit {0}

load-Agrees :
    (c : Class) (entry : ℕ) (ss : List Segment) (shelf : Shelf) (st : Loader)
    → IsWritable c entry ss
    → IsShelf shelf st
    → Agrees IsShelf (loader_step (load c entry ss) st) (shelf_step (load c entry ss) shelf)
unfolding loader_step shelf_step
load-Agrees c entry ss shelf st writable (sections, mems, index) =
    let (st', run, (entry', sections', mems', kept', index')) =
      image-IsLoadedFrom c entry ss st writable in
    answering done st' (record shelf { all = shelf.all ++ ss })
      (ap (λ r. r >>= λ st''. returned (done, st'')) run) refl
      (
        sections' ∙ ap (λ l. l ++ map target ss) sections ∙ sym (map-append target shelf.all ss),
        λ a. data_at-append a shelf.all ss (st.mems a) (st'.mems a) (mems a) (mems' a) (kept' a),
        index' ∙ index,
      )

next-Agrees :
    (shelf : Shelf) (st : Loader)
    → IsShelf shelf st
    → Agrees IsShelf (loader_step next st) (shelf_step next shelf)
unfolding loader_step shelf_step
next-Agrees shelf st (sections, mems, index) =
    let same : get_elem? st.sections st.section_index
        ≡ get_elem? (map target shelf.all) shelf.given =
      ap (λ l. get_elem? l st.section_index) sections
      ∙ ap (get_elem? (map target shelf.all)) index in
    elim (Option-cases (get_elem? (map target shelf.all) shelf.given)) [
      | inl end ↦
          answering (section none) st shelf
            (ap (λ (r : Option (ℕ × ℕ) × Loader). returned (section r.0, r.1))
              (get_section-none st (same ∙ end)))
            (ap (λ o. give o shelf) end) (sections, mems, index)
      | inr (s, there) ↦
          answering (section (some s)) (record st { section_index = st.section_index + 1 })
            (record shelf { given = shelf.given + 1 })
            (ap (λ (r : Option (ℕ × ℕ) × Loader). returned (section r.0, r.1))
              (get_section-some st s (same ∙ there)))
            (ap (λ o. give o shelf) there) (sections, mems, ap (λ i. i + 1) index)
    ]

fetch-Agrees :
    (a : ℕ) (buf : Mem) (shelf : Shelf) (st : Loader)
    → IsShelf shelf st
    → Agrees IsShelf (loader_step (fetch a buf) st) (shelf_step (fetch a buf) shelf)
unfolding loader_step shelf_step
fetch-Agrees a buf shelf st (sections, mems, index) =
    let run : read_section st a buf ≡ fetched (data_at a shelf.all) buf =
      read_section-fetched st a buf ∙ ap (λ o. fetched o buf) (mems a) in
    let follow : Run Mem → Run (Answer × Loader) = λ r. r >>= λ buf'. returned (buffer buf', st) in
    let shown : Run Mem → Run (Answer × Shelf) = λ r. r >>= λ buf'. returned (buffer buf', shelf) in
    elim (Option-cases (data_at a shelf.all)) [
      | inl nothing ↦
          aborting (ap follow (run ∙ ap (λ o. fetched o buf) nothing))
            (ap (λ o. shown (fetched o buf)) nothing)
      | inr (mem, there) ↦
          answering (buffer (overlay mem buf)) st shelf
            (ap follow (run ∙ ap (λ o. fetched o buf) there))
            (ap (λ o. shown (fetched o buf)) there) (sections, mems, index)
    ]

step-Agrees :
    (call : Call) (shelf : Shelf) (st : Loader)
    → IsCallable call
    → IsShelf shelf st
    → Agrees IsShelf (loader_step call st) (shelf_step call shelf)
step-Agrees (load c entry ss) shelf st writable h = load-Agrees c entry ss shelf st writable h
step-Agrees next shelf st callable h = next-Agrees shelf st h
step-Agrees (fetch a buf) shelf st callable h = fetch-Agrees a buf shelf st h

-- Any sequence of calls, of `read_elf` on files that were written from segments, fewer than 2^16,
-- whose data are not empty and fit into their memory of less than 2^63 bytes, and where the entry,
-- the addresses and sizes of the segments and the size of the file are numbers of the width of an
-- address, of `get_section` and of `read_section`, in any order, gets from the program the answers
-- that a list of all segments loaded so far and the number of those already given determine: a file
-- adds its segments at the end, `get_section` gives the first segment not yet given, or none, and
-- `read_section` puts the data of the first segment at its address in front of the buffer; and the
-- program aborts at the same call, when there are no data for an address.
pub answers-loader_step :
    (calls : List Call)
    → All IsCallable calls
    → answers loader_step calls unloaded ≡ answers shelf_step calls empty_shelf
unfolding data_at
answers-loader_step calls callable =
    answers-Agrees loader_step shelf_step IsShelf IsCallable
      (λ call shelf st writable h. step-Agrees call shelf st writable h) calls empty_shelf unloaded
      callable (refl, λ a. refl, refl)
