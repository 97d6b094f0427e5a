-- ===== src/Elf/Queue/Drain.antt =====
-- The loader as a source of sections.
use cellift_meta.Base.{ℕ, ◌+◌, ◌<◌, ◌≤◌, ◌≡◌, refl, ap, none, some, length, get_elem?, arith}
use cellift_meta.Base.Run.{returned}
use cellift_meta.Source.{
  Source, drop, drop-cons, drop-nil, drop_all, length-drop, drain, drain-pending,
}
use cellift_meta.Elf.{Loader}
use cellift_meta.Elf.Queue.{get_section}

pub get_section-some :
    (st : Loader) (s : ℕ × ℕ)
    → get_elem? st.sections st.section_index ≡ some s
    → get_section st ≡ (some s, record st { section_index = st.section_index + 1 })
unfolding get_section
get_section-some st s at = rw (at, get_section) refl

pub get_section-none :
    (st : Loader) → get_elem? st.sections st.section_index ≡ none → get_section st ≡ (none, st)
unfolding get_section
get_section-none st at = rw (at, get_section) refl

-- The loader whose sections are all given.
abbrev pub finished : Loader → Loader
finished st = record st { section_index = length st.sections }

abbrev pub loader_source : Source
loader_source = record {
  State = Loader;
  get = λ st. returned (get_section st);
  IsReady = λ st. st.section_index ≤ length st.sections;
  pending = λ st. drop st.section_index st.sections;
  finish = finished;
  get-none = λ st ready left.
      let (at, less) = drop-nil st.sections st.section_index left in
      (
        ap returned (get_section-none st at),
        ap (λ (i : ℕ). record st { section_index = i }) {x = length st.sections}
            {y = st.section_index} (omega arith),
      );
  get-some = λ st s rest ready left.
      let (at, left', less) = drop-cons st.sections st.section_index s rest left in
      (
        record st { section_index = st.section_index + 1 },
        ap returned (get_section-some st s at),
        omega arith,
        left',
        refl,
      );
}

-- Asked until it answers that there are no more, `get_section` gives the sections that it has not
-- given yet, each once and in the order of loading; it needs one call for each of them and one for the
-- end, and after that it goes on to say that there are no more.
pub drain-sections :
    (fuel : ℕ) (st : Loader)
    → st.section_index ≤ length st.sections
    → length st.sections < fuel + st.section_index
    → (drain loader_source fuel st
        ≡ returned (some (drop st.section_index st.sections, finished st)))
      × (get_section (finished st) ≡ (none, finished st))
drain-sections fuel st le enough =
    let len = length-drop st.sections st.section_index in
    (
      drain-pending loader_source fuel (drop st.section_index st.sections) st le refl (omega arith),
      get_section-none (finished st)
          (drop-nil st.sections (length st.sections) (drop_all st.sections)).0,
    )
