-- ===== src/Taint/Spaced/Tests.antt =====
-- A taint file with tabs, spaces, carriage returns and empty lines, and one with a line of blanks.
use cellift_meta.Base.{◌≡◌, refl, false, none, some, [], ◌∷◌, arith}
use cellift_meta.Taint.{Taint}
use cellift_meta.Taint.Read.{read_taints}
use cellift_meta.Taint.Text.{Entry, IsEntry, add_all}
use cellift_meta.Taint.Spaced.{Spaced, IsSpaced, spaced_text}
use cellift_meta.Taint.Spaced.Lines.{read_taints-spaced}
use cellift_meta.Taint.Spaced.Blank.{blank_text, read_taints-blank_text}

-- `0 0xa0 1 5A`
abbrev entry : Entry
entry = record {
  id = (0, []);
  offset = (10, 0 ∷ []);
  num_bytes = (1, []);
  contents = (b'5', b'A' ∷ []);
}

entry-IsEntry : IsEntry entry
entry-IsEntry = (
  (omega arith, tt, omega arith),
  (omega arith, (omega arith, tt), omega arith),
  (omega arith, tt, omega arith),
  (refl, (refl, tt)),
)

abbrev one_taint : Taint
one_taint = record { sections = [] ∷ []; assignments = (λ _. none) ∷ []; section_index = 0 ∷ [] }

abbrev spaced : Spaced
spaced = record {
  entry = entry;
  empty_lines = 2;
  lead = 9 ∷ [];
  gap_offset = (b' ', b' ' ∷ []);
  gap_num = (9, []);
  gap_contents = (b' ', 9 ∷ []);
  trail = 13 ∷ [];
}

spaced-IsSpaced : IsSpaced spaced
spaced-IsSpaced = (
  entry-IsEntry,
  ((refl, refl), tt),
  ((refl, refl), ((refl, refl), tt)),
  ((refl, refl), tt),
  ((refl, refl), ((refl, refl), tt)),
  ((refl, refl), tt),
)

read_taints-spaced_example :
    read_taints (some (spaced_text false (spaced ∷ spaced ∷ []))) one_taint
    ≡ add_all (entry ∷ entry ∷ []) one_taint
read_taints-spaced_example =
    read_taints-spaced false (spaced ∷ spaced ∷ []) one_taint
      (spaced-IsSpaced, (spaced-IsSpaced, tt))

read_taints-blank_text_example :
    read_taints (some (blank_text (entry ∷ []) entry (13, []) [])) one_taint
    ≡ add_all (entry ∷ entry ∷ entry ∷ []) one_taint
read_taints-blank_text_example =
    read_taints-blank_text (entry ∷ []) entry (13, []) [] one_taint (entry-IsEntry, tt)
      entry-IsEntry ((refl, refl), tt) tt
