-- ===== src/Taint/Tests.antt =====
-- A small taint file, and what the theorems say of it.
use cellift_meta.Base.{
  ℕ, ◌<◌, ◌≤◌, ◌≡◌, refl, Option, none, some, List, [], ◌∷◌, get_elem?, store, Mem, arith, ◌⊎◌,
  false, true,
}
use cellift_meta.Base.Run.{returned, exited, strayed, ◌>>=◌}
use cellift_meta.Taint.{Taint, Assignments, untainted, init_taint_vectors}
use cellift_meta.Taint.Stream.{extract_number, stream, stopped}
use cellift_meta.Taint.Read.{read_taints, add_taint}
use cellift_meta.Taint.Queue.{get_taint_section, read_taint_section}
use cellift_meta.Taint.Hex.{
  Cased, are_hex, read_taint_section-hex_string, read_taint_section-exited,
}
use cellift_meta.Taint.Text.{Entry, IsEntry, text, add_all}
use cellift_meta.Taint.Consistent.{HasTaint, IsConsistent}
use cellift_meta.Taint.Spec.{Holds, sections_of, last_taint, read_taints-Holds}
use cellift_meta.Taint.Delivered.{read_taint_section-text}
use cellift_meta.Source.{drain}
use cellift_meta.Calls.{answers}
use cellift_meta.Elf.Queue.Copy.{overlay}
use cellift_meta.Taint.Ledger.{Call, read, next, fetch, done, section, buffer, ledger_step}
use cellift_meta.Taint.Calls.{taint_step, answers-taint_step}
use cellift_meta.Taint.Malformed.{short_text, read_taints-strayed, read_taints-short_text}
use cellift_meta.Taint.Drain.{taint_source, read_taints-drain_taint}
use cellift_meta.Taint.Keep.{read_taints-IsConsistent, get_taint_section-IsConsistent}

-- `1 0x80 2 ff0A`
abbrev entry : Entry
entry = record {
  id = (1, []);
  offset = (8, 0 ∷ []);
  num_bytes = (2, []);
  contents = (b'f', b'f' ∷ b'0' ∷ b'A' ∷ []);
}

text_run :
    text (entry ∷ [])
    ≡ b'1' ∷ b' ' ∷ b'0' ∷ b'x' ∷ b'8' ∷ b'0' ∷ b' ' ∷ b'2' ∷ b' ' ∷ b'f' ∷ b'f' ∷ b'0' ∷ b'A' ∷ 10
      ∷ []
text_run = refl

-- Numbers with a sign, without a digit, and too large.
number_runs :
    (extract_number 10 none (stream (b' ' ∷ b'-' ∷ b'1' ∷ []))
      ≡ (some 18446744073709551615, stopped))
    × (extract_number 16 none (stream (b'0' ∷ b'x' ∷ [])) ≡ (some 0, stopped))
    × (extract_number 16 (some 7) (stream []) ≡ (some 7, stopped))
unfolding extract_number
number_runs = (refl, refl, refl)

abbrev two_taints : Taint
two_taints = record {
  sections = [] ∷ ((0x80, 2) ∷ []) ∷ [];
  assignments = (λ _. none) ∷ store (λ _. none) 0x80 (some (b'f' ∷ b'f' ∷ b'0' ∷ b'A' ∷ [])) ∷ [];
  section_index = 0 ∷ 0 ∷ [];
}

-- An id that the vectors do not have.
out_of_range_run : read_taints (some (text (entry ∷ []))) untainted ≡ strayed
unfolding read_taints
out_of_range_run = refl

entry-IsEntry : IsEntry entry
entry-IsEntry = (
  (omega arith, tt, omega arith),
  (omega arith, (omega arith, tt), omega arith),
  (omega arith, tt, omega arith),
  (refl, (refl, (refl, (refl, tt)))),
)

read_taints-IsConsistent_example :
    (st : Taint) × ((init_taint_vectors 2 untainted >>= λ st1.
    read_taints (some (text (entry ∷ []))) st1)
      ≡ returned st)
    × IsConsistent st
read_taints-IsConsistent_example =
    read_taints-IsConsistent (entry ∷ []) 2 (omega arith) (entry-IsEntry, tt) (omega arith, tt)

two_taints-IsConsistent : IsConsistent two_taints
two_taints-IsConsistent =
    ((tt, omega arith), ((((b'f' ∷ b'f' ∷ b'0' ∷ b'A' ∷ [], refl), tt), omega arith), tt))

get_taint_section-IsConsistent_example :
    (o : Option (ℕ × ℕ)) × (st' : Taint) × (get_taint_section two_taints 1 ≡ returned (o, st'))
    × IsConsistent st'
    × (((o ≡ none) × (st' ≡ two_taints))
        ⊎ ((s : ℕ × ℕ) × (m : Assignments) × (o ≡ some s)
            × (get_elem? st'.assignments 1 ≡ some m)
            × HasTaint m s))
get_taint_section-IsConsistent_example =
    get_taint_section-IsConsistent two_taints 1 two_taints-IsConsistent (omega arith)

-- The bytes that `fF0a` spells.
abbrev two_bytes : List Cased
two_bytes =
    record { byte = 255; upper_high = false; upper_low = true }
    ∷ record { byte = 10; upper_high = false; upper_low = false }
    ∷ []

abbrev lower : Assignments
lower = store (λ _. none) 0x80 (some (b'f' ∷ b'F' ∷ b'0' ∷ b'a' ∷ []))

read_taint_section-hex_string_example :
    (buf' : Mem) × (read_taint_section
        (record untainted { assignments = lower ∷ [] })
        0
        0x80
        (λ _. 5)
      ≡ returned (record untainted { assignments = lower ∷ [] }, buf'))
    × ((k : ℕ) → k < 2 → some (buf' k) ≡ get_elem? (255 ∷ 10 ∷ []) k)
    × ((k : ℕ) → 2 ≤ k → buf' k ≡ 5)
read_taint_section-hex_string_example =
    read_taint_section-hex_string (record untainted { assignments = lower ∷ [] }) 0 0x80 lower
      two_bytes (λ _. 5) refl refl (omega arith, (omega arith, tt))

abbrev wrong : Assignments
wrong = store (λ _. none) 0x80 (some (b'f' ∷ b'g' ∷ []))

read_taint_section-exited_example :
    read_taint_section (record untainted { assignments = wrong ∷ [] }) 0 0x80 (λ _. 5) ≡ exited 0
unfolding are_hex
read_taint_section-exited_example =
    read_taint_section-exited (record untainted { assignments = wrong ∷ [] }) 0 0x80 wrong
      (b'f' ∷ b'g' ∷ []) (λ _. 5) refl refl refl

read_taints-Holds_example :
    (st : Taint) × ((init_taint_vectors 2 untainted >>= λ st1.
    read_taints (some (text (entry ∷ entry ∷ []))) st1)
      ≡ returned st)
    × Holds st 1
        (sections_of 1 (entry ∷ entry ∷ []))
        (λ a. last_taint 1 a (entry ∷ entry ∷ []) none)
read_taints-Holds_example =
    read_taints-Holds (entry ∷ entry ∷ []) 2 1 (omega arith) (omega arith)
      (entry-IsEntry, (entry-IsEntry, tt)) (omega arith, (omega arith, tt))

abbrev lower_entry : Entry
lower_entry = record entry { contents = (b'f', b'F' ∷ b'0' ∷ b'a' ∷ []) }

-- The second line of the file gives the same address another taint.
read_taint_section-text_example :
    (st : Taint) × (buf' : Mem) × ((init_taint_vectors 2 untainted >>= λ st1.
    read_taints (some (text (entry ∷ lower_entry ∷ []))) st1)
      ≡ returned st)
    × (read_taint_section st 1 0x80 (λ _. 5) ≡ returned (st, buf'))
    × ((k : ℕ) → k < 2 → some (buf' k) ≡ get_elem? (255 ∷ 10 ∷ []) k)
    × ((k : ℕ) → 2 ≤ k → buf' k ≡ 5)
unfolding last_taint
read_taint_section-text_example =
    read_taint_section-text (entry ∷ lower_entry ∷ []) 2 1 0x80 two_bytes (λ _. 5) (omega arith)
      (omega arith) (entry-IsEntry, (entry-IsEntry, tt)) (omega arith, (omega arith, tt)) refl
      (omega arith, (omega arith, tt))

read_taints-drain_taint_example :
    (st : Taint) × (st' : Taint) × ((init_taint_vectors 2 untainted >>= λ st1.
    read_taints (some (text (entry ∷ lower_entry ∷ []))) st1)
      ≡ returned st)
    × (drain (taint_source 1) 3 st ≡ returned (some ((0x80, 2) ∷ (0x80, 2) ∷ [], st')))
unfolding sections_of
read_taints-drain_taint_example =
    read_taints-drain_taint (entry ∷ lower_entry ∷ []) 2 1 3 (omega arith) (omega arith)
      (entry-IsEntry, (entry-IsEntry, tt)) (omega arith, (omega arith, tt)) (omega arith)

abbrev far_entry : Entry
far_entry = record entry { id = (7, []) }

read_taints-strayed_example :
    read_taints (some (text (entry ∷ far_entry ∷ entry ∷ []))) two_taints ≡ strayed
read_taints-strayed_example =
    read_taints-strayed (entry ∷ []) far_entry (entry ∷ []) two_taints two_taints-IsConsistent
      (
        entry-IsEntry,
        (
          ((omega arith, tt, omega arith), entry-IsEntry.1, entry-IsEntry.2, entry-IsEntry.3),
          (entry-IsEntry, tt),
        ),
      )
      (omega arith, tt) (omega arith)

-- The second line of the file is `0 0x90`.
abbrev short_entry : Entry
short_entry = record entry { id = (0, []); offset = (9, 0 ∷ []) }

read_taints-short_text_example : read_taints (some (short_text entry short_entry [])) two_taints ≡ (
    add_taint 1 0x80 2 (b'f' ∷ b'f' ∷ b'0' ∷ b'A' ∷ []) two_taints >>= λ st1.
    add_taint 0 0x90 2 (b'f' ∷ b'f' ∷ b'0' ∷ b'A' ∷ []) st1 >>= λ st2. add_all [] st2)
read_taints-short_text_example =
    read_taints-short_text entry short_entry [] two_taints entry-IsEntry
      (
        (omega arith, tt, omega arith),
        (omega arith, (omega arith, tt), omega arith),
        entry-IsEntry.2,
        entry-IsEntry.3,
      )
      tt

-- The sections of both ids, the taint of the entry, and no taint at another address.
abbrev mixed_calls : List Call
mixed_calls =
    next 1
    ∷ read (entry ∷ [])
    ∷ next 1
    ∷ fetch 1 0x80 (λ _. 5)
    ∷ next 1
    ∷ next 0
    ∷ fetch 1 0x90 (λ _. 5)
    ∷ read (entry ∷ [])
    ∷ next 1
    ∷ []

answers-taint_step_example :
    (init_taint_vectors 2 untainted >>= λ st. answers taint_step mixed_calls st)
    ≡ returned (
        section none
        ∷ done
        ∷ section (some (0x80, 2))
        ∷ buffer (overlay (0xff ∷ 0x0a ∷ []) (λ _. 5))
        ∷ section none
        ∷ section none
        ∷ buffer (λ _. 5)
        ∷ done
        ∷ section (some (0x80, 2))
        ∷ [])
unfolding answers ledger_step
answers-taint_step_example = answers-taint_step 2 mixed_calls (omega arith) (
  omega arith,
  (
    ((entry-IsEntry, tt), (omega arith, tt)),
    (
      omega arith,
      (
        omega arith,
        (
          omega arith,
          (
            omega arith,
            (omega arith, (((entry-IsEntry, tt), (omega arith, tt)), (omega arith, tt))),
          ),
        ),
      ),
    ),
  ),
)
