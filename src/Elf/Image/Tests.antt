-- ===== src/Elf/Image/Tests.antt =====
-- Files written from two segments, and what the theorems say of loading them.
use mathlib.Core.List.{Pairwise-pair}
use mathlib.Core.List.Perm
use mathlib.Core.HLevel.{¬_prop}
use mathlib.Mathlib.Data.Multiset.Defs.{of_list, coe-eq-coe}
use cellift_meta.Base.{ℕ, ◌≡◌, none, some, List, [], ◌∷◌, Mem, arith}
use cellift_meta.Base.Run.{returned, aborted}
use cellift_meta.Elf.{elf32, elf64, Loader, unloaded}
use cellift_meta.Elf.Layout.{size_of}
use cellift_meta.Elf.Read.{mapped, read_elf}
use cellift_meta.Elf.Queue.{read_section}
use cellift_meta.Elf.Image.{Segment, contents, data_at, image, image_file}
use cellift_meta.Elf.Image.InOrder.{IsWritable}
use cellift_meta.Elf.Image.Delivered.{IsDelivering, read_elf-image}
use cellift_meta.Elf.Image.Cut.{cut, read_elf-cut}
use cellift_meta.Calls.{answers}
use cellift_meta.Elf.Queue.Copy.{overlay}
use cellift_meta.Elf.Image.Calls.{
  Call, load, next, fetch, done, section, buffer, loader_step, shelf_step, answers-loader_step,
}
use cellift_meta.Elf.Image.Order.{read_elf-image_order}

-- Code and, behind it, data with zeros after them.
abbrev code_segment : Segment
code_segment = record { address = 0x1000; memsz = 2; payload = 0x13 ∷ 0x05 ∷ [] }

abbrev data_segment : Segment
data_segment = record { address = 0x2000; memsz = 5; payload = 1 ∷ 2 ∷ 3 ∷ [] }

abbrev two_segments : List Segment
two_segments = code_segment ∷ data_segment ∷ []

abbrev turned_segments : List Segment
turned_segments = data_segment ∷ code_segment ∷ []

two_segments-IsWritable : IsWritable elf32 0x1000 two_segments
unfolding contents size_of
two_segments-IsWritable = (
  (
    (omega arith, omega arith, omega arith, omega arith, omega arith),
    ((omega arith, omega arith, omega arith, omega arith, omega arith), tt),
  ),
  omega arith,
  omega arith,
  omega arith,
)

turned_segments-IsWritable : IsWritable elf64 0x1000 turned_segments
unfolding contents size_of
turned_segments-IsWritable = (
  (
    (omega arith, omega arith, omega arith, omega arith, omega arith),
    ((omega arith, omega arith, omega arith, omega arith, omega arith), tt),
  ),
  omega arith,
  omega arith,
  omega arith,
)

read_elf-image_example :
    (st : Loader) × (read_elf (mapped (image_file elf32 0x1000 two_segments)) unloaded
      ≡ returned st)
    × (st.entry ≡ 0x1000)
    × IsDelivering 3 two_segments st
read_elf-image_example =
    read_elf-image elf32 0x1000 two_segments 3 two_segments-IsWritable (omega arith)

read_elf-cut_example :
    read_elf (mapped (cut 150 (image_file elf32 0x1000 two_segments))) unloaded ≡ aborted
unfolding image contents size_of
read_elf-cut_example =
    read_elf-cut elf32 0x1000 150 two_segments unloaded two_segments-IsWritable (omega arith)

read_elf-image_order_example :
    (st : Loader) × (st' : Loader) × (read_elf
        (mapped (image_file elf32 0x1000 two_segments))
        unloaded
      ≡ returned st)
    × (read_elf (mapped (image_file elf64 0x1000 turned_segments)) unloaded ≡ returned st')
    × (of_list st.sections ≡ of_list st'.sections)
    × ((a : ℕ) (buf : Mem) → read_section st a buf ≡ read_section st' a buf)
read_elf-image_order_example =
    read_elf-image_order elf32 elf64 0x1000 0x1000 two_segments turned_segments
      two_segments-IsWritable turned_segments-IsWritable
      (coe-eq-coe.1 (Perm.swap data_segment code_segment []))
      ((Pairwise-pair {R = λ (s t : Segment). ¬ (s.address ≡ t.address)} (λ s t. ¬_prop)).1
        (λ e. absurd (omega arith)))

-- Sections are asked for while files are still loaded, and once more than there are any.
abbrev mixed_calls : List Call
mixed_calls =
    load elf32 0x1000 two_segments
    ∷ next
    ∷ load elf64 0x1000 turned_segments
    ∷ next
    ∷ fetch 0x2000 (λ _. 7)
    ∷ next
    ∷ next
    ∷ next
    ∷ []

answers-loader_step_example :
    answers loader_step mixed_calls unloaded
    ≡ returned (
        done
        ∷ section (some (0x1000, 2))
        ∷ done
        ∷ section (some (0x2000, 5))
        ∷ buffer (overlay (1 ∷ 2 ∷ 3 ∷ []) (λ _. 7))
        ∷ section (some (0x2000, 5))
        ∷ section (some (0x1000, 2))
        ∷ section none
        ∷ [])
unfolding answers shelf_step data_at
answers-loader_step_example =
    answers-loader_step mixed_calls (
      two_segments-IsWritable,
      (tt, (turned_segments-IsWritable, (tt, (tt, (tt, (tt, (tt, tt))))))),
    )
