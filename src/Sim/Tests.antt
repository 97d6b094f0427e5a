-- ===== src/Sim/Tests.antt =====
-- Environments and a testbench that counts, and what the theorems say of them.
use cellift_meta.Base.{
  ℕ, ◌+◌, ◌<◌, ◌≤◌, ◌≡◌, refl, none, some, List, [], ◌∷◌, pos, negsuc, arith, inr, ◌⊎◌, true, false,
}
use cellift_meta.Base.Run.{returned, aborted, exited, strayed}
use cellift_meta.Sim.Environment.{
  Environment, sram_taints_path, get_sram_elf_object_filename, get_sram_taints_path,
  cl_get_tracefile,
}
use cellift_meta.Sim.Ticks.{simlen_name, atoi, get_sim_length_cycles}
use cellift_meta.Sim.Ticks.Length.{get_sim_length_cycles-cases, get_sim_length_cycles-bound}

-- Every variable is `120`.
abbrev every_120 : Environment
every_120 name = some (b'1' ∷ b'2' ∷ b'0' ∷ [])

abbrev no_variables : Environment
no_variables name = none

atoi_run : atoi (b' ' ∷ b'-' ∷ b'4' ∷ b'2' ∷ b'x' ∷ []) ≡ returned (negsuc 41)
unfolding atoi
atoi_run = refl

atoi_overflow :
    atoi (b'2' ∷ b'1' ∷ b'4' ∷ b'7' ∷ b'4' ∷ b'8' ∷ b'3' ∷ b'6' ∷ b'4' ∷ b'8' ∷ []) ≡ strayed
unfolding atoi
atoi_overflow = refl

length_run : get_sim_length_cycles every_120 (pos 5) ≡ returned (pos 115)
unfolding get_sim_length_cycles
length_run = refl

negative_run : get_sim_length_cycles every_120 (negsuc 0) ≡ aborted
unfolding get_sim_length_cycles
negative_run = refl

names_run :
    (get_sram_elf_object_filename no_variables ≡ exited 1)
    × (get_sram_taints_path no_variables ≡ sram_taints_path)
    × (cl_get_tracefile false no_variables ≡ returned [])
    × (cl_get_tracefile true no_variables ≡ exited 1)
unfolding get_sram_elf_object_filename get_sram_taints_path cl_get_tracefile
names_run = (refl, refl, refl, refl)

get_sim_length_cycles-cases_example :
    ((every_120 simlen_name ≡ none) × (get_sim_length_cycles every_120 (pos 5) ≡ exited 1))
    ⊎ (((5 < 120) × (get_sim_length_cycles every_120 (pos 5) ≡ returned (pos 115)))
        ⊎ ((120 ≤ 5) × (get_sim_length_cycles every_120 (pos 5) ≡ aborted)))
get_sim_length_cycles-cases_example =
    get_sim_length_cycles-cases every_120 5 1 (2 ∷ 0 ∷ [])
      (inr (refl, (omega arith, (omega arith, (omega arith, tt)), omega arith)))

get_sim_length_cycles-bound_example :
    (l : ℕ) × (k : ℕ) × (pos 5 ≡ pos l)
    × (pos 115 ≡ pos k)
    × (0 < k)
    × (l + k < 2147483648)
    × ((str : List ℕ) × (every_120 simlen_name ≡ some str) × (atoi str ≡ returned (pos (l + k))))
unfolding get_sim_length_cycles
get_sim_length_cycles-bound_example = get_sim_length_cycles-bound every_120 (pos 5) (pos 115) refl
