-- ===== src/Sim/Environment.antt =====
-- The functions of common_functions.cc over the environment, and `cl_get_tracefile`.
use cellift_meta.Base.{ℕ, Bool, true, false, Option, none, some, List, [], ◌∷◌}
use cellift_meta.Base.Run.{Run, returned, exited}

-- What `getenv` gives for a name; names and values are the bytes of strings.
abbrev pub Environment : Type 0
Environment = List ℕ → Option (List ℕ)

abbrev pub simsramelf : List ℕ
simsramelf = b'S' ∷ b'I' ∷ b'M' ∷ b'S' ∷ b'R' ∷ b'A' ∷ b'M' ∷ b'E' ∷ b'L' ∷ b'F' ∷ []

abbrev pub simsramtaint : List ℕ
simsramtaint =
    b'S' ∷ b'I' ∷ b'M' ∷ b'S' ∷ b'R' ∷ b'A' ∷ b'M' ∷ b'T' ∷ b'A' ∷ b'I' ∷ b'N' ∷ b'T' ∷ []

abbrev pub simromtaint : List ℕ
simromtaint = b'S' ∷ b'I' ∷ b'M' ∷ b'R' ∷ b'O' ∷ b'M' ∷ b'T' ∷ b'A' ∷ b'I' ∷ b'N' ∷ b'T' ∷ []

abbrev pub simromelf : List ℕ
simromelf = b'S' ∷ b'I' ∷ b'M' ∷ b'R' ∷ b'O' ∷ b'M' ∷ b'E' ∷ b'L' ∷ b'F' ∷ []

abbrev pub tracefile : List ℕ
tracefile = b'T' ∷ b'R' ∷ b'A' ∷ b'C' ∷ b'E' ∷ b'F' ∷ b'I' ∷ b'L' ∷ b'E' ∷ []

abbrev up_and : List ℕ → List ℕ
up_and path = b'.' ∷ b'.' ∷ b'/' ∷ path

-- `../../../taint_data/sram/sram_taint_data.txt`
abbrev pub sram_taints_path : List ℕ
sram_taints_path = up_and (
    up_and (
      up_and (
        b't' ∷ b'a' ∷ b'i' ∷ b'n' ∷ b't' ∷ b'_' ∷ b'd' ∷ b'a' ∷ b't' ∷ b'a' ∷ b'/' ∷ b's' ∷ b'r'
        ∷ b'a' ∷ b'm' ∷ b'/' ∷ b's' ∷ b'r' ∷ b'a' ∷ b'm' ∷ b'_' ∷ b't' ∷ b'a' ∷ b'i' ∷ b'n' ∷ b't'
        ∷ b'_' ∷ b'd' ∷ b'a' ∷ b't' ∷ b'a' ∷ b'.' ∷ b't' ∷ b'x' ∷ b't' ∷ [])))

-- `../../../taint_data/boot_rom/boot_rom_taint_data.txt`
abbrev pub boot_rom_taints_path : List ℕ
boot_rom_taints_path = up_and (
    up_and (
      up_and (
        b't' ∷ b'a' ∷ b'i' ∷ b'n' ∷ b't' ∷ b'_' ∷ b'd' ∷ b'a' ∷ b't' ∷ b'a' ∷ b'/' ∷ b'b' ∷ b'o'
        ∷ b'o' ∷ b't' ∷ b'_' ∷ b'r' ∷ b'o' ∷ b'm' ∷ b'/' ∷ b'b' ∷ b'o' ∷ b'o' ∷ b't' ∷ b'_' ∷ b'r'
        ∷ b'o' ∷ b'm' ∷ b'_' ∷ b't' ∷ b'a' ∷ b'i' ∷ b'n' ∷ b't' ∷ b'_' ∷ b'd' ∷ b'a' ∷ b't' ∷ b'a'
        ∷ b'.' ∷ b't' ∷ b'x' ∷ b't' ∷ [])))

unfoldable pub get_sram_elf_object_filename : Environment → Run (List ℕ)
get_sram_elf_object_filename getenv = elim (getenv simsramelf) [
  | none ↦ exited 1
  | some simsram_env ↦ returned simsram_env
]

unfoldable pub get_sram_taints_path : Environment → List ℕ
get_sram_taints_path getenv = elim (getenv simsramtaint) [
  | none ↦ sram_taints_path
  | some simsram_env ↦ simsram_env
]

unfoldable pub get_boot_rom_taints_path : Environment → List ℕ
get_boot_rom_taints_path getenv = elim (getenv simromtaint) [
  | none ↦ boot_rom_taints_path
  | some taint_env ↦ taint_env
]

unfoldable pub get_boot_rom_elf_object_filename : Environment → Run (List ℕ)
get_boot_rom_elf_object_filename getenv = elim (getenv simromelf) [
  | none ↦ exited 1
  | some simrom_env ↦ returned simrom_env
]

unfoldable pub cellift_getenv : Environment → List ℕ → Option (List ℕ)
cellift_getenv getenv varname = getenv varname

-- The name of the trace file, of a build with or without `VM_TRACE`.
unfoldable pub cl_get_tracefile : Bool → Environment → Run (List ℕ)
cl_get_tracefile false getenv = returned []
cl_get_tracefile true getenv = elim (getenv tracefile) [
  | none ↦ exited 1
  | some trace_env ↦ returned trace_env
]
