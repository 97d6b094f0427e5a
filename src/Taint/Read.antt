-- ===== src/Taint/Read.antt =====
-- `read_taints`: the vectors from a file of lines, each with an id, an address, a length and the taint.
use cellift_meta.Base.{ℕ, ◌≡◌, refl, Option, none, some, List, [], ◌∷◌, ◌++◌, get_elem?, set, store}
use cellift_meta.Base.Run.{Run, returned, strayed, ◌>>=◌}
use cellift_meta.Taint.{Taint}
use cellift_meta.Taint.Stream.{lines, stream, extract_word, extract_number}

-- The variables of the loop; one that has no value yet is `none`.
pub record Vars : Type 0 where
  pub taint_id : Option ℕ
  pub region_offset_str : List ℕ
  pub num_bytes : Option ℕ
  pub byte_taint_contents : List ℕ
  pub region_offset : Option ℕ

abbrev pub unset : Vars
unset = record {
  taint_id = none;
  region_offset_str = [];
  num_bytes = none;
  byte_taint_contents = [];
  region_offset = none;
}

-- The extractions of a line.
unfoldable pub extract_vars : List ℕ → Vars → Vars
unfolding extract_word extract_number
extract_vars line vars =
    let (id, s1) = extract_number 10 vars.taint_id (stream line) in
    let (offset_str, s2) = extract_word vars.region_offset_str s1 in
    let (num, s3) = extract_number 10 vars.num_bytes s2 in
    let (contents, s4) = extract_word vars.byte_taint_contents s3 in
    let (offset, s5) = extract_number 16 vars.region_offset (stream offset_str) in
    record {
      taint_id = id;
      region_offset_str = offset_str;
      num_bytes = num;
      byte_taint_contents = contents;
      region_offset = offset;
    }

-- A use of a variable.
abbrev pub value : Option ℕ → Run ℕ
value (some n) = returned n
value none = strayed

-- `v[i]`
abbrev pub at {ℓ} : {A : Type ℓ} → List A → ℕ → Run A
at v i = elim (get_elem? v i) [ some x ↦ returned x | none ↦ strayed ]

pub at-some {ℓ} :
    {A : Type ℓ} (v : List A) (i : ℕ) (x : A) → get_elem? v i ≡ some x → at v i ≡ returned x
at-some v i x e = rw (e, at) refl

-- The push and the assignment.
unfoldable pub add_taint : ℕ → ℕ → ℕ → List ℕ → Taint → Run Taint
add_taint id offset num contents st = do
  pushed ← at st.sections id
  assigned ← at st.assignments id
  returned (record st {
    sections = set st.sections id (pushed ++ ((offset, num) ∷ []));
    assignments = set st.assignments id (store assigned offset (some contents));
  })

unfoldable pub use_vars : Vars → Taint → Run Taint
unfolding add_taint
use_vars vars st = do
  id ← value vars.taint_id
  offset ← value vars.region_offset
  num ← value vars.num_bytes
  add_taint id offset num vars.byte_taint_contents st

-- The body of the loop, for the lines to come.
unfoldable pub read_lines : List (List ℕ) → Vars → Taint → Run Taint
unfolding extract_vars use_vars
read_lines [] vars st = returned st
read_lines ([] ∷ ls) vars st = read_lines ls vars st
read_lines ((c ∷ cs) ∷ ls) vars st = do
  st' ← use_vars (extract_vars (c ∷ cs) vars) st
  read_lines ls (extract_vars (c ∷ cs) vars) st'

-- A file that cannot be opened has no lines.
unfoldable pub read_taints : Option (List ℕ) → Taint → Run Taint
unfolding read_lines lines
read_taints none st = returned st
read_taints (some text) st = read_lines (lines text) unset st
