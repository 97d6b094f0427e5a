-- ===== src/Taint/Text.antt =====
-- A taint file as the tools write it, and that `read_taints` reads back what was written.
use cellift_meta.Base.{
  append_nil, ℕ, ◌≤◌, ◌≡◌, refl, sym, ap, ◌∙◌, true, false, Option, some, List, [], ◌∷◌, ◌++◌, map,
  All, ◌==◌, if◌then◌else◌, arith, fun_ext,
}
use cellift_meta.Base.Run.{Run, returned, ◌>>=◌}
use cellift_meta.Taint.{Taint}
use cellift_meta.Taint.Stream.{Stream, newline, lines, extend, stream, extract_word, extract_number}
use cellift_meta.Taint.Numeral.{value_of, numeral, IsNumeral}
use cellift_meta.Taint.Line.{
  AreGraphic, numeral-AreGraphic, extract_word-graphic, extract_number-decimal,
  extract_number-hexadecimal,
}
use cellift_meta.Taint.Read.{
  Vars, unset, extract_vars, use_vars, add_taint, read_lines, read_taints,
}

-- A line: the digits of its numbers and the characters of its taint, each with the first one apart.
pub record Entry : Type 0 where
  pub id : ℕ × List ℕ
  pub offset : ℕ × List ℕ
  pub num_bytes : ℕ × List ℕ
  pub contents : ℕ × List ℕ

abbrev pub all_of : ℕ × List ℕ → List ℕ
all_of (c, cs) = c ∷ cs

abbrev pub offset_text : Entry → List ℕ
offset_text e = b'0' ∷ b'x' ∷ numeral (all_of e.offset)

-- `<id> 0x<offset> <num_bytes> <contents>`
abbrev pub line : Entry → List ℕ
line e =
    numeral (all_of e.id)
    ++ (b' ' ∷ offset_text e ++ (b' ' ∷ numeral (all_of e.num_bytes) ++ (b' ' ∷ all_of e.contents)))

abbrev pub text : List Entry → List ℕ
text [] = []
text (e ∷ es) = line e ++ (newline ∷ text es)

-- Numbers of 64 bits, and taint without blanks.
abbrev pub IsEntry : Entry → Type 0
IsEntry e =
    IsNumeral 10 e.id.0 e.id.1
    × IsNumeral 16 e.offset.0 e.offset.1
    × IsNumeral 10 e.num_bytes.0 e.num_bytes.1
    × AreGraphic (all_of e.contents)

abbrev pub id_of : Entry → ℕ
id_of e = value_of 10 0 (all_of e.id)

abbrev pub offset_of : Entry → ℕ
offset_of e = value_of 16 0 (all_of e.offset)

abbrev pub num_of : Entry → ℕ
num_of e = value_of 10 0 (all_of e.num_bytes)

abbrev pub vars_of : Entry → Vars
vars_of e = record {
  taint_id = some (id_of e);
  region_offset_str = offset_text e;
  num_bytes = some (num_of e);
  byte_taint_contents = all_of e.contents;
  region_offset = some (offset_of e);
}

-- The entries, added one after the other.
unfoldable pub add_all : List Entry → Taint → Run Taint
add_all [] st = returned st
add_all (e ∷ es) st = do
  st' ← add_taint (id_of e) (offset_of e) (num_of e) (all_of e.contents) st
  add_all es st'

-- The extractions of a line behind the first one, the second one, and so on.
abbrev pub behind_contents : Vars → Option ℕ → List ℕ → Option ℕ → List ℕ × Stream → Vars
behind_contents vars id offset_str num (contents, s) = record {
  taint_id = id;
  region_offset_str = offset_str;
  num_bytes = num;
  byte_taint_contents = contents;
  region_offset = (extract_number 16 vars.region_offset (stream offset_str)).0;
}

abbrev pub behind_num : Vars → Option ℕ → List ℕ → Option ℕ × Stream → Vars
behind_num vars id offset_str (num, s) =
    behind_contents vars id offset_str num (extract_word vars.byte_taint_contents s)

abbrev pub behind_offset : Vars → Option ℕ → List ℕ × Stream → Vars
behind_offset vars id (offset_str, s) =
    behind_num vars id offset_str (extract_number 10 vars.num_bytes s)

abbrev pub behind_id : Vars → Option ℕ × Stream → Vars
behind_id vars (id, s) = behind_offset vars id (extract_word vars.region_offset_str s)

pub extract_vars-line :
    (e : Entry) (vars : Vars) → IsEntry e → extract_vars (line e) vars ≡ vars_of e
unfolding extract_vars
extract_vars-line e vars (id', (offset_small, offset_all, offset_fits), num', (graphic, more)) =
    let id = some (id_of e) in
    let num = some (num_of e) in
    let rest3 = b' ' ∷ all_of e.contents in
    let rest2 = b' ' ∷ numeral (all_of e.num_bytes) ++ rest3 in
    let rest1 = b' ' ∷ offset_text e ++ rest2 in
    ap (behind_id vars) (extract_number-decimal vars.taint_id false e.id.0 e.id.1 rest1 id' refl)
    ∙ ap (behind_offset vars id) (
        extract_word-graphic vars.region_offset_str true b'0' (b'x' ∷ numeral (all_of e.offset))
          rest2 refl
          (refl, numeral-AreGraphic 16 (all_of e.offset) (omega arith) (offset_small, offset_all))
          refl)
    ∙ ap (behind_num vars id (offset_text e))
        (extract_number-decimal vars.num_bytes true e.num_bytes.0 e.num_bytes.1 rest3 num' refl)
    ∙ ap
        (λ cs.
          behind_contents vars id (offset_text e) num
            (extract_word vars.byte_taint_contents (stream (b' ' ∷ cs))))
        (sym (append_nil (all_of e.contents)))
    ∙ ap (behind_contents vars id (offset_text e) num) (
        extract_word-graphic vars.byte_taint_contents true e.contents.0 e.contents.1 [] graphic more
          tt)
    ∙ ap (λ (p : Option ℕ × Stream). record (vars_of e) { region_offset = p.0 })
        (extract_number-hexadecimal vars.region_offset e.offset.0 e.offset.1
          (offset_small, offset_all, offset_fits))

-- No newline.
abbrev pub IsLine : List ℕ → Type 0
IsLine cs = All (λ c. (c == newline) ≡ false) cs

pub IsLine-graphic : (cs : List ℕ) → AreGraphic cs → IsLine cs
IsLine-graphic [] h = tt
IsLine-graphic (c ∷ cs) (h, more) = (ground arith, IsLine-graphic cs more)

pub IsLine-append : (cs ds : List ℕ) → IsLine cs → IsLine ds → IsLine (cs ++ ds)
IsLine-append [] ds h k = k
IsLine-append (c ∷ cs) ds (h, more) k = (h, IsLine-append cs ds more k)

pub IsLine-numeral :
    (base v : ℕ) (vs : List ℕ) → base ≤ 16 → IsNumeral base v vs → IsLine (numeral (v ∷ vs))
IsLine-numeral base v vs le (h, small, fits) =
    IsLine-graphic (numeral (v ∷ vs)) (numeral-AreGraphic base (v ∷ vs) le (h, small))

pub IsLine-line : (e : Entry) → IsEntry e → IsLine (line e)
IsLine-line e (id', offset', num', graphic) =
    IsLine-append (numeral (all_of e.id)) _ (IsLine-numeral 10 e.id.0 e.id.1 (omega arith) id') (
      refl,
      (
        refl,
        (
          refl,
          IsLine-append (numeral (all_of e.offset)) _
              (IsLine-numeral 16 e.offset.0 e.offset.1 (omega arith) offset')
              (
                refl,
                IsLine-append (numeral (all_of e.num_bytes)) _
                    (IsLine-numeral 10 e.num_bytes.0 e.num_bytes.1 (omega arith) num')
                    (refl, IsLine-graphic (all_of e.contents) graphic),
              ),
        ),
      ),
    )

pub lines-newline : (l rest : List ℕ) → IsLine l → lines (l ++ (newline ∷ rest)) ≡ l ∷ lines rest
unfolding lines
lines-newline [] rest h = refl
lines-newline (c ∷ l) rest (h, more) =
    ap
      (λ b.
        if b then [] ∷ lines (l ++ (newline ∷ rest)) else extend c (lines (l ++ (newline ∷ rest))))
      h
    ∙ ap (extend c) (lines-newline l rest more)

pub lines-text : (es : List Entry) → All IsEntry es → lines (text es) ≡ map line es
unfolding lines
lines-text [] h = refl
lines-text (e ∷ es) (h, more) =
    lines-newline (line e) (text es) (IsLine-line e h) ∙ ap (λ ls. line e ∷ ls) (lines-text es more)

pub read_lines-entries :
    (es : List Entry) (vars : Vars) (st : Taint)
    → All IsEntry es
    → read_lines (map line es) vars st ≡ add_all es st
unfolding read_lines use_vars add_all
read_lines-entries [] vars st h = refl
read_lines-entries (e ∷ es) vars st (h, more) =
    ap (λ (v : Vars). use_vars v st >>= λ st'. read_lines (map line es) v st')
      (extract_vars-line e vars h)
    ∙ ap
        (λ (k : Taint → Run Taint).
          add_taint (id_of e) (offset_of e) (num_of e) (all_of e.contents) st >>= k)
        (fun_ext (λ st'. read_lines-entries es (vars_of e) st' more))

-- A file that was written line by line, each with a decimal id, an address in hexadecimal digits behind
-- `0x`, a decimal length and a taint without blanks, numbers below 2^64, is read as these entries: each
-- is added to the vectors with the values that were written, in order.
pub read_taints-text :
    (es : List Entry) (st : Taint)
    → All IsEntry es
    → read_taints (some (text es)) st ≡ add_all es st
unfolding read_taints
read_taints-text es st h =
    ap (λ ls. read_lines ls unset st) (lines-text es h) ∙ read_lines-entries es unset st h
