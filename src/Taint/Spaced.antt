-- ===== src/Taint/Spaced.antt =====
-- Taint files with other blanks than one space between the parts of a line, with empty lines, and
-- without a newline at the end.
pub mod Lines
pub mod Blank
pub mod Tests
use cellift_meta.Base.{
  ℕ, zero, suc, ◌+◌, ◌≤◌, ◌<◌, ◌≡◌, refl, sym, ap, ◌∙◌, Bool, true, false, Option, none, some, List,
  [], ◌∷◌, ◌++◌, map, replicate, All, ◌==◌, if◌then◌else◌, fun_ext, arith, append_nil, subst,
}
use cellift_meta.Base.Run.{Run, returned, ◌>>=◌}
use cellift_meta.Taint.{Taint}
use cellift_meta.Taint.Stream.{
  Stream, newline, lines, extend, stream, is_space, skip_blanks, word_or, number_or, extract_word,
  extract_number,
}
use cellift_meta.Taint.Numeral.{numeral, IsEnd}
use cellift_meta.Taint.Line.{
  numeral-AreGraphic, extract_word-graphic, extract_number-decimal, extract_number-hexadecimal,
}
use cellift_meta.Taint.Read.{
  Vars, unset, extract_vars, use_vars, add_taint, read_lines, read_taints,
}
use cellift_meta.Taint.Text.{
  Entry, IsEntry, all_of, offset_text, id_of, offset_of, num_of, vars_of, add_all, behind_id,
  behind_offset, behind_num, behind_contents, IsLine, IsLine-graphic, IsLine-append, IsLine-numeral,
  lines-newline,
}

-- An entry with the blanks before its line, between the parts and behind them, and the number of empty
-- lines before it.
pub record Spaced : Type 0 where
  pub entry : Entry
  pub empty_lines : ℕ
  pub lead : List ℕ
  pub gap_offset : ℕ × List ℕ
  pub gap_num : ℕ × List ℕ
  pub gap_contents : ℕ × List ℕ
  pub trail : List ℕ

abbrev pub rest_contents : Spaced → List ℕ
rest_contents s = all_of s.entry.contents ++ s.trail

abbrev pub rest_num : Spaced → List ℕ
rest_num s = numeral (all_of s.entry.num_bytes) ++ (all_of s.gap_contents ++ rest_contents s)

abbrev pub rest_offset : Spaced → List ℕ
rest_offset s = offset_text s.entry ++ (all_of s.gap_num ++ rest_num s)

abbrev pub spaced_line : Spaced → List ℕ
spaced_line s = s.lead ++ (numeral (all_of s.entry.id) ++ (all_of s.gap_offset ++ rest_offset s))

-- The lines, the last one with or without its newline.
abbrev pub spaced_text : Bool → List Spaced → List ℕ
spaced_text ended [] = []
spaced_text ended (s ∷ []) =
    replicate s.empty_lines newline ++ (spaced_line s ++ (if ended then newline ∷ [] else []))
spaced_text ended (s ∷ s' ∷ ss) =
    replicate s.empty_lines newline ++ (spaced_line s ++ (newline ∷ spaced_text ended (s' ∷ ss)))

-- Blanks within a line.
abbrev pub AreBlank : List ℕ → Type 0
AreBlank cs = All (λ c. (is_space c ≡ true) × ((c == newline) ≡ false)) cs

abbrev pub IsSpaced : Spaced → Type 0
IsSpaced s =
    IsEntry s.entry
    × AreBlank s.lead
    × AreBlank (all_of s.gap_offset)
    × AreBlank (all_of s.gap_num)
    × AreBlank (all_of s.gap_contents)
    × AreBlank s.trail

pub skip_blanks-append : (bs cs : List ℕ) → AreBlank bs → skip_blanks (bs ++ cs) ≡ skip_blanks cs
unfolding skip_blanks
skip_blanks-append [] cs h = refl
skip_blanks-append (b ∷ bs) cs ((space, other), h) = rw (space) (skip_blanks-append bs cs h)

pub extract_word-append :
    (old bs cs : List ℕ)
    → AreBlank bs
    → extract_word old (stream (bs ++ cs)) ≡ extract_word old (stream cs)
unfolding extract_word
extract_word-append old bs cs h = ap (word_or old) (skip_blanks-append bs cs h)

pub extract_number-append :
    (base : ℕ) (old : Option ℕ) (bs cs : List ℕ)
    → AreBlank bs
    → extract_number base old (stream (bs ++ cs)) ≡ extract_number base old (stream cs)
unfolding extract_number
extract_number-append base old bs cs h = ap (number_or base old) (skip_blanks-append bs cs h)

IsEnd-blank : (cs : List ℕ) → AreBlank cs → IsEnd cs
IsEnd-blank [] h = tt
IsEnd-blank (c ∷ cs) h = h.0.0

pub extract_vars-spaced :
    (s : Spaced) (vars : Vars) → IsSpaced s → extract_vars (spaced_line s) vars ≡ vars_of s.entry
unfolding extract_vars
extract_vars-spaced s vars (entry', lead', gap_offset', gap_num', gap_contents', trail') =
    let e = s.entry in
    let (id', (offset_small, offset_all, offset_fits), num', (graphic, more)) = entry' in
    let id = some (id_of e) in
    let num = some (num_of e) in
    let rest1 = all_of s.gap_offset ++ rest_offset s in
    ap (behind_id vars) (
      extract_number-append 10 vars.taint_id s.lead (numeral (all_of e.id) ++ rest1) lead'
      ∙ extract_number-decimal vars.taint_id false e.id.0 e.id.1 rest1 id' gap_offset'.0.0)
    ∙ ap (behind_offset vars id) (
        extract_word-append vars.region_offset_str (all_of s.gap_offset) (rest_offset s) gap_offset'
        ∙ extract_word-graphic vars.region_offset_str false b'0' (b'x' ∷ numeral (all_of e.offset))
            (all_of s.gap_num ++ rest_num s) refl
            (refl, numeral-AreGraphic 16 (all_of e.offset) (omega arith) (offset_small, offset_all))
            gap_num'.0.0)
    ∙ ap (behind_num vars id (offset_text e)) (
        extract_number-append 10 vars.num_bytes (all_of s.gap_num) (rest_num s) gap_num'
        ∙ extract_number-decimal vars.num_bytes false e.num_bytes.0 e.num_bytes.1
            (all_of s.gap_contents ++ rest_contents s) num' gap_contents'.0.0)
    ∙ ap (behind_contents vars id (offset_text e) num) (
        extract_word-append vars.byte_taint_contents (all_of s.gap_contents) (rest_contents s)
          gap_contents'
        ∙ extract_word-graphic vars.byte_taint_contents false e.contents.0 e.contents.1 s.trail
            graphic more (IsEnd-blank s.trail trail'))
    ∙ ap (λ (p : Option ℕ × Stream). record (vars_of e) { region_offset = p.0 })
        (extract_number-hexadecimal vars.region_offset e.offset.0 e.offset.1
          (offset_small, offset_all, offset_fits))

pub IsLine-blank : (cs : List ℕ) → AreBlank cs → IsLine cs
IsLine-blank [] h = tt
IsLine-blank (c ∷ cs) ((space, other), h) = (other, IsLine-blank cs h)

pub IsLine-spaced : (s : Spaced) → IsSpaced s → IsLine (spaced_line s)
IsLine-spaced s
      ((id', offset', num', graphic), lead', gap_offset', gap_num', gap_contents', trail') =
    let e = s.entry in
    let contents =
      IsLine-append (all_of e.contents) s.trail (IsLine-graphic (all_of e.contents) graphic)
        (IsLine-blank s.trail trail') in
    let num =
      IsLine-append (numeral (all_of e.num_bytes)) _
        (IsLine-numeral 10 e.num_bytes.0 e.num_bytes.1 (omega arith) num')
        (IsLine-append (all_of s.gap_contents) _
          (IsLine-blank (all_of s.gap_contents) gap_contents') contents) in
    let offset =
      IsLine-append (offset_text e) _
        (refl, (refl, IsLine-numeral 16 e.offset.0 e.offset.1 (omega arith) offset'))
        (IsLine-append (all_of s.gap_num) _ (IsLine-blank (all_of s.gap_num) gap_num') num) in
    IsLine-append s.lead _ (IsLine-blank s.lead lead') (
      IsLine-append (numeral (all_of e.id)) _ (IsLine-numeral 10 e.id.0 e.id.1 (omega arith) id') (
        IsLine-append (all_of s.gap_offset) _ (IsLine-blank (all_of s.gap_offset) gap_offset')
          offset))
