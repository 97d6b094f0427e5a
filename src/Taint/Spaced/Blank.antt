-- ===== src/Taint/Spaced/Blank.antt =====
-- A line of blanks only, which is not empty.
use cellift_meta.Base.{
  ℕ, ◌≡◌, sym, ap, ◌∙◌, Option, some, List, [], ◌∷◌, ◌++◌, map, All, fun_ext, append_nil,
}
use cellift_meta.Base.Run.{Run, ◌>>=◌}
use cellift_meta.Taint.{Taint}
use cellift_meta.Taint.Stream.{
  Stream, newline, lines, skip_blanks, number_or, extract_word, extract_number,
}
use cellift_meta.Taint.Line.{extract_number-hexadecimal}
use cellift_meta.Taint.Read.{
  Vars, unset, extract_vars, use_vars, add_taint, read_lines, read_taints,
}
use cellift_meta.Taint.Text.{
  Entry, IsEntry, all_of, id_of, offset_of, num_of, vars_of, add_all, behind_id, lines-newline,
}
use cellift_meta.Taint.Text.{
  line, text, lines-text, extract_vars-line, IsLine-line, read_lines-entries,
}
use cellift_meta.Taint.Spaced.{AreBlank, skip_blanks-append, IsLine-blank}

skip_blanks-blank : (bs : List ℕ) → AreBlank bs → skip_blanks bs ≡ []
unfolding skip_blanks
skip_blanks-blank bs h = ap skip_blanks (sym (append_nil bs)) ∙ skip_blanks-append bs [] h

-- Nothing is extracted but the address, from the text of the line before.
extract_vars-blank :
    (e : Entry) (bs : List ℕ) → IsEntry e → AreBlank bs → extract_vars bs (vars_of e) ≡ vars_of e
unfolding extract_vars extract_number extract_word
extract_vars-blank e bs (id', offset', num', graphic) h =
    ap (λ cs. behind_id (vars_of e) (number_or 10 (some (id_of e)) cs)) (skip_blanks-blank bs h)
    ∙ ap (λ (p : Option ℕ × Stream). record (vars_of e) { region_offset = p.0 })
        (extract_number-hexadecimal (some (offset_of e)) e.offset.0 e.offset.1 offset')

-- Entries, a line of blanks and further entries.
abbrev pub blank_text : List Entry → Entry → ℕ × List ℕ → List Entry → List ℕ
blank_text [] e bs more = line e ++ (newline ∷ all_of bs ++ (newline ∷ text more))
blank_text (e' ∷ es) e bs more = line e' ++ (newline ∷ blank_text es e bs more)

lines-blank_text :
    (es : List Entry) (e : Entry) (bs : ℕ × List ℕ) (more : List Entry)
    → All IsEntry es
    → IsEntry e
    → AreBlank (all_of bs)
    → All IsEntry more
    → lines (blank_text es e bs more) ≡ map line es ++ (line e ∷ all_of bs ∷ map line more)
lines-blank_text [] e bs more h here blank hs =
    lines-newline (line e) (all_of bs ++ (newline ∷ text more)) (IsLine-line e here)
    ∙ ap (λ ls. line e ∷ ls)
        (lines-newline (all_of bs) (text more) (IsLine-blank (all_of bs) blank)
          ∙ ap (λ ls. all_of bs ∷ ls) (lines-text more hs))
lines-blank_text (e' ∷ es) e bs more (h, rest) here blank hs =
    lines-newline (line e') (blank_text es e bs more) (IsLine-line e' h)
    ∙ ap (λ ls. line e' ∷ ls) (lines-blank_text es e bs more rest here blank hs)

-- The line of an entry, in front of other lines.
read_lines-line :
    (e : Entry) (ls : List (List ℕ)) (vars : Vars) (st : Taint) (k : Taint → Run Taint)
    → IsEntry e
    → ((st' : Taint) → read_lines ls (vars_of e) st' ≡ k st')
    → read_lines (line e ∷ ls) vars st
      ≡ (add_taint (id_of e) (offset_of e) (num_of e) (all_of e.contents) st >>= k)
unfolding read_lines use_vars
read_lines-line e ls vars st k h rest =
    ap (λ (v : Vars). use_vars v st >>= λ st'. read_lines ls v st') (extract_vars-line e vars h)
    ∙ ap
        (λ (k' : Taint → Run Taint).
          add_taint (id_of e) (offset_of e) (num_of e) (all_of e.contents) st >>= k')
        (fun_ext rest)

read_lines-blank :
    (es : List Entry) (e : Entry) (bs : ℕ × List ℕ) (more : List Entry) (vars : Vars) (st : Taint)
    → All IsEntry es
    → IsEntry e
    → AreBlank (all_of bs)
    → All IsEntry more
    → read_lines (map line es ++ (line e ∷ all_of bs ∷ map line more)) vars st
      ≡ add_all (es ++ (e ∷ e ∷ more)) st
unfolding read_lines use_vars add_all
read_lines-blank [] e bs more vars st h here blank hs =
    read_lines-line e (all_of bs ∷ map line more) vars st (add_all (e ∷ more)) here (λ st1.
      ap (λ (v : Vars). use_vars v st1 >>= λ st2. read_lines (map line more) v st2)
        (extract_vars-blank e (all_of bs) here blank)
      ∙ ap
          (λ (k : Taint → Run Taint).
            add_taint (id_of e) (offset_of e) (num_of e) (all_of e.contents) st1 >>= k)
          (fun_ext (λ st2. read_lines-entries more (vars_of e) st2 hs)))
read_lines-blank (e' ∷ es) e bs more vars st (h, rest) here blank hs =
    read_lines-line e' (map line es ++ (line e ∷ all_of bs ∷ map line more)) vars st
      (add_all (es ++ (e ∷ e ∷ more))) h
      (λ st'. read_lines-blank es e bs more (vars_of e') st' rest here blank hs)

-- In a file that was written line by line, each line with a decimal id, an address in hexadecimal
-- digits behind `0x`, a decimal length, all three below 2^64, and a taint without blanks, but for
-- one more line that is not empty and has only blanks, behind the line of any entry: `read_taints`
-- adds this entry a second time, and the others once.
pub read_taints-blank_text :
    (es : List Entry) (e : Entry) (bs : ℕ × List ℕ) (more : List Entry) (st : Taint)
    → All IsEntry es
    → IsEntry e
    → AreBlank (all_of bs)
    → All IsEntry more
    → read_taints (some (blank_text es e bs more)) st ≡ add_all (es ++ (e ∷ e ∷ more)) st
unfolding read_taints
read_taints-blank_text es e bs more st h here blank hs =
    ap (λ ls. read_lines ls unset st) (lines-blank_text es e bs more h here blank hs)
    ∙ read_lines-blank es e bs more unset st h here blank hs
