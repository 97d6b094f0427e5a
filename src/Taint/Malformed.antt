-- ===== src/Taint/Malformed.antt =====
-- Taint files that are not in order: an id that the vectors do not have, and a line that ends early.
use cellift_meta.Base.{
  ℕ, zero, suc, ◌<◌, ◌≤◌, ◌≡◌, refl, sym, ap, ◌∙◌, fun_ext, Option, none, some, List, [], ◌∷◌, ◌++◌,
  append_nil, length, get_elem?, subst, map, All, arith, true, false, set, store,
}
use cellift_meta.Base.Run.{Run, returned, strayed, ◌>>=◌}
use cellift_meta.Taint.{Taint}
use cellift_meta.Taint.Stream.{Stream, newline, lines, stream, extract_word, extract_number}
use cellift_meta.Taint.Numeral.{numeral}
use cellift_meta.Taint.Line.{
  numeral-AreGraphic, extract_word-graphic, extract_number-decimal, extract_number-hexadecimal,
}
use cellift_meta.Taint.Read.{
  Vars, unset, at, extract_vars, use_vars, add_taint, read_lines, read_taints,
}
use cellift_meta.Taint.Text.{
  Entry, IsEntry, line, text, offset_text, all_of, id_of, offset_of, num_of, vars_of, add_all,
  behind_offset, behind_id, extract_vars-line, IsLine, IsLine-line, IsLine-numeral, IsLine-append,
  lines-newline, lines-text, read_lines-entries, read_taints-text,
}
use cellift_meta.Taint.Consistent.{IsConsistent}
use cellift_meta.Taint.Keep.{add_taint-IsConsistent}

get_elem?-length {ℓ} : {A : Type ℓ} (v : List A) (i : ℕ) → length v ≤ i → get_elem? v i ≡ none
get_elem?-length [] i h = refl
get_elem?-length (x ∷ v) zero h = absurd (omega arith)
get_elem?-length (x ∷ v) (suc i) h = get_elem?-length v i (omega arith)

at-strayed {ℓ} : {A : Type ℓ} (v : List A) (i : ℕ) → length v ≤ i → at v i ≡ strayed
at-strayed v i h = rw (get_elem?-length v i h, at) refl

add_taint-strayed :
    (id offset num : ℕ) (contents : List ℕ) (st : Taint)
    → length st.sections ≤ id
    → add_taint id offset num contents st ≡ strayed
unfolding add_taint
add_taint-strayed id offset num contents st h =
    ap
      (λ r. r >>= λ pushed. at st.assignments id >>= λ assigned. returned (record st {
        sections = set st.sections id (pushed ++ ((offset, num) ∷ []));
        assignments = set st.assignments id (store assigned offset (some contents));
      }))
      (at-strayed st.sections id h)

-- The entries up to one whose id the vectors do not have.
add_all-strayed :
    (es : List Entry) (e : Entry) (more : List Entry) (st : Taint)
    → IsConsistent st
    → All (λ e'. id_of e' < length st.sections) es
    → length st.sections ≤ id_of e
    → add_all (es ++ (e ∷ more)) st ≡ strayed
unfolding add_all
add_all-strayed [] e more st h known far =
    ap (λ r. r >>= λ st'. add_all more st')
      (add_taint-strayed (id_of e) (offset_of e) (num_of e) (all_of e.contents) st far)
add_all-strayed (e' ∷ es) e more st h (lt, known) far =
    let (st1, run, h1, len) =
      add_taint-IsConsistent (id_of e') (offset_of e') (num_of e') (all_of e'.contents) st h lt in
    ap (λ r. r >>= λ st2. add_all (es ++ (e ∷ more)) st2) run
    ∙ add_all-strayed es e more st1 h1 (subst (λ n. All (λ x. id_of x < n) es) (sym len) known)
        (omega arith)

-- When the vectors are consistent and an entry of a file that was written line by line has an id
-- that they do not have, `read_taints` accesses an element outside them; each line has a decimal
-- id, an address in hexadecimal digits behind `0x`, a decimal length, all three below 2^64, and a
-- taint without blanks.
pub read_taints-strayed :
    (es : List Entry) (e : Entry) (more : List Entry) (st : Taint)
    → IsConsistent st
    → All IsEntry (es ++ (e ∷ more))
    → All (λ e'. id_of e' < length st.sections) es
    → length st.sections ≤ id_of e
    → read_taints (some (text (es ++ (e ∷ more)))) st ≡ strayed
read_taints-strayed es e more st h entries known far =
    read_taints-text (es ++ (e ∷ more)) st entries ∙ add_all-strayed es e more st h known far

-- A line that ends behind the address.
abbrev pub short_line : Entry → List ℕ
short_line e = numeral (all_of e.id) ++ (b' ' ∷ offset_text e)

extract_vars-short_line :
    (e : Entry) (vars : Vars)
    → IsEntry e
    → extract_vars (short_line e) vars ≡ record (vars_of e) {
      num_bytes = vars.num_bytes;
      byte_taint_contents = vars.byte_taint_contents;
    }
unfolding extract_vars extract_number extract_word
extract_vars-short_line e vars (id', (offset_small, offset_all, offset_fits), num', graphic) =
    let id = some (id_of e) in
    ap (behind_id vars)
      (extract_number-decimal vars.taint_id false e.id.0 e.id.1 (b' ' ∷ offset_text e) id' refl)
    ∙ ap (λ cs. behind_offset vars id (extract_word vars.region_offset_str (stream (b' ' ∷ cs))))
        (sym (append_nil (offset_text e)))
    ∙ ap (behind_offset vars id) (
        extract_word-graphic vars.region_offset_str true b'0' (b'x' ∷ numeral (all_of e.offset)) []
          refl
          (refl, numeral-AreGraphic 16 (all_of e.offset) (omega arith) (offset_small, offset_all))
          tt)
    ∙ ap
        (λ (p : Option ℕ × Stream). record (vars_of e) {
          num_bytes = vars.num_bytes;
          byte_taint_contents = vars.byte_taint_contents;
          region_offset = p.0;
        })
        (extract_number-hexadecimal vars.region_offset e.offset.0 e.offset.1
          (offset_small, offset_all, offset_fits))

IsLine-short_line : (e : Entry) → IsEntry e → IsLine (short_line e)
IsLine-short_line e (id', offset', num', graphic) =
    IsLine-append (numeral (all_of e.id)) _ (IsLine-numeral 10 e.id.0 e.id.1 (omega arith) id')
      (refl, (refl, (refl, IsLine-numeral 16 e.offset.0 e.offset.1 (omega arith) offset')))

-- A line, one that ends early, and further lines.
abbrev pub short_text : Entry → Entry → List Entry → List ℕ
short_text e short more = line e ++ (newline ∷ short_line short ++ (newline ∷ text more))

lines-short_text :
    (e short : Entry) (more : List Entry)
    → IsEntry e
    → IsEntry short
    → All IsEntry more
    → lines (short_text e short more) ≡ line e ∷ short_line short ∷ map line more
lines-short_text e short more h h' hs =
    lines-newline (line e) (short_line short ++ (newline ∷ text more)) (IsLine-line e h)
    ∙ ap (λ ls. line e ∷ ls)
        (lines-newline (short_line short) (text more) (IsLine-short_line short h')
          ∙ ap (λ ls. short_line short ∷ ls) (lines-text more hs))

-- In a file that was written line by line, each line with a decimal id, an address in hexadecimal
-- digits behind `0x`, a decimal length, all three below 2^64, and a taint without blanks, but for
-- its second line, which ends behind the address, `read_taints` adds for this line an entry with
-- its id and its address, and with the length and the taint of the first line.
pub read_taints-short_text :
    (e short : Entry) (more : List Entry) (st : Taint)
    → IsEntry e
    → IsEntry short
    → All IsEntry more
    → read_taints (some (short_text e short more)) st ≡ (
        add_taint (id_of e) (offset_of e) (num_of e) (all_of e.contents) st >>= λ st1.
        add_taint (id_of short) (offset_of short) (num_of e) (all_of e.contents) st1 >>= λ st2.
        add_all more st2)
unfolding read_taints read_lines use_vars
read_taints-short_text e short more st h h' hs =
    let stale : Vars = record (vars_of short) {
      num_bytes = some (num_of e);
      byte_taint_contents = all_of e.contents;
    } in
    ap (λ ls. read_lines ls unset st) (lines-short_text e short more h h' hs)
    ∙ ap
        (λ (v : Vars). use_vars v st >>= λ st1. read_lines (short_line short ∷ map line more) v st1)
        (extract_vars-line e unset h)
    ∙ ap
        (λ (k : Taint → Run Taint).
          add_taint (id_of e) (offset_of e) (num_of e) (all_of e.contents) st >>= k)
        (fun_ext (λ st1.
          ap (λ (v : Vars). use_vars v st1 >>= λ st2. read_lines (map line more) v st2)
            (extract_vars-short_line short (vars_of e) h')
          ∙ ap
              (λ (k : Taint → Run Taint).
                add_taint (id_of short) (offset_of short) (num_of e) (all_of e.contents) st1 >>= k)
              (fun_ext (λ st2. read_lines-entries more stale st2 hs))))
