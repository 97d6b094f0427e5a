-- ===== src/Taint/Spaced/Lines.antt =====
-- The lines of a file with other blanks, and that `read_taints` reads them as the entries.
use cellift_meta.Base.{
  ℕ, zero, suc, ◌≡◌, refl, sym, ap, ◌∙◌, Bool, true, false, some, List, [], ◌∷◌, ◌++◌, map,
  replicate, All, if◌then◌else◌, fun_ext, append_nil, subst,
}
use cellift_meta.Base.Run.{Run, returned, ◌>>=◌}
use cellift_meta.Taint.{Taint}
use cellift_meta.Taint.Stream.{newline, lines, extend}
use cellift_meta.Taint.Read.{
  Vars, unset, extract_vars, use_vars, add_taint, read_lines, read_taints,
}
use cellift_meta.Taint.Text.{
  all_of, id_of, offset_of, num_of, vars_of, add_all, IsLine, lines-newline,
}
use cellift_meta.Taint.Spaced.{
  Spaced, spaced_line, spaced_text, IsSpaced, extract_vars-spaced, IsLine-spaced,
}

lines-empty : (k : ℕ) (cs : List ℕ) → lines (replicate k newline ++ cs) ≡ replicate k [] ++ lines cs
unfolding lines
lines-empty zero cs = refl
lines-empty (suc k) cs = ap (λ ls. [] ∷ ls) (lines-empty k cs)

pub read_lines-empty :
    (k : ℕ) (ls : List (List ℕ)) (vars : Vars) (st : Taint)
    → read_lines (replicate k [] ++ ls) vars st ≡ read_lines ls vars st
unfolding read_lines
read_lines-empty zero ls vars st = refl
read_lines-empty (suc k) ls vars st = read_lines-empty k ls vars st

cons_append :
    (bs : List ℕ) (c : ℕ) (cs : List ℕ) → (d : ℕ) × (ds : List ℕ) × (bs ++ (c ∷ cs) ≡ d ∷ ds)
cons_append [] c cs = (c, cs, refl)
cons_append (b ∷ bs) c cs = (b, bs ++ (c ∷ cs), refl)

-- A line that is not empty, at the end of a file.
lines-last : (c : ℕ) (cs : List ℕ) → IsLine (c ∷ cs) → lines (c ∷ cs) ≡ (c ∷ cs) ∷ []
unfolding lines
lines-last c [] (h, more) = rw (h) refl
lines-last c (d ∷ cs) (h, more) = rw (h) (ap (extend c) (lines-last d cs more))

lines-end :
    (ended : Bool) (l : List ℕ) (c : ℕ) (cs : List ℕ)
    → l ≡ c ∷ cs
    → IsLine l
    → lines (l ++ (if ended then newline ∷ [] else [])) ≡ l ∷ []
unfolding lines
lines-end true l c cs e h = lines-newline l [] h
lines-end false l c cs e h =
    ap lines (append_nil l ∙ e) ∙ lines-last c cs (subst IsLine e h) ∙ ap (λ l'. l' ∷ []) (sym e)

-- Empty lines and the line of an entry, in front of other lines.
read_lines-spaced :
    (s : Spaced) (ls : List (List ℕ)) (vars : Vars) (st : Taint) (k : Taint → Run Taint)
    → IsSpaced s
    → ((vars' : Vars) (st' : Taint) → read_lines ls vars' st' ≡ k st')
    → read_lines (replicate s.empty_lines [] ++ (spaced_line s ∷ ls)) vars st ≡ (
        add_taint (id_of s.entry) (offset_of s.entry) (num_of s.entry) (all_of s.entry.contents) st
        >>= k)
unfolding read_lines use_vars
read_lines-spaced s ls vars st k h rest =
    let (c, cs, e) = cons_append s.lead _ _ in
    let first : read_lines (spaced_line s ∷ ls) vars st ≡ (
        use_vars (extract_vars (spaced_line s) vars) st >>= λ st'.
        read_lines ls (extract_vars (spaced_line s) vars) st') =
      subst
        (λ l.
          read_lines (l ∷ ls) vars st
          ≡ (use_vars (extract_vars l vars) st >>= λ st'. read_lines ls (extract_vars l vars) st'))
        (sym e) refl in
    read_lines-empty s.empty_lines (spaced_line s ∷ ls) vars st
    ∙ first
    ∙ ap (λ (v : Vars). use_vars v st >>= λ st'. read_lines ls v st') (extract_vars-spaced s vars h)
    ∙ ap
        (λ (k' : Taint → Run Taint).
          add_taint (id_of s.entry) (offset_of s.entry) (num_of s.entry) (all_of s.entry.contents)
            st
          >>= k')
        (fun_ext (λ st'. rest (vars_of s.entry) st'))

read_lines-spaced_text :
    (ended : Bool) (ss : List Spaced) (vars : Vars) (st : Taint)
    → All IsSpaced ss
    → read_lines (lines (spaced_text ended ss)) vars st
      ≡ add_all (map (λ (s : Spaced). s.entry) ss) st
unfolding lines read_lines add_all
read_lines-spaced_text ended [] vars st h = refl
read_lines-spaced_text ended (s ∷ []) vars st (here, h) =
    let (c, cs, e) = cons_append s.lead _ _ in
    ap (λ ls. read_lines ls vars st)
      (lines-empty s.empty_lines (spaced_line s ++ (if ended then newline ∷ [] else []))
        ∙ ap (λ ls. replicate s.empty_lines [] ++ ls)
            (lines-end ended (spaced_line s) c cs e (IsLine-spaced s here)))
    ∙ read_lines-spaced s [] vars st returned here (λ vars' st'. refl)
read_lines-spaced_text ended (s ∷ s' ∷ ss) vars st (here, h) =
    let rest = spaced_text ended (s' ∷ ss) in
    ap (λ ls. read_lines ls vars st)
      (lines-empty s.empty_lines (spaced_line s ++ (newline ∷ rest))
        ∙ ap (λ ls. replicate s.empty_lines [] ++ ls)
            (lines-newline (spaced_line s) rest (IsLine-spaced s here)))
    ∙ read_lines-spaced s (lines rest) vars st (add_all (map (λ (u : Spaced). u.entry) (s' ∷ ss)))
        here (λ vars' st'. read_lines-spaced_text ended (s' ∷ ss) vars' st' h)

-- In a taint file there may be other blanks than one space between the parts of a line, blanks
-- before its id and behind its taint, empty lines before it, and no newline at the end of the
-- file: each line is read as the entry that was written, when it has a decimal id, an address in
-- hexadecimal digits behind `0x`, a decimal length, all three below 2^64, and a taint without
-- blanks.
pub read_taints-spaced :
    (ended : Bool) (ss : List Spaced) (st : Taint)
    → All IsSpaced ss
    → read_taints (some (spaced_text ended ss)) st ≡ add_all (map (λ (s : Spaced). s.entry) ss) st
unfolding read_taints
read_taints-spaced ended ss st h = read_lines-spaced_text ended ss unset st h
