-- ===== src/Print/Text.antt =====
-- The field that `%s` writes.
use mathlib.Core.List.{append-nil}
use mathlib.Core.Path.{ap₂}
use native.Mathlib.Decide.{dec_lt}
use native.Mathlib.Nat.{zero-min, min-zero, suc-min-suc, zero-add}
use cellift_meta.Base.{
  ℕ, zero, suc, ◌+◌, ◌-◌, ◌≡◌, ◌≢◌, refl, ap, ◌∙◌, List, [], ◌∷◌, ◌++◌, arith, length, replicate,
  take, ℤ, pos, negsuc, sub_ℕ, ==_false, lt→ltb, pos_part, ltb_ℤ, if◌then◌else◌, lt→leb, le→leb,
}
use cellift_meta.Print.Conversion.{text_rest, text_field, pad, pred_ℤ, bounded_length, text_body}

pad-replicate : (w c : ℕ) → pad (pos w) c ≡ replicate w c
unfolding pad
pad-replicate zero c = refl
pad-replicate (suc w) c = ap (◌∷◌ c) (pad-replicate w c)

-- `n` less than the width, as far as it goes: what is left of the width counts down with the text.
abbrev lower : ℤ → ℕ → ℤ
lower w zero = w
lower w (suc n) = lower (pred_ℤ w) n

text_body-take :
    (p : List ℕ) (w precision : ℤ)
    → text_body p w precision
      ≡ (take (bounded_length p precision) p, lower w (bounded_length p precision))
unfolding text_body bounded_length
text_body-take [] w (pos q) = rw (zero-min q)
text_body-take [] w (negsuc q) = refl
text_body-take (c ∷ cs) w (pos zero) = rw (min-zero (suc (length cs)))
text_body-take (c ∷ cs) w (pos (suc q)) =
    rw (suc-min-suc (length cs) q, text_body-take cs (pred_ℤ w) (pos q))
text_body-take (c ∷ cs) w (negsuc q) = rw (text_body-take cs (pred_ℤ w) (negsuc q))

pad-lower_nonpos : (x : ℤ) (n c : ℕ) → pos_part x ≡ 0 → pad (lower x n) c ≡ []
unfolding pad
pad-lower_nonpos (pos zero) zero c h = refl
pad-lower_nonpos (pos (suc w)) zero c h = absurd (omega arith)
pad-lower_nonpos (negsuc w) zero c h = refl
pad-lower_nonpos (pos zero) (suc n) c h = pad-lower_nonpos (negsuc 0) n c refl
pad-lower_nonpos (pos (suc w)) (suc n) c h = absurd (omega arith)
pad-lower_nonpos (negsuc w) (suc n) c h = pad-lower_nonpos (negsuc (suc w)) n c refl

pad-lower : (w n c : ℕ) → pad (lower (pos w) n) c ≡ replicate (w - n) c
pad-lower w zero c = pad-replicate w c ∙ ap (λ (k : ℕ). replicate k c) (omega arith)
pad-lower zero (suc n) c =
    pad-lower_nonpos (pos 0) (suc n) c refl
    ∙ ap (λ (k : ℕ). replicate k c) {x = 0} {y = 0 - suc n} (omega arith)
pad-lower (suc w) (suc n) c = pad-lower w n c ∙ ap (λ (k : ℕ). replicate k c) (omega arith)

pad-sub_ℕ : (w n c : ℕ) → pad (sub_ℕ w n) c ≡ replicate (w - n) c
unfolding pad
pad-sub_ℕ w n c = elim (dec_lt w n) [
  | yes short ↦
      rw (lt→leb w n short) (ap (λ (k : ℕ). replicate k c) {x = 0} {y = w - n} (omega arith))
  | no long ↦ rw (le→leb w n (omega arith)) (pad-replicate (w - n) c)
]

module _ (p : List ℕ) (precision : ℤ) where
  abbrev shown : ℕ
  shown = bounded_length p precision

  text_rest_nonpos : (x : ℤ) → pos_part x ≡ 0 → text_rest x precision p ≡ take shown p
  unfolding text_rest
  text_rest_nonpos x h =
      rw (text_body-take p x precision, pad-lower_nonpos x shown b' ' h) (append-nil _)

  text_rest_pos :
      (w : ℕ) → text_rest (pos w) precision p ≡ take shown p ++ replicate (w - shown) b' '
  unfolding text_rest
  text_rest_pos w = rw (text_body-take p (pos w) precision, pad-lower w shown b' ')

  left_nonpos : (x : ℤ) → pos_part (if ltb_ℤ (pos 0) x then pos 0 else x) ≡ 0
  left_nonpos x = ground arith

  -- With a width and a pad character other than `-`, the field of `%s` holds the padding that
  -- fills it and then the text, cut at the precision.
  pub text_field_right :
      (padc w : ℕ)
      → padc ≢ b'-'
      → text_field padc (pos w) precision p ≡ replicate (w - shown) padc ++ take shown p
  unfolding text_field
  text_field_right padc zero ne =
      text_rest_nonpos (pos 0) refl
      ∙ ap (λ (k : ℕ). replicate k padc ++ take shown p) {x = 0} {y = 0 - shown} (omega arith)
  text_field_right padc (suc w) ne =
      let free : ℤ = sub_ℕ (suc w) (0 + shown) in
      rw (lt→ltb 0 (suc w + 0) (omega arith), ==_false padc b'-' ne)
        (ap₂ ◌++◌
          (pad-sub_ℕ (suc w) (0 + shown) padc
            ∙ ap (λ (k : ℕ). replicate (suc w - k) padc) (zero-add shown))
          (text_rest_nonpos (if ltb_ℤ (pos 0) free then pos 0 else free) (left_nonpos free)))

  -- With a width and the flag `-`, the field of `%s` holds the text, cut at the precision, and then
  -- the spaces that fill it.
  pub text_field_left :
      (w : ℕ) → text_field b'-' (pos w) precision p ≡ take shown p ++ replicate (w - shown) b' '
  unfolding text_field
  text_field_left zero = text_rest_pos 0
  text_field_left (suc w) = rw (lt→ltb 0 (suc w + 0) (omega arith)) (text_rest_pos (suc w))
