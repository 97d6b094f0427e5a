-- ===== src/Print/Digits.antt =====
-- `printnum` writes the numeral of its number.
use native.Mathlib.Nat.{pow-succ', div-add-mod', mod-lt, mod-eq_of_lt, zero-add}
use native.Mathlib.Numerals.{add-one}
use native.Mathlib.Decide.{dec_lt}
use mathlib.Core.List.{append_assoc, append-nil, map-append}
use cellift_meta.Base.{
  ℕ, zero, suc, ◌+◌, ◌-◌, ◌*◌, ◌/◌, ◌%◌, ◌^◌, ◌<◌, ◌≤◌, ◌≡◌, ◌≢◌, refl, sym, ap, ◌∙◌, ◌⊎◌, inl, inr,
  Option, some, arith, Mem, store, List, [], ◌∷◌, ◌++◌, length, replicate, All, map, length-append,
  lt→ltb, le→ltb, ℤ, pos, negsuc,
}
use cellift_meta.Print.{digit_char, collect, padding, emit, printnum}

-- The number that digits write in a base, the highest first, behind those already read.
unfoldable pub value_from : ℕ → ℕ → List ℕ → ℕ
value_from base acc [] = acc
value_from base acc (d ∷ ds) = value_from base (acc * base + d) ds

abbrev pub Leading : List ℕ → Type 0
Leading [] = ⊥
Leading (d ∷ ds) = (d ≢ 0) ⊎ (ds ≡ [])

-- `ds` are digits that write `num`, with no 0 in front of another digit.
pub record IsNumeral (base num : ℕ) (ds : List ℕ) : Type 0 where
  pub value : value_from base 0 ds ≡ num
  pub digits : All (λ d. d < base) ds
  pub leading : Leading ds

value_from-append :
    (base acc d : ℕ) (ds : List ℕ)
    → value_from base acc (ds ++ (d ∷ [])) ≡ value_from base acc ds * base + d
unfolding value_from
value_from-append base acc d [] = refl
value_from-append base acc d (e ∷ ds) = value_from-append base (acc * base + e) d ds

digits-append :
    (base d : ℕ) (ds : List ℕ)
    → All (λ e. e < base) ds
    → d < base
    → All (λ e. e < base) (ds ++ (d ∷ []))
digits-append base d [] h lt = (lt, tt)
digits-append base d (e ∷ ds) h lt = (h.0, digits-append base d ds h.1 lt)

Leading-append :
    (base d : ℕ) (ds : List ℕ) → 0 < value_from base 0 ds → Leading ds → Leading (ds ++ (d ∷ []))
unfolding value_from
Leading-append base d [] h l = absurd l
Leading-append base d (e ∷ ds) h (inl ne) = inl ne
Leading-append base d (e ∷ []) h (inr nil) = inl (omega arith)
Leading-append base d (e ∷ f ∷ ds) h (inr nil) = absurd (cc)

IsNumeral-digit : (base d : ℕ) → d < base → IsNumeral base d (d ∷ [])
unfolding value_from
IsNumeral-digit base d lt = record { value = omega arith; digits = (lt, tt); leading = inr refl }

IsNumeral-append :
    (base num : ℕ) (ds : List ℕ)
    → 0 < base
    → base ≤ num
    → IsNumeral base (num / base) ds
    → IsNumeral base num (ds ++ ((num % base) ∷ []))
IsNumeral-append base num ds some_base ge n = record {
  value = value_from-append base 0 (num % base) ds ∙ rw n.value (div-add-mod' num base);
  digits = digits-append base (num % base) ds n.digits (mod-lt num some_base);
  leading =
      Leading-append base (num % base) ds
        (rw n.value (grind (arith, div-add-mod' num base, mod-lt num some_base))) n.leading;
}

emit-store : (digs : Mem) (place v k : ℕ) → k ≤ place → emit (store digs place v) k ≡ emit digs k
unfolding emit
emit-store digs place v zero h = refl
emit-store digs place v (suc k) h = ground (arith, emit-store digs place v k)

emit-next :
    (digs : Mem) (place v : ℕ)
    → emit (store digs place v) (place + 1) ≡ digit_char v ∷ emit digs place
unfolding emit
emit-next digs place v = rw (add-one place) (ground (arith, emit-store digs place v place))

-- What a call of `collect` has done.
record Collected (room base num place : ℕ) (digs : Mem) (result : Option (Mem × ℕ)) : Type 0 where
  ds : List ℕ
  digs' : Mem
  short : length ds ≤ room
  runs : result ≡ some (digs', place + length ds)
  numeral : IsNumeral base num ds
  emits : emit digs' (place + length ds) ≡ map digit_char ds ++ emit digs place

collect_last :
    (fuel base num place : ℕ) (digs : Mem)
    → num < base
    → Collected (suc fuel) base num place digs (collect (suc fuel) base num digs place)
unfolding collect
collect_last fuel base num place digs lt = record {
  ds = num ∷ [];
  digs' = store digs place num;
  short = omega arith;
  runs = ground (arith, mod-eq_of_lt {n = num} {m = base});
  numeral = IsNumeral-digit base num lt;
  emits = emit-next digs place num;
}

collect_more :
    (fuel base num place : ℕ) (digs : Mem)
    → 0 < base
    → base ≤ num
    → Collected fuel base
        (num / base)
        (place + 1)
        (store digs place (num % base))
        (collect fuel base (num / base) (store digs place (num % base)) (place + 1))
    → Collected (suc fuel) base num place digs (collect (suc fuel) base num digs place)
unfolding collect
collect_more fuel base num place digs some_base ge c =
    let e : place + length (c.ds ++ ((num % base) ∷ [])) ≡ place + 1 + length c.ds =
      omega (arith, length-append c.ds ((num % base) ∷ [])) in
    record {
      ds = c.ds ++ ((num % base) ∷ []);
      digs' = c.digs';
      short = omega (arith, length-append c.ds ((num % base) ∷ []), c.short);
      runs = rw (e, le→ltb num base ge) c.runs;
      numeral = IsNumeral-append base num c.ds some_base ge c.numeral;
      emits = rw e (
          c.emits
          ∙ rw (emit-next, map-append)
              (sym (
                append_assoc (map digit_char c.ds) (digit_char (num % base) ∷ [])
                  (emit digs place))));
    }

div-half : (num base : ℕ) → 2 ≤ base → num / base * 2 ≤ num
div-half num base two = grind (arith, div-add-mod' num base)

collect-Collected :
    (fuel base num place : ℕ) (digs : Mem)
    → 2 ≤ base
    → num < 2 ^ suc fuel
    → Collected (suc fuel) base num place digs (collect (suc fuel) base num digs place)
collect-Collected zero base num place digs two fits =
    collect_last zero base num place digs (omega arith)
collect-Collected (suc fuel) base num place digs two fits = elim (dec_lt num base) [
  | yes last ↦ collect_last (suc fuel) base num place digs last
  | no more ↦ collect_more (suc fuel) base num place digs (omega arith) (omega arith) (
      collect-Collected fuel base (num / base) (place + 1) (store digs place (num % base)) two
        (omega (arith, pow-succ' 2 (suc fuel), div-half num base two)))
]

padding-replicate : (w n padc : ℕ) → padding (pos w) n padc ≡ replicate (w - n) padc
unfolding padding
padding-replicate zero n padc = ap (λ (k : ℕ). replicate k padc) {x = 0} {y = 0 - n} (omega arith)
padding-replicate (suc w) n padc = elim (dec_lt n (suc w)) [
  | yes wide ↦
      rw (lt→ltb n (suc w) wide, padding-replicate w n padc)
        (ap (λ (k : ℕ). replicate k padc) {x = suc (w - n)} {y = suc w - n} (omega arith))
  | no full ↦
      rw (le→ltb n (suc w) (omega arith))
        (ap (λ (k : ℕ). replicate k padc) {x = 0} {y = suc w - n} (omega arith))
]

-- The fill of a field: one character for each place that the number leaves free.
abbrev pub fill : ℤ → ℕ → ℕ → List ℕ
fill (pos w) n padc = replicate (w - n) padc
fill (negsuc w) n padc = []

padding-fill : (width : ℤ) (n padc : ℕ) → padding width n padc ≡ fill width n padc
padding-fill (pos w) n padc = padding-replicate w n padc
padding-fill (negsuc w) n padc = unfold padding in refl

-- In a base of at least 2, `printnum` of a 64-bit number stays within its array of 64 digits, and
-- writes the fill, made of `padc`, and behind it the numeral of the number in that base.
pub printnum-IsNumeral :
    (num base padc : ℕ) (width : ℤ)
    → 2 ≤ base
    → num < 2 ^ 64
    → (ds : List ℕ) × IsNumeral base num ds
      × (length ds ≤ 64)
      × (printnum num base width padc ≡ some (fill width (length ds) padc ++ map digit_char ds))
unfolding printnum
printnum-IsNumeral num base padc width two fits =
    let c : Collected 64 base num 0 (λ _. 0) (collect 64 base num (λ _. 0) 0) =
      collect-Collected 63 base num 0 (λ _. 0) two fits in
    (
      c.ds,
      c.numeral,
      c.short,
      rw (c.runs, c.emits, zero-add (length c.ds), append-nil (map digit_char c.ds))
          (ap (λ (l : List ℕ). some (l ++ map digit_char c.ds))
            (padding-fill width (length c.ds) padc)),
    )
