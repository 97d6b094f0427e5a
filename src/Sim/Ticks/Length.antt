-- ===== src/Sim/Ticks/Length.antt =====
-- The length of a simulation, from the text of `SIMLEN` on.
use native.Mathlib.Decide.{dec_lt}
use cellift_meta.Base.{
  append_nil, ℕ, suc, ◌+◌, ◌-◌, ◌^◌, ◌<◌, ◌≤◌, ◌≡◌, refl, sym, ap, ◌∙◌, Bool, true, false, not,
  none, some, List, [], ◌∷◌, All, ltb, leb, if◌then◌else◌, ℤ, pos, negsuc, pos_part, sub_ℕ, ltb_ℤ,
  arith, lt→ltb, le→ltb, ltb→lt, le→leb, Bool-cases, Option-cases, ◌⊎◌, inl, inr,
}
use cellift_meta.Base.Run.{
  Run, returned, aborted, exited, strayed, ◌>>=◌, ◌>>◌, assert, >>=-eq-returned, returned_injective,
}
use cellift_meta.Taint.Stream.{skip_blanks, sign, digits}
use cellift_meta.Taint.Hex.{hex_digit}
use cellift_meta.Taint.Numeral.{value_of, numeral, sign-hex_digit, digits-first}
use cellift_meta.Taint.Line.{skip_blanks-graphic, hex_digit-graphic}
use cellift_meta.Sim.Environment.{Environment}
use cellift_meta.Sim.Ticks.{simlen_name, as_int, atoi, sub_ℤ, sim_length, get_sim_length_cycles}

-- Digits of an `int`.
abbrev pub IsIntNumeral : ℕ → List ℕ → Type 0
IsIntNumeral v vs = (v < 10) × All (λ w. w < 10) vs × (value_of 10 0 (v ∷ vs) < 2 ^ 31)

as_int-pos : (n : ℕ) → n < 2 ^ 31 → as_int false n ≡ returned (pos n)
as_int-pos n h = rw (lt→ltb n (2 ^ 31) h, as_int) refl

atoi-numeral :
    (v : ℕ) (vs : List ℕ)
    → IsIntNumeral v vs
    → atoi (numeral (v ∷ vs)) ≡ returned (pos (value_of 10 0 (v ∷ vs)))
unfolding atoi
atoi-numeral v vs (h, small, fits) =
    ap (λ cs. as_int (sign cs).0 (digits 10 0 false (sign cs).1).0)
      (skip_blanks-graphic (hex_digit false v) (numeral vs) (hex_digit-graphic v (omega arith)))
    ∙ ap (λ (p : Bool × List ℕ). as_int p.0 (digits 10 0 false p.1).0)
        (sign-hex_digit v (numeral vs) h)
    ∙ ap (λ cs. as_int false (digits 10 0 false cs).0) (sym (append_nil (numeral (v ∷ vs))))
    ∙ ap (λ (p : ℕ × Bool × List ℕ). as_int false p.0)
        (digits-first 10 v vs [] (omega arith) h small tt)
    ∙ as_int-pos (value_of 10 0 (v ∷ vs)) fits

-- The asserts, whose tests have these results.
abbrev chain : Bool → Bool → Bool → ℤ → Run ℤ
chain negative positive longer z =
    assert (not negative) >> (assert positive >> (assert longer >> returned z))

chain-short : (positive : Bool) (z : ℤ) → chain false positive false z ≡ aborted
chain-short true z = refl
chain-short false z = refl

sim_length-longer :
    (lead n : ℕ) → lead < n → sim_length (pos lead) (pos n) ≡ returned (pos (n - lead))
unfolding sim_length
sim_length-longer lead n lt =
    ap (λ b. chain b (ltb_ℤ (pos 0) (pos n)) (ltb_ℤ (pos lead) (pos n)) (sub_ℤ (pos n) (pos lead)))
      (le→ltb (lead + 0) (0 + 0) (omega arith))
    ∙ ap (λ b. chain false b (ltb_ℤ (pos lead) (pos n)) (sub_ℤ (pos n) (pos lead)))
        (lt→ltb (0 + 0) (n + 0) (omega arith))
    ∙ ap (λ b. chain false true b (sub_ℤ (pos n) (pos lead)))
        (lt→ltb (lead + 0) (n + 0) (omega arith))
    ∙ ap (λ b. returned (if b then pos (n + 0 - (lead + 0)) else negsuc (lead + 0 - (n + 0) - 1)))
        (le→leb (n + 0) (lead + 0) (omega arith))
    ∙ ap (λ k. returned (pos k)) {x = n + 0 - (lead + 0)} {y = n - lead} (omega arith)

sim_length-shorter : (lead n : ℕ) → n ≤ lead → sim_length (pos lead) (pos n) ≡ aborted
unfolding sim_length
sim_length-shorter lead n le =
    ap (λ b. chain b (ltb_ℤ (pos 0) (pos n)) (ltb_ℤ (pos lead) (pos n)) (sub_ℤ (pos n) (pos lead)))
      (le→ltb (lead + 0) (0 + 0) (omega arith))
    ∙ ap (λ b. chain false (ltb_ℤ (pos 0) (pos n)) b (sub_ℤ (pos n) (pos lead)))
        (le→ltb (lead + 0) (n + 0) (omega arith))
    ∙ chain-short (ltb_ℤ (pos 0) (pos n)) (sub_ℤ (pos n) (pos lead))

get_sim_length_cycles-set :
    (getenv : Environment) (str : List ℕ) (lead : ℤ)
    → getenv simlen_name ≡ some str
    → get_sim_length_cycles getenv lead ≡ (atoi str >>= λ simlen. sim_length lead simlen)
unfolding get_sim_length_cycles
get_sim_length_cycles-set getenv str lead e = rw (e, get_sim_length_cycles) refl

-- What `get_sim_length_cycles` does for a lead time that is not negative: it ends the program with the
-- code 1 without `SIMLEN`; for the digits of an `int` it returns the difference to the lead time when
-- the lead time is smaller, and aborts otherwise.
pub get_sim_length_cycles-cases :
    (getenv : Environment) (lead v : ℕ) (vs : List ℕ)
    → (getenv simlen_name ≡ none)
      ⊎ ((getenv simlen_name ≡ some (numeral (v ∷ vs))) × IsIntNumeral v vs)
    → ((getenv simlen_name ≡ none) × (get_sim_length_cycles getenv (pos lead) ≡ exited 1))
      ⊎ (((lead < value_of 10 0 (v ∷ vs))
            × (get_sim_length_cycles getenv (pos lead)
                ≡ returned (pos (value_of 10 0 (v ∷ vs) - lead))))
          ⊎ ((value_of 10 0 (v ∷ vs) ≤ lead) × (get_sim_length_cycles getenv (pos lead) ≡ aborted)))
unfolding get_sim_length_cycles
get_sim_length_cycles-cases getenv lead v vs (inl unset) =
    inl (unset, rw (unset, get_sim_length_cycles) refl)
get_sim_length_cycles-cases getenv lead v vs (inr (set, int)) =
    let n = value_of 10 0 (v ∷ vs) in
    let run =
      get_sim_length_cycles-set getenv (numeral (v ∷ vs)) (pos lead) set
      ∙ ap (λ r. r >>= λ simlen. sim_length (pos lead) simlen) (atoi-numeral v vs int) in
    elim (dec_lt lead n) [
      | yes lt ↦ inr (inl (lt, run ∙ sim_length-longer lead n lt))
      | no ge ↦ inr (inr (omega arith, run ∙ sim_length-shorter lead n (omega arith)))
    ]

sub_ℕ-zero : (m : ℕ) → pos_part (sub_ℕ 0 m) ≡ 0
sub_ℕ-zero m = elim (Bool-cases (leb m 0)) [
  | inl none' ↦
      ap (λ b. pos_part (if b then pos (0 - m) else negsuc (m - 0 - 1))) none' ∙ omega arith
  | inr some' ↦ ap (λ b. pos_part (if b then pos (0 - m) else negsuc (m - 0 - 1))) some'
]

-- What is returned under a test.
returned-if :
    (b : Bool) (z w : ℤ) → (if b then returned z else strayed) ≡ returned w → (b ≡ true) × (z ≡ w)
returned-if true z w h = (refl, returned_injective h)
returned-if false z w h = absurd (cc)

as_int-bound : (negative : Bool) (m n : ℕ) → as_int negative m ≡ returned (pos n) → n < 2 ^ 31
as_int-bound true m n h =
    let (fits, e) = returned-if (leb m (2 ^ 31)) (sub_ℕ 0 m) (pos n) h in
    let nothing : 0 ≡ n = sym (sub_ℕ-zero m) ∙ ap pos_part e in omega arith
as_int-bound false m n h =
    let (fits, e) = returned-if (ltb m (2 ^ 31)) (pos m) (pos n) h in
    let same : m ≡ n = ap pos_part e in omega (arith, ltb→lt m (2 ^ 31) fits)

atoi-bound : (str : List ℕ) (n : ℕ) → atoi str ≡ returned (pos n) → n < 2 ^ 31
unfolding atoi
atoi-bound str n h =
    let (negative, cs) = sign (skip_blanks str) in
    as_int-bound negative (digits 10 0 false cs).0 n h

clash : {z : ℤ} → aborted ≡ returned z → ⊥
clash e = absurd (cc)

exit-clash : {z : ℤ} → exited 1 ≡ returned z → ⊥
exit-clash e = absurd (cc)

-- The two numbers that pass the asserts.
sim_length-eq-returned :
    (lead simlen z : ℤ)
    → sim_length lead simlen ≡ returned z
    → (l : ℕ) × (n : ℕ) × (lead ≡ pos l) × (simlen ≡ pos n) × (l < n) × (z ≡ pos (n - l))
unfolding sim_length
sim_length-eq-returned (pos l) (pos n) z h = elim (dec_lt l n) [
  | yes lt ↦ (l, n, refl, refl, lt, sym (returned_injective (sym (sim_length-longer l n lt) ∙ h)))
  | no ge ↦ absurd (clash (sym (sim_length-shorter l n (omega arith)) ∙ h))
]
sim_length-eq-returned (pos l) (negsuc n) z h = absurd (
    clash (
      sym (
        ap
          (λ b.
            chain b (ltb_ℤ (pos 0) (negsuc n)) (ltb_ℤ (pos l) (negsuc n))
              (sub_ℤ (negsuc n) (pos l)))
          (le→ltb (l + 0) (0 + 0) (omega arith))
        ∙ ap (λ b. chain false b (ltb_ℤ (pos l) (negsuc n)) (sub_ℤ (negsuc n) (pos l)))
            (le→ltb (0 + suc n) (0 + 0) (omega arith)))
      ∙ h))
sim_length-eq-returned (negsuc l) simlen z h = absurd (
    clash (
      sym (
        ap (λ b. chain b (ltb_ℤ (pos 0) simlen) (ltb_ℤ (negsuc l) simlen) (sub_ℤ simlen (negsuc l)))
          (lt→ltb (0 + 0) (0 + suc l) (omega arith)))
      ∙ h))

-- Whatever the lead time and the environment are, a length that `get_sim_length_cycles` returns is
-- positive, and with the lead time, which is not negative, it gives the number of `SIMLEN`, which is
-- an `int`.
pub get_sim_length_cycles-bound :
    (getenv : Environment) (lead z : ℤ)
    → get_sim_length_cycles getenv lead ≡ returned z
    → (l : ℕ) × (k : ℕ) × (lead ≡ pos l)
      × (z ≡ pos k)
      × (0 < k)
      × (l + k < 2 ^ 31)
      × ((str : List ℕ) × (getenv simlen_name ≡ some str) × (atoi str ≡ returned (pos (l + k))))
unfolding get_sim_length_cycles
get_sim_length_cycles-bound getenv lead z h = elim (Option-cases (getenv simlen_name)) [
  | inl unset ↦ absurd (exit-clash (sym (rw (unset, get_sim_length_cycles) refl) ∙ h))
  | inr (str, set) ↦
      let (simlen, read, e) =
        >>=-eq-returned (atoi str) (λ simlen. sim_length lead simlen)
          (sym (get_sim_length_cycles-set getenv str lead set) ∙ h) in
      let (l, n, lead', simlen', lt, z') = sim_length-eq-returned lead simlen z e in
      let fits = atoi-bound str n (read ∙ ap returned simlen') in
      (
        l,
        n - l,
        lead',
        z',
        omega arith,
        omega arith,
        (
          str,
          set,
          read
              ∙ ap returned simlen'
              ∙ ap (λ k. returned (pos k)) {x = n} {y = l + (n - l)} (omega arith),
        ),
      )
]
