-- ===== src/Taint/Decode.antt =====
-- What any string of characters means to `read_taint_section`.
use cellift_meta.Base.{
  ℕ, zero, suc, ◌+◌, ◌*◌, ◌/◌, ◌%◌, ◌<◌, ◌≡◌, refl, sym, ap, ◌∙◌, true, false, ◌||◌, ◌==◌,
  if◌then◌else◌, Option, Option-cases, some_injective, none, some, List, [], ◌∷◌, bit_or, store,
  Mem, arith, Bool-cases, inl, inr,
}
use cellift_meta.Base.Run.{Run, returned, exited}
use cellift_meta.Taint.Queue.{char_to_hex, write_bytes}
use cellift_meta.Taint.Hex.{hex_digit, nibbles}
use cellift_meta.Elf.Queue.{copy_out}

-- The value below `n` whose digit, of either case, is a character.
unfoldable pub find_digit : ℕ → ℕ → Option ℕ
find_digit zero c = none
find_digit (suc n) c =
    let rest = find_digit n c in
    if hex_digit false n == c || hex_digit true n == c then some n else rest

abbrev pub from_option : Option ℕ → Run ℕ
from_option none = exited 0
from_option (some v) = returned v

char_to_hex-find_digit : (c : ℕ) → char_to_hex c ≡ from_option (find_digit 16 c)
unfolding char_to_hex find_digit
char_to_hex-find_digit c = ground arith

find_digit-lt : (n c v : ℕ) → find_digit n c ≡ some v → v < n
unfolding find_digit
find_digit-lt zero c v e = absurd (cc)
find_digit-lt (suc n) c v e = elim (Bool-cases (hex_digit false n == c || hex_digit true n == c)) [
  | inl here ↦
      let same : n ≡ v =
        some_injective (sym (ap (λ b. if b then some n else find_digit n c) here) ∙ e) in
      omega arith
  | inr there ↦
      let below =
        find_digit-lt n c v (sym (ap (λ b. if b then some n else find_digit n c) there) ∙ e) in
      omega arith
]

abbrev join : Option ℕ → Option ℕ → Option (List ℕ) → Option (List ℕ)
join (some v) (some w) (some bs) = some ((v * 16 + w) ∷ bs)
join (some v) (some w) none = none
join (some v) none rest = none
join none low rest = none

-- The bytes that a string spells, two digits of either case for each, or nothing; a last odd character
-- has no meaning.
unfoldable pub decode : List ℕ → Option (List ℕ)
unfolding find_digit
decode [] = some []
decode (c ∷ []) = some []
decode (high ∷ low ∷ cs) = join (find_digit 16 high) (find_digit 16 low) (decode cs)

-- The digits of a byte do not overlap.
bit_or-digits : (v w : ℕ) → v < 16 → w < 16 → bit_or (v * 16) w ≡ v * 16 + w
bit_or-digits v w h k =
    ap (λ n. bit_or (n * 16) w) {x = v} {y = (v * 16 + w) / 16} (omega arith)
    ∙ ap (bit_or ((v * 16 + w) / 16 * 16)) {x = w} {y = (v * 16 + w) % 16} (omega arith)
    ∙ nibbles (v * 16 + w) (omega arith)

-- What the loop makes of the bytes of a string, from the place `i` of the buffer on.
abbrev behind_bytes : ℕ → Mem → Option (List ℕ) → Run Mem
behind_bytes i buf none = exited 0
behind_bytes i buf (some bs) = returned (copy_out bs i buf)

behind_bytes-join :
    (i : ℕ) (buf : Mem) (v w : ℕ) (rest : Option (List ℕ))
    → behind_bytes (i + 1) (store buf i (v * 16 + w)) rest
      ≡ behind_bytes i buf (join (some v) (some w) rest)
unfolding copy_out
behind_bytes-join i buf v w none = refl
behind_bytes-join i buf v w (some bs) = refl

pub write_bytes-decode :
    (cs : List ℕ) (i : ℕ) (buf : Mem) → write_bytes cs i buf ≡ behind_bytes i buf (decode cs)
unfolding write_bytes decode copy_out
write_bytes-decode [] i buf = refl
write_bytes-decode (c ∷ []) i buf = refl
write_bytes-decode (high ∷ low ∷ cs) i buf =
    let first = char_to_hex-find_digit high in
    let second = char_to_hex-find_digit low in
    elim (Option-cases (find_digit 16 high)) [
      | inl bad ↦ rw (first, bad) refl
      | inr (v, good) ↦ elim (Option-cases (find_digit 16 low)) [
        | inl bad ↦ rw (first, good, second, bad) refl
        | inr (w, good') ↦
            let digits =
              bit_or-digits v w (find_digit-lt 16 high v good) (find_digit-lt 16 low w good') in
            rw
              (
                first,
                good,
                second,
                good',
                digits,
                write_bytes-decode cs (i + 1) (store buf i (v * 16 + w)),
              )
              (behind_bytes-join i buf v w (decode cs))
      ]
    ]
