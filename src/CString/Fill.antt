-- ===== src/CString/Fill.antt =====
-- `memset`: the pattern that the word loop stores is the byte that the byte loop stores.
use mathlib.Core.Path.{subst}
use native.Mathlib.Decide.{dec_lt}
use native.Mathlib.Nat.{one-le-pow, div-le_self, mod-mod}
use cellift_meta.Base.{
  ℕ, zero, suc, ◌+◌, ◌-◌, ◌*◌, ◌/◌, ◌%◌, ◌^◌, ◌<◌, ◌≡◌, refl, sym, ap, ◌∙◌, Bool, true, inl, inr,
  ◌⊎◌, some, ◌==◌, arith, every_below, every_below-at, Mem, store, Outside, Bool-cases, ==_iff,
  bit_or, bit_and_mask,
}
use cellift_meta.CString.{store_word, aligned, fill_words, fill_bytes, memset, spread}
use cellift_meta.CString.Words.{byte_of, store_word_inside, store_word-Outside, whole_words}

-- `m'` is `m` with `v` in each of the `n` bytes at `d`.
pub record IsFill (m m' : Mem) (d n v : ℕ) : Type 0 where
  pub inside : (i : ℕ) → i < n → m' (d + i) ≡ v
  pub outside : (b : ℕ) → Outside d n b → m' b ≡ m b

IsFill-zero : (m : Mem) (d v : ℕ) → IsFill m m d 0 v
IsFill-zero m d v = record { inside = λ i h. absurd (omega arith); outside = λ b h. refl }

IsFill-append :
    (m m1 m2 : Mem) (d k n v : ℕ)
    → IsFill m m1 d k v
    → IsFill m1 m2 (d + k) n v
    → IsFill m m2 d (k + n) v
IsFill-append m m1 m2 d k n v f1 f2 = record {
  inside = λ i h. elim (dec_lt i k) [
    | yes low ↦ f2.outside (d + i) (omega arith) ∙ f1.inside i low
    | no high ↦ ap m2 {y = d + k + (i - k)} (omega arith) ∙ f2.inside (i - k) (omega arith)
  ];
  outside = λ b h. f2.outside b (omega arith) ∙ f1.outside b (omega arith);
}

IsFill-byte : (m : Mem) (d v : ℕ) → IsFill m (store m d v) d 1 v
IsFill-byte m d v = record { inside = λ i h. ground arith; outside = λ b h. ground arith }

fill_bytes-IsFill :
    (fuel : ℕ) (m : Mem) (d byte n stop : ℕ)
    → stop ≡ d + n
    → n < fuel
    → (m' : Mem) × (fill_bytes fuel m d byte stop ≡ some m') × IsFill m m' d n (byte % 256)
unfolding fill_bytes
fill_bytes-IsFill zero m d byte n stop e f = absurd (omega arith)
fill_bytes-IsFill (suc fuel) m d byte zero stop e f = (m, ground arith, IsFill-zero m d _)
fill_bytes-IsFill (suc fuel) m d byte (suc n) stop e f =
    let m1 : Mem = store m d (byte % 256) in
    let (m', run, filled) =
      fill_bytes-IsFill fuel m1 (d + 1) byte n stop (omega arith) (omega arith) in
    (
      m',
      ground arith,
      subst (λ (l : ℕ). IsFill m m' d l (byte % 256)) (omega arith)
          (IsFill-append m m1 m' d 1 n (byte % 256) (IsFill-byte m d _) filled),
    )

module _ (w word v : ℕ) (pos : 0 < w) (pattern_of : (i : ℕ) → i < w → byte_of word i ≡ v) where
  IsFill-word : (m : Mem) (d : ℕ) → IsFill m (store_word m d w word) d w v
  IsFill-word m d = record {
    inside = λ i h. store_word_inside m d w word i h ∙ pattern_of i h;
    outside = λ b h. store_word-Outside m d w word b h;
  }

  fill_words-IsFill :
      (fuel : ℕ) (m : Mem) (d rounds stop : ℕ)
      → stop ≡ d + rounds * w
      → rounds < fuel
      → (m' : Mem) × (fill_words w fuel m d word stop ≡ some m') × IsFill m m' d (rounds * w) v
  unfolding fill_words
  fill_words-IsFill zero m d n stop e f = absurd (omega arith)
  fill_words-IsFill (suc fuel) m d zero stop e f =
      (m, ground arith, subst (λ (l : ℕ). IsFill m m d l v) (omega arith) (IsFill-zero m d v))
  fill_words-IsFill (suc fuel) m d (suc n) stop e f =
      let m1 : Mem = store_word m d w word in
      let (m', run, filled) =
        fill_words-IsFill fuel m1 (d + w) n stop (omega arith) (omega arith) in
      (
        m',
        ground arith,
        subst (λ (l : ℕ). IsFill m m' d l v) (omega arith)
            (IsFill-append m m1 m' d w (n * w) v (IsFill-word m d) filled),
      )

-- The pattern, checked for each byte and each place in a word of four or eight bytes.
spread_masked : (k byte : ℕ) → spread k byte ≡ spread k (byte % 256)
unfolding spread
spread_masked k byte = rw (bit_and_mask 8 byte, bit_and_mask 8 (byte % 256), mod-mod byte 256)

pattern_table : ℕ → Bool
unfolding spread byte_of every_below
pattern_table k = every_below 256 (λ b. every_below (2 ^ k) (λ i. byte_of (spread k b) i == b))

pattern_table_sound :
    (k byte i : ℕ) → pattern_table k ≡ true → i < 2 ^ k → byte_of (spread k byte) i ≡ byte % 256
unfolding pattern_table
pattern_table_sound k byte i table h = rw (spread_masked k byte) (
    (==_iff _ _).0 (
      every_below-at (2 ^ k) (λ i. byte_of (spread k (byte % 256)) i == byte % 256) i
        (every_below-at 256 (λ b. every_below (2 ^ k) (λ i. byte_of (spread k b) i == b))
          (byte % 256) table (omega arith))
        h))

pattern_four : pattern_table 2 ≡ true
unfolding pattern_table
pattern_four = refl

pattern_eight : pattern_table 3 ≡ true
unfolding pattern_table
pattern_eight = refl

spread_pattern :
    (k byte i : ℕ) → (k ≡ 2) ⊎ (k ≡ 3) → i < 2 ^ k → byte_of (spread k byte) i ≡ byte % 256
spread_pattern k byte i (inl four) h = pattern_table_sound k byte i (rw four pattern_four) h
spread_pattern k byte i (inr eight) h = pattern_table_sound k byte i (rw eight pattern_eight) h

-- With words of four or of eight bytes `memset` returns, has stored the low byte of its argument
-- in the `len` bytes, and has changed nothing else, whichever of its two loops runs.
pub memset-IsFill :
    (k : ℕ) (m : Mem) (dest byte len : ℕ)
    → (k ≡ 2) ⊎ (k ≡ 3)
    → (m' : Mem) × (memset k m dest byte len ≡ some m') × IsFill m m' dest len (byte % 256)
unfolding memset
memset-IsFill k m dest byte len width = elim (Bool-cases (aligned k (bit_or dest len))) [
  | inl words ↦
      let whole : len ≡ len / 2 ^ k * 2 ^ k = whole_words k dest len words in
      let (m', run, filled) =
        fill_words-IsFill (2 ^ k) (spread k byte) (byte % 256) (one-le-pow k 2 (omega arith))
          (λ i h. spread_pattern k byte i width h) (suc len) m dest (len / 2 ^ k) (dest + len)
          (omega (arith, whole)) (ground (arith, div-le_self len (2 ^ k))) in
      rw words (m', run, subst (λ (l : ℕ). IsFill m m' dest l (byte % 256)) (sym whole) filled)
  | inr single ↦
      rw single (fill_bytes-IsFill (suc len) m dest byte len (dest + len) refl (omega arith))
]
