-- ===== src/CString/Copy.antt =====
-- `memcpy`: the word loop and the byte loop copy alike.
use mathlib.Core.Path.{subst}
use native.Mathlib.Decide.{dec_lt}
use native.Mathlib.Nat.{one-le-pow, div-le_self}
use cellift_meta.Base.{
  ℕ, zero, suc, ◌+◌, ◌-◌, ◌*◌, ◌/◌, ◌^◌, ◌<◌, ◌≡◌, refl, sym, ap, ◌∙◌, inl, inr, some, arith, Mem,
  store, Outside, Disjoint, IsBytes, Bool-cases, bit_or,
}
use cellift_meta.CString.{load_word, store_word, aligned, copy_words, copy_bytes, memcpy}
use cellift_meta.CString.Words.{
  byte_of-load_word, store_word_inside, store_word-Outside, store_word-IsBytes, whole_words,
}

-- `m'` is `m` with the `n` bytes at `s` copied to `d`.
pub record IsCopy (m m' : Mem) (d s n : ℕ) : Type 0 where
  pub inside : (i : ℕ) → i < n → m' (d + i) ≡ m (s + i)
  pub outside : (b : ℕ) → Outside d n b → m' b ≡ m b

IsCopy-zero : (m : Mem) (d s : ℕ) → IsCopy m m d s 0
IsCopy-zero m d s = record { inside = λ i h. absurd (omega arith); outside = λ b h. refl }

-- Two copies in a row are one copy.
IsCopy-append :
    (m m1 m2 : Mem) (d s k n : ℕ)
    → Disjoint d (k + n) s (k + n)
    → IsCopy m m1 d s k
    → IsCopy m1 m2 (d + k) (s + k) n
    → IsCopy m m2 d s (k + n)
IsCopy-append m m1 m2 d s k n apart c1 c2 = record {
  inside = λ i h. elim (dec_lt i k) [
    | yes low ↦ c2.outside (d + i) (omega arith) ∙ c1.inside i low
    | no high ↦
        ap m2 {y = d + k + (i - k)} (omega arith)
        ∙ c2.inside (i - k) (omega arith)
        ∙ c1.outside (s + k + (i - k)) (ground arith)
        ∙ ap m (omega arith)
  ];
  outside = λ b h. c2.outside b (omega arith) ∙ c1.outside b (omega arith);
}

IsCopy-byte : (m : Mem) (d s : ℕ) → IsCopy m (store m d (m s)) d s 1
IsCopy-byte m d s = record {
  inside = λ i h. ground (arith, ap m {x = s + i} {y = s} (omega arith));
  outside = λ b h. ground arith;
}

IsCopy-word :
    (m : Mem) (d s w : ℕ) → IsBytes m → IsCopy m (store_word m d w (load_word m s w)) d s w
IsCopy-word m d s w bytes = record {
  inside = λ i h. store_word_inside m d w _ i h ∙ byte_of-load_word m s w i bytes h;
  outside = λ b h. store_word-Outside m d w _ b h;
}

pub copy_bytes-IsCopy :
    (fuel : ℕ) (m : Mem) (d s n stop : ℕ)
    → stop ≡ d + n
    → n < fuel
    → Disjoint d n s n
    → (m' : Mem) × (copy_bytes fuel m d s stop ≡ some m') × IsCopy m m' d s n
unfolding copy_bytes
copy_bytes-IsCopy zero m d s n stop e f apart = absurd (omega arith)
copy_bytes-IsCopy (suc fuel) m d s zero stop e f apart = (m, ground arith, IsCopy-zero m d s)
copy_bytes-IsCopy (suc fuel) m d s (suc n) stop e f apart =
    let (m', run, copied) =
      copy_bytes-IsCopy fuel (store m d (m s)) (d + 1) (s + 1) n stop (omega arith) (omega arith)
        (omega arith) in
    (
      m',
      ground arith,
      subst (IsCopy m m' d s) (omega arith)
          (IsCopy-append m (store m d (m s)) m' d s 1 n (omega arith) (IsCopy-byte m d s) copied),
    )

pub copy_words-IsCopy :
    (w fuel : ℕ) (m : Mem) (d s rounds stop : ℕ)
    → 0 < w
    → stop ≡ d + rounds * w
    → rounds < fuel
    → IsBytes m
    → Disjoint d (rounds * w) s (rounds * w)
    → (m' : Mem) × (copy_words w fuel m d s stop ≡ some m') × IsCopy m m' d s (rounds * w)
unfolding copy_words
copy_words-IsCopy w zero m d s n stop pos e f bytes apart = absurd (omega arith)
copy_words-IsCopy w (suc fuel) m d s zero stop pos e f bytes apart =
    (m, ground arith, subst (IsCopy m m d s) (omega arith) (IsCopy-zero m d s))
copy_words-IsCopy w (suc fuel) m d s (suc n) stop pos e f bytes apart =
    let m1 : Mem = store_word m d w (load_word m s w) in
    let (m', run, copied) =
      copy_words-IsCopy w fuel m1 (d + w) (s + w) n stop pos (omega arith) (omega arith)
        (store_word-IsBytes m d w _ bytes) (omega arith) in
    (
      m',
      ground arith,
      subst (IsCopy m m' d s) (omega arith)
          (IsCopy-append m m1 m' d s w (n * w) (omega arith) (IsCopy-word m d s w bytes) copied),
    )

-- On memory areas that do not overlap, `memcpy` returns, has copied the `len` bytes, and has
-- changed nothing else, whichever of its two loops runs.
pub memcpy-IsCopy :
    (k : ℕ) (m : Mem) (dest src len : ℕ)
    → IsBytes m
    → Disjoint dest len src len
    → (m' : Mem) × (memcpy k m dest src len ≡ some m') × IsCopy m m' dest src len
unfolding memcpy
memcpy-IsCopy k m dest src len bytes apart =
    elim (Bool-cases (aligned k (bit_or (bit_or dest src) len))) [
      | inl words ↦
          let whole : len ≡ len / 2 ^ k * 2 ^ k = whole_words k (bit_or dest src) len words in
          let (m', run, copied) =
            copy_words-IsCopy (2 ^ k) (suc len) m dest src (len / 2 ^ k) (dest + len)
              (one-le-pow k 2 (omega arith)) (omega (arith, whole))
              (ground (arith, div-le_self len (2 ^ k))) bytes
              (subst (λ (n : ℕ). Disjoint dest n src n) whole apart) in
          rw words (m', run, subst (IsCopy m m' dest src) (sym whole) copied)
      | inr single ↦
          rw single
            (copy_bytes-IsCopy (suc len) m dest src len (dest + len) refl (omega arith) apart)
    ]
