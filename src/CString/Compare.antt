-- ===== src/CString/Compare.antt =====
-- `memcmp`: skipping equal words changes nothing, and the result is that of the first byte that
-- differs.
use mathlib.Core.Path.{ap₂}
use native.Mathlib.Decide.{dec_lt}
use native.Mathlib.Nat.{one-le-pow, div-le_self, zero-add, add-zero, div-add-mod'}
use cellift_meta.Base.{
  ℕ, zero, suc, ◌+◌, ◌-◌, ◌*◌, ◌/◌, ◌^◌, ◌<◌, ◌≤◌, ◌≡◌, ◌≢◌, refl, sym, ap, ◌∙◌, inl, inr, some,
  ◌==◌, arith, Mem, IsBytes, Bool-cases, bit_or, pos, sub_ℕ,
}
use cellift_meta.CString.{load_word, aligned, compare_words, compare_bytes, memcmp}
use cellift_meta.CString.Words.{byte_of, byte_of-load_word}

-- The `n` bytes at `a` and those at `b` are the same.
abbrev pub SameBytes : Mem → ℕ → ℕ → ℕ → Type 0
SameBytes m a b n = (i : ℕ) → i < n → m (a + i) ≡ m (b + i)

SameBytes-word :
    (m : Mem) (a b w : ℕ) → IsBytes m → load_word m a w ≡ load_word m b w → SameBytes m a b w
SameBytes-word m a b w bytes e i h =
    sym (byte_of-load_word m a w i bytes h)
    ∙ ap (λ (v : ℕ). byte_of v i) e
    ∙ byte_of-load_word m b w i bytes h

SameBytes-append :
    (m : Mem) (a b k n : ℕ)
    → SameBytes m a b k
    → SameBytes m (a + k) (b + k) n
    → SameBytes m a b (k + n)
SameBytes-append m a b k n h1 h2 i h = elim (dec_lt i k) [
  | yes low ↦ h1 i low
  | no high ↦
      ap m {x = a + i} {y = a + k + (i - k)} (omega arith)
      ∙ h2 (i - k) (omega arith)
      ∙ ap m (omega arith)
]

SameBytes-head : (m : Mem) (a b n : ℕ) → SameBytes m a b (suc n) → m a ≡ m b
SameBytes-head m a b n same =
    ap m {x = a} {y = a + 0} (omega arith) ∙ same 0 (omega arith) ∙ ap m (omega arith)

SameBytes-tail : (m : Mem) (a b n : ℕ) → SameBytes m a b (suc n) → SameBytes m (a + 1) (b + 1) n
SameBytes-tail m a b n same i h =
    ap m {x = a + 1 + i} {y = a + suc i} (omega arith)
    ∙ same (suc i) (omega arith)
    ∙ ap m (omega arith)

compare_bytes_skip :
    (m : Mem) (a b r n len : ℕ)
    → len ≡ r + n
    → SameBytes m a b r
    → compare_bytes m a b len ≡ compare_bytes m (a + r) (b + r) n
unfolding compare_bytes
compare_bytes_skip m a b zero n len e same = rw (add-zero a, add-zero b, e, zero-add n)
compare_bytes_skip m a b (suc r) n zero e same = absurd (omega arith)
compare_bytes_skip m a b (suc r) n (suc len) e same = ground (
  arith,
  SameBytes-head m a b r same,
  compare_bytes_skip m (a + 1) (b + 1) r n len (omega arith) (SameBytes-tail m a b r same),
  ap₂ (λ (x y : ℕ). compare_bytes m x y n) {x = a + 1 + r} {y = a + suc r} {u = b + 1 + r}
      {v = b + suc r} (omega arith) (omega arith),
)

-- Equal bytes compare as 0, and otherwise the first difference decides.
pub compare_bytes_same : (m : Mem) (a b n : ℕ) → SameBytes m a b n → compare_bytes m a b n ≡ pos 0
compare_bytes_same m a b n same =
    compare_bytes_skip m a b n 0 n (omega arith) same ∙ unfold compare_bytes in refl

pub compare_bytes_differ :
    (m : Mem) (a b n i : ℕ)
    → i < n
    → SameBytes m a b i
    → m (a + i) ≢ m (b + i)
    → compare_bytes m a b n ≡ sub_ℕ (m (a + i)) (m (b + i))
compare_bytes_differ m a b n i h same ne =
    compare_bytes_skip m a b i (suc (n - i - 1)) n (omega arith) same
    ∙ (unfold compare_bytes in ground arith)

compare_words_lem :
    (w fuel : ℕ) (m : Mem) (a b stop moved rounds : ℕ)
    → 0 < w
    → IsBytes m
    → stop ≡ a + rounds * w
    → rounds < fuel
    → (r : ℕ) × (compare_words w fuel m a b stop moved ≡ some (moved + r))
      × (r ≤ rounds * w)
      × SameBytes m a b r
unfolding compare_words
compare_words_lem w zero m a b stop moved rounds some_width bytes e f = absurd (omega arith)
compare_words_lem w (suc fuel) m a b stop moved zero some_width bytes e f =
    (0, ground arith, omega arith, λ i h. absurd (omega arith))
compare_words_lem w (suc fuel) m a b stop moved (suc rounds) some_width bytes e f =
    elim (Bool-cases (load_word m a w == load_word m b w)) [
      | inl same ↦
          let (r, run, le, eq) =
            compare_words_lem w fuel m (a + w) (b + w) stop (moved + w) rounds some_width bytes
              (omega arith) (omega arith) in
          (
            w + r,
            ground arith,
            omega arith,
            SameBytes-append m a b w r (SameBytes-word m a b w bytes (ground arith)) eq,
          )
      | inr differ ↦ (0, ground arith, omega arith, λ i h. absurd (omega arith))
    ]

-- The word loop of `memcmp` is an optimisation: its result is that of comparing byte by byte.
pub memcmp-compare_bytes :
    (k : ℕ) (m : Mem) (a b n : ℕ) → IsBytes m → memcmp k m a b n ≡ some (compare_bytes m a b n)
unfolding memcmp
memcmp-compare_bytes k m a b n bytes = elim (Bool-cases (aligned k (bit_or a b))) [
  | inl words ↦
      let (r, run, le, same) =
        compare_words_lem (2 ^ k) (suc n) m a b (a + n / 2 ^ k * 2 ^ k) 0 (n / 2 ^ k)
          (one-le-pow k 2 (omega arith)) bytes refl (ground (arith, div-le_self n (2 ^ k))) in
      rw (words, run, zero-add r)
        (ap some
          (sym (compare_bytes_skip m a b r (n - r) n (omega (arith, div-add-mod' n (2 ^ k))) same)))
  | inr single ↦ rw single
]

-- `memcmp` of areas that hold the same bytes returns, and returns 0.
pub memcmp_same :
    (k : ℕ) (m : Mem) (a b n : ℕ) → IsBytes m → SameBytes m a b n → memcmp k m a b n ≡ some (pos 0)
memcmp_same k m a b n bytes same =
    memcmp-compare_bytes k m a b n bytes ∙ ap some (compare_bytes_same m a b n same)

-- `memcmp` of areas that first differ at their byte number `i` returns, and returns the difference
-- of the two bytes there, as a signed number.
pub memcmp_differ :
    (k : ℕ) (m : Mem) (a b n i : ℕ)
    → IsBytes m
    → i < n
    → SameBytes m a b i
    → m (a + i) ≢ m (b + i)
    → memcmp k m a b n ≡ some (sub_ℕ (m (a + i)) (m (b + i)))
memcmp_differ k m a b n i bytes h same ne =
    memcmp-compare_bytes k m a b n bytes ∙ ap some (compare_bytes_differ m a b n i h same ne)
