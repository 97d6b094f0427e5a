-- ===== src/CString/Words.antt =====
-- Words as sequences of bytes: what a word store and a word load do, byte by byte.
use native.Mathlib.Nat.{add-zero, div-add-mod'}
use cellift_meta.Base.{
  ℕ, zero, suc, ◌+◌, ◌/◌, ◌%◌, ◌<◌, ◌≡◌, refl, ap, ◌∙◌, arith, Mem, store, Outside, IsBytes,
  bit_and_mask, bit_or, bit_or_mod-zero_iff, ◌*◌, true, ◌^◌,
}
use cellift_meta.CString.{load_word, store_word, aligned}

-- The byte number `i` of a word.
unfoldable pub byte_of : ℕ → ℕ → ℕ
byte_of v zero = v % 256
byte_of v (suc i) = byte_of (v / 256) i

pub byte_of-load_word :
    (m : Mem) (a n i : ℕ) → IsBytes m → i < n → byte_of (load_word m a n) i ≡ m (a + i)
unfolding byte_of load_word
byte_of-load_word m a zero i bytes h = absurd (omega arith)
byte_of-load_word m a (suc n) zero bytes h = rw add-zero (omega (arith, bytes a))
byte_of-load_word m a (suc n) (suc i) bytes h =
    ap (λ (v : ℕ). byte_of v i) (omega (arith, bytes a))
    ∙ byte_of-load_word m (a + 1) n i bytes (omega arith)
    ∙ ap m (omega arith)

pub store_word-Outside : (m : Mem) (a n v b : ℕ) → Outside a n b → store_word m a n v b ≡ m b
unfolding store_word
store_word-Outside m a zero v b h = refl
store_word-Outside m a (suc n) v b h =
    ground (arith, store_word-Outside (store m a (v % 256)) (a + 1) n (v / 256) b (omega arith))

pub store_word_inside : (m : Mem) (a n v i : ℕ) → i < n → store_word m a n v (a + i) ≡ byte_of v i
unfolding byte_of store_word
store_word_inside m a zero v i h = absurd (omega arith)
store_word_inside m a (suc n) v zero h =
    store_word-Outside (store m a (v % 256)) (a + 1) n (v / 256) (a + 0) (omega arith)
    ∙ ground arith
store_word_inside m a (suc n) v (suc i) h =
    ap (store_word (store m a (v % 256)) (a + 1) n (v / 256)) (omega arith)
    ∙ store_word_inside (store m a (v % 256)) (a + 1) n (v / 256) i (omega arith)

pub store_word-IsBytes : (m : Mem) (a n v : ℕ) → IsBytes m → IsBytes (store_word m a n v)
unfolding store_word
store_word-IsBytes m a zero v bytes = bytes
store_word-IsBytes m a (suc n) v bytes =
    store_word-IsBytes (store m a (v % 256)) (a + 1) n (v / 256) (λ b. ground (arith, bytes b))

-- A length that passes the test with others is a whole number of words.
pub whole_words : (k a len : ℕ) → aligned k (bit_or a len) ≡ true → len ≡ len / 2 ^ k * 2 ^ k
unfolding aligned
whole_words k a len h =
    ground
      (arith, bit_and_mask k (bit_or a len), bit_or_mod-zero_iff k a len, div-add-mod' len (2 ^ k))
