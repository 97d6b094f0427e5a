-- ===== src/Elf/Layout/Encode.antt =====
-- Structs written byte by byte, and that their fields read back what was written.
use native.Mathlib.Nat.{pow-suc}
use cellift_meta.Base.{
  ℕ, zero, suc, ◌+◌, ◌-◌, ◌/◌, ◌%◌, ◌^◌, ◌<◌, ◌≡◌, refl, ap, ◌∙◌, subst, List, [], ◌∷◌, ◌++◌,
  length, get_elem?, replicate, some, some_injective, All, arith, Mem, place,
}
use cellift_meta.CString.{load_word}
use cellift_meta.Elf.Layout.{Field, width, alignment, align_up, offset_from, field_width, field}
use cellift_meta.Elf.Layout.Fields.{IsPositive, align_up-le}

-- `n` bytes of a number, the lowest first.
unfoldable pub le : ℕ → ℕ → List ℕ
le zero v = []
le (suc n) v = v % 256 ∷ le n (v / 256)

-- The fields of a struct from `place` on, with zeros between them.
unfoldable pub encode : ℕ → List Field → List ℕ → List ℕ
unfolding le align_up
encode place [] vs = []
encode place (fd ∷ fds) [] = []
encode place (fd ∷ fds) (v ∷ vs) =
    replicate (align_up place (alignment fd) - place) 0
    ++ (le (width fd) v ++ encode (align_up place (alignment fd) + width fd) fds vs)

-- A memory holds some bytes from the address `a` on.
abbrev pub Stored : Mem → ℕ → List ℕ → Type 0
Stored m a [] = Unit {0}
Stored m a (b ∷ bs) = (m a ≡ b) × Stored m (a + 1) bs

pub Stored-append :
    (m : Mem) (a : ℕ) (bs cs : List ℕ)
    → Stored m a (bs ++ cs)
    → Stored m a bs × Stored m (a + length bs) cs
Stored-append m a [] cs h = (tt, subst (λ i. Stored m i cs) {x = a} {y = a + 0} (omega arith) h)
Stored-append m a (b ∷ bs) cs (e, h) =
    let (front, back) = Stored-append m (a + 1) bs cs h in
    (
      (e, front),
      subst (λ i. Stored m i cs) {x = a + 1 + length bs} {y = a + suc (length bs)} (omega arith)
          back,
    )

Stored-shift : (m : Mem) (a : ℕ) (bs : List ℕ) → ((k : ℕ) → m (a + k) ≡ place bs k) → Stored m a bs
unfolding place
Stored-shift m a [] h = tt
Stored-shift m a (b ∷ bs) h = (
  ap m {x = a} {y = a + 0} (omega arith) ∙ h 0,
  Stored-shift m (a + 1) bs (λ k. ap m {x = a + 1 + k} {y = a + suc k} (omega arith) ∙ h (suc k)),
)

pub Stored-place : (bs : List ℕ) → Stored (place bs) 0 bs
Stored-place bs =
    Stored-shift (place bs) 0 bs (λ k. ap (place bs) {x = 0 + k} {y = k} (omega arith))

pub length-le : (n v : ℕ) → length (le n v) ≡ n
unfolding le
length-le zero v = refl
length-le (suc n) v = ap suc (length-le n (v / 256))

length-replicate : (n : ℕ) → length (replicate {A = ℕ} n 0) ≡ n
length-replicate zero = refl
length-replicate (suc n) = ap suc (length-replicate n)

pub load_word-le : (m : Mem) (a n v : ℕ) → Stored m a (le n v) → v < 256 ^ n → load_word m a n ≡ v
unfolding le load_word
load_word-le m a zero v h small = omega arith
load_word-le m a (suc n) v (e, h) small =
    let rest = load_word-le m (a + 1) n (v / 256) h (omega (arith, pow-suc 256 n)) in omega arith

-- A field behind zeros, and the fields behind it.
encode-split :
    (m : Mem) (a place : ℕ) (fd : Field) (fds : List Field) (v : ℕ) (vs : List ℕ)
    → 0 < alignment fd
    → Stored m (a + place) (encode place (fd ∷ fds) (v ∷ vs))
    → Stored m (a + align_up place (alignment fd)) (le (width fd) v)
      × Stored m
          (a + (align_up place (alignment fd) + width fd))
          (encode (align_up place (alignment fd) + width fd) fds vs)
unfolding encode
encode-split m a place fd fds v vs p h =
    let start = align_up place (alignment fd) in
    let (zeros, h1) = Stored-append m (a + place) (replicate (start - place) 0) _ h in
    let (here, h2) = Stored-append m _ (le (width fd) v) _ h1 in
    let above = align_up-le place (alignment fd) p in
    let pad = length-replicate (start - place) in
    let len = length-le (width fd) v in
    (
      subst (λ i. Stored m i (le (width fd) v))
          {x = a + place + length (replicate {A = ℕ} (start - place) 0)} {y = a + start}
          (omega arith) here,
      subst (λ i. Stored m i (encode (start + width fd) fds vs))
          {x = a + place + length (replicate {A = ℕ} (start - place) 0) + length (le (width fd) v)}
          {y = a + (start + width fd)} (omega arith) h2,
    )

-- A struct that was written at `a` reads back, in each of its fields, the value that was written,
-- when it fits into the field.
encode-load_word :
    (m : Mem) (a place : ℕ) (fds : List Field) (vs : List ℕ) (i v : ℕ)
    → All IsPositive fds
    → Stored m (a + place) (encode place fds vs)
    → get_elem? vs i ≡ some v
    → i < length fds
    → v < 256 ^ field_width fds i
    → load_word m (a + offset_from place fds i) (field_width fds i) ≡ v
unfolding offset_from field_width
encode-load_word m a place [] vs i v positive h at lt small = absurd (omega arith)
encode-load_word m a place (fd ∷ fds) [] i v positive h at lt small = absurd (cc)
encode-load_word m a place (fd ∷ fds) (w ∷ vs) zero v (p, positive) h at lt small =
    let (here, rest) = encode-split m a place fd fds w vs p h in
    let same : w ≡ v = some_injective at in
    load_word-le m (a + align_up place (alignment fd)) (width fd) v
      (subst (λ u. Stored m (a + align_up place (alignment fd)) (le (width fd) u)) same here) small
encode-load_word m a place (fd ∷ fds) (w ∷ vs) (suc i) v (p, positive) h at lt small =
    let (here, rest) = encode-split m a place fd fds w vs p h in
    encode-load_word m a (align_up place (alignment fd) + width fd) fds vs i v positive rest at
      (omega arith) small

-- Whatever struct was written at an address of a memory, with at least one byte for each field, a field
-- of it reads back the value that was written, when the value fits into the field.
pub field-encode :
    (m : Mem) (a : ℕ) (fds : List Field) (vs : List ℕ) (i v : ℕ)
    → All IsPositive fds
    → Stored m a (encode 0 fds vs)
    → get_elem? vs i ≡ some v
    → i < length fds
    → v < 256 ^ field_width fds i
    → field fds m a i ≡ v
unfolding field
field-encode m a fds vs i v positive h at lt small =
    encode-load_word m a 0 fds vs i v positive
      (subst (λ b. Stored m b (encode 0 fds vs)) {x = a} {y = a + 0} (omega arith) h) at lt small
