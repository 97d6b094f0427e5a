-- ===== src/Elf/Image/Parts.antt =====
-- The parts of a written file, each where its header says.
use native.Mathlib.Nat.{zero-mul, suc-mul}
use cellift_meta.Base.{
  ℕ, ◌+◌, ◌*◌, ◌≡◌, refl, subst, List, [], ◌∷◌, ◌++◌, length, length-append, arith, place,
}
use cellift_meta.Elf.{Class, elf32, elf64}
use cellift_meta.Elf.Layout.{size_of}
use cellift_meta.Elf.Layout.Encode.{encode, Stored, Stored-append, Stored-place}
use cellift_meta.Elf.Header.{ehdr_layout, phdr_layout, shdr_layout}
use cellift_meta.Elf.Image.{
  Segment, ehdr_values, phdr_values, shdr_values, phdrs, contents, names, data_start, names_start,
  shdr_start, image_size, image,
}

length-ehdr :
    (c : Class) (entry n shoff : ℕ)
    → length (encode 0 (ehdr_layout c) (ehdr_values c entry n shoff)) ≡ size_of (ehdr_layout c)
unfolding encode size_of
length-ehdr elf32 entry n shoff = refl
length-ehdr elf64 entry n shoff = refl

pub length-phdr :
    (c : Class) (offset : ℕ) (s : Segment)
    → length (encode 0 (phdr_layout c) (phdr_values c offset s)) ≡ size_of (phdr_layout c)
unfolding encode size_of
length-phdr elf32 offset s = refl
length-phdr elf64 offset s = refl

length-shdr :
    (c : Class) (offset : ℕ)
    → length (encode 0 (shdr_layout c) (shdr_values offset)) ≡ size_of (shdr_layout c)
unfolding encode size_of
length-shdr elf32 offset = refl
length-shdr elf64 offset = refl

length-phdrs :
    (c : Class) (offset : ℕ) (ss : List Segment)
    → length (phdrs c offset ss) ≡ length ss * size_of (phdr_layout c)
unfolding phdrs
length-phdrs c offset [] = omega (arith, zero-mul (size_of (phdr_layout c)))
length-phdrs c offset (s ∷ ss) = omega (
  arith,
  length-append (encode 0 (phdr_layout c) (phdr_values c offset s))
      (phdrs c (offset + length s.payload) ss),
  length-phdr c offset s,
  length-phdrs c (offset + length s.payload) ss,
  suc-mul (length ss) (size_of (phdr_layout c)),
)

-- Where each part of a written file stands, and that nothing follows.
abbrev pub HasParts : Class → ℕ → List Segment → Type 0
HasParts c entry ss =
    let m = place (image c entry ss) in
    Stored m 0 (encode 0 (ehdr_layout c) (ehdr_values c entry (length ss) (shdr_start c ss)))
    × Stored m (size_of (ehdr_layout c)) (phdrs c (data_start c ss) ss)
    × Stored m (data_start c ss) (contents ss)
    × Stored m (names_start c ss) names
    × Stored m (shdr_start c ss) (encode 0 (shdr_layout c) (shdr_values (names_start c ss)))
    × (length (image c entry ss) ≡ image_size c ss)

pub image-HasParts : (c : Class) (entry : ℕ) (ss : List Segment) → HasParts c entry ss
unfolding image
image-HasParts c entry ss =
    let m = place (image c entry ss) in
    let eh = encode 0 (ehdr_layout c) (ehdr_values c entry (length ss) (shdr_start c ss)) in
    let phs = phdrs c (data_start c ss) ss in
    let sh = encode 0 (shdr_layout c) (shdr_values (names_start c ss)) in
    let (h1, r1) =
      Stored-append m 0 eh (phs ++ (contents ss ++ (names ++ sh)))
        (Stored-place (image c entry ss)) in
    let (h2, r2) = Stored-append m (0 + length eh) phs (contents ss ++ (names ++ sh)) r1 in
    let (h3, r3) = Stored-append m (0 + length eh + length phs) (contents ss) (names ++ sh) r2 in
    let (h4, h5) =
      Stored-append m (0 + length eh + length phs + length (contents ss)) names sh r3 in
    let e1 = length-ehdr c entry (length ss) (shdr_start c ss) in
    let e2 = length-phdrs c (data_start c ss) ss in
    let e3 = length-shdr c (names_start c ss) in
    (
      h1,
      subst (λ a. Stored m a phs) {x = 0 + length eh} {y = size_of (ehdr_layout c)} (omega arith)
          h2,
      subst (λ a. Stored m a (contents ss)) {x = 0 + length eh + length phs} {y = data_start c ss}
          (omega arith) h3,
      subst (λ a. Stored m a names) {x = 0 + length eh + length phs + length (contents ss)}
          {y = names_start c ss} (omega arith) h4,
      subst (λ a. Stored m a sh)
          {x = 0 + length eh + length phs + length (contents ss) + length names}
          {y = shdr_start c ss} (omega arith) h5,
      omega (
        arith,
        length-append eh (phs ++ (contents ss ++ (names ++ sh))),
        length-append phs (contents ss ++ (names ++ sh)),
        length-append (contents ss) (names ++ sh),
        length-append names sh,
      ),
    )
