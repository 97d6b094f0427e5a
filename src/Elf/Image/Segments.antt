-- ===== src/Elf/Image/Segments.antt =====
-- The program headers of a written file describe the segments that it was written from.
use native.Mathlib.Nat.{add-mul, suc-mul}
use cellift_meta.Base.{
  ℕ, suc, ◌+◌, ◌*◌, ◌%◌, ◌^◌, ◌<◌, ◌≤◌, ◌≡◌, refl, sym, ap, ◌∙◌, subst, true, List, [], ◌∷◌, map,
  length, length-append, All, none, ==_iff, ==_false, inr, arith,
}
use cellift_meta.Elf.{File, Class, bits}
use cellift_meta.Elf.Layout.{size_of}
use cellift_meta.Elf.Layout.Encode.{encode, Stored, Stored-append}
use cellift_meta.Elf.Header.{Ehdr, Phdr, phdr_layout, phdr_at}
use cellift_meta.Elf.Segments.{pt_load, slice, phdr_offset}
use cellift_meta.Elf.Segments.Spec.{has_data, headers, with_data, keep, section_of, first_data}
use cellift_meta.Elf.Segments.Safe.{IsFitting, small_file}
use cellift_meta.Elf.Image.{Segment, IsSegment, phdr_values, phdrs, contents, data_at}
use cellift_meta.Elf.Image.Parts.{length-phdr}
use cellift_meta.Elf.Image.Structs.{IsPhdr, IsPhdr-encode}

-- Each program header describes the segment of its number, whose data follow those before it.
abbrev pub AreDescribed : ℕ → List Segment → List Phdr → Type 0
AreDescribed offset [] [] = Unit {0}
AreDescribed offset [] (ph ∷ phs) = ⊥
AreDescribed offset (s ∷ ss) [] = ⊥
AreDescribed offset (s ∷ ss) (ph ∷ phs) =
    IsPhdr offset s ph × AreDescribed (offset + length s.payload) ss phs

pub stride-mod :
    (p i n sz size : ℕ)
    → p + (i + suc n) * sz ≤ size
    → size < 2 ^ 64
    → (p + i * sz) % 2 ^ 64 ≡ p + i * sz
stride-mod p i n sz size h small = omega (arith, add-mul i (suc n) sz, suc-mul n sz)

pub headers-AreDescribed :
    (c : Class) (f : File) (eh : Ehdr) (ss : List Segment) (i offset : ℕ)
    → All (IsSegment c) ss
    → f.size < 2 ^ bits c
    → eh.e_phoff + (i + length ss) * size_of (phdr_layout c) ≤ f.size
    → offset + length (contents ss) < 2 ^ bits c
    → Stored f.byte (eh.e_phoff + i * size_of (phdr_layout c)) (phdrs c offset ss)
    → AreDescribed offset ss (headers c f eh (length ss) i)
unfolding headers phdr_offset phdrs contents
headers-AreDescribed c f eh [] i offset segments small there fits h = tt
headers-AreDescribed c f eh (s ∷ ss) i offset (segment, segments) small there fits h =
    let sz = size_of (phdr_layout c) in
    let (here, rest) =
      Stored-append f.byte (eh.e_phoff + i * sz) (encode 0 (phdr_layout c) (phdr_values c offset s))
        (phdrs c (offset + length s.payload) ss) h in
    let len = length-append s.payload (contents ss) in
    let start = stride-mod eh.e_phoff i (length ss) sz f.size there (small_file c f small) in
    (
      subst (λ a. IsPhdr offset s (phdr_at c f a)) (sym start)
          (IsPhdr-encode c f (eh.e_phoff + i * sz) offset s segment (omega arith) here),
      headers-AreDescribed c f eh ss (i + 1) (offset + length s.payload) segments small
          (subst (λ k. eh.e_phoff + k * sz ≤ f.size) {x = i + suc (length ss)}
            {y = i + 1 + length ss} (omega arith) there)
          (omega arith)
          (subst (λ a. Stored f.byte a (phdrs c (offset + length s.payload) ss))
            (omega (arith, length-phdr c offset s, add-mul i 1 sz, suc-mul 0 sz)) rest),
    )

pub IsPhdr-has_data :
    (c : Class) (offset : ℕ) (s : Segment) (ph : Phdr)
    → IsSegment c s
    → IsPhdr offset s ph
    → has_data ph ≡ true
IsPhdr-has_data c offset s ph (address, full, le, memsz, small) (type, start, paddr, filesz, mem) =
    rw
      (
        (==_iff ph.p_type pt_load).1 type,
        ==_false ph.p_memsz 0 (λ e. absurd (omega arith)),
        ==_false ph.p_filesz 0 (λ e. absurd (omega arith)),
      )
      refl

pub with_data-described :
    (c : Class) (offset : ℕ) (ss : List Segment) (phs : List Phdr)
    → All (IsSegment c) ss
    → AreDescribed offset ss phs
    → with_data phs ≡ phs
unfolding with_data
with_data-described c offset [] [] segments d = refl
with_data-described c offset [] (ph ∷ phs) segments d = absurd d
with_data-described c offset (s ∷ ss) [] segments d = absurd d
with_data-described c offset (s ∷ ss) (ph ∷ phs) (segment, segments) (here, rest) =
    ap (λ b. keep b ph (with_data phs)) (IsPhdr-has_data c offset s ph segment here)
    ∙ ap (λ l. ph ∷ l) (with_data-described c (offset + length s.payload) ss phs segments rest)

pub described-IsFitting :
    (c : Class) (f : File) (offset : ℕ) (ss : List Segment) (phs : List Phdr)
    → All (IsSegment c) ss
    → offset + length (contents ss) ≤ f.size
    → AreDescribed offset ss phs
    → All (IsFitting f) phs
unfolding contents
described-IsFitting c f offset [] [] segments fits d = tt
described-IsFitting c f offset [] (ph ∷ phs) segments fits d = absurd d
described-IsFitting c f offset (s ∷ ss) [] segments fits d = absurd d
described-IsFitting c f offset (s ∷ ss) (ph ∷ phs) (segment, segments) fits (here, rest) =
    let (address, full, le, memsz, small) = segment in
    let (type, start, paddr, filesz, mem) = here in
    let len = length-append s.payload (contents ss) in
    (
      inr (omega arith, omega arith, omega arith),
      described-IsFitting c f (offset + length s.payload) ss phs segments (omega arith) rest,
    )

pub described-sections :
    (offset : ℕ) (ss : List Segment) (phs : List Phdr)
    → AreDescribed offset ss phs
    → map section_of phs ≡ map (λ (s : Segment). (s.address, s.memsz)) ss
described-sections offset [] [] d = refl
described-sections offset [] (ph ∷ phs) d = absurd d
described-sections offset (s ∷ ss) [] d = absurd d
described-sections offset (s ∷ ss) (ph ∷ phs) ((type, start, paddr, filesz, mem), rest) =
    rw (paddr, mem, described-sections (offset + length s.payload) ss phs rest) refl

Stored-slice : (f : File) (a : ℕ) (bs : List ℕ) → Stored f.byte a bs → slice f a (length bs) ≡ bs
unfolding slice
Stored-slice f a [] h = refl
Stored-slice f a (b ∷ bs) (e, h) = rw (e, Stored-slice f (a + 1) bs h) refl

pub described-data :
    (f : File) (offset a : ℕ) (ss : List Segment) (phs : List Phdr)
    → Stored f.byte offset (contents ss)
    → AreDescribed offset ss phs
    → first_data f phs none a ≡ data_at a ss
unfolding first_data data_at contents
described-data f offset a [] [] h d = refl
described-data f offset a [] (ph ∷ phs) h d = absurd d
described-data f offset a (s ∷ ss) [] h d = absurd d
described-data f offset a (s ∷ ss) (ph ∷ phs) h ((type, start, paddr, filesz, mem), rest) =
    let (here, behind) = Stored-append f.byte offset s.payload (contents ss) h in
    rw
      (
        paddr,
        start,
        filesz,
        Stored-slice f offset s.payload here,
        described-data f (offset + length s.payload) a ss phs behind rest,
      )
      refl
