-- ===== src/Elf/Image/Names.antt =====
-- The magic number and the name of the section of a written file, as the loader tests them.
use cellift_meta.Base.{
  ℕ, zero, suc, ◌+◌, ◌^◌, ◌<◌, ◌≤◌, ◌≡◌, refl, ap, ◌∙◌, subst, true, ◌||◌, List, [], ◌∷◌, length,
  All, Mem, inl, arith,
}
use cellift_meta.Elf.{File, Class, elf32, elf64}
use cellift_meta.Elf.Layout.{align_up}
use cellift_meta.Elf.Layout.Encode.{encode, le, Stored, Stored-append}
use cellift_meta.Elf.Header.{Shdr, ehdr_layout, is_elf, is_elf32, is_elf64}
use cellift_meta.Elf.Sections.{shstrtab_name, name_offset}
use cellift_meta.Elf.Sections.Symbols.{IsCString, IsPassedOver}
use cellift_meta.Elf.Sections.Total.{IsNamed, shstrtab-positive}
use cellift_meta.Elf.Read.{class_of}
use cellift_meta.Elf.Image.{ehdr_values, names}
use cellift_meta.Elf.Image.Structs.{IsShdr}

-- A file with one of the two magic numbers, that of the class.
abbrev pub HasMagic : Class → File → Type 0
HasMagic c f = ((is_elf32 f || is_elf64 f) ≡ true) × (class_of f ≡ c)

pub ehdr-HasMagic :
    (c : Class) (f : File) (entry phnum shoff : ℕ)
    → Stored f.byte 0 (encode 0 (ehdr_layout c) (ehdr_values c entry phnum shoff))
    → HasMagic c f
unfolding encode le align_up is_elf32 is_elf64 is_elf
ehdr-HasMagic elf32 f entry phnum shoff (b0, (b1, (b2, (b3, (b4, rest))))) =
    (rw (b0, b1, b2, b3, b4) refl, rw (b0, b1, b2, b3, b4) refl)
ehdr-HasMagic elf64 f entry phnum shoff (b0, (b1, (b2, (b3, (b4, rest))))) =
    (rw (b0, b1, b2, b3, b4) refl, rw (b0, b1, b2, b3, b4) refl)

Stored-positive :
    (m : Mem) (a : ℕ) (cs : List ℕ) (k : ℕ)
    → Stored m a cs
    → All (λ c. 0 < c) cs
    → k < length cs
    → ¬ (m (a + k) ≡ 0)
Stored-positive m a [] k h positive lt e = omega arith
Stored-positive m a (c ∷ cs) zero (here, h) (p, positive) lt e =
    let same : m a ≡ m (a + 0) = ap m {x = a} {y = a + 0} (omega arith) in omega arith
Stored-positive m a (c ∷ cs) (suc k) (here, h) (p, positive) lt e =
    Stored-positive m (a + 1) cs k h positive (omega arith)
      (ap m {x = a + 1 + k} {y = a + suc k} (omega arith) ∙ e)

names-IsCString :
    (f : File) (a : ℕ) → Stored f.byte a names → a + 11 ≤ f.size → IsCString f (a + 1) 9
names-IsCString f a (nul, h) there =
    let (name, (end, rest)) = Stored-append f.byte (a + 1) shstrtab_name (0 ∷ []) h in
    (
      omega arith,
      end,
      λ k lt. Stored-positive f.byte (a + 1) shstrtab_name k name shstrtab-positive lt,
    )

pub names-IsNamed :
    (f : File) (a : ℕ) (sh : Shdr)
    → Stored f.byte a names
    → a + 11 ≤ f.size
    → f.size < 2 ^ 64
    → IsShdr a sh
    → IsNamed f sh sh
names-IsNamed f a sh h there small (name, type, offset, size) = (
  9,
  subst (λ i. IsCString f i 9) {x = a + 1} {y = name_offset sh sh.sh_name} (omega arith)
      (names-IsCString f a h there),
  omega arith,
)

pub IsShdr-IsPassedOver : (f : File) (a : ℕ) (sh : Shdr) → IsShdr a sh → IsPassedOver f sh sh
IsShdr-IsPassedOver f a sh (name, type, offset, size) = inl (rw (type) refl)
