-- ===== src/Elf/Read/Strayed.antt =====
-- A segment whose offset and length have a sum that wraps around.
use cellift_meta.Base.{
  ℕ, zero, suc, ◌+◌, ◌*◌, ◌^◌, ◌≤◌, ◌<◌, ◌≡◌, refl, true, not, ◌||◌, ◌==◌, All, le→leb, arith,
  subst,
}
use cellift_meta.Base.Run.{strayed}
use cellift_meta.Elf.{File, Class, elf32, elf64, bits, Loader}
use cellift_meta.Elf.Layout.{size_of, elf64_ehdr}
use cellift_meta.Elf.Header.{Ehdr, Phdr, ehdr, is_elf32, is_elf64, phdr_layout, phdr_at}
use cellift_meta.Elf.Segments.{sum_of, load_segment, phdr_offset, load_segments}
use cellift_meta.Elf.Segments.Spec.{headers}
use cellift_meta.Elf.Segments.Safe.{
  IsFitting, load_segment-total, phdr-inside, load_bytes-strayed, wrap_small, small_file,
}
use cellift_meta.Elf.Read.{class_of, load_elf, mapped, read_file, read_elf}

-- A loadable segment with bytes and memory whose end is behind the last address, and at most as far
-- behind it as the file is long.
abbrev pub IsWrapping : Class → File → Phdr → Type 0
IsWrapping c f ph =
    (ph.p_type ≡ 1)
    × (0 < ph.p_memsz)
    × (0 < ph.p_filesz)
    × (2 ^ bits c ≤ ph.p_offset + ph.p_filesz)
    × (ph.p_offset + ph.p_filesz ≤ 2 ^ bits c + f.size)

sum_of-wraps :
    (c : Class) (a b size : ℕ)
    → size < 2 ^ bits c
    → 2 ^ bits c ≤ a + b
    → a + b ≤ 2 ^ bits c + size
    → (sum_of c a b ≤ size) × (size < a + b)
sum_of-wraps elf32 a b size small far near = (omega arith, omega arith)
sum_of-wraps elf64 a b size small far near = (omega arith, omega arith)

positive : (n : ℕ) → 0 < n → not (n == 0) ≡ true
positive n h = ground arith

load_segment-strayed :
    (c : Class) (f : File) (ph : Phdr) (st : Loader)
    → f.size < 2 ^ bits c
    → IsWrapping c f ph
    → load_segment c f ph st ≡ strayed
unfolding load_segment
load_segment-strayed c f ph st small (load, memory, full, far, near) =
    let (wraps, behind) = sum_of-wraps c ph.p_offset ph.p_filesz f.size small far near in
    rw
      (
        load,
        positive ph.p_memsz memory,
        positive ph.p_filesz full,
        load_bytes-strayed c f ph st behind wraps,
      )
      refl

load_segments-strayed :
    (c : Class) (f : File) (eh : Ehdr) (k n i : ℕ) (st : Loader)
    → f.size < 2 ^ bits c
    → k < n
    → eh.e_phoff + (i + n) * size_of (phdr_layout c) ≤ f.size
    → All (IsFitting f) (headers c f eh k i)
    → IsWrapping c f (phdr_at c f (phdr_offset c eh (i + k)))
    → load_segments c f eh n i st ≡ strayed
unfolding load_segments headers
load_segments-strayed c f eh k zero i st small less there fits wraps = absurd (omega arith)
load_segments-strayed c f eh zero (suc n) i st small less there fits wraps =
    let wraps' =
      subst (λ m. IsWrapping c f (phdr_at c f (phdr_offset c eh m))) {x = i + 0} {y = i}
        (omega arith) wraps in
    rw
      (
        phdr-inside c f eh n i small there,
        load_segment-strayed c f (phdr_at c f (phdr_offset c eh i)) st small wraps',
      )
      refl
load_segments-strayed c f eh (suc k) (suc n) i st small less there (fit, fits) wraps =
    let (st1, run) = load_segment-total c f (phdr_at c f (phdr_offset c eh i)) st small fit in
    let rest =
      load_segments-strayed c f eh k n (i + 1) st1 small (omega arith)
        (subst (λ m. eh.e_phoff + m * size_of (phdr_layout c) ≤ f.size) {x = i + suc n}
          {y = i + 1 + n} (omega arith) there)
        fits
        (subst (λ m. IsWrapping c f (phdr_at c f (phdr_offset c eh m))) {x = i + suc k}
          {y = i + 1 + k} (omega arith) wraps) in
    rw (phdr-inside c f eh n i small there, run) rest

-- In a file of at least 64 bytes with a magic number, smaller than the number of addresses of its
-- class, whose program headers stay inside it, let each loadable segment before the one with number `k`
-- stay inside the file and be at most as long as its memory of less than 2^63 bytes. When the
-- segment with number `k` is loadable, has bytes and memory, and has its end behind the last address,
-- but no further than the file is long, then the sum of its offset and its length wraps around, it
-- passes the check of `LOAD_ELF`, and `read_elf` reads outside the file.
pub read_elf-strayed :
    (f : File) (k : ℕ) (st : Loader)
    → size_of elf64_ehdr ≤ f.size
    → (is_elf32 f || is_elf64 f) ≡ true
    → f.size < 2 ^ bits (class_of f)
    → (ehdr (class_of f) f).e_phoff
        + (ehdr (class_of f) f).e_phnum * size_of (phdr_layout (class_of f))
      ≤ f.size
    → k < (ehdr (class_of f) f).e_phnum
    → All (IsFitting f) (headers (class_of f) f (ehdr (class_of f) f) k 0)
    → IsWrapping
        (class_of f)
        f
        (phdr_at (class_of f) f (phdr_offset (class_of f) (ehdr (class_of f) f) k))
    → read_elf (mapped f) st ≡ strayed
unfolding read_elf read_file load_elf
read_elf-strayed f k st long magic small table less fits wraps =
    let c = class_of f in
    let eh = ehdr c f in
    let run =
      load_segments-strayed c f eh k eh.e_phnum 0 (record st { entry = eh.e_entry }) small less
        (subst (λ m. eh.e_phoff + m * size_of (phdr_layout c) ≤ f.size) {x = eh.e_phnum}
          {y = 0 + eh.e_phnum} (omega arith) table)
        fits
        (subst (λ m. IsWrapping c f (phdr_at c f (phdr_offset c eh m))) {x = k} {y = 0 + k}
          (omega arith) wraps) in
    rw
      (
        le→leb f.size (size_of elf64_ehdr) long,
        magic,
        le→leb f.size _ (
            wrap_small (eh.e_phoff + eh.e_phnum * size_of (phdr_layout c)) f.size table
              (small_file c f small)),
        run,
      )
      refl
