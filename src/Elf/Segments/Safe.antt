-- ===== src/Elf/Segments/Safe.antt =====
-- Program headers that stay inside their file load; a sum that wraps around gets past the check.
use cellift_meta.Base.{
  ℕ, zero, suc, ◌+◌, ◌-◌, ◌*◌, ◌%◌, ◌^◌, ◌≤◌, ◌<◌, ◌≡◌, refl, ap, true, false, not, ◌&&◌, ◌==◌, ◌⊎◌,
  inl, inr, Bool-cases, All, le→leb, lt→ltb, arith, subst, lt→leb,
}
use native.Mathlib.Nat.{add-mul, suc-mul}
use cellift_meta.Base.Run.{returned, strayed, assert}
use cellift_meta.Elf.{File, Class, elf32, elf64, bits, inside, Loader}
use cellift_meta.Elf.Layout.{size_of}
use cellift_meta.Elf.Header.{Ehdr, Phdr, phdr_layout, phdr_at}
use cellift_meta.Elf.Segments.{
  pt_load, sum_of, load_bytes, resize_zeros, load_segment, phdr_offset, load_segments,
}
use cellift_meta.Elf.Segments.Spec.{
  headers, with_data, IsLoadedWith, loaded, load_segments-IsLoadedWith,
}

-- A segment that is not loadable, or whose bytes stay inside the file and are at most as many as those
-- of its memory, which are fewer than 2^63.
abbrev pub IsFitting : File → Phdr → Type 0
IsFitting f ph =
    ((ph.p_type == pt_load) ≡ false)
    ⊎ ((ph.p_offset + ph.p_filesz ≤ f.size) × (ph.p_filesz ≤ ph.p_memsz) × (ph.p_memsz < 2 ^ 63))

pub sum_of-fits :
    (c : Class) (a b size : ℕ) → a + b ≤ size → size < 2 ^ bits c → sum_of c a b ≤ size
sum_of-fits elf32 a b size h small = omega arith
sum_of-fits elf64 a b size h small = omega arith

load_bytes-total :
    (c : Class) (f : File) (ph : Phdr) (st : Loader)
    → f.size < 2 ^ bits c
    → ph.p_offset + ph.p_filesz ≤ f.size
    → load_bytes c f ph st ≡ returned (loaded f ph st)
unfolding load_bytes
load_bytes-total c f ph st small h =
    rw
      (
        le→leb f.size (sum_of c ph.p_offset ph.p_filesz)
            (sum_of-fits c ph.p_offset ph.p_filesz f.size h small),
        le→leb f.size (ph.p_offset + ph.p_filesz) h,
      )
      refl

difference-fits :
    (c : Class) (memsz filesz : ℕ)
    → filesz ≤ memsz
    → memsz < 2 ^ 63
    → (memsz + 2 ^ bits c - filesz) % 2 ^ bits c < 2 ^ 63
difference-fits elf32 memsz filesz le small = omega arith
difference-fits elf64 memsz filesz le small = omega arith

resize_zeros-total :
    (c : Class) (ph : Phdr)
    → ph.p_filesz ≤ ph.p_memsz
    → ph.p_memsz < 2 ^ 63
    → resize_zeros c ph ≡ returned tt
unfolding resize_zeros
resize_zeros-total c ph le small =
    ap assert (lt→ltb _ (2 ^ 63) (difference-fits c ph.p_memsz ph.p_filesz le small))

pub load_segment-total :
    (c : Class) (f : File) (ph : Phdr) (st : Loader)
    → f.size < 2 ^ bits c
    → IsFitting f ph
    → (st' : Loader) × (load_segment c f ph st ≡ returned st')
unfolding load_segment
load_segment-total c f ph st small (inl other) = (st, rw (other) refl)
load_segment-total c f ph st small (inr (there, le, fits)) =
    elim (Bool-cases (ph.p_type == pt_load && not (ph.p_memsz == 0))) [
      | inr skip ↦ (st, rw (skip) refl)
      | inl load ↦ elim (Bool-cases (not (ph.p_filesz == 0))) [
        | inl full ↦ (
          loaded f ph st,
          rw (load, full, load_bytes-total c f ph st small there, resize_zeros-total c ph le fits)
              refl,
        )
        | inr empty ↦ (st, rw (load, empty, resize_zeros-total c ph le fits) refl)
      ]
    ]

pub stride-inside :
    (p i n sz size : ℕ)
    → p + (i + suc n) * sz ≤ size
    → size < 2 ^ 64
    → (p + i * sz) % 2 ^ 64 + sz ≤ size
stride-inside p i n sz size h small = omega (arith, add-mul i (suc n) sz, suc-mul n sz)

pub small_file : (c : Class) (f : File) → f.size < 2 ^ bits c → f.size < 2 ^ 64
small_file elf32 f h = omega arith
small_file elf64 f h = h

pub wrap_small : (x size : ℕ) → x ≤ size → size < 2 ^ 64 → x % 2 ^ 64 ≤ size
wrap_small x size h small = omega arith

pub phdr-inside :
    (c : Class) (f : File) (eh : Ehdr) (n i : ℕ)
    → f.size < 2 ^ bits c
    → eh.e_phoff + (i + suc n) * size_of (phdr_layout c) ≤ f.size
    → inside f (phdr_offset c eh i) (size_of (phdr_layout c)) ≡ true
unfolding phdr_offset
phdr-inside c f eh n i small h =
    le→leb f.size _
      (stride-inside eh.e_phoff i n (size_of (phdr_layout c)) f.size h (small_file c f small))

load_segments-returned :
    (c : Class) (f : File) (eh : Ehdr) (n i : ℕ) (st : Loader)
    → f.size < 2 ^ bits c
    → eh.e_phoff + (i + n) * size_of (phdr_layout c) ≤ f.size
    → All (IsFitting f) (headers c f eh n i)
    → (st' : Loader) × (load_segments c f eh n i st ≡ returned st')
unfolding load_segments headers
load_segments-returned c f eh zero i st small there fits = (st, refl)
load_segments-returned c f eh (suc n) i st small there (fit, fits) =
    let (st1, run) = load_segment-total c f (phdr_at c f (phdr_offset c eh i)) st small fit in
    let (st', run') =
      load_segments-returned c f eh n (i + 1) st1 small
        (subst (λ k. eh.e_phoff + k * size_of (phdr_layout c) ≤ f.size) {x = i + suc n}
          {y = i + 1 + n} (omega arith) there)
        fits in
    (st', rw (phdr-inside c f eh n i small there, run) run')

-- When a segment ends behind the end of the file, and the sum of its offset and its length wraps
-- around to at most the size of the file, the check lets it pass and its bytes are read from outside
-- the file.
pub load_bytes-strayed :
    (c : Class) (f : File) (ph : Phdr) (st : Loader)
    → f.size < ph.p_offset + ph.p_filesz
    → sum_of c ph.p_offset ph.p_filesz ≤ f.size
    → load_bytes c f ph st ≡ strayed
unfolding load_bytes
load_bytes-strayed c f ph st far wrapped =
    rw
      (
        le→leb f.size (sum_of c ph.p_offset ph.p_filesz) wrapped,
        lt→leb f.size (ph.p_offset + ph.p_filesz) far,
      )
      refl

-- In a file as small as its addresses allow, whose program headers stay inside it and whose loadable
-- segments stay inside it and are not larger than their memory of less than 2^63 bytes, the loop
-- over the program headers ends, and it has loaded each segment with data: its section is behind the
-- old ones, in order, and memory has at each address the old data or else those of the first such
-- segment there.
pub load_segments_total :
    (c : Class) (f : File) (eh : Ehdr) (n i : ℕ) (st : Loader)
    → f.size < 2 ^ bits c
    → eh.e_phoff + (i + n) * size_of (phdr_layout c) ≤ f.size
    → All (IsFitting f) (headers c f eh n i)
    → (st' : Loader) × (load_segments c f eh n i st ≡ returned st')
      × IsLoadedWith f (with_data (headers c f eh n i)) st st'
load_segments_total c f eh n i st small there fits =
    let (st', run) = load_segments-returned c f eh n i st small there fits in
    (st', run, load_segments-IsLoadedWith c f eh n i st st' run)
