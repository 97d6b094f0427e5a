-- ===== src/Elf/Segments.antt =====
-- The loop of `LOAD_ELF` over the program headers.
pub mod Spec
pub mod Safe
use cellift_meta.Base.{
  ℕ, zero, suc, ◌+◌, ◌-◌, ◌*◌, ◌%◌, ◌^◌, Bool, true, false, not, ◌&&◌, Option, none, some, List, [],
  ◌∷◌, ◌++◌, leb, ltb, ◌==◌, if◌then◌else◌, store,
}
use cellift_meta.Base.Run.{Run, returned, aborted, ◌>>=◌, ◌>>◌, assert, within}
use cellift_meta.Elf.{File, Class, bits, inside, Mems, Loader}
use cellift_meta.Elf.Layout.{size_of}
use cellift_meta.Elf.Header.{Ehdr, Phdr, phdr_layout, phdr_at}

-- `PT_LOAD`
abbrev pub pt_load : ℕ
pt_load = 1

-- A sum of two fields of the width of an address.
abbrev pub sum_of : Class → ℕ → ℕ → ℕ
sum_of c a b = (a + b) % 2 ^ bits c

-- The `n` bytes of the file from `a` on.
unfoldable pub slice : File → ℕ → ℕ → List ℕ
slice f a zero = []
slice f a (suc n) = f.byte a ∷ slice f (a + 1) n

-- `std::map::insert` keeps an old value.
unfoldable pub insert_new : Mems → ℕ → List ℕ → Mems
insert_new mems address mem = elim (mems address) [
  | none ↦ store mems address (some mem)
  | some old ↦ mems
]

-- `write`, on the bytes that its loop collects; its counter is an `int`, for fewer than 2^31 bytes.
unfoldable pub write : Loader → ℕ → List ℕ → Loader
unfolding insert_new
write st address mem = record st { mems = insert_new st.mems address mem }

-- A segment that has bytes in the file.
unfoldable pub load_bytes : Class → File → Phdr → Loader → Run Loader
unfolding write slice
load_bytes c f ph st = do
  assert (leb (sum_of c ph.p_offset ph.p_filesz) f.size)
  within (inside f ph.p_offset ph.p_filesz)
  returned (
      write (record st { sections = st.sections ++ ((ph.p_paddr, ph.p_memsz) ∷ []) }) ph.p_paddr
        (slice f ph.p_offset ph.p_filesz))

-- `zeros.resize(p_memsz - p_filesz)` throws when no vector can be so long.
unfoldable pub resize_zeros : Class → Phdr → Run (Unit {0})
resize_zeros c ph = assert (ltb ((ph.p_memsz + 2 ^ bits c - ph.p_filesz) % 2 ^ bits c) (2 ^ 63))

unfoldable pub load_segment : Class → File → Phdr → Loader → Run Loader
unfolding load_bytes resize_zeros
load_segment c f ph st =
    if ph.p_type == pt_load && not (ph.p_memsz == 0)
    then (do
      st' ← if not (ph.p_filesz == 0) then load_bytes c f ph st else returned st
      resize_zeros c ph
      returned st')
    else returned st

-- `ph[i]`
unfoldable pub phdr_offset : Class → Ehdr → ℕ → ℕ
phdr_offset c eh i = (eh.e_phoff + i * size_of (phdr_layout c)) % 2 ^ 64

-- The `rounds` headers from the number `i` on.
unfoldable pub load_segments : Class → File → Ehdr → ℕ → ℕ → Loader → Run Loader
unfolding load_segment phdr_offset phdr_at size_of
load_segments c f eh zero i st = returned st
load_segments c f eh (suc rounds) i st = do
  within (inside f (phdr_offset c eh i) (size_of (phdr_layout c)))
  st' ← load_segment c f (phdr_at c f (phdr_offset c eh i)) st
  load_segments c f eh rounds (i + 1) st'
