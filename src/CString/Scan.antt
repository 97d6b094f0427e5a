-- ===== src/CString/Scan.antt =====
-- `strlen`, `strnlen`, `strcmp` and `strcpy` on terminated strings.
use cellift_meta.Base.{
  ℕ, zero, suc, ◌+◌, ◌<◌, ◌≤◌, ◌≡◌, ◌≢◌, ◌↔◌, refl, ◌∙◌, some, ◌==◌, if◌then◌else◌, arith, Mem,
  store, Outside, Disjoint, List, [], ◌∷◌, length, min, All, ℤ, pos, sub_ℕ,
}
use cellift_meta.CString.{strlen, strlen_loop, strnlen, strnlen_loop, strcmp, strcpy}

-- The bytes from `a` on are `cs`, none of them 0, and then a 0.
abbrev pub IsString : Mem → ℕ → List ℕ → Type 0
IsString m a [] = m a ≡ 0
IsString m a (c ∷ cs) = (m a ≡ c) × (c ≢ 0) × IsString m (a + 1) cs

strlen_loop-length :
    (fuel : ℕ) (m : Mem) (p count : ℕ) (cs : List ℕ)
    → IsString m p cs
    → length cs < fuel
    → strlen_loop fuel m p count ≡ some (count + length cs)
unfolding strlen_loop
strlen_loop-length zero m p count cs s f = absurd (omega arith)
strlen_loop-length (suc fuel) m p count [] s f = ground arith
strlen_loop-length (suc fuel) m p count (c ∷ cs) s f =
    ground (arith, strlen_loop-length fuel m (p + 1) (count + 1) cs s.2)

-- `strlen` of a terminated string returns, and returns the number of bytes before the 0.
pub strlen-length :
    (fuel : ℕ) (m : Mem) (a : ℕ) (cs : List ℕ)
    → IsString m a cs
    → length cs < fuel
    → strlen fuel m a ≡ some (length cs)
unfolding strlen
strlen-length fuel m a cs s f = ground (arith, strlen_loop-length fuel m a 0 cs s f)

strnlen_loop-min :
    (m : Mem) (p n count : ℕ) (cs : List ℕ)
    → IsString m p cs
    → strnlen_loop m p n count ≡ count + min (length cs) n
unfolding strnlen_loop
strnlen_loop-min m p zero count cs s = omega arith
strnlen_loop-min m p (suc n) count [] s = ground arith
strnlen_loop-min m p (suc n) count (c ∷ cs) s =
    ground (arith, strnlen_loop-min m (p + 1) n (count + 1) cs s.2)

-- `strnlen` is `strlen` cut off at its bound.
pub strnlen-strlen :
    (fuel : ℕ) (m : Mem) (a n : ℕ) (cs : List ℕ)
    → IsString m a cs
    → length cs < fuel
    → (l : ℕ) × (strlen fuel m a ≡ some l) × (strnlen m a n ≡ min l n)
unfolding strnlen
strnlen-strlen fuel m a n cs s f =
    (length cs, strlen-length fuel m a cs s f, strnlen_loop-min m a n 0 cs s ∙ omega arith)

-- The difference of two strings at their first difference, where the shorter one reads 0.
pub difference : List ℕ → List ℕ → ℤ
difference [] [] = pos 0
difference [] (d ∷ ds) = sub_ℕ 0 d
difference (c ∷ cs) [] = sub_ℕ c 0
difference (c ∷ cs) (d ∷ ds) = if c == d then difference cs ds else sub_ℕ c d

pub strcmp-difference :
    (fuel : ℕ) (m : Mem) (a b : ℕ) (cs ds : List ℕ)
    → IsString m a cs
    → IsString m b ds
    → length cs < fuel
    → strcmp fuel m a b ≡ some (difference cs ds)
unfolding strcmp difference
strcmp-difference zero m a b cs ds s t f = absurd (omega arith)
strcmp-difference (suc fuel) m a b [] [] s t f = ground arith
strcmp-difference (suc fuel) m a b [] (d ∷ ds) s t f = ground arith
strcmp-difference (suc fuel) m a b (c ∷ cs) [] s t f = ground arith
strcmp-difference (suc fuel) m a b (c ∷ cs) (d ∷ ds) s t f =
    ground (arith, strcmp-difference fuel m (a + 1) (b + 1) cs ds s.2 t.2)

IsNonzero : List ℕ → Type 0
IsNonzero = All (λ c. c ≢ 0)

IsString-IsNonzero : (m : Mem) (a : ℕ) (cs : List ℕ) → IsString m a cs → IsNonzero cs
unfolding IsNonzero
IsString-IsNonzero m a [] s = tt
IsString-IsNonzero m a (c ∷ cs) s = (s.1, IsString-IsNonzero m (a + 1) cs s.2)

difference-zero :
    (cs ds : List ℕ) → IsNonzero cs → IsNonzero ds → difference cs ds ≡ pos 0 → cs ≡ ds
unfolding difference IsNonzero
difference-zero [] [] p q e = refl
difference-zero [] (d ∷ ds) p q e = absurd (ground arith)
difference-zero (c ∷ cs) [] p q e = absurd (ground arith)
difference-zero (c ∷ cs) (d ∷ ds) p q e = ground (arith, difference-zero cs ds p.1 q.1)

difference_self : (cs : List ℕ) → difference cs cs ≡ pos 0
unfolding difference
difference_self [] = refl
difference_self (c ∷ cs) = ground (arith, difference_self cs)

-- On terminated strings `strcmp` returns, and returns 0 exactly when they are the same string.
pub strcmp-zero_iff :
    (fuel : ℕ) (m : Mem) (a b : ℕ) (cs ds : List ℕ)
    → IsString m a cs
    → IsString m b ds
    → length cs < fuel
    → (r : ℤ) × (strcmp fuel m a b ≡ some r) × ((r ≡ pos 0) ↔ (cs ≡ ds))
strcmp-zero_iff fuel m a b cs ds s t f = (
  difference cs ds,
  strcmp-difference fuel m a b cs ds s t f,
  (
    difference-zero cs ds (IsString-IsNonzero m a cs s) (IsString-IsNonzero m b ds t),
    λ e. rw e (difference_self ds),
  ),
)

-- A string survives a change elsewhere.
IsString-same :
    (m m' : Mem) (a : ℕ) (cs : List ℕ)
    → IsString m a cs
    → ((b : ℕ) → a ≤ b → b ≤ a + length cs → m' b ≡ m b)
    → IsString m' a cs
IsString-same m m' a [] s same = same a (omega arith) (omega arith) ∙ s
IsString-same m m' a (c ∷ cs) s same = (
  same a (omega arith) (omega arith) ∙ s.0,
  s.1,
  IsString-same m m' (a + 1) cs s.2 (λ b p q. same b (omega arith) (omega arith)),
)

-- `strcpy` of a terminated string to a place that it does not overlap returns, has made a copy of
-- the string there, 0 included, and has changed nothing else.
pub strcpy-IsString :
    (fuel : ℕ) (m : Mem) (d a : ℕ) (cs : List ℕ)
    → IsString m a cs
    → Disjoint d (suc (length cs)) a (suc (length cs))
    → length cs < fuel
    → (m' : Mem) × (strcpy fuel m d a ≡ some m')
      × IsString m' d cs
      × ((b : ℕ) → Outside d (suc (length cs)) b → m' b ≡ m b)
unfolding strcpy
strcpy-IsString zero m d a cs s apart f = absurd (omega arith)
strcpy-IsString (suc fuel) m d a [] s apart f =
    (store m d (m a), ground arith, ground arith, λ b h. ground arith)
strcpy-IsString (suc fuel) m d a (c ∷ cs) s apart f =
    let m1 : Mem = store m d (m a) in
    let (m', run, copy, frame) =
      strcpy-IsString fuel m1 (d + 1) (a + 1) cs
        (IsString-same m m1 (a + 1) cs s.2 (λ b p q. ground arith)) (omega arith) (omega arith) in
    (
      m',
      ground arith,
      (frame d (omega arith) ∙ ground arith, s.1, copy),
      λ b h. frame b (omega arith) ∙ ground arith,
    )
