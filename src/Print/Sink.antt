-- ===== src/Print/Sink.antt =====
-- The two `putch` functions, `putchar` with its line buffer and `sprintf_putch`, and the two
-- functions that pass them to `vprintfmt`: `printf` and `sprintf`.
use mathlib.Core.List.{append-nil, append_assoc, flatten}
use cellift_meta.Base.{
  ℕ, suc, ◌+◌, ◌%◌, ◌<◌, ◌≡◌, refl, sym, ap, ◌∙◌, ◌||◌, List, [], ◌∷◌, ◌++◌, Option, none, some,
  arith, length, map, All, Mem, store, Outside, ◌==◌, if◌then◌else◌, length-append, Bool-cases, inl,
  inr,
}
use cellift_meta.CString.Scan.{IsString}
use cellift_meta.Print.Conversion.{done, format}
use cellift_meta.Print.Flags.{Arg}

-- `buf[0..buflen)`, and the chunks that have been passed to `syscall(SYS_write, …)`.
pub record Console : Type 0 where
  pub pending : List ℕ
  pub written : List (List ℕ)

unfoldable pub flush : Console → Console
flush k = record { pending = []; written = k.written ++ (k.pending ∷ []) }

unfoldable pub putchar : Console → ℕ → Console
unfolding flush
putchar k ch =
    let k' : Console = record k { pending = k.pending ++ ((ch % 256) ∷ []) } in
    if ch == b'\n' || length k'.pending == 64 then flush k' else k'

unfoldable pub put_all : Console → List ℕ → Console
unfolding putchar
put_all k [] = k
put_all k (c ∷ cs) = put_all (putchar k c) cs

-- `none` where the arguments do not fit the format, which C leaves undefined.
unfoldable pub printf : Console → List ℕ → List Arg → Option Console
unfolding put_all
printf k fmt args = elim (format fmt args) [ done out ↦ some (put_all k out) | _ ↦ none ]

-- The memory, and where `str` points.
unfoldable pub sprintf_putch : Mem × ℕ → ℕ → Mem × ℕ
sprintf_putch (m, str) ch = (store m str (ch % 256), str + 1)

unfoldable pub sprintf_all : Mem × ℕ → List ℕ → Mem × ℕ
unfolding sprintf_putch
sprintf_all s [] = s
sprintf_all s (c ∷ cs) = sprintf_all (sprintf_putch s c) cs

-- The memory behind the call and the length that it returns.
unfoldable pub sprintf : Mem → ℕ → List ℕ → List Arg → Option (Mem × ℕ)
unfolding sprintf_all
sprintf m str fmt args = elim (format fmt args) [
  | done out ↦ let s = sprintf_all (m, str) out in some (store s.0 s.1 0, length out)
  | _ ↦ none
]

-- All that a console has been given, in order.
abbrev pub output : Console → List ℕ
output k = flatten k.written ++ k.pending

-- The buffer has room for a character.
abbrev pub IsOpen : Console → Type 0
IsOpen k = length k.pending < 64

flatten-snoc : (ls : List (List ℕ)) (l : List ℕ) → flatten (ls ++ (l ∷ [])) ≡ flatten ls ++ l
unfolding flatten
flatten-snoc [] l = append-nil l
flatten-snoc (k ∷ ls) l =
    ap (λ (r : List ℕ). k ++ r) (flatten-snoc ls l) ∙ sym (append_assoc k (flatten ls) l)

putchar-output : (k : Console) (c : ℕ) → output (putchar k c) ≡ output k ++ ((c % 256) ∷ [])
unfolding putchar
putchar-output k c =
    elim (Bool-cases (c == b'\n' || length (k.pending ++ ((c % 256) ∷ [])) == 64)) [
      | inl full ↦ rw full (
          append-nil _
          ∙ flatten-snoc k.written (k.pending ++ ((c % 256) ∷ []))
          ∙ sym (append_assoc (flatten k.written) k.pending ((c % 256) ∷ [])))
      | inr room ↦ rw room (sym (append_assoc (flatten k.written) k.pending ((c % 256) ∷ [])))
    ]

putchar-IsOpen : (k : Console) (c : ℕ) → IsOpen k → IsOpen (putchar k c)
unfolding putchar
putchar-IsOpen k c h = ground (arith, length-append k.pending ((c % 256) ∷ []))

put_all-output :
    (k : Console) (cs : List ℕ) → output (put_all k cs) ≡ output k ++ map (λ c. c % 256) cs
unfolding put_all
put_all-output k [] = sym (append-nil (output k))
put_all-output k (c ∷ cs) =
    put_all-output (putchar k c) cs
    ∙ rw (putchar-output k c) (append_assoc (output k) ((c % 256) ∷ []) (map (λ c. c % 256) cs))

put_all-IsOpen : (k : Console) (cs : List ℕ) → IsOpen k → IsOpen (put_all k cs)
unfolding put_all
put_all-IsOpen k [] h = h
put_all-IsOpen k (c ∷ cs) h = put_all-IsOpen (putchar k c) cs (putchar-IsOpen k c h)

-- `printf` writes what the format makes of its arguments behind all that was written before,
-- through a buffer that it never overruns and that has room again when it returns.
pub printf-output :
    (k : Console) (fmt out : List ℕ) (args : List Arg)
    → IsOpen k
    → format fmt args ≡ done out
    → (k' : Console) × (printf k fmt args ≡ some k')
      × IsOpen k'
      × (output k' ≡ output k ++ map (λ c. c % 256) out)
unfolding printf
printf-output k fmt out args h e =
    (put_all k out, rw (e, printf) refl, put_all-IsOpen k out h, put_all-output k out)

-- Characters that a string can hold.
abbrev pub IsText : List ℕ → Type 0
IsText = All (λ c. (0 < c) × (c < 256))

sprintf_all-IsString :
    (m : Mem) (p : ℕ) (out : List ℕ)
    → IsText out
    → let s = sprintf_all (m, p) out in
      let m' = store s.0 s.1 0 in
      IsString m' p out × ((b : ℕ) → Outside p (suc (length out)) b → m' b ≡ m b)
unfolding sprintf_all
sprintf_all-IsString m p [] h = (ground arith, λ b o. ground arith)
sprintf_all-IsString m p (c ∷ cs) h =
    let (s, frame) = sprintf_all-IsString (store m p (c % 256)) (p + 1) cs h.1 in
    (
      (frame p (omega arith) ∙ ground arith, ground arith, s),
      λ b o. frame b (omega arith) ∙ ground arith,
    )

-- `sprintf` leaves at `str` the terminated string that the format makes of its arguments, returns
-- its length, and changes nothing else.
pub sprintf-IsString :
    (m : Mem) (str : ℕ) (fmt out : List ℕ) (args : List Arg)
    → format fmt args ≡ done out
    → IsText out
    → (m' : Mem) × (sprintf m str fmt args ≡ some (m', length out))
      × IsString m' str out
      × ((b : ℕ) → Outside str (suc (length out)) b → m' b ≡ m b)
unfolding sprintf
sprintf-IsString m str fmt out args e h =
    let (s, frame) = sprintf_all-IsString m str out h in (_, rw (e, sprintf) refl, s, frame)
