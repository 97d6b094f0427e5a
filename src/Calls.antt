-- ===== src/Calls.antt =====
-- Sequences of calls: the answers that a client gets from a component, and when two components give
-- the same ones. The loaders are compared in this way with what their calls mean.
use cellift_meta.Base.{ℕ, ◌≡◌, refl, List, [], ◌∷◌, All}
use cellift_meta.Base.Run.{Run, returned, aborted, exited, ◌>>=◌}

-- The answers to some calls, one after the other, up to the first that does not return.
unfoldable pub answers :
    {Call Answer S : Type 0} → (Call → S → Run (Answer × S)) → List Call → S → Run (List Answer)
answers step [] s = returned []
answers step (call ∷ calls) s =
    step call s >>= λ (answer, s'). answers step calls s' >>= λ rest. returned (answer ∷ rest)

-- Two ends of a call that are the same, with states that are related.
pub data Agrees {S T Answer : Type 0} (Related : T → S → Type 0) (run : Run (Answer × S))
    (run' : Run (Answer × T)) : Type 0 where
  aborting : run ≡ aborted → run' ≡ aborted → Agrees Related run run'
  exiting : (code : ℕ) → run ≡ exited code → run' ≡ exited code → Agrees Related run run'
  answering :
      (answer : Answer) (s : S) (t : T)
      → run ≡ returned (answer, s)
      → run' ≡ returned (answer, t)
      → Related t s
      → Agrees Related run run'

-- Steps that agree from related states on give the same answers.
pub answers-Agrees :
    {Call Answer S T : Type 0} (step : Call → S → Run (Answer × S))
    (step' : Call → T → Run (Answer × T)) (Related : T → S → Type 0) (IsCallable : Call → Type 0)
    → ((call : Call) (t : T) (s : S)
        → IsCallable call
        → Related t s
        → Agrees Related (step call s) (step' call t))
    → (calls : List Call) (t : T) (s : S) → All IsCallable calls
    → Related t s
    → answers step calls s ≡ answers step' calls t
unfolding answers
answers-Agrees step step' Related IsCallable agrees [] t s callable related = refl
answers-Agrees step step' Related IsCallable agrees (call ∷ calls) t s (here, callable) related =
    elim (agrees call t s here related) [
      | aborting e e' ↦ rw (e, e') refl
      | exiting code e e' ↦ rw (e, e') refl
      | answering answer s' t' e e' related' ↦
          rw
            (
              e,
              e',
              answers-Agrees step step' Related IsCallable agrees calls t' s' callable related',
            )
            refl
    ]
