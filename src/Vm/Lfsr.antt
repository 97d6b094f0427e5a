-- ===== src/Vm/Lfsr.antt =====
-- The shift register that shuffles the free list runs through all its 63 states.
use native.Mathlib.Decide.{dec_lt}
use cellift_meta.Base.{
  ◌↔◌, ◌*◌, ◌/◌, ℕ, zero, suc, ◌+◌, ◌-◌, ◌%◌, ◌<◌, ◌≡◌, ◌≢◌, refl, sym, ap, ◌∙◌, Bool, true, not,
  ◌&&◌, arith, every_below, every_below-at, ◌==◌, ltb, leb, ==_iff,
}
use cellift_meta.Vm.{lfsr_next, max_test_pages}

abbrev pub IsState : ℕ → Type 0
IsState x = (0 < x) × (x < 64)

-- The state after `n` shifts.
unfoldable pub shifts : ℕ → ℕ → ℕ
shifts zero x = x
shifts (suc n) x = shifts n (lfsr_next x)

-- Tables over the 63 states: a shift leads to a state, and no fewer than 63 shifts lead back.
abbrev is_state : ℕ → Bool
is_state x = leb 1 x && ltb x 64

state_table : every_below 63 (λ k. is_state (lfsr_next (suc k))) ≡ true
unfolding every_below lfsr_next
state_table = refl

return_table :
    every_below 63 (λ k. every_below 62 (λ n. not (shifts (suc n) (suc k) == suc k))) ≡ true
unfolding every_below shifts lfsr_next
return_table = refl

period_table : every_below 63 (λ k. shifts 63 (suc k) == suc k) ≡ true
unfolding every_below shifts lfsr_next
period_table = refl

lfsr_next-IsState : (x : ℕ) → IsState x → IsState (lfsr_next x)
lfsr_next-IsState zero h = absurd (omega arith)
lfsr_next-IsState (suc k) h =
    let t = every_below-at 63 (λ k. is_state (lfsr_next (suc k))) k state_table (omega arith) in
    ground (arith, t)

shifts-IsState : (n x : ℕ) → IsState x → IsState (shifts n x)
unfolding shifts
shifts-IsState zero x h = h
shifts-IsState (suc n) x h = shifts-IsState n (lfsr_next x) (lfsr_next-IsState x h)

shifts-return : (n x : ℕ) → IsState x → 0 < n → n < 63 → shifts n x ≢ x
shifts-return zero x h p q = absurd (omega arith)
shifts-return (suc n) zero h p q = absurd (omega arith)
shifts-return (suc n) (suc k) h p q =
    let row =
      every_below-at 63 (λ k. every_below 62 (λ n. not (shifts (suc n) (suc k) == suc k))) k
        return_table (omega arith) in
    let t = every_below-at 62 (λ n. not (shifts (suc n) (suc k) == suc k)) n row (omega arith) in
    ground (arith, t)

shifts_add : (i d x : ℕ) → shifts (i + d) x ≡ shifts d (shifts i x)
unfolding shifts
shifts_add zero d x = ap (λ (n : ℕ). shifts n x) {x = 0 + d} {y = d} (omega arith)
shifts_add (suc i) d x =
    ap (λ (n : ℕ). shifts n x) {x = suc i + d} {y = suc (i + d)} (omega arith)
    ∙ shifts_add i d (lfsr_next x)

-- From any of its 63 states the register shows 63 different ones.
pub shifts_distinct : (x i j : ℕ) → IsState x → i < j → j < max_test_pages → shifts i x ≢ shifts j x
shifts_distinct x i j h lt le e =
    shifts-return (j - i) (shifts i x) (shifts-IsState i x h) (omega arith) (omega arith) (
      sym (shifts_add i (j - i) x)
      ∙ ap (λ (n : ℕ). shifts n x) {x = i + (j - i)} {y = j} (omega arith)
      ∙ sym e)

shifts_period : (k x : ℕ) → IsState x → shifts (max_test_pages * k) x ≡ x
unfolding shifts
shifts_period zero x h = refl
shifts_period (suc k) zero h = absurd (omega arith)
shifts_period (suc k) (suc y) h =
    ap (λ (n : ℕ). shifts n (suc y)) {x = max_test_pages * suc k}
      {y = max_test_pages + max_test_pages * k} (omega arith)
    ∙ shifts_add max_test_pages (max_test_pages * k) (suc y)
    ∙ ap (λ (x : ℕ). shifts (max_test_pages * k) x)
        ((==_iff _ _).0
          (every_below-at 63 (λ k. shifts 63 (suc k) == suc k) y period_table (omega arith)))
    ∙ shifts_period k (suc y) h

-- `MAX_TEST_PAGES` is the period of the shift register, as env/v/riscv_test.h asks: shifts lead
-- from a state back to it exactly when their number is a multiple of `MAX_TEST_PAGES`.
pub lfsr_period : (n x : ℕ) → IsState x → (shifts n x ≡ x) ↔ (n % max_test_pages ≡ 0)
unfolding shifts
lfsr_period n x h =
    let reduce : shifts n x ≡ shifts (n % max_test_pages) x =
      ap (λ (m : ℕ). shifts m x) {x = n}
        {y = max_test_pages * (n / max_test_pages) + n % max_test_pages} (omega arith)
      ∙ shifts_add (max_test_pages * (n / max_test_pages)) (n % max_test_pages) x
      ∙ ap (λ (y : ℕ). shifts (n % max_test_pages) y) (shifts_period (n / max_test_pages) x h) in
    (
      λ e. elim (dec_lt 0 (n % max_test_pages)) [
        | yes lt ↦ absurd (shifts-return (n % max_test_pages) x h lt (omega arith) (sym reduce ∙ e))
        | no ge ↦ omega arith
      ],
      λ e. reduce ∙ ap (λ (m : ℕ). shifts m x) e,
    )
