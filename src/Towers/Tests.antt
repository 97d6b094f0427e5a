-- ===== src/Towers/Tests.antt =====
-- A game with three discs, and what the theorems say of it.
use cellift_meta.Base.{ℕ, ◌≡◌, refl, none, some, List, [], ◌∷◌, arith}
use cellift_meta.Towers.{
  Peg, peg_a, peg_b, peg_c, put, Heap, Towers, towers_solve_h, pool, towers_main,
}
use cellift_meta.Towers.Stacks.{IsStacks, list_pop-IsStacks}
use cellift_meta.Towers.Solve.{IsTowers, AreThree, towers_solve_h-IsTowers}
use cellift_meta.Towers.Setup.{pool-IsPool, towers_init-IsTowers}
use cellift_meta.Towers.Game.{towers_main-zero}

abbrev cleared : Heap
cleared = record { next = λ _. none; val = λ _. 0; free = none; head = λ _. none; size = λ _. 0 }

three_discs_run : towers_main 3 cleared ≡ some 0
unfolding towers_main
three_discs_run = refl

towers_main-zero_example : towers_main 3 cleared ≡ some 0
towers_main-zero_example = towers_main-zero 3 cleared (omega arith) (omega arith)

three_discs : (t : Towers) × IsTowers 3 t 0 0 peg_a peg_b peg_c (1 ∷ 2 ∷ 3 ∷ []) [] []
three_discs =
    let (t, run, w) =
      towers_init-IsTowers (pool 3 cleared) 3 (pool-IsPool 3 cleared (omega arith)) in
    (t, w)

abbrev different : AreThree peg_a peg_b peg_c
different = record {
  start_temp = refl;
  temp_start = refl;
  start_dest = refl;
  dest_start = refl;
  temp_dest = refl;
  dest_temp = refl;
}

-- The two upper discs.
towers_solve_h-IsTowers_example :
    (t' : Towers) × (towers_solve_h 2 three_discs.0 peg_a peg_b peg_c ≡ some t')
    × IsTowers 3 t' 3 0 peg_a peg_b peg_c (3 ∷ []) [] (1 ∷ 2 ∷ [])
towers_solve_h-IsTowers_example =
    towers_solve_h-IsTowers 3 1 three_discs.0 0 0 peg_a peg_b peg_c (1 ∷ 2 ∷ []) (3 ∷ []) [] []
      different refl three_discs.1

one_taken : (h : Heap) × (s : Peg → List ℕ) × IsStacks h 1 s
one_taken =
    let (h, run, st) =
      list_pop-IsStacks three_discs.0.heap 0 three_discs.1.stacks peg_a 1 (2 ∷ 3 ∷ [])
        three_discs.1.holds three_discs.1.at_start in
    (h, put three_discs.1.stacks peg_a (2 ∷ 3 ∷ []), st)
