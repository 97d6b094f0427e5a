-- ===== src/Sim/Ticks.antt =====
-- `get_sim_length_cycles` and `tb_run_ticks`, with the macros that count ticks.
pub mod Length
use cellift_meta.Base.{
  ℕ, zero, suc, ◌+◌, ◌-◌, ◌/◌, ◌^◌, Bool, true, false, not, Option, none, some, List, [], ◌∷◌, ltb,
  leb, if◌then◌else◌, ℤ, pos, negsuc, pos_part, neg_part, sub_ℕ, ltb_ℤ,
}
use cellift_meta.Base.Run.{Run, returned, exited, strayed, ◌>>=◌, ◌>>◌, assert}
use cellift_meta.Taint.Stream.{skip_blanks, sign, digits}
use cellift_meta.Sim.Environment.{Environment}

-- A macro of ticks, which a design can override.
abbrev pub ticks_or : Option ℤ → ℤ → ℤ
ticks_or (some ticks) default = ticks
ticks_or none default = default

abbrev pub leadticks : Option ℤ → ℤ
leadticks leadticks_design = ticks_or leadticks_design (pos 5)

abbrev pub trailticks : Option ℤ → ℤ
trailticks trailticks_design = ticks_or trailticks_design (pos 1)

abbrev pub ariane_flush_ticks : ℕ
ariane_flush_ticks = 256

abbrev pub simlen_name : List ℕ
simlen_name = b'S' ∷ b'I' ∷ b'M' ∷ b'L' ∷ b'E' ∷ b'N' ∷ []

-- A number as an `int`, which has to be able to hold it.
abbrev pub as_int : Bool → ℕ → Run ℤ
as_int true n = if leb n (2 ^ 31) then returned (sub_ℕ 0 n) else strayed
as_int false n = if ltb n (2 ^ 31) then returned (pos n) else strayed

-- `atoi`: blanks, a sign and decimal digits; what follows them does not count.
unfoldable pub atoi : List ℕ → Run ℤ
unfolding skip_blanks digits
atoi str = let (negative, cs) = sign (skip_blanks str) in as_int negative (digits 10 0 false cs).0

abbrev pub sub_ℤ : ℤ → ℤ → ℤ
sub_ℤ a b = sub_ℕ (pos_part a + neg_part b) (pos_part b + neg_part a)

-- The asserts and the difference, for a `SIMLEN` of `simlen`.
unfoldable pub sim_length : ℤ → ℤ → Run ℤ
sim_length lead_time_cycles simlen = do
  assert (not (ltb_ℤ lead_time_cycles (pos 0)))
  assert (ltb_ℤ (pos 0) simlen)
  assert (ltb_ℤ lead_time_cycles simlen)
  returned (sub_ℤ simlen lead_time_cycles)

unfoldable pub get_sim_length_cycles : Environment → ℤ → Run ℤ
unfolding sim_length atoi
get_sim_length_cycles getenv lead_time_cycles = elim (getenv simlen_name) [
  | none ↦ exited 1
  | some simlen_env ↦ atoi simlen_env >>= λ simlen. sim_length lead_time_cycles simlen
]

-- A testbench of the design, in a world whose steady clock counts nanoseconds.
pub record Testbench (World : Type 0) : Type 0 where
  pub reset : World → World
  pub tick : ℤ → World → World
  pub now : World → ℕ

-- `std::chrono::duration_cast<std::chrono::milliseconds>`
abbrev pub milliseconds : ℕ → ℕ
milliseconds ns = ns / 1000000

-- The milliseconds that the ticks take, and the world behind them.
unfoldable pub tb_run_ticks :
    {World : Type 0} → Testbench World → Option ℤ → ℤ → Bool → World → ℕ × World
tb_run_ticks tb trailticks_design simlen reset world =
    let w = if reset then tb.reset world else world in
    let start = tb.now w in
    let w' = tb.tick simlen w in
    let stop = tb.now w' in (milliseconds (stop - start), tb.tick (trailticks trailticks_design) w')
