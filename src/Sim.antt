-- ===== src/Sim.antt =====
-- design-processing/common/dv/ticks.h and common_functions.cc: what a simulation takes from its
-- environment, and how it runs its testbench. `getenv` gives the value of a variable, if it has one.
pub mod Environment
pub mod Ticks
pub mod Tests
