-- ===== src/Kernels.antt =====
-- The small kernels of benchmarks/benchmarks: `multiply`, `median`, and `verify` of common/util.h.
pub mod Multiply
pub mod Median
pub mod Verify
pub mod Tests
