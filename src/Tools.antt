-- ===== src/Tools.antt =====
-- tools/: the programs that measure and try the others.
pub mod Fuzz
pub mod Expected
pub mod Preserve
pub mod Restored
pub mod Benchmark
pub mod Rounds
pub mod Echoed
