-- ===== src/Journal.antt =====
-- tools/journal: the records of the benchmark runs.
pub mod Compare
mod Tests
