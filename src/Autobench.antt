-- ===== src/Autobench.antt =====
-- autobench/src: the loop that measures a candidate of a benchmark cell, and the data it works on.
pub mod Verdict
pub mod TaskSpec
pub mod Registry
pub mod Sampling
pub mod Process
pub mod Driver
pub mod Stage
pub mod Iterate
mod Tests
