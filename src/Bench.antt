-- ===== src/Bench.antt =====
-- rust/bench-common/src: the configuration of a cell from its environment, and the durable append.
pub mod Env
pub mod Config
pub mod Files
mod Tests
