-- ===== src/Autobench/Registry.antt =====
-- autobench/src/task_spec.rs: the registered tasks.
pub mod Network
pub mod Spinning
pub mod Blocking
pub mod Arms
pub mod Rows
