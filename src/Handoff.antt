-- ===== src/Handoff.antt =====
-- rust/thread-handoff and rust/handoff-compare: the ways that threads hand tokens over, and wait.
pub mod Batch
pub mod Mpsc
pub mod Spsc
mod Tests
pub mod Backoff
