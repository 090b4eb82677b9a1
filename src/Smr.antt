-- ===== src/Smr.antt =====
-- rust/smr-collections/common: the limit order book and its stores.
pub mod Booksnap
pub mod Level
pub mod Config
pub mod Chunks
pub mod Book
pub mod CowBook
pub mod Rng
pub mod Workload
pub mod Churn
pub mod Command
pub mod Lockstep
pub mod Digest
pub mod Snapshot
mod Tests
