-- ===== src/Smr/Lockstep.antt =====
-- cowbook.rs against book.rs: "same op semantics (keep in lockstep)".
pub mod Access
pub mod Steps
pub mod Start
pub mod Streams
use hi_perf_cmp.Prelude.{ℕ, ◌≡◌, get_elem?, length}
use hi_perf_cmp.Smr.Chunks.{read}
use hi_perf_cmp.Smr.Chunks.Laws.{IsOwned}
use hi_perf_cmp.Smr.Book.{Book}
use hi_perf_cmp.Smr.CowBook.{CowBook, level_chunk}

-- The copy-on-write book `w` shows what the flat book `b` holds.
pub record Shows (w : CowBook) (b : Book) : Type 0 where
  pub price_min : w.price_min ≡ b.price_min
  pub tick : w.tick ≡ b.tick
  pub n_levels : w.n_levels ≡ b.n_levels
  pub capacity : w.capacity ≡ length b.pool
  pub hwm : w.hwm ≡ b.hwm
  pub best_bid : w.best_bid ≡ b.best_bid
  pub best_ask : w.best_ask ≡ b.best_ask
  pub free_head : w.free_head ≡ b.free_head
  pub idmap : w.idmap ≡ b.idmap
  pub orders : (slot : ℕ) → read w.chunk w.order_chunks slot ≡ get_elem? b.pool slot
  pub bids : (t : ℕ) → read level_chunk w.bid_chunks t ≡ get_elem? b.bids t
  pub asks : (t : ℕ) → read level_chunk w.ask_chunks t ≡ get_elem? b.asks t
  pub orders_owned : IsOwned w.gen w.order_chunks
  pub bids_owned : IsOwned w.gen w.bid_chunks
  pub asks_owned : IsOwned w.gen w.ask_chunks
