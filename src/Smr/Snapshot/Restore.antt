-- ===== src/Smr/Snapshot/Restore.antt =====
-- rust/smr-collections/common/src/snapshot.rs and cowsnap.rs: `restore` and `restore_cow`. The checksum
-- of the crc32c crate is a parameter.
use hi_perf_cmp.Prelude.{
  ℕ, zero, suc, ◌+◌, ◌*◌, ◌-◌, List, Option, none, some, ◌==◌, ltb, not, if◌then◌else◌, length, set,
  take,
}
use hi_perf_cmp.Smr.Level.{Order, PriceLevel, SmrConfig, put_id}
use hi_perf_cmp.Smr.Book
use hi_perf_cmp.Smr.Book.{Book}
use hi_perf_cmp.Smr.Booksnap.{
  Side, bid, ask, null_val, LevelEntry, OrderEntry, get_word_at, get_level, get_order,
}

-- The `Err` strings of `restore`, with what they print.
pub data RestoreError : Type 0 where
  too_short : RestoreError
  crc_mismatch : RestoreError
  unsupported_version : ℕ → RestoreError
  wrong_capacity : ℕ → ℕ → RestoreError

-- `Result<A, String>`, or a panic.
pub data Restored (A : Type 0) : Type 0 where
  restores : A → Restored A
  fails : RestoreError → Restored A
  panics : Restored A

infixl 5 ◌>>=◌
abbrev pub ◌>>=◌ : {A B : Type 0} → Restored A → (A → Restored B) → Restored B
restores a >>= k = k a
fails e >>= k = fails e
panics >>= k = panics

-- `expect`, and an index that may be out of range
abbrev pub expect : {A : Type 0} → Option A → Restored A
expect none = panics
expect (some a) = restores a

unfoldable pub side_u8 : Side → ℕ
side_u8 ask = 1
side_u8 bid = 0
side_u8 null_val = 0

-- A loop over a group of `count` entries of `width` bytes from `limit`.
unfoldable pub restore_entries :
    {A S : Type 0}
    → (ℕ → List ℕ → Option A)
    → (A → S → Option S)
    → ℕ
    → ℕ
    → ℕ
    → List ℕ
    → S
    → Restored S
restore_entries get apply zero width limit buf s = restores s
restore_entries get apply (suc count) width limit buf s = do
  e ← expect (get limit buf)
  next ← expect (apply e s)
  restore_entries get apply count width (limit + width) buf next

unfoldable pub price_level : LevelEntry → PriceLevel
price_level e = record {
  head = e.head;
  tail = e.tail;
  qty_total = e.qty_total;
  count = e.order_count;
}

unfoldable pub order_of : OrderEntry → Order
order_of e = record {
  order_id = e.order_id;
  price = e.price;
  qty = e.qty;
  filled = e.filled;
  next = e.next_slot;
  prev = e.prev;
  side = side_u8 e.side;
}

-- `book.bids[t] = lvl`, or in the asks
unfoldable pub apply_level : LevelEntry → Book → Option Book
apply_level e b =
    if side_u8 e.side == 0
    then (if ltb e.level_tick (length b.bids)
        then some (record b { bids = set b.bids e.level_tick (price_level e) })
        else none)
    else if ltb e.level_tick (length b.asks)
    then some (record b { asks = set b.asks e.level_tick (price_level e) })
    else none

unfoldable pub apply_order : OrderEntry → Book → Option Book
apply_order e b =
    if ltb e.slot (length b.pool)
    then some (record b {
      pool = set b.pool e.slot (order_of e);
      idmap = if not (e.order_id == 0) then put_id b.idmap e.order_id e.slot else b.idmap;
    })
    else none

-- The groups, behind the block that ends at `limit`.
unfoldable pub restore_groups :
    {S : Type 0}
    → (LevelEntry → S → Option S)
    → (OrderEntry → S → Option S)
    → ℕ
    → List ℕ
    → S
    → Restored S
restore_groups level order limit buf s = do
  level_width ← expect (get_word_at 2 limit buf)
  levels ← expect (get_word_at 2 (limit + 2) buf)
  with_levels ← restore_entries get_level level levels level_width (limit + 4) buf s
  let orders_limit = limit + 4 + levels * level_width
  order_width ← expect (get_word_at 2 orders_limit buf)
  orders ← expect (get_word_at 2 (orders_limit + 2) buf)
  restore_entries get_order order orders order_width (orders_limit + 4) buf with_levels

-- From the message without its checksum.
unfoldable pub restore_message : List ℕ → SmrConfig → Restored Book
restore_message buf cfg =
    let book = Book.new cfg in
    do
      version ← expect (get_word_at 2 6 buf)
      if not (version == 2) then fails (unsupported_version version) else (do
        acting_length ← expect (get_word_at 2 0 buf)
        price_min ← expect (get_word_at 8 8 buf)
        tick ← expect (get_word_at 8 16 buf)
        n_levels ← expect (get_word_at 4 24 buf)
        hwm ← expect (get_word_at 4 32 buf)
        best_bid ← expect (get_word_at 4 36 buf)
        best_ask ← expect (get_word_at 4 40 buf)
        capacity ← expect (get_word_at 4 28 buf)
        if not (capacity == cfg.cap) then fails (wrong_capacity capacity cfg.cap) else (do
          free_head ← expect (get_word_at 4 44 buf)
          restore_groups apply_level apply_order (8 + acting_length) buf (record book {
            price_min = price_min;
            tick = tick;
            n_levels = n_levels;
            hwm = hwm;
            best_bid = best_bid;
            best_ask = best_ask;
            free_head = free_head;
          })))

unfoldable pub restore : (List ℕ → ℕ) → List ℕ → SmrConfig → Restored Book
restore crc32c bytes cfg = if ltb (length bytes) 4 then fails too_short else (do
  want ← expect (get_word_at 4 (length bytes - 4) bytes)
  if not (crc32c (take (length bytes - 4) bytes) == want)
      then fails crc_mismatch
      else restore_message (take (length bytes - 4) bytes) cfg)
