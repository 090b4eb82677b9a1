-- ===== src/Smr/Snapshot.antt =====
-- rust/smr-collections/common/src/snapshot.rs and cowsnap.rs: `encode` and `encode_root`, as the fields
-- of a message and its bytes. The checksum is that of the crc32c crate, and a parameter. `none` is a
-- panic on an index out of range, which also stands for entries put in a group opened for none.
pub mod Restore
pub mod RestoreCow
pub mod Bytes
pub mod Groups
pub mod Messages
pub mod Refusals
pub mod Apply
pub mod Orders
pub mod Fields
pub mod Returns
pub mod RoundTrip
mod Tests
pub mod Same
use hi_perf_cmp.Prelude.{
  ℕ, zero, suc, ◌+◌, ◌*◌, ◌%◌, ◌^◌, List, [], ◌∷◌, ◌++◌, Option, none, some, ◌==◌, ltb,
  if◌then◌else◌, length, get_elem?, take, ◌-◌,
}
use hi_perf_cmp.Prelude.Partial.{◌>>=◌}
use hi_perf_cmp.Smr.Level.{nil, Order, PriceLevel}
use hi_perf_cmp.Smr.Book
use hi_perf_cmp.Smr.Booksnap.{
  Side, bid, ask, Block, LevelEntry, OrderEntry, Write, ◌>=>◌, put_word_at, put_header, put_block,
  put_group, put_level, put_order, put_entries, level_length, order_length,
}
use hi_perf_cmp.Smr.CowBook.{CowBook, Root, root_order, root_level}

unfoldable pub side_enum : ℕ → Side
side_enum side = if side == 0 then bid else ask

-- The fields of a message.
pub record Image : Type 0 where
  pub block : Block
  pub levels : List LevelEntry
  pub orders : List OrderEntry

-- The entries of a group opened for `count`, in
-- rust/smr-collections/booksnap-sbe/generated/booksnap/src/book_snapshot_codec.rs. Past the count
-- `advance` returns `Ok(None)` and moves no further, so what is written next overwrites the last entry.
unfoldable pub grouped : {A : Type 0} → ℕ → List A → Option (List A)
grouped count xs =
    if ltb count (length xs)
    then (if count == 0
        then none
        else (do x ← get_elem? xs (length xs - 1); some (take (count - 1) xs ++ (x ∷ []))))
    else some xs

unfoldable pub level_entry : ℕ → ℕ → PriceLevel → List LevelEntry
level_entry side t lvl =
    if lvl.head == nil
    then []
    else record {
      side = side_enum side;
      level_tick = t % 2 ^ 32;
      qty_total = lvl.qty_total;
      order_count = lvl.count;
      head = lvl.head;
      tail = lvl.tail;
    }
      ∷ []

unfoldable pub order_entry : ℕ → Order → OrderEntry
order_entry slot o = record {
  slot = slot;
  order_id = o.order_id;
  price = o.price;
  qty = o.qty;
  filled = o.filled;
  side = side_enum o.side;
  next_slot = o.next;
  prev = o.prev;
}

-- `for (t, lvl) in lane.iter().enumerate()`
unfoldable pub lane_entries : ℕ → ℕ → List PriceLevel → List LevelEntry
lane_entries side t [] = []
lane_entries side t (lvl ∷ lvls) = level_entry side t lvl ++ lane_entries side (t + 1) lvls

-- `for t in 0..root.n_levels`
unfoldable pub range_entries : (ℕ → Option PriceLevel) → ℕ → ℕ → ℕ → Option (List LevelEntry)
range_entries level side t zero = some []
range_entries level side t (suc n) = do
  lvl ← level t
  rest ← range_entries level side (t + 1) n
  some (level_entry side t lvl ++ rest)

-- The loop over the slots below `hwm`, on a read of the pool.
unfoldable pub order_entries : (ℕ → Option Order) → ℕ → Option (List OrderEntry)
order_entries read zero = some []
order_entries read (suc n) = do
  xs ← order_entries read n
  o ← read n
  some (xs ++ (order_entry n o ∷ []))

abbrev pub block_of : Book.Book → Block
block_of b = record {
  price_min = b.price_min;
  tick_size = b.tick;
  nl_evels = b.n_levels;
  capacity = length b.pool % 2 ^ 32;
  hwm = b.hwm;
  best_bid = b.best_bid;
  best_ask = b.best_ask;
  free_head = b.free_head;
}

-- The fields of `encode`. The u16 count of the occupied levels wraps.
unfoldable pub image : Book.Book → Option Image
image b =
    let entries = lane_entries 0 0 b.bids ++ lane_entries 1 0 b.asks in
    do
      levels ← grouped (length entries % 2 ^ 16) entries
      slots ← order_entries (get_elem? b.pool) b.hwm
      orders ← grouped (b.hwm % 2 ^ 16) slots
      some (record { block = block_of b; levels = levels; orders = orders })

-- The fields of `encode_root`. The root's chunks are in the arenas of `w`.
unfoldable pub root_image : Root → CowBook → Option Image
root_image r w = do
  bids ← range_entries (root_level r w 0) 0 0 r.n_levels
  asks ← range_entries (root_level r w 1) 1 0 r.n_levels
  levels ← grouped (length (bids ++ asks) % 2 ^ 16) (bids ++ asks)
  slots ← order_entries (root_order r w) r.hwm
  orders ← grouped (r.hwm % 2 ^ 16) slots
  some (record {
    block = record {
      price_min = r.price_min;
      tick_size = r.tick;
      nl_evels = r.n_levels;
      capacity = r.capacity;
      hwm = r.hwm;
      best_bid = r.best_bid;
      best_ask = r.best_ask;
      free_head = r.free_head;
    };
    levels = levels;
    orders = orders;
  })

-- Where the orders' group starts, and the end of the message, which are what the limit has come to.
abbrev pub orders_at : Image → ℕ
orders_at m = 52 + length m.levels * level_length

abbrev pub sbe_len : Image → ℕ
sbe_len m = orders_at m + 4 + length m.orders * order_length

-- The message: the header, the fields, and the two groups with their counts.
unfoldable pub put_image : Image → Write
put_image m =
    put_header
    >=> put_block m.block
    >=> put_group level_length (length m.levels) 48
    >=> put_entries put_level level_length m.levels 52
    >=> put_group order_length (length m.orders) (orders_at m)
    >=> put_entries put_order order_length m.orders (orders_at m + 4)

-- The message and the checksum behind it: the buffer, and the length that is returned.
unfoldable pub put_message : (List ℕ → ℕ) → Image → List ℕ → Option (List ℕ × ℕ)
put_message crc32c m buf = do
  message ← put_image m buf
  out ← put_word_at 4 (sbe_len m) (crc32c (take (sbe_len m) message)) message
  some (out, sbe_len m + 4)

unfoldable pub encode : (List ℕ → ℕ) → Book.Book → List ℕ → Option (List ℕ × ℕ)
encode crc32c b buf = do m ← image b; put_message crc32c m buf

unfoldable pub encode_root : (List ℕ → ℕ) → Root → CowBook → List ℕ → Option (List ℕ × ℕ)
encode_root crc32c r w buf = do m ← root_image r w; put_message crc32c m buf
