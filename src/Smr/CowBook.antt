-- ===== src/Smr/CowBook.antt =====
-- rust/smr-collections/common/src/cowbook.rs: the copy-on-write book, and the roots it captures.
-- The three chunk tables keep their allocations apart, since no `Arc` is ever moved from one table
-- to another. `panic` is as in the flat book.
pub mod History
use hi_perf_cmp.Prelude.{
  ℕ, zero, suc, ◌+◌, ◌-◌, ◌*◌, ◌/◌, ◌%◌, ◌^◌, ◌&&◌, ◌||◌, not, List, [], ◌∷◌, Option, none, some,
  ◌==◌, if◌then◌else◌, replicate, ltb,
}
use hi_perf_cmp.Prelude.Run.{
  ok, panic, Cmd, pure, and_then, ◌>>=◌, ◌>>◌, gets, modify, unwrap, skip,
}
use hi_perf_cmp.Prelude.Word.{add32, sub32, add64, sub64, lt_i32, min_i64, minus_one_i32, div_i64}
use hi_perf_cmp.Smr.Level.{
  nil, Order, PriceLevel, empty_level, zero_order, SmrConfig, IdMap, no_ids, put_id, remove_id,
}
use hi_perf_cmp.Smr.Chunks
use hi_perf_cmp.Smr.Chunks.{Chunk, Chunks, read, read_table}

-- `LEVEL_CHUNK`
abbrev pub level_chunk : ℕ
level_chunk = 256

pub record CowBook : Type 0 where
  pub price_min : ℕ  -- i64
  pub tick : ℕ  -- i64
  pub n_levels : ℕ  -- u32
  pub capacity : ℕ  -- u32
  pub chunk : ℕ  -- usize
  pub gen : ℕ  -- u64
  pub order_chunks : Chunks Order
  pub bid_chunks : Chunks PriceLevel
  pub ask_chunks : Chunks PriceLevel
  pub hwm : ℕ  -- u32
  pub best_bid : ℕ  -- i32
  pub best_ask : ℕ  -- i32
  pub free_head : ℕ  -- u32
  pub idmap : IdMap

-- A captured view: copies of the tables, and scalars.
pub record Root : Type 0 where
  pub price_min : ℕ
  pub tick : ℕ
  pub n_levels : ℕ
  pub capacity : ℕ
  pub hwm : ℕ
  pub best_bid : ℕ
  pub best_ask : ℕ
  pub chunk : ℕ
  pub free_head : ℕ
  pub order_chunks : List ℕ
  pub bid_chunks : List ℕ
  pub ask_chunks : List ℕ

-- `Root::order`, `Root::level`: the chunks that the root's `Arc`s point to stand in the memory `b`.
unfoldable pub root_order : Root → CowBook → ℕ → Option Order
root_order r b slot = read_table r.chunk b.order_chunks.heap r.order_chunks slot

unfoldable pub root_level : Root → CowBook → ℕ → ℕ → Option PriceLevel
root_level r b side t =
    if side == 0
    then read_table level_chunk b.bid_chunks.heap r.bid_chunks t
    else read_table level_chunk b.ask_chunks.heap r.ask_chunks t

-- `n.div_ceil(size)`
abbrev pub div_ceil : ℕ → ℕ → ℕ
div_ceil n size = if n % size == 0 then n / size else n / size + 1

-- Fresh chunks for `n` items: chunk `ci` has address `ci` and `min(size, n - ci * size)` items.
unfoldable pub new_chunk : {A : Type 0} → ℕ → ℕ → A → ℕ → Chunk A
new_chunk size n item ci = record {
  born = 1;
  items = replicate (if ltb size (n - ci * size) then size else n - ci * size) item;
}

abbrev pub addresses : ℕ → ℕ → List ℕ
addresses zero i = []
addresses (suc k) i = i ∷ addresses k (i + 1)

unfoldable pub new_chunks : {A : Type 0} → ℕ → ℕ → A → Chunks A
new_chunks size n item = record {
  heap = new_chunk size n item;
  fresh = div_ceil n size;
  table = addresses (div_ceil n size) 0;
}

abbrev pub new_book : SmrConfig → CowBook
new_book cfg = record {
  price_min = cfg.price_min;
  tick = cfg.tick;
  n_levels = cfg.levels;
  capacity = cfg.cap % 2 ^ 32;
  chunk = cfg.chunk;
  gen = 1;
  order_chunks = new_chunks cfg.chunk cfg.cap zero_order;
  bid_chunks = new_chunks level_chunk cfg.levels empty_level;
  ask_chunks = new_chunks level_chunk cfg.levels empty_level;
  hwm = 0;
  best_bid = minus_one_i32;
  best_ask = minus_one_i32;
  free_head = nil;
  idmap = no_ids;
}

-- `CowBook::new`; `div_ceil` panics where the chunk size is zero.
unfoldable pub new : SmrConfig → Option CowBook
new cfg = if cfg.chunk == 0 then none else some (new_book cfg)

unfoldable pub tick_of : ℕ → Cmd CowBook ℕ
tick_of price = do
  min ← gets (λ b. b.price_min)
  tick ← gets (λ b. b.tick)
  q ← unwrap (div_i64 (sub64 price min) tick)
  pure (q % 2 ^ 32)

unfoldable pub order : ℕ → Cmd CowBook Order
order slot b = unwrap (read b.chunk b.order_chunks slot) b

abbrev pub lane : ℕ → CowBook → Chunks PriceLevel
lane side b = if side == 0 then b.bid_chunks else b.ask_chunks

unfoldable pub level : ℕ → ℕ → Cmd CowBook PriceLevel
level side t b = unwrap (read level_chunk (lane side b) t) b

-- The writes through `order_mut` and `level_mut`, with the copy that they make first. The debug
-- assertions on reference counts are not in a release build.
unfoldable pub order_mut : ℕ → (Order → Order) → Cmd CowBook (Unit {0})
order_mut slot f b =
    and_then (unwrap (Chunks.modify b.chunk b.gen b.order_chunks slot f) b)
      λ c. modify λ b. record b { order_chunks = c }

unfoldable pub level_mut : ℕ → ℕ → (PriceLevel → PriceLevel) → Cmd CowBook (Unit {0})
level_mut side t f b =
    and_then (unwrap (Chunks.modify level_chunk b.gen (lane side b) t f) b) λ c.
      modify λ b. if side == 0 then record b { bid_chunks = c } else record b { ask_chunks = c }

unfoldable pub alloc_slot : Cmd CowBook ℕ
alloc_slot = do
  head ← gets (λ b. b.free_head)
  if not (head == nil)
      then (do o ← order head; modify (λ b. record b { free_head = o.next }); pure head)
      else (do
        slot ← gets (λ b. b.hwm)
        cap ← gets (λ b. b.capacity)
        if slot == cap
            then (λ _. panic)
            else (do modify (λ b. record b { hwm = add32 b.hwm 1 }); pure slot))

unfoldable pub free_slot : ℕ → Cmd CowBook (Unit {0})
free_slot slot = do
  head ← gets (λ b. b.free_head)
  order_mut slot (λ o. record o { order_id = 0; next = head; prev = nil })
  modify (λ b. record b { free_head = slot })

-- The end of `insert`: the cached best prices.
unfoldable pub raise_best : ℕ → ℕ → Cmd CowBook (Unit {0})
raise_best side t = do
  bid ← gets (λ b. b.best_bid)
  (if (side == 0) && (lt_i32 bid 0 || lt_i32 bid t)
      then modify (λ b. record b { best_bid = t })
      else skip)
  ask ← gets (λ b. b.best_ask)
  if (side == 1) && (lt_i32 ask 0 || lt_i32 t ask)
      then modify (λ b. record b { best_ask = t })
      else skip

unfoldable pub insert : ℕ → ℕ → ℕ → ℕ → Cmd CowBook (Unit {0})
insert order_id price qty side = do
  t ← tick_of price
  slot ← alloc_slot
  l ← level side t
  let prev_tail = l.tail
  order_mut slot (λ _. record {
    order_id = order_id;
    price = price;
    qty = qty;
    filled = 0;
    next = nil;
    prev = prev_tail;
    side = side;
  })
  level_mut side t (λ lvl. record {
    head = if lvl.tail == nil then slot else lvl.head;
    tail = slot;
    qty_total = add64 lvl.qty_total qty;
    count = add32 lvl.count 1;
  })
  (if not (prev_tail == nil) then order_mut prev_tail (λ o. record o { next = slot }) else skip)
  modify (λ b. record b { idmap = put_id b.idmap order_id slot })
  raise_best side t

unfoldable pub update : ℕ → ℕ → Cmd CowBook (Unit {0})
update order_id fill_qty = do
  id ← gets (λ b. b.idmap order_id)
  slot ← unwrap id
  o ← order slot
  let add = min_i64 fill_qty (sub64 o.qty o.filled)
  order_mut slot (λ p. record p { filled = add64 p.filled add })
  t ← tick_of o.price
  level_mut o.side t (λ lvl. record lvl { qty_total = sub64 lvl.qty_total add })

-- `get_slot`, `level_qty`
unfoldable pub get_slot : ℕ → Cmd CowBook ℕ
get_slot order_id = do id ← gets (λ b. b.idmap order_id); unwrap id

unfoldable pub level_qty : ℕ → ℕ → Cmd CowBook ℕ
level_qty side t = do l ← level side t; pure l.qty_total

unfoldable pub unlink : ℕ → ℕ → ℕ → ℕ → Cmd CowBook (Unit {0})
unlink slot side t rem = do
  o ← order slot
  (if not (o.prev == nil) then order_mut o.prev (λ p. record p { next = o.next }) else skip)
  (if not (o.next == nil) then order_mut o.next (λ n. record n { prev = o.prev }) else skip)
  level_mut side t (λ lvl. record {
    head = if lvl.head == slot then o.next else lvl.head;
    tail = if lvl.tail == slot then o.prev else lvl.tail;
    qty_total = sub64 lvl.qty_total rem;
    count = sub32 lvl.count 1;
  })

-- The scan of `for i in (0..=t).rev()` over the bids, and of `for i in t..n_levels` over the
-- asks, `rounds` levels long. Both return the first level with an order in it, or -1.
unfoldable pub scan_down : ℕ → Cmd CowBook ℕ
scan_down zero = do l ← level 0 0; pure (if not (l.head == nil) then 0 else minus_one_i32)
scan_down (suc i) = do
  l ← level 0 (suc i)
  if not (l.head == nil) then pure (suc i % 2 ^ 32) else scan_down i

unfoldable pub scan_up : ℕ → ℕ → Cmd CowBook ℕ
scan_up zero i = pure minus_one_i32
scan_up (suc rounds) i = do
  l ← level 1 i
  if not (l.head == nil) then pure (i % 2 ^ 32) else scan_up rounds (i + 1)

-- `best != t || level.head != NIL` returns early, and the level is read only if the first fails.
unfoldable pub repair_best : ℕ → ℕ → Cmd CowBook (Unit {0})
repair_best side t =
    if side == 0
    then (do
      best ← gets (λ b. b.best_bid)
      if not (best == t) then skip else (do
        l ← level 0 t
        if not (l.head == nil)
            then skip
            else (do nb ← scan_down t; modify (λ b. record b { best_bid = nb }))))
    else (do
      best ← gets (λ b. b.best_ask)
      if not (best == t) then skip else (do
        l ← level 1 t
        if not (l.head == nil) then skip else (do
          n ← gets (λ b. b.n_levels)
          na ← scan_up (n - t) t
          modify (λ b. record b { best_ask = na }))))

-- The common end of `cancel` and `fill`.
unfoldable pub remove_order : ℕ → ℕ → ℕ → ℕ → Cmd CowBook (Unit {0})
remove_order slot side price rem = do
  t ← tick_of price
  unlink slot side t rem
  free_slot slot
  repair_best side t

-- `self.idmap.remove(&order_id).expect(..)`
unfoldable pub take_id : ℕ → Cmd CowBook ℕ
take_id order_id = do
  id ← gets (λ b. b.idmap order_id)
  slot ← unwrap id
  modify (λ b. record b { idmap = remove_id b.idmap order_id })
  pure slot

unfoldable pub cancel : ℕ → Cmd CowBook (Unit {0})
cancel order_id = do
  slot ← take_id order_id
  o ← order slot
  remove_order slot o.side o.price (sub64 o.qty o.filled)

unfoldable pub fill : ℕ → Cmd CowBook (Unit {0})
fill order_id = do
  slot ← take_id order_id
  o ← order slot
  order_mut slot (λ p. record p { filled = p.qty })
  remove_order slot o.side o.price (sub64 o.qty o.filled)

abbrev pub root_of : CowBook → Root
root_of b = record {
  price_min = b.price_min;
  tick = b.tick;
  n_levels = b.n_levels;
  capacity = b.capacity;
  hwm = b.hwm;
  best_bid = b.best_bid;
  best_ask = b.best_ask;
  chunk = b.chunk;
  free_head = b.free_head;
  order_chunks = b.order_chunks.table;
  bid_chunks = b.bid_chunks.table;
  ask_chunks = b.ask_chunks.table;
}

unfoldable pub capture : Cmd CowBook Root
capture b = ok (root_of b) (record b { gen = add64 b.gen 1 })
