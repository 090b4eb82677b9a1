-- ===== src/Smr/Book.antt =====
-- rust/smr-collections/common/src/book.rs: the flat limit order book. A method is a command over
-- the book; `panic` is an index out of range, a failed `expect`, an exhausted pool or a division
-- that traps.
mod Tests
pub mod View
pub mod Vacant
pub mod Totals
pub mod Access
pub mod Insert
pub mod InsertRuns
pub mod Arrivals
pub mod Scan
pub mod Best
pub mod Repair
pub mod RemoveRuns
pub mod Levels
pub mod Departures
pub mod Updates
pub mod Full
pub mod Fresh
pub mod Remove
use hi_perf_cmp.Prelude.{
  ℕ, zero, suc, ◌+◌, ◌-◌, ◌%◌, ◌^◌, ◌&&◌, ◌||◌, not, List, ◌==◌, if◌then◌else◌, length, get_elem?,
  set, replicate,
}
use hi_perf_cmp.Prelude.Run.{panic, Cmd, pure, and_then, ◌>>=◌, ◌>>◌, gets, modify, unwrap, skip}
use hi_perf_cmp.Prelude.Word.{add32, sub32, add64, sub64, lt_i32, min_i64, minus_one_i32, div_i64}
use hi_perf_cmp.Smr.Level.{
  nil, Order, PriceLevel, empty_level, zero_order, SmrConfig, IdMap, no_ids, put_id, remove_id,
}

pub record Book : Type 0 where
  pub price_min : ℕ  -- i64
  pub tick : ℕ  -- i64
  pub n_levels : ℕ  -- u32
  pub bids : List PriceLevel
  pub asks : List PriceLevel
  pub pool : List Order
  pub hwm : ℕ  -- u32
  pub best_bid : ℕ  -- i32
  pub best_ask : ℕ  -- i32
  pub idmap : IdMap
  pub free_head : ℕ  -- u32

-- `Book::new`
unfoldable pub new : SmrConfig → Book
new cfg = record {
  price_min = cfg.price_min;
  tick = cfg.tick;
  n_levels = cfg.levels;
  bids = replicate cfg.levels empty_level;
  asks = replicate cfg.levels empty_level;
  pool = replicate cfg.cap zero_order;
  hwm = 0;
  best_bid = minus_one_i32;
  best_ask = minus_one_i32;
  idmap = no_ids;
  free_head = nil;
}

unfoldable pub tick_of : ℕ → Cmd Book ℕ
tick_of price = do
  min ← gets (λ b. b.price_min)
  tick ← gets (λ b. b.tick)
  q ← unwrap (div_i64 (sub64 price min) tick)
  pure (q % 2 ^ 32)

-- `self.pool[slot]`, read and written through
unfoldable pub order : ℕ → Cmd Book Order
order slot b = unwrap (get_elem? b.pool slot) b

unfoldable pub order_mut : ℕ → (Order → Order) → Cmd Book (Unit {0})
order_mut slot f b =
    and_then (unwrap (get_elem? b.pool slot) b)
      λ o. modify λ c. record c { pool = set c.pool slot (f o) }

abbrev pub lane : ℕ → Book → List PriceLevel
lane side b = if side == 0 then b.bids else b.asks

-- `self.lane(side)[t]`, read and written through
unfoldable pub level : ℕ → ℕ → Cmd Book PriceLevel
level side t b = unwrap (get_elem? (lane side b) t) b

unfoldable pub level_mut : ℕ → ℕ → (PriceLevel → PriceLevel) → Cmd Book (Unit {0})
level_mut side t f b = and_then (unwrap (get_elem? (lane side b) t) b) λ l. modify λ c.
    if side == 0
    then record c { bids = set c.bids t (f l) }
    else record c { asks = set c.asks t (f l) }

unfoldable pub alloc_slot : Cmd Book ℕ
alloc_slot = do
  head ← gets (λ b. b.free_head)
  if not (head == nil)
      then (do o ← order head; modify (λ b. record b { free_head = o.next }); pure head)
      else (do
        slot ← gets (λ b. b.hwm)
        cap ← gets (λ b. length b.pool)
        if slot == cap
            then (λ _. panic)
            else (do modify (λ b. record b { hwm = add32 b.hwm 1 }); pure slot))

unfoldable pub free_slot : ℕ → Cmd Book (Unit {0})
free_slot slot = do
  head ← gets (λ b. b.free_head)
  order_mut slot (λ o. record o { order_id = 0; next = head; prev = nil })
  modify (λ b. record b { free_head = slot })

-- The end of `insert`: the cached best prices.
unfoldable pub raise_best : ℕ → ℕ → Cmd Book (Unit {0})
raise_best side t = do
  bid ← gets (λ b. b.best_bid)
  (if (side == 0) && (lt_i32 bid 0 || lt_i32 bid t)
      then modify (λ b. record b { best_bid = t })
      else skip)
  ask ← gets (λ b. b.best_ask)
  if (side == 1) && (lt_i32 ask 0 || lt_i32 t ask)
      then modify (λ b. record b { best_ask = t })
      else skip

unfoldable pub insert : ℕ → ℕ → ℕ → ℕ → Cmd Book (Unit {0})
insert order_id price qty side = do
  t ← tick_of price
  slot ← alloc_slot
  l ← level side t
  let prev_tail = l.tail
  order_mut slot (λ _. record {
    order_id = order_id;
    price = price;
    qty = qty;
    filled = 0;
    next = nil;
    prev = prev_tail;
    side = side;
  })
  level_mut side t (λ lvl. record {
    head = if lvl.tail == nil then slot else lvl.head;
    tail = slot;
    qty_total = add64 lvl.qty_total qty;
    count = add32 lvl.count 1;
  })
  (if not (prev_tail == nil) then order_mut prev_tail (λ o. record o { next = slot }) else skip)
  modify (λ b. record b { idmap = put_id b.idmap order_id slot })
  raise_best side t

unfoldable pub update : ℕ → ℕ → Cmd Book (Unit {0})
update order_id fill_qty = do
  id ← gets (λ b. b.idmap order_id)
  slot ← unwrap id
  o ← order slot
  let add = min_i64 fill_qty (sub64 o.qty o.filled)
  order_mut slot (λ p. record p { filled = add64 p.filled add })
  t ← tick_of o.price
  level_mut o.side t (λ lvl. record lvl { qty_total = sub64 lvl.qty_total add })

-- `get_slot`, `level_qty`
unfoldable pub get_slot : ℕ → Cmd Book ℕ
get_slot order_id = do id ← gets (λ b. b.idmap order_id); unwrap id

unfoldable pub level_qty : ℕ → ℕ → Cmd Book ℕ
level_qty side t = do l ← level side t; pure l.qty_total

unfoldable pub unlink : ℕ → ℕ → ℕ → ℕ → Cmd Book (Unit {0})
unlink slot side t rem = do
  o ← order slot
  (if not (o.prev == nil) then order_mut o.prev (λ p. record p { next = o.next }) else skip)
  (if not (o.next == nil) then order_mut o.next (λ n. record n { prev = o.prev }) else skip)
  level_mut side t (λ lvl. record {
    head = if lvl.head == slot then o.next else lvl.head;
    tail = if lvl.tail == slot then o.prev else lvl.tail;
    qty_total = sub64 lvl.qty_total rem;
    count = sub32 lvl.count 1;
  })

-- The scan of `for i in (0..=t).rev()` over the bids, and of `for i in t..n_levels` over the
-- asks, `rounds` levels long. Both return the first level with an order in it, or -1.
unfoldable pub scan_down : ℕ → Cmd Book ℕ
scan_down zero = do l ← level 0 0; pure (if not (l.head == nil) then 0 else minus_one_i32)
scan_down (suc i) = do
  l ← level 0 (suc i)
  if not (l.head == nil) then pure (suc i % 2 ^ 32) else scan_down i

unfoldable pub scan_up : ℕ → ℕ → Cmd Book ℕ
scan_up zero i = pure minus_one_i32
scan_up (suc rounds) i = do
  l ← level 1 i
  if not (l.head == nil) then pure (i % 2 ^ 32) else scan_up rounds (i + 1)

-- `best != t || level.head != NIL` returns early, and the level is read only if the first fails.
unfoldable pub repair_best : ℕ → ℕ → Cmd Book (Unit {0})
repair_best side t =
    if side == 0
    then (do
      best ← gets (λ b. b.best_bid)
      if not (best == t) then skip else (do
        l ← level 0 t
        if not (l.head == nil)
            then skip
            else (do nb ← scan_down t; modify (λ b. record b { best_bid = nb }))))
    else (do
      best ← gets (λ b. b.best_ask)
      if not (best == t) then skip else (do
        l ← level 1 t
        if not (l.head == nil) then skip else (do
          n ← gets (λ b. b.n_levels)
          na ← scan_up (n - t) t
          modify (λ b. record b { best_ask = na }))))

-- The common end of `cancel` and `fill`.
unfoldable pub remove_order : ℕ → ℕ → ℕ → ℕ → Cmd Book (Unit {0})
remove_order slot side price rem = do
  t ← tick_of price
  unlink slot side t rem
  free_slot slot
  repair_best side t

-- `self.idmap.remove(&order_id).expect(..)`
unfoldable pub take_id : ℕ → Cmd Book ℕ
take_id order_id = do
  id ← gets (λ b. b.idmap order_id)
  slot ← unwrap id
  modify (λ b. record b { idmap = remove_id b.idmap order_id })
  pure slot

unfoldable pub cancel : ℕ → Cmd Book (Unit {0})
cancel order_id = do
  slot ← take_id order_id
  o ← order slot
  remove_order slot o.side o.price (sub64 o.qty o.filled)

unfoldable pub fill : ℕ → Cmd Book (Unit {0})
fill order_id = do
  slot ← take_id order_id
  o ← order slot
  order_mut slot (λ p. record p { filled = p.qty })
  remove_order slot o.side o.price (sub64 o.qty o.filled)
