-- ===== src/Smr/Level.antt =====
-- The plain data of rust/smr-collections/common/src/book.rs, shared by both books, and the
-- id-map. `SmrConfig` is that of rust/bench-common/src/smrcoll.rs.
use hi_perf_cmp.Prelude.{ℕ, ◌-◌, ◌^◌, Bool, Option, none, some, ◌==◌, if◌then◌else◌}

-- `NIL = u32::MAX`
abbrev pub nil : ℕ
nil = 2 ^ 32 - 1

pub record Order : Type 0 where
  pub order_id : ℕ  -- i64
  pub price : ℕ  -- i64
  pub qty : ℕ  -- i64
  pub filled : ℕ  -- i64
  pub next : ℕ  -- u32
  pub prev : ℕ  -- u32
  pub side : ℕ  -- u8

pub record PriceLevel : Type 0 where
  pub head : ℕ  -- u32
  pub tail : ℕ  -- u32
  pub qty_total : ℕ  -- i64
  pub count : ℕ  -- u32

abbrev pub empty_level : PriceLevel
empty_level = record { head = nil; tail = nil; qty_total = 0; count = 0 }

-- the order that fills a new pool
abbrev pub zero_order : Order
zero_order = record {
  order_id = 0;
  price = 0;
  qty = 0;
  filled = 0;
  next = nil;
  prev = nil;
  side = 0;
}

pub record SmrConfig : Type 0 where
  pub cap : ℕ  -- usize
  pub levels : ℕ  -- u32
  pub tick : ℕ  -- i64
  pub price_min : ℕ  -- i64
  pub steady : ℕ  -- usize
  pub warmup : ℕ  -- usize
  pub iters : ℕ  -- usize
  pub chunk : ℕ  -- usize
  pub apply_batch : ℕ  -- usize
  pub multi_table : Bool
  pub live_iters : ℕ  -- usize
  pub snap_every : ℕ  -- usize
  pub otr_bps : ℕ  -- u64

-- `HashMap<i64, u32>`: what a lookup returns for each key.
abbrev pub IdMap : Type 0
IdMap = ℕ → Option ℕ

abbrev pub no_ids : IdMap
no_ids k = none

abbrev pub put_id : IdMap → ℕ → ℕ → IdMap
put_id m k v j = if k == j then some v else m j

abbrev pub remove_id : IdMap → ℕ → IdMap
remove_id m k j = if k == j then none else m j
