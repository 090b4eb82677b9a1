-- ===== src/Smr/Workload.antt =====
-- `mod workload` of rust/smr-collections/common/src/book.rs: the derived orders.
pub mod Placement
use hi_perf_cmp.Prelude.{ℕ, ◌+◌, ◌*◌, ◌/◌, ◌%◌, ◌^◌, ◌==◌, if◌then◌else◌}
use hi_perf_cmp.Prelude.Run.{ok, panic, Cmd, pure, ◌>>=◌}
use hi_perf_cmp.Prelude.Word.{add64}
use hi_perf_cmp.Smr.Rng

pub record Insert : Type 0 where
  pub order_id : ℕ  -- i64
  pub price : ℕ  -- i64
  pub qty : ℕ  -- i64
  pub side : ℕ  -- u8

pub record Update : Type 0 where
  pub order_id : ℕ  -- i64
  pub fill_qty : ℕ  -- i64

-- One draw from the generator, whose state is the state of the command.
unfoldable pub draw : Cmd ℕ ℕ
draw s = let (v, s') = Rng.next s in ok v s'

-- `%` by zero panics.
abbrev pub checked_mod : ℕ → ℕ → Cmd ℕ ℕ
checked_mod a b = if b == 0 then (λ _. panic) else pure (a % b)

-- The order that two draws stand for.
unfoldable pub insert_at : (r1 r2 t i tick price_min : ℕ) → Insert
insert_at r1 r2 t i tick price_min = record {
  order_id = add64 i 1;
  price = add64 price_min (t * tick % 2 ^ 64);
  qty = 1 + r2 % 1000;
  side = r1 / 2 ^ 32 % 2;
}

unfoldable pub next_insert : (i n_levels tick price_min : ℕ) → Cmd ℕ Insert
next_insert i n_levels tick price_min = do
  r1 ← draw
  r2 ← draw
  t ← checked_mod r1 n_levels
  pure (insert_at r1 r2 t i tick price_min)

unfoldable pub next_update : ℕ → Cmd ℕ Update
next_update n = do
  u ← draw
  k ← checked_mod u n
  pure (record { order_id = add64 k 1; fill_qty = 1 + u / 2 ^ 32 % 100 })
