-- ===== src/Smr/Config.antt =====
-- rust/bench-common/src/smrcoll.rs: the configuration of the smr-collections cells, from the
-- environment. Trimming and parsing of a variable's text are the standard library's: a variable is
-- unset, or has a text that parses to a word or does not.
pub mod Bounds
mod Tests
use hi_perf_cmp.Prelude.{ℕ, ◌+◌, ◌%◌, ◌^◌, Bool, true, ltb, ◌==◌, ◌||◌, if◌then◌else◌}
use hi_perf_cmp.Prelude.Word.{is_negative_i64}
use hi_perf_cmp.Smr.Level.{SmrConfig}

pub data Var : Type 0 where
  smrc_cap smrc_levels smrc_tick smrc_price_min smrc_steady smrc_warmup smrc_iters : Var
  smrc_chunk smrc_apply_batch smrc_live_iters smrc_snap_every smrc_otr_bps : Var

-- A text that is no integer reads as `text`.
pub data Reading : Type 0 where
  unset : Reading
  text : Reading
  word : ℕ → Reading

pub record Env : Type 0 where
  pub as_usize : Var → Reading
  pub as_i64 : Var → Reading
  pub multi_table : Bool  -- SMRC_MULTI_TABLE is 1 or true

pub data Error : Type 0 where
  not_an_integer : Var → Error
  not_positive : Var → Error
  out_of_range : Var → Error

pub data Result (A : Type 0) : Type 0 where
  good : A → Result A
  bad : Error → Result A

infixl 5 ◌>>=◌
abbrev pub ◌>>=◌ : {A B : Type 0} → Result A → (A → Result B) → Result B
◌>>=◌ (good a) k = k a
◌>>=◌ (bad e) k = bad e

abbrev pub usize_reading : Var → ℕ → Reading → Result ℕ
usize_reading key default unset = good default
usize_reading key default text = bad (not_an_integer key)
usize_reading key default (word v) = if v == 0 then bad (not_positive key) else good v

abbrev pub word_reading : Var → ℕ → Reading → Result ℕ
word_reading key default unset = good default
word_reading key default text = bad (not_an_integer key)
word_reading key default (word v) = good v

unfoldable pub parse_usize : Env → Var → ℕ → Result ℕ
parse_usize env key default = usize_reading key default (env.as_usize key)

unfoldable pub parse_usize_allow_zero : Env → Var → ℕ → Result ℕ
parse_usize_allow_zero env key default = word_reading key default (env.as_usize key)

unfoldable pub parse_i64 : Env → Var → ℕ → Result ℕ
parse_i64 env key default = word_reading key default (env.as_i64 key)

-- The checks of `from_env`, in their order.
unfoldable pub checked : SmrConfig → Result SmrConfig
checked c =
    if (c.tick == 0) || is_negative_i64 c.tick
    then bad (out_of_range smrc_tick)
    else if (c.levels == 0) || ltb 65535 c.levels
    then bad (out_of_range smrc_levels)
    else if ltb c.cap c.steady || ltb 65535 c.steady
    then bad (out_of_range smrc_steady)
    else if ltb 10000 c.otr_bps
    then bad (out_of_range smrc_otr_bps)
    else if ltb c.cap c.chunk
    then bad (out_of_range smrc_chunk)
    else if (c.apply_batch == 0) || ltb c.iters c.apply_batch
    then bad (out_of_range smrc_apply_batch)
    else if ltb c.live_iters c.snap_every
    then bad (out_of_range smrc_snap_every)
    else good c

unfoldable pub from_env : Env → Result SmrConfig
from_env env = do
  cap ← parse_usize env smrc_cap 262144
  levels ← parse_usize env smrc_levels 1024
  tick ← parse_i64 env smrc_tick 1
  price_min ← parse_i64 env smrc_price_min 0
  steady ← parse_usize env smrc_steady 60000
  warmup ← parse_usize env smrc_warmup 10000
  iters ← parse_usize env smrc_iters 100000
  chunk ← parse_usize env smrc_chunk 4096
  apply_batch ← parse_usize env smrc_apply_batch 64
  live_iters ← parse_usize env smrc_live_iters 200000
  snap_every ← parse_usize env smrc_snap_every 20000
  otr_bps ← parse_usize_allow_zero env smrc_otr_bps 100
  checked (record {
    cap = cap;
    levels = levels % 2 ^ 32;
    tick = tick;
    price_min = price_min;
    steady = steady;
    warmup = warmup;
    iters = iters;
    chunk = chunk;
    apply_batch = apply_batch;
    multi_table = env.multi_table;
    live_iters = live_iters;
    snap_every = snap_every;
    otr_bps = otr_bps;
  })

unfoldable pub require_bump_capacity : SmrConfig → Result (Unit {0})
require_bump_capacity c =
    if ltb c.cap ((c.warmup + c.iters) % 2 ^ 64) then bad (out_of_range smrc_cap) else good tt
