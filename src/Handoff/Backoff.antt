-- ===== src/Handoff/Backoff.antt =====
-- rust/thread-handoff/backoff/src/idle.rs: the spin, yield, park ladder. The parker is injected
-- there; here a call of it is an action that `idle` returns.
pub mod Ladder
use hi_perf_cmp.Prelude.{ℕ, ◌+◌, ◌*◌, ◌%◌, ◌^◌, ltb, if◌then◌else◌}

abbrev pub max_spins : ℕ
max_spins = 10

abbrev pub max_yields : ℕ
max_yields = 20

abbrev pub min_park_ns : ℕ
min_park_ns = 1000

abbrev pub max_park_ns : ℕ
max_park_ns = 1000000

pub record Backoff : Type 0 where
  pub spins : ℕ  -- u32
  pub yields : ℕ  -- u32
  pub park_ns : ℕ  -- u64

unfoldable pub with_parker : Backoff
with_parker = record { spins = 0; yields = 0; park_ns = min_park_ns }

-- What a call of `idle` does to the thread.
pub data Action : Type 0 where
  returns : Action
  spins : Action
  yields : Action
  parks : ℕ → Action

abbrev pub min : ℕ → ℕ → ℕ
min a b = if ltb a b then a else b

unfoldable pub idle : ℕ → Backoff → Action × Backoff
idle work_count b =
    if ltb 0 work_count
    then (returns, record b { spins = 0; yields = 0; park_ns = min_park_ns })
    else if ltb b.spins max_spins
    then (spins, record b { spins = (b.spins + 1) % 2 ^ 32 })
    else if ltb b.yields max_yields
    then (yields, record b { yields = (b.yields + 1) % 2 ^ 32 })
    else (parks b.park_ns, record b { park_ns = min (b.park_ns * 2 % 2 ^ 64) max_park_ns })
