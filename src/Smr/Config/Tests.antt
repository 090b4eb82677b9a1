-- ===== src/Smr/Config/Tests.antt =====
-- The configuration of an empty environment.
use hi_perf_cmp.Prelude.{◌<◌, refl, false}
use hi_perf_cmp.Smr.Level.{SmrConfig}
use hi_perf_cmp.Smr.Config.{
  Env, unset, checked, parse_usize, parse_usize_allow_zero, parse_i64, from_env,
}
use hi_perf_cmp.Smr.Config.Bounds.{InBounds, from_env-InBounds}

abbrev empty_env : Env
empty_env = record { as_usize = λ _. unset; as_i64 = λ _. unset; multi_table = false }

abbrev defaults : SmrConfig
defaults = record {
  cap = 262144;
  levels = 1024;
  tick = 1;
  price_min = 0;
  steady = 60000;
  warmup = 10000;
  iters = 100000;
  chunk = 4096;
  apply_batch = 64;
  multi_table = false;
  live_iters = 200000;
  snap_every = 20000;
  otr_bps = 100;
}

from_env-InBounds_example : InBounds defaults × (0 < 262144) × (0 < 4096)
unfolding from_env checked parse_usize parse_usize_allow_zero parse_i64
from_env-InBounds_example = from_env-InBounds empty_env defaults refl
