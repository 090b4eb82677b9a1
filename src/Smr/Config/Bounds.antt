-- ===== src/Smr/Config/Bounds.antt =====
-- What the checks of a configuration grant to the books.
use hi_perf_cmp.Prelude.{ℕ, ◌^◌, ◌<◌, ◌≤◌, ◌≡◌, refl, sym, arith}
use mathlib.Core.Path.{subst}
use hi_perf_cmp.Smr.Level.{SmrConfig}
use hi_perf_cmp.Smr.Config.{
  Env, Var, Reading, unset, text, word, Result, good, bad, usize_reading, parse_usize,
  parse_usize_allow_zero, parse_i64, checked, from_env, ◌>>=◌, smrc_cap, smrc_levels, smrc_tick,
  smrc_price_min, smrc_steady, smrc_warmup, smrc_iters, smrc_chunk, smrc_apply_batch,
  smrc_live_iters, smrc_snap_every, smrc_otr_bps,
}

pub record InBounds (c : SmrConfig) : Type 0 where
  pub tick_pos : 0 < c.tick
  pub tick_fits : c.tick < 2 ^ 63
  pub levels_pos : 0 < c.levels
  pub levels_le : c.levels ≤ 65535
  pub steady_le : c.steady ≤ c.cap
  pub steady_fits : c.steady ≤ 65535
  pub otr_le : c.otr_bps ≤ 10000
  pub chunk_le : c.chunk ≤ c.cap
  pub batch_pos : 0 < c.apply_batch
  pub batch_le : c.apply_batch ≤ c.iters
  pub snap_le : c.snap_every ≤ c.live_iters

checked_lem : (c c' : SmrConfig) → checked c ≡ good c' → (c' ≡ c) × InBounds c
unfolding checked
checked_lem c c' h = (
  ground arith,
  record {
    tick_pos = ground arith;
    tick_fits = ground arith;
    levels_pos = ground arith;
    levels_le = ground arith;
    steady_le = ground arith;
    steady_fits = ground arith;
    otr_le = ground arith;
    chunk_le = ground arith;
    batch_pos = ground arith;
    batch_le = ground arith;
    snap_le = ground arith;
  },
)

-- What holds of a value that is returned.
abbrev Good : {A : Type 0} → (A → Type 0) → Result A → Type 0
Good {A} P r = (a : A) → r ≡ good a → P a

bind-Good :
    {A B : Type 0} {P : A → Type 0} {Q : B → Type 0} (m : Result A) (k : A → Result B)
    → Good P m
    → ((a : A) → P a → Good Q (k a))
    → Good Q (m >>= k)
bind-Good (good a) k h next b e = next a (h a refl) b e
bind-Good (bad x) k h next b e = absurd (ground arith)

usize_reading-Good :
    (key : Var) (default : ℕ) (r : Reading)
    → 0 < default
    → Good (λ v. 0 < v) (usize_reading key default r)
usize_reading-Good key default unset pos v e = ground arith
usize_reading-Good key default text pos v e = ground arith
usize_reading-Good key default (word x) pos v e = ground arith

parse_usize-Good :
    (env : Env) (key : Var) (default : ℕ)
    → 0 < default
    → Good (λ v. 0 < v) (parse_usize env key default)
unfolding parse_usize
parse_usize-Good env key default pos = usize_reading-Good key default (env.as_usize key) pos

abbrev Sound : SmrConfig → Type 0
Sound c = InBounds c × (0 < c.cap) × (0 < c.chunk)

any : {A : Type 0} (r : Result A) → Good (λ _. Unit {0}) r
any r a e = tt

checked-Sound : (c : SmrConfig) → 0 < c.cap → 0 < c.chunk → Good Sound (checked c)
checked-Sound c cap chunk c' h =
    let (same, bounds) = checked_lem c c' h in subst Sound (sym same) (bounds, cap, chunk)

-- A configuration that `from_env` accepts is in the bounds that its checks state, and has a positive
-- capacity and chunk size.
pub from_env-InBounds :
    (env : Env) (c : SmrConfig) → from_env env ≡ good c → InBounds c × (0 < c.cap) × (0 < c.chunk)
unfolding from_env
from_env-InBounds env =
    bind-Good _ _ (parse_usize-Good env smrc_cap 262144 (omega arith)) λ cap pos.
      bind-Good _ _ (any (parse_usize env smrc_levels 1024)) λ levels _.
        bind-Good _ _ (any (parse_i64 env smrc_tick 1)) λ tick _.
          bind-Good _ _ (any (parse_i64 env smrc_price_min 0)) λ price_min _.
            bind-Good _ _ (any (parse_usize env smrc_steady 60000)) λ steady _.
              bind-Good _ _ (any (parse_usize env smrc_warmup 10000)) λ warmup _.
                bind-Good _ _ (any (parse_usize env smrc_iters 100000)) λ iters _.
                  bind-Good _ _ (parse_usize-Good env smrc_chunk 4096 (omega arith))
                    λ chunk some_chunk.
                      bind-Good _ _ (any (parse_usize env smrc_apply_batch 64)) λ batch _.
                        bind-Good _ _ (any (parse_usize env smrc_live_iters 200000)) λ live _.
                          bind-Good _ _ (any (parse_usize env smrc_snap_every 20000)) λ every _.
                            bind-Good _ _ (any (parse_usize_allow_zero env smrc_otr_bps 100))
                              λ otr _. checked-Sound _ pos some_chunk
