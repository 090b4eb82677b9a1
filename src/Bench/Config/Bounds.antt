-- ===== src/Bench/Config/Bounds.antt =====
-- What the configurations that are accepted promise.
use hi_perf_cmp.Prelude.{ℕ, ◌^◌, ◌<◌, ◌≡◌, refl, arith, false}
use mathlib.Core.Path.{subst}
use hi_perf_cmp.Prelude.Text.{Text, codes}
use hi_perf_cmp.Bench.Env.{Env, Result, good, bad, ◌>>=◌, parse_positive-bounds}
use hi_perf_cmp.Bench.Config.{
  Config, FsConfig, parse_usize, text_of, lacks_host, dir_or, fs_from_env,
}

-- What holds of a result, where there is one.
abbrev Gives : {A : Type 0} → (A → Type 0) → Result A → Type 0
Gives P (good a) = P a
Gives P (bad e) = Unit {0}

bind-Gives :
    {A B : Type 0} (P : B → Type 0) (m : Result A) (k : A → Result B)
    → ((a : A) → m ≡ good a → Gives P (k a))
    → Gives P (m >>= k)
bind-Gives P (good a) k next = next a refl
bind-Gives P (bad e) k next = tt

given : {A : Type 0} (P : A → Type 0) (m : Result A) (a : A) → Gives P m → m ≡ good a → P a
given P (good b) a w e = let q : b ≡ a = cc in subst P (q) w
given P (bad x) a w e = cc

abbrev pub IsPort : ℕ → Type 0
IsPort n = (0 < n) × (n < 2 ^ 16)

abbrev pub IsCount : ℕ → Type 0
IsCount n = (0 < n) × (n < 2 ^ 64)

pub record IsChecked (c : Config) : Type 0 where
  pub tcp : IsPort c.tcp_port
  pub udp : IsPort c.udp_port
  pub quic : IsPort c.quic_port
  pub payload : IsCount c.payload_bytes
  pub warmup : IsCount c.warmup
  pub iterations : IsCount c.iterations
  pub host : lacks_host c.mode c.host ≡ false

count :
    (env : Env) (name : Text) (default : ℕ) {v : ℕ}
    → IsCount default
    → parse_usize env name default ≡ good v
    → IsCount v
unfolding parse_usize
count env name default d e = parse_positive-bounds env (2 ^ 64) name default d.0 d.1 e

pub record IsAppend (c : FsConfig) : Type 0 where
  pub entry_bytes : IsCount c.entry_bytes
  pub warmup : IsCount c.warmup
  pub iterations : IsCount c.iterations
  pub batch : IsCount c.batch

fs_accepted : (env : Env) → Gives IsAppend (fs_from_env env)
unfolding fs_from_env
fs_accepted env = bind-Gives IsAppend (dir_or (text_of env (codes "FSW_DIR"))) _ λ dir e0.
    bind-Gives IsAppend (parse_usize env (codes "FSW_ENTRY_BYTES") 256) _ λ entry e1.
      bind-Gives IsAppend (parse_usize env (codes "FSW_WARMUP") 5000) _ λ warmup e2.
        bind-Gives IsAppend (parse_usize env (codes "FSW_ITERATIONS") 50000) _ λ iterations e3.
          bind-Gives IsAppend (parse_usize env (codes "FSW_BATCH") 32) _ λ batch e4. record {
            entry_bytes = count env (codes "FSW_ENTRY_BYTES") 256 (omega arith) e1;
            warmup = count env (codes "FSW_WARMUP") 5000 (omega arith) e2;
            iterations = count env (codes "FSW_ITERATIONS") 50000 (omega arith) e3;
            batch = count env (codes "FSW_BATCH") 32 (omega arith) e4;
          }

pub fs_from_env-IsAppend : (env : Env) (c : FsConfig) → fs_from_env env ≡ good c → IsAppend c
fs_from_env-IsAppend env c e = given IsAppend (fs_from_env env) c (fs_accepted env) e
