-- ===== src/Bench/Config.antt =====
-- rust/bench-common/src/config.rs, handoff.rs and fswrite.rs: the configurations of the cells.
pub mod Bounds
use hi_perf_cmp.Prelude.{
  ℕ, ◌^◌, [], ◌∷◌, Option, none, some, Bool, true, false, ◌||◌, if◌then◌else◌,
}
use hi_perf_cmp.Prelude.Text.{Text, codes, same_text}
use hi_perf_cmp.Autobench.Sampling.{trim}
use hi_perf_cmp.Bench.Env.{Env, invalid, no_host, no_dir, Result, good, bad, ◌>>=◌, parse_positive}

pub data Mode : Type 0 where
  loopback : Mode
  server : Mode
  client : Mode

pub record Config : Type 0 where
  pub mode : Mode
  pub host : Option Text
  pub tcp_port : ℕ  -- u16
  pub udp_port : ℕ  -- u16
  pub quic_port : ℕ  -- u16
  pub payload_bytes : ℕ  -- usize
  pub warmup : ℕ  -- usize
  pub iterations : ℕ  -- usize

abbrev pub mode_of : Text → Text → Text → Result Mode
mode_of name raw trimmed =
    if same_text trimmed [] || same_text trimmed (codes "loopback")
    then good loopback
    else if same_text trimmed (codes "server")
    then good server
    else if same_text trimmed (codes "client")
    then good client
    else bad (invalid name trimmed)

unfoldable pub parse_mode : Env → Text → Result Mode
parse_mode env name = elim (env name) [
  | none ↦ good loopback
  | some raw ↦ mode_of name raw (trim raw)
]

unfoldable pub parse_port : Env → Text → ℕ → Result ℕ
parse_port env name default = parse_positive env (2 ^ 16) name default

unfoldable pub parse_usize : Env → Text → ℕ → Result ℕ
parse_usize env name default = parse_positive env (2 ^ 64) name default

-- A text that is not blank.
abbrev pub not_blank : Text → Option Text
not_blank [] = none
not_blank (c ∷ t) = some (c ∷ t)

unfoldable pub text_of : Env → Text → Option Text
text_of env name = elim (env name) [ none ↦ none | some raw ↦ not_blank (trim raw) ]

abbrev pub lacks_host : Mode → Option Text → Bool
lacks_host client none = true
lacks_host client (some h) = false
lacks_host loopback h = false
lacks_host server h = false

unfoldable pub from_env : Env → Result Config
from_env env = do
  mode ← parse_mode env (codes "RTT_MODE")
  tcp_port ← parse_port env (codes "RTT_TCP_PORT") 9100
  udp_port ← parse_port env (codes "RTT_UDP_PORT") 9101
  quic_port ← parse_port env (codes "RTT_QUIC_PORT") 9102
  payload_bytes ← parse_usize env (codes "RTT_PAYLOAD_BYTES") 64
  warmup ← parse_usize env (codes "RTT_WARMUP") 10000
  iterations ← parse_usize env (codes "RTT_ITERATIONS") 100000
  if lacks_host mode (text_of env (codes "RTT_HOST"))
      then bad no_host
      else good (record {
        mode = mode;
        host = text_of env (codes "RTT_HOST");
        tcp_port = tcp_port;
        udp_port = udp_port;
        quic_port = quic_port;
        payload_bytes = payload_bytes;
        warmup = warmup;
        iterations = iterations;
      })

unfoldable pub require_host : Config → Result Text
require_host c = elim c.host [ none ↦ bad no_host | some h ↦ good h ]

pub record HandoffConfig : Type 0 where
  pub warmup : ℕ  -- usize
  pub iterations : ℕ  -- usize
  pub ring_cap : ℕ  -- usize
  pub gap_ns : ℕ  -- u64

unfoldable pub handoff_from_env : Env → Result HandoffConfig
handoff_from_env env = do
  warmup ← parse_usize env (codes "TH_WARMUP") 10000
  iterations ← parse_usize env (codes "TH_ITERATIONS") 100000
  ring_cap ← parse_usize env (codes "TH_RING_CAP") 1024
  gap_ns ← parse_usize env (codes "TH_GAP_NS") 100000
  good (record { warmup = warmup; iterations = iterations; ring_cap = ring_cap; gap_ns = gap_ns })

pub record FsConfig : Type 0 where
  pub dir : Text
  pub entry_bytes : ℕ  -- usize
  pub warmup : ℕ  -- usize
  pub iterations : ℕ  -- usize
  pub batch : ℕ  -- usize

abbrev pub dir_or : Option Text → Result Text
dir_or none = bad no_dir
dir_or (some d) = good d

unfoldable pub fs_from_env : Env → Result FsConfig
fs_from_env env = do
  dir ← dir_or (text_of env (codes "FSW_DIR"))
  entry_bytes ← parse_usize env (codes "FSW_ENTRY_BYTES") 256
  warmup ← parse_usize env (codes "FSW_WARMUP") 5000
  iterations ← parse_usize env (codes "FSW_ITERATIONS") 50000
  batch ← parse_usize env (codes "FSW_BATCH") 32
  good (record {
    dir = dir;
    entry_bytes = entry_bytes;
    warmup = warmup;
    iterations = iterations;
    batch = batch;
  })
