-- ===== src/Autobench/Registry/Network.antt =====
-- autobench/src/task_spec.rs: the cells of network-rtt.
use hi_perf_cmp.Prelude.{[], ◌∷◌}
use hi_perf_cmp.Prelude.Text.{codes}
use hi_perf_cmp.Autobench.Verdict.{minimize}
use hi_perf_cmp.Autobench.TaskSpec.{TaskSpec, network}

unfoldable pub rust_network_rtt_tcp : TaskSpec
rust_network_rtt_tcp = record {
  task = codes "rust-network-rtt-tcp";
  language = codes "rust";
  focus_area = codes "network-rtt";
  experiment = codes "tcp";
  kind = network;
  build =
      codes "cargo" ∷ codes "build" ∷ codes "--release" ∷ codes "-p" ∷ codes "network-rtt-tcp" ∷ [];
  build_dir = codes "rust";
  run =
      codes "cargo"
      ∷ codes "run"
      ∷ codes "--release"
      ∷ codes "-q"
      ∷ codes "-p"
      ∷ codes "network-rtt-tcp"
      ∷ [];
  run_dir = codes "rust";
  gate_a = codes "cargo" ∷ codes "test" ∷ [];
  gate_a_dir = codes "rust";
  primary_metric = codes "rtt_p50";
  direction = minimize;
  warmup_env = codes "RTT_WARMUP";
  iters_env = codes "RTT_ITERATIONS";
  extra_env = [];
  expected_metrics = codes "rtt_p50_ns" ∷ codes "rtt_p99_ns" ∷ codes "rtt_mean_ns" ∷ [];
  primary_key = codes "rtt_p50_ns";
}

unfoldable pub go_network_rtt_tcp : TaskSpec
go_network_rtt_tcp = record {
  task = codes "go-network-rtt-tcp";
  language = codes "go";
  focus_area = codes "network-rtt";
  experiment = codes "tcp";
  kind = network;
  build =
      codes "go"
      ∷ codes "build"
      ∷ codes "-o"
      ∷ codes "bin/network-rtt-tcp"
      ∷ codes "./cmd/network-rtt-tcp"
      ∷ [];
  build_dir = codes "go";
  run = codes "./bin/network-rtt-tcp" ∷ [];
  run_dir = codes "go";
  gate_a = codes "go" ∷ codes "test" ∷ codes "./..." ∷ [];
  gate_a_dir = codes "go";
  primary_metric = codes "rtt_p50";
  direction = minimize;
  warmup_env = codes "RTT_WARMUP";
  iters_env = codes "RTT_ITERATIONS";
  extra_env = [];
  expected_metrics = codes "rtt_p50_ns" ∷ codes "rtt_p99_ns" ∷ codes "rtt_mean_ns" ∷ [];
  primary_key = codes "rtt_p50_ns";
}

unfoldable pub java_network_rtt_tcp : TaskSpec
java_network_rtt_tcp = record {
  task = codes "java-network-rtt-tcp";
  language = codes "java";
  focus_area = codes "network-rtt";
  experiment = codes "tcp";
  kind = network;
  build = codes "./gradlew" ∷ codes "--quiet" ∷ codes ":network-rtt-tcp:installDist" ∷ [];
  build_dir = codes "java";
  run = codes "./network-rtt-tcp/build/install/network-rtt-tcp/bin/network-rtt-tcp" ∷ [];
  run_dir = codes "java";
  gate_a =
      codes "./gradlew"
      ∷ codes "--quiet"
      ∷ codes ":network-rtt-tcp:test"
      ∷ codes ":common:test"
      ∷ [];
  gate_a_dir = codes "java";
  primary_metric = codes "rtt_p50";
  direction = minimize;
  warmup_env = codes "RTT_WARMUP";
  iters_env = codes "RTT_ITERATIONS";
  extra_env = [];
  expected_metrics = codes "rtt_p50_ns" ∷ codes "rtt_p99_ns" ∷ codes "rtt_mean_ns" ∷ [];
  primary_key = codes "rtt_p50_ns";
}

unfoldable pub rust_network_rtt_udp : TaskSpec
rust_network_rtt_udp = record {
  task = codes "rust-network-rtt-udp";
  language = codes "rust";
  focus_area = codes "network-rtt";
  experiment = codes "udp";
  kind = network;
  build =
      codes "cargo" ∷ codes "build" ∷ codes "--release" ∷ codes "-p" ∷ codes "network-rtt-udp" ∷ [];
  build_dir = codes "rust";
  run =
      codes "cargo"
      ∷ codes "run"
      ∷ codes "--release"
      ∷ codes "-q"
      ∷ codes "-p"
      ∷ codes "network-rtt-udp"
      ∷ [];
  run_dir = codes "rust";
  gate_a = codes "cargo" ∷ codes "test" ∷ [];
  gate_a_dir = codes "rust";
  primary_metric = codes "rtt_p50";
  direction = minimize;
  warmup_env = codes "RTT_WARMUP";
  iters_env = codes "RTT_ITERATIONS";
  extra_env = [];
  expected_metrics = codes "rtt_p50_ns" ∷ codes "rtt_p99_ns" ∷ codes "rtt_mean_ns" ∷ [];
  primary_key = codes "rtt_p50_ns";
}

unfoldable pub go_network_rtt_udp : TaskSpec
go_network_rtt_udp = record {
  task = codes "go-network-rtt-udp";
  language = codes "go";
  focus_area = codes "network-rtt";
  experiment = codes "udp";
  kind = network;
  build =
      codes "go"
      ∷ codes "build"
      ∷ codes "-o"
      ∷ codes "bin/network-rtt-udp"
      ∷ codes "./cmd/network-rtt-udp"
      ∷ [];
  build_dir = codes "go";
  run = codes "./bin/network-rtt-udp" ∷ [];
  run_dir = codes "go";
  gate_a = codes "go" ∷ codes "test" ∷ codes "./..." ∷ [];
  gate_a_dir = codes "go";
  primary_metric = codes "rtt_p50";
  direction = minimize;
  warmup_env = codes "RTT_WARMUP";
  iters_env = codes "RTT_ITERATIONS";
  extra_env = [];
  expected_metrics = codes "rtt_p50_ns" ∷ codes "rtt_p99_ns" ∷ codes "rtt_mean_ns" ∷ [];
  primary_key = codes "rtt_p50_ns";
}

unfoldable pub java_network_rtt_udp : TaskSpec
java_network_rtt_udp = record {
  task = codes "java-network-rtt-udp";
  language = codes "java";
  focus_area = codes "network-rtt";
  experiment = codes "udp";
  kind = network;
  build = codes "./gradlew" ∷ codes "--quiet" ∷ codes ":network-rtt-udp:installDist" ∷ [];
  build_dir = codes "java";
  run = codes "./network-rtt-udp/build/install/network-rtt-udp/bin/network-rtt-udp" ∷ [];
  run_dir = codes "java";
  gate_a =
      codes "./gradlew"
      ∷ codes "--quiet"
      ∷ codes ":network-rtt-udp:test"
      ∷ codes ":common:test"
      ∷ [];
  gate_a_dir = codes "java";
  primary_metric = codes "rtt_p50";
  direction = minimize;
  warmup_env = codes "RTT_WARMUP";
  iters_env = codes "RTT_ITERATIONS";
  extra_env = [];
  expected_metrics = codes "rtt_p50_ns" ∷ codes "rtt_p99_ns" ∷ codes "rtt_mean_ns" ∷ [];
  primary_key = codes "rtt_p50_ns";
}

unfoldable pub rust_network_rtt_quic : TaskSpec
rust_network_rtt_quic = record {
  task = codes "rust-network-rtt-quic";
  language = codes "rust";
  focus_area = codes "network-rtt";
  experiment = codes "quic";
  kind = network;
  build =
      codes "cargo"
      ∷ codes "build"
      ∷ codes "--release"
      ∷ codes "-p"
      ∷ codes "network-rtt-quic"
      ∷ [];
  build_dir = codes "rust";
  run =
      codes "cargo"
      ∷ codes "run"
      ∷ codes "--release"
      ∷ codes "-q"
      ∷ codes "-p"
      ∷ codes "network-rtt-quic"
      ∷ [];
  run_dir = codes "rust";
  gate_a = codes "cargo" ∷ codes "test" ∷ [];
  gate_a_dir = codes "rust";
  primary_metric = codes "rtt_p50";
  direction = minimize;
  warmup_env = codes "RTT_WARMUP";
  iters_env = codes "RTT_ITERATIONS";
  extra_env = [];
  expected_metrics = codes "rtt_p50_ns" ∷ codes "rtt_p99_ns" ∷ codes "rtt_mean_ns" ∷ [];
  primary_key = codes "rtt_p50_ns";
}

unfoldable pub go_network_rtt_quic : TaskSpec
go_network_rtt_quic = record {
  task = codes "go-network-rtt-quic";
  language = codes "go";
  focus_area = codes "network-rtt";
  experiment = codes "quic";
  kind = network;
  build =
      codes "go"
      ∷ codes "build"
      ∷ codes "-o"
      ∷ codes "bin/network-rtt-quic"
      ∷ codes "./cmd/network-rtt-quic"
      ∷ [];
  build_dir = codes "go";
  run = codes "./bin/network-rtt-quic" ∷ [];
  run_dir = codes "go";
  gate_a = codes "go" ∷ codes "test" ∷ codes "./..." ∷ [];
  gate_a_dir = codes "go";
  primary_metric = codes "rtt_p50";
  direction = minimize;
  warmup_env = codes "RTT_WARMUP";
  iters_env = codes "RTT_ITERATIONS";
  extra_env = [];
  expected_metrics = codes "rtt_p50_ns" ∷ codes "rtt_p99_ns" ∷ codes "rtt_mean_ns" ∷ [];
  primary_key = codes "rtt_p50_ns";
}

unfoldable pub java_network_rtt_quic : TaskSpec
java_network_rtt_quic = record {
  task = codes "java-network-rtt-quic";
  language = codes "java";
  focus_area = codes "network-rtt";
  experiment = codes "quic";
  kind = network;
  build = codes "./gradlew" ∷ codes "--quiet" ∷ codes ":network-rtt-quic:installDist" ∷ [];
  build_dir = codes "java";
  run = codes "./network-rtt-quic/build/install/network-rtt-quic/bin/network-rtt-quic" ∷ [];
  run_dir = codes "java";
  gate_a =
      codes "./gradlew"
      ∷ codes "--quiet"
      ∷ codes ":network-rtt-quic:test"
      ∷ codes ":common:test"
      ∷ [];
  gate_a_dir = codes "java";
  primary_metric = codes "rtt_p50";
  direction = minimize;
  warmup_env = codes "RTT_WARMUP";
  iters_env = codes "RTT_ITERATIONS";
  extra_env = [];
  expected_metrics = codes "rtt_p50_ns" ∷ codes "rtt_p99_ns" ∷ codes "rtt_mean_ns" ∷ [];
  primary_key = codes "rtt_p50_ns";
}
