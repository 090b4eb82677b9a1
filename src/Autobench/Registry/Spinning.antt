-- ===== src/Autobench/Registry/Spinning.antt =====
-- autobench/src/task_spec.rs: the cells of thread-handoff that spin.
use hi_perf_cmp.Prelude.{[], ◌∷◌}
use hi_perf_cmp.Prelude.Text.{codes}
use hi_perf_cmp.Autobench.Verdict.{minimize, maximize}
use hi_perf_cmp.Autobench.TaskSpec.{TaskSpec, local}

unfoldable pub rust_thread_handoff_spin : TaskSpec
rust_thread_handoff_spin = record {
  task = codes "rust-thread-handoff-spin";
  language = codes "rust";
  focus_area = codes "thread-handoff";
  experiment = codes "spin";
  kind = local;
  build =
      codes "cargo"
      ∷ codes "build"
      ∷ codes "--release"
      ∷ codes "-p"
      ∷ codes "thread-handoff-spin"
      ∷ [];
  build_dir = codes "rust";
  run =
      codes "cargo"
      ∷ codes "run"
      ∷ codes "--release"
      ∷ codes "-q"
      ∷ codes "-p"
      ∷ codes "thread-handoff-spin"
      ∷ [];
  run_dir = codes "rust";
  gate_a = codes "cargo" ∷ codes "test" ∷ [];
  gate_a_dir = codes "rust";
  primary_metric = codes "handoff_rtt_p50";
  direction = minimize;
  warmup_env = codes "TH_WARMUP";
  iters_env = codes "TH_ITERATIONS";
  extra_env = [];
  expected_metrics =
      codes "handoff_rtt_p50_ns" ∷ codes "handoff_rtt_p99_ns" ∷ codes "handoff_rtt_mean_ns" ∷ [];
  primary_key = codes "handoff_rtt_p50_ns";
}

unfoldable pub rust_thread_handoff_ring : TaskSpec
rust_thread_handoff_ring = record {
  task = codes "rust-thread-handoff-ring";
  language = codes "rust";
  focus_area = codes "thread-handoff";
  experiment = codes "ring";
  kind = local;
  build =
      codes "cargo"
      ∷ codes "build"
      ∷ codes "--release"
      ∷ codes "-p"
      ∷ codes "thread-handoff-ring"
      ∷ [];
  build_dir = codes "rust";
  run =
      codes "cargo"
      ∷ codes "run"
      ∷ codes "--release"
      ∷ codes "-q"
      ∷ codes "-p"
      ∷ codes "thread-handoff-ring"
      ∷ [];
  run_dir = codes "rust";
  gate_a = codes "cargo" ∷ codes "test" ∷ [];
  gate_a_dir = codes "rust";
  primary_metric = codes "handoff_throughput";
  direction = maximize;
  warmup_env = codes "TH_WARMUP";
  iters_env = codes "TH_ITERATIONS";
  extra_env = (codes "TH_RING_CAP", codes "1024") ∷ [];
  expected_metrics = codes "handoff_throughput_ops_per_sec" ∷ [];
  primary_key = codes "handoff_throughput_ops_per_sec";
}

unfoldable pub rust_thread_handoff_disruptor : TaskSpec
rust_thread_handoff_disruptor = record {
  task = codes "rust-thread-handoff-disruptor";
  language = codes "rust";
  focus_area = codes "thread-handoff";
  experiment = codes "disruptor";
  kind = local;
  build =
      codes "cargo"
      ∷ codes "build"
      ∷ codes "--release"
      ∷ codes "-p"
      ∷ codes "thread-handoff-disruptor"
      ∷ [];
  build_dir = codes "rust";
  run =
      codes "cargo"
      ∷ codes "run"
      ∷ codes "--release"
      ∷ codes "-q"
      ∷ codes "-p"
      ∷ codes "thread-handoff-disruptor"
      ∷ [];
  run_dir = codes "rust";
  gate_a = codes "cargo" ∷ codes "test" ∷ [];
  gate_a_dir = codes "rust";
  primary_metric = codes "handoff_throughput";
  direction = maximize;
  warmup_env = codes "TH_WARMUP";
  iters_env = codes "TH_ITERATIONS";
  extra_env = (codes "TH_RING_CAP", codes "1024") ∷ [];
  expected_metrics = codes "handoff_throughput_ops_per_sec" ∷ [];
  primary_key = codes "handoff_throughput_ops_per_sec";
}

unfoldable pub go_thread_handoff_spin : TaskSpec
go_thread_handoff_spin = record {
  task = codes "go-thread-handoff-spin";
  language = codes "go";
  focus_area = codes "thread-handoff";
  experiment = codes "spin";
  kind = local;
  build =
      codes "go"
      ∷ codes "build"
      ∷ codes "-o"
      ∷ codes "bin/thread-handoff-spin"
      ∷ codes "./cmd/thread-handoff-spin"
      ∷ [];
  build_dir = codes "go";
  run = codes "./bin/thread-handoff-spin" ∷ [];
  run_dir = codes "go";
  gate_a = codes "go" ∷ codes "test" ∷ codes "./..." ∷ [];
  gate_a_dir = codes "go";
  primary_metric = codes "handoff_rtt_p50";
  direction = minimize;
  warmup_env = codes "TH_WARMUP";
  iters_env = codes "TH_ITERATIONS";
  extra_env = [];
  expected_metrics =
      codes "handoff_rtt_p50_ns" ∷ codes "handoff_rtt_p99_ns" ∷ codes "handoff_rtt_mean_ns" ∷ [];
  primary_key = codes "handoff_rtt_p50_ns";
}

unfoldable pub go_thread_handoff_ring : TaskSpec
go_thread_handoff_ring = record {
  task = codes "go-thread-handoff-ring";
  language = codes "go";
  focus_area = codes "thread-handoff";
  experiment = codes "ring";
  kind = local;
  build =
      codes "go"
      ∷ codes "build"
      ∷ codes "-o"
      ∷ codes "bin/thread-handoff-ring"
      ∷ codes "./cmd/thread-handoff-ring"
      ∷ [];
  build_dir = codes "go";
  run = codes "./bin/thread-handoff-ring" ∷ [];
  run_dir = codes "go";
  gate_a = codes "go" ∷ codes "test" ∷ codes "./..." ∷ [];
  gate_a_dir = codes "go";
  primary_metric = codes "handoff_throughput";
  direction = maximize;
  warmup_env = codes "TH_WARMUP";
  iters_env = codes "TH_ITERATIONS";
  extra_env = (codes "TH_RING_CAP", codes "1024") ∷ [];
  expected_metrics = codes "handoff_throughput_ops_per_sec" ∷ [];
  primary_key = codes "handoff_throughput_ops_per_sec";
}

unfoldable pub java_thread_handoff_spin : TaskSpec
java_thread_handoff_spin = record {
  task = codes "java-thread-handoff-spin";
  language = codes "java";
  focus_area = codes "thread-handoff";
  experiment = codes "spin";
  kind = local;
  build = codes "./gradlew" ∷ codes "--quiet" ∷ codes ":thread-handoff-spin:installDist" ∷ [];
  build_dir = codes "java";
  run =
      codes "./thread-handoff-spin/build/install/thread-handoff-spin/bin/thread-handoff-spin" ∷ [];
  run_dir = codes "java";
  gate_a =
      codes "./gradlew"
      ∷ codes "--quiet"
      ∷ codes ":thread-handoff-spin:test"
      ∷ codes ":common:test"
      ∷ [];
  gate_a_dir = codes "java";
  primary_metric = codes "handoff_rtt_p50";
  direction = minimize;
  warmup_env = codes "TH_WARMUP";
  iters_env = codes "TH_ITERATIONS";
  extra_env = [];
  expected_metrics =
      codes "handoff_rtt_p50_ns" ∷ codes "handoff_rtt_p99_ns" ∷ codes "handoff_rtt_mean_ns" ∷ [];
  primary_key = codes "handoff_rtt_p50_ns";
}

unfoldable pub java_thread_handoff_ring : TaskSpec
java_thread_handoff_ring = record {
  task = codes "java-thread-handoff-ring";
  language = codes "java";
  focus_area = codes "thread-handoff";
  experiment = codes "ring";
  kind = local;
  build = codes "./gradlew" ∷ codes "--quiet" ∷ codes ":thread-handoff-ring:installDist" ∷ [];
  build_dir = codes "java";
  run =
      codes "./thread-handoff-ring/build/install/thread-handoff-ring/bin/thread-handoff-ring" ∷ [];
  run_dir = codes "java";
  gate_a =
      codes "./gradlew"
      ∷ codes "--quiet"
      ∷ codes ":thread-handoff-ring:test"
      ∷ codes ":common:test"
      ∷ [];
  gate_a_dir = codes "java";
  primary_metric = codes "handoff_throughput";
  direction = maximize;
  warmup_env = codes "TH_WARMUP";
  iters_env = codes "TH_ITERATIONS";
  extra_env = (codes "TH_RING_CAP", codes "1024") ∷ [];
  expected_metrics = codes "handoff_throughput_ops_per_sec" ∷ [];
  primary_key = codes "handoff_throughput_ops_per_sec";
}
