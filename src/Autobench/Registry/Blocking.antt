-- ===== src/Autobench/Registry/Blocking.antt =====
-- autobench/src/task_spec.rs: the cells of thread-handoff that block.
use hi_perf_cmp.Prelude.{[], ◌∷◌}
use hi_perf_cmp.Prelude.Text.{codes}
use hi_perf_cmp.Autobench.Verdict.{minimize}
use hi_perf_cmp.Autobench.TaskSpec.{TaskSpec, local}

unfoldable pub rust_thread_handoff_condvar : TaskSpec
rust_thread_handoff_condvar = record {
  task = codes "rust-thread-handoff-condvar";
  language = codes "rust";
  focus_area = codes "thread-handoff";
  experiment = codes "condvar";
  kind = local;
  build =
      codes "cargo"
      ∷ codes "build"
      ∷ codes "--release"
      ∷ codes "-p"
      ∷ codes "thread-handoff-condvar"
      ∷ [];
  build_dir = codes "rust";
  run =
      codes "cargo"
      ∷ codes "run"
      ∷ codes "--release"
      ∷ codes "-q"
      ∷ codes "-p"
      ∷ codes "thread-handoff-condvar"
      ∷ [];
  run_dir = codes "rust";
  gate_a = codes "cargo" ∷ codes "test" ∷ [];
  gate_a_dir = codes "rust";
  primary_metric = codes "handoff_rtt_p50";
  direction = minimize;
  warmup_env = codes "TH_WARMUP";
  iters_env = codes "TH_ITERATIONS";
  extra_env = [];
  expected_metrics =
      codes "handoff_rtt_p50_ns" ∷ codes "handoff_rtt_p99_ns" ∷ codes "handoff_rtt_mean_ns" ∷ [];
  primary_key = codes "handoff_rtt_p50_ns";
}

unfoldable pub go_thread_handoff_condvar : TaskSpec
go_thread_handoff_condvar = record {
  task = codes "go-thread-handoff-condvar";
  language = codes "go";
  focus_area = codes "thread-handoff";
  experiment = codes "condvar";
  kind = local;
  build =
      codes "go"
      ∷ codes "build"
      ∷ codes "-o"
      ∷ codes "bin/thread-handoff-condvar"
      ∷ codes "./cmd/thread-handoff-condvar"
      ∷ [];
  build_dir = codes "go";
  run = codes "./bin/thread-handoff-condvar" ∷ [];
  run_dir = codes "go";
  gate_a = codes "go" ∷ codes "test" ∷ codes "./..." ∷ [];
  gate_a_dir = codes "go";
  primary_metric = codes "handoff_rtt_p50";
  direction = minimize;
  warmup_env = codes "TH_WARMUP";
  iters_env = codes "TH_ITERATIONS";
  extra_env = [];
  expected_metrics =
      codes "handoff_rtt_p50_ns" ∷ codes "handoff_rtt_p99_ns" ∷ codes "handoff_rtt_mean_ns" ∷ [];
  primary_key = codes "handoff_rtt_p50_ns";
}

unfoldable pub java_thread_handoff_condvar : TaskSpec
java_thread_handoff_condvar = record {
  task = codes "java-thread-handoff-condvar";
  language = codes "java";
  focus_area = codes "thread-handoff";
  experiment = codes "condvar";
  kind = local;
  build = codes "./gradlew" ∷ codes "--quiet" ∷ codes ":thread-handoff-condvar:installDist" ∷ [];
  build_dir = codes "java";
  run =
      codes
        "./thread-handoff-condvar/build/install/thread-handoff-condvar/bin/thread-handoff-condvar"
      ∷ [];
  run_dir = codes "java";
  gate_a =
      codes "./gradlew"
      ∷ codes "--quiet"
      ∷ codes ":thread-handoff-condvar:test"
      ∷ codes ":common:test"
      ∷ [];
  gate_a_dir = codes "java";
  primary_metric = codes "handoff_rtt_p50";
  direction = minimize;
  warmup_env = codes "TH_WARMUP";
  iters_env = codes "TH_ITERATIONS";
  extra_env = [];
  expected_metrics =
      codes "handoff_rtt_p50_ns" ∷ codes "handoff_rtt_p99_ns" ∷ codes "handoff_rtt_mean_ns" ∷ [];
  primary_key = codes "handoff_rtt_p50_ns";
}

unfoldable pub rust_thread_handoff_channel : TaskSpec
rust_thread_handoff_channel = record {
  task = codes "rust-thread-handoff-channel";
  language = codes "rust";
  focus_area = codes "thread-handoff";
  experiment = codes "channel";
  kind = local;
  build =
      codes "cargo"
      ∷ codes "build"
      ∷ codes "--release"
      ∷ codes "-p"
      ∷ codes "thread-handoff-channel"
      ∷ [];
  build_dir = codes "rust";
  run =
      codes "cargo"
      ∷ codes "run"
      ∷ codes "--release"
      ∷ codes "-q"
      ∷ codes "-p"
      ∷ codes "thread-handoff-channel"
      ∷ [];
  run_dir = codes "rust";
  gate_a = codes "cargo" ∷ codes "test" ∷ [];
  gate_a_dir = codes "rust";
  primary_metric = codes "handoff_rtt_p50";
  direction = minimize;
  warmup_env = codes "TH_WARMUP";
  iters_env = codes "TH_ITERATIONS";
  extra_env = [];
  expected_metrics =
      codes "handoff_rtt_p50_ns" ∷ codes "handoff_rtt_p99_ns" ∷ codes "handoff_rtt_mean_ns" ∷ [];
  primary_key = codes "handoff_rtt_p50_ns";
}

unfoldable pub go_thread_handoff_channel : TaskSpec
go_thread_handoff_channel = record {
  task = codes "go-thread-handoff-channel";
  language = codes "go";
  focus_area = codes "thread-handoff";
  experiment = codes "channel";
  kind = local;
  build =
      codes "go"
      ∷ codes "build"
      ∷ codes "-o"
      ∷ codes "bin/thread-handoff-channel"
      ∷ codes "./cmd/thread-handoff-channel"
      ∷ [];
  build_dir = codes "go";
  run = codes "./bin/thread-handoff-channel" ∷ [];
  run_dir = codes "go";
  gate_a = codes "go" ∷ codes "test" ∷ codes "./..." ∷ [];
  gate_a_dir = codes "go";
  primary_metric = codes "handoff_rtt_p50";
  direction = minimize;
  warmup_env = codes "TH_WARMUP";
  iters_env = codes "TH_ITERATIONS";
  extra_env = [];
  expected_metrics =
      codes "handoff_rtt_p50_ns" ∷ codes "handoff_rtt_p99_ns" ∷ codes "handoff_rtt_mean_ns" ∷ [];
  primary_key = codes "handoff_rtt_p50_ns";
}

unfoldable pub java_thread_handoff_channel : TaskSpec
java_thread_handoff_channel = record {
  task = codes "java-thread-handoff-channel";
  language = codes "java";
  focus_area = codes "thread-handoff";
  experiment = codes "channel";
  kind = local;
  build = codes "./gradlew" ∷ codes "--quiet" ∷ codes ":thread-handoff-channel:installDist" ∷ [];
  build_dir = codes "java";
  run =
      codes
        "./thread-handoff-channel/build/install/thread-handoff-channel/bin/thread-handoff-channel"
      ∷ [];
  run_dir = codes "java";
  gate_a =
      codes "./gradlew"
      ∷ codes "--quiet"
      ∷ codes ":thread-handoff-channel:test"
      ∷ codes ":common:test"
      ∷ [];
  gate_a_dir = codes "java";
  primary_metric = codes "handoff_rtt_p50";
  direction = minimize;
  warmup_env = codes "TH_WARMUP";
  iters_env = codes "TH_ITERATIONS";
  extra_env = [];
  expected_metrics =
      codes "handoff_rtt_p50_ns" ∷ codes "handoff_rtt_p99_ns" ∷ codes "handoff_rtt_mean_ns" ∷ [];
  primary_key = codes "handoff_rtt_p50_ns";
}
