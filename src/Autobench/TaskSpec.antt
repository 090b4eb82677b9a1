-- ===== src/Autobench/TaskSpec.antt =====
-- autobench/src/task_spec.rs: what a run needs to know of a cell.
use hi_perf_cmp.Prelude.{List}
use hi_perf_cmp.Prelude.Text.{Text}
use hi_perf_cmp.Autobench.Verdict.{Direction}

pub data Kind : Type 0 where
  network : Kind
  local : Kind

pub record TaskSpec : Type 0 where
  pub task : Text
  pub language : Text
  pub focus_area : Text
  pub experiment : Text
  pub kind : Kind
  pub build : List Text
  pub build_dir : Text
  pub run : List Text
  pub run_dir : Text
  pub gate_a : List Text
  pub gate_a_dir : Text
  pub primary_metric : Text
  pub direction : Direction
  pub warmup_env : Text
  pub iters_env : Text
  pub extra_env : List (Text × Text)
  pub expected_metrics : List Text
  pub primary_key : Text
