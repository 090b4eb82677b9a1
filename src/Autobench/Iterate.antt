-- ===== src/Autobench/Iterate.antt =====
-- autobench/src/bin/run-iter.rs: the stages of a run, each of which may end it with a verdict.
pub mod Ends
pub mod Series
pub mod Judged
pub mod Origins
pub mod Samples
pub mod Runs
pub mod Benches
pub mod Stages
pub mod Whole
use hi_perf_cmp.Prelude.{
  ℕ, zero, suc, ◌+◌, List, [], ◌∷◌, ◌++◌, Option, none, some, Bool, true, false, not, ◌||◌, map,
  ◌⊎◌, inl, inr, ◌==◌, if◌then◌else◌,
}
use hi_perf_cmp.Prelude.Text.{Text, codes}
use hi_perf_cmp.Prelude.TextMap.{TextMap, get, insert}
use hi_perf_cmp.Autobench.Verdict.{
  Floats, at_most, Status, pass, build_failed, correctness_failed, microbench_failed, tests_failed,
  timeout, unknown_task, Verdict, new,
}
use hi_perf_cmp.Autobench.TaskSpec.{TaskSpec, Kind, network, local}
use hi_perf_cmp.Autobench.Registry.Arms.{task_spec}
use hi_perf_cmp.Autobench.Sampling.{Object, from_experiment, median, parse_contract_metrics}
use hi_perf_cmp.Autobench.Process.{
  Command, launched, Child, Message, failed_to_spawn, unknown, stage_failed, driver_error,
  local_error, exited, metric_missing, metric_low, primary_missing, Os, emits, refuses, panics,
  pipes_of, hangs, ends, Script, ok, pure, ◌>>=◌, and_then, stop, run_command,
}
use hi_perf_cmp.Autobench.Stage.{
  fitness_port, smoke_warmup, smoke_iterations, bench_warmup, bench_iterations, build_timeout,
  tests_timeout, StageRun, Args, is_success, is_none, tail_lines,
}
use hi_perf_cmp.Autobench.Driver.{NetworkRun, LocalRun, run_local_once, run_network_once}

module _ {F : Type 0} (f : Floats F) (os : Os F) where
  abbrev pub stage_run : Text ⊎ Child F → StageRun F
  stage_run (inl e) = record {
    exit_ok = false;
    stderr = os.format (failed_to_spawn e);
    stdout = [];
    duration_s = f.zero;
    timed_out = false;
  }
  stage_run (inr c) = record {
    exit_ok = is_success c.status;
    stderr = c.stderr;
    stdout = c.stdout;
    duration_s = c.elapsed;
    timed_out = is_none c.status;
  }

  -- The readers of the pipes are joined without a limit, also after the deadline.
  unfoldable pub run_stage : ℕ → Command → Script F (StageRun F)
  run_stage limit cmd h = elim (os.stage h limit cmd) [
    | none ↦ ends (hangs (pipes_of limit cmd)) h
    | some child ↦ ok (stage_run child) (launched cmd ∷ h)
  ]

  unfoldable pub stage_command : List Text → Text → Script F Command
  stage_command argv dir = run_command os argv dir []

  -- A verdict of failure, with the end of what is told.
  abbrev pub failing : Verdict F → Status → Text → Message F → Verdict F
  failing v status stage detail = record v {
    status = status;
    stage = stage;
    stderr_tail = some (tail_lines (os.format detail) 50);
  }

  unfoldable pub fail : {A : Type 0} → Verdict F → Status → Text → StageRun F → Script F A
  fail v fail_status stage run = stop (
      emits (
        failing v (if run.timed_out then timeout else fail_status) stage
          (stage_failed run.stderr run.stdout)))

  unfoldable pub correctness_fail : {A : Type 0} → Verdict F → Message F → Script F A
  correctness_fail v detail =
      stop (emits (failing v correctness_failed (codes "correctness") detail))

  unfoldable pub microbench_fail : {A : Type 0} → Verdict F → Message F → Script F A
  microbench_fail v detail = stop (emits (failing v microbench_failed (codes "microbench") detail))

  -- A failure of the smoke, or of the sample with this number.
  abbrev pub sample_fail : {A : Type 0} → Option ℕ → Verdict F → Message F → Script F A
  sample_fail none v detail = correctness_fail v detail
  sample_fail (some i) v detail = microbench_fail v detail

  unfoldable pub local_env : TaskSpec → Text → Text → List (Text × Text)
  local_env spec warmup iters = (spec.warmup_env, warmup) ∷ (spec.iters_env, iters) ∷ spec.extra_env

  module _ (from_str : Text → Option (Object F)) (spec : TaskSpec) where
    abbrev pub found : Option ℕ → Verdict F → Text ⊎ NetworkRun → Script F NetworkRun
    found at v (inl e) = sample_fail at v (driver_error e)
    found at v (inr run) = pure run

    unfoldable pub one_network_run : Option ℕ → Verdict F → List (Text × Text) → Script F NetworkRun
    one_network_run at v env = do
      r ←
          run_network_once os spec.run spec.run_dir fitness_port env
            (from_experiment spec.experiment)
      found at v r

    unfoldable pub check_keys :
        Option ℕ → Verdict F → TextMap F → Text → List Text → Script F (Unit {0})
    check_keys at v metrics stdout [] = pure tt
    check_keys at v metrics stdout (key ∷ keys) = elim (get key metrics) [
      | none ↦
          sample_fail at v
            (metric_missing key spec.focus_area spec.experiment (map (λ (k, x). k) metrics) stdout)
      | some val ↦ elim (at_most f val f.zero) [
        | true ↦ sample_fail at v (metric_low key val stdout)
        | false ↦ check_keys at v metrics stdout keys
      ]
    ]

    -- The metrics of a run that exited with 0, checked.
    unfoldable pub checked_run : Option ℕ → Verdict F → Bool → Text → Text → Script F (TextMap F)
    checked_run at v false stdout stderr = sample_fail at v (exited spec.kind at stderr stdout)
    checked_run at v true stdout stderr = do
      let metrics = parse_contract_metrics from_str spec.focus_area spec.experiment stdout
      u ← check_keys at v metrics stdout spec.expected_metrics
      pure metrics

    -- One sample of either kind of cell.
    unfoldable pub network_sample : Option ℕ → Verdict F → List (Text × Text) → Script F (TextMap F)
    network_sample at v env = do
      run ← one_network_run at v env
      checked_run at v run.client_ok run.stdout run.stderr

    abbrev pub local_found : Option ℕ → Verdict F → Text ⊎ LocalRun → Script F (TextMap F)
    local_found at v (inl e) = sample_fail at v (local_error at e)
    local_found at v (inr run) = checked_run at v run.ok run.stdout run.stderr

    unfoldable pub local_sample : Option ℕ → Verdict F → List (Text × Text) → Script F (TextMap F)
    local_sample at v env = do r ← run_local_once os spec.run spec.run_dir env; local_found at v r

    unfoldable pub sample : Option ℕ → Verdict F → Text → Text → Kind → Script F (TextMap F)
    sample at v warmup iters network =
        network_sample at v ((spec.warmup_env, warmup) ∷ (spec.iters_env, iters) ∷ [])
    sample at v warmup iters local = local_sample at v (local_env spec warmup iters)

    unfoldable pub correctness : Verdict F → Script F (Unit {0})
    correctness v = do metrics ← sample none v smoke_warmup smoke_iterations spec.kind; pure tt

    abbrev pub or_default : Option (List F) → List F
    or_default none = []
    or_default (some vals) = vals

    unfoldable pub push : Text → F → TextMap (List F) → TextMap (List F)
    push k val series = insert k (or_default (get k series) ++ (val ∷ [])) series

    unfoldable pub push_all : TextMap F → TextMap (List F) → TextMap (List F)
    push_all [] series = series
    push_all ((k, val) ∷ rest) series = push_all rest (push k val series)

    unfoldable pub bench_loop : ℕ → ℕ → Verdict F → TextMap (List F) → Script F (TextMap (List F))
    bench_loop zero i v series = pure series
    bench_loop (suc n) i v series = do
      metrics ← sample (some i) v bench_warmup bench_iterations spec.kind
      bench_loop n (i + 1) v (push_all metrics series)

    -- `none` is the panic of `median`.
    unfoldable pub medians : TextMap (List F) → TextMap F → Option (TextMap F)
    medians [] metrics = some metrics
    medians ((k, vals) ∷ rest) metrics = elim (median f vals) [
      | none ↦ none
      | some m ↦ medians rest (insert k m metrics)
    ]

    unfoldable pub finalize_metrics : Verdict F → TextMap (List F) → ℕ → Script F (Verdict F)
    finalize_metrics v series n = elim (medians series v.metrics) [
      | none ↦ stop panics
      | some metrics ↦ elim (get spec.primary_key metrics) [
        | some p ↦ pure (record v { metrics = metrics; primary = some p })
        | none ↦
            microbench_fail (record v { metrics = metrics }) (primary_missing spec.primary_key n)
      ]
    ]

    unfoldable pub at_least_one : ℕ → ℕ
    at_least_one samples = if samples == 0 then 1 else samples

    unfoldable pub microbench : Verdict F → ℕ → Script F (Verdict F)
    microbench v samples = do
      series ← bench_loop (at_least_one samples) 0 v []
      finalize_metrics v series (at_least_one samples)

    -- The build, and the tests at the end.
    unfoldable pub build_stage : Verdict F → Script F (Verdict F)
    build_stage v = do
      cmd ← stage_command spec.build spec.build_dir
      r ← run_stage build_timeout cmd
      let v1 = record v { duration_s = record v.duration_s { build = r.duration_s } }
      if r.timed_out || not r.exit_ok then fail v1 build_failed (codes "build") r else pure v1

    unfoldable pub tests_stage : Verdict F → Script F (Verdict F)
    tests_stage v = do
      cmd ← stage_command spec.gate_a spec.gate_a_dir
      r ← run_stage tests_timeout cmd
      let v1 = record v { duration_s = record v.duration_s { tests = r.duration_s } }
      if r.timed_out || not r.exit_ok then fail v1 tests_failed (codes "tests") r else pure v1

    unfoldable pub correctness_stage : Verdict F → Script F (Verdict F)
    correctness_stage v h = and_then (correctness v h) λ u h'.
        ok (record v { duration_s = record v.duration_s { correctness = os.elapsed h h' } }) h'

    unfoldable pub microbench_stage : Verdict F → ℕ → Script F (Verdict F)
    microbench_stage v samples h = and_then (microbench v samples h) λ w h'.
        ok (record w { duration_s = record w.duration_s { microbench = os.elapsed h h' } }) h'

    unfoldable pub measure : ℕ → Script F (Unit {0})
    measure samples = do
      v1 ← build_stage (new f pass (codes "setup"))
      v2 ← correctness_stage v1
      v3 ← microbench_stage v2 samples
      v4 ← tests_stage v3
      stop (emits (record v4 { status = pass; stage = codes "tests" }))

  unfoldable pub main : (Text → Option (Object F)) → Args → Script F (Unit {0})
  main from_str args = elim (task_spec args.task) [
    | none ↦ stop (
        emits (
          failing (new f unknown_task (codes "setup")) unknown_task (codes "setup")
            (unknown args.task)))
    | some spec ↦ elim args.json [
      | true ↦ measure from_str spec args.samples
      | false ↦ stop refuses
    ]
  ]
