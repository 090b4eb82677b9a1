-- ===== src/Autobench/Iterate/Origins.antt =====
-- Where the metrics of a sample come from: the output of a run of the artifact that exited with 0.
use hi_perf_cmp.Prelude.{ℕ, ◌≡◌, refl, Option, none, some, Bool, true, false, ◌⊎◌, inl, inr}
use hi_perf_cmp.Prelude.Text.{Text}
use hi_perf_cmp.Prelude.TextMap.{TextMap}
use hi_perf_cmp.Autobench.Verdict.{Floats, Verdict}
use hi_perf_cmp.Autobench.TaskSpec.{TaskSpec, Kind, network, local}
use hi_perf_cmp.Autobench.Sampling.{Object, from_experiment, parse_contract_metrics}
use hi_perf_cmp.Autobench.Process.{Log, Message, Os, Step, ok, ends}
use hi_perf_cmp.Autobench.Driver.{NetworkRun, LocalRun}
use hi_perf_cmp.Autobench.Stage
use hi_perf_cmp.Autobench.Iterate
use hi_perf_cmp.Autobench.Driver.Outputs.{
  Yields, and_then-Yields, Exited, OfNetwork, OfLocal, run_local_once-Yields,
  run_network_once-Yields,
}

-- The metrics are those that a run of the artifact, which exited with 0, printed.
pub record Printed {F : Type 0} (os : Os F) (from_str : Text → Option (Object F)) (spec : TaskSpec)
    (metrics : TextMap F) : Type 0 where
  pub stdout : Text
  pub exited : Exited os stdout
  pub parsed : metrics ≡ parse_contract_metrics from_str spec.focus_area spec.experiment stdout

module _ {F : Type 0} (f : Floats F) (os : Os F) (from_str : Text → Option (Object F))
    (spec : TaskSpec) where
  -- A failure yields nothing.
  sample_fail-Yields :
      {A : Type 0} (P : A → Type 0) (at : Option ℕ) (v : Verdict F) (m : Message F) (h : Log)
      → Yields P (Iterate.sample_fail f os {A = A} at v m h)
  unfolding Iterate.correctness_fail Iterate.microbench_fail
  sample_fail-Yields P none v m h = tt
  sample_fail-Yields P (some i) v m h = tt

  checked_run-Yields :
      (at : Option ℕ) (v : Verdict F) (exit : Bool) (stdout stderr : Text) (h : Log)
      → (exit ≡ true → Exited os stdout)
      → Yields
          (Printed os from_str spec)
          (Iterate.checked_run f os from_str spec at v exit stdout stderr h)
  unfolding Iterate.checked_run
  checked_run-Yields at v false stdout stderr h w =
      sample_fail-Yields (Printed os from_str spec) at v _ h
  checked_run-Yields at v true stdout stderr h w =
      let m = parse_contract_metrics from_str spec.focus_area spec.experiment stdout in
      and_then-Yields (λ (u : Unit {0}). Unit {0}) (Printed os from_str spec)
        (Iterate.check_keys f os from_str spec at v m stdout spec.expected_metrics h)
        (λ (u : Unit {0}) h'. ok m h')
        (anything (Iterate.check_keys f os from_str spec at v m stdout spec.expected_metrics h))
        (λ u h' z. record { stdout = stdout; exited = w refl; parsed = refl })
    where
      anything : (r : Step F (Unit {0})) → Yields (λ (u : Unit {0}). Unit {0}) r
      anything (ok b h) = tt
      anything (ends e h) = tt

  found_run-Yields :
      (at : Option ℕ) (v : Verdict F) (r : Text ⊎ NetworkRun) (h : Log)
      → OfNetwork os r
      → Yields (λ run. OfNetwork os (inr run)) (Iterate.found f os from_str spec at v r h)
  found_run-Yields at v (inl e) h w = sample_fail-Yields (λ run. OfNetwork os (inr run)) at v _ h
  found_run-Yields at v (inr run) h w = w

  local_found-Yields :
      (at : Option ℕ) (v : Verdict F) (r : Text ⊎ LocalRun) (h : Log)
      → OfLocal os r
      → Yields (Printed os from_str spec) (Iterate.local_found f os from_str spec at v r h)
  local_found-Yields at v (inl e) h w = sample_fail-Yields (Printed os from_str spec) at v _ h
  local_found-Yields at v (inr run) h w = checked_run-Yields at v run.ok run.stdout run.stderr h w

  pub sample-Yields :
      (at : Option ℕ) (v : Verdict F) (warmup iters : Text) (kind : Kind) (h : Log)
      → Yields
          (Printed os from_str spec)
          (Iterate.sample f os from_str spec at v warmup iters kind h)
  unfolding Iterate.sample Iterate.network_sample Iterate.one_network_run Iterate.local_sample
  sample-Yields at v warmup iters local h =
      and_then-Yields (OfLocal os) (Printed os from_str spec) _
        (Iterate.local_found f os from_str spec at v)
        (run_local_once-Yields os spec.run spec.run_dir _ h)
        (λ r h' w. local_found-Yields at v r h' w)
  sample-Yields at v warmup iters network h =
      and_then-Yields (λ run. OfNetwork os (inr run)) (Printed os from_str spec) _
        (λ (run : NetworkRun).
          Iterate.checked_run f os from_str spec at v run.client_ok run.stdout run.stderr)
        (and_then-Yields (OfNetwork os) (λ run. OfNetwork os (inr run)) _
          (Iterate.found f os from_str spec at v)
          (run_network_once-Yields os spec.run spec.run_dir Stage.fitness_port _
            (from_experiment spec.experiment) h)
          (λ r h' w. found_run-Yields at v r h' w))
        (λ run h' w. checked_run-Yields at v run.client_ok run.stdout run.stderr h' w)
