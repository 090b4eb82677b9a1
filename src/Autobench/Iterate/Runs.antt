-- ===== src/Autobench/Iterate/Runs.antt =====
-- The runs of the artifact: the smoke, and the samples of the microbench.
use hi_perf_cmp.Prelude.{
  ℕ, ◌<◌, ◌≡◌, arith, List, [], ◌∷◌, Option, ◌⊎◌, inl, inr, length, Option-cases,
}
use mathlib.Core.Path.{subst}
use hi_perf_cmp.Prelude.Text.{Text}
use hi_perf_cmp.Autobench.Verdict.{Floats, Verdict}
use hi_perf_cmp.Autobench.TaskSpec.{TaskSpec, Kind, network, local}
use hi_perf_cmp.Autobench.Registry.Rows.{OneOf}
use hi_perf_cmp.Autobench.Sampling.{Object, from_experiment}
use hi_perf_cmp.Autobench.Process.{
  Command, Log, Os, emits, refuses, panics, stderr_of_server, output_of, pipes_of, hangs,
  out_of_fuel, Step, ok, ends, and_then, run_command,
}
use hi_perf_cmp.Autobench.Driver.{
  NetworkRun, LocalRun, run_local_once, run_network_once, launch, local_run,
}
use hi_perf_cmp.Autobench.Driver.Waits.{IsClock, running}
use hi_perf_cmp.Autobench.Driver.Reaps.{Reaped, run_network_once-Reaped}
use hi_perf_cmp.Autobench.Stage
use hi_perf_cmp.Autobench.Iterate
use hi_perf_cmp.Autobench.Iterate.{sample_fail, found}
use hi_perf_cmp.Autobench.Iterate.Ends.{and_then-Fine}
use hi_perf_cmp.Autobench.Iterate.Judged.{IsBlank, Judged}
use hi_perf_cmp.Autobench.Iterate.Samples.{Good, Reports, sample_fail-Good, checked_run-Good}

module _ {F : Type 0} (f : Floats F) (os : Os F) (from_str : Text → Option (Object F))
    (spec : TaskSpec) (n : ℕ) (clock : IsClock os) (runs : 0 < length spec.run)
    (measured : OneOf spec.primary_key spec.expected_metrics) where
  abbrev Ran : NetworkRun → Log → Type 0
  Ran run h = Unit {0}

  found-Good :
      (at : Option ℕ) (v : Verdict F) (r : Step F (Text ⊎ NetworkRun))
      → IsBlank f v
      → Reaped os 0 r
      → Good f os from_str spec n Ran (and_then r (found f os from_str spec at v))
  found-Good at v (ok (inl e) h) blank w =
      sample_fail-Good f os from_str spec n Ran at v _ h blank w
  found-Good at v (ok (inr run) h) blank w = (w, tt)
  found-Good at v (ends (emits x) h) blank w = absurd w
  found-Good at v (ends refuses h) blank w = absurd w
  found-Good at v (ends panics h) blank w = absurd w
  found-Good at v (ends (hangs stderr_of_server) h) blank w = w
  found-Good at v (ends (hangs (output_of cmd)) h) blank w = (omega (arith, w.0), w.1)
  found-Good at v (ends (hangs (pipes_of limit cmd)) h) blank w = absurd w
  found-Good at v (ends out_of_fuel h) blank w = absurd w

  network_sample-Good :
      (at : Option ℕ) (v : Verdict F) (env : List (Text × Text)) (h : Log)
      → IsBlank f v
      → running h ≡ 0
      → Good f os from_str spec n
          (Reports f os from_str spec n)
          (Iterate.network_sample f os from_str spec at v env h)
  unfolding Iterate.network_sample Iterate.one_network_run
  network_sample-Good at v env h blank z =
      let port : ℕ = Stage.fitness_port in
      let r =
        run_network_once os spec.run spec.run_dir port env (from_experiment spec.experiment) h in
      let reaped : Reaped os 0 r =
        subst (λ k. Reaped os k r) z
          (run_network_once-Reaped os clock spec.run spec.run_dir port env
            (from_experiment spec.experiment) h runs) in
      and_then-Fine os (Judged f os from_str spec n) Ran (Reports f os from_str spec n)
        (and_then r (found f os from_str spec at v))
        (λ (run : NetworkRun).
          Iterate.checked_run f os from_str spec at v run.client_ok run.stdout run.stderr)
        (found-Good at v r blank reaped)
        (λ run h' z' w.
          checked_run-Good f os from_str spec n measured at v run.client_ok run.stdout run.stderr h'
            blank z')

  local_found-Good :
      (at : Option ℕ) (v : Verdict F) (r : Text ⊎ LocalRun) (h : Log)
      → IsBlank f v
      → running h ≡ 0
      → Good f os from_str spec n
          (Reports f os from_str spec n)
          (Iterate.local_found f os from_str spec at v r h)
  local_found-Good at v (inl e) h blank z =
      sample_fail-Good f os from_str spec n (Reports f os from_str spec n) at v _ h blank z
  local_found-Good at v (inr run) h blank z =
      checked_run-Good f os from_str spec n measured at v run.ok run.stdout run.stderr h blank z

  local_sample-Good :
      (at : Option ℕ) (v : Verdict F) (env : List (Text × Text)) (h : Log)
      → IsBlank f v
      → running h ≡ 0
      → Good f os from_str spec n
          (Reports f os from_str spec n)
          (Iterate.local_sample f os from_str spec at v env h)
  unfolding Iterate.local_sample run_local_once run_command launch
  local_sample-Good at v env h blank z = by_run spec.run runs
    where
      after :
          (cmd : Command)
          → Good f os from_str spec n (Reports f os from_str spec n) (
              and_then
                (and_then (launch os cmd h) (λ out h'. ok (local_run os out) h'))
                (Iterate.local_found f os from_str spec at v))
      after cmd = elim (Option-cases (os.output h cmd)) [
        | inl q ↦ rw (launch, q) (omega (arith, z), q)
        | inr (out, q) ↦ rw (launch, q) (local_found-Good at v (local_run os out) _ blank z)
      ]

      by_run :
          (run : List Text)
          → 0 < length run
          → Good f os from_str spec n (Reports f os from_str spec n) (
              and_then
                (run_local_once os run spec.run_dir env h)
                (Iterate.local_found f os from_str spec at v))
      by_run [] long = absurd (omega arith)
      by_run (p ∷ ps) long = after _

  pub sample-Good :
      (at : Option ℕ) (v : Verdict F) (warmup iters : Text) (kind : Kind) (h : Log)
      → IsBlank f v
      → running h ≡ 0
      → Good f os from_str spec n
          (Reports f os from_str spec n)
          (Iterate.sample f os from_str spec at v warmup iters kind h)
  unfolding Iterate.sample
  sample-Good at v warmup iters network h blank z = network_sample-Good at v _ h blank z
  sample-Good at v warmup iters local h blank z = local_sample-Good at v _ h blank z
