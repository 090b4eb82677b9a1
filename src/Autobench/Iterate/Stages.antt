-- ===== src/Autobench/Iterate/Stages.antt =====
-- The stages of a run, and the whole.
use hi_perf_cmp.Prelude.{
  ℕ, ◌<◌, ◌≡◌, refl, arith, List, [], ◌∷◌, Option, none, not, ◌||◌, inl, inr, Bool-cases,
  Option-cases, length,
}
use hi_perf_cmp.Prelude.Text.{Text, codes}
use hi_perf_cmp.Prelude.TextMap.{TextMap}
use hi_perf_cmp.Autobench.Verdict.{
  Floats, Status, pass, build_failed, tests_failed, timeout, Verdict, new,
}
use hi_perf_cmp.Autobench.TaskSpec.{TaskSpec}
use hi_perf_cmp.Autobench.Registry.Rows.{IsRow}
use hi_perf_cmp.Autobench.Sampling.{Object}
use hi_perf_cmp.Autobench.Sampling.Median.{IsOrder}
use hi_perf_cmp.Autobench.Process.{
  Command, launched, Log, stage_failed, Os, emits, ok, ends, Script, and_then, run_command,
}
use hi_perf_cmp.Autobench.Driver.Waits.{IsClock, running}
use hi_perf_cmp.Autobench.Stage
use hi_perf_cmp.Autobench.Iterate
use hi_perf_cmp.Autobench.Iterate.{fail}
use hi_perf_cmp.Autobench.Iterate.Ends.{and_then-Fine}
use hi_perf_cmp.Autobench.Iterate.Judged.{IsBlank, Judged, Says, Measured, Measured-later}
use hi_perf_cmp.Autobench.Iterate.Samples.{Good, Reports}
use hi_perf_cmp.Autobench.Iterate.Runs.{sample-Good}
use hi_perf_cmp.Autobench.Iterate.Benches.{microbench-Good}

module _ {F : Type 0} (f : Floats F) (os : Os F) (from_str : Text → Option (Object F))
    (spec : TaskSpec) (n : ℕ) where
  abbrev Blank : Verdict F → Log → Type 0
  Blank v h = IsBlank f v

  command_made :
      (argv : List Text) (dir : Text) (h : Log)
      → 0 < length argv
      → (cmd : Command) × (Iterate.stage_command f os argv dir h ≡ ok cmd h)
  unfolding Iterate.stage_command run_command
  command_made [] dir h long = absurd (omega arith)
  command_made (p ∷ ps) dir h long = (_, refl)

  -- A stage that failed, by its deadline or by its status.
  fail-Good :
      {A : Type 0} (P : A → Log → Type 0) (v : Verdict F) (status : Status) (stage : Text)
      (r : Stage.StageRun F) (h : Log)
      → Says f os from_str spec n timeout
          (Iterate.failing f os v timeout stage (stage_failed r.stderr r.stdout))
          h
      → Says f os from_str spec n status
          (Iterate.failing f os v status stage (stage_failed r.stderr r.stdout))
          h
      → running h ≡ 0
      → Good f os from_str spec n P (fail f os v status stage r h)
  unfolding fail
  fail-Good P v status stage r h late bad z = elim (Bool-cases r.timed_out) [
    | inl e ↦ rw (fail, e) (z, late)
    | inr e ↦ rw (fail, e) (z, bad)
  ]

  build_stage-Good :
      (v : Verdict F) (h : Log)
      → 0 < length spec.build
      → IsBlank f v
      → running h ≡ 0
      → Good f os from_str spec n Blank (Iterate.build_stage f os from_str spec v h)
  unfolding Iterate.build_stage Iterate.run_stage
  build_stage-Good v h long blank z =
      let (cmd, made) = command_made spec.build spec.build_dir h long in
      elim (Option-cases (os.stage h Stage.build_timeout cmd)) [
        | inl blocked ↦ rw (made, Iterate.run_stage, blocked) (z, blocked)
        | inr (child, closed) ↦
            let r : Stage.StageRun F = Iterate.stage_run f os child in
            elim (Bool-cases (r.timed_out || not r.exit_ok)) [
              | inl bad ↦
                  rw (made, Iterate.run_stage, closed, bad)
                    (fail-Good Blank _ build_failed (codes "build") r (launched cmd ∷ h)
                      (inl (refl, blank)) (refl, blank) z)
              | inr good ↦ rw (made, Iterate.run_stage, closed, good) (z, blank)
            ]
      ]

  tests_stage-Good :
      (v : Verdict F) (h : Log)
      → 0 < length spec.gate_a
      → Measured f os from_str spec n v h
      → running h ≡ 0
      → Good f os from_str spec n
          (Measured f os from_str spec n)
          (Iterate.tests_stage f os from_str spec v h)
  unfolding Iterate.tests_stage Iterate.run_stage
  tests_stage-Good v h long w z =
      let (cmd, made) = command_made spec.gate_a spec.gate_a_dir h long in
      elim (Option-cases (os.stage h Stage.tests_timeout cmd)) [
        | inl blocked ↦ rw (made, Iterate.run_stage, blocked) (z, blocked)
        | inr (child, closed) ↦
            let r : Stage.StageRun F = Iterate.stage_run f os child in
            let w' = Measured-later f os from_str spec n v (launched cmd) h w in
            elim (Bool-cases (r.timed_out || not r.exit_ok)) [
              | inl bad ↦
                  rw (made, Iterate.run_stage, closed, bad)
                    (fail-Good (Measured f os from_str spec n) _ tests_failed (codes "tests") r
                      (launched cmd ∷ h) (inr (refl, w')) (refl, w') z)
              | inr good ↦ rw (made, Iterate.run_stage, closed, good) (z, w')
            ]
      ]

  module _ (clock : IsClock os) (row : IsRow spec.task spec) where
    correctness_stage-Good :
        (v : Verdict F) (h : Log)
        → IsBlank f v
        → running h ≡ 0
        → Good f os from_str spec n Blank (Iterate.correctness_stage f os from_str spec v h)
    unfolding Iterate.correctness_stage Iterate.correctness
    correctness_stage-Good v h blank z =
        and_then-Fine os (Judged f os from_str spec n) (λ (u : Unit {0}) h'. Unit {0}) Blank
          (Iterate.correctness f os from_str spec v h)
          (λ u h'.
            ok (record v { duration_s = record v.duration_s { correctness = os.elapsed h h' } }) h')
          (and_then-Fine os (Judged f os from_str spec n) (Reports f os from_str spec n)
            (λ (u : Unit {0}) h'. Unit {0})
            (Iterate.sample f os from_str spec none v Stage.smoke_warmup Stage.smoke_iterations
              spec.kind h)
            (λ (m : TextMap F) h'. ok tt h')
            (sample-Good f os from_str spec n clock row.runs row.measured none v Stage.smoke_warmup
              Stage.smoke_iterations spec.kind h blank z)
            (λ m h' z' w. (z', tt)))
          (λ u h' z' w. (z', blank))

    microbench_stage-Good :
        IsOrder f
        → (v : Verdict F) (samples : ℕ) (h : Log)
        → n ≡ Iterate.at_least_one f os from_str spec samples
        → IsBlank f v
        → running h ≡ 0
        → Good f os from_str spec n
            (Measured f os from_str spec n)
            (Iterate.microbench_stage f os from_str spec v samples h)
    unfolding Iterate.microbench_stage
    microbench_stage-Good order v samples h e blank z =
        and_then-Fine os (Judged f os from_str spec n) (Measured f os from_str spec n)
          (Measured f os from_str spec n) (Iterate.microbench f os from_str spec v samples h)
          (λ (w : Verdict F) h'.
            ok (record w { duration_s = record w.duration_s { microbench = os.elapsed h h' } }) h')
          (microbench-Good f os from_str spec n clock row.runs row.measured order v samples h e
            blank z)
          (λ w h' z' m. (z', m))

    pub measure-Good :
        IsOrder f
        → (samples : ℕ) → n ≡ Iterate.at_least_one f os from_str spec samples
        → Good f os from_str spec n
            (λ (u : Unit {0}) h. ⊥)
            (Iterate.measure f os from_str spec samples [])
    unfolding Iterate.measure new
    measure-Good order samples e =
        and_then-Fine os (Judged f os from_str spec n) Blank Never
          (Iterate.build_stage f os from_str spec first [])
          (λ (v : Verdict F) h.
            and_then (Iterate.correctness_stage f os from_str spec v h) then_microbench)
          (build_stage-Good first [] row.builds (refl, refl) refl)
          (λ v h z blank.
            and_then-Fine os (Judged f os from_str spec n) Blank Never
              (Iterate.correctness_stage f os from_str spec v h) then_microbench
              (correctness_stage-Good v h blank z)
              (λ w h' z' blank'.
                and_then-Fine os (Judged f os from_str spec n) (Measured f os from_str spec n) Never
                  (Iterate.microbench_stage f os from_str spec w samples h') then_tests
                  (microbench_stage-Good order w samples h' e blank' z')
                  (λ x h1 z1 m.
                    and_then-Fine os (Judged f os from_str spec n) (Measured f os from_str spec n)
                      Never (Iterate.tests_stage f os from_str spec x h1) passed
                      (tests_stage-Good x h1 row.gates m z1) (λ y h2 z2 m'. (z2, (refl, m'))))))
      where
        Never : Unit {0} → Log → Type 0
        Never u h = ⊥

        first : Verdict F
        first = new f pass (codes "setup")

        passed : Verdict F → Script F (Unit {0})
        passed v h = ends (emits (record v { status = pass; stage = codes "tests" })) h

        then_tests : Verdict F → Script F (Unit {0})
        then_tests v h = and_then (Iterate.tests_stage f os from_str spec v h) passed

        then_microbench : Verdict F → Script F (Unit {0})
        then_microbench v h =
            and_then (Iterate.microbench_stage f os from_str spec v samples h) then_tests
