-- ===== src/Autobench/Driver/Outputs.antt =====
-- Where the output of a run of the artifact comes from.
use hi_perf_cmp.Prelude.{
  ℕ, ◌≡◌, refl, arith, List, [], ◌∷◌, some, Bool, true, false, ◌⊎◌, inl, inr, Option-cases,
}
use hi_perf_cmp.Prelude.Text.{Text}
use hi_perf_cmp.Autobench.Sampling.{Transport}
use hi_perf_cmp.Autobench.Process.{
  Command, spawned, Log, Output, Os, emits, refuses, panics, hangs, out_of_fuel, Step, ok, ends,
  Script, and_then, drop_guard, run_command,
}
use hi_perf_cmp.Autobench.Driver
use hi_perf_cmp.Autobench.Driver.{NetworkRun, LocalRun, launch}

-- What holds of a result, if there is one.
abbrev pub Yields : {F A : Type 0} → (A → Type 0) → Step F A → Type 0
Yields P (ok a h) = P a
Yields P (ends e h) = Unit {0}

pub and_then-Yields :
    {F A B : Type 0} (P : A → Type 0) (Q : B → Type 0) (r : Step F A) (k : A → Script F B)
    → Yields P r
    → ((a : A) (h : Log) → P a → Yields Q (k a h))
    → Yields Q (and_then r k)
and_then-Yields P Q (ok a h) k w next = next a h w
and_then-Yields P Q (ends e h) k w next = tt

drop_guard-Yields :
    {F A : Type 0} (P : A → Type 0) (r : Step F A) → Yields P r → Yields P (drop_guard r)
drop_guard-Yields P (ok a h) w = w
drop_guard-Yields P (ends panics h) w = tt
drop_guard-Yields P (ends (hangs x) h) w = tt
drop_guard-Yields P (ends out_of_fuel h) w = tt
drop_guard-Yields P (ends refuses h) w = tt
drop_guard-Yields P (ends (emits v) h) w = tt

-- The output of a run of the artifact that exited with 0.
pub record Exited {F : Type 0} (os : Os F) (stdout : Text) : Type 0 where
  pub command : Command
  pub before : Log
  pub output : Output
  pub answered : os.output before command ≡ some (inr output)
  pub success : output.success ≡ true
  pub says : output.stdout ≡ stdout

module _ {F : Type 0} (os : Os F) where
  abbrev Answer : Text ⊎ Output → Type 0
  Answer (inl e) = Unit {0}
  Answer (inr o) = o.success ≡ true → Exited os o.stdout

  launch-Yields : (cmd : Command) (h : Log) → Yields Answer (launch os cmd h)
  unfolding launch
  launch-Yields cmd h = elim (Option-cases (os.output h cmd)) [
    | inl q ↦ rw (launch, q) tt
    | inr (out, q) ↦ rw (launch, q) (answer out q)
  ]
    where
      answer : (out : Text ⊎ Output) → os.output h cmd ≡ some out → Answer out
      answer (inl e) q = tt
      answer (inr o) q = λ s. record {
        command = cmd;
        before = h;
        output = o;
        answered = q;
        success = s;
        says = refl;
      }

  abbrev pub OfNetwork : Text ⊎ NetworkRun → Type 0
  OfNetwork (inl e) = Unit {0}
  OfNetwork (inr run) = run.client_ok ≡ true → Exited os run.stdout

  abbrev pub OfLocal : Text ⊎ LocalRun → Type 0
  OfLocal (inl e) = Unit {0}
  OfLocal (inr run) = run.ok ≡ true → Exited os run.stdout

  network_run-OfNetwork : (out : Text ⊎ Output) → Answer out → OfNetwork (Driver.network_run os out)
  network_run-OfNetwork (inl e) w = tt
  network_run-OfNetwork (inr o) w = w

  local_run-OfLocal : (out : Text ⊎ Output) → Answer out → OfLocal (Driver.local_run os out)
  local_run-OfLocal (inl e) w = tt
  local_run-OfLocal (inr o) w = w

  pub run_local_once-Yields :
      (run : List Text) (run_dir : Text) (env : List (Text × Text)) (h : Log)
      → Yields OfLocal (Driver.run_local_once os run run_dir env h)
  unfolding Driver.run_local_once run_command
  run_local_once-Yields [] run_dir env h = tt
  run_local_once-Yields (p ∷ ps) run_dir env h =
      and_then-Yields Answer OfLocal (launch os _ h) (λ out h'. ok (Driver.local_run os out) h')
        (launch-Yields _ h) (λ out h' w. local_run-OfLocal out w)

  module _ (run : List Text) (run_dir : Text) (port : ℕ) (extra_env : List (Text × Text))
      (transport : Transport) where
    not_ready_run-Yields : (h : Log) → Yields OfNetwork (Driver.not_ready_run os port h)
    unfolding Driver.not_ready_run
    not_ready_run-Yields h = elim (Option-cases (os.server_stderr h)) [
      | inl q ↦ rw (Driver.not_ready_run, q) tt
      | inr (t, q) ↦ rw (Driver.not_ready_run, q) (λ s. absurd (ground arith))
    ]

    client-Yields :
        (argv : List Text) (env : List (Text × Text)) (h : Log)
        → Yields OfNetwork (
            and_then
              (run_command os argv run_dir env h)
              (λ cmd h1. and_then (launch os cmd h1) (λ out h2. ok (Driver.network_run os out) h2)))
    unfolding run_command
    client-Yields [] env h = tt
    client-Yields (p ∷ ps) env h =
        and_then-Yields Answer OfNetwork (launch os _ h)
          (λ out h'. ok (Driver.network_run os out) h') (launch-Yields _ h)
          (λ out h' w. network_run-OfNetwork out w)

    run_client-Yields :
        (b : Bool) (h : Log)
        → Yields OfNetwork (Driver.run_client os run run_dir port extra_env transport b h)
    unfolding Driver.run_client
    run_client-Yields false h = not_ready_run-Yields h
    run_client-Yields true h = client-Yields run _ h

    with_server-Yields :
        (h : Log) → Yields OfNetwork (Driver.with_server os run run_dir port extra_env transport h)
    unfolding Driver.with_server
    with_server-Yields h =
        and_then-Yields (λ (b : Bool). Unit {0}) OfNetwork (Driver.wait_ready os transport h)
          (Driver.run_client os run run_dir port extra_env transport)
          (anything (Driver.wait_ready os transport h)) (λ b h' w. run_client-Yields b h')
      where
        anything : (r : Step F Bool) → Yields (λ (b : Bool). Unit {0}) r
        anything (ok b h) = tt
        anything (ends e h) = tt

    spawn_server-Yields :
        (cmd : Command) (h : Log)
        → Yields OfNetwork (Driver.spawn_server os run run_dir port extra_env transport cmd h)
    unfolding Driver.spawn_server
    spawn_server-Yields cmd h = elim (Option-cases (os.spawn h cmd)) [
      | inl q ↦
          rw (Driver.spawn_server, q)
            (drop_guard-Yields OfNetwork _ (with_server-Yields (spawned cmd ∷ h)))
      | inr (x, q) ↦ rw (Driver.spawn_server, q) tt
    ]

  pub run_network_once-Yields :
      (run : List Text) (run_dir : Text) (port : ℕ) (extra_env : List (Text × Text))
      (transport : Transport) (h : Log)
      → Yields OfNetwork (Driver.run_network_once os run run_dir port extra_env transport h)
  unfolding Driver.run_network_once run_command
  run_network_once-Yields [] run_dir port extra_env transport h = tt
  run_network_once-Yields (p ∷ ps) run_dir port extra_env transport h =
      spawn_server-Yields (p ∷ ps) run_dir port extra_env transport _ h
