-- ===== src/Autobench/Driver/Reaps.antt =====
-- A run over the network leaves no server behind.
use hi_perf_cmp.Prelude.{
  ℕ, suc, ◌<◌, ◌≡◌, length, refl, ◌∙◌, arith, List, [], ◌∷◌, none, Bool, true, false, inl, inr,
  Option-cases,
}
use hi_perf_cmp.Prelude.Text.{Text}
use hi_perf_cmp.Autobench.Sampling.{Transport}
use hi_perf_cmp.Autobench.Process.{
  Command, spawned, Log, Os, emits, refuses, panics, Wait, stderr_of_server, output_of, pipes_of,
  hangs, out_of_fuel, Step, ok, ends, drop_guard, and_then, run_command,
}
use hi_perf_cmp.Autobench.Driver.{
  wait_ready, not_ready_run, launch, network_run, run_client, with_server, spawn_server,
  run_network_once,
}
use hi_perf_cmp.Autobench.Driver.Waits.{IsClock, running, Answered, wait_ready-Answered}

-- A run that hangs, with the server that it spawned beside `n` others: it reads the server's stderr,
-- which stays open, or it waits for the client, which does not end.
abbrev pub Hung : {F : Type 0} → Os F → ℕ → Wait → Log → Type 0
Hung os n stderr_of_server h = (running h ≡ suc n) × (os.server_stderr h ≡ none)
Hung os n (output_of cmd) h = (running h ≡ suc n) × (os.output h cmd ≡ none)
Hung os n (pipes_of limit cmd) h = ⊥

-- With `n` servers running: a run that returns leaves as many, and the only other way to end is to hang.
abbrev pub Reaped : {F A : Type 0} → Os F → ℕ → Step F A → Type 0
Reaped os n (ok a h) = running h ≡ n
Reaped os n (ends panics h) = ⊥
Reaped os n (ends (hangs w) h) = Hung os n w h
Reaped os n (ends out_of_fuel h) = ⊥
Reaped os n (ends refuses h) = ⊥
Reaped os n (ends (emits v) h) = ⊥

-- The same with the server of the run still held.
abbrev Held : {F A : Type 0} → Os F → ℕ → Step F A → Type 0
Held os n (ok a h) = running h ≡ suc n
Held os n (ends panics h) = ⊥
Held os n (ends (hangs w) h) = Hung os n w h
Held os n (ends out_of_fuel h) = ⊥
Held os n (ends refuses h) = ⊥
Held os n (ends (emits v) h) = ⊥

drop_guard-Reaped :
    {F A : Type 0} (os : Os F) (n : ℕ) (r : Step F A) → Held os n r → Reaped os n (drop_guard r)
drop_guard-Reaped os n (ok a h) w = omega arith
drop_guard-Reaped os n (ends panics h) w = w
drop_guard-Reaped os n (ends (hangs x) h) w = w
drop_guard-Reaped os n (ends out_of_fuel h) w = w
drop_guard-Reaped os n (ends refuses h) w = w
drop_guard-Reaped os n (ends (emits v) h) w = w

module _ {F : Type 0} (os : Os F) (clock : IsClock os) where
  module _ (program : Text) (args : List Text) (run_dir : Text) (port : ℕ)
      (extra_env : List (Text × Text)) (transport : Transport) where
    not_ready_run-Held : (n : ℕ) (h : Log) → running h ≡ suc n → Held os n (not_ready_run os port h)
    unfolding not_ready_run
    not_ready_run-Held n h e = elim (Option-cases (os.server_stderr h)) [
      | inl q ↦ rw (not_ready_run, q) (e, q)
      | inr (t, q) ↦ rw (not_ready_run, q) e
    ]

    launch-Held :
        (cmd : Command) (n : ℕ) (h : Log)
        → running h ≡ suc n
        → Held os n (and_then (launch os cmd h) (λ out h'. ok (network_run os out) h'))
    unfolding launch
    launch-Held cmd n h e = elim (Option-cases (os.output h cmd)) [
      | inl q ↦ rw (launch, q) (e, q)
      | inr (out, q) ↦ rw (launch, q) e
    ]

    run_client-Held :
        (b : Bool) (n : ℕ) (h : Log)
        → running h ≡ suc n
        → Held os n (run_client os (program ∷ args) run_dir port extra_env transport b h)
    unfolding run_client run_command
    run_client-Held false n h e = not_ready_run-Held n h e
    run_client-Held true n h e = launch-Held _ n h e

    with_server-Held :
        (n : ℕ) (h : Log)
        → running h ≡ suc n
        → Held os n (with_server os (program ∷ args) run_dir port extra_env transport h)
    unfolding with_server
    with_server-Held n h e =
        after (wait_ready os transport h) (wait_ready-Answered os clock transport h)
      where
        after :
            (r : Step F Bool)
            → Answered (running h) r
            → Held os n
                (and_then r (run_client os (program ∷ args) run_dir port extra_env transport))
        after (ok b h') same = run_client-Held b n h' (same ∙ e)
        after (ends x h') same = absurd same

    spawn_server-Reaped :
        (cmd : Command) (h : Log)
        → Reaped os
            (running h)
            (spawn_server os (program ∷ args) run_dir port extra_env transport cmd h)
    unfolding spawn_server
    spawn_server-Reaped cmd h = elim (Option-cases (os.spawn h cmd)) [
      | inl q ↦
          rw (spawn_server, q)
            (drop_guard-Reaped os (running h) _
              (with_server-Held (running h) (spawned cmd ∷ h) refl))
      | inr (x, q) ↦ rw (spawn_server, q) refl
    ]

  -- A run over the network, of a command that is not empty, returns or hangs. Where it returns it
  -- has killed the server that it spawned. Where it hangs that server runs on, and it either reads
  -- the server's stderr, which stays open, or waits for its client, which does not end. A pause
  -- takes its 20 milliseconds at least.
  pub run_network_once-Reaped :
      (run : List Text) (run_dir : Text) (port : ℕ) (extra_env : List (Text × Text))
      (transport : Transport) (h : Log)
      → 0 < length run
      → Reaped os (running h) (run_network_once os run run_dir port extra_env transport h)
  unfolding run_network_once run_command
  run_network_once-Reaped [] run_dir port extra_env transport h long = absurd (omega arith)
  run_network_once-Reaped (program ∷ args) run_dir port extra_env transport h long =
      spawn_server-Reaped program args run_dir port extra_env transport _ h
