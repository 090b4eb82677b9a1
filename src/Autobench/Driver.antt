-- ===== src/Autobench/Driver.antt =====
-- autobench/src/sampling.rs: one run of the artifact, as one process or as a server and a client.
pub mod Waits
pub mod Reaps
pub mod Outputs
use hi_perf_cmp.Prelude.{
  ℕ, zero, suc, ◌+◌, ◌/◌, ◌%◌, List, [], ◌∷◌, ◌++◌, none, some, Bool, true, false, not, ◌⊎◌, inl,
  inr, ◌==◌, ltb, if◌then◌else◌,
}
use hi_perf_cmp.Prelude.Text.{Text, codes}
use hi_perf_cmp.Autobench.Sampling.{Transport, tcp, udp, quic, port_env}
use hi_perf_cmp.Autobench.Process.{
  Command, spawned, paused, launched, Log, Output, not_ready, Os, stderr_of_server, output_of,
  hangs, out_of_fuel, ok, ends, Script, pure, ◌>>=◌, drop_guard, run_command,
}

pub record NetworkRun : Type 0 where
  pub client_ok : Bool
  pub stdout : Text
  pub stderr : Text

pub record LocalRun : Type 0 where
  pub ok : Bool
  pub stdout : Text
  pub stderr : Text

-- A number of at most `f` digits.
unfoldable pub decimal : ℕ → ℕ → Text
decimal zero n = []
decimal (suc f) n = (if n / 10 == 0 then [] else decimal f (n / 10)) ++ ((48 + n % 10) ∷ [])

-- A wait of ten seconds pauses 20 milliseconds after each probe but the last.
abbrev pub probes : ℕ
probes = 501

module _ {F : Type 0} (os : Os F) where
  unfoldable pub wait_until : (Log → Bool) → Transport → ℕ → ℕ → Script F Bool
  wait_until answers t zero deadline h = ends out_of_fuel h
  wait_until answers t (suc n) deadline h =
      let again = wait_until answers t n deadline (paused t ∷ h) in
      if ltb (os.now h) deadline then (if answers h then ok true h else again) else ok false h

  unfoldable pub wait_for_bind : ℕ → Script F Bool
  wait_for_bind timeout h = wait_until os.connects tcp probes (os.now h + timeout) h

  unfoldable pub wait_for_udp_echo : ℕ → Script F Bool
  wait_for_udp_echo timeout h =
      if os.probe_socket h
      then wait_until os.echoes udp probes (os.now h + timeout) h
      else ok false h

  unfoldable pub wait_for_udp_bind_probe : ℕ → Script F Bool
  wait_for_udp_bind_probe timeout h =
      wait_until (λ l. not (os.binds l)) quic probes (os.now h + timeout) h

  unfoldable pub wait_ready : Transport → Script F Bool
  wait_ready tcp = wait_for_bind 10000
  wait_ready udp = wait_for_udp_echo 10000
  wait_ready quic = wait_for_udp_bind_probe 10000

  -- The server's stderr is read to its end, which a server that runs on does not give.
  unfoldable pub not_ready_run : ℕ → Script F (Text ⊎ NetworkRun)
  not_ready_run port h = elim (os.server_stderr h) [
    | none ↦ ends (hangs stderr_of_server) h
    | some server_err ↦
        ok
          (inr (record {
            client_ok = false;
            stdout = [];
            stderr = os.format (not_ready port server_err);
          }))
          h
  ]

  -- Run to its end, with its output: `Command::output` has no limit.
  unfoldable pub launch : Command → Script F (Text ⊎ Output)
  launch cmd h = elim (os.output h cmd) [
    | none ↦ ends (hangs (output_of cmd)) h
    | some out ↦ ok out (launched cmd ∷ h)
  ]

  abbrev pub network_run : Text ⊎ Output → Text ⊎ NetworkRun
  network_run (inl e) = inl e
  network_run (inr o) = inr (record { client_ok = o.success; stdout = o.stdout; stderr = o.stderr })

  abbrev pub local_run : Text ⊎ Output → Text ⊎ LocalRun
  local_run (inl e) = inl e
  local_run (inr o) = inr (record { ok = o.success; stdout = o.stdout; stderr = o.stderr })

  unfoldable pub run_local_once : List Text → Text → List (Text × Text) → Script F (Text ⊎ LocalRun)
  run_local_once run run_dir env = do
    cmd ← run_command os run run_dir env
    out ← launch cmd
    pure (local_run out)

  module _ (run : List Text) (run_dir : Text) (port : ℕ) (extra_env : List (Text × Text))
      (transport : Transport) where
    unfoldable pub server_env : List (Text × Text)
    server_env =
        (codes "RTT_MODE", codes "server") ∷ (port_env transport, decimal 5 port) ∷ extra_env

    unfoldable pub client_env : List (Text × Text)
    client_env =
        (codes "RTT_MODE", codes "client")
        ∷ (codes "RTT_HOST", codes "127.0.0.1")
        ∷ (port_env transport, decimal 5 port)
        ∷ extra_env

    unfoldable pub run_client : Bool → Script F (Text ⊎ NetworkRun)
    run_client false = not_ready_run port
    run_client true = do
      cmd ← run_command os run run_dir client_env
      out ← launch cmd
      pure (network_run out)

    -- While the guard holds the server.
    unfoldable pub with_server : Script F (Text ⊎ NetworkRun)
    with_server = do ready ← wait_ready transport; run_client ready

    unfoldable pub spawn_server : Command → Script F (Text ⊎ NetworkRun)
    spawn_server cmd h = elim (os.spawn h cmd) [
      | some e ↦ ok (inl e) h
      | none ↦ drop_guard (with_server (spawned cmd ∷ h))
    ]

    unfoldable pub run_network_once : Script F (Text ⊎ NetworkRun)
    run_network_once = do cmd ← run_command os run run_dir server_env; spawn_server cmd
