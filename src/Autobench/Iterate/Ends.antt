-- ===== src/Autobench/Iterate/Ends.antt =====
-- How a script of a run may end.
use hi_perf_cmp.Prelude.{◌≡◌, ◌≤◌, refl, none}
use hi_perf_cmp.Autobench.Verdict.{Verdict}
use hi_perf_cmp.Autobench.Process.{
  Log, Os, emits, refuses, panics, stderr_of_server, output_of, pipes_of, hangs, out_of_fuel,
  Ending, Step, ok, ends, Script, and_then,
}
use hi_perf_cmp.Autobench.Driver.Waits.{running}

module _ {F : Type 0} (os : Os F) (Judged : Verdict F → Log → Type 0) where
  -- A verdict is judged and leaves no server. A hang waits for the stderr of a server, for the end of a
  -- run of the artifact, or for the pipes of a stage.
  abbrev pub Ended : Ending F → Log → Type 0
  Ended (emits v) h = (running h ≡ 0) × Judged v h
  Ended refuses h = ⊥
  Ended panics h = ⊥
  Ended (hangs stderr_of_server) h = (running h ≡ 1) × (os.server_stderr h ≡ none)
  Ended (hangs (output_of cmd)) h = (running h ≤ 1) × (os.output h cmd ≡ none)
  Ended (hangs (pipes_of limit cmd)) h = (running h ≡ 0) × (os.stage h limit cmd ≡ none)
  Ended out_of_fuel h = ⊥

  abbrev pub Fine : {A : Type 0} → (A → Log → Type 0) → Step F A → Type 0
  Fine P (ok a h) = (running h ≡ 0) × P a h
  Fine P (ends e h) = Ended e h

  pub and_then-Fine :
      {A B : Type 0} (P : A → Log → Type 0) (Q : B → Log → Type 0) (r : Step F A)
      (k : A → Script F B)
      → Fine P r
      → ((a : A) (h : Log) → running h ≡ 0 → P a h → Fine Q (k a h))
      → Fine Q (and_then r k)
  and_then-Fine P Q (ok a h) k w next = next a h w.0 w.1
  and_then-Fine P Q (ends e h) k w next = w

  -- What a step yields is what it is known by.
  pub Fine-itself :
      {A : Type 0} (P : A → Log → Type 0) (r : Step F A)
      → Fine P r
      → Fine (λ a h. P a h × (r ≡ ok a h)) r
  Fine-itself P (ok a h) w = (w.0, (w.1, refl))
  Fine-itself P (ends e h) w = w
