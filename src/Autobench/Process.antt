-- ===== src/Autobench/Process.antt =====
-- autobench/src: the processes that a run starts. The operating system is given: it answers each
-- request by what was done before, which is kept in a log, the newest event first.
use hi_perf_cmp.Prelude.{ℕ, List, [], ◌∷◌, Option, none, some, Bool, ◌⊎◌, if◌then◌else◌}
use hi_perf_cmp.Prelude.Text.{Text}
use hi_perf_cmp.Autobench.Verdict.{Verdict}
use hi_perf_cmp.Autobench.TaskSpec.{Kind}
use hi_perf_cmp.Autobench.Sampling.{Transport}

-- A directory below an ancestor of the current one, or as it is given.
pub data FilePath : Type 0 where
  below : List Text → Text → FilePath
  as_is : Text → FilePath

pub record Command : Type 0 where
  pub program : Text
  pub args : List Text
  pub current_dir : FilePath
  pub env : List (Text × Text)

pub data Event : Type 0 where
  spawned : Command → Event  -- the server
  paused : Transport → Event  -- a probe with no answer, and the pause after it
  launched : Command → Event  -- to its end
  killed : Event  -- the server

abbrev pub Log : Type 0
Log = List Event

pub record Output : Type 0 where
  pub success : Bool
  pub stdout : Text
  pub stderr : Text

-- `status` is `none` when the deadline passed before the child ended.
pub record Child (F : Type 0) : Type 0 where
  pub status : Option Bool
  pub stdout : Text
  pub stderr : Text
  pub elapsed : F

-- What is told of a failure, by the arguments of its `format!`.
pub data Message (F : Type 0) : Type 0 where
  failed_to_spawn : Text → Message F
  not_ready : ℕ → Text → Message F
  unknown : Text → Message F
  stage_failed : Text → Text → Message F
  driver_error : Text → Message F
  local_error : Option ℕ → Text → Message F
  exited : Kind → Option ℕ → Text → Text → Message F
  metric_missing : Text → Text → Text → List Text → Text → Message F
  metric_low : Text → F → Text → Message F
  primary_missing : Text → ℕ → Message F

pub record Os (F : Type 0) : Type 0 where
  pub current_dir : Option (List Text)  -- the innermost first
  pub has_git : List Text → Bool
  pub now : Log → ℕ  -- milliseconds
  pub elapsed : Log → Log → F  -- seconds
  pub spawn : Log → Command → Option Text  -- an error
  pub connects : Log → Bool
  pub probe_socket : Log → Bool
  pub echoes : Log → Bool
  pub binds : Log → Bool
  pub server_stderr : Log → Option Text  -- to its end, if it ends
  pub output : Log → Command → Option (Text ⊎ Output)  -- once it has ended, if it ends
  pub stage : Log → ℕ → Command → Option (Text ⊎ Child F)  -- once its pipes are closed, if they are
  pub format : Message F → Text

-- What a run waits for that has no limit.
pub data Wait : Type 0 where
  stderr_of_server : Wait
  output_of : Command → Wait
  pipes_of : ℕ → Command → Wait

pub data Ending (F : Type 0) : Type 0 where
  emits : Verdict F → Ending F  -- and exits with 0
  refuses : Ending F  -- exits with 2
  panics : Ending F
  hangs : Wait → Ending F
  out_of_fuel : Ending F

pub data Step (F A : Type 0) : Type 0 where
  ok : A → Log → Step F A
  ends : Ending F → Log → Step F A

abbrev pub Script : Type 0 → Type 0 → Type 0
Script F A = Log → Step F A

abbrev pub pure : {F A : Type 0} → A → Script F A
pure a h = ok a h

abbrev pub and_then : {F A B : Type 0} → Step F A → (A → Script F B) → Step F B
and_then (ok a h) k = k a h
and_then (ends e h) k = ends e h

infixl 5 ◌>>=◌
abbrev pub ◌>>=◌ : {F A B : Type 0} → Script F A → (A → Script F B) → Script F B
◌>>=◌ m k h = and_then (m h) k

abbrev pub stop : {F A : Type 0} → Ending F → Script F A
stop e h = ends e h

-- What a guard kills when it is dropped: on a return and on a panic.
abbrev pub drop_guard : {F A : Type 0} → Step F A → Step F A
drop_guard (ok a h) = ok a (killed ∷ h)
drop_guard (ends panics h) = ends panics (killed ∷ h)
drop_guard (ends e h) = ends e h

module _ {F : Type 0} (os : Os F) where
  unfoldable pub resolve_from : List Text → Text → FilePath
  resolve_from [] dir = if os.has_git [] then below [] dir else as_is dir
  resolve_from (c ∷ p) dir = if os.has_git (c ∷ p) then below (c ∷ p) dir else resolve_from p dir

  unfoldable pub resolve_dir : Text → FilePath
  resolve_dir dir = elim os.current_dir [ none ↦ as_is dir | some p ↦ resolve_from p dir ]

  -- An empty `run` is an index out of bounds.
  unfoldable pub run_command : List Text → Text → List (Text × Text) → Script F Command
  run_command [] run_dir env = stop panics
  run_command (program ∷ args) run_dir env =
      pure (record { program = program; args = args; current_dir = resolve_dir run_dir; env = env })
