-- ===== src/Autobench/Stage.antt =====
-- autobench/src/bin/run-iter.rs: the arguments, the limits and the report of a stage, and the end of
-- what a stage says.
use hi_perf_cmp.Prelude.{
  ℕ, ◌-◌, List, [], ◌∷◌, ◌++◌, Option, none, some, Bool, true, false, ◌==◌, ltb, drop, length,
  if◌then◌else◌,
}
use hi_perf_cmp.Prelude.Text.{Text, codes}
use hi_perf_cmp.Autobench.Sampling.{ended}

abbrev pub fitness_port : ℕ
fitness_port = 19100

abbrev pub smoke_warmup : Text
smoke_warmup = codes "20"

abbrev pub smoke_iterations : Text
smoke_iterations = codes "200"

abbrev pub bench_warmup : Text
bench_warmup = codes "2000"

abbrev pub bench_iterations : Text
bench_iterations = codes "20000"

-- In seconds.
abbrev pub build_timeout : ℕ
build_timeout = 600

abbrev pub tests_timeout : ℕ
tests_timeout = 900

pub record Args : Type 0 where
  pub task : Text
  pub json : Bool
  pub samples : ℕ  -- usize

pub record StageRun (F : Type 0) : Type 0 where
  pub exit_ok : Bool
  pub stderr : Text
  pub stdout : Text
  pub duration_s : F
  pub timed_out : Bool

abbrev pub is_success : Option Bool → Bool
is_success none = false
is_success (some b) = b

abbrev pub is_none : Option Bool → Bool
is_none none = true
is_none (some b) = false

-- The lines of a text with their ends, after a line that is begun.
unfoldable pub split_inclusive : Text → Text → List Text
split_inclusive line [] = ended line
split_inclusive line (c ∷ cs) = elim (c == 10) [
  | true ↦ (line ++ (c ∷ [])) ∷ split_inclusive [] cs
  | false ↦ split_inclusive (line ++ (c ∷ [])) cs
]

unfoldable pub concat : List Text → Text
concat [] = []
concat (t ∷ ts) = t ++ concat ts

unfoldable pub tail_lines : Text → ℕ → Text
tail_lines s n =
    let lines : List Text = split_inclusive [] s in
    concat (if ltb n (length lines) then drop (length lines - n) lines else lines)
