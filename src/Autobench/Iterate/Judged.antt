-- ===== src/Autobench/Iterate/Judged.antt =====
-- What a verdict may be.
use hi_perf_cmp.Prelude.{ℕ, ◌≡◌, ap, List, [], ◌∷◌, ◌++◌, Option, none, some, false, ◌⊎◌, length}
use hi_perf_cmp.Prelude.Text.{Text, codes}
use hi_perf_cmp.Prelude.TextMap.{TextMap, get}
use hi_perf_cmp.Autobench.Verdict.{
  Floats, at_most, Status, pass, build_failed, correctness_failed, microbench_failed, tests_failed,
  timeout, unknown_task, Verdict,
}
use hi_perf_cmp.Autobench.TaskSpec.{TaskSpec}
use hi_perf_cmp.Autobench.Sampling.{Object, median}
use hi_perf_cmp.Autobench.Process.{Event, Log, Os, ok}
use hi_perf_cmp.Autobench.Stage.{bench_warmup, bench_iterations}
use hi_perf_cmp.Autobench.Iterate.{sample}
use hi_perf_cmp.Autobench.Iterate.Origins.{Printed}

-- The values of the primary metric that runs of a cell report, one after the other, from one log to
-- another, each printed by a run of the artifact that exited with 0; `v` is the verdict that a failure
-- would fill in.
pub data Collected {F : Type 0} (f : Floats F) (os : Os F) (from_str : Text → Option (Object F))
    (spec : TaskSpec) (v : Verdict F) (before : Log) : List F → Log → Type 0 where
  nothing : Collected f os from_str spec v before [] before
  more :
      {xs : List F} {h h' : Log} {metrics : TextMap F} {x : F}
      → Collected f os from_str spec v before xs h
      → sample f os from_str spec (some (length xs)) v bench_warmup bench_iterations spec.kind h
        ≡ ok metrics h'
      → Printed os from_str spec metrics
      → get spec.primary_key metrics ≡ some x
      → Collected f os from_str spec v before (xs ++ (x ∷ [])) h'

-- They were reported before the end of this log.
pub record Sampled {F : Type 0} (f : Floats F) (os : Os F) (from_str : Text → Option (Object F))
    (spec : TaskSpec) (xs : List F) (h : Log) : Type 0 where
  pub v : Verdict F
  pub before : Log
  pub at_end : Log
  pub later : List Event
  pub log : h ≡ later ++ at_end
  pub collected : Collected f os from_str spec v before xs at_end

module _ {F : Type 0} (f : Floats F) where
  abbrev pub Positive : List F → Type 0
  Positive [] = Unit {0}
  Positive (x ∷ xs) = (at_most f x f.zero ≡ false) × Positive xs

  pub Positive-append :
      (xs : List F) (x : F) → Positive xs → at_most f x f.zero ≡ false → Positive (xs ++ (x ∷ []))
  Positive-append [] x w h = (h, tt)
  Positive-append (y ∷ ys) x w h = (w.0, Positive-append ys x w.1 h)

  abbrev pub IsBlank : Verdict F → Type 0
  IsBlank v = (v.primary ≡ none) × (v.metrics ≡ [])

module _ {F : Type 0} (f : Floats F) (os : Os F) (from_str : Text → Option (Object F)) where
  -- The primary value is the median of the values that `n` runs reported in turn, all of them positive.
  abbrev pub Measured : TaskSpec → ℕ → Verdict F → Log → Type 0
  Measured spec n v h =
      (p : F) × (v.primary ≡ some p)
      × (get spec.primary_key v.metrics ≡ some p)
      × ((xs : List F) × (length xs ≡ n)
          × Positive f xs
          × (median f xs ≡ some p)
          × Sampled f os from_str spec xs h)

  -- It stays so as the log grows.
  pub Measured-later :
      (spec : TaskSpec) (n : ℕ) (v : Verdict F) (e : Event) (h : Log)
      → Measured spec n v h
      → Measured spec n v (e ∷ h)
  Measured-later spec n v e h (p, q, g, (xs, l, pos, m, s)) = (
    p,
    q,
    g,
    (
      xs,
      l,
      pos,
      m,
      record {
        v = s.v;
        before = s.before;
        at_end = s.at_end;
        later = e ∷ s.later;
        log = ap (λ k. e ∷ k) s.log;
        collected = s.collected;
      },
    ),
  )

  -- What each status says of a verdict.
  abbrev pub Says : TaskSpec → ℕ → Status → Verdict F → Log → Type 0
  Says spec n pass v h = (v.stage ≡ codes "tests") × Measured spec n v h
  Says spec n build_failed v h = (v.stage ≡ codes "build") × IsBlank f v
  Says spec n correctness_failed v h = (v.stage ≡ codes "correctness") × IsBlank f v
  Says spec n microbench_failed v h = (v.stage ≡ codes "microbench") × IsBlank f v
  Says spec n tests_failed v h = (v.stage ≡ codes "tests") × Measured spec n v h
  Says spec n timeout v h =
      ((v.stage ≡ codes "build") × IsBlank f v) ⊎ ((v.stage ≡ codes "tests") × Measured spec n v h)
  Says spec n unknown_task v h = ⊥

  abbrev pub Judged : TaskSpec → ℕ → Verdict F → Log → Type 0
  Judged spec n v h = Says spec n v.status v h
