-- ===== src/Autobench/Iterate/Samples.antt =====
-- The samples of a run: each reports the primary metric, and all of them are positive.
use hi_perf_cmp.Prelude.{
  ℕ, ◌≤◌, ◌≡◌, refl, List, [], ◌∷◌, Option, none, some, Bool, true, false, inl, inr, Bool-cases,
  Option-cases,
}
use mathlib.Core.Path.{subst}
use hi_perf_cmp.Prelude.Text.{Text}
use hi_perf_cmp.Prelude.TextMap.{TextMap, get, times}
use hi_perf_cmp.Autobench.Verdict.{Floats, at_most, Verdict}
use hi_perf_cmp.Autobench.TaskSpec.{TaskSpec}
use hi_perf_cmp.Autobench.Registry.Rows.{OneOf}
use hi_perf_cmp.Autobench.Sampling.{Object, parse_contract_metrics}
use hi_perf_cmp.Autobench.Sampling.Metrics.{times-parse_contract_metrics}
use hi_perf_cmp.Autobench.Process.{Log, Message, Os, Step, ok, ends}
use hi_perf_cmp.Autobench.Driver.Waits.{running}
use hi_perf_cmp.Autobench.Iterate
use hi_perf_cmp.Autobench.Iterate.{sample_fail, correctness_fail, microbench_fail}
use hi_perf_cmp.Autobench.Iterate.Ends.{Fine, and_then-Fine}
use hi_perf_cmp.Autobench.Iterate.Judged.{IsBlank, Judged}

module _ {F : Type 0} (f : Floats F) (os : Os F) (from_str : Text → Option (Object F))
    (spec : TaskSpec) (n : ℕ) where
  abbrev pub Good : {A : Type 0} → (A → Log → Type 0) → Step F A → Type 0
  Good P r = Fine os (Judged f os from_str spec n) P r

  pub sample_fail-Good :
      {A : Type 0} (P : A → Log → Type 0) (at : Option ℕ) (v : Verdict F) (m : Message F) (h : Log)
      → IsBlank f v
      → running h ≡ 0
      → Good P (sample_fail f os at v m h)
  unfolding correctness_fail microbench_fail
  sample_fail-Good P none v m h blank z = (z, (refl, blank))
  sample_fail-Good P (some i) v m h blank z = (z, (refl, blank))

  abbrev pub Shows : TextMap F → Text → Type 0
  Shows metrics key = (x : F) × (get key metrics ≡ some x) × (at_most f x f.zero ≡ false)

  abbrev Held : TextMap F → List Text → Unit {0} → Log → Type 0
  Held metrics [] u h = Unit {0}
  Held metrics (key ∷ keys) u h = Shows metrics key × Held metrics keys u h

  Held-one :
      (metrics : TextMap F) (key : Text) (keys : List Text) (h : Log)
      → OneOf key keys
      → Held metrics keys tt h
      → Shows metrics key
  Held-one metrics key [] h one w = absurd one
  Held-one metrics key (k ∷ keys) h (inl e) w = subst (Shows metrics) e w.0
  Held-one metrics key (k ∷ keys) h (inr one) w = Held-one metrics key keys h one w.1

  check_keys-Good :
      (at : Option ℕ) (v : Verdict F) (metrics : TextMap F) (stdout : Text) (keys : List Text)
      (h : Log)
      → IsBlank f v
      → running h ≡ 0
      → Good (Held metrics keys) (Iterate.check_keys f os from_str spec at v metrics stdout keys h)
  unfolding Iterate.check_keys
  check_keys-Good at v metrics stdout [] h blank z = (z, tt)
  check_keys-Good at v metrics stdout (key ∷ keys) h blank z =
      elim (Option-cases (get key metrics)) [
        | inl e ↦
            rw (Iterate.check_keys, e)
              (sample_fail-Good (Held metrics (key ∷ keys)) at v _ h blank z)
        | inr (x, e) ↦ elim (Bool-cases (at_most f x f.zero)) [
          | inl low ↦
              rw (Iterate.check_keys, e, low)
                (sample_fail-Good (Held metrics (key ∷ keys)) at v _ h blank z)
          | inr high ↦
              rw (Iterate.check_keys, e, high)
                (with_key x e high
                  (Iterate.check_keys f os from_str spec at v metrics stdout keys h)
                  (check_keys-Good at v metrics stdout keys h blank z))
        ]
      ]
    where
      with_key :
          (x : F)
          → get key metrics ≡ some x
          → at_most f x f.zero ≡ false
          → (r : Step F (Unit {0})) → Good (Held metrics keys) r
          → Good (Held metrics (key ∷ keys)) r
      with_key x e high (ok tt h') w = (w.0, ((x, e, high), w.1))
      with_key x e high (ends b h') w = w

  -- What a sample yields: one positive value of the primary metric.
  abbrev pub Reports : TextMap F → Log → Type 0
  Reports metrics h = Shows metrics spec.primary_key × (times spec.primary_key metrics ≤ 1)

  pub checked_run-Good :
      OneOf spec.primary_key spec.expected_metrics
      → (at : Option ℕ) (v : Verdict F) (exit : Bool) (stdout stderr : Text) (h : Log) → IsBlank f v
      → running h ≡ 0
      → Good Reports (Iterate.checked_run f os from_str spec at v exit stdout stderr h)
  unfolding Iterate.checked_run
  checked_run-Good one at v false stdout stderr h blank z =
      sample_fail-Good Reports at v _ h blank z
  checked_run-Good one at v true stdout stderr h blank z =
      let m = parse_contract_metrics from_str spec.focus_area spec.experiment stdout in
      and_then-Fine os (Judged f os from_str spec n) (Held m spec.expected_metrics) Reports
        (Iterate.check_keys f os from_str spec at v m stdout spec.expected_metrics h)
        (λ (u : Unit {0}) h'. ok m h')
        (check_keys-Good at v m stdout spec.expected_metrics h blank z)
        (λ u h' z' w. (
          z',
          (
            Held-one m spec.primary_key spec.expected_metrics h' one w,
            times-parse_contract_metrics from_str spec.focus_area spec.experiment spec.primary_key
                stdout,
          ),
        ))
