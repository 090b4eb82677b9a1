-- ===== src/Autobench/Iterate/Benches.antt =====
-- The microbench: its samples over the runs, and what is recorded of them.
use hi_perf_cmp.Prelude.{
  ℕ, zero, suc, ◌+◌, ◌≤◌, ◌<◌, ◌≡◌, refl, sym, ap, ◌∙◌, arith, List, [], ◌∷◌, Option, some, inl,
  inr, Option-cases, length, length-append,
}
use mathlib.Core.Path.{subst}
use hi_perf_cmp.Prelude.Text.{Text}
use hi_perf_cmp.Prelude.TextMap.{TextMap, get, times}
use hi_perf_cmp.Autobench.Verdict.{Floats, Verdict}
use hi_perf_cmp.Autobench.TaskSpec.{TaskSpec}
use hi_perf_cmp.Autobench.Registry.Rows.{OneOf}
use hi_perf_cmp.Autobench.Sampling.{Object}
use hi_perf_cmp.Autobench.Sampling.Median.{IsOrder}
use hi_perf_cmp.Autobench.Process.{Log, Os, Step, ok, and_then}
use hi_perf_cmp.Autobench.Driver.Waits.{IsClock, running}
use hi_perf_cmp.Autobench.Stage
use hi_perf_cmp.Autobench.Iterate
use hi_perf_cmp.Autobench.Iterate.Ends.{and_then-Fine, Fine-itself}
use hi_perf_cmp.Autobench.Iterate.Series.{
  held, push_all-held, times-push_all, medians-Recorded, median-some,
}
use hi_perf_cmp.Autobench.Iterate.Judged.{
  Positive, Positive-append, IsBlank, Judged, Measured, Collected, nothing, more,
}
use hi_perf_cmp.Autobench.Driver.Outputs.{Yields}
use hi_perf_cmp.Autobench.Iterate.Origins.{Printed, sample-Yields}
use hi_perf_cmp.Autobench.Iterate.Samples.{Good, Reports}
use hi_perf_cmp.Autobench.Iterate.Runs.{sample-Good}

module _ {F : Type 0} (f : Floats F) (os : Os F) (from_str : Text → Option (Object F))
    (spec : TaskSpec) (n : ℕ) (clock : IsClock os) (runs : 0 < length spec.run)
    (measured : OneOf spec.primary_key spec.expected_metrics) where
  abbrev samples_of : TextMap (List F) → List F
  samples_of series = held f os from_str spec spec.primary_key series

  -- The primary metric has `i` samples so far, all positive.
  abbrev SoFar : Verdict F → Log → ℕ → TextMap (List F) → Log → Type 0
  SoFar v before i series h =
      (times spec.primary_key series ≤ 1)
      × (length (samples_of series) ≡ i)
      × Positive f (samples_of series)
      × Collected f os from_str spec v before (samples_of series) h

  abbrev sampled : Verdict F → ℕ → Log → Step F (TextMap F)
  sampled v i h =
      Iterate.sample f os from_str spec (some i) v Stage.bench_warmup Stage.bench_iterations
        spec.kind h

  push_all-SoFar :
      (v : Verdict F) (before : Log) (i : ℕ) (metrics : TextMap F) (series : TextMap (List F))
      (h h' : Log)
      → SoFar v before i series h
      → Reports f os from_str spec n metrics h'
      → sampled v i h ≡ ok metrics h'
      → SoFar v before (i + 1) (Iterate.push_all f os from_str spec metrics series) h'
  push_all-SoFar v before i metrics series h h' (few, i_of, all, c) ((x, e, pos), once) ran =
      let q = push_all-held f os from_str spec spec.primary_key metrics series once e in
      (
        times-push_all f os from_str spec spec.primary_key metrics series few,
        ap length q ∙ omega (arith, length-append (samples_of series) (x ∷ []), i_of),
        subst (Positive f) (sym q) (Positive-append f (samples_of series) x all pos),
        subst (λ xs. Collected f os from_str spec v before xs h') (sym q)
            (more c (subst (λ k. sampled v k h ≡ ok metrics h') (sym i_of) ran)
              (subst (Yields (Printed os from_str spec)) ran (
                sample-Yields f os from_str spec (some i) v Stage.bench_warmup
                  Stage.bench_iterations spec.kind h))
              e),
      )

  bench_loop-Good :
      (m i total : ℕ) (v : Verdict F) (series : TextMap (List F)) (before h : Log)
      → total ≡ m + i
      → SoFar v before i series h
      → IsBlank f v
      → running h ≡ 0
      → Good f os from_str spec n
          (SoFar v before total)
          (Iterate.bench_loop f os from_str spec m i v series h)
  unfolding Iterate.bench_loop
  bench_loop-Good zero i total v series before h e w blank z =
      let same : i ≡ total = omega arith in (z, subst (λ k. SoFar v before k series h) same w)
  bench_loop-Good (suc m) i total v series before h e w blank z =
      and_then-Fine os (Judged f os from_str spec n)
        (λ metrics h'. Reports f os from_str spec n metrics h' × (sampled v i h ≡ ok metrics h'))
        (SoFar v before total) (sampled v i h)
        (λ (metrics : TextMap F).
          Iterate.bench_loop f os from_str spec m (i + 1) v
            (Iterate.push_all f os from_str spec metrics series))
        (Fine-itself os (Judged f os from_str spec n) (Reports f os from_str spec n) (sampled v i h)
          (sample-Good f os from_str spec n clock runs measured (some i) v Stage.bench_warmup
            Stage.bench_iterations spec.kind h blank z))
        (λ metrics h' z' r.
          bench_loop-Good m (i + 1) total v (Iterate.push_all f os from_str spec metrics series)
            before h' (omega arith) (push_all-SoFar v before i metrics series h h' w r.0 r.1) blank
            z')

  -- The series of the primary metric is there once a run was sampled.
  series_there :
      (series : TextMap (List F))
      → length (samples_of series) ≡ n
      → 0 < n
      → get spec.primary_key series ≡ some (samples_of series)
  series_there series w pos = elim (Option-cases (get spec.primary_key series)) [
    | inl e ↦
        let long : length (samples_of series) ≡ 0 =
          ap (λ o. length (Iterate.or_default f os from_str spec o)) e in
        absurd (omega (arith, w))
    | inr (xs, e) ↦ e ∙ ap some (sym (ap (Iterate.or_default f os from_str spec) e))
  ]

  finalize_metrics-Good :
      IsOrder f
      → (v : Verdict F) (series : TextMap (List F)) (before h : Log) → SoFar v before n series h
      → 0 < n
      → running h ≡ 0
      → Good f os from_str spec n
          (Measured f os from_str spec n)
          (Iterate.finalize_metrics f os from_str spec v series n h)
  unfolding Iterate.finalize_metrics
  finalize_metrics-Good order v series before h w pos z =
      let (after, e, r) =
        medians-Recorded f os from_str spec spec.primary_key order series v.metrics in
      let (p, q) = median-some f os from_str spec spec.primary_key order (samples_of series) in
      let g : get spec.primary_key after ≡ some p =
        r.median_of (samples_of series) w.0 (series_there series w.1 pos) ∙ q in
      rw (Iterate.finalize_metrics, e, g)
        (
          z,
          (
            p,
            refl,
            g,
            (
              samples_of series,
              w.1,
              w.2,
              q,
              record {
                v = v;
                before = before;
                at_end = h;
                later = [];
                log = refl;
                collected = w.3;
              },
            ),
          ),
        )

  pub microbench-Good :
      IsOrder f
      → (v : Verdict F) (samples : ℕ) (h : Log)
      → n ≡ Iterate.at_least_one f os from_str spec samples
      → IsBlank f v
      → running h ≡ 0
      → Good f os from_str spec n
          (Measured f os from_str spec n)
          (Iterate.microbench f os from_str spec v samples h)
  unfolding Iterate.microbench Iterate.at_least_one times get
  microbench-Good order v samples h e blank z =
      let pos : 0 < n = ground (arith, e) in
      let none_yet : SoFar v h 0 [] h = (omega arith, refl, tt, nothing) in
      subst
        (λ k. Good f os from_str spec n (Measured f os from_str spec n) (
          and_then (Iterate.bench_loop f os from_str spec k 0 v [] h)
            (λ series. Iterate.finalize_metrics f os from_str spec v series k)))
        e
        (and_then-Fine os (Judged f os from_str spec n) (SoFar v h n)
          (Measured f os from_str spec n) (Iterate.bench_loop f os from_str spec n 0 v [] h)
          (λ (series : TextMap (List F)). Iterate.finalize_metrics f os from_str spec v series n)
          (bench_loop-Good n 0 n v [] h h (omega arith) none_yet blank z)
          (λ series h' z' w. finalize_metrics-Good order v series h h' w pos z'))
