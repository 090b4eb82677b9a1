-- ===== src/Autobench/Iterate/Series.antt =====
-- The samples of one metric over the runs, and their median.
use hi_perf_cmp.Prelude.{
  ◌≤◌, ◌≡◌, refl, ap, ◌∙◌, arith, List, [], ◌∷◌, ◌++◌, Option, none, some, inl, inr, Bool-cases,
  if◌then◌else◌,
}
use hi_perf_cmp.Prelude.Text.{Text, same_text, same_text_sound}
use hi_perf_cmp.Prelude.TextMap.{TextMap, get, insert, times, get-insert, times-insert}
use hi_perf_cmp.Autobench.Verdict.{Floats}
use hi_perf_cmp.Autobench.Sampling.{Object, median}
use hi_perf_cmp.Autobench.Sampling.Median.{IsOrder, median-Middle}
use hi_perf_cmp.Autobench.TaskSpec.{TaskSpec}
use hi_perf_cmp.Autobench.Process.{Os}
use hi_perf_cmp.Autobench.Iterate.{or_default, push, push_all, medians}

get-times_zero : {V : Type 0} (k : Text) (m : TextMap V) → times k m ≡ 0 → get k m ≡ none
unfolding get times
get-times_zero k [] e = refl
get-times_zero k ((j, w) ∷ m) e = ground (arith, get-times_zero k m)

module _ {F : Type 0} (f : Floats F) (os : Os F) (from_str : Text → Option (Object F))
    (spec : TaskSpec) (key : Text) where
  abbrev pub held : TextMap (List F) → List F
  held series = or_default f os from_str spec (get key series)

  push_lem :
      (k : Text) (val : F) (series : TextMap (List F))
      → held (push f os from_str spec k val series)
        ≡ (if same_text k key then held series ++ (val ∷ []) else held series)
  unfolding push
  push_lem k val series = elim (Bool-cases (same_text k key)) [
    | inl same ↦
        let e : k ≡ key = same_text_sound k key same in
        ap (or_default f os from_str spec) (get-insert k key _ series) ∙ rw (same, e) refl
    | inr other ↦ ap (or_default f os from_str spec) (get-insert k key _ series) ∙ rw other refl
  ]

  push_all-other :
      (m : TextMap F) (series : TextMap (List F))
      → times key m ≡ 0
      → held (push_all f os from_str spec m series) ≡ held series
  unfolding push_all times
  push_all-other [] series e = refl
  push_all-other ((k, val) ∷ rest) series e =
      push_all-other rest (push f os from_str spec k val series) (ground arith)
      ∙ (push_lem k val series ∙ ground arith)

  -- A run adds its value of the metric to those before.
  pub push_all-held :
      (m : TextMap F) (series : TextMap (List F)) {x : F}
      → times key m ≤ 1
      → get key m ≡ some x
      → held (push_all f os from_str spec m series) ≡ held series ++ (x ∷ [])
  unfolding push_all times get
  push_all-held [] series once e = absurd (ground arith)
  push_all-held ((k, val) ∷ rest) series {x} once e = elim (Bool-cases (same_text k key)) [
    | inl same ↦
        let v : val ≡ x = ground arith in
        push_all-other rest (push f os from_str spec k val series) (ground arith)
        ∙ (push_lem k val series ∙ rw (same, v) refl)
    | inr other ↦
        push_all-held rest (push f os from_str spec k val series) (ground arith) (ground arith)
        ∙ ap (λ l. l ++ (x ∷ [])) (push_lem k val series ∙ rw other refl)
  ]

  pub times-push_all :
      (m : TextMap F) (series : TextMap (List F))
      → times key series ≤ 1
      → times key (push_all f os from_str spec m series) ≤ 1
  unfolding push_all push
  times-push_all [] series once = once
  times-push_all ((k, val) ∷ rest) series once =
      times-push_all rest (push f os from_str spec k val series) (times-insert k key _ series once)

  -- There is a median of whatever was sampled.
  pub median-some : IsOrder f → (xs : List F) → (m : F) × (median f xs ≡ some m)
  unfolding median
  median-some w [] = (f.zero, refl)
  median-some w (x ∷ xs) = let (m, q) = median-Middle f w x xs in (m, q.0)

  pub record Recorded (series : TextMap (List F)) (before after : TextMap F) : Type 0 where
    pub others : times key series ≡ 0 → get key after ≡ get key before
    pub median_of :
        (xs : List F)
        → times key series ≤ 1
        → get key series ≡ some xs
        → get key after ≡ median f xs

  -- The recorded metric is the median of its samples.
  pub medians-Recorded :
      IsOrder f
      → (series : TextMap (List F)) (before : TextMap F)
      → (after : TextMap F) × (medians f os from_str spec series before ≡ some after)
        × Recorded series before after
  unfolding medians times get
  medians-Recorded w [] before =
      (before, refl, record { others = λ e. refl; median_of = λ xs once e. absurd (ground arith) })
  medians-Recorded w ((k, vals) ∷ rest) before =
      let (m, q) = median-some w vals in
      let (after, e, r) = medians-Recorded w rest (insert k m before) in
      (
        after,
        rw (medians, q) e,
        record {
          others = λ z. ground (arith, r.others, get-insert k key m before);
          median_of =
              λ xs once g. ground (arith, r.others, r.median_of xs, get-insert k key m before, q);
        },
      )
