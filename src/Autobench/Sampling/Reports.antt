-- ===== src/Autobench/Sampling/Reports.antt =====
-- What one line reports, as the code reads it and as an object that names the cell.
use hi_perf_cmp.Prelude.{
  ◌≡◌, ◌≢◌, ◌++◌, inl, inr, true, Bool-cases, Option-cases, sym, refl, ap, ◌∙◌, arith, [], ◌∷◌,
  Option, none, some, if◌then◌else◌,
}
use hi_perf_cmp.Prelude.Text.{Text, codes, same_text, same_text_sound, same_text_refl}
use hi_perf_cmp.Autobench.Sampling.{Object, trim, reading, of_object, is_text, key_value}

abbrev pub value_at : {F : Type 0} → Text → Option (Text × F) → Option F
value_at key none = none
value_at key (some (k, v)) = if same_text k key then some v else none

-- The line is an object that names the cell, and has a value under `<metric>_<unit>`.
pub record Reports {F : Type 0} (from_str : Text → Option (Object F))
    (focus_area experiment key : Text) (line : Text) (x : F) : Type 0 where
  pub o : Object F
  pub metric : Text
  pub unit : Text
  pub filled : trim line ≢ []
  pub parsed : from_str (trim line) ≡ some o
  pub of_area : o.focus_area ≡ some focus_area
  pub of_experiment : o.experiment ≡ some experiment
  pub has_metric : o.metric ≡ some metric
  pub has_unit : o.unit ≡ some unit
  pub has_value : o.value ≡ some x
  pub named : metric ++ (codes "_" ++ unit) ≡ key

pub none_ne : {F : Type 0} {x : F} → ◌≡◌ {A = Option F} none (some x) → ⊥
none_ne e = ground arith

module _ {F : Type 0} (from_str : Text → Option (Object F)) (focus_area experiment : Text) where
  is_text-some : (t : Text) (o : Option Text) → is_text t o ≡ true → o ≡ some t
  is_text-some t none e = absurd (ground arith)
  is_text-some t (some u) e = ap some (same_text_sound u t e)

  abbrev Named : Text → F → Option Text → Option Text → Option F → Type 0
  Named key x m u v =
      (metric : Text) × (unit : Text) × (m ≡ some metric)
      × (u ≡ some unit)
      × (v ≡ some x)
      × (metric ++ (codes "_" ++ unit) ≡ key)

  key_value-Named :
      (key : Text) (x : F) (m u : Option Text) (v : Option F)
      → value_at key (key_value m u v) ≡ some x
      → Named key x m u v
  key_value-Named key x none u v e = absurd (ground arith)
  key_value-Named key x (some m) none v e = absurd (ground arith)
  key_value-Named key x (some m) (some u) none e = absurd (ground arith)
  key_value-Named key x (some m) (some u) (some y) e =
      elim (Bool-cases (same_text (m ++ (codes "_" ++ u)) key)) [
        | inl same ↦
            (m, u, refl, refl, rw same at e, same_text_sound (m ++ (codes "_" ++ u)) key same)
        | inr other ↦ absurd (ground arith)
      ]

  value_at-Reports :
      (key line : Text) (x : F) (o : Object F)
      → trim line ≢ []
      → from_str (trim line) ≡ some o
      → value_at key (of_object from_str focus_area experiment (some o)) ≡ some x
      → Reports from_str focus_area experiment key line x
  unfolding of_object
  value_at-Reports key line x o filled parsed e =
      elim (Bool-cases (is_text focus_area o.focus_area)) [
        | inl a ↦ elim (Bool-cases (is_text experiment o.experiment)) [
          | inl b ↦
              let (metric, unit, m, u, v, n) =
                key_value-Named key x o.metric o.unit o.value (rw (of_object, a, b) at e) in
              record {
                o = o;
                metric = metric;
                unit = unit;
                filled = filled;
                parsed = parsed;
                of_area = is_text-some focus_area o.focus_area a;
                of_experiment = is_text-some experiment o.experiment b;
                has_metric = m;
                has_unit = u;
                has_value = v;
                named = n;
              }
          | inr b ↦ absurd (none_ne (rw (of_object, a, b) at e))
        ]
        | inr a ↦ absurd (none_ne (rw (of_object, a) at e))
      ]

  Reports-value_at :
      (key : Text) (x : F) (o : Object F) (metric unit : Text)
      → o.focus_area ≡ some focus_area
      → o.experiment ≡ some experiment
      → o.metric ≡ some metric
      → o.unit ≡ some unit
      → o.value ≡ some x
      → metric ++ (codes "_" ++ unit) ≡ key
      → value_at key (of_object from_str focus_area experiment (some o)) ≡ some x
  unfolding of_object
  Reports-value_at key x o metric unit a b c d v n =
      rw
        (
          of_object,
          a,
          b,
          c,
          d,
          v,
          same_text_refl focus_area,
          same_text_refl experiment,
          n,
          same_text_refl key,
        )
        refl

  -- What the code makes of a line, by the key.
  abbrev pub line_value : Text → Text → Option F
  line_value key line = value_at key (reading from_str focus_area experiment (trim line))

  pub line_value-Reports :
      (key line : Text) (x : F)
      → line_value key line ≡ some x
      → Reports from_str focus_area experiment key line x
  unfolding reading of_object
  line_value-Reports key line x e = of_trimmed (trim line) refl e
    where
      of_trimmed :
          (t : Text)
          → trim line ≡ t
          → value_at key (reading from_str focus_area experiment t) ≡ some x
          → Reports from_str focus_area experiment key line x
      of_trimmed [] s q = absurd (none_ne q)
      of_trimmed (c ∷ cs) s q = elim (Option-cases (from_str (c ∷ cs))) [
        | inl z ↦ absurd (none_ne (rw z at q))
        | inr (o, p) ↦ value_at-Reports key line x o (λ n. ground arith) (rw s p) (rw p at q)
      ]

  pub Reports-line_value :
      (key line : Text) (x : F)
      → Reports from_str focus_area experiment key line x
      → line_value key line ≡ some x
  unfolding reading
  Reports-line_value key line x r = of_trimmed (trim line) refl
    where
      of_trimmed :
          (t : Text)
          → trim line ≡ t
          → value_at key (reading from_str focus_area experiment t) ≡ some x
      of_trimmed [] s = absurd (r.filled s)
      of_trimmed (c ∷ cs) s =
          let p : from_str (c ∷ cs) ≡ some r.o = ap from_str (sym s) ∙ r.parsed in
          rw p (
            Reports-value_at key x r.o r.metric r.unit r.of_area r.of_experiment r.has_metric
              r.has_unit r.has_value r.named)
