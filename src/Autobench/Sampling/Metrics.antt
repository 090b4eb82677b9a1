-- ===== src/Autobench/Sampling/Metrics.antt =====
-- The metrics that a run's lines report.
use hi_perf_cmp.Prelude.{
  ◌≤◌, ◌≡◌, ◌⊎◌, inl, inr, sym, refl, ap, ◌∙◌, arith, List, [], ◌∷◌, Option, none, some,
}
use mathlib.Core.Path.{subst}
use hi_perf_cmp.Prelude.Text.{Text}
use hi_perf_cmp.Prelude.TextMap.{TextMap, get, get-insert, times, times-insert}
use hi_perf_cmp.Autobench.Sampling.Reports.{
  value_at, Reports, none_ne, line_value, line_value-Reports, Reports-line_value,
}
use hi_perf_cmp.Autobench.Sampling.{
  Object, trim, lines_from, reading, add_reading, parse_lines, parse_contract_metrics,
}

abbrev pub or_else : {F : Type 0} → Option F → Option F → Option F
or_else (some v) o = some v
or_else none o = o

module _ {F : Type 0} (from_str : Text → Option (Object F)) (focus_area experiment : Text) where
  -- The value under the key of the last of the lines that has one.
  unfoldable last_value : Text → List Text → Option F
  last_value key [] = none
  last_value key (line ∷ rest) =
      or_else (last_value key rest)
        (value_at key (reading from_str focus_area experiment (trim line)))

  add_value :
      (key : Text) (r : Option (Text × F)) (out : TextMap F)
      → get key (add_reading from_str focus_area experiment r out)
        ≡ or_else (value_at key r) (get key out)
  unfolding add_reading
  add_value key none out = refl
  add_value key (some (k, v)) out = ground (arith, get-insert k key v out)

  or_else_assoc : (a b c : Option F) → or_else a (or_else b c) ≡ or_else (or_else a b) c
  or_else_assoc none b c = refl
  or_else_assoc (some v) b c = refl

  parse_value :
      (key : Text) (lines : List Text) (out : TextMap F)
      → get key (parse_lines from_str focus_area experiment lines out)
        ≡ or_else (last_value key lines) (get key out)
  unfolding parse_lines last_value
  parse_value key [] out = refl
  parse_value key (line ∷ rest) out =
      let r = reading from_str focus_area experiment (trim line) in
      parse_value key rest (add_reading from_str focus_area experiment r out)
      ∙ (ap (or_else (last_value key rest)) (add_value key r out)
          ∙ or_else_assoc (last_value key rest) (value_at key r) (get key out))

  or_else-none : (o : Option F) → or_else o none ≡ o
  or_else-none none = refl
  or_else-none (some v) = refl

  get-last_value :
      (key stdout : Text)
      → get key (parse_contract_metrics from_str focus_area experiment stdout)
        ≡ last_value key (lines_from [] stdout)
  unfolding parse_contract_metrics get
  get-last_value key stdout =
      parse_value key (lines_from [] stdout) []
      ∙ or_else-none (last_value key (lines_from [] stdout))

  -- No line has a value under the key.
  abbrev pub AllSilent : Text → List Text → Type 0
  AllSilent key [] = Unit {0}
  AllSilent key (line ∷ rest) =
      ((x : F) → ¬ Reports from_str focus_area experiment key line x) × AllSilent key rest

  -- The last line that has a value under the key has this one.
  abbrev pub LastReports : Text → List Text → F → Type 0
  LastReports key [] x = ⊥
  LastReports key (line ∷ rest) x =
      (Reports from_str focus_area experiment key line x × AllSilent key rest)
      ⊎ LastReports key rest x

  abbrev pub Answers : Text → List Text → Option F → Type 0
  Answers key lines none = AllSilent key lines
  Answers key lines (some x) = LastReports key lines x

  or_else-Answers :
      (key line : Text) (rest : List Text) (a b : Option F)
      → Answers key rest a
      → line_value from_str focus_area experiment key line ≡ b
      → Answers key (line ∷ rest) (or_else a b)
  or_else-Answers key line rest (some x) b w e = inr w
  or_else-Answers key line rest none (some x) w e =
      inl (line_value-Reports from_str focus_area experiment key line x e, w)
  or_else-Answers key line rest none none w e =
      (λ x r. none_ne (sym e ∙ Reports-line_value from_str focus_area experiment key line x r), w)

  last_value-Answers : (key : Text) (lines : List Text) → Answers key lines (last_value key lines)
  unfolding last_value
  last_value-Answers key [] = tt
  last_value-Answers key (line ∷ rest) =
      or_else-Answers key line rest (last_value key rest)
        (line_value from_str focus_area experiment key line) (last_value-Answers key rest) refl

  -- The parsed metrics have a value under a key when a line is an object that names the cell's
  -- focus area and experiment and has a metric, a unit and a number, with the metric and the unit,
  -- joined by `_`, as the key; it is the number of the last such line. With no such line they have
  -- none.
  pub parse_contract_metrics-Answers :
      (key stdout : Text)
      → Answers key
          (lines_from [] stdout)
          (get key (parse_contract_metrics from_str focus_area experiment stdout))
  parse_contract_metrics-Answers key stdout =
      subst (Answers key (lines_from [] stdout)) (sym (get-last_value key stdout))
        (last_value-Answers key (lines_from [] stdout))

  times-parse_lines :
      (key : Text) (lines : List Text) (out : TextMap F)
      → times key out ≤ 1
      → times key (parse_lines from_str focus_area experiment lines out) ≤ 1
  unfolding parse_lines add_reading
  times-parse_lines key [] out once = once
  times-parse_lines key (line ∷ rest) out once =
      let r = reading from_str focus_area experiment (trim line) in
      times-parse_lines key rest (add_reading from_str focus_area experiment r out)
        (times-add_reading r)
    where
      times-add_reading :
          (r : Option (Text × F)) → times key (add_reading from_str focus_area experiment r out) ≤ 1
      times-add_reading none = once
      times-add_reading (some (k, v)) = times-insert k key v out once

  -- No key is reported twice.
  pub times-parse_contract_metrics :
      (key stdout : Text)
      → times key (parse_contract_metrics from_str focus_area experiment stdout) ≤ 1
  unfolding parse_contract_metrics times
  times-parse_contract_metrics key stdout =
      times-parse_lines key (lines_from [] stdout) [] (omega arith)
