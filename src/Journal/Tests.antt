-- ===== src/Journal/Tests.antt =====
-- The index of a small run, over whole numbers for the floats.
use hi_perf_cmp.Prelude.{
  ℕ, ◌-◌, ◌*◌, ◌/◌, ◌≡◌, refl, List, [], ◌∷◌, none, some, ◌==◌, ltb, ◌&&◌, not,
}
use hi_perf_cmp.Journal.Compare.{
  CellKey, same_key, Floats, ResultLine, cell_key, is_placeholder, put, get, index, index_from,
  join,
}
use hi_perf_cmp.Journal.Compare.Joins.{is_found, find, listed, both, find-join}
use hi_perf_cmp.Journal.Compare.Index.{last_line, get-index}
use hi_perf_cmp.Prelude.Text.{same_text}

abbrev whole : Floats ℕ
whole = record {
  zero = 0;
  hundred = 100;
  minus = λ a b. a - b;
  times = λ a b. a * b;
  over = λ a b. a / b;
  abs = λ a. a;
  less = ltb;
  equal = λ a b. a == b;
}

abbrev line : ℕ → ResultLine ℕ
line v = record {
  language = 114 ∷ [];
  focus_area = 115 ∷ [];
  experiment = 120 ∷ [];
  metric = 112 ∷ [];
  value = v;
  unit = 110 ∷ 115 ∷ [];
  samples = 1;
  notes = none;
}

abbrev run_lines : List (ResultLine ℕ)
run_lines = line 5 ∷ line 7 ∷ line 0 ∷ []

abbrev cell : CellKey
cell = record {
  focus_area = 115 ∷ [];
  experiment = 120 ∷ [];
  language = 114 ∷ [];
  metric = 112 ∷ [];
}

-- The zero line is a placeholder, and of the other two the later one counts.
found_line : get whole cell (index whole run_lines) ≡ some (line 7)
unfolding get index index_from put cell_key is_placeholder same_key same_text
found_line = refl

get-index_example : get whole cell (index whole run_lines) ≡ last_line whole cell none run_lines
get-index_example = get-index whole cell run_lines

-- The runs share the cell, and nothing is added or removed.
find-join_example :
    (find cell (join whole run_lines (line 3 ∷ []) 1).shared
      ≡ both whole cell 1
          (last_line whole cell none run_lines)
          (last_line whole cell none (line 3 ∷ [])))
    × (listed cell (join whole run_lines (line 3 ∷ []) 1).added ≡ (
        is_found (last_line whole cell none (line 3 ∷ []))
        && not (is_found (last_line whole cell none run_lines))))
    × (listed cell (join whole run_lines (line 3 ∷ []) 1).removed ≡ (
        is_found (last_line whole cell none run_lines)
        && not (is_found (last_line whole cell none (line 3 ∷ [])))))
find-join_example = find-join whole cell run_lines (line 3 ∷ []) 1
