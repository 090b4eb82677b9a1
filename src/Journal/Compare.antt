-- ===== src/Journal/Compare.antt =====
-- tools/journal/src/model.rs and compare.rs: result lines by cell, and the verdicts on two runs. An f64
-- is a type that is given with its operations; a text is the codes of its characters.
pub mod Index
pub mod Joins
use hi_perf_cmp.Prelude.{
  ℕ, List, [], ◌∷◌, Option, none, some, Bool, true, false, ◌&&◌, ◌||◌, if◌then◌else◌,
}
use hi_perf_cmp.Prelude.Text.{Text, same_text, text_before}

pub record CellKey : Type 0 where
  pub focus_area : Text
  pub experiment : Text
  pub language : Text
  pub metric : Text

unfoldable pub same_key : CellKey → CellKey → Bool
same_key a b =
    same_text a.focus_area b.focus_area
    && (same_text a.experiment b.experiment
        && (same_text a.language b.language && same_text a.metric b.metric))

unfoldable pub key_before : CellKey → CellKey → Bool
key_before a b =
    text_before a.focus_area b.focus_area
    || (same_text a.focus_area b.focus_area
        && (text_before a.experiment b.experiment
            || (same_text a.experiment b.experiment
                && (text_before a.language b.language
                    || (same_text a.language b.language && text_before a.metric b.metric)))))

pub record Floats (F : Type 0) : Type 0 where
  pub zero : F
  pub hundred : F
  pub minus : F → F → F
  pub times : F → F → F
  pub over : F → F → F
  pub abs : F → F
  pub less : F → F → Bool
  pub equal : F → F → Bool

pub record ResultLine (F : Type 0) : Type 0 where
  pub language : Text
  pub focus_area : Text
  pub experiment : Text
  pub metric : Text
  pub value : F
  pub unit : Text
  pub samples : ℕ  -- i64
  pub notes : Option Text

-- "placeholder"
abbrev pub placeholder : Text
placeholder = 112 ∷ 108 ∷ 97 ∷ 99 ∷ 101 ∷ 104 ∷ 111 ∷ 108 ∷ 100 ∷ 101 ∷ 114 ∷ []

pub data Direction : Type 0 where
  lower_better : Direction
  higher_better : Direction
  unknown : Direction

pub data Verdict : Type 0 where
  regression : Verdict
  improvement : Verdict
  same : Verdict

abbrev pub one_of : Text → List Text → Bool
one_of t [] = false
one_of t (x ∷ xs) = same_text t x || one_of t xs

-- "ns", "us", "ms", "s"
abbrev pub times_units : List Text
times_units = (110 ∷ 115 ∷ []) ∷ (117 ∷ 115 ∷ []) ∷ (109 ∷ 115 ∷ []) ∷ (115 ∷ []) ∷ []

-- "ops_per_sec", "bytes_per_sec"
abbrev pub rate_units : List Text
rate_units =
    (111 ∷ 112 ∷ 115 ∷ 95 ∷ 112 ∷ 101 ∷ 114 ∷ 95 ∷ 115 ∷ 101 ∷ 99 ∷ [])
    ∷ (98 ∷ 121 ∷ 116 ∷ 101 ∷ 115 ∷ 95 ∷ 112 ∷ 101 ∷ 114 ∷ 95 ∷ 115 ∷ 101 ∷ 99 ∷ [])
    ∷ []

unfoldable pub from_unit : Text → Direction
from_unit unit =
    if one_of unit times_units
    then lower_better
    else if one_of unit rate_units
    then higher_better
    else unknown

unfoldable pub effective_lower_better : Direction → Bool
effective_lower_better lower_better = true
effective_lower_better higher_better = false
effective_lower_better unknown = true

module _ {F : Type 0} (fl : Floats F) where
  unfoldable pub cell_key : ResultLine F → CellKey
  cell_key l = record {
    focus_area = l.focus_area;
    experiment = l.experiment;
    language = l.language;
    metric = l.metric;
  }

  unfoldable pub is_placeholder : ResultLine F → Bool
  is_placeholder l = same_text l.experiment placeholder || fl.equal l.value fl.zero

  -- `BTreeMap<CellKey, &ResultLine>`, in the order of its keys
  unfoldable pub put :
      CellKey → ResultLine F → List (CellKey × ResultLine F) → List (CellKey × ResultLine F)
  put k v [] = (k, v) ∷ []
  put k v ((k', v') ∷ m) =
      let rest = put k v m in
      if same_key k k'
      then (k', v) ∷ m
      else if key_before k k'
      then (k, v) ∷ (k', v') ∷ m
      else (k', v') ∷ rest

  unfoldable pub get : CellKey → List (CellKey × ResultLine F) → Option (ResultLine F)
  get k [] = none
  get k ((k', v') ∷ m) = let rest = get k m in if same_key k k' then some v' else rest

  -- The loop of `index` over the lines that are left.
  unfoldable pub index_from :
      List (CellKey × ResultLine F) → List (ResultLine F) → List (CellKey × ResultLine F)
  index_from m [] = m
  index_from m (l ∷ ls) = index_from (if is_placeholder l then m else put (cell_key l) l m) ls

  unfoldable pub index : List (ResultLine F) → List (CellKey × ResultLine F)
  index lines = index_from [] lines

  unfoldable pub pct_delta : F → F → Option F
  pct_delta a b =
      if fl.equal a fl.zero
      then none
      else some (fl.times (fl.over (fl.minus b a) (fl.abs a)) fl.hundred)

  unfoldable pub verdict : Option F → Direction → F → Verdict
  verdict none direction threshold = same
  verdict (some pct) direction threshold =
      if fl.less (fl.abs pct) threshold
      then same
      else if effective_lower_better direction
      then (if fl.less fl.zero pct then regression else improvement)
      else (if fl.less pct fl.zero then regression else improvement)

  unfoldable pub classify : F → F → Text → F → F × Option F × Verdict × Direction
  classify a b unit threshold =
      let direction = from_unit unit in
      let pct = pct_delta a b in (fl.minus b a, pct, verdict pct direction threshold, direction)

pub record Comparison (F : Type 0) : Type 0 where
  pub key : CellKey
  pub unit : Text
  pub direction : Direction
  pub a : F
  pub b : F
  pub abs_delta : F
  pub pct_delta : Option F
  pub verdict : Verdict
  pub unknown_unit : Bool

pub record JoinResult (F : Type 0) : Type 0 where
  pub shared : List (Comparison F)
  pub added : List CellKey
  pub removed : List CellKey

abbrev pub is_unknown : Direction → Bool
is_unknown lower_better = false
is_unknown higher_better = false
is_unknown unknown = true

module _ {F : Type 0} (fl : Floats F) where
  unfoldable pub compared : CellKey → ResultLine F → ResultLine F → F → Comparison F
  compared k x y threshold =
      let c = classify fl x.value y.value y.unit threshold in
      record {
        key = k;
        unit = y.unit;
        direction = c.3;
        a = x.value;
        b = y.value;
        abs_delta = c.0;
        pct_delta = c.1;
        verdict = c.2;
        unknown_unit = is_unknown c.3;
      }

  -- The loop over the cells of run A: the cells in both runs, and those in A only.
  unfoldable pub join_shared :
      F → List (CellKey × ResultLine F) → List (CellKey × ResultLine F) → List (Comparison F)
  join_shared threshold [] b = []
  join_shared threshold ((k, x) ∷ a) b =
      let rest = join_shared threshold a b in
      elim (get fl k b) [ none ↦ rest | some y ↦ compared k x y threshold ∷ rest ]

  -- The cells of the first run that the second has not.
  unfoldable pub keys_only_in :
      List (CellKey × ResultLine F) → List (CellKey × ResultLine F) → List CellKey
  keys_only_in [] b = []
  keys_only_in ((k, x) ∷ a) b =
      let rest = keys_only_in a b in elim (get fl k b) [ none ↦ k ∷ rest | some y ↦ rest ]

  unfoldable pub join : List (ResultLine F) → List (ResultLine F) → F → JoinResult F
  join a_lines b_lines threshold =
      let a = index fl a_lines in
      let b = index fl b_lines in
      record {
        shared = join_shared threshold a b;
        added = keys_only_in b a;
        removed = keys_only_in a b;
      }

abbrev pub is_regression : Verdict → Bool
is_regression regression = true
is_regression improvement = false
is_regression same = false

unfoldable pub has_regression : {F : Type 0} → List (Comparison F) → Bool
has_regression [] = false
has_regression (c ∷ cs) = is_regression c.verdict || has_regression cs
