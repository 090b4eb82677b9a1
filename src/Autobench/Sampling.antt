-- ===== src/Autobench/Sampling.antt =====
-- autobench/src/sampling.rs: the lines that a run reports, and the median over runs. The JSON of a
-- line is parsed by serde_json: `from_str` is given, and yields the members of the object that the
-- code looks at, `none` where one is missing or of another kind.
pub mod Median
pub mod Reports
pub mod Metrics
use Prim.Native.Nat.{Ordering}
use hi_perf_cmp.Prelude.{
  ℕ, ◌-◌, ◌/◌, List, [], ◌∷◌, ◌++◌, Option, none, some, Bool, true, false, ◌==◌, ◌||◌, ◌&&◌, leb,
  length, get_elem?, if◌then◌else◌,
}
use mathlib.Core.List.{reverse}
use hi_perf_cmp.Prelude.Text.{Text, codes, same_text}
use hi_perf_cmp.Prelude.TextMap.{TextMap, insert}
use hi_perf_cmp.Autobench.Verdict.{Floats}

pub data Transport : Type 0 where
  tcp : Transport
  udp : Transport
  quic : Transport

unfoldable pub from_experiment : Text → Transport
from_experiment experiment =
    if same_text experiment (codes "udp")
    then udp
    else if same_text experiment (codes "quic")
    then quic
    else tcp

unfoldable pub port_env : Transport → Text
port_env tcp = codes "RTT_TCP_PORT"
port_env udp = codes "RTT_UDP_PORT"
port_env quic = codes "RTT_QUIC_PORT"

module _ {F : Type 0} (f : Floats F) where
  -- `x` in front of the first that is not less; `none` is the panic on a NaN.
  unfoldable pub place : F → List F → Option (List F)
  place x [] = some (x ∷ [])
  place x (y ∷ ys) = elim (f.partial_cmp x y) [
    | none ↦ none
    | some Ordering.gt ↦ elim (place x ys) [ none ↦ none | some zs ↦ some (y ∷ zs) ]
    | some _ ↦ some (x ∷ y ∷ ys)
  ]

  -- `sort_by`, with the comparison that panics on a NaN
  unfoldable pub sort_by : List F → Option (List F)
  sort_by [] = some []
  sort_by (x ∷ xs) = elim (sort_by xs) [ none ↦ none | some ys ↦ place x ys ]

  unfoldable pub median : List F → Option F
  median [] = some f.zero
  median (x ∷ xs) = elim (sort_by (x ∷ xs)) [
    | none ↦ none
    | some v ↦ get_elem? v ((length v - 1) / 2)
  ]

-- What the code looks at in a line's object.
pub record Object (F : Type 0) : Type 0 where
  pub focus_area : Option Text
  pub experiment : Option Text
  pub metric : Option Text
  pub unit : Option Text
  pub value : Option F

abbrev pub is_text : Text → Option Text → Bool
is_text t none = false
is_text t (some u) = same_text u t

-- The characters of the Unicode property White_Space.
abbrev pub is_space : ℕ → Bool
is_space c =
    (leb 9 c && leb c 13)
    || ((c == 32)
        || ((c == 133)
            || ((c == 160)
                || ((c == 5760)
                    || ((leb 8192 c && leb c 8202)
                        || ((c == 8232)
                            || ((c == 8233) || ((c == 8239) || ((c == 8287) || (c == 12288))))))))))

unfoldable pub trim_start : Text → Text
trim_start [] = []
trim_start (c ∷ cs) = if is_space c then trim_start cs else c ∷ cs

unfoldable pub trim : Text → Text
trim t = reverse (trim_start (reverse (trim_start t)))

abbrev pub ended : Text → List Text
ended [] = []
ended (b ∷ line) = (b ∷ line) ∷ []

-- The lines of a text, without their ends, after a line that is begun.
unfoldable pub lines_from : Text → Text → List Text
lines_from line [] = ended line
lines_from line (c ∷ cs) = elim (c == 10) [
  | true ↦ line ∷ lines_from [] cs
  | false ↦ lines_from (line ++ (c ∷ [])) cs
]

abbrev pub key_value : {F : Type 0} → Option Text → Option Text → Option F → Option (Text × F)
key_value none unit value = none
key_value (some metric) none value = none
key_value (some metric) (some unit) none = none
key_value (some metric) (some unit) (some value) = some (metric ++ (codes "_" ++ unit), value)

module _ {F : Type 0} (from_str : Text → Option (Object F)) (focus_area experiment : Text) where
  -- The key and value of an object that reports on this cell.
  unfoldable pub of_object : Option (Object F) → Option (Text × F)
  of_object none = none
  of_object (some v) =
      if is_text focus_area v.focus_area
      then if is_text experiment v.experiment then key_value v.metric v.unit v.value else none
      else none

  unfoldable pub reading : Text → Option (Text × F)
  reading [] = none
  reading (c ∷ line) = of_object (from_str (c ∷ line))

  unfoldable pub add_reading : Option (Text × F) → TextMap F → TextMap F
  add_reading none out = out
  add_reading (some (key, value)) out = insert key value out

  unfoldable pub parse_lines : List Text → TextMap F → TextMap F
  parse_lines [] out = out
  parse_lines (line ∷ rest) out = parse_lines rest (add_reading (reading (trim line)) out)

  unfoldable pub parse_contract_metrics : Text → TextMap F
  parse_contract_metrics stdout = parse_lines (lines_from [] stdout) []
