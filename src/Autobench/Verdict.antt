-- ===== src/Autobench/Verdict.antt =====
-- autobench/src/verdict.rs: how two values of a metric compare, and the object that a run emits.
use hi_perf_cmp.Prelude.{Option, none, some, Bool, true, false, []}
use hi_perf_cmp.Prelude.Text.{Text}
use hi_perf_cmp.Prelude.TextMap.{TextMap}
use Prim.Native.Nat.{Ordering}

-- The operations of f64 that the code uses: `partial_cmp` has no result on a NaN.
pub record Floats (F : Type 0) : Type 0 where
  pub zero : F
  pub partial_cmp : F → F → Option Ordering

pub data Direction : Type 0 where
  minimize : Direction
  maximize : Direction

pub data Status : Type 0 where
  pass build_failed correctness_failed microbench_failed tests_failed : Status
  timeout unknown_task : Status

pub record Durations (F : Type 0) : Type 0 where
  pub build : F
  pub correctness : F
  pub microbench : F
  pub tests : F

pub record Verdict (F : Type 0) : Type 0 where
  pub status : Status
  pub stage : Text
  pub duration_s : Durations F
  pub metrics : TextMap F
  pub primary : Option F
  pub stderr_tail : Option Text

module _ {F : Type 0} (f : Floats F) where
  -- `a < b`
  unfoldable pub less : F → F → Bool
  less a b = elim (f.partial_cmp a b) [ some Ordering.lt ↦ true | _ ↦ false ]

  -- `a <= b`
  unfoldable pub at_most : F → F → Bool
  at_most a b = elim (f.partial_cmp a b) [
    | some Ordering.lt ↦ true
    | some Ordering.eq ↦ true
    | _ ↦ false
  ]

  unfoldable pub improves : Direction → F → F → Bool
  improves minimize candidate champion = less candidate champion
  improves maximize candidate champion = less champion candidate

  unfoldable pub new : Status → Text → Verdict F
  new status stage = record {
    status = status;
    stage = stage;
    duration_s = record {
      build = f.zero;
      correctness = f.zero;
      microbench = f.zero;
      tests = f.zero;
    };
    metrics = [];
    primary = none;
    stderr_tail = none;
  }
