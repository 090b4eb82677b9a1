-- ===== src/Autobench/Iterate/Whole.antt =====
-- What a run with a registered task ends with.
use hi_perf_cmp.Prelude.Text.{Text}
use hi_perf_cmp.Autobench.TaskSpec.{TaskSpec}
use hi_perf_cmp.Autobench.Iterate.Judged.{Judged}
