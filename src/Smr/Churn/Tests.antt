-- ===== src/Smr/Churn/Tests.antt =====
-- The driver on a small configuration.
use hi_perf_cmp.Prelude.{false, arith}
use hi_perf_cmp.Prelude.Run.{◌>>◌}
use hi_perf_cmp.Smr.Level.{SmrConfig}
use hi_perf_cmp.Smr.Book
use hi_perf_cmp.Smr.Churn.{new, book_store, prebuild, drive}
use hi_perf_cmp.Smr.Churn.Total.{IsRoomy, Completes, churn-Completes}
use hi_perf_cmp.Smr.Churn.CowTotal.{CowCompletes, churn-CowCompletes}

abbrev roomy : SmrConfig
roomy = record {
  cap = 5;
  levels = 16;
  tick = 2;
  price_min = 100;
  steady = 4;
  warmup = 1;
  iters = 9;
  chunk = 3;
  apply_batch = 1;
  multi_table = false;
  live_iters = 20;
  snap_every = 2;
  otr_bps = 100;
}

roomy-IsRoomy : IsRoomy roomy
roomy-IsRoomy = ground arith

churn-Completes_example :
    Completes ((prebuild book_store 4 >> drive book_store 9) (new roomy, Book.new roomy))
churn-Completes_example = churn-Completes roomy 9 roomy-IsRoomy (omega arith)

churn-CowCompletes_example : CowCompletes roomy 9
churn-CowCompletes_example = churn-CowCompletes roomy 9 roomy-IsRoomy (omega arith) (omega arith)
