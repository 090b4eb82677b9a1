-- ===== src/Smr/Snapshot/Tests.antt =====
-- A book with one order, encoded and restored.
use mathlib.Core.Path.{subst, sym}
use hi_perf_cmp.Prelude.{
  ℕ, List, take, ◌^◌, ◌%◌, length, ◌≡◌, refl, arith, inr, false, ◌-◌, set, replicate, get_or-set,
  get_or-replicate,
}
use hi_perf_cmp.Prelude.Run.{ok}
use hi_perf_cmp.Prelude.Word.{div_i64}
use hi_perf_cmp.Smr.Level.{
  nil, SmrConfig, Order, PriceLevel, empty_level, zero_order, no_ids, put_id,
}
use hi_perf_cmp.Smr.Book
use hi_perf_cmp.Smr.Book.{Book}
use hi_perf_cmp.Smr.Book.View.{arrived}
use hi_perf_cmp.Smr.Book.Access.{place}
use hi_perf_cmp.Smr.Book.InsertRuns.{IsBook}
use hi_perf_cmp.Smr.Book.Fresh.{no_orders, new-IsBook}
use hi_perf_cmp.Smr.Book.Arrivals.{Arrived, insert-Arrived}
use hi_perf_cmp.Smr.Snapshot.{lane_entries, level_entry}
use hi_perf_cmp.Smr.Lockstep.{Shows}
use hi_perf_cmp.Smr.Snapshot.Restore.{restore}
use hi_perf_cmp.Smr.Snapshot.RestoreCow.{restore_cow}
use hi_perf_cmp.Smr.Snapshot.RestoreCow.Alike.{restore_cow-Alike}
use hi_perf_cmp.Smr.Snapshot.RestoreCow.Ends.{Alike}
use hi_perf_cmp.Smr.Snapshot.Refusals.{Checked, restore-Checked}
use hi_perf_cmp.Smr.Snapshot.Fields.{IsWordy}
use hi_perf_cmp.Smr.Snapshot.RoundTrip.{Returned, restore-encode}

abbrev small : SmrConfig
small = record {
  cap = 4;
  levels = 5;
  tick = 1;
  price_min = 0;
  steady = 2;
  warmup = 0;
  iters = 0;
  chunk = 3;
  apply_batch = 64;
  multi_table = false;
  live_iters = 200000;
  snap_every = 20000;
  otr_bps = 100;
}

-- Order 7 of 5 at price 3 on the bid side.
arrival : Arrived no_orders (Book.new small) 7 3 5 0 3
unfolding Book.new place div_i64
arrival =
    insert-Arrived no_orders (Book.new small) 7 3 5 0 3
      (new-IsBook small (omega arith) (omega arith)) (inr (omega arith)) (ground arith) refl
      (omega arith) (omega arith) refl (omega arith)

abbrev order : Order
order = record { order_id = 7; price = 3; qty = 5; filled = 0; next = nil; prev = nil; side = 0 }

abbrev level : PriceLevel
level = record { head = 0; tail = 0; qty_total = 5; count = 1 }

abbrev one : Book
one = record {
  price_min = 0;
  tick = 1;
  n_levels = 5;
  bids = set (replicate 5 empty_level) 3 level;
  asks = replicate 5 empty_level;
  pool = set (replicate 4 zero_order) 0 order;
  hwm = 1;
  best_bid = 3;
  best_ask = 2 ^ 32 - 1;
  idmap = put_id no_ids 7 0;
  free_head = nil;
}

ends_in : {A S : Type 0} {a a' : A} {s s' : S} → ok a s ≡ ok a' s' → s ≡ s'
ends_in h = ground arith

inserted_one : one ≡ arrival.b'
unfolding Book.new Book.insert Book.tick_of Book.order Book.order_mut Book.level Book.level_mut
    Book.alloc_slot Book.raise_best div_i64
inserted_one = ends_in arrival.returns

one-IsBook : IsBook (arrived no_orders arrival.slot 3) one
one-IsBook = subst (IsBook (arrived no_orders arrival.slot 3)) (sym inserted_one) arrival.book

one-IsWordy : IsWordy one
unfolding lane_entries level_entry
one-IsWordy = record {
  price_min = omega arith;
  tick = omega arith;
  best_bid = omega arith;
  best_ask = omega arith;
  free_head = omega arith;
  levels = λ side t. ground (
    arith,
    get_or-set (replicate 5 empty_level) 3 t level empty_level (omega arith),
    get_or-replicate 5 t empty_level,
  );
  orders = λ s. ground (
    arith,
    get_or-set (replicate 4 zero_order) 0 s order zero_order (omega arith),
    get_or-replicate 4 s zero_order,
  );
  few_levels = omega arith;
  few_slots = omega arith;
}

restore-encode_example :
    Returned (λ l. length l % 2 ^ 32) (arrived no_orders arrival.slot 3) one (replicate 200 0) small
unfolding lane_entries level_entry
restore-encode_example =
    restore-encode (λ l. length l % 2 ^ 32) (arrived no_orders arrival.slot 3) one (replicate 200 0)
      small (λ l. omega arith) one-IsBook one-IsWordy refl refl (omega arith)

abbrev crc : List ℕ → ℕ
crc l = length l % 2 ^ 32

-- What the encoding of the book restores to.
back : Returned crc (arrived no_orders arrival.slot 3) one (replicate 200 0) small
unfolding lane_entries level_entry
back =
    restore-encode crc (arrived no_orders arrival.slot 3) one (replicate 200 0) small
      (λ l. omega arith) one-IsBook one-IsWordy refl refl (omega arith)

restore-Checked_example : Checked crc (take back.len back.out) small
restore-Checked_example = restore-Checked crc (take back.len back.out) small back.b' back.read

restore_cow-Alike_example :
    Alike Shows
      (restore_cow crc (take back.len back.out) small)
      (restore crc (take back.len back.out) small)
restore_cow-Alike_example =
    restore_cow-Alike crc (take back.len back.out) small (omega arith) (omega arith)
