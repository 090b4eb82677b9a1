-- ===== src/Smr/Book/Tests.antt =====
-- The unit tests of book.rs, run on the model.
use hi_perf_cmp.Prelude.{
  ◌+◌, ◌<◌, ◌∙◌, sym, length, ℕ, ◌≡◌, inr, arith, refl, false, Option, some, none,
}
use mathlib.Core.Path.{subst}
use hi_perf_cmp.Prelude.Run.{Run, ok, panic, Cmd, pure, ◌>>=◌, ◌>>◌, gets}
use hi_perf_cmp.Prelude.Word.{div_i64}
use hi_perf_cmp.Smr.Level.{SmrConfig}
use hi_perf_cmp.Smr.Book
use hi_perf_cmp.Smr.Book.{new, cancel, fill, update}
use hi_perf_cmp.Smr.Book.View.{view, Rests, arrived, rests_lt}
use hi_perf_cmp.Smr.Book.Access.{place}
use hi_perf_cmp.Smr.Book.InsertRuns.{IsBook}
use hi_perf_cmp.Smr.Book.Arrivals.{Arrived, insert-Arrived}
use hi_perf_cmp.Smr.Book.Departures.{Departed, cancel-Departed, fill-Departed}
use hi_perf_cmp.Smr.Digest.{digest_book}
use hi_perf_cmp.Smr.Digest.Total.{Returns, digest_book-Returns}
use hi_perf_cmp.Smr.Book.Full.{insert-full}
use hi_perf_cmp.Smr.Book.Updates.{Updated, update-Updated}
use hi_perf_cmp.Smr.Book.Fresh.{no_orders, new-IsBook}

abbrev small : SmrConfig
small = record {
  cap = 8;
  levels = 16;
  tick = 1;
  price_min = 0;
  steady = 4;
  warmup = 0;
  iters = 0;
  chunk = 3;
  apply_batch = 64;
  multi_table = false;
  live_iters = 200000;
  snap_every = 20000;
  otr_bps = 100;
}

-- `cancel_emptying_best_level_rescans`
rescan : Cmd Book.Book (ℕ × ℕ)
unfolding Book.new Book.insert Book.cancel Book.tick_of Book.order Book.order_mut Book.level
    Book.level_mut Book.alloc_slot Book.free_slot Book.raise_best Book.unlink Book.scan_down
    Book.scan_up Book.repair_best Book.remove_order Book.take_id
rescan = do
  Book.insert 1 3 10 0
  Book.insert 2 9 10 0
  Book.insert 3 4 10 1
  Book.insert 4 2 10 1
  Book.cancel 2
  Book.cancel 4
  bid ← gets (λ b. b.best_bid)
  ask ← gets (λ b. b.best_ask)
  pure (bid, ask)

abbrev result : {S A : Type 0} → Run S A → Option A
result (ok a s) = some a
result panic = none

result-rescan : result (rescan (Book.new small)) ≡ some (3, 4)
unfolding rescan div_i64
result-rescan = refl

small-IsBook : IsBook no_orders (new small)
small-IsBook = new-IsBook small (omega arith) (omega arith)

-- Order 7 of 5 at price 3 on the bid side, the first in the book.
insert-Arrived_example : Arrived no_orders (new small) 7 3 5 0 3
unfolding new place div_i64
insert-Arrived_example =
    insert-Arrived no_orders (new small) 7 3 5 0 3 small-IsBook (inr (omega arith)) (ground arith)
      refl (omega arith) (omega arith) refl (omega arith)

first : Arrived no_orders (new small) 7 3 5 0 3
unfolding new place div_i64
first =
    insert-Arrived no_orders (new small) 7 3 5 0 3 small-IsBook (inr (omega arith)) (ground arith)
      refl (omega arith) (omega arith) refl (omega arith)

cancel-Departed_example :
    Departed (arrived no_orders first.slot 3) first.b' 7 first.slot (cancel 7 first.b')
cancel-Departed_example =
    cancel-Departed (arrived no_orders first.slot 3) first.b' 7 first.slot first.book first.found

fill-Departed_example :
    Departed (arrived no_orders first.slot 3) first.b' 7 first.slot (fill 7 first.b')
fill-Departed_example =
    fill-Departed (arrived no_orders first.slot 3) first.b' 7 first.slot first.book first.found

new-IsBook_example : IsBook no_orders (new small)
new-IsBook_example = new-IsBook small (omega arith) (omega arith)

digest_book-Returns_example :
    Returns (digest_book ((arrived no_orders first.slot 3).clock + 1) first.b')
digest_book-Returns_example = digest_book-Returns first.book

update-Updated_example :
    Updated (arrived no_orders first.slot 3) first.b' first.slot 2 (update 7 2 first.b')
update-Updated_example =
    update-Updated (arrived no_orders first.slot 3) first.b' 7 first.slot 2 first.book first.found
      (omega arith)

-- A pool of one slot, which holds order 7.
abbrev one_slot : SmrConfig
one_slot = record small { cap = 1 }

only : Arrived no_orders (new one_slot) 7 3 5 0 3
unfolding new place div_i64
only =
    insert-Arrived no_orders (new one_slot) 7 3 5 0 3
      (new-IsBook one_slot (omega arith) (omega arith)) (inr (omega arith)) (ground arith) refl
      (omega arith) (omega arith) refl (omega arith)

length-only : length only.b'.pool ≡ 1
unfolding new
length-only = only.ladder.3

all_rest : (s : ℕ) → s < length only.b'.pool → Rests (view only.b') s
all_rest s lt =
    let (id, pos) = only.book.links.id_rests 7 only.slot only.found in
    let rests : Rests (view only.b') only.slot = λ z. pos (sym id ∙ z) in
    let (low, _) = rests_lt only.book.links only.slot rests in
    let same : only.slot ≡ s = omega (arith, low, lt, length-only, only.book.links.hwm_le) in
    subst (Rests (view only.b')) same rests

insert-full_example : Book.insert 8 3 5 0 only.b' ≡ panic
insert-full_example = insert-full (arrived no_orders only.slot 3) only.b' 8 3 5 0 only.book all_rest
