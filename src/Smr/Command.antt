-- ===== src/Smr/Command.antt =====
-- The commands that drive a store, and runs of them on the flat and on the copy-on-write book.
use hi_perf_cmp.Prelude.{ℕ, suc, List, [], ◌∷◌}
use hi_perf_cmp.Prelude.Run.{Cmd, ◌>>=◌, ◌>>◌, skip}
use hi_perf_cmp.Smr.Book
use hi_perf_cmp.Smr.Book.{Book}
use hi_perf_cmp.Smr.CowBook
use hi_perf_cmp.Smr.CowBook.{CowBook}

pub data Command : Type 0 where
  insert : (order_id price qty side : ℕ) → Command
  update : (order_id fill_qty : ℕ) → Command
  cancel : (order_id : ℕ) → Command
  fill : (order_id : ℕ) → Command

unfoldable pub apply : Command → Cmd Book (Unit {0})
apply (insert i p q s) = Book.insert i p q s
apply (update i f) = Book.update i f
apply (cancel i) = Book.cancel i
apply (fill i) = Book.fill i

unfoldable pub apply_cow : Command → Cmd CowBook (Unit {0})
apply_cow (insert i p q s) = CowBook.insert i p q s
apply_cow (update i f) = CowBook.update i f
apply_cow (cancel i) = CowBook.cancel i
apply_cow (fill i) = CowBook.fill i

unfoldable pub run : List Command → Cmd Book (Unit {0})
run [] = skip
run (c ∷ cs) = apply c >> run cs

-- A run of the copy-on-write book may take snapshots on the way.
pub data Event : Type 0 where
  command : Command → Event
  snapshot : Event

unfoldable pub apply_event : Event → Cmd CowBook (Unit {0})
apply_event (command c) = apply_cow c
apply_event snapshot = CowBook.capture >>= λ _. skip

unfoldable pub run_events : List Event → Cmd CowBook (Unit {0})
run_events [] = skip
run_events (e ∷ es) = apply_event e >> run_events es

-- What a run of events asks of the book; the number of snapshots in it.
abbrev pub commands : List Event → List Command
commands [] = []
commands (command c ∷ es) = c ∷ commands es
commands (snapshot ∷ es) = commands es

abbrev pub snapshots : List Event → ℕ
snapshots [] = 0
snapshots (command c ∷ es) = snapshots es
snapshots (snapshot ∷ es) = suc (snapshots es)
