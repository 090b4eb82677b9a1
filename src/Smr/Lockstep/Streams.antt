-- ===== src/Smr/Lockstep/Streams.antt =====
-- Whole runs: the copy-on-write book does what the flat book does, snapshots or not, and a root
-- goes on showing the flat book of the moment when it was captured.
use hi_perf_cmp.Prelude.{
  ℕ, ◌+◌, ◌^◌, ◌<◌, ◌≡◌, refl, ◌∙◌, List, [], ◌∷◌, arith, get_elem?, ◌==◌, Bool-cases, inl, inr,
}
use hi_perf_cmp.Prelude.Run.{pure, ◌>>=◌, ◌>>◌}
use hi_perf_cmp.Prelude.Word.{add64}
use hi_perf_cmp.Prelude.Lockstep.{Agree, returns, Sim, with-Post, weaken-Agree, and_then-Agree'}
use hi_perf_cmp.Prelude.Post.{Moves}
use hi_perf_cmp.Smr.Chunks.Laws.{IsOwned-mono, read_table-frozen}
use hi_perf_cmp.Smr.Book
use hi_perf_cmp.Smr.Book.{Book}
use hi_perf_cmp.Smr.CowBook
use hi_perf_cmp.Smr.CowBook.{CowBook, Root, root_order, root_level, root_of, level_chunk}
use hi_perf_cmp.Smr.CowBook.History.{
  Follows, After, After-refl, After-trans, Follows-After, raise_gen-After, insert-Follows,
  update-Follows, cancel-Follows, fill-Follows,
}
use hi_perf_cmp.Smr.Command.{
  Command, insert, update, cancel, fill, apply, apply_cow, run, Event, command, snapshot,
  apply_event, run_events, commands, snapshots,
}
use hi_perf_cmp.Smr.Lockstep.{Shows}
use hi_perf_cmp.Smr.Lockstep.Steps.{insert-Sim, update-Sim, cancel-Sim, fill-Sim}

apply-Sim : (c : Command) → Sim Shows (apply_cow c) (apply c)
unfolding apply apply_cow
apply-Sim (insert i p q s) = insert-Sim i p q s
apply-Sim (update i f) = update-Sim i f
apply-Sim (cancel i) = cancel-Sim i
apply-Sim (fill i) = fill-Sim i

capture-Shows :
    (w : CowBook) (b : Book)
    → w.gen + 1 < 2 ^ 64
    → Shows w b
    → Shows (record w { gen = add64 w.gen 1 }) b
capture-Shows w b h r = record {
  price_min = r.price_min;
  tick = r.tick;
  n_levels = r.n_levels;
  capacity = r.capacity;
  hwm = r.hwm;
  best_bid = r.best_bid;
  best_ask = r.best_ask;
  free_head = r.free_head;
  idmap = r.idmap;
  orders = r.orders;
  bids = r.bids;
  asks = r.asks;
  orders_owned = IsOwned-mono (omega arith) r.orders_owned;
  bids_owned = IsOwned-mono (omega arith) r.bids_owned;
  asks_owned = IsOwned-mono (omega arith) r.asks_owned;
}

apply-Follows : (c : Command) → Moves Follows (apply_cow c)
unfolding apply_cow
apply-Follows (insert i p q s) = insert-Follows i p q s
apply-Follows (update i f) = update-Follows i f
apply-Follows (cancel i) = cancel-Follows i
apply-Follows (fill i) = fill-Follows i

-- The states of a run that began at `w`.
abbrev Along : CowBook → CowBook → Book → Type 0
Along w s t = Shows s t × After w s

run-Along :
    (es : List Event) (w : CowBook) (b : Book)
    → w.gen + snapshots es < 2 ^ 64
    → Shows w b
    → Agree (Along w) (run_events es w) (run (commands es) b)
unfolding run_events run apply_event CowBook.capture
run-Along [] w b h r = returns refl (r, After-refl w)
run-Along (command c ∷ es) w b h r =
    and_then-Agree' (with-Post (apply-Sim c w b r) (apply-Follows c w)) λ s t (shows, (_, f)).
      weaken-Agree (run-Along es s t (omega (arith, f.gen)) shows)
        λ u v (p, q). (p, After-trans (Follows-After f) q)
run-Along (snapshot ∷ es) w b h r =
    weaken-Agree (run-Along es _ b (omega arith) (capture-Shows w b (omega arith) r))
      λ u v (p, q). (p, After-trans (raise_gen-After w _ (omega arith)) q)

-- A run of the copy-on-write book panics exactly when the same commands make the flat book panic,
-- and otherwise both end with the copy-on-write book showing the flat one; snapshots taken on the
-- way change nothing. The generation must not wrap.
pub run-Agree :
    (es : List Event) (w : CowBook) (b : Book)
    → w.gen + snapshots es < 2 ^ 64
    → Shows w b
    → Agree Shows (run_events es w) (run (commands es) b)
run-Agree es w b h r = weaken-Agree (run-Along es w b h r) λ s t p. p.0

-- A root shows the orders and the levels of the flat book `b`.
pub record RootShows (r : Root) (w : CowBook) (b : Book) : Type 0 where
  pub orders : (slot : ℕ) → root_order r w slot ≡ get_elem? b.pool slot
  pub levels : (side t : ℕ) → root_level r w side t ≡ get_elem? (Book.lane side b) t

RootShows-After :
    (w s : CowBook) (b : Book)
    → w.gen + 1 < 2 ^ 64
    → Shows w b
    → After (record w { gen = add64 w.gen 1 }) s
    → RootShows (root_of w) s b
unfolding root_order root_level
RootShows-After w s b h r a =
    let e : add64 w.gen 1 ≡ w.gen + 1 = omega arith in
    record {
      orders = λ slot.
          read_table-frozen w.chunk w.gen w.order_chunks s.order_chunks slot r.orders_owned
            (rw e at a.orders)
          ∙ r.orders slot;
      levels = λ side t. elim (Bool-cases (side == 0)) [
        | inl z ↦ rw z (
            read_table-frozen level_chunk w.gen w.bid_chunks s.bid_chunks t r.bids_owned
              (rw e at a.bids)
            ∙ r.bids t)
        | inr z ↦ rw z (
            read_table-frozen level_chunk w.gen w.ask_chunks s.ask_chunks t r.asks_owned
              (rw e at a.asks)
            ∙ r.asks t)
      ];
    }

-- A captured root goes on showing every order and level that the flat book held at the capture,
-- whatever commands and further captures come after; and the writer goes on showing the flat book
-- after those commands. The generation must not wrap.
pub snapshot_stays :
    (es : List Event) (w : CowBook) (b : Book)
    → w.gen + 1 + snapshots es < 2 ^ 64
    → Shows w b
    → Agree
        (λ s t. Shows s t × RootShows (root_of w) s b)
        ((do r ← CowBook.capture; run_events es; pure r) w)
        ((do run (commands es); pure (root_of w)) b)
unfolding CowBook.capture
snapshot_stays es w b h r =
    and_then-Agree' (run-Along es _ b (omega arith) (capture-Shows w b (omega arith) r))
      λ s t (shows, after). returns refl (shows, RootShows-After w s b (omega arith) r after)
