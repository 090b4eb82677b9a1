-- ===== src/Smr/Tests.antt =====
-- Runs of the books on small inputs, and the theorems at them.
use hi_perf_cmp.Prelude.{
  ℕ, ◌≡◌, ◌≢◌, refl, false, List, [], ◌∷◌, none, some, arith, get_elem?, zero, suc, ◌⊎◌, inl, inr,
  length, replicate,
}
use hi_perf_cmp.Prelude.Run.{ok, pure, ◌>>=◌, ◌>>◌}
use hi_perf_cmp.Prelude.Lockstep.{Agree}
use hi_perf_cmp.Smr.Level.{SmrConfig}
use hi_perf_cmp.Smr.Book
use hi_perf_cmp.Smr.CowBook
use hi_perf_cmp.Smr.CowBook.{CowBook, new_book, root_of}
use hi_perf_cmp.Smr.Command.{
  insert, update, cancel, fill, run, Event, command, snapshot, run_events, commands,
}
use hi_perf_cmp.Smr.Rng
use hi_perf_cmp.Smr.Workload.{Insert, next_insert}
use hi_perf_cmp.Smr.Workload.Placement.{Lands, next_insert-Lands}
use hi_perf_cmp.Smr.Churn
use hi_perf_cmp.Smr.Churn.{Churn, next_op}
use hi_perf_cmp.Smr.Churn.Stream.{IsStream, Next, next_op-Next}
use hi_perf_cmp.Smr.Digest.{digest_book, digest_root}
use hi_perf_cmp.Smr.Digest.Same.{digest_after_capture}
use hi_perf_cmp.Smr.Snapshot.{encode, encode_root}
use hi_perf_cmp.Smr.Snapshot.Same.{encode_after_capture}
use hi_perf_cmp.Smr.Lockstep.{Shows}
use hi_perf_cmp.Smr.Lockstep.Start.{new_book-Shows, new-Shows}
use hi_perf_cmp.Smr.Lockstep.Streams.{run-Agree, snapshot_stays, RootShows}

abbrev small : SmrConfig
small = record {
  cap = 8;
  levels = 16;
  tick = 1;
  price_min = 0;
  steady = 4;
  warmup = 0;
  iters = 1;
  chunk = 3;
  apply_batch = 1;
  multi_table = false;
  live_iters = 20;
  snap_every = 2;
  otr_bps = 100;
}

abbrev mixed : List Event
mixed =
    command (insert 1 3 10 0)
    ∷ command (insert 2 9 10 0)
    ∷ snapshot
    ∷ command (insert 3 4 10 1)
    ∷ command (update 1 4)
    ∷ snapshot
    ∷ command (cancel 2)
    ∷ command (fill 3)
    ∷ []

run-Agree_example :
    Agree Shows (run_events mixed (new_book small)) (run (commands mixed) (Book.new small))
run-Agree_example =
    run-Agree mixed (new_book small) (Book.new small) (omega arith)
      (new_book-Shows small (omega arith) (omega arith))

snapshot_stays_example :
    Agree
      (λ s t. Shows s t × RootShows (root_of (new_book small)) s (Book.new small))
      ((do r ← CowBook.capture; run_events mixed; pure r) (new_book small))
      ((do run (commands mixed); pure (root_of (new_book small))) (Book.new small))
snapshot_stays_example =
    snapshot_stays mixed (new_book small) (Book.new small) (omega arith)
      (new_book-Shows small (omega arith) (omega arith))

new-Shows_example :
    (small.chunk ≢ 0 → (w : CowBook) × (CowBook.new small ≡ some w) × Shows w (Book.new small))
    × (small.chunk ≡ 0 → CowBook.new small ≡ none)
new-Shows_example = new-Shows small (omega arith)

next_insert-Lands_example :
    (ins : Insert) × (s' : ℕ) × (next_insert 5 16 1 0 Rng.seed ≡ ok ins s')
    × Lands (Book.new small) 5 16 ins
unfolding Book.new
next_insert-Lands_example =
    next_insert-Lands (Book.new small) 5 16 Rng.seed (omega arith) (omega arith) (omega arith)
      (omega arith) (omega arith) (omega arith)

-- Orders 1 and 3 rest, and the fourth op is next.
abbrev midway : Churn
midway = record (Churn.new small) { live = 1 ∷ 3 ∷ []; i = 3 }

midway_live :
    (j x : ℕ) → get_elem? midway.live j ≡ some x → ((j ≡ 0) × (x ≡ 1)) ⊎ ((j ≡ 1) × (x ≡ 3))
midway_live zero x h = inl (refl, ground arith)
midway_live (suc zero) x h = inr (refl, ground arith)
midway_live (suc (suc j)) x h = ground arith

midway-IsStream : IsStream midway
midway-IsStream = record {
  distinct = λ j k x h h'. ground (arith, midway_live j x h, midway_live k x h');
  low = λ j x h. ground (arith, midway_live j x h);
  positive = λ j x h. ground (arith, midway_live j x h);
}

next_op-Next_example : Next midway false (next_op midway)
unfolding Churn.new
next_op-Next_example = next_op-Next midway midway-IsStream (omega arith) (omega arith)

digest_after_capture_example :
    Agree
      (λ s t. digest_root 9 (root_of (new_book small)) s ≡ digest_book 9 (Book.new small))
      ((do r ← CowBook.capture; run_events mixed; pure r) (new_book small))
      ((do run (commands mixed); pure (root_of (new_book small))) (Book.new small))
unfolding Book.new
digest_after_capture_example =
    digest_after_capture 9 mixed (new_book small) (Book.new small) (omega arith) refl refl
      (new_book-Shows small (omega arith) (omega arith))

encode_after_capture_example :
    Agree
      (λ s t.
        encode_root length (root_of (new_book small)) s (replicate 64 0)
        ≡ encode length (Book.new small) (replicate 64 0))
      ((do r ← CowBook.capture; run_events mixed; pure r) (new_book small))
      ((do run (commands mixed); pure (root_of (new_book small))) (Book.new small))
unfolding Book.new
encode_after_capture_example =
    encode_after_capture length (replicate 64 0) mixed (new_book small) (Book.new small)
      (omega arith) (omega arith) refl refl (new_book-Shows small (omega arith) (omega arith))
