-- ===== src/Bench/Files/Durable.antt =====
-- What of the file is durable, and how many syncs were timed.
use hi_perf_cmp.Prelude.{
  ℕ, ◌+◌, ◌*◌, ◌≤◌, ◌<◌, ◌≡◌, refl, ap, arith, List, [], Option, none, some, Bool, true, false, inl,
  inr, Option-cases, length, if◌then◌else◌,
}
use hi_perf_cmp.Bench.Config.{FsConfig}
use hi_perf_cmp.Bench.Files.{
  SyncKind, full, open_file, sync_dir, sync, seek_start, Log, Disk, Io, ok, err, out_of_fuel,
  and_then, ask, run_entries, write_zeros, total, preallocate, run_durable_append,
}
use hi_perf_cmp.Bench.Files.Writes.{
  unsynced, written, Wrote, Synced, write_zeros-Wrote, run_entries-Synced,
}

module _ (disk : Disk) where
  -- All is synced, with `m` bytes written in all; on an error at most `l` are not.
  abbrev Setup : {A : Type 0} → ℕ → ℕ → Io A → Type 0
  Setup l m (ok a h) = (unsynced h ≡ 0) × (written h ≡ m)
  Setup l m (err e h) = unsynced h ≤ l
  Setup l m out_of_fuel = ⊥

  -- How a run ends that began on an empty log.
  abbrev pub Appended : FsConfig → ℕ → Bool → Io (Option (List ℕ)) → Type 0
  Appended cfg batch prealloc (ok none h) = ⊥
  Appended cfg batch prealloc (ok (some samples) h) =
      (unsynced h ≡ 0)
      × (written h
          ≡ (if prealloc then total cfg else 0)
            + cfg.warmup * cfg.entry_bytes
            + cfg.iterations * cfg.entry_bytes)
      × (cfg.iterations ≤ batch * length samples)
      × (batch * length samples < cfg.iterations + batch)
  Appended cfg batch prealloc (err e h) =
      unsynced h ≤ (if prealloc then total cfg else 0) + batch * cfg.entry_bytes
  Appended cfg batch prealloc out_of_fuel = ⊥

  module _ (l : ℕ) where
    then-Setup :
        {A : Type 0} (m n : ℕ) (r : Io A) (k : A → Log → Io (Unit {0}))
        → Setup l m r
        → ((a : A) (h : Log) → unsynced h ≡ 0 → written h ≡ m → Setup l n (k a h))
        → Setup l n (and_then r k)
    then-Setup m n (ok a h) k w next = next a h w.0 w.1
    then-Setup m n (err e h) k w next = w
    then-Setup m n out_of_fuel k w next = w

    ask_open : (m : ℕ) (h : Log) → unsynced h ≡ 0 → written h ≡ m → Setup l m (ask disk open_file h)
    unfolding ask
    ask_open m h safe all = elim (Option-cases (disk.fails h open_file)) [
      | inl e ↦ rw (ask, e) (safe, all)
      | inr (x, e) ↦ rw (ask, e) (omega arith)
    ]

    ask_dir : (m : ℕ) (h : Log) → unsynced h ≡ 0 → written h ≡ m → Setup l m (ask disk sync_dir h)
    unfolding ask
    ask_dir m h safe all = elim (Option-cases (disk.fails h sync_dir)) [
      | inl e ↦ rw (ask, e) (safe, all)
      | inr (x, e) ↦ rw (ask, e) (omega arith)
    ]

    ask_seek :
        (m : ℕ) (h : Log) → unsynced h ≡ 0 → written h ≡ m → Setup l m (ask disk seek_start h)
    unfolding ask
    ask_seek m h safe all = elim (Option-cases (disk.fails h seek_start)) [
      | inl e ↦ rw (ask, e) (safe, all)
      | inr (x, e) ↦ rw (ask, e) (omega arith)
    ]

    ask_sync :
        (m : ℕ) (h : Log) → unsynced h ≤ l → written h ≡ m → Setup l m (ask disk (sync full) h)
    unfolding ask
    ask_sync m h risk all = elim (Option-cases (disk.fails h (sync full))) [
      | inl e ↦ rw (ask, e) (refl, all)
      | inr (x, e) ↦ rw (ask, e) risk
    ]

    preallocate-Setup :
        (cfg : FsConfig) (prealloc : Bool) (h : Log)
        → unsynced h ≡ 0
        → written h ≡ 0
        → (if prealloc then total cfg else 0) ≤ l
        → Setup l (if prealloc then total cfg else 0) (preallocate disk cfg prealloc h)
    unfolding preallocate
    preallocate-Setup cfg false h safe all fits = (safe, all)
    preallocate-Setup cfg true h safe all fits =
        zeros (write_zeros disk (total cfg) (total cfg) h)
          (write_zeros-Wrote disk (total cfg) (total cfg) h (omega arith))
      where
        zeros :
            (r : Io (Unit {0}))
            → Wrote h (total cfg) r
            → Setup l
                (total cfg)
                (and_then r (λ u h1. and_then (ask disk (sync full) h1) (λ v. ask disk seek_start)))
        zeros (ok u h1) w =
            then-Setup (total cfg) (total cfg) (ask disk (sync full) h1)
              (λ (v : Unit {0}). ask disk seek_start)
              (ask_sync (total cfg) h1 (omega arith) (omega arith))
              (λ v h2 safe' all'. ask_seek (total cfg) h2 safe' all')
        zeros (err e h1) w = omega arith
        zeros out_of_fuel w = w

  module _ (cfg : FsConfig) (kind : SyncKind) (batch : ℕ) (prealloc : Bool) (pos : 0 < batch) where
    abbrev risk : ℕ
    risk = (if prealloc then total cfg else 0) + batch * cfg.entry_bytes

    then-Appended :
        {A : Type 0} (m : ℕ) (r : Io A) (k : A → Log → Io (Option (List ℕ)))
        → Setup risk m r
        → ((a : A) (h : Log) → unsynced h ≡ 0 → written h ≡ m → Appended cfg batch prealloc (k a h))
        → Appended cfg batch prealloc (and_then r k)
    then-Appended m (ok a h) k w next = next a h w.0 w.1
    then-Appended m (err e h) k w next = w
    then-Appended m out_of_fuel k w next = w

    abbrev before : ℕ
    before = if prealloc then total cfg else 0

    -- The warmup, whose syncs are not timed.
    warmup-Setup :
        (h : Log)
        → unsynced h ≡ 0
        → written h ≡ before
        → Setup risk
            (before + cfg.warmup * cfg.entry_bytes)
            (run_entries disk cfg.warmup cfg.entry_bytes cfg.warmup batch kind none h)
    warmup-Setup h safe all =
        of_synced (run_entries disk cfg.warmup cfg.entry_bytes cfg.warmup batch kind none h) (
          run_entries-Synced disk cfg.warmup cfg.entry_bytes cfg.warmup batch kind none h pos
            (omega arith) safe)
      where
        of_synced :
            (r : Io (Option (List ℕ)))
            → Synced disk h (batch * cfg.entry_bytes) none cfg.entry_bytes cfg.warmup batch r
            → Setup risk (before + cfg.warmup * cfg.entry_bytes) r
        of_synced (ok s h1) w = (w.0, omega (arith, w.1))
        of_synced (err e h1) w = omega arith
        of_synced out_of_fuel w = w

    measured-Appended :
        (h : Log)
        → unsynced h ≡ 0
        → written h ≡ before + cfg.warmup * cfg.entry_bytes
        → Appended cfg batch prealloc
            (run_entries disk cfg.iterations cfg.entry_bytes cfg.iterations batch kind (some []) h)
    measured-Appended h safe all =
        of_synced
          (run_entries disk cfg.iterations cfg.entry_bytes cfg.iterations batch kind (some []) h)
          (run_entries-Synced disk cfg.iterations cfg.entry_bytes cfg.iterations batch kind
            (some []) h pos (omega arith) safe)
      where
        of_synced :
            (r : Io (Option (List ℕ)))
            → Synced disk h
                (batch * cfg.entry_bytes)
                (some [])
                cfg.entry_bytes
                cfg.iterations
                batch
                r
            → Appended cfg batch prealloc r
        of_synced (ok none h1) w = w.2.1
        of_synced (ok (some samples) h1) (safe', all', (k, more, low, high)) =
            let e : k ≡ length samples = omega (arith, more) in
            let t : batch * k ≡ batch * length samples = ap (λ (j : ℕ). batch * j) e in
            (safe', omega (arith, all'), omega (arith, t, low), omega (arith, t, high))
        of_synced (err e h1) w = omega arith
        of_synced out_of_fuel w = w

  -- An append of entries, by batches of at least one, ends. Where it succeeds, every byte that was
  -- written was synced after, these are the preallocated ones and those of the warmup and of the
  -- iterations, and one sync was timed for each batch of the iterations. Where a request fails, at
  -- most what is preallocated and one batch is not synced.
  pub run_durable_append-Appended :
      (cfg : FsConfig) (kind : SyncKind) (batch : ℕ) (prealloc : Bool)
      → 0 < batch
      → Appended cfg batch prealloc (run_durable_append disk cfg kind batch prealloc [])
  unfolding run_durable_append
  run_durable_append-Appended cfg kind batch prealloc pos =
      let l : ℕ = risk cfg kind batch prealloc pos in
      let b : ℕ = before cfg kind batch prealloc pos in
      then-Appended cfg kind batch prealloc pos 0 (ask disk open_file []) _
        (ask_open l 0 [] refl refl)
        (λ u h safe all.
          then-Appended cfg kind batch prealloc pos 0 (ask disk (sync full) h) _
            (ask_sync l 0 h (omega arith) all)
            (λ u1 h1 safe1 all1.
              then-Appended cfg kind batch prealloc pos 0 (ask disk sync_dir h1) _
                (ask_dir l 0 h1 safe1 all1)
                (λ u2 h2 safe2 all2.
                  then-Appended cfg kind batch prealloc pos b (preallocate disk cfg prealloc h2) _
                    (preallocate-Setup l cfg prealloc h2 safe2 all2 (omega arith))
                    (λ u3 h3 safe3 all3.
                      then-Appended cfg kind batch prealloc pos (b + cfg.warmup * cfg.entry_bytes)
                        (run_entries disk cfg.warmup cfg.entry_bytes cfg.warmup batch kind none h3)
                        _ (warmup-Setup cfg kind batch prealloc pos h3 safe3 all3)
                        (λ s h4 safe4 all4.
                          measured-Appended cfg kind batch prealloc pos h4 safe4 all4)))))
