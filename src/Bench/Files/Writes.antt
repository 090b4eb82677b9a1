-- ===== src/Bench/Files/Writes.antt =====
-- The loops that write: what they leave unsynced, and how many syncs were timed.
use hi_perf_cmp.Prelude.{
  ℕ, zero, suc, ◌+◌, ◌-◌, ◌*◌, ◌≤◌, ◌<◌, ◌≡◌, refl, sym, ap, arith, List, [], ◌∷◌, Option, none,
  some, true, inl, inr, Bool-cases, Option-cases, length, length-append, ◌==◌,
}
use mathlib.Core.Path.{subst}
use hi_perf_cmp.Bench.Files.{
  SyncKind, open_file, sync_dir, write, sync, seek_start, Log, Disk, Io, ok, err, out_of_fuel,
  and_then, min, ask, write_entries, record_sample, timed_sync, run_entries, mebibyte, write_zeros,
}

-- The bytes written since the last sync, and in all.
abbrev pub unsynced : Log → ℕ
unsynced [] = 0
unsynced (write n ∷ h) = n + unsynced h
unsynced (sync k ∷ h) = 0
unsynced (open_file ∷ h) = unsynced h
unsynced (sync_dir ∷ h) = unsynced h
unsynced (seek_start ∷ h) = unsynced h

abbrev pub written : Log → ℕ
written [] = 0
written (write n ∷ h) = n + written h
written (sync k ∷ h) = written h
written (open_file ∷ h) = written h
written (sync_dir ∷ h) = written h
written (seek_start ∷ h) = written h

share :
    (part whole bytes : ℕ) → part ≤ whole → (whole - part) * bytes + part * bytes ≡ whole * bytes
share part whole bytes le = grind arith

at_most_times : (a b bytes : ℕ) → a ≤ b → a * bytes ≤ b * bytes
at_most_times a b bytes le = grind arith

batch_suc : (batch k : ℕ) → batch * suc k ≡ batch * k + batch
batch_suc batch k = grind arith

below_one : (batch k : ℕ) → batch * k < batch → batch * k ≡ 0
below_one batch zero h = grind arith
below_one batch (suc k) h = absurd (omega (arith, batch_suc batch k))

-- So many bytes more are written, and not synced; on an error at most so many.
abbrev pub Wrote : Log → ℕ → Io (Unit {0}) → Type 0
Wrote h n (ok u h') = (unsynced h' ≡ unsynced h + n) × (written h' ≡ written h + n)
Wrote h n (err e h') = unsynced h' ≤ unsynced h + n
Wrote h n out_of_fuel = ⊥

module _ (disk : Disk) where
  ask_write : (n : ℕ) (h : Log) → Wrote h n (ask disk (write n) h)
  unfolding ask
  ask_write n h = elim (Option-cases (disk.fails h (write n))) [
    | inl e ↦ rw (ask, e) (omega arith, omega arith)
    | inr (x, e) ↦ rw (ask, e) (omega arith)
  ]

  then-Wrote :
      (h : Log) (a b : ℕ) (r : Io (Unit {0})) (k : Unit {0} → Log → Io (Unit {0}))
      → Wrote h a r
      → ((h' : Log) → Wrote h' b (k tt h'))
      → Wrote h (a + b) (and_then r k)
  then-Wrote h a b (ok tt h') k w next = further (k tt h') (next h')
    where
      further : (r : Io (Unit {0})) → Wrote h' b r → Wrote h (a + b) r
      further (ok u h2) v = (omega arith, omega arith)
      further (err e h2) v = omega arith
      further out_of_fuel v = v
  then-Wrote h a b (err e h') k w next = omega arith
  then-Wrote h a b out_of_fuel k w next = w

  write_entries-Wrote :
      (bytes count : ℕ) (h : Log) → Wrote h (count * bytes) (write_entries disk bytes count h)
  unfolding write_entries
  write_entries-Wrote bytes zero h = (omega arith, omega arith)
  write_entries-Wrote bytes (suc count) h =
      let e : bytes + count * bytes ≡ suc count * bytes = grind arith in
      subst (λ n. Wrote h n (write_entries disk bytes (suc count) h)) e
        (then-Wrote h bytes (count * bytes) (ask disk (write bytes) h)
          (λ u. write_entries disk bytes count) (ask_write bytes h)
          (λ h'. write_entries-Wrote bytes count h'))

  -- With `n` bytes at risk in between: all is synced, `a` more bytes are written, and `k` more syncs
  -- were timed, if any are.
  abbrev pub More : Option (List ℕ) → Option (List ℕ) → ℕ → Type 0
  More none s k = Unit {0}
  More (some l) none k = ⊥
  More (some l) (some m) k = length m ≡ length l + k

  abbrev pub Synced : Log → ℕ → Option (List ℕ) → ℕ → ℕ → ℕ → Io (Option (List ℕ)) → Type 0
  Synced h n s bytes entries batch (ok s' h') =
      (unsynced h' ≡ 0)
      × (written h' ≡ written h + entries * bytes)
      × ((k : ℕ) × More s s' k × (entries ≤ batch * k) × (batch * k < entries + batch))
  Synced h n s bytes entries batch (err e h') = unsynced h' ≤ n
  Synced h n s bytes entries batch out_of_fuel = ⊥

  More-one : (s s' : Option (List ℕ)) (x k : ℕ) → More (record_sample s x) s' k → More s s' (suc k)
  More-one none s' x k w = tt
  More-one (some l) none x k w = w
  More-one (some l) (some m) x k w = omega (arith, w, length-append l (x ∷ []))

  -- One batch that is written, its sync, and what follows.
  after_batch :
      (h h1 : Log) (n bytes entries batch count : ℕ) (kind : SyncKind) (s : Option (List ℕ))
      (rest : Option (List ℕ) → Log → Io (Option (List ℕ)))
      → unsynced h1 ≤ n
      → written h1 ≡ written h + count * bytes
      → count ≡ min entries batch
      → 0 < entries
      → 0 < batch
      → ((s' : Option (List ℕ)) (h2 : Log)
          → unsynced h2 ≡ 0
          → Synced h2 n s' bytes (entries - count) batch (rest s' h2))
      → Synced h n s bytes entries batch (and_then (timed_sync disk kind s h1) rest)
  unfolding timed_sync ask
  after_batch h h1 n bytes entries batch count kind s rest risk wrote size pos bpos next =
      elim (Option-cases (disk.fails h1 (sync kind))) [
        | inl e ↦ rw (Synced, e) (final _ _ (next _ (sync kind ∷ h1) refl))
        | inr (x, e) ↦ rw (Synced, e) risk
      ]
    where
      final :
          (y : ℕ) (r : Io (Option (List ℕ)))
          → Synced (sync kind ∷ h1) n (record_sample s y) bytes (entries - count) batch r
          → Synced h n s bytes entries batch r
      final y (ok s' h2) (safe, all, (k, more, low, high)) = (
        safe,
        omega (arith, all, wrote, share count entries bytes (ground arith)),
        (
          suc k,
          More-one s s' y k more,
          ground (arith, batch_suc batch k, low, high),
          ground (arith, batch_suc batch k, low, high, below_one batch k),
        ),
      )
      final y (err e h2) w = w
      final y out_of_fuel w = w

  More-none : (s : Option (List ℕ)) → More s s 0
  More-none none = tt
  More-none (some l) = omega arith

  none_left :
      (h : Log) (n bytes entries batch : ℕ) (s : Option (List ℕ))
      → 0 < batch
      → entries ≡ 0
      → unsynced h ≡ 0
      → Synced h n s bytes entries batch (ok s h)
  none_left h n bytes entries batch s pos z safe = (
    safe,
    let q : 0 * bytes ≡ entries * bytes = ap (λ (e : ℕ). e * bytes) (sym z) in
        let o : 0 * bytes ≡ 0 = grind arith in omega (arith, q, o),
    (0, More-none s, omega arith, let o : batch * 0 ≡ 0 = grind arith in omega (arith, o)),
  )

  pub run_entries-Synced :
      (f bytes entries batch : ℕ) (kind : SyncKind) (s : Option (List ℕ)) (h : Log)
      → 0 < batch
      → entries ≤ f
      → unsynced h ≡ 0
      → Synced h
          (batch * bytes)
          s
          bytes
          entries
          batch
          (run_entries disk f bytes entries batch kind s h)
  unfolding run_entries
  run_entries-Synced zero bytes entries batch kind s h pos few safe =
      let z : (entries == 0) ≡ true = ground arith in
      rw z (none_left h (batch * bytes) bytes entries batch s pos (omega arith) safe)
  run_entries-Synced (suc f) bytes entries batch kind s h pos few safe =
      elim (Bool-cases (entries == 0)) [
        | inl z ↦
            rw (Synced, z)
              (none_left h (batch * bytes) bytes entries batch s pos (ground arith) safe)
        | inr more ↦
            rw (Synced, more)
              (one
                (λ s' h2 safe'.
                  run_entries-Synced f bytes (entries - min entries batch) batch kind s' h2 pos
                    (ground arith) safe')
                (write_entries disk bytes (min entries batch) h)
                (write_entries-Wrote bytes (min entries batch) h) (ground arith))
      ]
    where
      one :
          ((s' : Option (List ℕ)) (h2 : Log)
            → unsynced h2 ≡ 0
            → Synced h2
                (batch * bytes)
                s'
                bytes
                (entries - min entries batch)
                batch
                (run_entries disk f bytes (entries - min entries batch) batch kind s' h2))
          → (r : Io (Unit {0})) → Wrote h (min entries batch * bytes) r
          → 0 < entries
          → Synced h (batch * bytes) s bytes entries batch (
              and_then r (λ u h1.
                and_then (timed_sync disk kind s h1) (λ s' h2.
                  run_entries disk f bytes (entries - min entries batch) batch kind s' h2)))
      one next (ok u h1) w long =
          after_batch h h1 (batch * bytes) bytes entries batch (min entries batch) kind s
            (λ s' h2. run_entries disk f bytes (entries - min entries batch) batch kind s' h2)
            (omega (arith, w.0, at_most_times (min entries batch) batch bytes (ground arith))) w.1
            refl long pos next
      one next (err e h1) w long =
          omega (arith, w, at_most_times (min entries batch) batch bytes (ground arith))
      one next out_of_fuel w long = w

  -- So many zeros are written.
  pub write_zeros-Wrote : (f n : ℕ) (h : Log) → n ≤ f → Wrote h n (write_zeros disk f n h)
  unfolding write_zeros
  write_zeros-Wrote zero n h few =
      let z : (n == 0) ≡ true = ground arith in rw (Wrote, z) (omega arith, omega arith)
  write_zeros-Wrote (suc f) n h few = elim (Bool-cases (n == 0)) [
    | inl z ↦ rw (Wrote, z) (ground arith, ground arith)
    | inr more ↦
        rw (Wrote, more)
          (subst
            (λ k. Wrote h k (
              and_then (ask disk (write (min n mebibyte)) h)
                (λ u h1. write_zeros disk f (n - min n mebibyte) h1)))
            (ground arith)
            (then-Wrote h (min n mebibyte) (n - min n mebibyte)
              (ask disk (write (min n mebibyte)) h)
              (λ u h1. write_zeros disk f (n - min n mebibyte) h1) (ask_write (min n mebibyte) h)
              (λ h'. write_zeros-Wrote f (n - min n mebibyte) h' (ground arith))))
  ]
