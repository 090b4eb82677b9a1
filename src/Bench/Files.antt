-- ===== src/Bench/Files.antt =====
-- rust/bench-common/src/fswrite.rs: the append of entries to a file, with a sync after each batch.
-- The file system is given: it answers each request by what was done before, which is kept in a
-- log, the newest first.
pub mod Writes
pub mod Durable
use hi_perf_cmp.Prelude.{
  ℕ, zero, suc, ◌+◌, ◌-◌, ◌*◌, ◌^◌, ◌%◌, List, [], ◌∷◌, ◌++◌, Option, none, some, Bool, true, false,
  ◌==◌, ltb, if◌then◌else◌,
}
use hi_perf_cmp.Prelude.Text.{Text}
use hi_perf_cmp.Bench.Config.{FsConfig}

pub data SyncKind : Type 0 where
  full : SyncKind
  data_only : SyncKind

pub data Request : Type 0 where
  open_file : Request  -- created, and cut to nothing
  sync_dir : Request
  write : ℕ → Request  -- so many bytes
  sync : SyncKind → Request
  seek_start : Request

abbrev pub Log : Type 0
Log = List Request

pub record Disk : Type 0 where
  pub fails : Log → Request → Option Text
  pub now : Log → ℕ  -- nanoseconds

pub data Io (A : Type 0) : Type 0 where
  ok : A → Log → Io A
  err : Text → Log → Io A
  out_of_fuel : Io A

abbrev pub File : Type 0 → Type 0
File A = Log → Io A

abbrev pub and_then : {A B : Type 0} → Io A → (A → File B) → Io B
and_then (ok a h) k = k a h
and_then (err e h) k = err e h
and_then out_of_fuel k = out_of_fuel

infixl 5 ◌>>=◌ ◌>>◌
abbrev pub ◌>>=◌ : {A B : Type 0} → File A → (A → File B) → File B
◌>>=◌ m k h = and_then (m h) k

abbrev pub ◌>>◌ : {B : Type 0} → File (Unit {0}) → File B → File B
◌>>◌ m k h = and_then (m h) (λ u. k)

abbrev pub pure : {A : Type 0} → A → File A
pure a h = ok a h

abbrev pub min : ℕ → ℕ → ℕ
min a b = if ltb b a then b else a

abbrev pub record_sample : Option (List ℕ) → ℕ → Option (List ℕ)
record_sample none ns = none
record_sample (some samples) ns = some (samples ++ (ns ∷ []))

abbrev pub mebibyte : ℕ
mebibyte = 1024 * 1024

unfoldable pub total : FsConfig → ℕ
total cfg = ((cfg.warmup + cfg.iterations) % 2 ^ 64 * cfg.entry_bytes) % 2 ^ 64

unfoldable pub batch_of : FsConfig → Bool → ℕ
batch_of cfg batched = if batched then cfg.batch else 1

module _ (disk : Disk) where
  unfoldable pub ask : Request → File (Unit {0})
  ask r h = elim (disk.fails h r) [ none ↦ ok tt (r ∷ h) | some e ↦ err e h ]

  -- `count` entries
  unfoldable pub write_entries : ℕ → ℕ → File (Unit {0})
  write_entries bytes zero = pure tt
  write_entries bytes (suc count) = do ask (write bytes); write_entries bytes count

  -- The sync of a batch, with its time in nanoseconds.
  unfoldable pub timed_sync : SyncKind → Option (List ℕ) → File (Option (List ℕ))
  timed_sync kind samples h =
      and_then (ask (sync kind) h)
        λ u h'. ok (record_sample samples ((disk.now h' - disk.now h) % 2 ^ 64)) h'

  unfoldable pub run_entries : ℕ → ℕ → ℕ → ℕ → SyncKind → Option (List ℕ) → File (Option (List ℕ))
  run_entries zero bytes remaining batch_size kind samples h =
      if remaining == 0 then ok samples h else out_of_fuel
  run_entries (suc f) bytes remaining batch_size kind samples h = elim (remaining == 0) [
    | true ↦ ok samples h
    | false ↦ and_then (write_entries bytes (min remaining batch_size) h) λ u h1.
        and_then (timed_sync kind samples h1) λ samples' h2.
          run_entries f bytes (remaining - min remaining batch_size) batch_size kind samples' h2
  ]

  unfoldable pub write_zeros : ℕ → ℕ → File (Unit {0})
  write_zeros zero remaining h = if remaining == 0 then ok tt h else out_of_fuel
  write_zeros (suc f) remaining h = elim (remaining == 0) [
    | true ↦ ok tt h
    | false ↦
        and_then (ask (write (min remaining mebibyte)) h)
          λ u h1. write_zeros f (remaining - min remaining mebibyte) h1
  ]

  unfoldable pub preallocate : FsConfig → Bool → File (Unit {0})
  preallocate cfg false = pure tt
  preallocate cfg true = do write_zeros (total cfg) (total cfg); ask (sync full); ask seek_start

  -- The samples; the throughput is the iterations over the time of their loop.
  unfoldable pub run_durable_append : FsConfig → SyncKind → ℕ → Bool → File (Option (List ℕ))
  run_durable_append cfg kind batch_size prealloc = do
    ask open_file
    ask (sync full)
    ask sync_dir
    preallocate cfg prealloc
    u ← run_entries cfg.warmup cfg.entry_bytes cfg.warmup batch_size kind none
    run_entries cfg.iterations cfg.entry_bytes cfg.iterations batch_size kind (some [])
