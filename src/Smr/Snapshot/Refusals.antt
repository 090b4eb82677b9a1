-- ===== src/Smr/Snapshot/Refusals.antt =====
-- The checks of `restore`.
use hi_perf_cmp.Prelude.{
  ℕ, ◌-◌, ◌≤◌, ◌≡◌, refl, ap, ◌∙◌, arith, Bool, true, false, List, Option, none, some, ◌==◌, ltb,
  not, if◌then◌else◌, length, take,
}
use hi_perf_cmp.Smr.Level.{SmrConfig}
use hi_perf_cmp.Smr.Book.{Book}
use hi_perf_cmp.Smr.Booksnap.{get_word_at}
use hi_perf_cmp.Smr.Snapshot.Restore
use hi_perf_cmp.Smr.Snapshot.Restore.{
  Restored, RestoreError, restores, fails, ◌>>=◌, expect, restore_message, restore,
}

not_restored : {A : Type 0} {a : A} (e : RestoreError) → fails e ≡ restores a → ⊥
not_restored e h = ground arith

expect-restores :
    {A B : Type 0} (o : Option A) (k : A → Restored B) {b : B}
    → (expect o >>= k) ≡ restores b
    → (a : A) × (o ≡ some a) × (k a ≡ restores b)
expect-restores none k h = absurd (ground arith)
expect-restores (some a) k h = (a, refl, h)

checked :
    {B : Type 0} (c : Bool) (e : RestoreError) (p : Restored B) {b : B}
    → (if not c then fails e else p) ≡ restores b
    → (c ≡ true) × (p ≡ restores b)
checked true e p h = (refl, h)
checked false e p h = absurd (not_restored e h)

-- What `restore` has checked of the bytes that it accepts.
pub record Checked (crc32c : List ℕ → ℕ) (bytes : List ℕ) (cfg : SmrConfig) : Type 0 where
  pub long : 4 ≤ length bytes
  pub crc : get_word_at 4 (length bytes - 4) bytes ≡ some (crc32c (take (length bytes - 4) bytes))
  pub version : get_word_at 2 6 (take (length bytes - 4) bytes) ≡ some 2
  pub capacity : get_word_at 4 28 (take (length bytes - 4) bytes) ≡ some cfg.cap

message-Checked :
    (buf : List ℕ) (cfg : SmrConfig) {b : Book}
    → restore_message buf cfg ≡ restores b
    → (get_word_at 2 6 buf ≡ some 2) × (get_word_at 4 28 buf ≡ some cfg.cap)
unfolding restore_message
message-Checked buf cfg h =
    let (version, e, h1) = expect-restores (get_word_at 2 6 buf) _ h in
    let (two, h2) = checked (version == 2) _ _ h1 in
    let (_, _, h3) = expect-restores (get_word_at 2 0 buf) _ h2 in
    let (_, _, h4) = expect-restores (get_word_at 8 8 buf) _ h3 in
    let (_, _, h5) = expect-restores (get_word_at 8 16 buf) _ h4 in
    let (_, _, h6) = expect-restores (get_word_at 4 24 buf) _ h5 in
    let (_, _, h7) = expect-restores (get_word_at 4 32 buf) _ h6 in
    let (_, _, h8) = expect-restores (get_word_at 4 36 buf) _ h7 in
    let (_, _, h9) = expect-restores (get_word_at 4 40 buf) _ h8 in
    let (capacity, f, h10) = expect-restores (get_word_at 4 28 buf) _ h9 in
    let (same, _) = checked (capacity == cfg.cap) _ _ h10 in
    (e ∙ ap some (ground arith), f ∙ ap some (ground arith))

-- `restore` returns a book only for at least four bytes, whose last four are the checksum of those
-- before, whose header has version 2, and whose capacity is the configured one.
pub restore-Checked :
    (crc32c : List ℕ → ℕ) (bytes : List ℕ) (cfg : SmrConfig) (b : Book)
    → restore crc32c bytes cfg ≡ restores b
    → Checked crc32c bytes cfg
unfolding restore
restore-Checked crc32c bytes cfg b h = go (ltb (length bytes) 4) refl h
  where
    go :
        (short : Bool)
        → ltb (length bytes) 4 ≡ short
        → (if short
            then fails Restore.too_short
            else (expect (get_word_at 4 (length bytes - 4) bytes) >>= λ want.
                if not (crc32c (take (length bytes - 4) bytes) == want)
                then fails Restore.crc_mismatch
                else restore_message (take (length bytes - 4) bytes) cfg))
          ≡ restores b
        → Checked crc32c bytes cfg
    go true e h = absurd (not_restored Restore.too_short h)
    go false e h =
        let (want, f, h1) = expect-restores (get_word_at 4 (length bytes - 4) bytes) _ h in
        let (same, h2) = checked (crc32c (take (length bytes - 4) bytes) == want) _ _ h1 in
        let (version, capacity) = message-Checked (take (length bytes - 4) bytes) cfg h2 in
        record {
          long = ground arith;
          crc = f ∙ ap some (ground arith);
          version = version;
          capacity = capacity;
        }
