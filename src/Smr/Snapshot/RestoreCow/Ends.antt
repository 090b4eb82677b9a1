-- ===== src/Smr/Snapshot/RestoreCow/Ends.antt =====
-- Restores that end alike, and the rules that follow the shape of the code.
use hi_perf_cmp.Prelude.{
  ℕ, zero, suc, ◌+◌, Bool, true, false, List, Option, none, some, if◌then◌else◌,
}
use hi_perf_cmp.Prelude.Run.{Run, Cmd}
use hi_perf_cmp.Prelude.Lockstep.{Agree, returns, panics, Sim}
use hi_perf_cmp.Smr.Booksnap.{LevelEntry, OrderEntry, get_word_at, get_level, get_order}
use hi_perf_cmp.Smr.Snapshot.Restore
use hi_perf_cmp.Smr.Snapshot.Restore.{
  Restored, restores, fails, ◌>>=◌, expect, restore_entries, restore_groups,
}
use hi_perf_cmp.Smr.Snapshot.RestoreCow.{left}

-- Two restores that end alike: with related books, the same error, or a panic.
pub data Alike {S T : Type 0} (R : S → T → Type 0) : Restored S → Restored T → Type 0 where
  both_restore : {s : S} {t : T} → R s t → Alike R (restores s) (restores t)
  both_fail : (e : Restore.RestoreError) → Alike R (fails e) (fails e)
  both_panic : Alike R Restore.panics Restore.panics

module _ {S T : Type 0} {R : S → T → Type 0} where
  pub expect-Alike :
      {A : Type 0} (o : Option A) (k : A → Restored S) (l : A → Restored T)
      → ((a : A) → Alike R (k a) (l a))
      → Alike R (expect o >>= k) (expect o >>= l)
  expect-Alike none k l next = both_panic
  expect-Alike (some a) k l next = next a

  pub if-Alike :
      (c : Bool) (e : Restore.RestoreError) {p : Restored S} {q : Restored T}
      → Alike R p q
      → Alike R (if c then fails e else p) (if c then fails e else q)
  if-Alike true e h = both_fail e
  if-Alike false e h = h

  bind-Alike :
      {p : Restored S} {q : Restored T} (k : S → Restored S) (l : T → Restored T)
      → Alike R p q
      → ((s : S) (t : T) → R s t → Alike R (k s) (l t))
      → Alike R (p >>= k) (q >>= l)
  bind-Alike k l (both_restore {s} {t} r) next = next s t r
  bind-Alike k l (both_fail e) next = both_fail e
  bind-Alike k l both_panic next = both_panic

  left-Alike :
      {r : Run S (Unit {0})} {q : Run T (Unit {0})}
      → Agree R r q
      → Alike R (expect (left r)) (expect (left q))
  left-Alike (returns e h) = both_restore h
  left-Alike panics = both_panic

  entries-Alike :
      {A : Type 0} (get : ℕ → List ℕ → Option A) (put : A → Cmd S (Unit {0}))
      (put' : A → Cmd T (Unit {0}))
      → ((e : A) → Sim R (put e) (put' e))
      → (n width limit : ℕ) (buf : List ℕ) (s : S) (t : T) → R s t
      → Alike R
          (restore_entries get (λ e b. left (put e b)) n width limit buf s)
          (restore_entries get (λ e b. left (put' e b)) n width limit buf t)
  unfolding restore_entries
  entries-Alike get put put' sim zero width limit buf s t r = both_restore r
  entries-Alike get put put' sim (suc n) width limit buf s t r =
      expect-Alike (get limit buf) _ _ λ e.
        bind-Alike _ _ (left-Alike (sim e s t r))
          λ s' t' r'. entries-Alike get put put' sim n width (limit + width) buf s' t' r'

  pub groups-Alike :
      (level : LevelEntry → Cmd S (Unit {0})) (level' : LevelEntry → Cmd T (Unit {0}))
      (order : OrderEntry → Cmd S (Unit {0})) (order' : OrderEntry → Cmd T (Unit {0}))
      → ((e : LevelEntry) → Sim R (level e) (level' e))
      → ((e : OrderEntry) → Sim R (order e) (order' e))
      → (limit : ℕ) (buf : List ℕ) (s : S) (t : T) → R s t
      → Alike R
          (restore_groups (λ e b. left (level e b)) (λ e b. left (order e b)) limit buf s)
          (restore_groups (λ e b. left (level' e b)) (λ e b. left (order' e b)) limit buf t)
  unfolding restore_groups
  groups-Alike level level' order order' levels orders limit buf s t r =
      expect-Alike (get_word_at 2 limit buf) _ _ λ width.
        expect-Alike (get_word_at 2 (limit + 2) buf) _ _ λ count.
          bind-Alike _ _
            (entries-Alike get_level level level' levels count width (limit + 4) buf s t r)
            λ s' t' r'. expect-Alike (get_word_at 2 _ buf) _ _ λ width'.
              expect-Alike (get_word_at 2 _ buf) _ _
                λ count'. entries-Alike get_order order order' orders count' width' _ buf s' t' r'
