-- ===== src/Smr/Book/Vacant.antt =====
-- The free list of a book holds every vacant slot below the high-water mark.
use hi_perf_cmp.Prelude.{ℕ, zero, suc, ◌+◌, ◌<◌, ◌≤◌, ◌≡◌, ◌≢◌, arith, Option}
use hi_perf_cmp.Smr.Level.{nil}
use hi_perf_cmp.Smr.Book.View.{View, Rests, Ghost, IsLinked, inserted, removed, set_fun}

abbrev pub Vacant : View → ℕ → Type 0
Vacant v s = (v.at s).order_id ≡ 0

-- A vacant slot is the head of the free list, or the next of another one, which was freed later.
pub record IsListed (v : View) : Type 0 where
  pub pred : ℕ → ℕ
  pub stamp : ℕ → ℕ
  pub clock : ℕ
  pub reached :
      (s : ℕ)
      → s < v.hwm
      → Vacant v s
      → s ≢ v.free_head
      → (pred s < v.hwm)
        × Vacant v (pred s)
        × ((v.at (pred s)).next ≡ s)
        × (stamp s < stamp (pred s))
  pub stamped : (s : ℕ) → s < v.hwm → Vacant v s → stamp s < clock

module _ {v : View} (w : IsListed v) where
  -- From a vacant slot back to the head of the free list.
  none_by_stamp :
      (k s : ℕ) → w.clock < w.stamp s + k → s < v.hwm → v.hwm ≤ nil → v.free_head ≡ nil → Rests v s
  none_by_stamp zero s lt below small e h = absurd (omega (arith, w.stamped s below h))
  none_by_stamp (suc k) s lt below small e h =
      let r = w.reached s below h (ground arith) in
      none_by_stamp k (w.pred s) (omega (arith, r)) (r.0) small e r.1

  -- With an empty free list every slot below the high-water mark rests.
  pub full-Rests : (s : ℕ) → v.free_head ≡ nil → v.hwm ≤ nil → s < v.hwm → Rests v s
  full-Rests s e small below h = none_by_stamp (suc w.clock) s (omega arith) below small e h

  module _ {place : ℕ → Option ℕ} {n : ℕ} {g : Ghost} (l : IsLinked place n g v) where
    pub reused-IsListed :
        (slot id price qty side t : ℕ)
        → slot ≡ v.free_head
        → slot < v.hwm
        → Vacant v slot
        → id ≢ 0
        → side < 2
        → t < n
        → IsListed (inserted v slot id price qty side t v.hwm (v.at slot).next)
    reused-IsListed slot id price qty side t e lt free ne two lt' = record {
      pred = w.pred;
      stamp = w.stamp;
      clock = w.clock;
      reached = λ s h k m. ground (arith, w.reached s, l.level_tail side t);
      stamped = λ s h k. ground (arith, w.stamped s, l.level_tail side t);
    }

    pub bumped-IsListed :
        (slot id price qty side t : ℕ)
        → slot ≡ v.hwm
        → Vacant v slot
        → id ≢ 0
        → side < 2
        → t < n
        → IsListed (inserted v slot id price qty side t (v.hwm + 1) v.free_head)
    bumped-IsListed slot id price qty side t e free ne two lt' = record {
      pred = w.pred;
      stamp = w.stamp;
      clock = w.clock;
      reached = λ s h k m. ground (arith, w.reached s, l.level_tail side t);
      stamped = λ s h k. ground (arith, w.stamped s, l.level_tail side t);
    }

    pub removed-IsListed :
        (slot rem filled : ℕ)
        → Rests v slot
        → slot < v.hwm
        → IsListed (removed v slot (g.lev slot) rem filled)
    removed-IsListed slot rem filled rests lt = record {
      pred = set_fun w.pred v.free_head slot;
      stamp = set_fun w.stamp slot w.clock;
      clock = w.clock + 1;
      reached = λ s h k m. ground (
        arith,
        w.reached s,
        w.stamped s,
        w.stamped (w.pred s),
        l.prev slot,
        l.next slot,
        l.free_head,
      );
      stamped = λ s h k. ground (arith, w.stamped s, l.prev slot, l.next slot);
    }
