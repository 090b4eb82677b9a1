-- ===== src/Smr/Book/Insert.antt =====
-- An insert keeps the links.
use hi_perf_cmp.Prelude.{ℕ, ◌+◌, ◌≤◌, ◌<◌, ◌≡◌, ◌≢◌, ◌∙◌, Option, none, some, arith}
use hi_perf_cmp.Smr.Level.{nil}
use hi_perf_cmp.Smr.Book.View.{View, Rests, Ghost, IsLinked, inserted, arrived, rests_lt}

module _ {place : ℕ → Option ℕ} {n : ℕ} {g : Ghost} {v : View} (w : IsLinked place n g v)
    (slot id price qty side t top free : ℕ) (vacant : (v.at slot).order_id ≡ 0)
    (not_nil : slot ≢ nil) (id_pos : id ≢ 0) (new_id : v.idmap id ≡ none) (two : side < 2)
    (at_level : place price ≡ some t) (on_ladder : t < n) where
  abbrev v' : View
  v' = inserted v slot id price qty side t top free

  abbrev g' : Ghost
  g' = arrived g slot t

  ins_id_rests : (i s : ℕ) → v'.idmap i ≡ some s → ((v'.at s).order_id ≡ i) × (i ≢ 0)
  ins_id_rests i s h = ground (arith, w.id_rests i s)

  ins_rests_id : (s : ℕ) → Rests v' s → v'.idmap (v'.at s).order_id ≡ some s
  ins_rests_id s h = ground (arith, w.rests_id s)

  ins_side : (s : ℕ) → Rests v' s → (v'.at s).side < 2
  ins_side s h = ground (arith, w.side s)

  ins_placed : (s : ℕ) → Rests v' s → (place (v'.at s).price ≡ some (g'.lev s)) × (g'.lev s < n)
  ins_placed s h = ground (arith, w.placed s)

  ins_age : (s : ℕ) → Rests v' s → g'.age s < g'.clock
  ins_age s h = ground (arith, w.age s)

  ins_next :
      (s : ℕ)
      → Rests v' s
      → (v'.at s).next ≢ nil
      → Rests v' (v'.at s).next
        × ((v'.at (v'.at s).next).prev ≡ s)
        × ((v'.at (v'.at s).next).side ≡ (v'.at s).side)
        × (g'.lev (v'.at s).next ≡ g'.lev s)
        × (g'.age s < g'.age (v'.at s).next)
  ins_next s h k = ground (arith, w.next s, w.level_tail side t, w.age s)

  ins_prev :
      (s : ℕ)
      → Rests v' s
      → (v'.at s).prev ≢ nil
      → Rests v' (v'.at s).prev × ((v'.at (v'.at s).prev).next ≡ s)
  ins_prev s h k = ground (arith, w.prev s, w.level_tail side t, rests_lt w s)

  ins_tail :
      (s : ℕ) → Rests v' s → (v'.at s).next ≡ nil → (v'.level (v'.at s).side (g'.lev s)).tail ≡ s
  ins_tail s h k = ground (arith, w.tail s, w.side s, rests_lt w s)

  ins_head :
      (s : ℕ) → Rests v' s → (v'.at s).prev ≡ nil → (v'.level (v'.at s).side (g'.lev s)).head ≡ s
  ins_head s h k = ground (arith, w.head s, w.ends side t, w.level_head side t, rests_lt w s)

  ins_level_head :
      (z u : ℕ)
      → z < 2
      → u < n
      → (v'.level z u).head ≢ nil
      → Rests v' (v'.level z u).head
        × ((v'.at (v'.level z u).head).side ≡ z)
        × (g'.lev (v'.level z u).head ≡ u)
        × ((v'.at (v'.level z u).head).prev ≡ nil)
  ins_level_head z u hz hu k = ground (arith, w.level_head z u, w.level_tail side t, w.ends z u)

  ins_level_tail :
      (z u : ℕ)
      → z < 2
      → u < n
      → (v'.level z u).tail ≢ nil
      → Rests v' (v'.level z u).tail
        × ((v'.at (v'.level z u).tail).side ≡ z)
        × (g'.lev (v'.level z u).tail ≡ u)
        × ((v'.at (v'.level z u).tail).next ≡ nil)
  ins_level_tail z u hz hu k = ground (arith, w.level_tail z u, w.level_tail side t)

  ins_ends :
      (z u : ℕ)
      → z < 2
      → u < n
      → ((v'.level z u).head ≡ nil → (v'.level z u).tail ≡ nil)
        × ((v'.level z u).tail ≡ nil → (v'.level z u).head ≡ nil)
  ins_ends z u hz hu = (λ h. ground (arith, w.ends z u), λ h. ground (arith, w.ends z u))

  -- The parts on the free list depend on where the slot came from.
  pub record Slots : Type 0 where
    pub hwm_le : top ≤ v.cap
    pub fresh : (s : ℕ) → top ≤ s → (v'.at s).order_id ≡ 0
    pub free_head : free ≢ nil → ((v'.at free).order_id ≡ 0) × (free < top)
    pub free_next :
        (s : ℕ)
        → s < top
        → (v'.at s).order_id ≡ 0
        → (v'.at s).next ≢ nil
        → ((v'.at (v'.at s).next).order_id ≡ 0) × ((v'.at s).next < top) × ((v'.at s).next ≢ free)
    pub free_inj :
        (s r : ℕ)
        → s < top
        → r < top
        → (v'.at s).order_id ≡ 0
        → (v'.at r).order_id ≡ 0
        → (v'.at s).next ≡ (v'.at r).next
        → (v'.at s).next ≢ nil
        → s ≡ r

  pub ins-IsLinked : Slots → IsLinked place n g' v'
  ins-IsLinked f = record {
    cap = w.cap;
    hwm_le = f.hwm_le;
    fresh = f.fresh;
    id_rests = ins_id_rests;
    rests_id = ins_rests_id;
    side = ins_side;
    placed = ins_placed;
    age = ins_age;
    next = ins_next;
    prev = ins_prev;
    tail = ins_tail;
    head = ins_head;
    level_head = ins_level_head;
    level_tail = ins_level_tail;
    ends = ins_ends;
    free_head = f.free_head;
    free_next = f.free_next;
    free_inj = f.free_inj;
  }

  -- A slot from the free list.
  pub reused : slot ≡ v.free_head → top ≡ v.hwm → free ≡ (v.at slot).next → Slots
  reused a b c = record {
    hwm_le = rw b w.hwm_le;
    fresh = λ s h. ground (arith, w.fresh s, w.fresh slot, w.free_head, w.level_tail side t);
    free_head = λ h. ground (arith, w.free_head, w.free_next slot, w.level_tail side t);
    free_next = λ s h k l.
        ground (arith, w.free_head, w.free_next s, w.free_inj s slot, w.level_tail side t);
    free_inj = λ s r h k l m p q. ground (arith, w.free_inj s r, w.level_tail side t);
  }

  -- A slot that was never used.
  pub bumped :
      slot ≡ v.hwm
      → v.hwm < v.cap
      → top ≡ v.hwm + 1
      → free ≡ v.free_head
      → v.free_head ≡ nil
      → Slots
  bumped a lt b c e = record {
    hwm_le = omega arith;
    fresh = λ s h. ground (arith, w.fresh s, w.level_tail side t);
    free_head = λ h. absurd (h (c ∙ e));
    free_next = λ s h k l. ground (arith, w.free_next s, w.level_tail side t);
    free_inj = λ s r h k l m p q. ground (arith, w.free_inj s r, w.level_tail side t);
  }
