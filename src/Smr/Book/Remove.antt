-- ===== src/Smr/Book/Remove.antt =====
-- Taking an order out of its level keeps the links.
use hi_perf_cmp.Prelude.{ℕ, ◌≤◌, ◌<◌, ◌≡◌, ◌≢◌, Option, some, arith}
use hi_perf_cmp.Smr.Level.{nil, Order}
use hi_perf_cmp.Smr.Book.View.{View, Rests, Ghost, IsLinked, removed, rests_lt}

module _ {place : ℕ → Option ℕ} {n : ℕ} {g : Ghost} {v : View} (w : IsLinked place n g v)
    (slot rem filled : ℕ) (live : Rests v slot) where
  abbrev v' : View
  v' = removed v slot (g.lev slot) rem filled

  abbrev o : Order
  o = v.at slot

  rem_fresh : (s : ℕ) → v.hwm ≤ s → (v'.at s).order_id ≡ 0
  rem_fresh s h = ground (arith, w.fresh s, w.fresh slot, rests_lt w slot live)

  rem_id_rests : (i s : ℕ) → v'.idmap i ≡ some s → ((v'.at s).order_id ≡ i) × (i ≢ 0)
  rem_id_rests i s h = ground (arith, w.id_rests i s)

  rem_rests_id : (s : ℕ) → Rests v' s → v'.idmap (v'.at s).order_id ≡ some s
  rem_rests_id s h = ground (arith, w.rests_id s, w.rests_id slot)

  rem_side : (s : ℕ) → Rests v' s → (v'.at s).side < 2
  rem_side s h = ground (arith, w.side s)

  rem_placed : (s : ℕ) → Rests v' s → (place (v'.at s).price ≡ some (g.lev s)) × (g.lev s < n)
  rem_placed s h = ground (arith, w.placed s)

  rem_age : (s : ℕ) → Rests v' s → g.age s < g.clock
  rem_age s h = ground (arith, w.age s)

  rem_next :
      (s : ℕ)
      → Rests v' s
      → (v'.at s).next ≢ nil
      → Rests v' (v'.at s).next
        × ((v'.at (v'.at s).next).prev ≡ s)
        × ((v'.at (v'.at s).next).side ≡ (v'.at s).side)
        × (g.lev (v'.at s).next ≡ g.lev s)
        × (g.age s < g.age (v'.at s).next)
  rem_next s h k = ground (
    arith,
    w.next s,
    w.next slot,
    w.prev slot,
    w.prev s,
    w.next o.prev,
    rests_lt w s,
    rests_lt w slot,
  )

  rem_prev :
      (s : ℕ)
      → Rests v' s
      → (v'.at s).prev ≢ nil
      → Rests v' (v'.at s).prev × ((v'.at (v'.at s).prev).next ≡ s)
  rem_prev s h k = ground (
    arith,
    w.prev s,
    w.prev slot,
    w.next slot,
    w.next s,
    w.next o.prev,
    rests_lt w s,
    rests_lt w slot,
  )

  rem_tail :
      (s : ℕ) → Rests v' s → (v'.at s).next ≡ nil → (v'.level (v'.at s).side (g.lev s)).tail ≡ s
  rem_tail s h k = ground (
    arith,
    w.tail s,
    w.tail slot,
    w.next s,
    w.prev slot,
    w.next o.prev,
    rests_lt w s,
    rests_lt w slot,
  )

  rem_head :
      (s : ℕ) → Rests v' s → (v'.at s).prev ≡ nil → (v'.level (v'.at s).side (g.lev s)).head ≡ s
  rem_head s h k =
      ground (arith, w.head s, w.head slot, w.prev s, w.next slot, rests_lt w s, rests_lt w slot)

  rem_level_head :
      (z u : ℕ)
      → z < 2
      → u < n
      → (v'.level z u).head ≢ nil
      → Rests v' (v'.level z u).head
        × ((v'.at (v'.level z u).head).side ≡ z)
        × (g.lev (v'.level z u).head ≡ u)
        × ((v'.at (v'.level z u).head).prev ≡ nil)
  rem_level_head z u hz hu k =
      ground (arith, w.level_head z u, w.next slot, w.prev slot, rests_lt w slot)

  rem_level_tail :
      (z u : ℕ)
      → z < 2
      → u < n
      → (v'.level z u).tail ≢ nil
      → Rests v' (v'.level z u).tail
        × ((v'.at (v'.level z u).tail).side ≡ z)
        × (g.lev (v'.level z u).tail ≡ u)
        × ((v'.at (v'.level z u).tail).next ≡ nil)
  rem_level_tail z u hz hu k =
      ground (arith, w.level_tail z u, w.next slot, w.prev slot, w.next o.prev, rests_lt w slot)

  rem_free_head : slot ≢ nil → ((v'.at slot).order_id ≡ 0) × (slot < v.hwm)
  rem_free_head h = ground (arith, rests_lt w slot live)

  rem_free_next :
      (s : ℕ)
      → s < v.hwm
      → (v'.at s).order_id ≡ 0
      → (v'.at s).next ≢ nil
      → ((v'.at (v'.at s).next).order_id ≡ 0) × ((v'.at s).next < v.hwm) × ((v'.at s).next ≢ slot)
  rem_free_next s h k l = ground (arith, w.free_next s, w.free_head, w.prev slot, w.next slot)

  rem_free_inj :
      (s r : ℕ)
      → s < v.hwm
      → r < v.hwm
      → (v'.at s).order_id ≡ 0
      → (v'.at r).order_id ≡ 0
      → (v'.at s).next ≡ (v'.at r).next
      → (v'.at s).next ≢ nil
      → s ≡ r
  rem_free_inj s r h k l m p q =
      ground (arith, w.free_inj s r, w.free_next s, w.free_next r, w.prev slot, w.next slot)

  rem_ends :
      (z u : ℕ)
      → z < 2
      → u < n
      → ((v'.level z u).head ≡ nil → (v'.level z u).tail ≡ nil)
        × ((v'.level z u).tail ≡ nil → (v'.level z u).head ≡ nil)
  rem_ends z u hz hu = (
    λ h. ground (
      arith,
      w.ends z u,
      w.tail slot,
      w.head slot,
      w.next slot,
      w.prev slot,
      rests_lt w slot live,
      w.level_tail z u,
      w.level_head z u,
    ),
    λ h. ground (
      arith,
      w.ends z u,
      w.tail slot,
      w.head slot,
      w.next slot,
      w.prev slot,
      rests_lt w slot live,
      w.level_tail z u,
      w.level_head z u,
    ),
  )

  pub removed-IsLinked : IsLinked place n g v'
  removed-IsLinked = record {
    cap = w.cap;
    hwm_le = w.hwm_le;
    fresh = rem_fresh;
    id_rests = rem_id_rests;
    rests_id = rem_rests_id;
    side = rem_side;
    placed = rem_placed;
    age = rem_age;
    next = rem_next;
    prev = rem_prev;
    tail = rem_tail;
    head = rem_head;
    level_head = rem_level_head;
    level_tail = rem_level_tail;
    ends = rem_ends;
    free_head = rem_free_head;
    free_next = rem_free_next;
    free_inj = rem_free_inj;
  }
