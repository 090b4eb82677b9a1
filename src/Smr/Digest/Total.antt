-- ===== src/Smr/Digest/Total.antt =====
-- Enough fuel for the digest of a well-formed book: the number of orders that ever arrived, and one.
use hi_perf_cmp.Prelude.{
  ℕ, zero, suc, ◌+◌, ◌<◌, ◌≤◌, ◌≡◌, ◌≢◌, refl, arith, List, [], ◌∷◌, Option, some, length,
  get_elem?, get_or, get_elem?-eq-get_or, lt_of_get_elem?, Bool-cases, inl, inr, ◌==◌,
}
use hi_perf_cmp.Smr.Level.{nil, Order, PriceLevel, zero_order, empty_level}
use hi_perf_cmp.Smr.Book.{Book, lane}
use hi_perf_cmp.Smr.Book.View.{view, Rests, Ghost, rests_lt}
use hi_perf_cmp.Smr.Book.InsertRuns.{IsBook}
use hi_perf_cmp.Smr.Digest.{live_orders, walk, digest_level, digest_lane, digest_book}

-- The code returns a value.
abbrev pub Returns : {A : Type 0} → Option A → Type 0
Returns {A} r = (a : A) × (r ≡ some a)

live_orders-Returns :
    (pool : List Order) (n : ℕ) → n ≤ length pool → Returns (live_orders (get_elem? pool) n)
unfolding live_orders
live_orders-Returns pool zero le = ([], refl)
live_orders-Returns pool (suc n) le =
    let (xs, e) = live_orders-Returns pool n (omega arith) in
    rw (e, get_elem?-eq-get_or pool n zero_order le) (_, refl)

module _ {g : Ghost} {b : Book} (w : IsBook g b) where
  walk-Returns :
      (fuel s : ℕ)
      → 0 < fuel
      → (s ≢ nil → Rests (view b) s × (g.clock < g.age s + fuel))
      → Returns (walk (get_elem? b.pool) fuel s)
  unfolding walk
  walk-Returns zero s pos h = absurd (omega arith)
  walk-Returns (suc fuel) s pos h = elim (Bool-cases (s == nil)) [
    | inl e ↦ ([], rw e refl)
    | inr e ↦
        let (r, close) = h (ground arith) in
        let o = (view b).at s in
        let lt : s < length b.pool = omega (arith, rests_lt w.links s r, w.links.hwm_le) in
        let (ids, p) =
          walk-Returns fuel o.next (omega (arith, w.links.age s r, close))
            (λ ne. let f = w.links.next s r ne in (f.0, omega (arith, f, close))) in
        rw (e, get_elem?-eq-get_or b.pool s zero_order lt, p) (_, refl)
  ]

  abbrev fuel : ℕ
  fuel = g.clock + 1

  digest_level-Returns :
      (side t : ℕ) (lvl : PriceLevel)
      → (lvl.head ≢ nil → Rests (view b) lvl.head)
      → Returns (digest_level (get_elem? b.pool) fuel side t lvl)
  unfolding digest_level
  digest_level-Returns side t lvl h = elim (Bool-cases (lvl.head == nil)) [
    | inl e ↦ ([], rw e refl)
    | inr e ↦
        let (ids, p) = walk-Returns fuel lvl.head (omega arith) (λ ne. (h ne, omega arith)) in
        rw (e, p) (_, refl)
  ]

  digest_lane-Returns :
      (side t : ℕ) (lvls : List PriceLevel)
      → ((u : ℕ) (lvl : PriceLevel)
          → get_elem? lvls u ≡ some lvl
          → lvl.head ≢ nil
          → Rests (view b) lvl.head)
      → Returns (digest_lane (get_elem? b.pool) fuel side t lvls)
  unfolding digest_lane
  digest_lane-Returns side t [] h = ([], refl)
  digest_lane-Returns side t (lvl ∷ lvls) h =
      let (xs, p) = digest_level-Returns side t lvl (h 0 lvl refl) in
      let (ys, q) = digest_lane-Returns side (t + 1) lvls (λ u. h (suc u)) in rw (p, q) (_, refl)

  heads :
      (side u : ℕ) (lvl : PriceLevel)
      → side < 2
      → get_elem? (lane side b) u ≡ some lvl
      → u < b.n_levels
      → lvl.head ≢ nil
      → Rests (view b) lvl.head
  heads side u lvl two e lt ne =
      let d : get_elem? (lane side b) u ≡ some (get_or (lane side b) u empty_level) =
        get_elem?-eq-get_or (lane side b) u empty_level (lt_of_get_elem? (lane side b) u e) in
      ground (arith, w.links.level_head side u)

  -- The digest of a well-formed book returns on fuel one above the number of orders that arrived.
  pub digest_book-Returns : Returns (digest_book (g.clock + 1) b)
  unfolding digest_book
  digest_book-Returns =
      let (live, p) = live_orders-Returns b.pool b.hwm w.links.hwm_le in
      let (bids, q) = digest_lane-Returns 0 0 b.bids (λ u lvl e.
        heads 0 u lvl (omega arith) e (omega (arith, lt_of_get_elem? b.bids u e, w.bids_length))) in
      let (asks, r) = digest_lane-Returns 1 0 b.asks (λ u lvl e.
        heads 1 u lvl (omega arith) e (omega (arith, lt_of_get_elem? b.asks u e, w.asks_length))) in
      rw (p, q, r) (_, refl)
