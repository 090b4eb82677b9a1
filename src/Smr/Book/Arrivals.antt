-- ===== src/Smr/Book/Arrivals.antt =====
-- `Book::insert` in room: it returns, and the book stays a book.
use hi_perf_cmp.Prelude.{
  refl, ◌==◌, if◌then◌else◌, ◌^◌, ℕ, ◌<◌, ◌≡◌, ◌≢◌, inl, inr, ap, ◌∙◌, none, some, arith, length,
}
use mathlib.Core.Path.{subst}
use hi_perf_cmp.Prelude.Run.{ok}
use hi_perf_cmp.Smr.Level.{nil}
use hi_perf_cmp.Smr.Book.{Book, lane, insert}
use hi_perf_cmp.Smr.Book.View.{view, Ghost, arrived, arrival, inserted, longer, rests_lt}
use hi_perf_cmp.Smr.Book.Insert.{ins-IsLinked, Slots, reused, bumped}
use hi_perf_cmp.Smr.Book.Access.{place}
use hi_perf_cmp.Smr.Book.Vacant.{IsListed, reused-IsListed, bumped-IsListed}
use hi_perf_cmp.Smr.Book.Totals.{inserted-IsTotalled}
use hi_perf_cmp.Smr.Book.Scan.{Empty}
use hi_perf_cmp.Smr.Book.Best.{OneLevel, raise_bid, raise_ask}
use hi_perf_cmp.Smr.Book.InsertRuns.{
  IsBook, length-lane, HasRoom, Allocated, alloc_slot-Allocated, after_insert, view_after,
  insert_lem,
}
use hi_perf_cmp.Smr.Book.Access.{tick_of-ok, lengths-put_level}

-- What `insert` leaves: the new order in a slot that was vacant, found by its id, and last on its
-- level, in a book that is linked.
pub record Arrived (g : Ghost) (b : Book) (id price qty side t : ℕ) : Type 0 where
  pub slot : ℕ
  pub b' : Book
  pub returns : insert id price qty side b ≡ ok tt b'
  pub book : IsBook (arrived g slot t) b'
  pub vacant : ((view b).at slot).order_id ≡ 0
  pub found : b'.idmap id ≡ some slot
  pub ids : (x : ℕ) → b'.idmap x ≡ (if id == x then some slot else b.idmap x)
  pub ladder :
      (b'.price_min ≡ b.price_min)
      × (b'.tick ≡ b.tick)
      × (b'.n_levels ≡ b.n_levels)
      × (length b'.pool ≡ length b.pool)
  pub order : (view b').at slot ≡ arrival (view b) slot id price qty side t
  pub last : ((view b').level side t).tail ≡ slot

module _ {g : Ghost} {b : Book} (w : IsBook g b) (id price qty side t : ℕ) (a : Allocated b)
    (id_pos : id ≢ 0) (new_id : b.idmap id ≡ none) (two : side < 2) (fits : qty < 2 ^ 64)
    (at_level : place b.price_min b.tick price ≡ some t) (on_ladder : t < b.n_levels) where
  not_nil : a.slot ≢ nil
  not_nil = ground (arith, a.in_pool, w.links.cap)

  slots :
      Slots w.links a.slot id price qty side t a.top a.free a.vacant not_nil id_pos new_id two
        at_level on_ladder
  slots = elim a.how [
    | inl (p, q, r) ↦
        reused w.links a.slot id price qty side t a.top a.free a.vacant not_nil id_pos new_id two
          at_level on_ladder p q r
    | inr (p, q, r, e, lt) ↦
        bumped w.links a.slot id price qty side t a.top a.free a.vacant not_nil id_pos new_id two
          at_level on_ladder p lt q r e
  ]

  listed : IsListed (inserted (view b) a.slot id price qty side t a.top a.free)
  listed = elim a.how [
    | inl (p, q, r) ↦
        let lt : a.slot < b.hwm = ground (arith, w.links.free_head, not_nil) in
        rw (q, r)
          (reused-IsListed w.free w.links a.slot id price qty side t p lt a.vacant id_pos two
            on_ladder)
    | inr (p, q, r, e, lt) ↦
        rw (q, r)
          (bumped-IsListed w.free w.links a.slot id price qty side t p a.vacant id_pos two
            on_ladder)
  ]

  abbrev tail : ℕ
  tail = ((view b).level side t).tail

  tail_in : tail ≢ nil → tail < length b.pool
  tail_in h =
      let r = w.links.level_tail side t two on_ladder h in
      omega (arith, rests_lt w.links tail r.0, w.links.hwm_le)

  tail_ne : tail ≢ nil → a.slot ≢ tail
  tail_ne h e = let r = w.links.level_tail side t two on_ladder h in ground (arith, r.0, a.vacant)

  lane_ok : t < length (lane side b)
  lane_ok = rw (length-lane w side) on_ladder

  abbrev b' : Book
  b' = after_insert b id price qty side t a.slot a.top a.free

  seen : view b' ≡ inserted (view b) a.slot id price qty side t a.top a.free
  seen = view_after b id price qty side t a.slot a.top a.free a.in_pool tail_in tail_ne two lane_ok

  one_level : OneLevel (view b) (view b') b.n_levels side t
  one_level = record {
    few = w.few_levels;
    on_ladder = on_ladder;
    same = λ z u h k ne. ap (λ v. (v.level z u).head) seen ∙ ground arith;
  }

  now : Empty (view b') side t → ⊥
  now e =
      let h : (longer (view b) a.slot id price qty side t).head ≡ nil =
        ground (arith, ap (λ v. (v.level side t).head) seen) in
      ground (arith, not_nil, w.links.ends side t two on_ladder)

  still-IsBook : IsBook (arrived g a.slot t) b'
  still-IsBook = record {
    links = rw seen (
        ins-IsLinked w.links a.slot id price qty side t a.top a.free a.vacant not_nil id_pos new_id
          two at_level on_ladder slots);
    free = rw seen listed;
    totals = rw seen (
        inserted-IsTotalled w.links w.totals a.slot id price qty side t a.top a.free a.in_pool
          a.vacant id_pos fits two on_ladder);
    bids_length = (lengths-put_level b side t _).0 ∙ w.bids_length;
    asks_length = (lengths-put_level b side t _).1 ∙ w.asks_length;
    few_levels = w.few_levels;
    bid = raise_bid one_level (λ e. subst (λ z. Empty (view b') z t → ⊥) e now) w.bid;
    ask = raise_ask one_level (λ e. subst (λ z. Empty (view b') z t → ⊥) e now) w.ask;
  }

  arrives : Arrived g b id price qty side t
  arrives = record {
    slot = a.slot;
    b' = b';
    returns =
        insert_lem b id price qty side t a.slot a.top a.free a.in_pool tail_in tail_ne two lane_ok
          (tick_of-ok b price at_level) a.returns;
    book = still-IsBook;
    vacant = a.vacant;
    found = ground arith;
    ids = λ x. ground arith;
    ladder = (refl, refl, refl, ap (λ v. v.cap) seen);
    order = ap (λ v. v.at a.slot) seen ∙ ground arith;
    last = ap (λ v. (v.level side t).tail) seen ∙ ground arith;
  }

-- On a book with a free slot, `insert` of a new positive id, of an i64 quantity, on side 0 or 1 and at
-- a price that maps to a level of the ladder, returns: the order is in a slot that was vacant, is found by its id and
-- is last on its level; the links, the id-map and the free list are well formed again, every level's quantity and count are
-- the sums over its orders, and the cached
-- best prices are the highest bid level and the lowest ask level with an order.
pub insert-Arrived :
    (g : Ghost) (b : Book) (id price qty side t : ℕ)
    → IsBook g b
    → HasRoom b
    → id ≢ 0
    → b.idmap id ≡ none
    → side < 2
    → qty < 2 ^ 64
    → place b.price_min b.tick price ≡ some t
    → t < b.n_levels
    → Arrived g b id price qty side t
insert-Arrived g b id price qty side t w room id_pos new_id two fits at_level on_ladder =
    arrives w id price qty side t (alloc_slot-Allocated w room) id_pos new_id two fits at_level
      on_ladder
