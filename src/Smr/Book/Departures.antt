-- ===== src/Smr/Book/Departures.antt =====
-- `Book::cancel` and `Book::fill` of an order that rests: they return, and the book stays a book.
use mathlib.Core.Path.{fun_ext, sym, subst}
use hi_perf_cmp.Prelude.{
  ℕ, ◌^◌, ◌<◌, ◌≡◌, ◌≢◌, refl, ap, ◌∙◌, List, none, some, arith, length, length-set, get_or, set,
  ◌==◌, if◌then◌else◌,
}
use hi_perf_cmp.Prelude.Run.{Run, ok}
use hi_perf_cmp.Prelude.Word.{sub64}
use hi_perf_cmp.Smr.Level.{nil, Order, zero_order, remove_id}
use hi_perf_cmp.Smr.Book.{Book, lane, take_id, unlink, remove_order, cancel, fill}
use hi_perf_cmp.Smr.Book.View.{
  View, view, Ghost, IsLinked, removed, at_removed, level_removed, rests_lt,
}
use hi_perf_cmp.Smr.Book.Remove.{removed-IsLinked}
use hi_perf_cmp.Smr.Book.Access.{
  place, put_order, at-put_order, tick_of-ok, order-ok, order_mut-ok, lengths-put_level,
}
use hi_perf_cmp.Smr.Book.Vacant.{IsListed, removed-IsListed}
use hi_perf_cmp.Smr.Book.Totals.{IsTotalled, removed-IsTotalled}
use hi_perf_cmp.Smr.Book.Scan.{Empty}
use hi_perf_cmp.Smr.Book.Best.{OneLevel}
use hi_perf_cmp.Smr.Book.Repair.{Repaired, repair_best-Repaired, rebest}
use hi_perf_cmp.Smr.Book.RemoveRuns.{
  unlinked, after_free, length_free, at_free, level_free, unlink_lem, free_slot_lem,
}
use hi_perf_cmp.Smr.Book.Levels.{level_head-Rests}
use hi_perf_cmp.Smr.Book.InsertRuns.{IsBook, length-lane}

-- What `cancel` and `fill` leave: the order's slot is vacant and first on the free list, and its id
-- is gone, in a book that is linked.
pub record Departed (g : Ghost) (b : Book) (id slot : ℕ) (r : Run Book (Unit {0})) : Type 0 where
  pub b' : Book
  pub returns : r ≡ ok tt b'
  pub book : IsBook g b'
  pub vacant : ((view b').at slot).order_id ≡ 0
  pub free_head : b'.free_head ≡ slot
  pub ladder :
      (b'.price_min ≡ b.price_min)
      × (b'.tick ≡ b.tick)
      × (b'.n_levels ≡ b.n_levels)
      × (length b'.pool ≡ length b.pool)
  pub others : (x : ℕ) → b'.idmap x ≡ (if id == x then none else b.idmap x)

module _ {g : Ghost} {b : Book} (w : IsBook g b) (id slot f : ℕ) (pool0 : List Order)
    (here : b.idmap id ≡ some slot) (same_length : length pool0 ≡ length b.pool)
    (at0 : (j : ℕ)
      → get_or pool0 j zero_order
        ≡ (if slot == j then record ((view b).at slot) { filled = f } else (view b).at j)) where
  abbrev o : Order
  o = (view b).at slot

  abbrev t : ℕ
  t = g.lev slot

  abbrev c : Book
  c = record b { pool = pool0; idmap = remove_id b.idmap id }

  rests : o.order_id ≢ 0
  rests = ground (arith, w.links.id_rests id slot here)

  in_pool : slot < length c.pool
  in_pool = omega (arith, rests_lt w.links slot rests, w.links.hwm_le, same_length)

  oc : (view c).at slot ≡ record o { filled = f }
  oc = at0 slot ∙ ground arith

  side_eq : ((view c).at slot).side ≡ o.side
  side_eq = ap (λ x. x.side) oc

  placed : (place b.price_min b.tick o.price ≡ some t) × (t < b.n_levels)
  placed = w.links.placed slot rests

  two : o.side < 2
  two = w.links.side slot rests

  prev_in : ((view c).at slot).prev ≢ nil → ((view c).at slot).prev < length c.pool
  prev_in h =
      let e : ((view c).at slot).prev ≡ o.prev = ap (λ x. x.prev) oc in
      let r = w.links.prev slot rests (λ k. h (e ∙ k)) in
      ground (arith, rests_lt w.links o.prev r.0, w.links.hwm_le, same_length)

  next_in : ((view c).at slot).next ≢ nil → ((view c).at slot).next < length c.pool
  next_in h =
      let e : ((view c).at slot).next ≡ o.next = ap (λ x. x.next) oc in
      let r = w.links.next slot rests (λ k. h (e ∙ k)) in
      ground (arith, rests_lt w.links o.next r.0, w.links.hwm_le, same_length)

  two_c : ((view c).at slot).side < 2
  two_c = rw side_eq two

  lane_ok : t < length (lane ((view c).at slot).side c)
  lane_ok = rw side_eq (rw (length-lane w o.side) placed.1)

  module _ (rem : ℕ) where
    abbrev freed : Book
    freed = after_free c slot t rem

    at_freed : (j : ℕ) → (view freed).at j ≡ at_removed (view b) slot t rem f j
    at_freed j =
        at_free c slot t rem in_pool prev_in next_in two_c lane_ok j
        ∙ ground (arith, at0 slot, at0 j)

    level_freed : (z u : ℕ) → (view freed).level z u ≡ level_removed (view b) slot t rem f z u
    level_freed z u =
        level_free c slot t rem in_pool prev_in next_in two_c lane_ok z u ∙ ground (arith, at0 slot)

    abbrev seen : View
    seen = removed (view b) slot t rem f

    view-freed : view freed ≡ seen
    view-freed i = record {
      at = fun_ext at_freed i;
      level = fun_ext (λ z. fun_ext (level_freed z)) i;
      cap = (length_free c slot t rem in_pool prev_in next_in two_c lane_ok ∙ same_length) i;
      hwm = b.hwm;
      free_head = slot;
      idmap = remove_id b.idmap (sym (w.links.id_rests id slot here).0 i);
    }

    one_level : OneLevel (view b) (view freed) freed.n_levels o.side t
    one_level = record {
      few = w.few_levels;
      on_ladder = placed.1;
      same = λ z u h k ne. ap (λ v. (v.level z u).head) view-freed ∙ ground arith;
    }

    bids_length : length freed.bids ≡ b.n_levels
    bids_length = (lengths-put_level c ((view c).at slot).side t _).0 ∙ w.bids_length

    asks_length : length freed.asks ≡ b.n_levels
    asks_length = (lengths-put_level c ((view c).at slot).side t _).1 ∙ w.asks_length

    before : Empty (view b) o.side t → ⊥
    before e = level_head-Rests w.links slot rests e

    repaired : Repaired freed o.side t
    repaired = repair_best-Repaired freed one_level two before bids_length asks_length w.bid w.ask

    below : slot < (view b).cap
    below = omega (arith, rests_lt w.links slot rests, w.links.hwm_le)

    abbrev b' : Book
    b' = rebest freed repaired.bid' repaired.ask'

    remove_order_lem : remove_order slot o.side o.price rem c ≡ ok tt b'
    unfolding remove_order
    remove_order_lem =
        let u : unlink slot o.side t rem c ≡ ok tt (unlinked c slot t rem) =
          subst (λ z. unlink slot z t rem c ≡ ok tt (unlinked c slot t rem)) side_eq
            (unlink_lem c slot t rem in_pool prev_in next_in two_c lane_ok) in
        rw
          (
            tick_of-ok c o.price placed.0,
            u,
            free_slot_lem c slot t rem in_pool prev_in next_in two_c lane_ok,
            repaired.returns,
          )
          refl

    pub departs :
        rem ≡ sub64 o.qty o.filled
        → f < 2 ^ 64
        → Departed g b id slot (remove_order slot o.side o.price rem c)
    departs is_rem fits = record {
      b' = b';
      returns = remove_order_lem;
      book = record {
        links =
            subst (IsLinked (place b.price_min b.tick) b.n_levels g) (sym view-freed)
              (removed-IsLinked w.links slot rem f rests);
        free =
            subst IsListed (sym view-freed)
              (removed-IsListed w.free w.links slot rem f rests (rests_lt w.links slot rests).0);
        totals = subst (IsTotalled b.n_levels g) (sym view-freed) (
            subst (λ x. IsTotalled b.n_levels g (removed (view b) slot t x f)) (sym is_rem)
              (removed-IsTotalled w.links w.totals slot f below rests fits));
        bids_length = bids_length;
        asks_length = asks_length;
        few_levels = w.few_levels;
        bid = repaired.bid_ok;
        ask = repaired.ask_ok;
      };
      vacant = ap (λ v. (v.at slot).order_id) view-freed ∙ ground arith;
      free_head = refl;
      ladder = (refl, refl, refl, ap (λ v. v.cap) view-freed);
      others = λ x. ground arith;
    }

slot_in_pool :
    {g : Ghost} {b : Book} (id slot : ℕ)
    → IsBook g b
    → b.idmap id ≡ some slot
    → slot < length b.pool
slot_in_pool id slot w here =
    let rests = w.links.id_rests id slot here in
    omega (arith, rests_lt w.links slot (ground (arith, rests)), w.links.hwm_le)

-- `cancel` of an order that rests returns. The order's slot is vacant and first on the free list, no
-- other id is lost, the links, the id-map and the free list are well formed again, every level's
-- quantity and count are the sums over its orders, and the cached best prices are the highest bid
-- level and the lowest ask level with an order.
pub cancel-Departed :
    (g : Ghost) (b : Book) (id slot : ℕ)
    → IsBook g b
    → b.idmap id ≡ some slot
    → Departed g b id slot (cancel id b)
unfolding cancel take_id
cancel-Departed g b id slot w here =
    let o = (view b).at slot in
    let c = record b { idmap = remove_id b.idmap id } in
    let d =
      departs w id slot o.filled b.pool here refl (λ j. ground arith) (sub64 o.qty o.filled) refl
        (w.totals.filled_fits slot) in
    let e : cancel id b ≡ remove_order slot o.side o.price (sub64 o.qty o.filled) c =
      rw (here, order-ok c slot (slot_in_pool id slot w here)) refl in
    subst (Departed g b id slot) (sym e) d

-- `fill` of an order that rests returns, and leaves what `cancel` does.
pub fill-Departed :
    (g : Ghost) (b : Book) (id slot : ℕ)
    → IsBook g b
    → b.idmap id ≡ some slot
    → Departed g b id slot (fill id b)
unfolding fill take_id
fill-Departed g b id slot w here =
    let o = (view b).at slot in
    let lt : slot < length b.pool = slot_in_pool id slot w here in
    let c = record b { idmap = remove_id b.idmap id } in
    let d =
      departs w id slot o.qty (set b.pool slot (record o { filled = o.qty })) here
        (length-set b.pool slot _) (λ j. at-put_order b slot j (record o { filled = o.qty }) lt)
        (sub64 o.qty o.filled) refl (w.totals.qty_fits slot) in
    let e : fill id b
        ≡ remove_order slot o.side o.price (sub64 o.qty o.filled)
            (put_order c slot (record o { filled = o.qty })) =
      rw (here, order-ok c slot lt, order_mut-ok c slot (λ p. record p { filled = p.qty }) lt)
        refl in
    subst (Departed g b id slot) (sym e) d
