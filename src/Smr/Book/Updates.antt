-- ===== src/Smr/Book/Updates.antt =====
-- `Book::update` of an order that rests.
use mathlib.Core.Path.{fun_ext}
use hi_perf_cmp.Prelude.{
  ℕ, ◌+◌, ◌%◌, ◌^◌, ◌<◌, ◌≡◌, ◌∙◌, refl, ap, some, arith, ◌==◌, ◌&&◌, if◌then◌else◌, length,
  length-set,
}
use hi_perf_cmp.Prelude.Run.{Run, ok}
use hi_perf_cmp.Prelude.Word.{add64, sub64, min_i64}
use hi_perf_cmp.Smr.Level.{Order, PriceLevel}
use hi_perf_cmp.Smr.Book.{Book, lane, update}
use hi_perf_cmp.Smr.Book.View.{View, view, Rests, Ghost, IsLinked, rests_lt}
use hi_perf_cmp.Smr.Book.Totals.{IsTotalled, total, total_change, open_qty, one_order}
use hi_perf_cmp.Smr.Book.Vacant.{IsListed}
use hi_perf_cmp.Smr.Book.Access.{
  put_order, put_level, place, tick_of-ok, order-ok, order_mut-ok, level_mut-ok, at-put_order,
  level-put_level, lengths-put_level,
}
use hi_perf_cmp.Smr.Book.Best.{heads-BestBid, heads-BestAsk}
use hi_perf_cmp.Smr.Book.InsertRuns.{IsBook, length-lane}

-- What a partial fill adds to `filled`, and takes from the level.
abbrev pub added : Order → ℕ → ℕ
added o fill_qty = min_i64 fill_qty (sub64 o.qty o.filled)

-- An order that is filled further by `add`.
abbrev pub further : Order → ℕ → Order
further o add = record o { filled = add64 o.filled add }

-- What leaves the order leaves the level.
moved :
    (t0 t1 q f a : ℕ)
    → q < 2 ^ 64
    → f < 2 ^ 64
    → a < 2 ^ 64
    → t1 + sub64 q f ≡ t0 + sub64 q (add64 f a)
    → sub64 (t0 % 2 ^ 64) a ≡ t1 % 2 ^ 64
moved t0 t1 q f a hq hf ha e = omega arith

module _ {g : Ghost} {b : Book} (w : IsBook g b) (slot fill_qty : ℕ) (rests : Rests (view b) slot)
    (fits : fill_qty < 2 ^ 64) where
  abbrev o : Order
  o = (view b).at slot

  abbrev t : ℕ
  t = g.lev slot

  abbrev add : ℕ
  add = added o fill_qty

  abbrev lower : PriceLevel
  lower = let l = (view b).level o.side t in record l { qty_total = sub64 l.qty_total add }

  abbrev filled_book : Book
  filled_book = put_order b slot (further o add)

  abbrev pub after_update : Book
  after_update = put_level filled_book o.side t lower

  in_pool : slot < length b.pool
  in_pool = omega (arith, rests_lt w.links slot rests, w.links.hwm_le)

  two : o.side < 2
  two = w.links.side slot rests

  placed : (place b.price_min b.tick o.price ≡ some t) × (t < b.n_levels)
  placed = w.links.placed slot rests

  lane_ok : t < length (lane o.side b)
  lane_ok = rw (length-lane w o.side) placed.1

  pub at_update :
      (j : ℕ) → (view after_update).at j ≡ (if slot == j then further o add else (view b).at j)
  at_update j = at-put_order b slot j (further o add) in_pool

  pub level_update :
      (z u : ℕ)
      → (view after_update).level z u
        ≡ (if (o.side == z) && (t == u) then lower else (view b).level z u)
  level_update z u = level-put_level filled_book o.side t z u lower lane_ok two

  abbrev v' : View
  v' = record (view b) {
    at = λ j. if slot == j then further o add else (view b).at j;
    level = λ z u. if (o.side == z) && (t == u) then lower else (view b).level z u;
  }

  pub view-after : view after_update ≡ v'
  view-after i = record {
    at = fun_ext at_update i;
    level = fun_ext (λ z. fun_ext (level_update z)) i;
    cap = length-set b.pool slot (further o add) i;
    hwm = b.hwm;
    free_head = b.free_head;
    idmap = b.idmap;
  }

  update_lem : (id : ℕ) → b.idmap id ≡ some slot → update id fill_qty b ≡ ok tt after_update
  unfolding update
  update_lem id here =
      rw
        (
          here,
          order-ok b slot in_pool,
          order_mut-ok b slot (λ p. record p { filled = add64 p.filled add }) in_pool,
          tick_of-ok filled_book o.price placed.0,
          level_mut-ok filled_book o.side t _ two lane_ok,
        )
        refl

  upd-IsLinked : IsLinked (place b.price_min b.tick) b.n_levels g v'
  upd-IsLinked = record {
    cap = w.links.cap;
    hwm_le = w.links.hwm_le;
    fresh = λ s h. ground (arith, w.links.fresh s);
    id_rests = λ i s h. ground (arith, w.links.id_rests i s);
    rests_id = λ s h. ground (arith, w.links.rests_id s);
    side = λ s h. ground (arith, w.links.side s);
    placed = λ s h. ground (arith, w.links.placed s);
    age = λ s h. ground (arith, w.links.age s);
    next = λ s h k. ground (arith, w.links.next s);
    prev = λ s h k. ground (arith, w.links.prev s);
    tail = λ s h k. ground (arith, w.links.tail s);
    head = λ s h k. ground (arith, w.links.head s);
    level_head = λ z u h k m. ground (arith, w.links.level_head z u);
    level_tail = λ z u h k m. ground (arith, w.links.level_tail z u);
    ends = λ z u h k. ground (arith, w.links.ends z u);
    free_head = λ h. ground (arith, w.links.free_head);
    free_next = λ s h k m. ground (arith, w.links.free_next s);
    free_inj = λ s r h k m p q x. ground (arith, w.links.free_inj s r);
  }

  upd-IsListed : IsListed v'
  upd-IsListed = record {
    pred = w.free.pred;
    stamp = w.free.stamp;
    clock = w.free.clock;
    reached = λ s h k m. ground (arith, w.free.reached s);
    stamped = λ s h k. ground (arith, w.free.stamped s);
  }

  upd_open :
      (z u : ℕ)
      → total (open_qty v' g z u) (length b.pool) + open_qty (view b) g z u slot
        ≡ total (open_qty (view b) g z u) (length b.pool) + open_qty v' g z u slot
  upd_open z u =
      total_change (open_qty (view b) g z u) (open_qty v' g z u) slot (length b.pool) in_pool
        (λ j k. ground arith)

  upd_one :
      (z u : ℕ)
      → total (one_order v' g z u) (length b.pool) + one_order (view b) g z u slot
        ≡ total (one_order (view b) g z u) (length b.pool) + one_order v' g z u slot
  upd_one z u =
      total_change (one_order (view b) g z u) (one_order v' g z u) slot (length b.pool) in_pool
        (λ j k. ground arith)

  add_fits : add < 2 ^ 64
  add_fits = ground arith

  upd-IsTotalled : IsTotalled b.n_levels g v'
  upd-IsTotalled = record {
    qty_fits = λ s. ground (arith, w.totals.qty_fits s);
    filled_fits = λ s. ground (arith, w.totals.filled_fits s);
    qty = λ z u h k. ground (
      arith,
      w.totals.qty z u,
      upd_open z u,
      moved (total (open_qty (view b) g z u) (length b.pool))
          (total (open_qty v' g z u) (length b.pool)) o.qty o.filled add (w.totals.qty_fits slot)
          (w.totals.filled_fits slot) add_fits,
    );
    count = λ z u h k. ground (arith, w.totals.count z u, upd_one z u);
  }

  heads : (z u : ℕ) → ((view after_update).level z u).head ≡ ((view b).level z u).head
  heads z u = ap (λ v. (v.level z u).head) view-after ∙ ground arith

  after-IsBook : IsBook g after_update
  after-IsBook = record {
    links = rw view-after upd-IsLinked;
    free = rw view-after upd-IsListed;
    totals = rw view-after upd-IsTotalled;
    bids_length = (lengths-put_level filled_book o.side t lower).0 ∙ w.bids_length;
    asks_length = (lengths-put_level filled_book o.side t lower).1 ∙ w.asks_length;
    few_levels = w.few_levels;
    bid = heads-BestBid heads w.bid;
    ask = heads-BestAsk heads w.ask;
  }

-- What `update` leaves: the order filled further by the smaller of the fill and what was open of it,
-- and every other order as it was.
pub record Updated (g : Ghost) (b : Book) (slot fill_qty : ℕ) (r : Run Book (Unit {0}))
    : Type 0 where
  pub b' : Book
  pub returns : r ≡ ok tt b'
  pub book : IsBook g b'
  pub idmap : b'.idmap ≡ b.idmap
  pub orders :
      (j : ℕ)
      → (view b').at j ≡ (
          if slot == j
          then further ((view b).at slot) (added ((view b).at slot) fill_qty)
          else (view b).at j)

-- `update` of an order that rests returns. It fills the order by the smaller of the fill and what was
-- open of it, takes as much from the quantity of its level, and changes no other order; links, id-map,
-- free list, level sums and best prices hold again.
pub update-Updated :
    (g : Ghost) (b : Book) (id slot fill_qty : ℕ)
    → IsBook g b
    → b.idmap id ≡ some slot
    → fill_qty < 2 ^ 64
    → Updated g b slot fill_qty (update id fill_qty b)
update-Updated g b id slot fill_qty w here fits =
    let found = w.links.id_rests id slot here in
    let rests : Rests (view b) slot = ground (arith, found) in
    record {
      b' = after_update w slot fill_qty rests fits;
      returns = update_lem w slot fill_qty rests fits id here;
      book = after-IsBook w slot fill_qty rests fits;
      idmap = refl;
      orders = at_update w slot fill_qty rests fits;
    }
