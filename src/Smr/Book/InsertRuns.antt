-- ===== src/Smr/Book/InsertRuns.antt =====
-- `Book::insert` returns on a book with room, and does to the view what `inserted` says.
use mathlib.Core.Path.{fun_ext}
use hi_perf_cmp.Prelude.{
  ℕ, ◌+◌, ◌<◌, ◌^◌, ◌≡◌, ◌≢◌, ◌⊎◌, ◌∙◌, refl, arith, ◌==◌, ◌&&◌, not, if◌then◌else◌, length,
  length-set, Bool-cases, inl, inr, Bool, true, false, ◌||◌,
}
use hi_perf_cmp.Prelude.Run.{ok, skip, modify}
use hi_perf_cmp.Prelude.Word.{add32, lt_i32}
use hi_perf_cmp.Smr.Level.{nil, put_id}
use hi_perf_cmp.Smr.Book.{Book, lane, tick_of, alloc_slot, raise_best, insert}
use hi_perf_cmp.Smr.Book.View.{
  view, Ghost, IsLinked, inserted, at_inserted, level_inserted, arrival, longer,
}
use hi_perf_cmp.Smr.Book.Vacant.{IsListed}
use hi_perf_cmp.Smr.Book.Totals.{IsTotalled}
use hi_perf_cmp.Smr.Book.Best.{BestBid, BestAsk, new_bid, new_ask}
use hi_perf_cmp.Smr.Book.Repair.{rebest}
use hi_perf_cmp.Smr.Book.Access.{
  put_order, put_level, put_order_if, place, order-ok, order_mut-ok, order_mut_if-ok, level-ok,
  level_mut-ok, at-put_order, at-put_order_if, level-put_level, length-put_order_if,
}

-- A book whose links, free list and level totals hold, with the two lanes as long as its ladder and
-- the best prices cached.
pub record IsBook (g : Ghost) (b : Book) : Type 0 where
  pub links : IsLinked (place b.price_min b.tick) b.n_levels g (view b)
  pub free : IsListed (view b)
  pub totals : IsTotalled b.n_levels g (view b)
  pub bids_length : length b.bids ≡ b.n_levels
  pub asks_length : length b.asks ≡ b.n_levels
  pub few_levels : b.n_levels < 2 ^ 31
  pub bid : BestBid (view b) b.n_levels b.best_bid
  pub ask : BestAsk (view b) b.n_levels b.best_ask

pub length-lane :
    {g : Ghost} {b : Book} → IsBook g b → (side : ℕ) → length (lane side b) ≡ b.n_levels
length-lane {b} w side = elim (Bool-cases (side == 0)) [
  | inl e ↦ rw e w.bids_length
  | inr e ↦ rw e w.asks_length
]

-- A slot is free: on the free list, or past the high-water mark.
abbrev pub HasRoom : Book → Type 0
HasRoom b = (b.free_head ≢ nil) ⊎ (b.hwm < length b.pool)

abbrev bump : Book → ℕ → ℕ → Book
bump b top free = record b { hwm = top; free_head = free }

pub record Allocated (b : Book) : Type 0 where
  pub slot : ℕ
  pub top : ℕ
  pub free : ℕ
  pub returns : alloc_slot b ≡ ok slot (bump b top free)
  pub in_pool : slot < length b.pool
  pub vacant : ((view b).at slot).order_id ≡ 0
  pub how :
      ((slot ≡ b.free_head) × (top ≡ b.hwm) × (free ≡ ((view b).at slot).next))
      ⊎ ((slot ≡ b.hwm)
          × (top ≡ b.hwm + 1)
          × (free ≡ b.free_head)
          × (b.free_head ≡ nil)
          × (b.hwm < length b.pool))

pub alloc_slot-Allocated : {g : Ghost} {b : Book} → IsBook g b → HasRoom b → Allocated b
unfolding alloc_slot
alloc_slot-Allocated {b} w room = elim (Bool-cases (b.free_head == nil)) [
  | inl e ↦
      let lt : b.hwm < length b.pool = ground arith in
      let ne : (b.hwm == length b.pool) ≡ false = ground arith in
      let up : add32 b.hwm 1 ≡ b.hwm + 1 = omega (arith, w.links.cap) in
      record {
        slot = b.hwm;
        top = b.hwm + 1;
        free = b.free_head;
        returns = rw (e, ne, up) refl;
        in_pool = lt;
        vacant = w.links.fresh b.hwm (omega arith);
        how = inr (refl, refl, refl, ground arith, lt);
      }
  | inr e ↦
      let head = w.links.free_head (ground arith) in
      let lt : b.free_head < length b.pool = omega (arith, head, w.links.hwm_le) in
      record {
        slot = b.free_head;
        top = b.hwm;
        free = ((view b).at b.free_head).next;
        returns = rw (e, order-ok b b.free_head lt) refl;
        in_pool = lt;
        vacant = head.0;
        how = inl (refl, refl, refl);
      }
]

bid_if :
    (c : Bool) (t : ℕ) (b : Book)
    → (if c then modify (λ x. record x { best_bid = t }) else skip) b
      ≡ ok tt (rebest b (if c then t else b.best_bid) b.best_ask)
bid_if true t b = refl
bid_if false t b = refl

ask_if :
    (c : Bool) (t : ℕ) (b : Book)
    → (if c then modify (λ x. record x { best_ask = t }) else skip) b
      ≡ ok tt (rebest b b.best_bid (if c then t else b.best_ask))
ask_if true t b = refl
ask_if false t b = refl

raise_best-ok :
    (side t : ℕ) (b : Book)
    → raise_best side t b ≡ ok tt (rebest b (new_bid side t b.best_bid) (new_ask side t b.best_ask))
unfolding raise_best
raise_best-ok side t b =
    let c = (side == 0) && (lt_i32 b.best_bid 0 || lt_i32 b.best_bid t) in
    rw (bid_if c t b) (ask_if ((side == 1) && (lt_i32 b.best_ask 0 || lt_i32 t b.best_ask)) t _)

-- `insert`, its steps one after the other, into level `t` with the slot that was allocated.
module _ (b : Book) (id price qty side t slot top free : ℕ) where
  abbrev tail : ℕ
  tail = ((view b).level side t).tail

  abbrev stored : Book
  stored =
      put_level (put_order (bump b top free) slot (arrival (view b) slot id price qty side t)) side
        t (longer (view b) slot id price qty side t)

  abbrev chained : Book
  chained =
      put_order_if (not (tail == nil)) stored tail (record ((view stored).at tail) { next = slot })

  abbrev pub after_insert : Book
  after_insert =
      rebest (record chained { idmap = put_id b.idmap id slot }) (new_bid side t b.best_bid)
        (new_ask side t b.best_ask)

  module _ (in_pool : slot < length b.pool) (tail_in : tail ≢ nil → tail < length b.pool)
      (tail_ne : tail ≢ nil → slot ≢ tail) (side_ok : side < 2)
      (lane_ok : t < length (lane side b)) where
    length_stored : length stored.pool ≡ length b.pool
    length_stored = length-set b.pool slot _

    at_after : (j : ℕ) → (view after_insert).at j ≡ at_inserted (view b) slot id price qty side t j
    at_after j =
        let c = not (tail == nil) in
        ground (
          arith,
          at-put_order_if c stored tail j (record ((view stored).at tail) { next = slot })
              (λ e. ground (arith, length_stored)),
          at-put_order b slot j (arrival (view b) slot id price qty side t) in_pool,
          at-put_order b slot tail (arrival (view b) slot id price qty side t) in_pool,
        )

    level_after :
        (z u : ℕ)
        → (view after_insert).level z u ≡ level_inserted (view b) slot id price qty side t z u
    level_after z u =
        level-put_level
          (put_order (bump b top free) slot (arrival (view b) slot id price qty side t)) side t z u
          (longer (view b) slot id price qty side t) lane_ok side_ok

    length_after : length after_insert.pool ≡ length b.pool
    length_after = length-put_order_if (not (tail == nil)) stored tail _ ∙ length_stored

    pub view_after : view after_insert ≡ inserted (view b) slot id price qty side t top free
    view_after i = record {
      at = fun_ext at_after i;
      level = fun_ext (λ z. fun_ext (level_after z)) i;
      cap = length_after i;
      hwm = top;
      free_head = free;
      idmap = put_id b.idmap id slot;
    }

    pub insert_lem :
        tick_of price b ≡ ok t b
        → alloc_slot b ≡ ok slot (bump b top free)
        → insert id price qty side b ≡ ok tt after_insert
    unfolding insert
    insert_lem at_level got =
        rw
          (
            at_level,
            got,
            level-ok (bump b top free) side t side_ok lane_ok,
            order_mut-ok (bump b top free) slot (λ _. arrival (view b) slot id price qty side t)
                in_pool,
            level_mut-ok
                (put_order (bump b top free) slot (arrival (view b) slot id price qty side t)) side
                t _ side_ok lane_ok,
            order_mut_if-ok (not (tail == nil)) stored tail _ (λ e. ground (arith, length_stored)),
            raise_best-ok side t _,
          )
          refl
