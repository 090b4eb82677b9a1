-- ===== src/Smr/Book/RemoveRuns.antt =====
-- `Book::unlink` and `Book::free_slot` on an order that rests.
use hi_perf_cmp.Prelude.{
  ℕ, ◌<◌, ◌≡◌, ◌≢◌, ◌∙◌, refl, arith, ◌==◌, not, if◌then◌else◌, length, length-set, true,
}
use hi_perf_cmp.Prelude.Run.{ok}
use hi_perf_cmp.Smr.Level.{nil, Order}
use hi_perf_cmp.Smr.Book.{Book, lane, unlink, free_slot}
use hi_perf_cmp.Smr.Book.View.{view, relinked, shorter, level_removed}
use hi_perf_cmp.Smr.Book.Access.{
  put_order, put_level, put_order_if, order-ok, order_mut-ok, order_mut_if-ok, level_mut-ok,
  at-put_order, at-put_order_if, level-put_level, length-put_order_if,
}

-- The order in `slot`, on level `t`, with `rem` left of it.
module _ (c : Book) (slot t rem : ℕ) where
  abbrev o : Order
  o = (view c).at slot

  abbrev prev_done : Book
  prev_done =
      put_order_if (not (o.prev == nil)) c o.prev (record ((view c).at o.prev) { next = o.next })

  abbrev next_done : Book
  next_done =
      put_order_if (not (o.next == nil)) prev_done o.next
        (record ((view prev_done).at o.next) { prev = o.prev })

  abbrev pub unlinked : Book
  unlinked = put_level next_done o.side t (shorter (view c) slot t rem 0)

  abbrev pub after_free : Book
  after_free =
      record (put_order unlinked slot
        (record ((view unlinked).at slot) { order_id = 0; next = c.free_head; prev = nil })) {
          free_head = slot;
        }

  module _ (in_pool : slot < length c.pool) (prev_in : o.prev ≢ nil → o.prev < length c.pool)
      (next_in : o.next ≢ nil → o.next < length c.pool) (side_ok : o.side < 2)
      (lane_ok : t < length (lane o.side c)) where
    length_prev : length prev_done.pool ≡ length c.pool
    length_prev = length-put_order_if (not (o.prev == nil)) c o.prev _

    length_next : length next_done.pool ≡ length c.pool
    length_next = length-put_order_if (not (o.next == nil)) prev_done o.next _ ∙ length_prev

    pub length_free : length after_free.pool ≡ length c.pool
    length_free = length-set unlinked.pool slot _ ∙ length_next

    at_unlinked : (j : ℕ) → (view next_done).at j ≡ relinked (view c) slot t rem 0 j
    at_unlinked j =
        let p = record ((view c).at o.prev) { next = o.next } in
        let n = record ((view prev_done).at o.next) { prev = o.prev } in
        let f : not (o.prev == nil) ≡ true → o.prev < length c.pool =
          λ e. ground (arith, prev_in) in
        let h : not (o.next == nil) ≡ true → o.next < length prev_done.pool =
          λ e. ground (arith, next_in, length_prev) in
        ground (
          arith,
          at-put_order_if (not (o.prev == nil)) c o.prev j p f,
          at-put_order_if (not (o.prev == nil)) c o.prev o.next p f,
          at-put_order_if (not (o.next == nil)) prev_done o.next j n h,
        )

    pub at_free :
        (j : ℕ)
        → (view after_free).at j ≡ (
            if slot == j
            then record ((view c).at slot) { order_id = 0; next = c.free_head; prev = nil }
            else relinked (view c) slot t rem 0 j)
    at_free j =
        at-put_order unlinked slot j _ (rw length_next in_pool)
        ∙ ground (arith, at_unlinked slot, at_unlinked j)

    pub level_free :
        (z u : ℕ) → (view after_free).level z u ≡ level_removed (view c) slot t rem 0 z u
    level_free z u =
        level-put_level next_done o.side t z u (shorter (view c) slot t rem 0) lane_ok side_ok

    pub unlink_lem : unlink slot o.side t rem c ≡ ok tt unlinked
    unfolding unlink
    unlink_lem =
        rw
          (
            order-ok c slot in_pool,
            order_mut_if-ok (not (o.prev == nil)) c o.prev _ (λ e. ground (arith, prev_in)),
            order_mut_if-ok (not (o.next == nil)) prev_done o.next _
                (λ e. ground (arith, next_in, length_prev)),
            level_mut-ok next_done o.side t _ side_ok lane_ok,
          )
          refl

    pub free_slot_lem : free_slot slot unlinked ≡ ok tt after_free
    unfolding free_slot
    free_slot_lem = rw (order_mut-ok unlinked slot _ (rw length_next in_pool)) refl
