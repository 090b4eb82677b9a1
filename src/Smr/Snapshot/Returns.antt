-- ===== src/Smr/Snapshot/Returns.antt =====
-- The book that an encoding restores to: how it looks, and that it is well formed.
use mathlib.Core.Path.{fun_ext, subst}
use hi_perf_cmp.Prelude.{
  ℕ, zero, suc, ◌+◌, ◌%◌, ◌^◌, ◌<◌, ◌≡◌, refl, sym, ap, ◌∙◌, arith, true, Bool-cases, inl, inr,
  List, ◌++◌, ◌==◌, ltb, if◌then◌else◌, length, length-replicate, get_or, get_or-replicate,
  get_or-past, replicate,
}
use native.Mathlib.Decide.{dec_lt}
use hi_perf_cmp.Smr.Level.{nil, Order, PriceLevel, zero_order, empty_level, no_ids, SmrConfig}
use hi_perf_cmp.Smr.Book
use hi_perf_cmp.Smr.Book.{Book}
use hi_perf_cmp.Smr.Book.View.{View, view, Rests, Ghost, IsLinked, rests_lt}
use hi_perf_cmp.Smr.Book.Access.{place}
use hi_perf_cmp.Smr.Book.Best.{heads-BestBid, heads-BestAsk}
use hi_perf_cmp.Smr.Book.Vacant.{IsListed}
use hi_perf_cmp.Smr.Book.Totals.{IsTotalled, total_same, open_qty, one_order}
use hi_perf_cmp.Smr.Book.InsertRuns.{IsBook}
use hi_perf_cmp.Smr.Snapshot.{encode, block_of, lane_entries, put_message}
use hi_perf_cmp.Smr.Snapshot.Fields.{IsWordy, image_of, image-image_of}
use hi_perf_cmp.Smr.Book.Levels.{empty-level}
use hi_perf_cmp.Smr.Snapshot.Restore.{apply_level, apply_order}
use hi_perf_cmp.Smr.Snapshot.Bytes.{ApplyAll, append-ApplyAll}
use hi_perf_cmp.Smr.Snapshot.Messages.{start}
use hi_perf_cmp.Smr.Snapshot.Apply.{
  write_lane, length-write_lane, at_write_lane, bids_applied, asks_applied,
}
use hi_perf_cmp.Smr.Snapshot.Orders.{
  restored_order, slot_entries, write_pool, write_ids, length-write_pool, at_write_pool,
  orders_applied, write_ids-all,
}

same_side :
    (at : ℕ → Order) {n : ℕ} (s : ℕ)
    → (at s).side < 2
    → s < n
    → (if ltb s n then restored_order (at s) else zero_order) ≡ at s
same_side at {n} s two lt =
    let low : ltb s n ≡ true = ground arith in
    let side : (if (at s).side == 0 then 0 else 1) ≡ (at s).side = ground arith in
    rw low (ap (λ z. record (at s) { side = z }) side)

pub encode-image :
    {g : Ghost} {b : Book} (w : IsBook g b) (f : IsWordy b) (crc32c : List ℕ → ℕ) (buf : List ℕ)
    → encode crc32c b buf ≡ put_message crc32c (image_of b) buf
unfolding encode
encode-image w f crc32c buf = rw (image-image_of w f) refl

module _ {g : Ghost} {b : Book} (w : IsBook g b) (f : IsWordy b) (cfg : SmrConfig)
    (cap : cfg.cap ≡ length b.pool) (levels : cfg.levels ≡ b.n_levels) where
  abbrev fresh_lane : List PriceLevel
  fresh_lane = replicate cfg.levels empty_level

  abbrev pub fresh_pool : List Order
  fresh_pool = replicate cfg.cap zero_order

  abbrev pub returned : Book
  returned = record b {
    bids = write_lane 0 b.bids fresh_lane;
    asks = write_lane 0 b.asks fresh_lane;
    pool = write_pool (view b).at b.hwm fresh_pool;
    idmap = write_ids (view b).at b.hwm no_ids;
  }

  abbrev first : Book
  first = start cfg (block_of b)

  abbrev with_bids : Book
  with_bids = record first { bids = write_lane 0 b.bids fresh_lane }

  abbrev pub with_asks : Book
  with_asks = record with_bids { asks = write_lane 0 b.asks fresh_lane }

  length-fresh_lane : length fresh_lane ≡ b.n_levels
  length-fresh_lane = length-replicate cfg.levels empty_level ∙ levels

  pub length-fresh_pool : length fresh_pool ≡ length b.pool
  length-fresh_pool = length-replicate cfg.cap zero_order ∙ cap

  pub levels_applied :
      ApplyAll apply_level (lane_entries 0 0 b.bids ++ lane_entries 1 0 b.asks) first with_asks
  unfolding Book.new
  levels_applied =
      append-ApplyAll apply_level (lane_entries 0 0 b.bids) (lane_entries 1 0 b.asks) first
        with_bids with_asks
        (bids_applied 0 b.bids first (omega (arith, length-fresh_lane, w.bids_length))
          (omega (arith, length-fresh_lane, w.few_levels)))
        (asks_applied 0 b.asks with_bids (omega (arith, length-fresh_lane, w.asks_length))
          (omega (arith, length-fresh_lane, w.few_levels)))

  pub all_applied : ApplyAll apply_order (slot_entries (view b).at b.hwm) with_asks returned
  unfolding Book.new
  all_applied =
      orders_applied (view b).at b.hwm with_asks (omega (arith, length-fresh_pool, w.links.hwm_le))

  zero-add : (k : ℕ) → 0 + k ≡ k
  zero-add k = omega arith

  lane_back :
      (side t : ℕ) (ls : List PriceLevel)
      → ((k : ℕ) → get_or ls k empty_level ≡ (view b).level side k)
      → side < 2
      → length ls ≡ b.n_levels
      → get_or (write_lane 0 ls fresh_lane) t empty_level ≡ (view b).level side t
  lane_back side t ls same two len =
      subst
        (λ j. get_or (write_lane 0 ls fresh_lane) j empty_level ≡ (
          if (get_or ls t empty_level).head == nil
          then get_or fresh_lane j empty_level
          else get_or ls t empty_level))
        (zero-add t) (at_write_lane 0 ls fresh_lane t (omega (arith, len, length-fresh_lane)))
      ∙ elim (Bool-cases ((get_or ls t empty_level).head == nil)) [
        | inl e ↦
            rw (e, get_or-replicate cfg.levels t empty_level)
              (elim (dec_lt t b.n_levels) [
                | yes lt ↦ sym (
                    empty-level w.links w.totals side t two lt
                      (ap (λ l. l.head) (sym (same t)) ∙ ground arith))
                | no ge ↦ sym (get_or-past ls t empty_level (omega (arith, len))) ∙ same t
              ])
        | inr e ↦ rw e (same t)
      ]

  pub back_level : (side t : ℕ) → (view returned).level side t ≡ (view b).level side t
  back_level zero t = lane_back 0 t b.bids (λ k. refl) (omega arith) w.bids_length
  back_level (suc zero) t = lane_back 1 t b.asks (λ k. refl) (omega arith) w.asks_length
  back_level (suc (suc side)) t = ground arith

  pub back_at :
      (s : ℕ)
      → (view returned).at s ≡ (if ltb s b.hwm then restored_order ((view b).at s) else zero_order)
  back_at s =
      at_write_pool (view b).at b.hwm s fresh_pool
        (omega (arith, length-fresh_pool, w.links.hwm_le))
      ∙ ap (λ o. if ltb s b.hwm then restored_order ((view b).at s) else o)
          (get_or-replicate cfg.cap s zero_order)

  abbrev back : View
  back = record (view b) {
    at = λ s. if ltb s b.hwm then restored_order ((view b).at s) else zero_order;
  }

  view-returned : view returned ≡ back
  view-returned i = record {
    at = fun_ext back_at i;
    level = fun_ext (λ side. fun_ext (back_level side)) i;
    cap = (length-write_pool (view b).at b.hwm fresh_pool ∙ length-fresh_pool) i;
    hwm = b.hwm;
    free_head = b.free_head;
    idmap = fun_ext (write_ids-all w.links) i;
  }

  back-IsLinked : IsLinked (place b.price_min b.tick) b.n_levels g back
  back-IsLinked = record {
    cap = w.links.cap;
    hwm_le = w.links.hwm_le;
    fresh = λ s h. ground (arith, w.links.fresh s);
    id_rests = λ i s h. ground (arith, w.links.id_rests i s, w.links.fresh s);
    rests_id = λ s h. ground (arith, w.links.rests_id s);
    side = λ s h. ground (arith, w.links.side s);
    placed = λ s h. ground (arith, w.links.placed s);
    age = λ s h. ground (arith, w.links.age s);
    next = λ s h k. ground (arith, w.links.next s, w.links.side s, w.links.fresh (back.at s).next);
    prev = λ s h k. ground (arith, w.links.prev s, w.links.fresh (back.at s).prev);
    tail = λ s h k. ground (arith, w.links.tail s, w.links.side s);
    head = λ s h k. ground (arith, w.links.head s, w.links.side s);
    level_head = λ z u h k m.
        ground (arith, w.links.level_head z u, w.links.fresh ((view b).level z u).head);
    level_tail = λ z u h k m.
        ground (arith, w.links.level_tail z u, w.links.fresh ((view b).level z u).tail);
    ends = w.links.ends;
    free_head = λ h. ground (arith, w.links.free_head);
    free_next = λ s h k m. ground (arith, w.links.free_next s);
    free_inj = λ s r h k m p q x. ground (arith, w.links.free_inj s r);
  }

  back-IsListed : IsListed back
  back-IsListed = record {
    pred = w.free.pred;
    stamp = w.free.stamp;
    clock = w.free.clock;
    reached = λ s h k m. ground (arith, w.free.reached s);
    stamped = λ s h k. ground (arith, w.free.stamped s);
  }

  back-IsTotalled : IsTotalled b.n_levels g back
  back-IsTotalled = record {
    qty_fits = λ s. ground (arith, w.totals.qty_fits s);
    filled_fits = λ s. ground (arith, w.totals.filled_fits s);
    qty = λ z u h k.
        w.totals.qty z u h k
        ∙ ap (λ n. n % 2 ^ 64)
            (total_same (open_qty back g z u) (open_qty (view b) g z u) (length b.pool)
              (λ s lt. ground (arith, w.links.fresh s, w.links.side s)));
    count = λ z u h k.
        w.totals.count z u h k
        ∙ ap (λ n. n % 2 ^ 32)
            (total_same (one_order back g z u) (one_order (view b) g z u) (length b.pool)
              (λ s lt. ground (arith, w.links.fresh s, w.links.side s)));
  }

  heads : (side t : ℕ) → ((view returned).level side t).head ≡ ((view b).level side t).head
  heads side t = ap (λ l. l.head) (back_level side t)

  pub returned-IsBook : IsBook g returned
  returned-IsBook = record {
    links = rw view-returned back-IsLinked;
    free = rw view-returned back-IsListed;
    totals = rw view-returned back-IsTotalled;
    bids_length = length-write_lane 0 b.bids fresh_lane ∙ length-fresh_lane;
    asks_length = length-write_lane 0 b.asks fresh_lane ∙ length-fresh_lane;
    few_levels = w.few_levels;
    bid = heads-BestBid heads w.bid;
    ask = heads-BestAsk heads w.ask;
  }

  pub same_capacity : (image_of b).block.capacity ≡ cfg.cap
  same_capacity = omega (arith, w.links.cap, cap)

  pub resting_back : (s : ℕ) → Rests (view b) s → (view returned).at s ≡ (view b).at s
  resting_back s h = back_at s ∙ same_side (view b).at s (w.links.side s h) (rests_lt w.links s h).0
