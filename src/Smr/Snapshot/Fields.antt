-- ===== src/Smr/Snapshot/Fields.antt =====
-- The fields of a book fit the message.
use hi_perf_cmp.Prelude.{
  ℕ, zero, suc, ◌+◌, ◌%◌, ◌^◌, ◌<◌, ◌≤◌, ◌≡◌, refl, sym, ap, arith, false, Bool-cases, inl, inr,
  List, [], ◌∷◌, ◌++◌, some, ◌==◌, ltb, length, get_or, get_elem?, get_elem?-eq-get_or,
}
use hi_perf_cmp.Smr.Level.{nil, PriceLevel, zero_order, empty_level}
use hi_perf_cmp.Smr.Book.{Book}
use hi_perf_cmp.Smr.Book.View.{view, Ghost}
use hi_perf_cmp.Smr.Book.InsertRuns.{IsBook}
use hi_perf_cmp.Smr.Booksnap.Reads.{IsLevelEntry, IsOrderEntry}
use hi_perf_cmp.Smr.Snapshot.{
  Image, image, grouped, block_of, level_entry, lane_entries, order_entry,
}
use hi_perf_cmp.Smr.Snapshot.Bytes.{Each, append-Each}
use hi_perf_cmp.Smr.Snapshot.Groups.{IsImage}
use hi_perf_cmp.Smr.Snapshot.Orders.{slot_entries, length-slot_entries, order_entries-slots}

-- Every field is a word of its size, and the groups' counts are 16-bit words.
pub record IsWordy (b : Book) : Type 0 where
  pub price_min : b.price_min < 2 ^ 64
  pub tick : b.tick < 2 ^ 64
  pub best_bid : b.best_bid < 2 ^ 32
  pub best_ask : b.best_ask < 2 ^ 32
  pub free_head : b.free_head < 2 ^ 32
  pub levels :
      (side t : ℕ)
      → ((view b).level side t).qty_total < 2 ^ 64
        × (((view b).level side t).count < 2 ^ 32)
        × (((view b).level side t).head < 2 ^ 32)
        × (((view b).level side t).tail < 2 ^ 32)
  pub orders :
      (s : ℕ)
      → (((view b).at s).order_id < 2 ^ 64)
        × (((view b).at s).price < 2 ^ 64)
        × (((view b).at s).qty < 2 ^ 64)
        × (((view b).at s).filled < 2 ^ 64)
        × (((view b).at s).next < 2 ^ 32)
        × (((view b).at s).prev < 2 ^ 32)
  pub few_levels : length (lane_entries 0 0 b.bids ++ lane_entries 1 0 b.asks) < 2 ^ 16
  pub few_slots : b.hwm < 2 ^ 16

cons : {A : Type 0} (P : A → Type 0) (x : A) (xs : List A) → P x → Each P xs → Each P (x ∷ xs)
cons P x xs p ps = (p, ps)

abbrev pub image_of : Book → Image
image_of b = record {
  block = block_of b;
  levels = lane_entries 0 0 b.bids ++ lane_entries 1 0 b.asks;
  orders = slot_entries (view b).at b.hwm;
}

grouped-few :
    {A : Type 0} (xs : List A) → length xs < 2 ^ 16 → grouped (length xs % 2 ^ 16) xs ≡ some xs
unfolding grouped
grouped-few xs few =
    let low : ltb (length xs % 2 ^ 16) (length xs) ≡ false = ground arith in rw low refl

module _ {g : Ghost} {b : Book} (w : IsBook g b) (f : IsWordy b) where
  pub image-image_of : image b ≡ some (image_of b)
  unfolding image
  image-image_of =
      let slots =
        order_entries-slots (view b).at (get_elem? b.pool) b.hwm
          (λ s h. get_elem?-eq-get_or b.pool s zero_order (omega (arith, w.links.hwm_le))) in
      let count = length-slot_entries (view b).at b.hwm in
      let fits = grouped-few (slot_entries (view b).at b.hwm) (omega (arith, count, f.few_slots)) in
      rw
        (
          grouped-few (lane_entries 0 0 b.bids ++ lane_entries 1 0 b.asks) f.few_levels,
          slots,
          sym (ap (λ n. n % 2 ^ 16) count),
          fits,
        )
        refl

  lane-Each :
      (side t : ℕ) (ls : List PriceLevel)
      → ((k : ℕ)
          → (get_or ls k empty_level).qty_total < 2 ^ 64
            × ((get_or ls k empty_level).count < 2 ^ 32)
            × ((get_or ls k empty_level).head < 2 ^ 32)
            × ((get_or ls k empty_level).tail < 2 ^ 32))
      → Each IsLevelEntry (lane_entries side t ls)
  unfolding lane_entries level_entry
  lane-Each side t [] fits = tt
  lane-Each side t (l ∷ ls) fits =
      let rest = lane-Each side (t + 1) ls (λ k. fits (suc k)) in
      elim (Bool-cases (l.head == nil)) [
        | inl e ↦ rw e rest
        | inr e ↦ rw e (
            cons IsLevelEntry _ (lane_entries side (t + 1) ls)
              (record {
                level_tick = omega arith;
                qty_total = (fits 0).0;
                order_count = (fits 0).1;
                head = (fits 0).2;
                tail = (fits 0).3;
              })
              rest)
      ]

  slots-Each : (n : ℕ) → n ≤ b.hwm → Each IsOrderEntry (slot_entries (view b).at n)
  unfolding order_entry
  slots-Each zero le = tt
  slots-Each (suc n) le =
      let o = f.orders n in
      append-Each IsOrderEntry (slot_entries (view b).at n) (order_entry n ((view b).at n) ∷ [])
        (slots-Each n (omega arith))
        (
          record {
            slot = omega (arith, f.few_slots);
            order_id = o.0;
            price = o.1;
            qty = o.2;
            filled = o.3;
            next_slot = o.4;
            prev = o.5;
          },
          tt,
        )

  pub image_of-IsImage : IsImage (image_of b)
  image_of-IsImage = record {
    price_min = f.price_min;
    tick_size = f.tick;
    nl_evels = omega (arith, w.few_levels);
    capacity = omega arith;
    hwm = omega (arith, f.few_slots);
    best_bid = f.best_bid;
    best_ask = f.best_ask;
    free_head = f.free_head;
    levels =
        append-Each IsLevelEntry (lane_entries 0 0 b.bids) (lane_entries 1 0 b.asks)
          (lane-Each 0 0 b.bids (λ k. f.levels 0 k)) (lane-Each 1 0 b.asks (λ k. f.levels 1 k));
    orders = slots-Each b.hwm (omega arith);
    few_levels = f.few_levels;
    few_orders = omega (arith, length-slot_entries (view b).at b.hwm, f.few_slots);
  }
