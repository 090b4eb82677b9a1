-- ===== src/Smr/Snapshot/RestoreCow/Alike.antt =====
-- `restore_cow` of cowsnap.rs against `restore` of snapshot.rs.
use mathlib.Core.Path.{fun_ext}
use hi_perf_cmp.Prelude.{
  ℕ, ◌+◌, ◌-◌, ◌^◌, ◌<◌, ◌≡◌, ◌≢◌, refl, sym, ap, ◌∙◌, arith, true, false, Bool-cases, Option-cases,
  inl, inr, List, none, some, ◌==◌, ltb, not, if◌then◌else◌, length, get_elem?, take,
  get_elem?-in_range, lt_of_get_elem?,
}
use hi_perf_cmp.Prelude.Run.{Run, ok, panic, Cmd, ◌>>◌, modify, skip, and_then, unwrap}
use hi_perf_cmp.Prelude.Lockstep.{Sim, then-Sim, if-Sim, pure-Sim}
use hi_perf_cmp.Smr.Level.{SmrConfig, IdMap, put_id}
use hi_perf_cmp.Smr.Book
use hi_perf_cmp.Smr.Book.{Book}
use hi_perf_cmp.Smr.CowBook.{CowBook}
use hi_perf_cmp.Smr.Booksnap.{LevelEntry, OrderEntry, get_word_at}
use hi_perf_cmp.Smr.Lockstep.{Shows}
use hi_perf_cmp.Smr.Lockstep.Access.{order_mut-Sim, level_mut-Sim, modify-Sim}
use hi_perf_cmp.Smr.Lockstep.Start.{new-Shows}
use hi_perf_cmp.Smr.Snapshot.Restore.{
  too_short, crc_mismatch, unsupported_version, wrong_capacity, side_u8, price_level, order_of,
  restore_groups, restore_message, restore, apply_level, apply_order,
}
use hi_perf_cmp.Smr.Snapshot.RestoreCow.{
  left, put_level, put_order, restore_cow_message, restore_cow,
}
use hi_perf_cmp.Smr.Snapshot.RestoreCow.Ends.{Alike, expect-Alike, if-Alike, groups-Alike}

-- The writes to the flat book, as commands.
flat_level : LevelEntry → Cmd Book (Unit {0})
flat_level e = Book.level_mut (side_u8 e.side) e.level_tick (λ lvl. price_level e)

flat_order : OrderEntry → Cmd Book (Unit {0})
flat_order e =
    Book.order_mut e.slot (λ o. order_of e)
    >> (if not (e.order_id == 0)
        then modify (λ b. record b { idmap = put_id b.idmap e.order_id e.slot })
        else skip)

-- An index that is in range, or else a panic, as a test of the index.
indexed :
    {A S : Type 0} (xs : List A) (i : ℕ) (b s : S) (k : A → Cmd S (Unit {0}))
    → ((o : A) → left (k o b) ≡ some s)
    → (if ltb i (length xs) then some s else none) ≡ left (and_then (unwrap (get_elem? xs i) b) k)
indexed xs i b s k done = elim (Option-cases (get_elem? xs i)) [
  | inl n ↦
      let past : ltb i (length xs) ≡ false = ground (arith, get_elem?-in_range xs i) in
      rw (n, past) refl
  | inr (o, e) ↦
      let low : ltb i (length xs) ≡ true = ground (arith, lt_of_get_elem? xs i e) in
      rw (e, low) (sym (done o))
]

and_then_assoc :
    {S A B C : Type 0} (r : Run S A) (k : A → Cmd S B) (l : B → Cmd S C)
    → and_then (and_then r k) l ≡ and_then r (λ a s. and_then (k a s) l)
and_then_assoc (ok a s) k l = refl
and_then_assoc panic k l = refl

apply_level-flat : (e : LevelEntry) (b : Book) → apply_level e b ≡ left (flat_level e b)
unfolding apply_level flat_level Book.level_mut
apply_level-flat e b = elim (Bool-cases (side_u8 e.side == 0)) [
  | inl z ↦ rw z (indexed b.bids e.level_tick b _ _ (λ o. refl))
  | inr z ↦ rw z (indexed b.asks e.level_tick b _ _ (λ o. refl))
]

apply_order-flat : (e : OrderEntry) (b : Book) → apply_order e b ≡ left (flat_order e b)
unfolding apply_order flat_order Book.order_mut
apply_order-flat e b = elim (Bool-cases (e.order_id == 0)) [
  | inl z ↦ rw z (
      indexed b.pool e.slot b _ _ (λ o. refl)
      ∙ ap left (sym (and_then_assoc (unwrap (get_elem? b.pool e.slot) b) _ _)))
  | inr z ↦ rw z (
      indexed b.pool e.slot b _ _ (λ o. refl)
      ∙ ap left (sym (and_then_assoc (unwrap (get_elem? b.pool e.slot) b) _ _)))
]

module _ {w : CowBook} {b : Book} (r : Shows w b) where
  with_idmap : {m m' : IdMap} → m ≡ m' → Shows (record w { idmap = m }) (record b { idmap = m' })
  with_idmap e = record {
    price_min = r.price_min;
    tick = r.tick;
    n_levels = r.n_levels;
    hwm = r.hwm;
    best_bid = r.best_bid;
    best_ask = r.best_ask;
    free_head = r.free_head;
    idmap = e;
    capacity = r.capacity;
    orders = r.orders;
    bids = r.bids;
    asks = r.asks;
    orders_owned = r.orders_owned;
    bids_owned = r.bids_owned;
    asks_owned = r.asks_owned;
  }

  with_block :
      (price_min tick n_levels hwm best_bid best_ask free_head : ℕ)
      → Shows
          (record w {
            price_min = price_min;
            tick = tick;
            n_levels = n_levels;
            hwm = hwm;
            best_bid = best_bid;
            best_ask = best_ask;
            free_head = free_head;
          })
          (record b {
            price_min = price_min;
            tick = tick;
            n_levels = n_levels;
            hwm = hwm;
            best_bid = best_bid;
            best_ask = best_ask;
            free_head = free_head;
          })
  with_block price_min tick n_levels hwm best_bid best_ask free_head = record {
    price_min = refl;
    tick = refl;
    n_levels = refl;
    hwm = refl;
    best_bid = refl;
    best_ask = refl;
    free_head = refl;
    idmap = r.idmap;
    capacity = r.capacity;
    orders = r.orders;
    bids = r.bids;
    asks = r.asks;
    orders_owned = r.orders_owned;
    bids_owned = r.bids_owned;
    asks_owned = r.asks_owned;
  }

level-Sim : (e : LevelEntry) → Sim Shows (put_level e) (flat_level e)
unfolding put_level flat_level price_level
level-Sim e = level_mut-Sim (side_u8 e.side) e.level_tick (λ lvl. price_level e)

order-Sim : (e : OrderEntry) → Sim Shows (put_order e) (flat_order e)
unfolding put_order flat_order order_of
order-Sim e = then-Sim (order_mut-Sim e.slot (λ o. order_of e)) (
    if-Sim (not (e.order_id == 0))
      (modify-Sim _ _ λ w b r. with_idmap r (ap (λ m. put_id m e.order_id e.slot) r.idmap))
      (pure-Sim tt))

flat_groups :
    (limit : ℕ) (buf : List ℕ) (w : CowBook) (b : Book)
    → Shows w b
    → Alike Shows
        (restore_groups (λ e s. left (put_level e s)) (λ e s. left (put_order e s)) limit buf w)
        (restore_groups apply_level apply_order limit buf b)
flat_groups limit buf w b r =
    let levels : apply_level ≡ (λ e s. left (flat_level e s)) =
      fun_ext (λ e. fun_ext (apply_level-flat e)) in
    let orders : apply_order ≡ (λ e s. left (flat_order e s)) =
      fun_ext (λ e. fun_ext (apply_order-flat e)) in
    rw (levels, orders)
      (groups-Alike put_level flat_level put_order flat_order level-Sim order-Sim limit buf w b r)

restore_cow_message-Alike :
    (buf : List ℕ) (cfg : SmrConfig)
    → cfg.chunk ≢ 0
    → cfg.cap < 2 ^ 32
    → Alike Shows (restore_cow_message buf cfg) (restore_message buf cfg)
unfolding restore_cow_message restore_message
restore_cow_message-Alike buf cfg chunk small =
    let (w, made, shows) = (new-Shows cfg small).0 chunk in
    rw made (
      expect-Alike (get_word_at 2 6 buf) _ _ λ version.
        if-Alike (not (version == 2)) (unsupported_version version) (
          expect-Alike (get_word_at 2 0 buf) _ _ λ acting_length.
            expect-Alike (get_word_at 8 8 buf) _ _ λ price_min.
              expect-Alike (get_word_at 8 16 buf) _ _ λ tick.
                expect-Alike (get_word_at 4 24 buf) _ _ λ n_levels.
                  expect-Alike (get_word_at 4 32 buf) _ _ λ hwm.
                    expect-Alike (get_word_at 4 36 buf) _ _ λ best_bid.
                      expect-Alike (get_word_at 4 40 buf) _ _ λ best_ask.
                        expect-Alike (get_word_at 4 28 buf) _ _ λ capacity.
                          if-Alike (not (capacity == cfg.cap)) (wrong_capacity capacity cfg.cap) (
                            expect-Alike (get_word_at 4 44 buf) _ _ λ free_head.
                              flat_groups (8 + acting_length) buf _ _ (
                                with_block shows price_min tick n_levels hwm best_bid best_ask
                                  free_head))))

-- `restore_cow` of any bytes ends as `restore` does: with the same error, with a panic, or with a book
-- that shows the one that `restore` returns. The chunk size is positive, and the capacity fits in a u32.
pub restore_cow-Alike :
    (crc32c : List ℕ → ℕ) (bytes : List ℕ) (cfg : SmrConfig)
    → cfg.chunk ≢ 0
    → cfg.cap < 2 ^ 32
    → Alike Shows (restore_cow crc32c bytes cfg) (restore crc32c bytes cfg)
unfolding restore_cow restore
restore_cow-Alike crc32c bytes cfg chunk small = if-Alike (ltb (length bytes) 4) too_short (
    expect-Alike (get_word_at 4 (length bytes - 4) bytes) _ _ λ want.
      if-Alike (not (crc32c (take (length bytes - 4) bytes) == want)) crc_mismatch
        (restore_cow_message-Alike (take (length bytes - 4) bytes) cfg chunk small))
