-- ===== src/Smr/Churn/Total.antt =====
-- The churn driver over the flat book never panics.
use hi_perf_cmp.Prelude.{
  ℕ, zero, suc, ◌+◌, ◌*◌, ◌%◌, ◌^◌, ◌<◌, ◌≤◌, ◌≡◌, ◌≢◌, refl, sym, ap, ◌∙◌, false, arith, length,
  Bool, true, inl, inr, length-append, length-replicate,
}
use hi_perf_cmp.Prelude.Run.{Run, ok, ◌>>◌}
use hi_perf_cmp.Smr.Level.{nil, SmrConfig, zero_order}
use hi_perf_cmp.Smr.Config.Bounds.{InBounds}
use hi_perf_cmp.Smr.Book
use hi_perf_cmp.Smr.Book.{Book}
use hi_perf_cmp.Smr.Book.Fresh.{no_orders, new-IsBook}
use hi_perf_cmp.Smr.Churn.{Churn, ChurnOp, new, book_store, step, prebuild, drive}
use hi_perf_cmp.Smr.Churn.Stream.{
  Legal, arrives, departs, is_insert, Next, insert_op-Next, next_op-Next,
}
use hi_perf_cmp.Smr.Churn.Tracks.{Tracks, Legal-Applied}

-- The state that a run of the driver ends in.
pub record Ends (r : Run (Churn × Book) (Unit {0})) (cap i live : ℕ) : Type 0 where
  pub c' : Churn
  pub b' : Book
  pub returns : r ≡ ok tt (c', b')
  pub tracks : Tracks c' b'
  pub pool : length b'.pool ≡ cap
  pub index : c'.i ≡ i
  pub size : length c'.live ≡ live

-- The live orders after an op.
size_after :
    {c c' : Churn} {op : ChurnOp}
    → Legal c op c'
    → (is_insert op ≡ true → length c'.live ≡ length c.live + 1)
      × (is_insert op ≡ false → length c'.live + 1 ≡ length c.live)
size_after (arrives id qty side t e lt two fits is_id not_in pos live) =
    (λ h. ap length live ∙ length-append _ _, λ h. absurd (ground (arith, ap is_insert e)))
size_after (departs id which here gone stays was fewer) = (
  λ h. elim which [
    | inl e ↦ absurd (ground (arith, ap is_insert e))
    | inr e ↦ absurd (ground (arith, ap is_insert e))
  ],
  λ h. fewer,
)

module _ (c : Churn) (b : Book) (w : Tracks c b) where
  step-Ends :
      {arrival : Bool} {r : Run Churn ChurnOp} (next : Next c arrival r)
      → (arrival ≡ true → length c.live < length b.pool)
      → Ends (step book_store r b) (length b.pool) (c.i + 1) (length next.c'.live)
  unfolding step
  step-Ends next room =
      let a =
        Legal-Applied w next.stream next.ladder next.op next.legal
          (λ e. room (sym next.kind ∙ e)) in
      record {
        c' = next.c';
        b' = a.b';
        returns = rw (next.returns, a.returns) refl;
        tracks = a.tracks;
        pool = a.pool;
        index = next.index;
        size = refl;
      }

-- `n` inserts, into a book that has the room for them.
prebuild-Ends :
    (n : ℕ) (c : Churn) (b : Book)
    → Tracks c b
    → length c.live + n ≤ length b.pool
    → c.i + n < 2 ^ 64
    → Ends (prebuild book_store n (c, b)) (length b.pool) (c.i + n) (length c.live + n)
unfolding prebuild
prebuild-Ends zero c b w room index = record {
  c' = c;
  b' = b;
  returns = refl;
  tracks = w;
  pool = refl;
  index = omega arith;
  size = omega arith;
}
prebuild-Ends (suc n) c b w room index =
    let next = insert_op-Next c w.stream (omega arith) w.levels_pos in
    let e = step-Ends c b w next (λ _. omega arith) in
    let longer = (size_after next.legal).0 next.kind in
    let r =
      prebuild-Ends n e.c' e.b' e.tracks (omega (arith, e.size, e.pool, longer))
        (omega (arith, e.index)) in
    record {
      c' = r.c';
      b' = r.b';
      returns = rw (e.returns) r.returns;
      tracks = r.tracks;
      pool = r.pool ∙ e.pool;
      index = omega (arith, r.index, e.index);
      size = omega (arith, r.size, e.size, longer);
    }

-- The room that the driver needs: an even index inserts, and then an odd one removes.
pub record Fits (c : Churn) (cap : ℕ) : Type 0 where
  pub two : 2 ≤ cap
  pub even : c.i % 2 ≡ 0 → length c.live + 1 ≤ cap
  pub odd : c.i % 2 ≢ 0 → length c.live ≤ cap

-- The run returns, with a book that holds the live orders.
pub record Completes (r : Run (Churn × Book) (Unit {0})) : Type 0 where
  pub c' : Churn
  pub b' : Book
  pub returns : r ≡ ok tt (c', b')
  pub tracks : Tracks c' b'

drive-Completes :
    (n : ℕ) (c : Churn) (b : Book)
    → Tracks c b
    → Fits c (length b.pool)
    → c.i + n < 2 ^ 64
    → Completes (drive book_store n (c, b))
unfolding drive
drive-Completes zero c b w f index = record { c' = c; b' = b; returns = refl; tracks = w }
drive-Completes (suc n) c b w f index =
    let next = next_op-Next c w.stream (omega arith) w.levels_pos in
    let e = step-Ends c b w next (λ h. ground (arith, f.two, f.even, f.odd)) in
    let sizes = size_after next.legal in
    let f' : Fits e.c' (length e.b'.pool) = record {
      two = ground (arith, f.two, e.pool);
      even = λ h. ground (arith, f.two, f.even, f.odd, e.pool, e.index, e.size, sizes, next.kind);
      odd = λ h. ground (arith, f.two, f.even, f.odd, e.pool, e.index, e.size, sizes, next.kind);
    } in
    let r = drive-Completes n e.c' e.b' e.tracks f' (omega (arith, e.index)) in
    record { c' = r.c'; b' = r.b'; returns = rw (e.returns) r.returns; tracks = r.tracks }

-- What the configuration must grant beyond the checks of `from_env`: a slot over the steady orders, and
-- a pool and prices that fit in their words.
pub record IsRoomy (cfg : SmrConfig) : Type 0 where
  pub bounds : InBounds cfg
  pub cap_fits : cfg.cap ≤ nil
  pub price_fits : cfg.price_min < 2 ^ 64
  pub ladder_fits : cfg.levels * cfg.tick ≤ 2 ^ 63
  pub slot_over : cfg.steady + 1 ≤ cfg.cap
  pub two : 2 ≤ cfg.cap

new-Tracks : (cfg : SmrConfig) → IsRoomy cfg → Tracks (new cfg) (Book.new cfg)
unfolding new Book.new
new-Tracks cfg r = record {
  ghost = no_orders;
  book = new-IsBook cfg r.cap_fits (omega (arith, r.bounds.levels_le));
  stream = record {
    distinct = λ j k x p q. ground arith;
    low = λ j x p. ground arith;
    positive = λ j x p. ground arith;
  };
  levels = refl;
  tick = refl;
  price_min = refl;
  tick_pos = r.bounds.tick_pos;
  tick_fits = r.bounds.tick_fits;
  levels_pos = r.bounds.levels_pos;
  ladder_fits = r.ladder_fits;
  price_fits = r.price_fits;
  rests = λ id (j, p). ground arith;
  live = λ id slot p. ground arith;
}

length-pool : (cfg : SmrConfig) → length (Book.new cfg).pool ≡ cfg.cap
unfolding Book.new
length-pool cfg = length-replicate cfg.cap zero_order

new_live : (cfg : SmrConfig) → (length (new cfg).live ≡ 0) × ((new cfg).i ≡ 0)
unfolding new
new_live cfg = (refl, refl)

-- The churn cells over the flat book do not panic with a configuration in the bounds of `from_env`
-- that also has a pool of 2 to 2^32 - 1 slots, at least one more than the steady orders, a minimum
-- price of 64 bits, and a ladder, the levels times the tick, of 2^63 at most: prebuilding the
-- steady orders and then driving any number of ops returns, if the steady orders and the ops
-- together are below 2^64. The driver's live orders are then those that rest in a well-formed book.
pub churn-Completes :
    (cfg : SmrConfig) (ops : ℕ)
    → IsRoomy cfg
    → cfg.steady + ops < 2 ^ 64
    → Completes ((prebuild book_store cfg.steady >> drive book_store ops) (new cfg, Book.new cfg))
churn-Completes cfg ops r room =
    let (none_live, first) = new_live cfg in
    let p =
      prebuild-Ends cfg.steady (new cfg) (Book.new cfg) (new-Tracks cfg r)
        (omega (arith, length-pool cfg, r.slot_over)) (omega arith) in
    let f : Fits p.c' (length p.b'.pool) = record {
      two = omega (arith, p.pool, length-pool cfg, r.two);
      even = λ h. omega (arith, p.pool, p.size, length-pool cfg, r.slot_over);
      odd = λ h. omega (arith, p.pool, p.size, length-pool cfg, r.slot_over);
    } in
    let d = drive-Completes ops p.c' p.b' p.tracks f (omega (arith, p.index)) in
    record { c' = d.c'; b' = d.b'; returns = rw (p.returns) d.returns; tracks = d.tracks }
