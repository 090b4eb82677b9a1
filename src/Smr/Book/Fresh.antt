-- ===== src/Smr/Book/Fresh.antt =====
-- The book of `Book::new`.
use hi_perf_cmp.Prelude.{
  ℕ, zero, suc, ◌<◌, ◌≤◌, ◌^◌, ◌≡◌, refl, arith, get_or, replicate, length, length-replicate,
}
use hi_perf_cmp.Smr.Level.{nil, SmrConfig, zero_order, empty_level}
use hi_perf_cmp.Smr.Book.{new}
use hi_perf_cmp.Smr.Book.View.{Ghost, view}
use hi_perf_cmp.Smr.Book.Totals.{total, open_qty, one_order}
use hi_perf_cmp.Smr.Book.Best.{no_bids, no_asks}
use hi_perf_cmp.Smr.Book.InsertRuns.{IsBook}

abbrev pub no_orders : Ghost
no_orders = record { lev = λ _. 0; age = λ _. 0; clock = 0 }

get_or-replicate : {A : Type 0} (n i : ℕ) (x : A) → get_or (replicate n x) i x ≡ x
get_or-replicate zero i x = refl
get_or-replicate (suc n) zero x = refl
get_or-replicate (suc n) (suc i) x = get_or-replicate n i x

no_total : (f : ℕ → ℕ) (n : ℕ) → ((j : ℕ) → f j ≡ 0) → total f n ≡ 0
no_total f zero h = refl
no_total f (suc n) h = omega (arith, no_total f n h, h n)

-- The book of `Book::new` is well formed, if its capacity is at most 2^32 - 1 and it has less than
-- 2^31 levels.
pub new-IsBook :
    (cfg : SmrConfig) → cfg.cap ≤ nil → cfg.levels < 2 ^ 31 → IsBook no_orders (new cfg)
unfolding new
new-IsBook cfg few_orders few_levels =
    let at = λ (s : ℕ). get_or-replicate cfg.cap s zero_order in
    let level = λ (t : ℕ). get_or-replicate cfg.levels t empty_level in
    record {
      links = record {
        cap = rw (length-replicate cfg.cap zero_order) few_orders;
        hwm_le = omega arith;
        fresh = λ s h. ground (arith, at s);
        id_rests = λ i s h. ground arith;
        rests_id = λ s h. ground (arith, at s);
        side = λ s h. ground (arith, at s);
        placed = λ s h. ground (arith, at s);
        age = λ s h. ground (arith, at s);
        next = λ s h. ground (arith, at s);
        prev = λ s h. ground (arith, at s);
        tail = λ s h. ground (arith, at s);
        head = λ s h. ground (arith, at s);
        level_head = λ z t h k. ground (arith, level t);
        level_tail = λ z t h k. ground (arith, level t);
        ends = λ z t h k. ground (arith, level t);
        free_head = λ h. ground arith;
        free_next = λ s h. ground arith;
        free_inj = λ s r h. ground arith;
      };
      free = record {
        pred = λ s. s;
        stamp = λ s. 0;
        clock = 0;
        reached = λ s h. ground arith;
        stamped = λ s h. ground arith;
      };
      totals = record {
        qty_fits = λ s. ground (arith, at s);
        filled_fits = λ s. ground (arith, at s);
        qty = λ z t h k. ground (
          arith,
          level t,
          no_total (open_qty (view (new cfg)) no_orders z t) (length (new cfg).pool)
              (λ j. ground (arith, at j)),
        );
        count = λ z t h k. ground (
          arith,
          level t,
          no_total (one_order (view (new cfg)) no_orders z t) (length (new cfg).pool)
              (λ j. ground (arith, at j)),
        );
      };
      bids_length = length-replicate cfg.levels empty_level;
      asks_length = length-replicate cfg.levels empty_level;
      few_levels = few_levels;
      bid = no_bids refl (λ u h. ground (arith, level u));
      ask = no_asks refl (λ u h. ground (arith, level u));
    }
