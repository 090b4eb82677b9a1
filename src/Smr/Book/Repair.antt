-- ===== src/Smr/Book/Repair.antt =====
-- `Book::repair_best` after an order left level `t` of `side`.
use mathlib.Core.Path.{subst, sym}
use hi_perf_cmp.Prelude.{ℕ, ◌+◌, ◌-◌, ◌<◌, ◌≡◌, refl, arith, length, Bool-cases, inl, inr, ◌==◌}
use hi_perf_cmp.Prelude.Run.{ok}
use hi_perf_cmp.Smr.Level.{nil}
use hi_perf_cmp.Smr.Book.{Book, repair_best}
use hi_perf_cmp.Smr.Book.View.{View, view}
use hi_perf_cmp.Smr.Book.Access.{level-ok}
use hi_perf_cmp.Smr.Book.Scan.{
  Empty, Highest, bid_at, no_bid, ask_at, no_ask, Lowest, scan_down-Highest, scan_up-Lowest,
}
use hi_perf_cmp.Smr.Book.Best.{BestBid, BestAsk, some_bid, no_bids, some_ask, no_asks, OneLevel}

abbrev pub rebest : Book → ℕ → ℕ → Book
rebest b bid ask = record b { best_bid = bid; best_ask = ask }

pub record Repaired (c : Book) (side t : ℕ) : Type 0 where
  pub bid' : ℕ
  pub ask' : ℕ
  pub returns : repair_best side t c ≡ ok tt (rebest c bid' ask')
  pub bid_ok : BestBid (view c) c.n_levels bid'
  pub ask_ok : BestAsk (view c) c.n_levels ask'

module _ (c : Book) {v : View} {side t : ℕ} (w : OneLevel v (view c) c.n_levels side t)
    (two : side < 2) (before : Empty v side t → ⊥) where
  -- The side that lost no order.
  other_bid : side ≡ 1 → {best : ℕ} → BestBid v c.n_levels best → BestBid (view c) c.n_levels best
  other_bid e {best} (some_bid lt ne above) =
      some_bid lt (λ k. ground (arith, ne, w.same 0 best))
        (λ u h k. ground (arith, above u, w.same 0 u))
  other_bid e (no_bids m below) = no_bids m (λ u k. ground (arith, below u, w.same 0 u))

  other_ask : side ≡ 0 → {best : ℕ} → BestAsk v c.n_levels best → BestAsk (view c) c.n_levels best
  other_ask e {best} (some_ask lt ne above) =
      some_ask lt (λ k. ground (arith, ne, w.same 1 best))
        (λ u h. ground (arith, above u, w.same 1 u))
  other_ask e (no_asks m below) = no_asks m (λ u k. ground (arith, below u, w.same 1 u))

  -- Nothing to repair: the best level is another one, or still has an order.
  keeps_bid :
      side ≡ 0
      → {best : ℕ} → (best ≡ t → Empty (view c) 0 t → ⊥)
      → BestBid v c.n_levels best
      → BestBid (view c) c.n_levels best
  keeps_bid e {best} ok' (some_bid lt ne above) =
      some_bid lt (λ k. ground (arith, ne, ok', w.same 0 best))
        (λ u h k. ground (arith, above u, above t, before, w.same 0 u, w.on_ladder))
  keeps_bid e ok' (no_bids m below) = absurd (ground (arith, below t w.on_ladder, before))

  keeps_ask :
      side ≡ 1
      → {best : ℕ} → (best ≡ t → Empty (view c) 1 t → ⊥)
      → BestAsk v c.n_levels best
      → BestAsk (view c) c.n_levels best
  keeps_ask e {best} ok' (some_ask lt ne above) =
      some_ask lt (λ k. ground (arith, ne, ok', w.same 1 best))
        (λ u h. ground (arith, above u, above t, before, w.same 1 u, w.on_ladder))
  keeps_ask e ok' (no_asks m below) = absurd (ground (arith, below t w.on_ladder, before))

  -- Level `t` was the best and is empty now.
  scanned_bid :
      side ≡ 0
      → {r : ℕ} → BestBid v c.n_levels t
      → Highest (view c) t r
      → BestBid (view c) c.n_levels r
  scanned_bid e (some_bid lt ne top) (bid_at le ne' above) =
      some_bid (omega arith) ne' (λ u h k. ground (arith, above u, top u, w.same 0 u))
  scanned_bid e (some_bid lt ne top) (no_bid m below) =
      no_bids m (λ u k. ground (arith, below u, top u, w.same 0 u))
  scanned_bid e (no_bids m none) h = absurd (ground (arith, none t w.on_ladder, before))

  scanned_ask :
      side ≡ 1
      → {r : ℕ} → BestAsk v c.n_levels t
      → Lowest (view c) t (t + (c.n_levels - t)) r
      → BestAsk (view c) c.n_levels r
  scanned_ask e (some_ask lt ne top) (ask_at le lt' ne' above) =
      some_ask (omega arith) ne' (λ u h. ground (arith, above u, top u, w.same 1 u))
  scanned_ask e (some_ask lt ne top) (no_ask m below) =
      no_asks m (λ u k. ground (arith, below u, top u, w.same 1 u))
  scanned_ask e (no_asks m none) h = absurd (ground (arith, none t w.on_ladder, before))

  module _ (bids_length : length c.bids ≡ c.n_levels) (asks_length : length c.asks ≡ c.n_levels)
      (bid : BestBid v c.n_levels c.best_bid) (ask : BestAsk v c.n_levels c.best_ask) where
    repair_bid : side ≡ 0 → Repaired c 0 t
    unfolding repair_best
    repair_bid e = elim (Bool-cases (c.best_bid == t)) [
      | inl same ↦
          let is_t : c.best_bid ≡ t = ground arith in
          elim (Bool-cases (((view c).level 0 t).head == nil)) [
            | inl empty ↦
                let (r, p, h) =
                  scan_down-Highest c t (omega (arith, w.on_ladder))
                    (omega (arith, w.few, w.on_ladder)) in
                record {
                  bid' = r;
                  ask' = c.best_ask;
                  returns =
                      rw (same, level-ok c 0 t (omega arith) (omega (arith, w.on_ladder)), empty, p)
                        refl;
                  bid_ok = scanned_bid e (subst (BestBid v c.n_levels) is_t bid) h;
                  ask_ok = other_ask e ask;
                }
            | inr full ↦ record {
              bid' = c.best_bid;
              ask' = c.best_ask;
              returns =
                  rw (same, level-ok c 0 t (omega arith) (omega (arith, w.on_ladder)), full) refl;
              bid_ok = keeps_bid e (λ _ h. ground arith) bid;
              ask_ok = other_ask e ask;
            }
          ]
      | inr differs ↦ record {
        bid' = c.best_bid;
        ask' = c.best_ask;
        returns = rw differs refl;
        bid_ok = keeps_bid e (λ h _. ground arith) bid;
        ask_ok = other_ask e ask;
      }
    ]

    repair_ask : side ≡ 1 → Repaired c 1 t
    unfolding repair_best
    repair_ask e = elim (Bool-cases (c.best_ask == t)) [
      | inl same ↦
          let is_t : c.best_ask ≡ t = ground arith in
          elim (Bool-cases (((view c).level 1 t).head == nil)) [
            | inl empty ↦
                let (r, p, h) =
                  scan_up-Lowest c (c.n_levels - t) t (omega (arith, w.on_ladder))
                    (omega (arith, w.few, w.on_ladder)) in
                record {
                  bid' = c.best_bid;
                  ask' = r;
                  returns =
                      rw (same, level-ok c 1 t (omega arith) (omega (arith, w.on_ladder)), empty, p)
                        refl;
                  bid_ok = other_bid e bid;
                  ask_ok = scanned_ask e (subst (BestAsk v c.n_levels) is_t ask) h;
                }
            | inr full ↦ record {
              bid' = c.best_bid;
              ask' = c.best_ask;
              returns =
                  rw (same, level-ok c 1 t (omega arith) (omega (arith, w.on_ladder)), full) refl;
              bid_ok = other_bid e bid;
              ask_ok = keeps_ask e (λ _ h. ground arith) ask;
            }
          ]
      | inr differs ↦ record {
        bid' = c.best_bid;
        ask' = c.best_ask;
        returns = rw differs refl;
        bid_ok = other_bid e bid;
        ask_ok = keeps_ask e (λ h _. ground arith) ask;
      }
    ]

    pub repair_best-Repaired : Repaired c side t
    repair_best-Repaired = elim (Bool-cases (side == 0)) [
      | inl e ↦
          let h : side ≡ 0 = ground arith in subst (λ z. Repaired c z t) (sym h) (repair_bid h)
      | inr e ↦
          let h : side ≡ 1 = ground arith in subst (λ z. Repaired c z t) (sym h) (repair_ask h)
    ]
