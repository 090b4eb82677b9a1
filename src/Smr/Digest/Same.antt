-- ===== src/Smr/Digest/Same.antt =====
-- The digest of a captured root is the digest of the flat book at the capture.
use mathlib.Core.Path.{fun_ext}
use hi_perf_cmp.Prelude.{
  ℕ, suc, ◌+◌, ◌<◌, ◌^◌, ◌≡◌, refl, sym, ap, ◌∙◌, arith, List, [], ◌∷◌, Option, some, length,
  get_elem?,
}
use hi_perf_cmp.Prelude.Run.{pure, ◌>>=◌, ◌>>◌}
use hi_perf_cmp.Prelude.Lockstep.{Agree, weaken-Agree}
use hi_perf_cmp.Smr.Level.{Order, PriceLevel}
use hi_perf_cmp.Smr.Book.{Book}
use hi_perf_cmp.Smr.CowBook
use hi_perf_cmp.Smr.CowBook.{CowBook, root_of, root_order, root_level}
use hi_perf_cmp.Smr.Command.{Event, run, run_events, commands, snapshots}
use hi_perf_cmp.Smr.Lockstep.{Shows}
use hi_perf_cmp.Smr.Lockstep.Streams.{RootShows, snapshot_stays}
use hi_perf_cmp.Smr.Digest.{digest_lane, digest_range, digest_book, digest_root}

digest_range-lane :
    (read : ℕ → Option Order) (level : ℕ → Option PriceLevel) (fuel side t : ℕ)
    (lvls : List PriceLevel)
    → ((u : ℕ) → level (t + u) ≡ get_elem? lvls u)
    → digest_range read level fuel side t (length lvls) ≡ digest_lane read fuel side t lvls
unfolding digest_range digest_lane
digest_range-lane read level fuel side t [] same = refl
digest_range-lane read level fuel side t (lvl ∷ lvls) same =
    let here : level t ≡ some lvl = ap level (omega arith) ∙ same 0 in
    let shift = λ (u : ℕ). ap level (later u) ∙ same (suc u) in
    rw (here, digest_range-lane read level fuel side (t + 1) lvls shift) refl
  where
    later : (u : ℕ) → t + 1 + u ≡ t + suc u
    later u = omega arith

-- The root of a copy-on-write book that shows `b`, wherever its chunks still show `b`.
digest_root-book :
    (fuel : ℕ) (w s : CowBook) (b : Book)
    → length b.bids ≡ b.n_levels
    → length b.asks ≡ b.n_levels
    → Shows w b
    → RootShows (root_of w) s b
    → digest_root fuel (root_of w) s ≡ digest_book fuel b
unfolding digest_root digest_book
digest_root-book fuel w s b bids asks h r =
    let read = get_elem? b.pool in
    let orders : root_order (root_of w) s ≡ read = fun_ext r.orders in
    let bid_lane : digest_range read (root_level (root_of w) s 0) fuel 0 0 w.n_levels
        ≡ digest_lane read fuel 0 0 b.bids =
      ap (digest_range read (root_level (root_of w) s 0) fuel 0 0) (h.n_levels ∙ sym bids)
      ∙ digest_range-lane read (root_level (root_of w) s 0) fuel 0 0 b.bids
          (λ u. ap (root_level (root_of w) s 0) (zero-add u) ∙ r.levels 0 u) in
    let ask_lane : digest_range read (root_level (root_of w) s 1) fuel 1 0 w.n_levels
        ≡ digest_lane read fuel 1 0 b.asks =
      ap (digest_range read (root_level (root_of w) s 1) fuel 1 0) (h.n_levels ∙ sym asks)
      ∙ digest_range-lane read (root_level (root_of w) s 1) fuel 1 0 b.asks
          (λ u. ap (root_level (root_of w) s 1) (zero-add u) ∙ r.levels 1 u) in
    rw (orders, bid_lane, ask_lane, h.hwm, h.best_bid, h.best_ask) refl
  where
    zero-add : (u : ℕ) → 0 + u ≡ u
    zero-add u = omega arith

-- A digest of a captured root, taken after any later commands and captures, is the digest of the flat
-- book at the capture. The generation must not wrap, and the lanes are as long as the ladder.
pub digest_after_capture :
    (fuel : ℕ) (es : List Event) (w : CowBook) (b : Book)
    → w.gen + 1 + snapshots es < 2 ^ 64
    → length b.bids ≡ b.n_levels
    → length b.asks ≡ b.n_levels
    → Shows w b
    → Agree
        (λ s t. digest_root fuel (root_of w) s ≡ digest_book fuel b)
        ((do r ← CowBook.capture; run_events es; pure r) w)
        ((do run (commands es); pure (root_of w)) b)
digest_after_capture fuel es w b room bids asks h =
    weaken-Agree (snapshot_stays es w b room h) λ s t p. digest_root-book fuel w s b bids asks h p.1
