-- ===== src/Smr/Snapshot/Same.antt =====
-- cowsnap.rs: "Byte-identical to `snapshot::encode` for the same logical state".
use mathlib.Core.Path.{fun_ext}
use hi_perf_cmp.Prelude.{
  ℕ, suc, ◌+◌, ◌<◌, ◌%◌, ◌^◌, ◌≡◌, refl, sym, ap, ◌∙◌, arith, List, [], ◌∷◌, Option, some, length,
  get_elem?,
}
use hi_perf_cmp.Prelude.Run.{pure, ◌>>=◌, ◌>>◌}
use hi_perf_cmp.Prelude.Lockstep.{Agree, weaken-Agree}
use hi_perf_cmp.Smr.Level.{PriceLevel}
use hi_perf_cmp.Smr.Book.{Book}
use hi_perf_cmp.Smr.CowBook
use hi_perf_cmp.Smr.CowBook.{CowBook, root_of, root_order, root_level}
use hi_perf_cmp.Smr.Command.{Event, run, run_events, commands, snapshots}
use hi_perf_cmp.Smr.Lockstep.{Shows}
use hi_perf_cmp.Smr.Lockstep.Streams.{RootShows, snapshot_stays}
use hi_perf_cmp.Smr.Snapshot.{lane_entries, range_entries, image, root_image, encode, encode_root}

range_entries-lane :
    (level : ℕ → Option PriceLevel) (side t : ℕ) (lvls : List PriceLevel)
    → ((u : ℕ) → level (t + u) ≡ get_elem? lvls u)
    → range_entries level side t (length lvls) ≡ some (lane_entries side t lvls)
unfolding range_entries lane_entries
range_entries-lane level side t [] same = refl
range_entries-lane level side t (lvl ∷ lvls) same =
    let here : level t ≡ some lvl = ap level (omega arith) ∙ same 0 in
    let shift = λ (u : ℕ). ap level (later u) ∙ same (suc u) in
    rw (here, range_entries-lane level side (t + 1) lvls shift) refl
  where
    later : (u : ℕ) → t + 1 + u ≡ t + suc u
    later u = omega arith

root_image-book :
    (w s : CowBook) (b : Book)
    → length b.pool < 2 ^ 32
    → length b.bids ≡ b.n_levels
    → length b.asks ≡ b.n_levels
    → Shows w b
    → RootShows (root_of w) s b
    → root_image (root_of w) s ≡ image b
unfolding root_image image
root_image-book w s b small bids asks h r =
    let orders : root_order (root_of w) s ≡ get_elem? b.pool = fun_ext r.orders in
    let fits : length b.pool % 2 ^ 32 ≡ length b.pool = omega arith in
    let bid_lane : range_entries (root_level (root_of w) s 0) 0 0 w.n_levels
        ≡ some (lane_entries 0 0 b.bids) =
      ap (range_entries (root_level (root_of w) s 0) 0 0) (h.n_levels ∙ sym bids)
      ∙ range_entries-lane (root_level (root_of w) s 0) 0 0 b.bids
          (λ u. ap (root_level (root_of w) s 0) (zero-add u) ∙ r.levels 0 u) in
    let ask_lane : range_entries (root_level (root_of w) s 1) 1 0 w.n_levels
        ≡ some (lane_entries 1 0 b.asks) =
      ap (range_entries (root_level (root_of w) s 1) 1 0) (h.n_levels ∙ sym asks)
      ∙ range_entries-lane (root_level (root_of w) s 1) 1 0 b.asks
          (λ u. ap (root_level (root_of w) s 1) (zero-add u) ∙ r.levels 1 u) in
    rw
      (
        orders, bid_lane, ask_lane, fits, h.hwm, h.best_bid, h.best_ask, h.price_min, h.tick,
        h.n_levels, h.capacity, h.free_head,
      )
      refl
  where
    zero-add : (u : ℕ) → 0 + u ≡ u
    zero-add u = omega arith

encode_root-book :
    (crc32c : List ℕ → ℕ) (buf : List ℕ) (w s : CowBook) (b : Book)
    → root_image (root_of w) s ≡ image b
    → encode_root crc32c (root_of w) s buf ≡ encode crc32c b buf
unfolding encode_root encode
encode_root-book crc32c buf w s b same = rw same refl

-- Encoding a captured root, after any later commands and captures, gives the bytes that encoding the
-- flat book at the capture gives. The generation must not wrap, the capacity fits in a u32, and the lanes are as
-- long as the ladder.
pub encode_after_capture :
    (crc32c : List ℕ → ℕ) (buf : List ℕ) (es : List Event) (w : CowBook) (b : Book)
    → w.gen + 1 + snapshots es < 2 ^ 64
    → length b.pool < 2 ^ 32
    → length b.bids ≡ b.n_levels
    → length b.asks ≡ b.n_levels
    → Shows w b
    → Agree
        (λ s t. encode_root crc32c (root_of w) s buf ≡ encode crc32c b buf)
        ((do r ← CowBook.capture; run_events es; pure r) w)
        ((do run (commands es); pure (root_of w)) b)
encode_after_capture crc32c buf es w b room small bids asks h =
    weaken-Agree (snapshot_stays es w b room h)
      λ s t p. encode_root-book crc32c buf w s b (root_image-book w s b small bids asks h p.1)
