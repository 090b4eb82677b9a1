-- ===== src/Smr/Snapshot/Apply.antt =====
-- What the entries of a book's image do to a new book.
use hi_perf_cmp.Prelude.{
  ℕ, zero, suc, ◌+◌, ◌%◌, ◌^◌, ◌<◌, ◌≤◌, ◌≡◌, refl, ap, ◌∙◌, arith, true, Bool-cases, inl, inr,
  List, [], ◌∷◌, ◌==◌, ltb, if◌then◌else◌, length, length-set, get_or, get_or-set, set,
}
use hi_perf_cmp.Smr.Level.{nil, PriceLevel, empty_level}
use hi_perf_cmp.Smr.Book.{Book}
use hi_perf_cmp.Smr.Snapshot.{side_enum, level_entry, lane_entries}
use hi_perf_cmp.Smr.Snapshot.Restore.{side_u8, price_level, apply_level}
use hi_perf_cmp.Smr.Snapshot.Bytes.{ApplyAll}

-- The occupied levels of `lvls`, written from index `t` on.
abbrev pub write_lane : ℕ → List PriceLevel → List PriceLevel → List PriceLevel
write_lane t [] lane = lane
write_lane t (l ∷ ls) lane = write_lane (t + 1) ls (if l.head == nil then lane else set lane t l)

pub length-write_lane :
    (t : ℕ) (ls lane : List PriceLevel) → length (write_lane t ls lane) ≡ length lane
length-write_lane t [] lane = refl
length-write_lane t (l ∷ ls) lane =
    length-write_lane (t + 1) ls (if l.head == nil then lane else set lane t l)
    ∙ ground (arith, length-set lane t l)

below_write_lane :
    (t : ℕ) (ls lane : List PriceLevel) (j : ℕ)
    → j < t
    → t + length ls ≤ length lane
    → get_or (write_lane t ls lane) j empty_level ≡ get_or lane j empty_level
below_write_lane t [] lane j lt room = refl
below_write_lane t (l ∷ ls) lane j lt room =
    below_write_lane (t + 1) ls (if l.head == nil then lane else set lane t l) j (omega arith)
      (ground (arith, length-set lane t l))
    ∙ ground (arith, get_or-set lane t j l empty_level)

pub at_write_lane :
    (t : ℕ) (ls lane : List PriceLevel) (k : ℕ)
    → t + length ls ≤ length lane
    → get_or (write_lane t ls lane) (t + k) empty_level ≡ (
        if (get_or ls k empty_level).head == nil
        then get_or lane (t + k) empty_level
        else get_or ls k empty_level)
at_write_lane t [] lane k room = ground arith
at_write_lane t (l ∷ ls) lane zero room =
    ap
      (λ j.
        get_or (write_lane (t + 1) ls (if l.head == nil then lane else set lane t l)) j empty_level)
      (omega arith)
    ∙ below_write_lane (t + 1) ls (if l.head == nil then lane else set lane t l) t (omega arith)
        (ground (arith, length-set lane t l))
    ∙ ground (arith, get_or-set lane t t l empty_level)
at_write_lane t (l ∷ ls) lane (suc k) room =
    let next : t + suc k ≡ t + 1 + k = omega arith in
    rw next (
      at_write_lane (t + 1) ls (if l.head == nil then lane else set lane t l) k
        (ground (arith, length-set lane t l))
      ∙ ground (arith, get_or-set lane t (t + 1 + k) l empty_level))

pub bids_applied :
    (t : ℕ) (ls : List PriceLevel) (b : Book)
    → t + length ls ≤ length b.bids
    → length b.bids < 2 ^ 32
    → ApplyAll apply_level (lane_entries 0 t ls) b (record b { bids = write_lane t ls b.bids })
unfolding lane_entries level_entry apply_level price_level side_enum side_u8
bids_applied t [] b room small = refl
bids_applied t (l ∷ ls) b room small = elim (Bool-cases (l.head == nil)) [
  | inl e ↦ rw e (bids_applied (t + 1) ls b (omega arith) small)
  | inr e ↦
      let tick : t % 2 ^ 32 ≡ t = omega arith in
      let low : ltb t (length b.bids) ≡ true = ground arith in
      let same = length-set b.bids t l in
      rw e (
        record b { bids = set b.bids t l },
        rw (tick, low) refl,
        bids_applied (t + 1) ls (record b { bids = set b.bids t l }) (omega (arith, same))
            (omega (arith, same)),
      )
]

pub asks_applied :
    (t : ℕ) (ls : List PriceLevel) (b : Book)
    → t + length ls ≤ length b.asks
    → length b.asks < 2 ^ 32
    → ApplyAll apply_level (lane_entries 1 t ls) b (record b { asks = write_lane t ls b.asks })
unfolding lane_entries level_entry apply_level price_level side_enum side_u8
asks_applied t [] b room small = refl
asks_applied t (l ∷ ls) b room small = elim (Bool-cases (l.head == nil)) [
  | inl e ↦ rw e (asks_applied (t + 1) ls b (omega arith) small)
  | inr e ↦
      let tick : t % 2 ^ 32 ≡ t = omega arith in
      let low : ltb t (length b.asks) ≡ true = ground arith in
      let same = length-set b.asks t l in
      rw e (
        record b { asks = set b.asks t l },
        rw (tick, low) refl,
        asks_applied (t + 1) ls (record b { asks = set b.asks t l }) (omega (arith, same))
            (omega (arith, same)),
      )
]
