-- ===== src/Smr/Book/Scan.antt =====
-- The scans of `Book::repair_best`: they return the first level with an order in it.
use hi_perf_cmp.Prelude.{
  ℕ, zero, suc, ◌+◌, ◌<◌, ◌≤◌, ◌%◌, ◌^◌, ◌≡◌, inl, inr, refl, arith, length, Bool-cases, ◌==◌,
}
use hi_perf_cmp.Prelude.Run.{ok}
use hi_perf_cmp.Prelude.Word.{minus_one_i32}
use hi_perf_cmp.Smr.Level.{nil}
use hi_perf_cmp.Smr.Book.{Book, scan_down, scan_up}
use hi_perf_cmp.Smr.Book.View.{View, view}
use hi_perf_cmp.Smr.Book.Access.{level-ok}

-- No order on the level.
abbrev pub Empty : View → ℕ → ℕ → Type 0
Empty v side t = (v.level side t).head ≡ nil

-- `best` is the highest bid level up to `t` with an order, or -1 if there is none.
pub data Highest (v : View) (t : ℕ) (best : ℕ) : Type 0 where
  bid_at :
      best ≤ t
      → (Empty v 0 best → ⊥)
      → ((u : ℕ) → best < u → u ≤ t → Empty v 0 u)
      → Highest v t best
  no_bid : best ≡ minus_one_i32 → ((u : ℕ) → u ≤ t → Empty v 0 u) → Highest v t best

-- `best` is the lowest ask level from `t` and below `n` with an order, or -1 if there is none.
pub data Lowest (v : View) (t n : ℕ) (best : ℕ) : Type 0 where
  ask_at :
      t ≤ best
      → best < n
      → (Empty v 1 best → ⊥)
      → ((u : ℕ) → t ≤ u → u < best → Empty v 1 u)
      → Lowest v t n best
  no_ask : best ≡ minus_one_i32 → ((u : ℕ) → t ≤ u → u < n → Empty v 1 u) → Lowest v t n best

module _ (b : Book) where
  pub scan_down-Highest :
      (t : ℕ)
      → t < length b.bids
      → t < 2 ^ 31
      → (r : ℕ) × (scan_down t b ≡ ok r b) × Highest (view b) t r
  unfolding scan_down
  scan_down-Highest zero lt small = elim (Bool-cases (((view b).level 0 0).head == nil)) [
    | inl e ↦ (
      minus_one_i32,
      rw (level-ok b 0 0 (omega arith) lt, e) refl,
      no_bid refl (λ u h. ground arith),
    )
    | inr e ↦ (
      0,
      rw (level-ok b 0 0 (omega arith) lt, e) refl,
      bid_at (omega arith) (ground arith) (λ u h k. absurd (omega arith)),
    )
  ]
  scan_down-Highest (suc t) lt small = elim (Bool-cases (((view b).level 0 (suc t)).head == nil)) [
    | inl e ↦
        let (r, p, h) = scan_down-Highest t (omega arith) (omega arith) in
        (r, rw (level-ok b 0 (suc t) (omega arith) lt, e, p) refl, further h (ground arith))
    | inr e ↦
        let small' : suc t % 2 ^ 32 ≡ suc t = omega arith in
        (
          suc t,
          rw (level-ok b 0 (suc t) (omega arith) lt, e, small') refl,
          bid_at (omega arith) (ground arith) (λ u h k. absurd (omega arith)),
        )
  ]
    where
      further :
          {t r : ℕ} → Highest (view b) t r → Empty (view b) 0 (suc t) → Highest (view b) (suc t) r
      further {t} (bid_at le ne above) e =
          bid_at (omega arith) ne (λ u h k. ground (arith, above u h))
      further {t} (no_bid m below) e = no_bid m (λ u k. ground (arith, below u))

  pub scan_up-Lowest :
      (rounds t : ℕ)
      → t + rounds ≤ length b.asks
      → t + rounds < 2 ^ 31
      → (r : ℕ) × (scan_up rounds t b ≡ ok r b) × Lowest (view b) t (t + rounds) r
  unfolding scan_up
  scan_up-Lowest zero t lt small =
      (minus_one_i32, refl, no_ask refl (λ u h k. absurd (omega arith)))
  scan_up-Lowest (suc rounds) t lt small = elim (Bool-cases (((view b).level 1 t).head == nil)) [
    | inl e ↦
        let (r, p, h) = scan_up-Lowest rounds (t + 1) (omega arith) (omega arith) in
        (
          r,
          rw (level-ok b 1 t (omega arith) (omega arith), e, p) refl,
          further rounds h (ground arith),
        )
    | inr e ↦
        let small' : t % 2 ^ 32 ≡ t = omega arith in
        (
          t,
          rw (level-ok b 1 t (omega arith) (omega arith), e, small') refl,
          ask_at (omega arith) (omega arith) (ground arith) (λ u h k. absurd (omega arith)),
        )
  ]
    where
      further :
          (rounds : ℕ) {t r : ℕ}
          → Lowest (view b) (t + 1) (t + 1 + rounds) r
          → Empty (view b) 1 t
          → Lowest (view b) t (t + suc rounds) r
      further rounds {t} (ask_at le lt ne above) e =
          ask_at (omega arith) (omega arith) ne (λ u h k. ground (arith, above u))
      further rounds {t} (no_ask m below) e = no_ask m (λ u h k. ground (arith, below u))
