-- ===== src/Smr/Book/Totals.antt =====
-- The totals of the levels, as sums over the orders.
use hi_perf_cmp.Prelude.{
  ℕ, zero, suc, ◌+◌, ◌%◌, ◌^◌, ◌<◌, ◌≡◌, ◌≢◌, refl, arith, Option, ◌==◌, ◌&&◌, not, if◌then◌else◌,
  Bool-cases, inl, inr,
}
use hi_perf_cmp.Prelude.Word.{sub64}
use hi_perf_cmp.Smr.Book.View.{View, Rests, Ghost, IsLinked, inserted, removed, arrived}

-- The sum of `f` below `n`.
abbrev pub total : (ℕ → ℕ) → ℕ → ℕ
total f zero = 0
total f (suc n) = total f n + f n

pub total_same : (f h : ℕ → ℕ) (n : ℕ) → ((j : ℕ) → j < n → h j ≡ f j) → total h n ≡ total f n
total_same f h zero same = refl
total_same f h (suc n) same =
    omega (arith, same n (omega arith), total_same f h n (λ j lt. same j (omega arith)))

-- One summand changes.
pub total_change :
    (f h : ℕ → ℕ) (s n : ℕ)
    → s < n
    → ((j : ℕ) → j ≢ s → h j ≡ f j)
    → total h n + f s ≡ total f n + h s
total_change f h s zero lt same = absurd (omega arith)
total_change f h s (suc n) lt same = elim (Bool-cases (s == n)) [
  | inl e ↦
      let at : s ≡ n = ground arith in
      rw at (omega (arith, total_same f h n (λ j below. same j (λ x. ground arith))))
  | inr e ↦ omega (arith, total_change f h s n (ground arith) same, same n (λ x. ground arith))
]

module _ (v : View) (g : Ghost) (side t : ℕ) where
  -- What is open of the order in a slot, if it rests on the level.
  abbrev pub open_qty : ℕ → ℕ
  open_qty s =
      if not ((v.at s).order_id == 0) && (((v.at s).side == side) && (g.lev s == t))
      then sub64 (v.at s).qty (v.at s).filled
      else 0

  abbrev pub one_order : ℕ → ℕ
  one_order s =
      if not ((v.at s).order_id == 0) && (((v.at s).side == side) && (g.lev s == t)) then 1 else 0

-- A level's quantity is what is open of its orders, and its count their number, as words.
pub record IsTotalled (n : ℕ) (g : Ghost) (v : View) : Type 0 where
  pub qty_fits : (s : ℕ) → (v.at s).qty < 2 ^ 64
  pub filled_fits : (s : ℕ) → (v.at s).filled < 2 ^ 64
  pub qty :
      (side t : ℕ)
      → side < 2
      → t < n
      → (v.level side t).qty_total ≡ total (open_qty v g side t) v.cap % 2 ^ 64
  pub count :
      (side t : ℕ)
      → side < 2
      → t < n
      → (v.level side t).count ≡ total (one_order v g side t) v.cap % 2 ^ 32

module _ {place : ℕ → Option ℕ} {n : ℕ} {g : Ghost} {v : View} (l : IsLinked place n g v)
    (w : IsTotalled n g v) where
  module _ (slot id price qty side t top free : ℕ) (below : slot < v.cap)
      (vacant : (v.at slot).order_id ≡ 0) (ne : id ≢ 0) (fits : qty < 2 ^ 64) (two : side < 2)
      (on : t < n) where
    abbrev vi : View
    vi = inserted v slot id price qty side t top free

    open_inserted :
        (z u : ℕ)
        → total (open_qty vi (arrived g slot t) z u) v.cap + open_qty v g z u slot
          ≡ total (open_qty v g z u) v.cap + open_qty vi (arrived g slot t) z u slot
    open_inserted z u =
        total_change (open_qty v g z u) (open_qty vi (arrived g slot t) z u) slot v.cap below
          (λ j k. ground arith)

    one_inserted :
        (z u : ℕ)
        → total (one_order vi (arrived g slot t) z u) v.cap + one_order v g z u slot
          ≡ total (one_order v g z u) v.cap + one_order vi (arrived g slot t) z u slot
    one_inserted z u =
        total_change (one_order v g z u) (one_order vi (arrived g slot t) z u) slot v.cap below
          (λ j k. ground arith)

    pub inserted-IsTotalled : IsTotalled n (arrived g slot t) vi
    inserted-IsTotalled = record {
      qty_fits = λ s. ground (arith, w.qty_fits s);
      filled_fits = λ s. ground (arith, w.filled_fits s);
      qty = λ z u hz hu. ground (arith, w.qty z u, open_inserted z u);
      count = λ z u hz hu. ground (arith, w.count z u, one_inserted z u);
    }

  module _ (slot filled : ℕ) (below : slot < v.cap) (live : Rests v slot)
      (fits : filled < 2 ^ 64) where
    abbrev rem : ℕ
    rem = sub64 (v.at slot).qty (v.at slot).filled

    abbrev vr : View
    vr = removed v slot (g.lev slot) rem filled

    open_removed :
        (z u : ℕ)
        → total (open_qty vr g z u) v.cap + open_qty v g z u slot
          ≡ total (open_qty v g z u) v.cap + open_qty vr g z u slot
    open_removed z u =
        total_change (open_qty v g z u) (open_qty vr g z u) slot v.cap below (λ j k. ground arith)

    one_removed :
        (z u : ℕ)
        → total (one_order vr g z u) v.cap + one_order v g z u slot
          ≡ total (one_order v g z u) v.cap + one_order vr g z u slot
    one_removed z u =
        total_change (one_order v g z u) (one_order vr g z u) slot v.cap below (λ j k. ground arith)

    pub removed-IsTotalled : IsTotalled n g vr
    removed-IsTotalled = record {
      qty_fits = λ s. ground (arith, w.qty_fits s, w.qty_fits slot);
      filled_fits = λ s. ground (arith, w.filled_fits s);
      qty = λ z u hz hu. ground (arith, w.qty z u, open_removed z u);
      count = λ z u hz hu. ground (arith, w.count z u, one_removed z u);
    }
