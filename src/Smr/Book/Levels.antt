-- ===== src/Smr/Book/Levels.antt =====
-- A level is empty exactly when no order rests on it.
use hi_perf_cmp.Prelude.{
  ℕ, zero, suc, ◌<◌, ◌≡◌, ◌≢◌, ◌%◌, ◌^◌, ◌∙◌, ap, refl, Option, arith, Bool-cases, inl, inr, ◌==◌,
}
use hi_perf_cmp.Smr.Level.{nil, empty_level}
use hi_perf_cmp.Smr.Book.View.{View, Rests, Ghost, IsLinked, rests_lt}
use hi_perf_cmp.Smr.Book.Totals.{IsTotalled, total, open_qty, one_order}

module _ {place : ℕ → Option ℕ} {n : ℕ} {g : Ghost} {v : View} (w : IsLinked place n g v) where
  -- From an order back along `prev`, to the head of its level.
  head_by_age : (k s : ℕ) → g.age s < k → Rests v s → (v.level (v.at s).side (g.lev s)).head ≢ nil
  head_by_age zero s lt rests = absurd (omega arith)
  head_by_age (suc k) s lt rests = elim (Bool-cases ((v.at s).prev == nil)) [
    | inl e ↦ λ h. ground (arith, w.head s rests, rests_lt w s rests)
    | inr e ↦
        let ne : (v.at s).prev ≢ nil = ground arith in
        let (r, back) = w.prev s rests ne in
        let ne' : (v.at (v.at s).prev).next ≢ nil = ground (arith, rests_lt w s rests) in
        let f = w.next (v.at s).prev r ne' in
        λ h. head_by_age k (v.at s).prev (ground (arith, f)) r (ground (arith, f))
  ]

  pub level_head-Rests : (s : ℕ) → Rests v s → (v.level (v.at s).side (g.lev s)).head ≢ nil
  level_head-Rests s = head_by_age (suc (g.age s)) s (omega arith)

total_zero : (f : ℕ → ℕ) (n : ℕ) → ((j : ℕ) → f j ≡ 0) → total f n ≡ 0
total_zero f zero zeros = refl
total_zero f (suc n) zeros = omega (arith, zeros n, total_zero f n zeros)

-- The totals of a level without orders are zero.
module _ {place : ℕ → Option ℕ} {n : ℕ} {g : Ghost} {v : View} (w : IsLinked place n g v)
    (totals : IsTotalled n g v) where
  pub empty-level :
      (side t : ℕ) → side < 2 → t < n → (v.level side t).head ≡ nil → v.level side t ≡ empty_level
  empty-level side t two lt e i = record {
    head = e i;
    tail = (w.ends side t two lt).0 e i;
    qty_total =
        (totals.qty side t two lt
            ∙ ap (λ k. k % 2 ^ 64)
                (total_zero (open_qty v g side t) v.cap (λ s. ground (arith, gone s))))
          i;
    count =
        (totals.count side t two lt
            ∙ ap (λ k. k % 2 ^ 32)
                (total_zero (one_order v g side t) v.cap (λ s. ground (arith, gone s))))
          i;
  }
    where
      gone : (s : ℕ) → Rests v s → (v.at s).side ≡ side → g.lev s ≡ t → ⊥
      gone s h p q =
          level_head-Rests w s h
            (ap (λ z. (v.level z (g.lev s)).head) p ∙ ap (λ u. (v.level side u).head) q ∙ e)
