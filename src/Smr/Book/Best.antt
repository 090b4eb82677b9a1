-- ===== src/Smr/Book/Best.antt =====
-- The cached best prices of a book, through `insert` and `repair_best`.
use hi_perf_cmp.Prelude.{
  ℕ, ◌<◌, ◌^◌, ◌≡◌, ◌∙◌, sym, arith, Bool-cases, inl, inr, ◌==◌, ◌&&◌, ◌||◌, if◌then◌else◌, true,
}
use hi_perf_cmp.Prelude.Word.{lt_i32, minus_one_i32}
use hi_perf_cmp.Smr.Book.View.{View}
use hi_perf_cmp.Smr.Book.Scan.{Empty}

-- `best` is the highest of `n` bid levels with an order, or -1 if there is none.
pub data BestBid (v : View) (n best : ℕ) : Type 0 where
  some_bid :
      best < n
      → (Empty v 0 best → ⊥)
      → ((u : ℕ) → best < u → u < n → Empty v 0 u)
      → BestBid v n best
  no_bids : best ≡ minus_one_i32 → ((u : ℕ) → u < n → Empty v 0 u) → BestBid v n best

-- `best` is the lowest of `n` ask levels with an order, or -1 if there is none.
pub data BestAsk (v : View) (n best : ℕ) : Type 0 where
  some_ask : best < n → (Empty v 1 best → ⊥) → ((u : ℕ) → u < best → Empty v 1 u) → BestAsk v n best
  no_asks : best ≡ minus_one_i32 → ((u : ℕ) → u < n → Empty v 1 u) → BestAsk v n best

abbrev pub new_bid : ℕ → ℕ → ℕ → ℕ
new_bid side t bid = if (side == 0) && (lt_i32 bid 0 || lt_i32 bid t) then t else bid

abbrev pub new_ask : ℕ → ℕ → ℕ → ℕ
new_ask side t ask = if (side == 1) && (lt_i32 ask 0 || lt_i32 t ask) then t else ask

-- Views whose levels have the same heads have the same best prices.
module _ {v v' : View} {n : ℕ}
    (heads : (side t : ℕ) → (v'.level side t).head ≡ (v.level side t).head) where
  pub heads-BestBid : {best : ℕ} → BestBid v n best → BestBid v' n best
  heads-BestBid {best} (some_bid lt ne above) =
      some_bid lt (λ e. ne (sym (heads 0 best) ∙ e)) (λ u h k. heads 0 u ∙ above u h k)
  heads-BestBid (no_bids m below) = no_bids m (λ u k. heads 0 u ∙ below u k)

  pub heads-BestAsk : {best : ℕ} → BestAsk v n best → BestAsk v' n best
  heads-BestAsk {best} (some_ask lt ne above) =
      some_ask lt (λ e. ne (sym (heads 1 best) ∙ e)) (λ u h. heads 1 u ∙ above u h)
  heads-BestAsk (no_asks m below) = no_asks m (λ u k. heads 1 u ∙ below u k)

-- From `v` to `v'` no other level than `t` of `side` gets or loses all its orders.
pub record OneLevel (v v' : View) (n side t : ℕ) : Type 0 where
  pub few : n < 2 ^ 31
  pub on_ladder : t < n
  pub same :
      (z u : ℕ) → z < 2 → u < n → (side ≡ z → t ≡ u → ⊥) → (v'.level z u).head ≡ (v.level z u).head

module _ {v v' : View} {n side t : ℕ} (w : OneLevel v v' n side t) where
  pub raise_bid :
      {bid : ℕ}
      → (side ≡ 0 → Empty v' 0 t → ⊥)
      → BestBid v n bid
      → BestBid v' n (new_bid side t bid)
  raise_bid {bid} now (some_bid lt ne above) =
      elim (Bool-cases ((side == 0) && (lt_i32 bid 0 || lt_i32 bid t))) [
        | inl e ↦ rw e (
            some_bid w.on_ladder (now (ground arith))
              (λ u h k. ground (arith, above u, w.same 0 u, w.few)))
        | inr e ↦ rw e (
            some_bid lt (λ k. ground (arith, ne, w.same 0 bid, now, w.few, w.on_ladder))
              (λ u h k. ground (arith, above u, w.same 0 u, w.few, w.on_ladder)))
      ]
  raise_bid {bid} now (no_bids m below) = elim (Bool-cases (side == 0)) [
    | inl e ↦
        let up : ((side == 0) && (lt_i32 bid 0 || lt_i32 bid t)) ≡ true = ground arith in
        rw up
          (some_bid w.on_ladder (now (ground arith)) (λ u h k. ground (arith, below u, w.same 0 u)))
    | inr e ↦ rw e (no_bids m (λ u k. ground (arith, below u, w.same 0 u)))
  ]

  pub raise_ask :
      {ask : ℕ}
      → (side ≡ 1 → Empty v' 1 t → ⊥)
      → BestAsk v n ask
      → BestAsk v' n (new_ask side t ask)
  raise_ask {ask} now (some_ask lt ne above) =
      elim (Bool-cases ((side == 1) && (lt_i32 ask 0 || lt_i32 t ask))) [
        | inl e ↦ rw e (
            some_ask w.on_ladder (now (ground arith))
              (λ u h. ground (arith, above u, w.same 1 u, w.few, w.on_ladder)))
        | inr e ↦ rw e (
            some_ask lt (λ k. ground (arith, ne, w.same 1 ask, now, w.few, w.on_ladder))
              (λ u h. ground (arith, above u, w.same 1 u, w.few, w.on_ladder)))
      ]
  raise_ask {ask} now (no_asks m below) = elim (Bool-cases (side == 1)) [
    | inl e ↦
        let up : ((side == 1) && (lt_i32 ask 0 || lt_i32 t ask)) ≡ true = ground arith in
        rw up (
          some_ask w.on_ladder (now (ground arith))
            (λ u h. ground (arith, below u, w.same 1 u, w.on_ladder)))
    | inr e ↦ rw e (no_asks m (λ u k. ground (arith, below u, w.same 1 u)))
  ]
