-- ===== src/Smr/Churn/Room.antt =====
-- A book that holds as many orders as the live list has room for another as long as the list is
-- shorter than the pool.
use hi_perf_cmp.Prelude.{
  ℕ, zero, suc, ◌-◌, ◌<◌, ◌≤◌, ◌≡◌, List, some, arith, get_elem?, length, get_elem?-in_range,
  lt_of_get_elem?, Bool-cases, inl, inr, ltb, ◌==◌,
}
use hi_perf_cmp.Smr.Level.{nil}
use hi_perf_cmp.Smr.Book.{Book}
use hi_perf_cmp.Smr.Book.View.{view, Ghost}
use hi_perf_cmp.Smr.Book.Vacant.{full-Rests}
use hi_perf_cmp.Smr.Book.InsertRuns.{IsBook, HasRoom}
use hi_perf_cmp.Smr.Churn.{Churn, swap_remove}
use hi_perf_cmp.Smr.Churn.Stream.{In, IsStream, stays, still_distinct, length-swap_remove}

-- `n` distinct values of a list are at most as many as the list is long.
pigeons :
    (n : ℕ) (xs : List ℕ) (f : ℕ → ℕ)
    → ((j k x : ℕ) → get_elem? xs j ≡ some x → get_elem? xs k ≡ some x → j ≡ k)
    → ((s : ℕ) → s < n → In (f s) xs)
    → ((s r : ℕ) → s < n → r < n → f s ≡ f r → s ≡ r)
    → n ≤ length xs
pigeons zero xs f distinct here inj = omega arith
pigeons (suc n) xs f distinct here inj =
    let (v, at) = here n (omega arith) in
    let lt = lt_of_get_elem? xs v at in
    let (x, last) = get_elem?-in_range xs (length xs - 1) (omega arith) in
    let rest =
      pigeons n (swap_remove xs v) f (still_distinct xs v (f n) x distinct at last)
        (λ s h.
          stays xs v (f n) x distinct at last (f s)
            (λ e. absurd (ground (arith, inj s n (omega arith) (omega arith) e)))
            (here s (omega arith)))
        (λ s r h k. inj s r (omega arith) (omega arith)) in
    omega (arith, rest, length-swap_remove xs v lt)

pub live-HasRoom :
    (c : Churn) (b : Book) (g : Ghost)
    → IsBook g b
    → IsStream c
    → ((id slot : ℕ) → b.idmap id ≡ some slot → In id c.live)
    → length c.live < length b.pool
    → HasRoom b
live-HasRoom c b g w s live lt = elim (Bool-cases (b.free_head == nil)) [
  | inl e ↦ elim (Bool-cases (ltb b.hwm (length b.pool))) [
    | inl below ↦ inr (ground arith)
    | inr full ↦
        let empty : b.free_head ≡ nil = ground arith in
        let top : length b.pool ≡ b.hwm = ground (arith, w.links.hwm_le) in
        let small : b.hwm ≤ nil = omega (arith, w.links.cap, w.links.hwm_le) in
        let many =
          pigeons b.hwm c.live (λ i. ((view b).at i).order_id) s.distinct
            (λ i h.
              live ((view b).at i).order_id i
                (w.links.rests_id i (full-Rests w.free i empty small h)))
            (λ i r h k e. ground (
              arith,
              w.links.rests_id i (full-Rests w.free i empty small h),
              w.links.rests_id r (full-Rests w.free r empty small k),
            )) in
        absurd (omega arith)
  ]
  | inr e ↦ inl (ground arith)
]
