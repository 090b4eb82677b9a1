-- ===== src/Smr/Book/Full.antt =====
-- `Book::insert` on a book whose slots all hold an order.
use hi_perf_cmp.Prelude.{
  ℕ, ◌<◌, ◌≡◌, refl, arith, true, inl, inr, ◌==◌, length, ◌⊎◌, Option-cases, ◌%◌, ◌^◌,
}
use hi_perf_cmp.Prelude.Run.{ok, panic}
use hi_perf_cmp.Prelude.Word.{sub64, div_i64}
use hi_perf_cmp.Smr.Level.{nil}
use hi_perf_cmp.Smr.Book.{Book, tick_of, alloc_slot, insert}
use hi_perf_cmp.Smr.Book.View.{view, Rests, Ghost}
use hi_perf_cmp.Smr.Book.InsertRuns.{IsBook}

alloc_slot-full :
    {g : Ghost} {b : Book}
    → IsBook g b
    → ((s : ℕ) → s < length b.pool → Rests (view b) s)
    → alloc_slot b ≡ panic
unfolding alloc_slot
alloc_slot-full {b} w full =
    let no_free : (b.free_head == nil) ≡ true =
      ground (arith, w.links.free_head, w.links.hwm_le, full b.free_head) in
    let at_end : (b.hwm == length b.pool) ≡ true =
      ground (arith, w.links.hwm_le, full b.hwm, w.links.fresh b.hwm) in
    rw (no_free, at_end) refl

tick_of-same :
    (price : ℕ) (b : Book) → (tick_of price b ≡ panic) ⊎ ((t : ℕ) × (tick_of price b ≡ ok t b))
unfolding tick_of
tick_of-same price b = elim (Option-cases (div_i64 (sub64 price b.price_min) b.tick)) [
  | inl e ↦ inl (rw e refl)
  | inr (q, e) ↦ inr (q % 2 ^ 32, rw e refl)
]

-- `insert` into a well-formed book whose slots all hold an order panics, whatever the order is.
pub insert-full :
    (g : Ghost) (b : Book) (id price qty side : ℕ)
    → IsBook g b
    → ((s : ℕ) → s < length b.pool → Rests (view b) s)
    → insert id price qty side b ≡ panic
unfolding insert
insert-full g b id price qty side w full = elim (tick_of-same price b) [
  | inl e ↦ rw e refl
  | inr (t, e) ↦ rw (e, alloc_slot-full w full) refl
]
