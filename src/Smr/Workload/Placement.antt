-- ===== src/Smr/Workload/Placement.antt =====
-- Every generated order lands on a level of the ladder.
use native.Mathlib.Nat.{mul-div_cancel, mod-lt}
use hi_perf_cmp.Prelude.{ℕ, ◌*◌, ◌/◌, ◌%◌, ◌^◌, ◌≤◌, ◌<◌, ◌≡◌, refl, ap, some, false, arith, ◌==◌}
use hi_perf_cmp.Prelude.Run.{ok}
use hi_perf_cmp.Prelude.Word.{add64, sub64, div_i64}
use hi_perf_cmp.Smr.Rng
use hi_perf_cmp.Smr.Book
use hi_perf_cmp.Smr.Book.{Book}
use hi_perf_cmp.Smr.Workload.{Insert, insert_at, next_insert, draw}

div_i64_pos : (a b : ℕ) → a < 2 ^ 63 → 0 < b → b < 2 ^ 63 → div_i64 a b ≡ some (a / b)
unfolding div_i64
div_i64_pos a b ha hb hb' = ground arith

abbrev pub level_price : ℕ → ℕ → ℕ → ℕ
level_price price_min tick t = add64 price_min (t * tick % 2 ^ 64)

-- The level of a price is the level that it was made from.
pub level_of_price :
    (price_min tick t : ℕ)
    → price_min < 2 ^ 64
    → 0 < tick
    → tick < 2 ^ 63
    → t * tick < 2 ^ 63
    → div_i64 (sub64 (level_price price_min tick t) price_min) tick ≡ some t
level_of_price price_min tick t small pos fits room =
    let e : sub64 (level_price price_min tick t) price_min ≡ t * tick = omega arith in
    rw (e, div_i64_pos (t * tick) tick room pos fits, mul-div_cancel t pos)

-- What `next_insert` promises: an order that the book takes on one of its `n` levels.
pub record Lands (b : Book) (i n : ℕ) (ins : Insert) : Type 0 where
  pub t : ℕ
  pub placed : Book.tick_of ins.price b ≡ ok t b
  pub on_ladder : t < n
  pub two_sided : ins.side < 2
  pub qty_pos : 0 < ins.qty
  pub qty_le : ins.qty ≤ 1000
  pub id : ins.order_id ≡ add64 i 1

insert_at-Lands :
    (b : Book) (r1 r2 t i n : ℕ)
    → b.price_min < 2 ^ 64
    → 0 < b.tick
    → b.tick < 2 ^ 63
    → n * b.tick ≤ 2 ^ 63
    → n < 2 ^ 32
    → t < n
    → Lands b i n (insert_at r1 r2 t i b.tick b.price_min)
unfolding insert_at Book.tick_of
insert_at-Lands b r1 r2 t i n small pos fits room few lt = record {
  t = t;
  placed =
      rw (level_of_price b.price_min b.tick t small pos fits (grind arith))
        (ap (λ k. ok k b) (omega arith));
  on_ladder = lt;
  two_sided = omega arith;
  qty_pos = omega arith;
  qty_le = omega arith;
  id = refl;
}

-- With a positive tick, a ladder of 1 to 2^32 - 1 levels and a price range that fits in an i64,
-- `next_insert` returns, and its order has id i + 1, side 0 or 1, a quantity from 1 to 1000 and a
-- price that the book maps to a level of the ladder.
pub next_insert-Lands :
    (b : Book) (i n s : ℕ)
    → b.price_min < 2 ^ 64
    → 0 < b.tick
    → b.tick < 2 ^ 63
    → n * b.tick ≤ 2 ^ 63
    → n < 2 ^ 32
    → 0 < n
    → (ins : Insert) × (s' : ℕ) × (next_insert i n b.tick b.price_min s ≡ ok ins s')
      × Lands b i n ins
unfolding next_insert draw
next_insert-Lands b i n s small pos fits room few some_levels =
    let r1 = (Rng.next s).0 in
    let r2 = (Rng.next (Rng.next s).1).0 in
    let e : (n == 0) ≡ false = ground arith in
    (
      insert_at r1 r2 (r1 % n) i b.tick b.price_min,
      (Rng.next (Rng.next s).1).1,
      rw e refl,
      insert_at-Lands b r1 r2 (r1 % n) i n small pos fits room few (mod-lt r1 some_levels),
    )

abbrev pub first_draw : ℕ → ℕ
first_draw s = (Rng.next s).0

abbrev pub second_draw : ℕ → ℕ
second_draw s = (Rng.next (Rng.next s).1).0

abbrev pub after_two : ℕ → ℕ
after_two s = (Rng.next (Rng.next s).1).1

-- `next_insert` in one step.
pub next_insert-ok :
    (i n tick price_min s : ℕ)
    → 0 < n
    → next_insert i n tick price_min s
      ≡ ok
          (insert_at (first_draw s) (second_draw s) (first_draw s % n) i tick price_min)
          (after_two s)
unfolding next_insert draw
next_insert-ok i n tick price_min s h = let e : (n == 0) ≡ false = ground arith in rw e refl
