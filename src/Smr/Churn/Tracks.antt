-- ===== src/Smr/Churn/Tracks.antt =====
-- The live list of the driver is what rests in the book, and every op of the driver can be applied.
use hi_perf_cmp.Prelude.{
  ℕ, ◌+◌, ◌*◌, ◌%◌, ◌^◌, ◌<◌, ◌≤◌, ◌≡◌, ◌≢◌, ◌⊎◌, refl, sym, ap, ◌∙◌, Option, true, none, some,
  arith, length, List, [], ◌∷◌, ◌++◌, get_elem?-append, Bool-cases, inl, inr, ◌==◌, lt_of_get_elem?,
}
use mathlib.Core.Path.{subst}
use native.Mathlib.Nat.{mul-lt-mul_of_pos_right}
use hi_perf_cmp.Prelude.Run.{ok}
use hi_perf_cmp.Smr.Book.{Book}
use hi_perf_cmp.Smr.Book.View.{Ghost, arrived}
use hi_perf_cmp.Smr.Book.Access.{place}
use hi_perf_cmp.Smr.Book.InsertRuns.{IsBook}
use hi_perf_cmp.Smr.Book.Arrivals.{Arrived, insert-Arrived}
use hi_perf_cmp.Smr.Book.Departures.{Departed, cancel-Departed, fill-Departed}
use hi_perf_cmp.Smr.Workload.Placement.{level_price, level_of_price}
use hi_perf_cmp.Smr.Churn.{Churn, ChurnOp, insert, cancel, fill, apply, book_store}
use hi_perf_cmp.Smr.Churn.Stream.{In, IsStream, Legal, arrives, departs, is_insert}
use hi_perf_cmp.Smr.Churn.Room.{live-HasRoom}

pub record Tracks (c : Churn) (b : Book) : Type 0 where
  pub ghost : Ghost
  pub book : IsBook ghost b
  pub stream : IsStream c
  pub levels : c.levels ≡ b.n_levels
  pub tick : c.tick ≡ b.tick
  pub price_min : c.price_min ≡ b.price_min
  pub tick_pos : 0 < c.tick
  pub tick_fits : c.tick < 2 ^ 63
  pub levels_pos : 0 < c.levels
  pub ladder_fits : c.levels * c.tick ≤ 2 ^ 63
  pub price_fits : c.price_min < 2 ^ 64
  pub rests : (id : ℕ) → In id c.live → (slot : ℕ) × (b.idmap id ≡ some slot)
  pub live : (id slot : ℕ) → b.idmap id ≡ some slot → In id c.live

-- The op that leads from `c` to `c'` can be applied to the book, and leaves one that tracks `c'`.
pub record Applied (c c' : Churn) (op : ChurnOp) (b : Book) : Type 0 where
  pub b' : Book
  pub returns : apply book_store op b ≡ ok tt b'
  pub tracks : Tracks c' b'
  pub pool : length b'.pool ≡ length b.pool

In-append : (id x : ℕ) (xs : List ℕ) → In x (xs ++ (id ∷ [])) → (In x xs) ⊎ (x ≡ id)
In-append id x xs (j, e) = elim (Bool-cases (j == length xs)) [
  | inl h ↦ inr (ground (arith, get_elem?-append xs id j))
  | inr h ↦ inl (j, ground (arith, get_elem?-append xs id j))
]

append-In_old : (id x : ℕ) (xs : List ℕ) → In x xs → In x (xs ++ (id ∷ []))
append-In_old id x xs (j, e) = (j, ground (arith, get_elem?-append xs id j, lt_of_get_elem? xs j e))

Option-cases : (o : Option ℕ) → (o ≡ none) ⊎ ((x : ℕ) × (o ≡ some x))
Option-cases none = inl refl
Option-cases (some x) = inr (x, refl)

append-In_new : (id : ℕ) (xs : List ℕ) → In id (xs ++ (id ∷ []))
append-In_new id xs = (length xs, ground (arith, get_elem?-append xs id (length xs)))

module _ {c c' : Churn} {b : Book} (w : Tracks c b) (next : IsStream c')
    (ladder : (c'.levels ≡ c.levels) × (c'.tick ≡ c.tick) × (c'.price_min ≡ c.price_min)) where
  place_level :
      (t : ℕ) → t < c.levels → place b.price_min b.tick (level_price c.price_min c.tick t) ≡ some t
  unfolding place
  place_level t lt =
      let room : t * c.tick < 2 ^ 63 =
        omega (arith, mul-lt-mul_of_pos_right lt w.tick_pos, w.ladder_fits) in
      let small : t % 2 ^ 32 ≡ t = omega (arith, w.levels, w.book.few_levels) in
      let q = level_of_price c.price_min c.tick t w.price_fits w.tick_pos w.tick_fits room in
      let p : place c.price_min c.tick (level_price c.price_min c.tick t) ≡ some (t % 2 ^ 32) =
        rw (q, place) refl in
      rw (← w.price_min, ← w.tick, p, small) refl

  -- What the driver and the book keep.
  Tracks-next :
      (g : Ghost) (b' : Book)
      → IsBook g b'
      → (b'.price_min ≡ b.price_min)
        × (b'.tick ≡ b.tick)
        × (b'.n_levels ≡ b.n_levels)
        × (length b'.pool ≡ length b.pool)
      → ((id : ℕ) → In id c'.live → (slot : ℕ) × (b'.idmap id ≡ some slot))
      → ((id slot : ℕ) → b'.idmap id ≡ some slot → In id c'.live)
      → Tracks c' b'
  Tracks-next g b' book same rests live = record {
    ghost = g;
    book = book;
    stream = next;
    levels = ladder.0 ∙ w.levels ∙ sym same.2;
    tick = ladder.1 ∙ w.tick ∙ sym same.1;
    price_min = ladder.2 ∙ w.price_min ∙ sym same.0;
    tick_pos = rw ladder.1 w.tick_pos;
    tick_fits = rw ladder.1 w.tick_fits;
    levels_pos = rw ladder.0 w.levels_pos;
    ladder_fits = rw (ladder.0, ladder.1) w.ladder_fits;
    price_fits = rw ladder.2 w.price_fits;
    rests = rests;
    live = live;
  }

  module _ (id slot : ℕ) (op : ChurnOp) (d : Departed w.ghost b id slot (apply book_store op b))
      (gone : In id c'.live → ⊥) (stays : (x : ℕ) → x ≢ id → In x c.live → In x c'.live)
      (was : (x : ℕ) → In x c'.live → In x c.live) where
    departed-Applied : Applied c c' op b
    departed-Applied = record {
      b' = d.b';
      returns = d.returns;
      tracks =
          Tracks-next w.ghost d.b' d.book d.ladder
            (λ x i.
              let (r, e) = w.rests x (was x i) in
              let ne : x ≢ id = λ p. gone (subst (λ y. In y c'.live) p i) in
              (r, ground (arith, d.others x)))
            (λ x r e.
              let ne : x ≢ id = λ p. ground (arith, d.others x) in
              stays x ne (w.live x r (ground (arith, d.others x))));
      pool = d.ladder.3;
    }

  module _ (id qty side t : ℕ) (lt : t < c.levels) (two : side < 2) (fits : qty < 2 ^ 64)
      (is_id : id ≡ c.i + 1) (not_in : In id c.live → ⊥)
      (live : c'.live ≡ c.live ++ (id ∷ [])) where
    new_id : b.idmap id ≡ none
    new_id = elim (Option-cases (b.idmap id)) [
      | inl e ↦ e
      | inr (slot, e) ↦ absurd (not_in (w.live id slot e))
    ]

    module _ (a : Arrived w.ghost b id (level_price c.price_min c.tick t) qty side t) where
      rests_after : (x : ℕ) → In x c'.live → (slot : ℕ) × (a.b'.idmap x ≡ some slot)
      rests_after x i = elim (Bool-cases (id == x)) [
        | inl e ↦ (a.slot, ground (arith, a.ids x))
        | inr e ↦ elim (In-append id x c.live (subst (In x) live i)) [
          | inl old ↦ let (slot, h) = w.rests x old in (slot, ground (arith, a.ids x))
          | inr new ↦ absurd (ground arith)
        ]
      ]

      live_after : (x slot : ℕ) → a.b'.idmap x ≡ some slot → In x c'.live
      live_after x slot h = subst (In x) (sym live) (elim (Bool-cases (id == x)) [
        | inl e ↦
            let same : id ≡ x = ground arith in
            subst (λ y. In y (c.live ++ (id ∷ []))) same (append-In_new id c.live)
        | inr e ↦ append-In_old id x c.live (w.live x slot (ground (arith, a.ids x)))
      ])

    arrived-Applied :
        length c.live < length b.pool
        → Applied c c' (insert id (level_price c.price_min c.tick t) qty side) b
    unfolding apply
    arrived-Applied room =
        let a =
          insert-Arrived w.ghost b id (level_price c.price_min c.tick t) qty side t w.book
            (live-HasRoom c b w.ghost w.book w.stream w.live room) (omega arith) new_id two fits
            (place_level t lt) (omega (arith, w.levels)) in
        record {
          b' = a.b';
          returns = a.returns;
          tracks =
              Tracks-next (arrived w.ghost a.slot t) a.b' a.book a.ladder (rests_after a)
                (live_after a);
          pool = a.ladder.3;
        }

  -- Every legal op can be applied, an insert while the list is shorter than the pool.
  pub Legal-Applied :
      (op : ChurnOp)
      → Legal c op c'
      → (is_insert op ≡ true → length c.live < length b.pool)
      → Applied c c' op b
  unfolding apply
  Legal-Applied op (arrives id qty side t e lt two fits is_id not_in pos live) room =
      subst (λ o. Applied c c' o b) (sym e)
        (arrived-Applied id qty side t lt two fits is_id not_in live (room (ap is_insert e)))
  Legal-Applied op (departs id which here gone stays was fewer) room =
      let (slot, at) = w.rests id here in
      elim which [
        | inl e ↦
            subst (λ o. Applied c c' o b) (sym e)
              (departed-Applied id slot (cancel id) (cancel-Departed w.ghost b id slot w.book at)
                gone stays was)
        | inr e ↦
            subst (λ o. Applied c c' o b) (sym e)
              (departed-Applied id slot (fill id) (fill-Departed w.ghost b id slot w.book at) gone
                stays was)
      ]
