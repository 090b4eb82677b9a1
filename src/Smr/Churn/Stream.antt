-- ===== src/Smr/Churn/Stream.antt =====
-- The stream departs only orders that rest, and never reuses an id.
use native.Mathlib.Nat.{mod-lt}
use hi_perf_cmp.Prelude.{
  ℕ, ◌+◌, ◌-◌, ◌%◌, ◌^◌, ◌≤◌, ◌<◌, ◌≡◌, ◌≢◌, ◌⊎◌, inl, inr, refl, List, [], ◌∷◌, ◌++◌, none, some,
  Bool, true, false, arith, ◌==◌, ltb, if◌then◌else◌, get_elem?, set, take, length, get_elem?-set,
  get_elem?-take, get_elem?-append, get_elem?-in_range, lt_of_get_elem?, length-take, length-set,
  Bool-cases, ◌||◌,
}
use hi_perf_cmp.Prelude.Run.{Run, ok}
use hi_perf_cmp.Prelude.Word.{add64}
use hi_perf_cmp.Smr.Workload
use hi_perf_cmp.Smr.Workload.Placement.{
  level_price, first_draw, second_draw, after_two, next_insert-ok,
}
use hi_perf_cmp.Smr.Churn.{
  ChurnOp, insert, cancel, fill, Churn, swap_remove, insert_op, departure, depart, next_op,
}

abbrev pub In : ℕ → List ℕ → Type 0
In x xs = (j : ℕ) × (get_elem? xs j ≡ some x)

swap_remove_lem :
    (xs : List ℕ) (v : ℕ) {x : ℕ}
    → get_elem? xs (length xs - 1) ≡ some x
    → swap_remove xs v ≡ take (length xs - 1) (set xs v x)
unfolding swap_remove
swap_remove_lem xs v last = rw (last, swap_remove)

-- Without its element `v`, which moves nothing else but the last one.
get_elem?-swap_remove :
    (xs : List ℕ) (v j : ℕ) {x : ℕ}
    → v < length xs
    → get_elem? xs (length xs - 1) ≡ some x
    → get_elem? (swap_remove xs v) j
      ≡ (if ltb j (length xs - 1) then (if v == j then some x else get_elem? xs j) else none)
get_elem?-swap_remove xs v j {x} lt last =
    let (y, e) = get_elem?-in_range xs v lt in
    rw (swap_remove_lem xs v last)
      (ground (arith, get_elem?-take (length xs - 1) (set xs v x) j, get_elem?-set xs v j x e))

pub length-swap_remove :
    (xs : List ℕ) (v : ℕ) → v < length xs → length (swap_remove xs v) + 1 ≡ length xs
length-swap_remove xs v lt =
    let (x, last) = get_elem?-in_range xs (length xs - 1) (omega arith) in
    rw (swap_remove_lem xs v last)
      (omega (arith, length-take (length xs - 1) (set xs v x), length-set xs v x))

-- The live ids are distinct, and not above the op index.
pub record IsStream (c : Churn) : Type 0 where
  pub distinct : (j k x : ℕ) → get_elem? c.live j ≡ some x → get_elem? c.live k ≡ some x → j ≡ k
  pub low : (j x : ℕ) → get_elem? c.live j ≡ some x → x ≤ c.i
  pub positive : (j x : ℕ) → get_elem? c.live j ≡ some x → 0 < x

-- An insert of an order that does not rest, at the price of a level of the ladder, or the departure of
-- one that rests.
pub data Legal (c : Churn) (op : ChurnOp) (c' : Churn) : Type 0 where
  arrives :
      (id qty side t : ℕ)
      → op ≡ insert id (level_price c.price_min c.tick t) qty side
      → t < c.levels
      → side < 2
      → qty < 2 ^ 64
      → id ≡ c.i + 1
      → (In id c.live → ⊥)
      → 0 < id
      → c'.live ≡ c.live ++ (id ∷ [])
      → Legal c op c'
  departs :
      (id : ℕ)
      → (op ≡ cancel id) ⊎ (op ≡ fill id)
      → In id c.live
      → (In id c'.live → ⊥)
      → ((x : ℕ) → x ≢ id → In x c.live → In x c'.live)
      → ((x : ℕ) → In x c'.live → In x c.live)
      → length c'.live + 1 ≡ length c.live
      → Legal c op c'

module _ (xs : List ℕ) (v id x : ℕ)
    (distinct : (j k y : ℕ) → get_elem? xs j ≡ some y → get_elem? xs k ≡ some y → j ≡ k)
    (here : get_elem? xs v ≡ some id) (last : get_elem? xs (length xs - 1) ≡ some x) where
  reads :
      (j : ℕ)
      → get_elem? (swap_remove xs v) j
        ≡ (if ltb j (length xs - 1) then (if v == j then some x else get_elem? xs j) else none)
  reads j = get_elem?-swap_remove xs v j (lt_of_get_elem? xs v here) last

  gone : In id (swap_remove xs v) → ⊥
  gone (j, e) = ground (arith, reads j, distinct v j id here, distinct v (length xs - 1) id here)

  comes_from : (y : ℕ) → In y (swap_remove xs v) → In y xs
  comes_from y (j, e) = elim (Bool-cases (v == j)) [
    | inl h ↦ (length xs - 1, ground (arith, reads j))
    | inr h ↦ (j, ground (arith, reads j))
  ]

  pub stays : (y : ℕ) → y ≢ id → In y xs → In y (swap_remove xs v)
  stays y ne (j, e) = elim (Bool-cases (j == length xs - 1)) [
    | inl h ↦ (v, ground (arith, reads v, lt_of_get_elem? xs v here))
    | inr h ↦ (j, ground (arith, reads j, lt_of_get_elem? xs j e))
  ]

  pub still_distinct :
      (j k y : ℕ)
      → get_elem? (swap_remove xs v) j ≡ some y
      → get_elem? (swap_remove xs v) k ≡ some y
      → j ≡ k
  still_distinct j k y p q = ground (
    arith,
    reads j,
    reads k,
    distinct j k y,
    distinct j (length xs - 1) y,
    distinct k (length xs - 1) y,
  )

abbrev pub is_insert : ChurnOp → Bool
is_insert (insert id price qty side) = true
is_insert (cancel id) = false
is_insert (fill id) = false

-- A successor state of the stream, with what makes it one.
pub record Next (c : Churn) (arrival : Bool) (r : Run Churn ChurnOp) : Type 0 where
  pub op : ChurnOp
  pub c' : Churn
  pub returns : r ≡ ok op c'
  pub stream : IsStream c'
  pub legal : Legal c op c'
  pub kind : is_insert op ≡ arrival
  pub index : c'.i ≡ c.i + 1
  pub ladder : (c'.levels ≡ c.levels) × (c'.tick ≡ c.tick) × (c'.price_min ≡ c.price_min)

pub insert_op-Next :
    (c : Churn) → IsStream c → c.i + 1 < 2 ^ 64 → 0 < c.levels → Next c true (insert_op c)
unfolding insert_op Workload.insert_at
insert_op-Next c s room levels =
    let ins =
      Workload.insert_at (first_draw c.rng) (second_draw c.rng) (first_draw c.rng % c.levels) c.i
        c.tick c.price_min in
    record {
      op = insert ins.order_id ins.price ins.qty ins.side;
      c' = record c {
        rng = after_two c.rng;
        i = add64 c.i 1;
        live = c.live ++ (ins.order_id ∷ []);
      };
      returns = rw (next_insert-ok c.i c.levels c.tick c.price_min c.rng levels) refl;
      stream = record {
        distinct = λ j k x p q. ground (
          arith,
          get_elem?-append c.live (add64 c.i 1) j,
          get_elem?-append c.live (add64 c.i 1) k,
          s.distinct j k x,
          s.low j x,
          s.low k x,
        );
        low = λ j x p. ground (arith, get_elem?-append c.live (add64 c.i 1) j, s.low j x);
        positive = λ j x p. ground (arith, get_elem?-append c.live (add64 c.i 1) j, s.positive j x);
      };
      legal =
          arrives (add64 c.i 1) ins.qty ins.side (first_draw c.rng % c.levels) refl
            (mod-lt (first_draw c.rng) levels) (omega arith) (omega arith) (omega arith)
            (λ (j, e). omega (arith, s.low j _ e)) (omega arith) refl;
      kind = refl;
      index = omega arith;
      ladder = (refl, refl, refl);
    }

departure_cases : (b : Bool) (id : ℕ) → (departure b id ≡ cancel id) ⊎ (departure b id ≡ fill id)
unfolding departure
departure_cases true id = inr refl
departure_cases false id = inl refl

kind_of_departure : (b : Bool) (id : ℕ) → is_insert (departure b id) ≡ false
unfolding departure
kind_of_departure true id = refl
kind_of_departure false id = refl

depart-Next :
    (c : Churn) → IsStream c → c.i + 1 < 2 ^ 64 → 0 < length c.live → Next c false (depart c)
unfolding depart Workload.draw
depart-Next c s room some_live =
    let v = first_draw c.rng % length c.live in
    let lt : v < length c.live = mod-lt (first_draw c.rng) some_live in
    let (id, here) = get_elem?-in_range c.live v lt in
    let (x, last) = get_elem?-in_range c.live (length c.live - 1) (omega arith) in
    let e : (length c.live == 0) ≡ false = ground arith in
    record {
      op = departure (ltb (second_draw c.rng % 10000) c.otr_bps) id;
      c' = record c { rng = after_two c.rng; i = add64 c.i 1; live = swap_remove c.live v };
      returns = rw (e, here) refl;
      stream = record {
        distinct = still_distinct c.live v id x s.distinct here last;
        low = λ j y p.
            let (k, q) = comes_from c.live v id x s.distinct here last y (j, p) in
            omega (arith, s.low k y q);
        positive = λ j y p.
            let (k, q) = comes_from c.live v id x s.distinct here last y (j, p) in s.positive k y q;
      };
      legal =
          departs id (departure_cases _ id) (v, here) (gone c.live v id x s.distinct here last)
            (stays c.live v id x s.distinct here last)
            (comes_from c.live v id x s.distinct here last) (length-swap_remove c.live v lt);
      kind = kind_of_departure _ id;
      index = omega arith;
      ladder = (refl, refl, refl);
    }

-- While the op index has room and there is a level, `next_op` returns. The op is an insert of a
-- new positive id, at the price of a level, where the index is even or no order rests, and else a
-- cancel or a fill of an order that rests. The live list gains or loses exactly that id, the index goes
-- up by one, and the ladder stays.
pub next_op-Next :
    (c : Churn)
    → IsStream c
    → c.i + 1 < 2 ^ 64
    → 0 < c.levels
    → Next c ((c.i % 2 == 0) || (length c.live == 0)) (next_op c)
unfolding next_op
next_op-Next c s room levels = elim (Bool-cases ((c.i % 2 == 0) || (length c.live == 0))) [
  | inl e ↦ rw e (insert_op-Next c s room levels)
  | inr e ↦ rw e (depart-Next c s room (ground arith))
]
