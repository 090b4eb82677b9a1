-- ===== src/Smr/Book/Access.antt =====
-- The reads and writes of the book in range: they return, and change the view at one place.
use hi_perf_cmp.Prelude.{
  ℕ, ◌<◌, ◌%◌, ◌^◌, ◌≡◌, refl, Option, none, some, arith, ◌==◌, ◌&&◌, if◌then◌else◌, set, length,
  length-set, get_elem?-eq-get_or, get_or-set, Bool-cases, inl, inr, Bool, true, false, ltb,
}
use hi_perf_cmp.Prelude.Run.{ok, skip}
use hi_perf_cmp.Prelude.Word.{sub64, div_i64}
use hi_perf_cmp.Smr.Level.{Order, PriceLevel, empty_level, zero_order}
use hi_perf_cmp.Smr.Book.{Book, lane, tick_of, order, order_mut, level, level_mut}
use hi_perf_cmp.Smr.Book.View.{view}

abbrev pub put_order : Book → ℕ → Order → Book
put_order b s o = record b { pool = set b.pool s o }

abbrev pub put_level : Book → ℕ → ℕ → PriceLevel → Book
put_level b side t l = record b {
  bids = if side == 0 then set b.bids t l else b.bids;
  asks = if side == 0 then b.asks else set b.asks t l;
}

-- `place` of the invariants: the level of a price in this book.
unfoldable pub place : ℕ → ℕ → ℕ → Option ℕ
place price_min tick price = elim (div_i64 (sub64 price price_min) tick) [
  | none ↦ none
  | some q ↦ some (q % 2 ^ 32)
]

pub tick_of-ok :
    (b : Book) (price : ℕ) {t : ℕ}
    → place b.price_min b.tick price ≡ some t
    → tick_of price b ≡ ok t b
unfolding place tick_of
tick_of-ok b price h = ground arith

pub order-ok : (b : Book) (s : ℕ) → s < length b.pool → order s b ≡ ok ((view b).at s) b
unfolding order
order-ok b s h = rw (get_elem?-eq-get_or b.pool s zero_order h) refl

pub order_mut-ok :
    (b : Book) (s : ℕ) (f : Order → Order)
    → s < length b.pool
    → order_mut s f b ≡ ok tt (put_order b s (f ((view b).at s)))
unfolding order_mut
order_mut-ok b s f h = rw (get_elem?-eq-get_or b.pool s zero_order h) refl

pub level-ok :
    (b : Book) (side t : ℕ)
    → side < 2
    → t < length (lane side b)
    → level side t b ≡ ok ((view b).level side t) b
unfolding level
level-ok b side t two h =
    let e : ltb side 2 ≡ true = ground arith in
    rw (e, get_elem?-eq-get_or (lane side b) t empty_level h) refl

pub level_mut-ok :
    (b : Book) (side t : ℕ) (f : PriceLevel → PriceLevel)
    → side < 2
    → t < length (lane side b)
    → level_mut side t f b ≡ ok tt (put_level b side t (f ((view b).level side t)))
unfolding level_mut
level_mut-ok b side t f two h =
    let e : ltb side 2 ≡ true = ground arith in
    rw (e, get_elem?-eq-get_or (lane side b) t empty_level h)
      (elim (Bool-cases (side == 0)) [ inl e ↦ rw e refl | inr e ↦ rw e refl ])

pub at-put_order :
    (b : Book) (s j : ℕ) (o : Order)
    → s < length b.pool
    → (view (put_order b s o)).at j ≡ (if s == j then o else (view b).at j)
at-put_order b s j o h = get_or-set b.pool s j o zero_order h

pub level-put_level :
    (b : Book) (side t z u : ℕ) (l : PriceLevel)
    → t < length (lane side b)
    → side < 2
    → (view (put_level b side t l)).level z u
      ≡ (if (side == z) && (t == u) then l else (view b).level z u)
level-put_level b side t z u l h hs =
    ground (arith, get_or-set b.bids t u l empty_level, get_or-set b.asks t u l empty_level)

-- A write under a test.
abbrev pub put_order_if : Bool → Book → ℕ → Order → Book
put_order_if c b s o = record b { pool = if c then set b.pool s o else b.pool }

pub order_mut_if-ok :
    (c : Bool) (b : Book) (s : ℕ) (f : Order → Order)
    → (c ≡ true → s < length b.pool)
    → (if c then order_mut s f else skip) b ≡ ok tt (put_order_if c b s (f ((view b).at s)))
order_mut_if-ok true b s f h = order_mut-ok b s f (h refl)
order_mut_if-ok false b s f h = refl

pub length-put_order_if :
    (c : Bool) (b : Book) (s : ℕ) (o : Order) → length (put_order_if c b s o).pool ≡ length b.pool
length-put_order_if true b s o = length-set b.pool s o
length-put_order_if false b s o = refl

pub at-put_order_if :
    (c : Bool) (b : Book) (s j : ℕ) (o : Order)
    → (c ≡ true → s < length b.pool)
    → (view (put_order_if c b s o)).at j ≡ (if c && (s == j) then o else (view b).at j)
at-put_order_if true b s j o h = at-put_order b s j o (h refl)
at-put_order_if false b s j o h = refl

pub lengths-put_level :
    (b : Book) (side t : ℕ) (l : PriceLevel)
    → (length (put_level b side t l).bids ≡ length b.bids)
      × (length (put_level b side t l).asks ≡ length b.asks)
lengths-put_level b side t l = elim (Bool-cases (side == 0)) [
  | inl e ↦ rw e (length-set b.bids t l, refl)
  | inr e ↦ rw e (refl, length-set b.asks t l)
]
