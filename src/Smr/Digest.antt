-- ===== src/Smr/Digest.antt =====
-- rust/smr-collections/common/src/digest.rs: the canonical bytes of a book, from the flat book or from
-- a captured root. `none` is a panic on an index out of range. The walk along a level is on fuel.
pub mod Same
pub mod Total
use hi_perf_cmp.Prelude.{
  ℕ, zero, suc, ◌+◌, ◌/◌, ◌%◌, ◌^◌, List, [], ◌∷◌, ◌++◌, Option, none, some, Bool, ◌==◌, ◌&&◌, ◌||◌,
  if◌then◌else◌, length, get_elem?,
}
use hi_perf_cmp.Prelude.Partial.{◌>>=◌}
use hi_perf_cmp.Prelude.Word.{lt_i64}
use hi_perf_cmp.Smr.Level.{nil, Order, PriceLevel}
use hi_perf_cmp.Smr.Book
use hi_perf_cmp.Smr.CowBook.{CowBook, Root, root_order, root_level}

-- `to_le_bytes`, of `n` bytes
unfoldable pub le_bytes : ℕ → ℕ → List ℕ
le_bytes zero x = []
le_bytes (suc n) x = x % 256 ∷ le_bytes n (x / 256)

pub record Live : Type 0 where
  pub order_id : ℕ  -- i64
  pub price : ℕ  -- i64
  pub qty : ℕ  -- i64
  pub filled : ℕ  -- i64
  pub side : ℕ  -- u8

unfoldable pub put_level : ℕ → ℕ → ℕ → ℕ → List ℕ
put_level side tick qty_total count =
    side ∷ (le_bytes 4 tick ++ (le_bytes 8 qty_total ++ le_bytes 4 count))

unfoldable pub put_order : Live → List ℕ
put_order o =
    le_bytes 8 o.order_id
    ++ (le_bytes 8 o.price ++ (le_bytes 8 o.qty ++ (le_bytes 8 o.filled ++ (o.side ∷ []))))

-- The order of tuples, and `sort_unstable` by it. Equal tuples are the same bytes.
unfoldable pub before : Live → Live → Bool
before x y =
    lt_i64 x.order_id y.order_id
    || ((x.order_id == y.order_id)
        && (lt_i64 x.price y.price
            || ((x.price == y.price)
                && (lt_i64 x.qty y.qty
                    || ((x.qty == y.qty)
                        && (lt_i64 x.filled y.filled
                            || ((x.filled == y.filled) && lt_i64 x.side y.side)))))))

unfoldable pub sort_in : Live → List Live → List Live
sort_in x [] = x ∷ []
sort_in x (y ∷ ys) = let rest = sort_in x ys in if before y x then y ∷ rest else x ∷ y ∷ ys

unfoldable pub sort : List Live → List Live
sort [] = []
sort (x ∷ xs) = sort_in x (sort xs)

unfoldable pub put_orders : List Live → List ℕ
put_orders [] = []
put_orders (x ∷ xs) = put_order x ++ put_orders xs

-- The loop over the slots below `hwm`, on a read of the pool.
unfoldable pub live_orders : (ℕ → Option Order) → ℕ → Option (List Live)
live_orders read zero = some []
live_orders read (suc n) = do
  xs ← live_orders read n
  o ← read n
  some (
      if o.order_id == 0
      then xs
      else xs
        ++ (record {
          order_id = o.order_id;
          price = o.price;
          qty = o.qty;
          filled = o.filled;
          side = o.side;
        }
            ∷ []))

-- `while s != NIL`: the ids along a level.
unfoldable pub walk : (ℕ → Option Order) → ℕ → ℕ → Option (List ℕ)
walk read zero s = none
walk read (suc fuel) s =
    let rest = λ (o : Order). walk read fuel o.next in
    if s == nil then some [] else (do o ← read s; ids ← rest o; some (le_bytes 8 o.order_id ++ ids))

unfoldable pub digest_level : (ℕ → Option Order) → ℕ → ℕ → ℕ → PriceLevel → Option (List ℕ)
digest_level read fuel side t lvl = if lvl.head == nil then some [] else (do
  ids ← walk read fuel lvl.head
  some (put_level side (t % 2 ^ 32) lvl.qty_total lvl.count ++ ids))

-- `for (t, lvl) in lane.iter().enumerate()`
unfoldable pub digest_lane : (ℕ → Option Order) → ℕ → ℕ → ℕ → List PriceLevel → Option (List ℕ)
digest_lane read fuel side t [] = some []
digest_lane read fuel side t (lvl ∷ lane) = do
  xs ← digest_level read fuel side t lvl
  ys ← digest_lane read fuel side (t + 1) lane
  some (xs ++ ys)

-- `for t in 0..r.n_levels`
unfoldable pub digest_range :
    (ℕ → Option Order) → (ℕ → Option PriceLevel) → ℕ → ℕ → ℕ → ℕ → Option (List ℕ)
digest_range read level fuel side t zero = some []
digest_range read level fuel side t (suc n) = do
  lvl ← level t
  xs ← digest_level read fuel side t lvl
  ys ← digest_range read level fuel side (t + 1) n
  some (xs ++ ys)

unfoldable pub digest_book : ℕ → Book.Book → Option (List ℕ)
digest_book fuel b = do
  live ← live_orders (get_elem? b.pool) b.hwm
  bids ← digest_lane (get_elem? b.pool) fuel 0 0 b.bids
  asks ← digest_lane (get_elem? b.pool) fuel 1 0 b.asks
  some (
      le_bytes 4 b.best_bid
      ++ (le_bytes 4 b.best_ask
          ++ (le_bytes 4 (length live % 2 ^ 32) ++ (bids ++ (asks ++ put_orders (sort live))))))

-- The root's chunks are in the arenas of `w`.
unfoldable pub digest_root : ℕ → Root → CowBook → Option (List ℕ)
digest_root fuel r w = do
  live ← live_orders (root_order r w) r.hwm
  bids ← digest_range (root_order r w) (root_level r w 0) fuel 0 0 r.n_levels
  asks ← digest_range (root_order r w) (root_level r w 1) fuel 1 0 r.n_levels
  some (
      le_bytes 4 r.best_bid
      ++ (le_bytes 4 r.best_ask
          ++ (le_bytes 4 (length live % 2 ^ 32) ++ (bids ++ (asks ++ put_orders (sort live))))))
