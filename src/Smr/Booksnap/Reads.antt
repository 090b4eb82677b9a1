-- ===== src/Smr/Booksnap/Reads.antt =====
-- What the reads of a snapshot find among the bytes written.
use hi_perf_cmp.Prelude.{
  ℕ, zero, suc, ◌+◌, ◌*◌, ◌/◌, ◌%◌, ◌^◌, ◌<◌, ◌≡◌, refl, ap, ◌∙◌, arith, true, List, [], ◌∷◌, ◌++◌,
  some, length, length-append, take, leb, get_elem?,
}
use hi_perf_cmp.Smr.Booksnap.{
  Side, bid, ask, null_val, LevelEntry, OrderEntry, to_le_bytes, from_le_bytes, get_bytes_at,
  get_word_at, side_byte, side_from, get_level, get_order,
}
use hi_perf_cmp.Smr.Booksnap.Writes.{level_bytes, order_bytes, drop-append}

-- One more than the greatest word of `n` bytes.
abbrev pub size : ℕ → ℕ
size zero = 1
size (suc n) = 256 * size n

pub from_le_bytes-to_le_bytes : (n v : ℕ) → v < size n → from_le_bytes (to_le_bytes n v) ≡ v
from_le_bytes-to_le_bytes zero v h = omega arith
from_le_bytes-to_le_bytes (suc n) v h =
    omega (arith, from_le_bytes-to_le_bytes n (v / 256) (below (size n) v h))
  where
    below : (s v : ℕ) → v < 256 * s → v / 256 < s
    below s v h = omega arith

-- A read behind bytes that are passed over.
get_bytes_at-append :
    (n i k : ℕ) (w r : List ℕ) → i ≡ length w + k → get_bytes_at n i (w ++ r) ≡ get_bytes_at n k r
unfolding get_bytes_at
get_bytes_at-append n i k w r h = rw (h, drop-append w r k) (ground (arith, length-append w r))

get_elem?-append_at :
    (i k : ℕ) (w r : List ℕ) → i ≡ length w + k → get_elem? (w ++ r) i ≡ get_elem? r k
get_elem?-append_at i k [] r h = ap (get_elem? r) (omega arith)
get_elem?-append_at zero k (x ∷ w) r h = absurd (omega arith)
get_elem?-append_at (suc i) k (x ∷ w) r h = get_elem?-append_at i k w r (omega arith)

-- A word that starts the bytes.
get_word_at-first :
    (n v : ℕ) (r : List ℕ) → v < size n → get_word_at n 0 (to_le_bytes n v ++ r) ≡ some v
unfolding get_word_at get_bytes_at
get_word_at-first n v r h = rw (short, first n v r, from_le_bytes-to_le_bytes n v h) refl
  where
    first : (n v : ℕ) (r : List ℕ) → take n (to_le_bytes n v ++ r) ≡ to_le_bytes n v
    first zero v r = refl
    first (suc n) v r = ap (λ l. v % 256 ∷ l) (first n (v / 256) r)

    wide : (n v : ℕ) → length (to_le_bytes n v) ≡ n
    wide zero v = refl
    wide (suc n) v = ap suc (wide n (v / 256))

    short : leb (0 + n) (length (to_le_bytes n v ++ r)) ≡ true
    short = ground (arith, length-append (to_le_bytes n v) r, wide n v)

skipped : (n i : ℕ) (w r : List ℕ) → i ≡ length w → get_word_at n i (w ++ r) ≡ get_word_at n 0 r
unfolding get_word_at
skipped n i w r h = rw (get_bytes_at-append n i 0 w r (omega arith)) refl

-- A word behind bytes that are passed over.
pub get_word_at-append :
    (n i v : ℕ) (w r : List ℕ)
    → i ≡ length w
    → v < size n
    → get_word_at n i (w ++ (to_le_bytes n v ++ r)) ≡ some v
get_word_at-append n i v w r h fits =
    skipped n i w (to_le_bytes n v ++ r) h ∙ get_word_at-first n v r fits

pub side_from-side_byte : (s : Side) → side_from (side_byte s % 256) ≡ s
unfolding side_from side_byte
side_from-side_byte bid = refl
side_from-side_byte ask = refl
side_from-side_byte null_val = refl

-- The entry of a level, and of an order, whose fields fit their words.
pub record IsLevelEntry (e : LevelEntry) : Type 0 where
  pub level_tick : e.level_tick < 2 ^ 32
  pub qty_total : e.qty_total < 2 ^ 64
  pub order_count : e.order_count < 2 ^ 32
  pub head : e.head < 2 ^ 32
  pub tail : e.tail < 2 ^ 32

pub record IsOrderEntry (e : OrderEntry) : Type 0 where
  pub slot : e.slot < 2 ^ 32
  pub order_id : e.order_id < 2 ^ 64
  pub price : e.price < 2 ^ 64
  pub qty : e.qty < 2 ^ 64
  pub filled : e.filled < 2 ^ 64
  pub next_slot : e.next_slot < 2 ^ 32
  pub prev : e.prev < 2 ^ 32

-- A word read at `i + k`, behind `w` and then `k` bytes.
word_at :
    (n v i k j : ℕ) (w x r : List ℕ)
    → i ≡ length w
    → k ≡ length x
    → i + k ≡ j
    → v < size n
    → get_word_at n j (w ++ (x ++ (to_le_bytes n v ++ r))) ≡ some v
unfolding get_word_at
word_at n v i k j w x r h m e fits =
    rw (get_bytes_at-append n j k w (x ++ (to_le_bytes n v ++ r)) (omega arith))
      (get_word_at-append n k v x r m fits)

pub get_level-level_bytes :
    (e : LevelEntry) (i : ℕ) (w r : List ℕ)
    → IsLevelEntry e
    → i ≡ length w
    → get_level i (w ++ (level_bytes e ++ r)) ≡ some e
unfolding get_level
get_level-level_bytes e i w r f h =
    let b0 = to_le_bytes 1 (side_byte e.side) in
    let b1 = b0 ++ to_le_bytes 4 e.level_tick in
    let b2 = b1 ++ to_le_bytes 8 e.qty_total in
    let b3 = b2 ++ to_le_bytes 4 e.order_count in
    let b4 = b3 ++ to_le_bytes 4 e.head in
    let a4 = to_le_bytes 4 e.tail ++ r in
    let a3 = to_le_bytes 4 e.head ++ a4 in
    let a2 = to_le_bytes 4 e.order_count ++ a3 in
    let a1 = to_le_bytes 8 e.qty_total ++ a2 in
    rw
      (
        get_elem?-append_at i 0 w (level_bytes e ++ r) (omega arith),
        word_at 4 e.level_tick i 1 (i + 1) w b0 a1 h refl refl f.level_tick,
        word_at 8 e.qty_total i 5 (i + 5) w b1 a2 h refl refl f.qty_total,
        word_at 4 e.order_count i 13 (i + 13) w b2 a3 h refl refl f.order_count,
        word_at 4 e.head i 17 (i + 17) w b3 a4 h refl refl f.head,
        word_at 4 e.tail i 21 (i + 21) w b4 r h refl refl f.tail,
      )
      (ap (λ z. some (record e { side = z })) (side_from-side_byte e.side))

pub get_order-order_bytes :
    (e : OrderEntry) (i : ℕ) (w r : List ℕ)
    → IsOrderEntry e
    → i ≡ length w
    → get_order i (w ++ (order_bytes e ++ r)) ≡ some e
unfolding get_order
get_order-order_bytes e i w r f h =
    let b0 = to_le_bytes 4 e.slot in
    let b1 = b0 ++ to_le_bytes 8 e.order_id in
    let b2 = b1 ++ to_le_bytes 8 e.price in
    let b3 = b2 ++ to_le_bytes 8 e.qty in
    let b4 = b3 ++ to_le_bytes 8 e.filled in
    let b5 = b4 ++ to_le_bytes 1 (side_byte e.side) in
    let b6 = b5 ++ to_le_bytes 4 e.next_slot in
    let a6 = to_le_bytes 4 e.prev ++ r in
    let a5 = to_le_bytes 4 e.next_slot ++ a6 in
    let a4 = to_le_bytes 1 (side_byte e.side) ++ a5 in
    let a3 = to_le_bytes 8 e.filled ++ a4 in
    let a2 = to_le_bytes 8 e.qty ++ a3 in
    let a1 = to_le_bytes 8 e.price ++ a2 in
    let a0 = to_le_bytes 8 e.order_id ++ a1 in
    rw
      (
        word_at 4 e.slot i 0 i w [] a0 h refl (omega arith) f.slot,
        word_at 8 e.order_id i 4 (i + 4) w b0 a1 h refl refl f.order_id,
        word_at 8 e.price i 12 (i + 12) w b1 a2 h refl refl f.price,
        word_at 8 e.qty i 20 (i + 20) w b2 a3 h refl refl f.qty,
        word_at 8 e.filled i 28 (i + 28) w b3 a4 h refl refl f.filled,
        get_elem?-append_at (i + 36) 36 w (order_bytes e ++ r) (omega arith),
        word_at 4 e.next_slot i 37 (i + 37) w b5 a6 h refl refl f.next_slot,
        word_at 4 e.prev i 41 (i + 41) w b6 r h refl refl f.prev,
      )
      (ap (λ z. some (record e { side = z })) (side_from-side_byte e.side))
