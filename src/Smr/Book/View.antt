-- ===== src/Smr/Book/View.antt =====
-- The book as functions: slot to order, side and level to price level. Out of range stand the empty
-- values, which are not resting orders.
use hi_perf_cmp.Prelude.{
  ℕ, ◌+◌, ◌≤◌, ◌<◌, ◌≡◌, ◌≢◌, arith, Option, some, ◌==◌, ◌&&◌, not, if◌then◌else◌, get_or, ltb,
  length,
}
use native.Mathlib.Decide.{dec_lt}
use hi_perf_cmp.Prelude.Word.{add64, sub64, add32, sub32}
use hi_perf_cmp.Smr.Level.{
  nil, Order, PriceLevel, empty_level, zero_order, IdMap, put_id, remove_id,
}
use hi_perf_cmp.Smr.Book.{Book, lane}

pub record View : Type 0 where
  pub at : ℕ → Order
  pub level : ℕ → ℕ → PriceLevel
  pub cap : ℕ
  pub hwm : ℕ
  pub free_head : ℕ
  pub idmap : IdMap

abbrev pub view : Book → View
view b = record {
  at = λ slot. get_or b.pool slot zero_order;
  level = λ side t. if ltb side 2 then get_or (lane side b) t empty_level else empty_level;
  cap = length b.pool;
  hwm = b.hwm;
  free_head = b.free_head;
  idmap = b.idmap;
}

abbrev pub Rests : View → ℕ → Type 0
Rests v s = (v.at s).order_id ≢ 0

-- What places the slots: the level of each resting order, and its number of arrival.
pub record Ghost : Type 0 where
  pub lev : ℕ → ℕ
  pub age : ℕ → ℕ
  pub clock : ℕ

-- The links, the id-map and the free list of a book with `n` levels, where `place` takes a price to
-- its level. Along the `next` links of a level the arrivals go up.
pub record IsLinked (place : ℕ → Option ℕ) (n : ℕ) (g : Ghost) (v : View) : Type 0 where
  pub cap : v.cap ≤ nil
  pub hwm_le : v.hwm ≤ v.cap
  pub fresh : (s : ℕ) → v.hwm ≤ s → (v.at s).order_id ≡ 0
  pub id_rests : (id s : ℕ) → v.idmap id ≡ some s → ((v.at s).order_id ≡ id) × (id ≢ 0)
  pub rests_id : (s : ℕ) → Rests v s → v.idmap (v.at s).order_id ≡ some s
  pub side : (s : ℕ) → Rests v s → (v.at s).side < 2
  pub placed : (s : ℕ) → Rests v s → (place (v.at s).price ≡ some (g.lev s)) × (g.lev s < n)
  pub age : (s : ℕ) → Rests v s → g.age s < g.clock
  pub next :
      (s : ℕ)
      → Rests v s
      → (v.at s).next ≢ nil
      → Rests v (v.at s).next
        × ((v.at (v.at s).next).prev ≡ s)
        × ((v.at (v.at s).next).side ≡ (v.at s).side)
        × (g.lev (v.at s).next ≡ g.lev s)
        × (g.age s < g.age (v.at s).next)
  pub prev :
      (s : ℕ)
      → Rests v s
      → (v.at s).prev ≢ nil
      → Rests v (v.at s).prev × ((v.at (v.at s).prev).next ≡ s)
  pub tail : (s : ℕ) → Rests v s → (v.at s).next ≡ nil → (v.level (v.at s).side (g.lev s)).tail ≡ s
  pub head : (s : ℕ) → Rests v s → (v.at s).prev ≡ nil → (v.level (v.at s).side (g.lev s)).head ≡ s
  pub level_head :
      (side t : ℕ)
      → side < 2
      → t < n
      → (v.level side t).head ≢ nil
      → Rests v (v.level side t).head
        × ((v.at (v.level side t).head).side ≡ side)
        × (g.lev (v.level side t).head ≡ t)
        × ((v.at (v.level side t).head).prev ≡ nil)
  pub level_tail :
      (side t : ℕ)
      → side < 2
      → t < n
      → (v.level side t).tail ≢ nil
      → Rests v (v.level side t).tail
        × ((v.at (v.level side t).tail).side ≡ side)
        × (g.lev (v.level side t).tail ≡ t)
        × ((v.at (v.level side t).tail).next ≡ nil)
  pub ends :
      (side t : ℕ)
      → side < 2
      → t < n
      → ((v.level side t).head ≡ nil → (v.level side t).tail ≡ nil)
        × ((v.level side t).tail ≡ nil → (v.level side t).head ≡ nil)
  pub free_head : v.free_head ≢ nil → ((v.at v.free_head).order_id ≡ 0) × (v.free_head < v.hwm)
  pub free_next :
      (s : ℕ)
      → s < v.hwm
      → (v.at s).order_id ≡ 0
      → (v.at s).next ≢ nil
      → ((v.at (v.at s).next).order_id ≡ 0)
        × ((v.at s).next < v.hwm)
        × ((v.at s).next ≢ v.free_head)
  pub free_inj :
      (s r : ℕ)
      → s < v.hwm
      → r < v.hwm
      → (v.at s).order_id ≡ 0
      → (v.at r).order_id ≡ 0
      → (v.at s).next ≡ (v.at r).next
      → (v.at s).next ≢ nil
      → s ≡ r

-- `insert` into level `t`, with the slot that it got.
module _ (v : View) (slot id price qty side t : ℕ) where
  abbrev pub old_tail : ℕ
  old_tail = (v.level side t).tail

  abbrev pub arrival : Order
  arrival = record {
    order_id = id;
    price = price;
    qty = qty;
    filled = 0;
    next = nil;
    prev = (v.level side t).tail;
    side = side;
  }

  abbrev pub longer : PriceLevel
  longer = record {
    head = if (v.level side t).tail == nil then slot else (v.level side t).head;
    tail = slot;
    qty_total = add64 (v.level side t).qty_total qty;
    count = add32 (v.level side t).count 1;
  }

  abbrev pub at_inserted : ℕ → Order
  at_inserted j =
      if slot == j
      then arrival
      else if not ((v.level side t).tail == nil) && ((v.level side t).tail == j)
      then record (v.at j) { next = slot }
      else v.at j

  abbrev pub level_inserted : ℕ → ℕ → PriceLevel
  level_inserted s u = if (side == s) && (t == u) then longer else v.level s u

  abbrev pub inserted : ℕ → ℕ → View
  inserted hwm free_head = record {
    at = at_inserted;
    level = level_inserted;
    cap = v.cap;
    hwm = hwm;
    free_head = free_head;
    idmap = put_id v.idmap id slot;
  }

-- `cancel` and `fill` of the order in `slot`, which stands on level `t`. The freed slot keeps
-- `filled` of its order.
module _ (v : View) (slot t rem filled : ℕ) where
  abbrev pub freed : Order
  freed = record (v.at slot) { order_id = 0; next = v.free_head; prev = nil; filled = filled }

  abbrev pub relinked : ℕ → Order
  relinked j = record (v.at j) {
    next =
        if not ((v.at slot).prev == nil) && ((v.at slot).prev == j)
        then (v.at slot).next
        else (v.at j).next;
    prev =
        if not ((v.at slot).next == nil) && ((v.at slot).next == j)
        then (v.at slot).prev
        else (v.at j).prev;
  }

  abbrev pub at_removed : ℕ → Order
  at_removed j = if slot == j then freed else relinked j

  abbrev pub shorter : PriceLevel
  shorter =
      let l = v.level (v.at slot).side t in
      record {
        head = if l.head == slot then (v.at slot).next else l.head;
        tail = if l.tail == slot then (v.at slot).prev else l.tail;
        qty_total = sub64 l.qty_total rem;
        count = sub32 l.count 1;
      }

  abbrev pub level_removed : ℕ → ℕ → PriceLevel
  level_removed s u = if ((v.at slot).side == s) && (t == u) then shorter else v.level s u

  abbrev pub removed : View
  removed = record {
    at = at_removed;
    level = level_removed;
    cap = v.cap;
    hwm = v.hwm;
    free_head = slot;
    idmap = remove_id v.idmap (v.at slot).order_id;
  }

abbrev pub set_fun : (ℕ → ℕ) → ℕ → ℕ → ℕ → ℕ
set_fun f k x j = if k == j then x else f j

abbrev pub arrived : Ghost → ℕ → ℕ → Ghost
arrived g slot t = record {
  lev = set_fun g.lev slot t;
  age = set_fun g.age slot g.clock;
  clock = g.clock + 1;
}

-- Only slots in use rest, and nil is none of them.
pub rests_lt :
    {place : ℕ → Option ℕ} {n : ℕ} {g : Ghost} {v : View}
    → IsLinked place n g v
    → (s : ℕ) → Rests v s
    → (s < v.hwm) × (s < nil)
rests_lt {v} w s h = elim (dec_lt s v.hwm) [
  | yes lt ↦ (lt, omega (arith, w.cap, w.hwm_le))
  | no le ↦ absurd (h (w.fresh s (omega arith)))
]
