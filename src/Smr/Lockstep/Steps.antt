-- ===== src/Smr/Lockstep/Steps.antt =====
-- Each operation of the copy-on-write book agrees with the flat book's.
use hi_perf_cmp.Prelude.{ℕ, zero, suc, ◌+◌, ◌-◌, ◌≡◌, refl, ap, ◌==◌, ◌&&◌, ◌||◌, not}
use hi_perf_cmp.Prelude.Run.{gets, modify}
use hi_perf_cmp.Prelude.Word.{lt_i32, add32, add64, sub64, min_i64}
use hi_perf_cmp.Prelude.Lockstep.{Sim, bind-Sim, then-Sim, pure-Sim, panic-Sim, unwrap-Sim, if-Sim}
use hi_perf_cmp.Smr.Level.{nil, put_id, remove_id, IdMap}
use hi_perf_cmp.Smr.Book
use hi_perf_cmp.Smr.CowBook
use hi_perf_cmp.Smr.CowBook.{CowBook}
use hi_perf_cmp.Smr.Book.{Book}
use hi_perf_cmp.Smr.Lockstep.{Shows}
use hi_perf_cmp.Smr.Lockstep.Access.{
  gets-Sim, modify-Sim, order-Sim, order_mut-Sim, level-Sim, level_mut-Sim, tick_of-Sim,
}

-- A write of the scalars that the operations change.
with_scalars :
    {w : CowBook} {b : Book} {n n' p p' a a' f f' : ℕ} {m m' : IdMap}
    → Shows w b
    → n ≡ n'
    → p ≡ p'
    → a ≡ a'
    → f ≡ f'
    → m ≡ m'
    → Shows
        (record w { hwm = n; best_bid = p; best_ask = a; free_head = f; idmap = m })
        (record b { hwm = n'; best_bid = p'; best_ask = a'; free_head = f'; idmap = m' })
with_scalars r hn hp ha hf hm = record {
  price_min = r.price_min;
  tick = r.tick;
  n_levels = r.n_levels;
  capacity = r.capacity;
  hwm = hn;
  best_bid = hp;
  best_ask = ha;
  free_head = hf;
  idmap = hm;
  orders = r.orders;
  bids = r.bids;
  asks = r.asks;
  orders_owned = r.orders_owned;
  bids_owned = r.bids_owned;
  asks_owned = r.asks_owned;
}

set_free_head :
    (h : ℕ)
    → Sim Shows
        (modify (λ b. record b { free_head = h }))
        (modify (λ b. record b { free_head = h }))
set_free_head h = modify-Sim _ _ λ w b r. with_scalars r r.hwm r.best_bid r.best_ask refl r.idmap

set_best_bid :
    (h : ℕ)
    → Sim Shows (modify (λ b. record b { best_bid = h })) (modify (λ b. record b { best_bid = h }))
set_best_bid h = modify-Sim _ _ λ w b r. with_scalars r r.hwm refl r.best_ask r.free_head r.idmap

set_best_ask :
    (h : ℕ)
    → Sim Shows (modify (λ b. record b { best_ask = h })) (modify (λ b. record b { best_ask = h }))
set_best_ask h = modify-Sim _ _ λ w b r. with_scalars r r.hwm r.best_bid refl r.free_head r.idmap

alloc_slot-Sim : Sim Shows CowBook.alloc_slot Book.alloc_slot
unfolding CowBook.alloc_slot Book.alloc_slot
alloc_slot-Sim = bind-Sim (gets-Sim _ _ λ w b r. r.free_head) λ head.
    if-Sim (not (head == nil))
      (bind-Sim (order-Sim head) λ o. then-Sim (set_free_head o.next) (pure-Sim head))
      (bind-Sim (gets-Sim _ _ λ w b r. r.hwm) λ slot.
        bind-Sim (gets-Sim _ _ λ w b r. r.capacity) λ cap. if-Sim (slot == cap) panic-Sim (
          then-Sim
            (modify-Sim _ _ λ w b r.
              with_scalars r (ap (λ n. add32 n 1) r.hwm) r.best_bid r.best_ask r.free_head r.idmap)
            (pure-Sim slot)))

free_slot-Sim : (slot : ℕ) → Sim Shows (CowBook.free_slot slot) (Book.free_slot slot)
unfolding CowBook.free_slot Book.free_slot
free_slot-Sim slot =
    bind-Sim (gets-Sim _ _ λ w b r. r.free_head)
      λ head. then-Sim (order_mut-Sim slot _) (set_free_head slot)

raise_best-Sim : (side t : ℕ) → Sim Shows (CowBook.raise_best side t) (Book.raise_best side t)
unfolding CowBook.raise_best Book.raise_best
raise_best-Sim side t = bind-Sim (gets-Sim _ _ λ w b r. r.best_bid) λ bid.
    then-Sim (if-Sim ((side == 0) && (lt_i32 bid 0 || lt_i32 bid t)) (set_best_bid t) (pure-Sim tt))
      (bind-Sim (gets-Sim _ _ λ w b r. r.best_ask) λ ask.
        if-Sim ((side == 1) && (lt_i32 ask 0 || lt_i32 t ask)) (set_best_ask t) (pure-Sim tt))

-- `CowBook::insert` and `Book::insert`.
pub insert-Sim :
    (order_id price qty side : ℕ)
    → Sim Shows (CowBook.insert order_id price qty side) (Book.insert order_id price qty side)
unfolding CowBook.insert Book.insert
insert-Sim order_id price qty side = bind-Sim (tick_of-Sim price) λ t.
    bind-Sim alloc_slot-Sim λ slot. bind-Sim (level-Sim side t) λ l.
      then-Sim (order_mut-Sim slot _) (
        then-Sim (level_mut-Sim side t _) (
          then-Sim (if-Sim _ (order_mut-Sim l.tail _) (pure-Sim tt)) (
            then-Sim
              (modify-Sim _ _ λ w b r.
                with_scalars r r.hwm r.best_bid r.best_ask r.free_head
                  (ap (λ m. put_id m order_id slot) r.idmap))
              (raise_best-Sim side t))))

get_id-Sim :
    (order_id : ℕ) → Sim Shows (gets (λ b. b.idmap order_id)) (gets (λ b. b.idmap order_id))
get_id-Sim order_id = gets-Sim _ _ λ w b r. ap (λ m. m order_id) r.idmap

pub update-Sim :
    (order_id fill_qty : ℕ)
    → Sim Shows (CowBook.update order_id fill_qty) (Book.update order_id fill_qty)
unfolding CowBook.update Book.update
update-Sim order_id fill_qty = bind-Sim (get_id-Sim order_id) λ id. bind-Sim (unwrap-Sim id) λ slot.
    bind-Sim (order-Sim slot) λ o.
      let add = min_i64 fill_qty (sub64 o.qty o.filled) in
      then-Sim (order_mut-Sim slot (λ p. record p { filled = add64 p.filled add })) (
        bind-Sim (tick_of-Sim o.price)
          λ t. level_mut-Sim o.side t (λ lvl. record lvl { qty_total = sub64 lvl.qty_total add }))

pub get_slot-Sim : (order_id : ℕ) → Sim Shows (CowBook.get_slot order_id) (Book.get_slot order_id)
unfolding CowBook.get_slot Book.get_slot
get_slot-Sim order_id = bind-Sim (get_id-Sim order_id) λ id. unwrap-Sim id

pub level_qty-Sim : (side t : ℕ) → Sim Shows (CowBook.level_qty side t) (Book.level_qty side t)
unfolding CowBook.level_qty Book.level_qty
level_qty-Sim side t = bind-Sim (level-Sim side t) λ l. pure-Sim _

unlink-Sim :
    (slot side t rem : ℕ) → Sim Shows (CowBook.unlink slot side t rem) (Book.unlink slot side t rem)
unfolding CowBook.unlink Book.unlink
unlink-Sim slot side t rem = bind-Sim (order-Sim slot) λ o.
    then-Sim (if-Sim _ (order_mut-Sim o.prev _) (pure-Sim tt))
      (then-Sim (if-Sim _ (order_mut-Sim o.next _) (pure-Sim tt)) (level_mut-Sim side t _))

scan_down-Sim : (i : ℕ) → Sim Shows (CowBook.scan_down i) (Book.scan_down i)
unfolding CowBook.scan_down Book.scan_down
scan_down-Sim zero = bind-Sim (level-Sim 0 0) λ l. pure-Sim _
scan_down-Sim (suc i) = bind-Sim (level-Sim 0 (suc i)) λ l. if-Sim _ (pure-Sim _) (scan_down-Sim i)

scan_up-Sim : (rounds i : ℕ) → Sim Shows (CowBook.scan_up rounds i) (Book.scan_up rounds i)
unfolding CowBook.scan_up Book.scan_up
scan_up-Sim zero i = pure-Sim _
scan_up-Sim (suc rounds) i =
    bind-Sim (level-Sim 1 i) λ l. if-Sim _ (pure-Sim _) (scan_up-Sim rounds (i + 1))

repair_best-Sim : (side t : ℕ) → Sim Shows (CowBook.repair_best side t) (Book.repair_best side t)
unfolding CowBook.repair_best Book.repair_best
repair_best-Sim side t =
    if-Sim (side == 0)
      (bind-Sim (gets-Sim _ _ λ w b r. r.best_bid) λ best. if-Sim _ (pure-Sim tt) (
        bind-Sim (level-Sim 0 t)
          λ l. if-Sim _ (pure-Sim tt) (bind-Sim (scan_down-Sim t) λ nb. set_best_bid nb)))
      (bind-Sim (gets-Sim _ _ λ w b r. r.best_ask) λ best. if-Sim _ (pure-Sim tt) (
        bind-Sim (level-Sim 1 t) λ l. if-Sim _ (pure-Sim tt) (
          bind-Sim (gets-Sim _ _ λ w b r. r.n_levels)
            λ n. bind-Sim (scan_up-Sim (n - t) t) λ na. set_best_ask na)))

remove_order-Sim :
    (slot side price rem : ℕ)
    → Sim Shows (CowBook.remove_order slot side price rem) (Book.remove_order slot side price rem)
unfolding CowBook.remove_order Book.remove_order
remove_order-Sim slot side price rem = bind-Sim (tick_of-Sim price) λ t.
    then-Sim (unlink-Sim slot side t rem) (then-Sim (free_slot-Sim slot) (repair_best-Sim side t))

take_id-Sim : (order_id : ℕ) → Sim Shows (CowBook.take_id order_id) (Book.take_id order_id)
unfolding CowBook.take_id Book.take_id
take_id-Sim order_id = bind-Sim (get_id-Sim order_id) λ id. bind-Sim (unwrap-Sim id) λ slot.
    then-Sim
      (modify-Sim _ _ λ w b r.
        with_scalars r r.hwm r.best_bid r.best_ask r.free_head
          (ap (λ m. remove_id m order_id) r.idmap))
      (pure-Sim slot)

pub cancel-Sim : (order_id : ℕ) → Sim Shows (CowBook.cancel order_id) (Book.cancel order_id)
unfolding CowBook.cancel Book.cancel
cancel-Sim order_id =
    bind-Sim (take_id-Sim order_id)
      λ slot. bind-Sim (order-Sim slot) λ o. remove_order-Sim slot o.side o.price _

pub fill-Sim : (order_id : ℕ) → Sim Shows (CowBook.fill order_id) (Book.fill order_id)
unfolding CowBook.fill Book.fill
fill-Sim order_id = bind-Sim (take_id-Sim order_id) λ slot.
    bind-Sim (order-Sim slot)
      λ o. then-Sim (order_mut-Sim slot _) (remove_order-Sim slot o.side o.price _)
