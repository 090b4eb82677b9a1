-- ===== src/Smr/Lockstep/Access.antt =====
-- The two books' reads and writes of one order, one level and the scalars.
use hi_perf_cmp.Prelude.{
  ℕ, ◌≡◌, refl, sym, ◌∙◌, Option, inl, inr, ◌==◌, get_elem?, get_elem?-set, length-set, Bool-cases,
  Option-cases,
}
use hi_perf_cmp.Prelude.Run.{gets, modify, unwrap}
use hi_perf_cmp.Prelude.Lockstep.{Agree, returns, panics, Sim, bind-Sim, unwrap-Sim, pure-Sim}
use hi_perf_cmp.Smr.Level.{Order, PriceLevel}
use hi_perf_cmp.Smr.Chunks.{read}
use hi_perf_cmp.Smr.Chunks.Laws.{modify-some, modify-none}
use hi_perf_cmp.Smr.Book
use hi_perf_cmp.Smr.CowBook
use hi_perf_cmp.Smr.CowBook.{CowBook}
use hi_perf_cmp.Smr.Book.{Book}
use hi_perf_cmp.Smr.Lockstep.{Shows}

-- A value that both compute from their scalars.
pub gets-Sim :
    {A : Type 0} (f : CowBook → A) (g : Book → A)
    → ((w : CowBook) (b : Book) → Shows w b → f w ≡ g b)
    → Sim Shows (gets f) (gets g)
gets-Sim f g h w b r = returns (h w b r) r

pub modify-Sim :
    (f : CowBook → CowBook) (g : Book → Book)
    → ((w : CowBook) (b : Book) → Shows w b → Shows (f w) (g b))
    → Sim Shows (modify f) (modify g)
modify-Sim f g h w b r = returns refl (h w b r)

same_unwrap :
    {A : Type 0} {o p : Option A} (w : CowBook) (b : Book)
    → Shows w b
    → o ≡ p
    → Agree Shows (unwrap o w) (unwrap p b)
same_unwrap w b r e = rw e (unwrap-Sim _ w b r)

pub order-Sim : (slot : ℕ) → Sim Shows (CowBook.order slot) (Book.order slot)
unfolding CowBook.order Book.order
order-Sim slot w b r = same_unwrap w b r (r.orders slot)

lanes :
    (side t : ℕ) (w : CowBook) (b : Book)
    → Shows w b
    → read CowBook.level_chunk (CowBook.lane side w) t ≡ get_elem? (Book.lane side b) t
lanes side t w b r = elim (Bool-cases (side == 0)) [
  | inl e ↦ rw e (r.bids t)
  | inr e ↦ rw e (r.asks t)
]

pub level-Sim : (side t : ℕ) → Sim Shows (CowBook.level side t) (Book.level side t)
unfolding CowBook.level Book.level
level-Sim side t w b r = same_unwrap w b r (lanes side t w b r)

pub tick_of-Sim : (price : ℕ) → Sim Shows (CowBook.tick_of price) (Book.tick_of price)
unfolding CowBook.tick_of Book.tick_of
tick_of-Sim price =
    bind-Sim (gets-Sim _ _ λ w b r. r.price_min)
      λ min. bind-Sim (gets-Sim _ _ λ w b r. r.tick) λ tick. bind-Sim (unwrap-Sim _) λ q. pure-Sim _

pub order_mut-Sim :
    (slot : ℕ) (f : Order → Order) → Sim Shows (CowBook.order_mut slot f) (Book.order_mut slot f)
unfolding CowBook.order_mut Book.order_mut
order_mut-Sim slot f w b r = elim (Option-cases (get_elem? b.pool slot)) [
  | inl n ↦
      rw (n, modify-none w.chunk w.gen w.order_chunks slot f r.orders_owned (r.orders slot ∙ n))
        panics
  | inr (o, q) ↦
      let (c, m, owned, reads) =
        modify-some w.chunk w.gen w.order_chunks slot f r.orders_owned (r.orders slot ∙ q) in
      rw (q, m)
        (returns refl (record {
          price_min = r.price_min;
          tick = r.tick;
          n_levels = r.n_levels;
          capacity = r.capacity ∙ sym (length-set b.pool slot (f o));
          hwm = r.hwm;
          best_bid = r.best_bid;
          best_ask = r.best_ask;
          free_head = r.free_head;
          idmap = r.idmap;
          orders = λ s. rw (reads s, get_elem?-set b.pool slot s (f o) q, r.orders s);
          bids = r.bids;
          asks = r.asks;
          orders_owned = owned;
          bids_owned = r.bids_owned;
          asks_owned = r.asks_owned;
        }))
]

pub level_mut-Sim :
    (side t : ℕ) (f : PriceLevel → PriceLevel)
    → Sim Shows (CowBook.level_mut side t f) (Book.level_mut side t f)
unfolding CowBook.level_mut Book.level_mut
level_mut-Sim side t f w b r = elim (Bool-cases (side == 0)) [
  | inl e ↦ rw e (elim (Option-cases (get_elem? b.bids t)) [
    | inl n ↦
        rw (n, modify-none CowBook.level_chunk w.gen w.bid_chunks t f r.bids_owned (r.bids t ∙ n))
          panics
    | inr (o, q) ↦
        let (c, m, owned, reads) =
          modify-some CowBook.level_chunk w.gen w.bid_chunks t f r.bids_owned (r.bids t ∙ q) in
        rw (q, m)
          (returns refl (record {
            price_min = r.price_min;
            tick = r.tick;
            n_levels = r.n_levels;
            capacity = r.capacity;
            hwm = r.hwm;
            best_bid = r.best_bid;
            best_ask = r.best_ask;
            free_head = r.free_head;
            idmap = r.idmap;
            orders = r.orders;
            bids = λ s. rw (reads s, get_elem?-set b.bids t s (f o) q, r.bids s);
            asks = r.asks;
            orders_owned = r.orders_owned;
            bids_owned = owned;
            asks_owned = r.asks_owned;
          }))
  ])
  | inr e ↦ rw e (elim (Option-cases (get_elem? b.asks t)) [
    | inl n ↦
        rw (n, modify-none CowBook.level_chunk w.gen w.ask_chunks t f r.asks_owned (r.asks t ∙ n))
          panics
    | inr (o, q) ↦
        let (c, m, owned, reads) =
          modify-some CowBook.level_chunk w.gen w.ask_chunks t f r.asks_owned (r.asks t ∙ q) in
        rw (q, m)
          (returns refl (record {
            price_min = r.price_min;
            tick = r.tick;
            n_levels = r.n_levels;
            capacity = r.capacity;
            hwm = r.hwm;
            best_bid = r.best_bid;
            best_ask = r.best_ask;
            free_head = r.free_head;
            idmap = r.idmap;
            orders = r.orders;
            bids = r.bids;
            asks = λ s. rw (reads s, get_elem?-set b.asks t s (f o) q, r.asks s);
            orders_owned = r.orders_owned;
            bids_owned = r.bids_owned;
            asks_owned = owned;
          }))
  ])
]
