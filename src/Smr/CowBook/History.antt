-- ===== src/Smr/CowBook/History.antt =====
-- No operation of the copy-on-write book changes a chunk of an earlier generation.
use hi_perf_cmp.Prelude.{
  ℕ, zero, suc, ◌+◌, ◌-◌, ◌≤◌, ◌≡◌, ◌∙◌, refl, Option, arith, inl, inr, ◌==◌, ◌&&◌, ◌||◌, not,
  Option-cases, Bool-cases,
}
use hi_perf_cmp.Prelude.Run.{Cmd, pure, ◌>>=◌, ◌>>◌, modify}
use hi_perf_cmp.Prelude.Word.{lt_i32, add32, add64, sub64, min_i64, div_i64}
use hi_perf_cmp.Prelude.Post.{
  returns, panics, Moves, IsPreorder, bind-Moves, then-Moves, pure-Moves, gets-Moves, unwrap-Moves,
  if-Moves,
}
use hi_perf_cmp.Smr.Level.{Order, PriceLevel, nil, remove_id}
use hi_perf_cmp.Smr.Chunks
use hi_perf_cmp.Smr.Chunks.History.{IsLater, IsLater-refl, IsLater-trans, modify-IsLater}
use hi_perf_cmp.Smr.CowBook.{
  CowBook, level_chunk, tick_of, order, order_mut, level, level_mut, alloc_slot, free_slot,
  raise_best, insert, update, unlink, scan_down, scan_up, repair_best, remove_order, take_id,
  cancel, fill,
}

-- `c` may come after `b`, with no capture in between.
pub record Follows (b c : CowBook) : Type 0 where
  pub gen : c.gen ≡ b.gen
  pub chunk : c.chunk ≡ b.chunk
  pub orders : IsLater b.gen b.order_chunks c.order_chunks
  pub bids : IsLater b.gen b.bid_chunks c.bid_chunks
  pub asks : IsLater b.gen b.ask_chunks c.ask_chunks

-- `c` may come after `b`, with captures in between.
pub record After (b c : CowBook) : Type 0 where
  pub gen : b.gen ≤ c.gen
  pub orders : IsLater b.gen b.order_chunks c.order_chunks
  pub bids : IsLater b.gen b.bid_chunks c.bid_chunks
  pub asks : IsLater b.gen b.ask_chunks c.ask_chunks

pub After-refl : (b : CowBook) → After b b
After-refl b = record {
  gen = omega arith;
  orders = IsLater-refl _ _;
  bids = IsLater-refl _ _;
  asks = IsLater-refl _ _;
}

pub After-trans : {b c d : CowBook} → After b c → After c d → After b d
After-trans p q = record {
  gen = omega (arith, p.gen, q.gen);
  orders = IsLater-trans p.gen p.orders q.orders;
  bids = IsLater-trans p.gen p.bids q.bids;
  asks = IsLater-trans p.gen p.asks q.asks;
}

pub Follows-After : {b c : CowBook} → Follows b c → After b c
Follows-After p = record {
  gen = omega (arith, p.gen);
  orders = p.orders;
  bids = p.bids;
  asks = p.asks;
}

pub raise_gen-After : (b : CowBook) (g : ℕ) → b.gen ≤ g → After b (record b { gen = g })
raise_gen-After b g h = record {
  gen = h;
  orders = IsLater-refl _ _;
  bids = IsLater-refl _ _;
  asks = IsLater-refl _ _;
}

-- A state with the same chunks.
same_chunks :
    (b : CowBook) (hwm bid ask head : ℕ) (idmap : ℕ → Option ℕ)
    → Follows b
        (record b { hwm = hwm; best_bid = bid; best_ask = ask; free_head = head; idmap = idmap })
same_chunks b hwm bid ask head idmap = record {
  gen = refl;
  chunk = refl;
  orders = IsLater-refl _ _;
  bids = IsLater-refl _ _;
  asks = IsLater-refl _ _;
}

abbrev follows : IsPreorder Follows
follows = record {
  reflexive = λ b. same_chunks b b.hwm b.best_bid b.best_ask b.free_head b.idmap;
  transitive = λ p q. record {
    gen = q.gen ∙ p.gen;
    chunk = q.chunk ∙ p.chunk;
    orders = IsLater-trans (omega arith) p.orders q.orders;
    bids = IsLater-trans (omega arith) p.bids q.bids;
    asks = IsLater-trans (omega arith) p.asks q.asks;
  };
}

modify_scalars :
    (f : CowBook → CowBook) → ((b : CowBook) → Follows b (f b)) → Moves Follows (modify f)
modify_scalars f h b = returns (h b)

order_mut-Follows : (slot : ℕ) (f : Order → Order) → Moves Follows (order_mut slot f)
unfolding order_mut
order_mut-Follows slot f b =
    elim (Option-cases (Chunks.modify b.chunk b.gen b.order_chunks slot f)) [
      | inl n ↦ rw n panics
      | inr (c, e) ↦ rw e (
          returns (record {
            gen = refl;
            chunk = refl;
            orders = modify-IsLater b.chunk b.gen b.order_chunks slot f e;
            bids = IsLater-refl _ _;
            asks = IsLater-refl _ _;
          }))
    ]

level_mut-Follows : (side t : ℕ) (f : PriceLevel → PriceLevel) → Moves Follows (level_mut side t f)
unfolding level_mut
level_mut-Follows side t f b = elim (Bool-cases (side == 0)) [
  | inl s ↦ rw s (elim (Option-cases (Chunks.modify level_chunk b.gen b.bid_chunks t f)) [
    | inl n ↦ rw n panics
    | inr (c, e) ↦ rw e (
        returns (record {
          gen = refl;
          chunk = refl;
          orders = IsLater-refl _ _;
          bids = modify-IsLater level_chunk b.gen b.bid_chunks t f e;
          asks = IsLater-refl _ _;
        }))
  ])
  | inr s ↦ rw s (elim (Option-cases (Chunks.modify level_chunk b.gen b.ask_chunks t f)) [
    | inl n ↦ rw n panics
    | inr (c, e) ↦ rw e (
        returns (record {
          gen = refl;
          chunk = refl;
          orders = IsLater-refl _ _;
          bids = IsLater-refl _ _;
          asks = modify-IsLater level_chunk b.gen b.ask_chunks t f e;
        }))
  ])
]

order-Follows : (slot : ℕ) → Moves Follows (order slot)
unfolding order
order-Follows slot b = unwrap-Moves follows _ b

level-Follows : (side t : ℕ) → Moves Follows (level side t)
unfolding level
level-Follows side t b = unwrap-Moves follows _ b

abbrev and_next :
    {A B : Type 0} {m : Cmd CowBook A} {k : A → Cmd CowBook B}
    → Moves Follows m
    → ((a : A) → Moves Follows (k a))
    → Moves Follows (m >>= k)
and_next = bind-Moves follows

abbrev and_also :
    {B : Type 0} {m : Cmd CowBook (Unit {0})} {k : Cmd CowBook B}
    → Moves Follows m
    → Moves Follows k
    → Moves Follows (m >> k)
and_also = then-Moves follows

done : {A : Type 0} (a : A) → Moves Follows (pure a)
done = pure-Moves follows

tick_of-Follows : (price : ℕ) → Moves Follows (tick_of price)
unfolding tick_of
tick_of-Follows price = and_next (gets-Moves follows _) λ min.
    and_next (gets-Moves follows (λ b. b.tick))
      λ tick. and_next (unwrap-Moves follows (div_i64 (sub64 price min) tick)) λ q. done _

set_free_head : (h : ℕ) → Moves Follows (modify (λ b. record b { free_head = h }))
set_free_head h = modify_scalars _ λ b. same_chunks b b.hwm b.best_bid b.best_ask h b.idmap

set_best_bid : (h : ℕ) → Moves Follows (modify (λ b. record b { best_bid = h }))
set_best_bid h = modify_scalars _ λ b. same_chunks b b.hwm h b.best_ask b.free_head b.idmap

set_best_ask : (h : ℕ) → Moves Follows (modify (λ b. record b { best_ask = h }))
set_best_ask h = modify_scalars _ λ b. same_chunks b b.hwm b.best_bid h b.free_head b.idmap

alloc_slot-Follows : Moves Follows alloc_slot
unfolding alloc_slot
alloc_slot-Follows = and_next (gets-Moves follows (λ b. b.free_head)) λ head.
    if-Moves follows (not (head == nil))
      (and_next (order-Follows head) λ o. and_also (set_free_head o.next) (done head))
      (and_next (gets-Moves follows (λ b. b.hwm)) λ slot.
        and_next (gets-Moves follows (λ b. b.capacity)) λ cap.
          if-Moves follows (slot == cap) (λ b. panics)
            (and_also
              (modify_scalars _
                λ b. same_chunks b (add32 b.hwm 1) b.best_bid b.best_ask b.free_head b.idmap)
              (done slot)))

free_slot-Follows : (slot : ℕ) → Moves Follows (free_slot slot)
unfolding free_slot
free_slot-Follows slot = and_next (gets-Moves follows (λ b. b.free_head)) λ head.
    and_also (order_mut-Follows slot (λ o. record o { order_id = 0; next = head; prev = nil }))
      (set_free_head slot)

raise_best-Follows : (side t : ℕ) → Moves Follows (raise_best side t)
unfolding raise_best
raise_best-Follows side t = and_next (gets-Moves follows (λ b. b.best_bid)) λ bid.
    and_also
      (if-Moves follows ((side == 0) && (lt_i32 bid 0 || lt_i32 bid t)) (set_best_bid t) (done tt))
      (and_next (gets-Moves follows (λ b. b.best_ask)) λ ask.
        if-Moves follows ((side == 1) && (lt_i32 ask 0 || lt_i32 t ask)) (set_best_ask t) (done tt))

pub insert-Follows : (order_id price qty side : ℕ) → Moves Follows (insert order_id price qty side)
unfolding insert
insert-Follows order_id price qty side = and_next (tick_of-Follows price) λ t.
    and_next alloc_slot-Follows λ slot. and_next (level-Follows side t) λ l.
      and_also (order_mut-Follows slot _) (
        and_also (level_mut-Follows side t _) (
          and_also
            (if-Moves follows (not (l.tail == nil))
              (order_mut-Follows l.tail (λ o. record o { next = slot })) (done tt))
            (and_also
              (modify_scalars _ λ b. same_chunks b b.hwm b.best_bid b.best_ask b.free_head _)
              (raise_best-Follows side t))))

pub update-Follows : (order_id fill_qty : ℕ) → Moves Follows (update order_id fill_qty)
unfolding update
update-Follows order_id fill_qty = and_next (gets-Moves follows (λ b. b.idmap order_id)) λ id.
    and_next (unwrap-Moves follows id) λ slot. and_next (order-Follows slot) λ o.
      let add = min_i64 fill_qty (sub64 o.qty o.filled) in
      and_also (order_mut-Follows slot (λ p. record p { filled = add64 p.filled add })) (
        and_next (tick_of-Follows o.price) λ t.
          level_mut-Follows o.side t (λ lvl. record lvl { qty_total = sub64 lvl.qty_total add }))

unlink-Follows : (slot side t rem : ℕ) → Moves Follows (unlink slot side t rem)
unfolding unlink
unlink-Follows slot side t rem = and_next (order-Follows slot) λ o.
    and_also
      (if-Moves follows (not (o.prev == nil))
        (order_mut-Follows o.prev (λ p. record p { next = o.next })) (done tt))
      (and_also
        (if-Moves follows (not (o.next == nil))
          (order_mut-Follows o.next (λ n. record n { prev = o.prev })) (done tt))
        (level_mut-Follows side t _))

scan_down-Follows : (i : ℕ) → Moves Follows (scan_down i)
unfolding scan_down
scan_down-Follows zero = and_next (level-Follows 0 0) λ l. done _
scan_down-Follows (suc i) =
    and_next (level-Follows 0 (suc i))
      λ l. if-Moves follows (not (l.head == nil)) (done _) (scan_down-Follows i)

scan_up-Follows : (rounds i : ℕ) → Moves Follows (scan_up rounds i)
unfolding scan_up
scan_up-Follows zero i = done _
scan_up-Follows (suc rounds) i =
    and_next (level-Follows 1 i)
      λ l. if-Moves follows (not (l.head == nil)) (done _) (scan_up-Follows rounds (i + 1))

repair_best-Follows : (side t : ℕ) → Moves Follows (repair_best side t)
unfolding repair_best
repair_best-Follows side t =
    if-Moves follows (side == 0)
      (and_next (gets-Moves follows (λ b. b.best_bid)) λ best.
        if-Moves follows (not (best == t)) (done tt) (
          and_next (level-Follows 0 t) λ l.
            if-Moves follows (not (l.head == nil)) (done tt)
              (and_next (scan_down-Follows t) λ nb. set_best_bid nb)))
      (and_next (gets-Moves follows (λ b. b.best_ask)) λ best.
        if-Moves follows (not (best == t)) (done tt) (
          and_next (level-Follows 1 t) λ l. if-Moves follows (not (l.head == nil)) (done tt) (
            and_next (gets-Moves follows _)
              λ n. and_next (scan_up-Follows (n - t) t) λ na. set_best_ask na)))

remove_order-Follows : (slot side price rem : ℕ) → Moves Follows (remove_order slot side price rem)
unfolding remove_order
remove_order-Follows slot side price rem = and_next (tick_of-Follows price) λ t.
    and_also (unlink-Follows slot side t rem)
      (and_also (free_slot-Follows slot) (repair_best-Follows side t))

take_id-Follows : (order_id : ℕ) → Moves Follows (take_id order_id)
unfolding take_id
take_id-Follows order_id = and_next (gets-Moves follows (λ b. b.idmap order_id)) λ id.
    and_next (unwrap-Moves follows id) λ slot.
      and_also
        (modify_scalars _
          λ b. same_chunks b b.hwm b.best_bid b.best_ask b.free_head (remove_id b.idmap order_id))
        (done slot)

pub cancel-Follows : (order_id : ℕ) → Moves Follows (cancel order_id)
unfolding cancel
cancel-Follows order_id =
    and_next (take_id-Follows order_id)
      λ slot. and_next (order-Follows slot) λ o. remove_order-Follows slot o.side o.price _

pub fill-Follows : (order_id : ℕ) → Moves Follows (fill order_id)
unfolding fill
fill-Follows order_id = and_next (take_id-Follows order_id) λ slot.
    and_next (order-Follows slot)
      λ o. and_also (order_mut-Follows slot _) (remove_order-Follows slot o.side o.price _)
