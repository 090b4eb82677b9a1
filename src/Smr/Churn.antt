-- ===== src/Smr/Churn.antt =====
-- rust/smr-collections/common/src/churn.rs: the insert/cancel/fill stream, and its application to a
-- store. Timing, RSS and output are left out.
pub mod Stream
pub mod Drive
pub mod Room
pub mod Tracks
pub mod Total
pub mod CowTotal
mod Tests
use hi_perf_cmp.Prelude.{
  ℕ, zero, suc, ◌+◌, ◌-◌, ◌%◌, List, [], ◌∷◌, ◌++◌, none, some, Bool, true, false, ◌==◌, ltb,
  if◌then◌else◌, ◌||◌, get_elem?, set, take, length,
}
use hi_perf_cmp.Prelude.Run.{Run, ok, panic, Cmd, pure, ◌>>=◌, ◌>>◌, gets, modify, unwrap, skip}
use hi_perf_cmp.Prelude.Word.{add64}
use hi_perf_cmp.Smr.Level.{SmrConfig}
use hi_perf_cmp.Smr.Rng
use hi_perf_cmp.Smr.Workload
use hi_perf_cmp.Smr.Book
use hi_perf_cmp.Smr.CowBook

pub data ChurnOp : Type 0 where
  insert : (order_id price qty side : ℕ) → ChurnOp
  cancel : (order_id : ℕ) → ChurnOp
  fill : (order_id : ℕ) → ChurnOp

pub record Churn : Type 0 where
  pub rng : ℕ
  pub live : List ℕ  -- of i64
  pub i : ℕ  -- usize
  pub otr_bps : ℕ  -- u64
  pub levels : ℕ  -- u32
  pub tick : ℕ  -- i64
  pub price_min : ℕ  -- i64

unfoldable pub new : SmrConfig → Churn
new cfg = record {
  rng = Rng.seed;
  live = [];
  i = 0;
  otr_bps = cfg.otr_bps;
  levels = cfg.levels;
  tick = cfg.tick;
  price_min = cfg.price_min;
}

-- A command of the generator, on the churn's own generator.
abbrev pub keep_rng : {A : Type 0} → Run ℕ A → Cmd Churn A
keep_rng (ok a s) c = ok a (record c { rng = s })
keep_rng panic c = panic

abbrev pub on_rng : {A : Type 0} → Cmd ℕ A → Cmd Churn A
on_rng m c = keep_rng (m c.rng) c

-- `Vec::swap_remove`: the last element takes the place of the removed one.
unfoldable pub swap_remove : List ℕ → ℕ → List ℕ
swap_remove xs v = elim (get_elem? xs (length xs - 1)) [
  | none ↦ xs
  | some x ↦ take (length xs - 1) (set xs v x)
]

unfoldable pub insert_op : Cmd Churn ChurnOp
insert_op = do
  c ← gets (λ c. c)
  ins ← on_rng (Workload.next_insert c.i c.levels c.tick c.price_min)
  modify (λ d. record d { i = add64 d.i 1; live = d.live ++ (ins.order_id ∷ []) })
  pure (insert ins.order_id ins.price ins.qty ins.side)

unfoldable pub departure : Bool → ℕ → ChurnOp
departure true id = fill id
departure false id = cancel id

unfoldable pub depart : Cmd Churn ChurnOp
depart = do
  modify (λ c. record c { i = add64 c.i 1 })
  r ← on_rng Workload.draw
  c ← gets (λ c. c)
  v ← on_rng (Workload.checked_mod r (length c.live))
  id ← unwrap (get_elem? c.live v)
  q ← on_rng Workload.draw
  modify (λ d. record d { live = swap_remove d.live v })
  pure (departure (ltb (q % 10000) c.otr_bps) id)

unfoldable pub next_op : Cmd Churn ChurnOp
next_op = do c ← gets (λ c. c); if (c.i % 2 == 0) || (length c.live == 0) then insert_op else depart

-- The trait `ChurnStore`, over a store with state `S`, and `Churn::apply`.
pub record ChurnStore (S : Type 0) : Type 0 where
  pub insert_order : (order_id price qty side : ℕ) → Cmd S (Unit {0})
  pub cancel_order : ℕ → Cmd S (Unit {0})
  pub fill_order : ℕ → Cmd S (Unit {0})

unfoldable pub apply : {S : Type 0} → ChurnStore S → ChurnOp → Cmd S (Unit {0})
apply store (insert id price qty side) = store.insert_order id price qty side
apply store (cancel id) = store.cancel_order id
apply store (fill id) = store.fill_order id

-- `impl ChurnStore for Book`, `impl ChurnStore for CowBook`
abbrev pub book_store : ChurnStore Book.Book
book_store = record {
  insert_order = Book.insert;
  cancel_order = Book.cancel;
  fill_order = Book.fill;
}

abbrev pub cow_store : ChurnStore CowBook.CowBook
cow_store = record {
  insert_order = CowBook.insert;
  cancel_order = CowBook.cancel;
  fill_order = CowBook.fill;
}

-- The driver beside its store, as the cells run them: `prebuild` inserts `n` orders, and `drive`
-- generates and applies `n` ops, as the warmup and the timed loop of `run_churn` do.
abbrev pub Driven : Type 0 → Type 0
Driven S = Churn × S

abbrev pub on_store : {S : Type 0} → Churn → Run S (Unit {0}) → Run (Driven S) (Unit {0})
on_store c (ok u s) = ok u (c, s)
on_store c panic = panic

unfoldable pub step :
    {S : Type 0} → ChurnStore S → Run Churn ChurnOp → S → Run (Driven S) (Unit {0})
step store (ok op c) s = on_store c (apply store op s)
step store panic s = panic

unfoldable pub prebuild : {S : Type 0} → ChurnStore S → ℕ → Cmd (Driven S) (Unit {0})
prebuild store zero = skip
prebuild store (suc n) = (λ d. step store (insert_op d.0) d.1) >> prebuild store n

unfoldable pub drive : {S : Type 0} → ChurnStore S → ℕ → Cmd (Driven S) (Unit {0})
drive store zero = skip
drive store (suc n) = (λ d. step store (next_op d.0) d.1) >> drive store n
