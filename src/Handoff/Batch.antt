-- ===== src/Handoff/Batch.antt =====
-- rust/handoff-compare/src/spsc.rs: the ring with one producer and one consumer, which may also hand
-- over a burst at a time. A turn of a thread is one access of the shared state.
pub mod Invariant
pub mod Accesses
pub mod Indices
pub mod Pushes
pub mod Pops
pub mod Order
use hi_perf_cmp.Prelude.{
  ℕ, ◌+◌, ◌%◌, List, [], ◌∷◌, ◌++◌, ◌==◌, ltb, if◌then◌else◌, get_or, set, replicate,
}
use hi_perf_cmp.Prelude.Word.{add64, sub64}

-- `struct Spsc`
pub record Spsc : Type 0 where
  pub buf : List ℕ  -- of u64
  pub cap : ℕ  -- usize
  pub head : ℕ  -- usize
  pub tail : ℕ  -- usize

-- `Spsc::new`, for a positive capacity
unfoldable pub new : ℕ → Spsc
new cap = record { buf = replicate cap 0; cap = cap; head = 0; tail = 0 }

pub record Producer : Type 0 where
  pub tail : ℕ  -- usize
  pub cached_head : ℕ  -- usize

pub record Consumer : Type 0 where
  pub head : ℕ  -- usize
  pub cached_tail : ℕ  -- usize

-- Where the producer stands: outside; in `push` in its loop or before the store to the slot; in
-- `batch_publish` in its loop or before the store of token `k`; before the store to the shared tail,
-- with how many tokens it publishes; or past the failed assertion.
pub data Pushing : Type 0 where
  resting : Pushing
  waits : ℕ → Pushing
  writes : ℕ → Pushing
  batch_waits : ℕ → (ℕ → ℕ) → Pushing
  fills : ℕ → (ℕ → ℕ) → ℕ → Pushing
  publishes : ℕ → Pushing
  panicked : Pushing

-- Where the consumer stands, likewise.
pub data Popping : Type 0 where
  idle : Popping
  awaits : Popping
  reads : Popping
  refreshes : ℕ → Popping
  drains : ℕ → ℕ → Popping
  releases : ℕ → Popping

-- What a thread calls next.
pub data Push : Type 0 where
  push : ℕ → Push
  batch_publish : ℕ → (ℕ → ℕ) → Push

pub data Pop : Type 0 where
  pop : Pop
  drain : ℕ → Pop

-- Both threads and the ring between them, with the tokens pushed and popped so far.
pub record Channel : Type 0 where
  pub shared : Spsc
  pub producer : Producer
  pub consumer : Consumer
  pub pushing : Pushing
  pub popping : Popping
  pub sent : List ℕ
  pub got : List ℕ

unfoldable pub channel : ℕ → Channel
channel cap = record {
  shared = new cap;
  producer = record { tail = 0; cached_head = 0 };
  consumer = record { head = 0; cached_tail = 0 };
  pushing = resting;
  popping = idle;
  sent = [];
  got = [];
}

-- The loop over a burst, at token `k`; at its end the tail moves on.
unfoldable pub from_k : ℕ → (ℕ → ℕ) → ℕ → Channel → Channel
from_k n fill k s = if ltb k n then record s { pushing = fills n fill k } else record s {
  producer = record s.producer { tail = add64 s.producer.tail n };
  pushing = publishes n;
}

unfoldable pub start_push : Channel → Push → Channel
start_push s (push v) = record s {
  pushing =
      if sub64 s.producer.tail s.producer.cached_head == s.shared.cap then waits v else writes v;
}
start_push s (batch_publish n fill) =
    if ltb s.shared.cap n
    then record s { pushing = panicked }
    else if ltb s.shared.cap (sub64 (add64 s.producer.tail n) s.producer.cached_head)
    then record s { pushing = batch_waits n fill }
    else from_k n fill 0 s

-- The next access of the producer.
unfoldable pub produce : Push → Channel → Pushing → Channel
produce c s resting = start_push s c
produce c s (waits x) = record s {
  producer = record s.producer { cached_head = s.shared.head };
  pushing = if ltb (sub64 s.producer.tail s.shared.head) s.shared.cap then writes x else waits x;
}
produce c s (writes x) = record s {
  shared = record s.shared { buf = set s.shared.buf (s.producer.tail % s.shared.cap) x };
  producer = record s.producer { tail = add64 s.producer.tail 1 };
  pushing = publishes 1;
  sent = s.sent ++ (x ∷ []);
}
produce c s (batch_waits n fill) =
    let seen = record s {
      producer = record s.producer { cached_head = s.shared.head };
      pushing = batch_waits n fill;
    } in
    if ltb s.shared.cap (sub64 (add64 s.producer.tail n) s.shared.head)
    then seen
    else from_k n fill 0 seen
produce c s (fills n fill k) = from_k n fill (k + 1) (record s {
  shared = record s.shared {
    buf = set s.shared.buf (add64 s.producer.tail k % s.shared.cap) (fill k);
  };
  sent = s.sent ++ (fill k ∷ []);
})
produce c s (publishes n) = record s {
  shared = record s.shared { tail = s.producer.tail };
  pushing = resting;
}
produce c s panicked = s

abbrev pub min : ℕ → ℕ → ℕ
min a b = if ltb b a then b else a

-- The loop over what is taken, at token `k`; at its end the head moves on.
unfoldable pub drain_k : ℕ → ℕ → Channel → Channel
drain_k take k s = if ltb k take then record s { popping = drains take k } else record s {
  consumer = record s.consumer { head = add64 s.consumer.head take };
  popping = if ltb 0 take then releases take else idle;
}

unfoldable pub start_pop : Channel → Pop → Channel
start_pop s pop = record s {
  popping = if s.consumer.head == s.consumer.cached_tail then awaits else reads;
}
start_pop s (drain max) =
    if s.consumer.head == s.consumer.cached_tail
    then record s { popping = refreshes max }
    else drain_k (min (sub64 s.consumer.cached_tail s.consumer.head) max) 0 s

-- The next access of the consumer.
unfoldable pub consume : Pop → Channel → Popping → Channel
consume c s idle = start_pop s c
consume c s awaits = record s {
  consumer = record s.consumer { cached_tail = s.shared.tail };
  popping = if s.consumer.head == s.shared.tail then awaits else reads;
}
consume c s reads = record s {
  consumer = record s.consumer { head = add64 s.consumer.head 1 };
  popping = releases 1;
  got = s.got ++ (get_or s.shared.buf (s.consumer.head % s.shared.cap) 0 ∷ []);
}
consume c s (refreshes max) =
    drain_k (min (sub64 s.shared.tail s.consumer.head) max) 0
      (record s { consumer = record s.consumer { cached_tail = s.shared.tail } })
consume c s (drains take k) = drain_k take (k + 1) (record s {
  got = s.got ++ (get_or s.shared.buf (add64 s.consumer.head k % s.shared.cap) 0 ∷ []);
})
consume c s (releases n) = record s {
  shared = record s.shared { head = s.consumer.head };
  popping = idle;
}

unfoldable pub consumed : Channel → ℕ
consumed s = s.shared.head

-- A schedule: which thread has the next turn, and what it calls if it stands outside.
pub data Turn : Type 0 where
  produces : Push → Turn
  consumes : Pop → Turn

unfoldable pub turn : Turn → Channel → Channel
turn (produces c) s = produce c s s.pushing
turn (consumes c) s = consume c s s.popping

unfoldable pub run : List Turn → Channel → Channel
run [] s = s
run (t ∷ ts) s = run ts (turn t s)
