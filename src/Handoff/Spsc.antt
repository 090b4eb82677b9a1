-- ===== src/Handoff/Spsc.antt =====
-- rust/thread-handoff/ring/src/spsc.rs: the ring with one producer and one consumer. A turn of a
-- thread is one access of the shared state: the loads and stores of both threads interleave.
pub mod Invariant
pub mod Steps
pub mod Order
pub mod Progress
use hi_perf_cmp.Prelude.{
  ℕ, ◌+◌, ◌%◌, List, [], ◌∷◌, ◌++◌, ◌==◌, ltb, if◌then◌else◌, get_or, set, replicate,
}
use hi_perf_cmp.Prelude.Word.{add64, sub64}

-- `struct Spsc`
pub record Spsc : Type 0 where
  pub buf : List ℕ  -- of u64
  pub cap : ℕ  -- usize
  pub head : ℕ  -- usize
  pub tail : ℕ  -- usize

-- `Spsc::new`, for a positive capacity
unfoldable pub new : ℕ → Spsc
new cap = record { buf = replicate cap 0; cap = cap; head = 0; tail = 0 }

pub record Producer : Type 0 where
  pub tail : ℕ  -- usize
  pub cached_head : ℕ  -- usize

pub record Consumer : Type 0 where
  pub head : ℕ  -- usize
  pub cached_tail : ℕ  -- usize

-- Where `push` stands: outside, in the loop on a full ring, before the store to the slot, and before
-- the store to the shared tail.
pub data Pushing : Type 0 where
  resting : Pushing
  waits : ℕ → Pushing
  writes : ℕ → Pushing
  publishes : Pushing

-- Where `pop` stands, likewise.
pub data Popping : Type 0 where
  idle : Popping
  awaits : Popping
  reads : Popping
  releases : Popping

-- Both threads and the ring between them, with the tokens pushed and popped so far.
pub record Channel : Type 0 where
  pub shared : Spsc
  pub producer : Producer
  pub consumer : Consumer
  pub pushing : Pushing
  pub popping : Popping
  pub sent : List ℕ
  pub got : List ℕ

unfoldable pub channel : ℕ → Channel
channel cap = record {
  shared = new cap;
  producer = record { tail = 0; cached_head = 0 };
  consumer = record { head = 0; cached_tail = 0 };
  pushing = resting;
  popping = idle;
  sent = [];
  got = [];
}

-- The next access of the thread in `push`; outside, it calls `push v`.
unfoldable pub push : ℕ → Channel → Pushing → Channel
push v s resting = record s {
  pushing =
      if sub64 s.producer.tail s.producer.cached_head == s.shared.cap then waits v else writes v;
}
push v s (waits x) = record s {
  producer = record s.producer { cached_head = s.shared.head };
  pushing = if ltb (sub64 s.producer.tail s.shared.head) s.shared.cap then writes x else waits x;
}
push v s (writes x) = record s {
  shared = record s.shared { buf = set s.shared.buf (s.producer.tail % s.shared.cap) x };
  producer = record s.producer { tail = add64 s.producer.tail 1 };
  pushing = publishes;
  sent = s.sent ++ (x ∷ []);
}
push v s publishes = record s {
  shared = record s.shared { tail = s.producer.tail };
  pushing = resting;
}

-- The next access of the thread in `pop`; outside, it calls `pop`.
unfoldable pub pop : Channel → Popping → Channel
pop s idle = record s {
  popping = if s.consumer.head == s.consumer.cached_tail then awaits else reads;
}
pop s awaits = record s {
  consumer = record s.consumer { cached_tail = s.shared.tail };
  popping = if s.consumer.head == s.shared.tail then awaits else reads;
}
pop s reads = record s {
  consumer = record s.consumer { head = add64 s.consumer.head 1 };
  popping = releases;
  got = s.got ++ (get_or s.shared.buf (s.consumer.head % s.shared.cap) 0 ∷ []);
}
pop s releases = record s { shared = record s.shared { head = s.consumer.head }; popping = idle }

-- A schedule: which thread has the next turn.
pub data Turn : Type 0 where
  produce : ℕ → Turn
  consume : Turn

unfoldable pub turn : Turn → Channel → Channel
turn (produce v) s = push v s s.pushing
turn consume s = pop s s.popping

unfoldable pub run : List Turn → Channel → Channel
run [] s = s
run (t ∷ ts) s = run ts (turn t s)
