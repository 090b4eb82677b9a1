-- ===== src/Handoff/Mpsc.antt =====
-- rust/handoff-compare/src/mpsc.rs: the ring with many producers and one consumer. A turn of a thread
-- is one access of the shared state: the loads and stores of all threads interleave. The producers are
-- clones of a handle that has not published yet.
pub mod Invariant
pub mod Producers
pub mod Order
pub mod Marks
use hi_perf_cmp.Prelude.{
  ℕ, ◌+◌, ◌-◌, ◌/◌, ◌%◌, ◌^◌, Bool, true, false, List, [], ◌∷◌, ◌++◌, ◌==◌, ◌&&◌, ltb, leb,
  if◌then◌else◌, get_or, set, replicate,
}
use hi_perf_cmp.Prelude.Word.{add64}

-- `struct Mpsc`
pub record Mpsc : Type 0 where
  pub buf : List ℕ  -- of u64
  pub avail : List ℕ  -- of i64
  pub cap : ℕ  -- usize
  pub claim : ℕ  -- usize
  pub head : ℕ  -- usize

abbrev pub never : ℕ
never = 2 ^ 64 - 1

-- `Mpsc::new`, for a positive capacity
unfoldable pub new : ℕ → Mpsc
new cap = record {
  buf = replicate cap 0;
  avail = replicate cap never;
  cap = cap;
  claim = 0;
  head = 0;
}

-- Where `batch_publish` stands, with the sequence it claimed, `n`, `fill` and `k`: outside, stopped by
-- its assertion, in the loop on a full ring, before the store to the slot, and before the store to its
-- mark.
pub data Publishing : Type 0 where
  idle : Publishing
  stopped : Publishing
  waits : ℕ → ℕ → (ℕ → ℕ) → Publishing
  stores : ℕ → ℕ → (ℕ → ℕ) → ℕ → Publishing
  marks : ℕ → ℕ → (ℕ → ℕ) → ℕ → Publishing

pub record MpProducer : Type 0 where
  pub cached_head : ℕ  -- usize
  pub publishing : Publishing

-- Where `drain` stands, with `max` and `count`: outside, before the load of a mark, of a slot, and
-- before the store to the head.
pub data Draining : Type 0 where
  outside : Draining
  checks : ℕ → ℕ → Draining
  reads : ℕ → ℕ → Draining
  releases : Draining

pub record MpConsumer : Type 0 where
  pub head : ℕ  -- usize
  pub draining : Draining

-- All threads and the ring between them, with the token claimed for each sequence, the sequences
-- published, and the tokens drained so far.
pub record Ring : Type 0 where
  pub shared : Mpsc
  pub producers : ℕ → MpProducer
  pub consumer : MpConsumer
  pub token : ℕ → ℕ
  pub done : ℕ → Bool
  pub got : List ℕ

unfoldable pub ring : ℕ → Ring
ring cap = record {
  shared = new cap;
  producers = λ p. record { cached_head = 0; publishing = idle };
  consumer = record { head = 0; draining = outside };
  token = λ s. 0;
  done = λ s. false;
  got = [];
}

abbrev pub put_producer : (ℕ → MpProducer) → ℕ → MpProducer → ℕ → MpProducer
put_producer ps p v q = if p == q then v else ps q

-- The loop over the slots of a burst.
abbrev pub from_k : ℕ → ℕ → (ℕ → ℕ) → ℕ → Publishing
from_k seq n fill k = if ltb k n then stores seq n fill k else idle

-- `(seq + n).saturating_sub(shared.cap)`
abbrev pub need : ℕ → ℕ → ℕ → ℕ
need seq n cap = add64 seq n - cap

-- The next access of producer `p` in `batch_publish`; outside, it calls it with `n` and `fill`.
unfoldable pub publish : ℕ → ℕ → (ℕ → ℕ) → Ring → Publishing → Ring
publish p n fill s idle =
    let here = s.producers p in
    if leb n s.shared.cap
    then record s {
      shared = record s.shared { claim = add64 s.shared.claim n };
      producers = put_producer s.producers p (record here {
        publishing =
            if ltb here.cached_head (need s.shared.claim n s.shared.cap)
            then waits s.shared.claim n fill
            else from_k s.shared.claim n fill 0;
      });
      token = λ i.
          if leb s.shared.claim i && ltb i (s.shared.claim + n)
          then fill (i - s.shared.claim)
          else s.token i;
    }
    else record s { producers = put_producer s.producers p (record here { publishing = stopped }) }
publish p n fill s stopped = s
publish p n fill s (waits seq m f) = record s {
  producers = put_producer s.producers p (record {
    cached_head = s.shared.head;
    publishing =
        if leb (need seq m s.shared.cap) s.shared.head then from_k seq m f 0 else waits seq m f;
  });
}
publish p n fill s (stores seq m f k) = record s {
  shared = record s.shared { buf = set s.shared.buf (add64 seq k % s.shared.cap) (f k) };
  producers = put_producer s.producers p (record (s.producers p) { publishing = marks seq m f k });
}
publish p n fill s (marks seq m f k) = record s {
  shared = record s.shared {
    avail = set s.shared.avail (add64 seq k % s.shared.cap) (add64 seq k / s.shared.cap);
  };
  producers =
      put_producer s.producers p (record (s.producers p) { publishing = from_k seq m f (k + 1) });
  done = λ i. if add64 seq k == i then true else s.done i;
}

-- After the loop of `drain`: the head is stored if anything was drained.
abbrev pub ends : ℕ → Draining
ends count = if ltb 0 count then releases else outside

-- The next access of the consumer in `drain`; outside, it calls it with `max`.
unfoldable pub drain : ℕ → Ring → Draining → Ring
drain max s outside = record s {
  consumer = record s.consumer { draining = if ltb 0 max then checks max 0 else outside };
}
drain max s (checks m count) = record s {
  consumer = record s.consumer {
    draining =
        if get_or s.shared.avail (s.consumer.head % s.shared.cap) 0
          == s.consumer.head / s.shared.cap
        then reads m count
        else ends count;
  };
}
drain max s (reads m count) = record s {
  consumer = record {
    head = add64 s.consumer.head 1;
    draining = if ltb (count + 1) m then checks m (count + 1) else ends (count + 1);
  };
  got = s.got ++ (get_or s.shared.buf (s.consumer.head % s.shared.cap) 0 ∷ []);
}
drain max s releases = record s {
  shared = record s.shared { head = s.consumer.head };
  consumer = record s.consumer { draining = outside };
}

-- A schedule: which thread has the next turn.
pub data Turn : Type 0 where
  produce : ℕ → ℕ → (ℕ → ℕ) → Turn
  consume : ℕ → Turn

unfoldable pub turn : Turn → Ring → Ring
turn (produce p n fill) s = publish p n fill s (s.producers p).publishing
turn (consume max) s = drain max s s.consumer.draining

unfoldable pub run : List Turn → Ring → Ring
run [] s = s
run (t ∷ ts) s = run ts (turn t s)
