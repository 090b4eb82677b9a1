-- ===== src/Handoff/Batch/Order.antt =====
-- What the ring promises under every schedule of its two threads.
use hi_perf_cmp.Prelude.{
  ℕ, ◌+◌, ◌^◌, ◌<◌, ◌≤◌, ◌≡◌, refl, ◌∙◌, arith, List, [], ◌∷◌, length, get_or, take, set, ◌++◌, ◌%◌,
  ◌==◌, length-replicate, length-append, ltb, Bool-cases, inl, inr,
}
use hi_perf_cmp.Prelude.Word.{add64, sub64}
use hi_perf_cmp.Handoff.Spsc.Order.{take-prefix}
use hi_perf_cmp.Handoff.Batch.{
  Pushing, resting, waits, writes, batch_waits, fills, publishes, panicked, Popping, idle, awaits,
  reads, refreshes, drains, releases, Push, push, batch_publish, Pop, pop, drain, Channel, channel,
  new, from_k, start_push, produce, min, drain_k, start_pop, consume, Turn, produces, consumes,
  turn, run,
}
use hi_perf_cmp.Handoff.Batch.Invariant.{IsRing}
use hi_perf_cmp.Handoff.Batch.Pushes.{produce-IsRing}
use hi_perf_cmp.Handoff.Batch.Pops.{consume-IsRing}

-- What was sent stays sent, and the capacity stays.
record Grows (s t : Channel) : Type 0 where
  more : length s.sent ≤ length t.sent
  cap : t.shared.cap ≡ s.shared.cap

Grows-refl : (s : Channel) → Grows s s
Grows-refl s = record { more = omega arith; cap = refl }

from_k-Grows : (n : ℕ) (fill : ℕ → ℕ) (k : ℕ) (s : Channel) → Grows s (from_k n fill k s)
unfolding from_k
from_k-Grows n fill k s = elim (Bool-cases (ltb k n)) [
  | inl e ↦ rw e (record { more = omega arith; cap = refl })
  | inr e ↦ rw e (record { more = omega arith; cap = refl })
]

start_push-Grows : (s : Channel) (c : Push) → Grows s (start_push s c)
unfolding start_push
start_push-Grows s (push v) = record { more = omega arith; cap = refl }
start_push-Grows s (batch_publish n fill) = elim (Bool-cases (ltb s.shared.cap n)) [
  | inl e ↦ rw e (record { more = omega arith; cap = refl })
  | inr e ↦
      elim (Bool-cases
        (ltb s.shared.cap (sub64 (add64 s.producer.tail n) s.producer.cached_head))) [
          | inl g ↦ rw (e, g) (record { more = omega arith; cap = refl })
          | inr g ↦ rw (e, g) (from_k-Grows n fill 0 s)
        ]
]

produce-Grows : (c : Push) (s : Channel) (x : Pushing) → Grows s (produce c s x)
unfolding produce
produce-Grows c s resting = start_push-Grows s c
produce-Grows c s (waits x) = record { more = omega arith; cap = refl }
produce-Grows c s (writes x) = record {
  more = omega (arith, length-append s.sent (x ∷ []));
  cap = refl;
}
produce-Grows c s (batch_waits n fill) =
    elim (Bool-cases (ltb s.shared.cap (sub64 (add64 s.producer.tail n) s.shared.head))) [
      | inl g ↦ rw g (record { more = omega arith; cap = refl })
      | inr g ↦
          let r = from_k-Grows n fill 0 (record s {
            producer = record s.producer { cached_head = s.shared.head };
            pushing = batch_waits n fill;
          }) in
          rw g (record { more = r.more; cap = r.cap })
    ]
produce-Grows c s (fills n fill k) =
    let r = from_k-Grows n fill (k + 1) (record s {
      shared = record s.shared {
        buf = set s.shared.buf (add64 s.producer.tail k % s.shared.cap) (fill k);
      };
      sent = s.sent ++ (fill k ∷ []);
    }) in
    record { more = omega (arith, r.more, length-append s.sent (fill k ∷ [])); cap = r.cap }
produce-Grows c s (publishes n) = record { more = omega arith; cap = refl }
produce-Grows c s panicked = Grows-refl s

drain_k-Grows : (k n : ℕ) (s : Channel) → Grows s (drain_k n k s)
unfolding drain_k
drain_k-Grows k n s = elim (Bool-cases (ltb k n)) [
  | inl e ↦ rw e (record { more = omega arith; cap = refl })
  | inr e ↦ rw e (record { more = omega arith; cap = refl })
]

start_pop-Grows : (s : Channel) (c : Pop) → Grows s (start_pop s c)
unfolding start_pop
start_pop-Grows s pop = record { more = omega arith; cap = refl }
start_pop-Grows s (drain max) = elim (Bool-cases (s.consumer.head == s.consumer.cached_tail)) [
  | inl e ↦ rw e (record { more = omega arith; cap = refl })
  | inr e ↦ rw e (drain_k-Grows 0 (min (sub64 s.consumer.cached_tail s.consumer.head) max) s)
]

consume-Grows : (c : Pop) (s : Channel) (x : Popping) → Grows s (consume c s x)
unfolding consume
consume-Grows c s idle = start_pop-Grows s c
consume-Grows c s awaits = record { more = omega arith; cap = refl }
consume-Grows c s reads = record { more = omega arith; cap = refl }
consume-Grows c s (refreshes max) =
    let r =
      drain_k-Grows 0 (min (sub64 s.shared.tail s.consumer.head) max)
        (record s { consumer = record s.consumer { cached_tail = s.shared.tail } }) in
    record { more = r.more; cap = r.cap }
consume-Grows c s (drains n k) =
    let r = drain_k-Grows (k + 1) n (record s {
      got = s.got ++ (get_or s.shared.buf (add64 s.consumer.head k % s.shared.cap) 0 ∷ []);
    }) in
    record { more = r.more; cap = r.cap }
consume-Grows c s (releases n) = record { more = omega arith; cap = refl }

turn-Grows : (t : Turn) (s : Channel) → Grows s (turn t s)
unfolding turn
turn-Grows (produces c) s = produce-Grows c s s.pushing
turn-Grows (consumes c) s = consume-Grows c s s.popping

run-Grows : (ts : List Turn) (s : Channel) → Grows s (run ts s)
unfolding run
run-Grows [] s = Grows-refl s
run-Grows (t ∷ ts) s =
    let a = turn-Grows t s in
    let b = run-Grows ts (turn t s) in
    record { more = omega (arith, a.more, b.more); cap = b.cap ∙ a.cap }

turn-IsRing :
    (t : Turn) {s : Channel}
    → IsRing s
    → length s.sent + 1 + s.shared.cap < 2 ^ 64
    → IsRing (turn t s)
unfolding turn
turn-IsRing (produces c) {s} w few = produce-IsRing w few c s.pushing refl
turn-IsRing (consumes c) {s} w few = consume-IsRing w (omega arith) c s.popping refl

pub run-IsRing :
    (ts : List Turn) {s : Channel}
    → IsRing s
    → length (run ts s).sent + 1 + s.shared.cap < 2 ^ 64
    → IsRing (run ts s)
unfolding run
run-IsRing [] w few = w
run-IsRing (t ∷ ts) {s} w few =
    let a = turn-Grows t s in
    let b = run-Grows ts (turn t s) in
    run-IsRing ts (turn-IsRing t w (omega (arith, a.more, b.more))) (omega (arith, a.cap))

pub channel-IsRing : (size : ℕ) → 0 < size → IsRing (channel size)
unfolding channel new
channel-IsRing size pos = record {
  ring = record {
    cap_pos = pos;
    buf_length = length-replicate size 0;
    storing = omega arith;
    sent_length = refl;
    got_length = refl;
    published = refl;
    released = refl;
    reading = omega arith;
    tail_seen = omega arith;
    tail_old = omega arith;
    head_old = omega arith;
    head_seen = omega arith;
    slots = λ i h k. absurd (omega arith);
    order = λ i h. absurd (omega arith);
  };
  filling = omega arith;
  draining = omega arith;
  bursts = omega arith;
}

channel_cap : (size : ℕ) → (channel size).shared.cap ≡ size
unfolding channel new
channel_cap size = refl

-- Under every schedule of `push`, `batch_publish`, `pop` and `drain` on a ring of positive capacity,
-- what was popped and drained is a prefix of what was pushed and published, in its order, and at most
-- the capacity of it is still on its way. The tokens sent and the capacity stay below 2^64 together.
pub run-BatchFifo :
    (ts : List Turn) (size : ℕ)
    → 0 < size
    → length (run ts (channel size)).sent + 1 + size < 2 ^ 64
    → ((run ts (channel size)).got
        ≡ take (length (run ts (channel size)).got) (run ts (channel size)).sent)
      × (length (run ts (channel size)).got ≤ length (run ts (channel size)).sent)
      × (length (run ts (channel size)).sent ≤ length (run ts (channel size)).got + size)
run-BatchFifo ts size pos few =
    let c = channel_cap size in
    let w = run-IsRing ts (channel-IsRing size pos) (omega (arith, few, c)) in
    let g = run-Grows ts (channel size) in
    let r = w.ring in
    let le : length (run ts (channel size)).got ≤ length (run ts (channel size)).sent =
      omega (arith, r.got_length, r.sent_length, r.reading, r.tail_seen, r.tail_old, r.published) in
    (
      take-prefix _ _ le r.order,
      le,
      omega (
        arith, r.got_length, r.sent_length, r.storing, r.head_seen, r.head_old, r.released, g.cap,
        c,
      ),
    )
