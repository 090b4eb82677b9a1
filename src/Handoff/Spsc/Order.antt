-- ===== src/Handoff/Spsc/Order.antt =====
-- What a ring promises under every schedule of its two threads.
use hi_perf_cmp.Prelude.{
  ℕ, suc, ◌+◌, ◌^◌, ◌<◌, ◌≤◌, ◌≡◌, refl, ◌∙◌, arith, List, [], ◌∷◌, length, get_or, take,
  length-replicate, length-append,
}
use hi_perf_cmp.Handoff.Spsc.{
  Pushing, resting, waits, writes, publishes, Popping, idle, awaits, reads, releases, Channel,
  channel, new, push, pop, Turn, produce, consume, turn, run,
}
use hi_perf_cmp.Handoff.Spsc.Invariant.{IsRing}
use hi_perf_cmp.Handoff.Spsc.Steps.{
  push_starts, push_waits, push_writes, push_publishes, pop_starts, pop_awaits, pop_reads,
  pop_releases,
}

push-IsRing :
    {s : Channel}
    → IsRing s
    → s.producer.tail + 1 < 2 ^ 64
    → (v : ℕ) (p : Pushing) → s.pushing ≡ p
    → IsRing (push v s p)
push-IsRing w few v resting e = push_starts w few v e
push-IsRing w few v (waits x) e = push_waits w few v x e
push-IsRing w few v (writes x) e = push_writes w few v x e
push-IsRing w few v publishes e = push_publishes w few v e

pop-IsRing :
    {s : Channel}
    → IsRing s
    → s.producer.tail + 1 < 2 ^ 64
    → (p : Popping) → s.popping ≡ p
    → IsRing (pop s p)
pop-IsRing w few idle e = pop_starts w few e
pop-IsRing w few awaits e = pop_awaits w few e
pop-IsRing w few reads e = pop_reads w few e
pop-IsRing w few releases e = pop_releases w few e

pub turn-IsRing :
    {s : Channel} → IsRing s → s.producer.tail + 1 < 2 ^ 64 → (t : Turn) → IsRing (turn t s)
unfolding turn
turn-IsRing {s} w few (produce v) = push-IsRing w few v s.pushing refl
turn-IsRing {s} w few consume = pop-IsRing w few s.popping refl

-- Nothing that was sent is forgotten.
push_more : (v : ℕ) (s : Channel) (p : Pushing) → length s.sent ≤ length (push v s p).sent
unfolding push
push_more v s resting = omega arith
push_more v s (waits x) = omega arith
push_more v s (writes x) = omega (arith, length-append s.sent (x ∷ []))
push_more v s publishes = omega arith

pop_more : (s : Channel) (p : Popping) → length s.sent ≤ length (pop s p).sent
unfolding pop
pop_more s idle = omega arith
pop_more s awaits = omega arith
pop_more s reads = omega arith
pop_more s releases = omega arith

turn_more : (t : Turn) (s : Channel) → length s.sent ≤ length (turn t s).sent
unfolding turn
turn_more (produce v) s = push_more v s s.pushing
turn_more consume s = pop_more s s.popping

pub run_more : (ts : List Turn) (s : Channel) → length s.sent ≤ length (run ts s).sent
unfolding run
run_more [] s = omega arith
run_more (t ∷ ts) s = omega (arith, turn_more t s, run_more ts (turn t s))

push_cap : (v : ℕ) (s : Channel) (p : Pushing) → (push v s p).shared.cap ≡ s.shared.cap
unfolding push
push_cap v s resting = refl
push_cap v s (waits x) = refl
push_cap v s (writes x) = refl
push_cap v s publishes = refl

pop_cap : (s : Channel) (p : Popping) → (pop s p).shared.cap ≡ s.shared.cap
unfolding pop
pop_cap s idle = refl
pop_cap s awaits = refl
pop_cap s reads = refl
pop_cap s releases = refl

run_cap : (ts : List Turn) (s : Channel) → (run ts s).shared.cap ≡ s.shared.cap
unfolding run turn
run_cap [] s = refl
run_cap (produce v ∷ ts) s = run_cap ts (push v s s.pushing) ∙ push_cap v s s.pushing
run_cap (consume ∷ ts) s = run_cap ts (pop s s.popping) ∙ pop_cap s s.popping

new_cap : (size : ℕ) → (channel size).shared.cap ≡ size
unfolding channel new
new_cap size = refl

pub run-IsRing :
    (ts : List Turn) {s : Channel}
    → IsRing s
    → length (run ts s).sent + 1 < 2 ^ 64
    → IsRing (run ts s)
unfolding run
run-IsRing [] w few = w
run-IsRing (t ∷ ts) {s} w few =
    let less = turn_more t s in
    run-IsRing ts (turn-IsRing w (omega (arith, less, run_more ts (turn t s), w.sent_length)) t) few

pub channel-IsRing : (size : ℕ) → 0 < size → IsRing (channel size)
unfolding channel new
channel-IsRing size pos = record {
  cap_pos = pos;
  buf_length = length-replicate size 0;
  sent_length = refl;
  got_length = refl;
  published = refl;
  released = refl;
  tail_seen = omega arith;
  tail_old = omega arith;
  head_old = omega arith;
  head_seen = omega arith;
  slots = λ i h k. absurd (omega arith);
  order = λ i h. absurd (omega arith);
}

pub take-prefix :
    (xs ys : List ℕ)
    → length xs ≤ length ys
    → ((i : ℕ) → i < length xs → get_or xs i 0 ≡ get_or ys i 0)
    → xs ≡ take (length xs) ys
take-prefix [] ys le same = refl
take-prefix (x ∷ xs) [] le same = absurd (omega arith)
take-prefix (x ∷ xs) (y ∷ ys) le same =
    let e : x ≡ y = same 0 (omega arith) in
    let f : xs ≡ take (length xs) ys =
      take-prefix xs ys (omega arith) (λ i h. same (suc i) (omega arith)) in
    cc

-- Under every schedule of the two threads of a ring of positive capacity, what was popped is a prefix
-- of what was pushed, in its order, and at most the capacity of it is still on its way. Fewer than
-- 2^64 tokens are sent.
pub run-Fifo :
    (ts : List Turn) (size : ℕ)
    → 0 < size
    → length (run ts (channel size)).sent + 1 < 2 ^ 64
    → ((run ts (channel size)).got
        ≡ take (length (run ts (channel size)).got) (run ts (channel size)).sent)
      × (length (run ts (channel size)).got ≤ length (run ts (channel size)).sent)
      × (length (run ts (channel size)).sent ≤ length (run ts (channel size)).got + size)
run-Fifo ts size pos few =
    let w = run-IsRing ts (channel-IsRing size pos) few in
    let le : length (run ts (channel size)).got ≤ length (run ts (channel size)).sent =
      omega (arith, w.got_length, w.sent_length, w.tail_seen, w.tail_old, w.published) in
    (
      take-prefix _ _ le (λ i h. w.order i (omega (arith, w.got_length))),
      le,
      omega (
        arith,
        w.got_length,
        w.sent_length,
        w.head_seen,
        w.head_old,
        w.released,
        run_cap ts (channel size),
        new_cap size,
      ),
    )
