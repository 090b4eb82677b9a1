-- ===== src/Handoff/Spsc/Progress.antt =====
-- A thread of the ring that can go on does go on.
use hi_perf_cmp.Prelude.{
  ℕ, ◌+◌, ◌%◌, ◌^◌, ◌<◌, ◌≤◌, ◌≡◌, ◌≢◌, refl, arith, Bool-cases, inl, inr, true, false, List, [],
  ◌∷◌, length, ◌==◌, ltb, length-append, get_or, replicate,
}
use hi_perf_cmp.Prelude.Word.{sub64}
use hi_perf_cmp.Handoff.Spsc.{
  Pushing, resting, waits, writes, publishes, Popping, idle, awaits, reads, releases, Channel, push,
  pop, Turn, produce, consume, turn, run,
}
use hi_perf_cmp.Handoff.Spsc.Invariant.{IsRing}
use hi_perf_cmp.Handoff.Spsc.Order

-- Nothing that was popped is lost.
pop_more : (s : Channel) (p : Popping) → length s.got ≤ length (pop s p).got
unfolding pop
pop_more s idle = omega arith
pop_more s awaits = omega arith
pop_more s reads =
    omega (arith, length-append s.got (get_or s.shared.buf (s.consumer.head % s.shared.cap) 0 ∷ []))
pop_more s releases = omega arith

push_same : (v : ℕ) (s : Channel) (p : Pushing) → length s.got ≤ length (push v s p).got
unfolding push
push_same v s resting = omega arith
push_same v s (waits x) = omega arith
push_same v s (writes x) = omega arith
push_same v s publishes = omega arith

turn_more : (t : Turn) (s : Channel) → length s.got ≤ length (turn t s).got
unfolding turn
turn_more (produce v) s = push_same v s s.pushing
turn_more consume s = pop_more s s.popping

run_more : (ts : List Turn) (s : Channel) → length s.got ≤ length (run ts s).got
unfolding run
run_more [] s = omega arith
run_more (t ∷ ts) s = omega (arith, turn_more t s, run_more ts (turn t s))

-- In the state `s` the consumer takes a token within the turns.
abbrev pub Takes : List Turn → Channel → Type 0
Takes ts s = length s.got < length (run ts s).got

at_reads : (ts : List Turn) (s : Channel) → s.popping ≡ reads → Takes (consume ∷ ts) s
unfolding turn pop run
at_reads ts s e =
    let rest = run_more ts (pop s reads) in
    let one = length-append s.got (get_or s.shared.buf (s.consumer.head % s.shared.cap) 0 ∷ []) in
    rw e (omega (arith, rest, one))

at_awaits :
    (ts : List Turn) (s : Channel)
    → s.popping ≡ awaits
    → s.consumer.head ≢ s.shared.tail
    → Takes (consume ∷ consume ∷ ts) s
unfolding turn pop run
at_awaits ts s e ne =
    let other : (s.consumer.head == s.shared.tail) ≡ false = ground arith in
    let ready : (pop s awaits).popping ≡ reads = rw other refl in
    rw e (at_reads ts (pop s awaits) ready)

at_idle :
    (ts : List Turn) (s : Channel)
    → s.popping ≡ idle
    → s.consumer.head ≢ s.shared.tail
    → Takes (consume ∷ consume ∷ consume ∷ ts) s
unfolding turn pop run
at_idle ts s e ne = elim (Bool-cases (s.consumer.head == s.consumer.cached_tail)) [
  | inl z ↦ rw e (at_awaits ts (pop s idle) (rw z refl) ne)
  | inr z ↦ rw e (at_reads (consume ∷ ts) (pop s idle) (rw z refl))
]

at_releases :
    (ts : List Turn) (s : Channel)
    → s.popping ≡ releases
    → s.consumer.head ≢ s.shared.tail
    → Takes (consume ∷ consume ∷ consume ∷ consume ∷ ts) s
unfolding turn pop run
at_releases ts s e ne = rw e (at_idle ts (pop s releases) refl ne)

-- From any point of `pop`, and in any state in which a token is published that the consumer has not
-- taken, four turns of the consumer in a row take a token.
pub pop-Takes : (s : Channel) → s.consumer.head ≢ s.shared.tail → Takes (replicate 4 consume) s
pop-Takes s ne = go s.popping refl
  where
    go : (p : Popping) → s.popping ≡ p → Takes (replicate 4 consume) s
    go idle e = at_idle (consume ∷ []) s e ne
    go awaits e = at_awaits (consume ∷ consume ∷ []) s e ne
    go reads e = at_reads (consume ∷ consume ∷ consume ∷ []) s e
    go releases e = at_releases [] s e ne

-- In the state `s` the producer sends a token within the turns.
abbrev pub Sends : List Turn → Channel → Type 0
Sends ts s = length s.sent < length (run ts s).sent

at_writes :
    (v : ℕ) (ts : List Turn) (s : Channel) (x : ℕ) → s.pushing ≡ writes x → Sends (produce v ∷ ts) s
unfolding turn push run
at_writes v ts s x e =
    let rest = Order.run_more ts (push v s (writes x)) in
    let one = length-append s.sent (x ∷ []) in rw e (omega (arith, rest, one))

-- The ring has room, and the indices are in range.
record HasRoom (s : Channel) : Type 0 where
  pub room : s.producer.tail < s.shared.head + s.shared.cap
  pub behind : s.shared.head ≤ s.producer.tail
  pub fits : s.producer.tail < 2 ^ 64

at_waits :
    (v : ℕ) (ts : List Turn) (s : Channel) (x : ℕ)
    → HasRoom s
    → s.pushing ≡ waits x
    → Sends (produce v ∷ produce v ∷ ts) s
unfolding turn push run
at_waits v ts s x r e =
    let low : ltb (sub64 s.producer.tail s.shared.head) s.shared.cap ≡ true =
      ground (arith, r.room, r.behind, r.fits) in
    let ready : (push v s (waits x)).pushing ≡ writes x = rw low refl in
    rw e (at_writes v ts (push v s (waits x)) x ready)

at_resting :
    (v : ℕ) (ts : List Turn) (s : Channel)
    → HasRoom s
    → s.pushing ≡ resting
    → Sends (produce v ∷ produce v ∷ produce v ∷ ts) s
unfolding turn push run
at_resting v ts s r e =
    elim (Bool-cases (sub64 s.producer.tail s.producer.cached_head == s.shared.cap)) [
      | inl z ↦ rw e (
          at_waits v ts (push v s resting) v
            (record { room = r.room; behind = r.behind; fits = r.fits }) (rw z refl))
      | inr z ↦ rw e (at_writes v (produce v ∷ ts) (push v s resting) v (rw z refl))
    ]

at_publishes :
    (v : ℕ) (ts : List Turn) (s : Channel)
    → HasRoom s
    → s.pushing ≡ publishes
    → Sends (produce v ∷ produce v ∷ produce v ∷ produce v ∷ ts) s
unfolding turn push run
at_publishes v ts s r e = rw e (
    at_resting v ts (push v s publishes)
      (record { room = r.room; behind = r.behind; fits = r.fits }) refl)

-- From any point of `push`, and in any state of a run in which the ring has room for one more than what
-- was sent, four turns of the producer in a row send a token. Fewer than 2^64 tokens were sent.
pub push-Sends :
    (v : ℕ) (s : Channel)
    → IsRing s
    → s.producer.tail < s.shared.head + s.shared.cap
    → s.producer.tail < 2 ^ 64
    → Sends (replicate 4 (produce v)) s
push-Sends v s w room fits = go s.pushing refl
  where
    r : HasRoom s
    r = record {
      room = room;
      behind = omega (arith, w.released, w.tail_seen, w.tail_old, w.published);
      fits = fits;
    }

    go : (p : Pushing) → s.pushing ≡ p → Sends (replicate 4 (produce v)) s
    go resting e = at_resting v (produce v ∷ []) s r e
    go (waits x) e = at_waits v (produce v ∷ produce v ∷ []) s x r e
    go (writes x) e = at_writes v (produce v ∷ produce v ∷ produce v ∷ []) s x e
    go publishes e = at_publishes v [] s r e
