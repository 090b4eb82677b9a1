-- ===== src/Handoff/Batch/Invariant.antt =====
-- What holds of the ring between any two accesses.
use hi_perf_cmp.Prelude.{ℕ, ◌+◌, ◌-◌, ◌%◌, ◌<◌, ◌≤◌, ◌≡◌, List, length, get_or}
use hi_perf_cmp.Handoff.Batch.{
  Spsc, Producer, Consumer, Pushing, writes, batch_waits, fills, publishes, Popping, reads, drains,
  releases, Channel,
}

-- Tokens behind the producer's tail that are stored, that are not published, and that have room.
abbrev pub stored : Pushing → ℕ
stored (fills n fill k) = k
stored _ = 0

abbrev pub unpublished : Pushing → ℕ
unpublished (publishes n) = n
unpublished _ = 0

abbrev pub has_space : Pushing → ℕ
has_space (writes x) = 1
has_space (fills n fill k) = n
has_space _ = 0

abbrev pub left : Pushing → ℕ
left (fills n fill k) = n - k
left _ = 1

-- The burst that the producer waits to store.
abbrev pub burst : Pushing → ℕ
burst (batch_waits n fill) = n
burst _ = 0

-- Tokens past the consumer's head that are read, those not released, and those that are there.
abbrev pub taken : Popping → ℕ
taken (drains take k) = k
taken _ = 0

abbrev pub unreleased : Popping → ℕ
unreleased (releases n) = n
unreleased _ = 0

abbrev pub has_tokens : Popping → ℕ
has_tokens reads = 1
has_tokens (drains take k) = take
has_tokens _ = 0

abbrev pub to_take : Popping → ℕ
to_take (drains take k) = take - k
to_take _ = 1

-- The ring with `a` tokens stored behind the producer's tail, `u` of them not published and room for
-- `m`; with `t` read past the consumer's head, `r` not released and `h` of them there.
pub record Ring (shared : Spsc) (producer : Producer) (consumer : Consumer) (sent got : List ℕ)
    (a u m t r h : ℕ) : Type 0 where
  pub cap_pos : 0 < shared.cap
  pub buf_length : length shared.buf ≡ shared.cap
  pub storing : a ≤ m
  pub sent_length : length sent ≡ producer.tail + a
  pub got_length : length got ≡ consumer.head + t
  pub published : shared.tail + u ≡ producer.tail
  pub released : shared.head + r ≡ consumer.head
  pub reading : t ≤ h
  pub tail_seen : consumer.head + h ≤ consumer.cached_tail
  pub tail_old : consumer.cached_tail ≤ shared.tail
  pub head_old : producer.cached_head ≤ shared.head
  pub head_seen : producer.tail + m ≤ producer.cached_head + shared.cap
  pub slots :
      (i : ℕ)
      → consumer.head ≤ i
      → i < length sent
      → get_or shared.buf (i % shared.cap) 0 ≡ get_or sent i 0
  pub order : (i : ℕ) → i < length got → get_or got i 0 ≡ get_or sent i 0

pub record IsRing (s : Channel) : Type 0 where
  pub ring :
      Ring s.shared s.producer s.consumer s.sent s.got
        (stored s.pushing)
        (unpublished s.pushing)
        (has_space s.pushing)
        (taken s.popping)
        (unreleased s.popping)
        (has_tokens s.popping)
  pub filling : 0 < left s.pushing
  pub draining : 0 < to_take s.popping
  pub bursts : burst s.pushing ≤ s.shared.cap
