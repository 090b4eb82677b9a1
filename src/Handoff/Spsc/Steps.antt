-- ===== src/Handoff/Spsc/Steps.antt =====
-- Every access of the shared ring keeps the invariant.
use native.Mathlib.Nat.{mod-lt}
use hi_perf_cmp.Prelude.{
  ℕ, ◌+◌, ◌-◌, ◌%◌, ◌^◌, ◌<◌, ◌≤◌, ◌≡◌, ◌∙◌, arith, [], ◌∷◌, ◌++◌, get_or, set, length-set,
  get_or-set, length-append,
}
use hi_perf_cmp.Prelude.Word.{add64, sub64}
use hi_perf_cmp.Handoff.Spsc.{
  resting, waits, writes, publishes, idle, awaits, reads, releases, Channel, push, pop,
}
use hi_perf_cmp.Handoff.Spsc.Invariant.{IsRing, mod_distinct, get_or-append_one}

-- With fewer than 2^64 tokens sent, no counter wraps.
module _ {s : Channel} (w : IsRing s) (few : s.producer.tail + 1 < 2 ^ 64) where
  fill_level :
      sub64 s.producer.tail s.producer.cached_head ≡ s.producer.tail - s.producer.cached_head
  fill_level = omega (arith, w.head_old, w.released, w.tail_seen, w.tail_old, w.published)

  new_level : sub64 s.producer.tail s.shared.head ≡ s.producer.tail - s.shared.head
  new_level = omega (arith, w.head_old, w.released, w.tail_seen, w.tail_old, w.published)

  slot_written :
      (x : ℕ)
      → s.pushing ≡ writes x
      → (i : ℕ) → s.consumer.head ≤ i
      → i < add64 s.producer.tail 1
      → get_or (set s.shared.buf (s.producer.tail % s.shared.cap) x) (i % s.shared.cap) 0
        ≡ get_or (s.sent ++ (x ∷ [])) i 0
  slot_written x e i h k = ground (
    arith,
    w.head_seen,
    w.head_old,
    w.released,
    w.buf_length,
    w.sent_length,
    w.slots i h,
    mod-lt s.producer.tail w.cap_pos,
    mod_distinct i s.producer.tail s.shared.cap,
    get_or-append_one s.sent x i,
    get_or-set s.shared.buf (s.producer.tail % s.shared.cap) (i % s.shared.cap) x 0,
  )

  token_read :
      s.popping ≡ reads
      → (i : ℕ) → i < add64 s.consumer.head 1
      → get_or (s.got ++ (get_or s.shared.buf (s.consumer.head % s.shared.cap) 0 ∷ [])) i 0
        ≡ get_or s.sent i 0
  token_read e i h = ground (
    arith,
    w.tail_seen,
    w.tail_old,
    w.published,
    w.got_length,
    w.order i,
    w.slots s.consumer.head,
    get_or-append_one s.got (get_or s.shared.buf (s.consumer.head % s.shared.cap) 0) i,
  )

  pub push_starts : (v : ℕ) → s.pushing ≡ resting → IsRing (push v s resting)
  unfolding push
  push_starts v e = record {
    cap_pos = w.cap_pos;
    buf_length = w.buf_length;
    sent_length = w.sent_length;
    got_length = w.got_length;
    published = ground (arith, w.published);
    released = w.released;
    tail_seen = w.tail_seen;
    tail_old = w.tail_old;
    head_old = w.head_old;
    head_seen = ground (arith, w.head_seen, fill_level);
    slots = w.slots;
    order = w.order;
  }

  pub push_waits : (v x : ℕ) → s.pushing ≡ waits x → IsRing (push v s (waits x))
  unfolding push
  push_waits v x e = record {
    cap_pos = w.cap_pos;
    buf_length = w.buf_length;
    sent_length = w.sent_length;
    got_length = w.got_length;
    published = ground (arith, w.published);
    released = w.released;
    tail_seen = w.tail_seen;
    tail_old = w.tail_old;
    head_old = omega arith;
    head_seen = ground (arith, w.head_seen, w.head_old, new_level);
    slots = w.slots;
    order = w.order;
  }

  pub push_writes : (v x : ℕ) → s.pushing ≡ writes x → IsRing (push v s (writes x))
  unfolding push
  push_writes v x e = record {
    cap_pos = w.cap_pos;
    buf_length = length-set s.shared.buf _ x ∙ w.buf_length;
    sent_length = ground (arith, w.sent_length, length-append s.sent (x ∷ []));
    got_length = w.got_length;
    published = ground (arith, w.published);
    released = w.released;
    tail_seen = w.tail_seen;
    tail_old = w.tail_old;
    head_old = w.head_old;
    head_seen = ground (arith, w.head_seen);
    slots = λ i h k. slot_written x e i h k;
    order = λ i h. ground (
      arith,
      w.order i h,
      get_or-append_one s.sent x i,
      w.sent_length,
      w.tail_seen,
      w.tail_old,
      w.published,
    );
  }

  pub push_publishes : (v : ℕ) → s.pushing ≡ publishes → IsRing (push v s publishes)
  unfolding push
  push_publishes v e = record {
    cap_pos = w.cap_pos;
    buf_length = w.buf_length;
    sent_length = w.sent_length;
    got_length = w.got_length;
    published = omega arith;
    released = w.released;
    tail_seen = w.tail_seen;
    tail_old = ground (arith, w.tail_old, w.published);
    head_old = w.head_old;
    head_seen = ground (arith, w.head_seen);
    slots = w.slots;
    order = w.order;
  }

  pub pop_starts : s.popping ≡ idle → IsRing (pop s idle)
  unfolding pop
  pop_starts e = record {
    cap_pos = w.cap_pos;
    buf_length = w.buf_length;
    sent_length = w.sent_length;
    got_length = w.got_length;
    published = w.published;
    released = ground (arith, w.released);
    tail_seen = ground (arith, w.tail_seen);
    tail_old = w.tail_old;
    head_old = w.head_old;
    head_seen = w.head_seen;
    slots = w.slots;
    order = w.order;
  }

  pub pop_awaits : s.popping ≡ awaits → IsRing (pop s awaits)
  unfolding pop
  pop_awaits e = record {
    cap_pos = w.cap_pos;
    buf_length = w.buf_length;
    sent_length = w.sent_length;
    got_length = w.got_length;
    published = w.published;
    released = ground (arith, w.released);
    tail_seen = ground (arith, w.tail_seen, w.tail_old);
    tail_old = omega arith;
    head_old = w.head_old;
    head_seen = w.head_seen;
    slots = w.slots;
    order = w.order;
  }

  pub pop_reads : s.popping ≡ reads → IsRing (pop s reads)
  unfolding pop
  pop_reads e = record {
    cap_pos = w.cap_pos;
    buf_length = w.buf_length;
    sent_length = w.sent_length;
    got_length = ground (
      arith,
      w.got_length,
      length-append s.got (get_or s.shared.buf (s.consumer.head % s.shared.cap) 0 ∷ []),
      w.tail_seen,
      w.tail_old,
      w.published,
    );
    published = w.published;
    released = ground (arith, w.released, w.tail_seen, w.tail_old, w.published);
    tail_seen = ground (arith, w.tail_seen, w.tail_old, w.published);
    tail_old = w.tail_old;
    head_old = w.head_old;
    head_seen = w.head_seen;
    slots = λ i h k. ground (arith, w.slots i, w.tail_seen, w.tail_old, w.published);
    order = λ i h. token_read e i h;
  }

  pub pop_releases : s.popping ≡ releases → IsRing (pop s releases)
  unfolding pop
  pop_releases e = record {
    cap_pos = w.cap_pos;
    buf_length = w.buf_length;
    sent_length = w.sent_length;
    got_length = w.got_length;
    published = w.published;
    released = omega arith;
    tail_seen = ground (arith, w.tail_seen);
    tail_old = w.tail_old;
    head_old = ground (arith, w.head_old, w.released);
    head_seen = w.head_seen;
    slots = w.slots;
    order = w.order;
  }
