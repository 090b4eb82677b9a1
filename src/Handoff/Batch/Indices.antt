-- ===== src/Handoff/Batch/Indices.antt =====
-- The steps of the indices, and the accesses of the consumer.
use hi_perf_cmp.Prelude.{
  ℕ, ◌+◌, ◌%◌, ◌^◌, ◌<◌, ◌≤◌, ◌≡◌, arith, List, [], ◌∷◌, ◌++◌, length, get_or, length-append,
}
use hi_perf_cmp.Prelude.Word.{add64}
use hi_perf_cmp.Handoff.Spsc.Invariant.{get_or-append_one}
use hi_perf_cmp.Handoff.Batch.{Spsc, Producer, Consumer}
use hi_perf_cmp.Handoff.Batch.Invariant.{Ring}

module _ {q : Spsc} {p : Producer} {c : Consumer} {sent got : List ℕ} {a u m t r h : ℕ}
    (w : Ring q p c sent got a u m t r h) (few : length sent + q.cap < 2 ^ 64) where
  -- The producer's tail moves past what it stored.
  pub move_tail : a ≤ m → u ≡ 0 → Ring q (record p { tail = add64 p.tail a }) c sent got 0 a 0 t r h
  move_tail le all = record {
    cap_pos = w.cap_pos;
    buf_length = w.buf_length;
    storing = omega arith;
    sent_length = omega (
      arith, w.sent_length, w.got_length, w.published, w.released, w.reading, w.tail_seen,
      w.tail_old, w.head_old, w.head_seen,
    );
    got_length = w.got_length;
    published = omega (
      arith, w.sent_length, w.got_length, w.published, w.released, w.reading, w.tail_seen,
      w.tail_old, w.head_old, w.head_seen,
    );
    released = w.released;
    reading = w.reading;
    tail_seen = w.tail_seen;
    tail_old = w.tail_old;
    head_old = w.head_old;
    head_seen = omega (
      arith, w.sent_length, w.got_length, w.published, w.released, w.reading, w.tail_seen,
      w.tail_old, w.head_old, w.head_seen,
    );
    slots = w.slots;
    order = w.order;
  }

  pub publish : a ≡ 0 → Ring (record q { tail = p.tail }) p c sent got 0 0 0 t r h
  publish none = record {
    cap_pos = w.cap_pos;
    buf_length = w.buf_length;
    storing = omega arith;
    sent_length = omega (
      arith, w.sent_length, w.got_length, w.published, w.released, w.reading, w.tail_seen,
      w.tail_old, w.head_old, w.head_seen,
    );
    got_length = w.got_length;
    published = omega arith;
    released = w.released;
    reading = w.reading;
    tail_seen = w.tail_seen;
    tail_old = omega (
      arith, w.sent_length, w.got_length, w.published, w.released, w.reading, w.tail_seen,
      w.tail_old, w.head_old, w.head_seen,
    );
    head_old = w.head_old;
    head_seen = omega (
      arith, w.sent_length, w.got_length, w.published, w.released, w.reading, w.tail_seen,
      w.tail_old, w.head_old, w.head_seen,
    );
    slots = w.slots;
    order = w.order;
  }

  -- The consumer looks at the shared tail, and finds `k` tokens.
  pub see_tail :
      (k : ℕ)
      → t ≡ 0
      → c.head + k ≤ q.tail
      → Ring q p (record c { cached_tail = q.tail }) sent got a u m 0 r k
  see_tail k none there = record {
    cap_pos = w.cap_pos;
    buf_length = w.buf_length;
    storing = w.storing;
    sent_length = w.sent_length;
    got_length = omega (
      arith, w.sent_length, w.got_length, w.published, w.released, w.reading, w.tail_seen,
      w.tail_old, w.head_old, w.head_seen,
    );
    published = w.published;
    released = w.released;
    reading = omega arith;
    tail_seen = there;
    tail_old = omega arith;
    head_old = w.head_old;
    head_seen = w.head_seen;
    slots = w.slots;
    order = w.order;
  }

  pub has_there : (k : ℕ) → t ≡ 0 → c.head + k ≤ c.cached_tail → Ring q p c sent got a u m 0 r k
  has_there k none there = record {
    cap_pos = w.cap_pos;
    buf_length = w.buf_length;
    storing = w.storing;
    sent_length = w.sent_length;
    got_length = omega (
      arith, w.sent_length, w.got_length, w.published, w.released, w.reading, w.tail_seen,
      w.tail_old, w.head_old, w.head_seen,
    );
    published = w.published;
    released = w.released;
    reading = omega arith;
    tail_seen = there;
    tail_old = w.tail_old;
    head_old = w.head_old;
    head_seen = w.head_seen;
    slots = w.slots;
    order = w.order;
  }

  token_read :
      t < h
      → (i : ℕ) → i < length (got ++ (get_or q.buf ((c.head + t) % q.cap) 0 ∷ []))
      → get_or (got ++ (get_or q.buf ((c.head + t) % q.cap) 0 ∷ [])) i 0 ≡ get_or sent i 0
  token_read more i k = ground (
    arith,
    w.tail_seen,
    w.tail_old,
    w.published,
    w.sent_length,
    w.got_length,
    w.order i,
    w.slots (c.head + t),
    length-append got (get_or q.buf ((c.head + t) % q.cap) 0 ∷ []),
    get_or-append_one got (get_or q.buf ((c.head + t) % q.cap) 0) i,
  )

  -- The consumer reads a token that is there.
  pub read :
      t < h
      → Ring q p c sent (got ++ (get_or q.buf ((c.head + t) % q.cap) 0 ∷ [])) a u m (t + 1) r h
  read more = record {
    cap_pos = w.cap_pos;
    buf_length = w.buf_length;
    storing = w.storing;
    sent_length = w.sent_length;
    got_length =
        omega (arith, w.got_length, length-append got (get_or q.buf ((c.head + t) % q.cap) 0 ∷ []));
    published = w.published;
    released = w.released;
    reading = omega arith;
    tail_seen = w.tail_seen;
    tail_old = w.tail_old;
    head_old = w.head_old;
    head_seen = w.head_seen;
    slots = w.slots;
    order = token_read more;
  }

  -- The consumer's head moves past what it read.
  pub move_head : r ≡ 0 → Ring q p (record c { head = add64 c.head t }) sent got a u m 0 t 0
  move_head none = record {
    cap_pos = w.cap_pos;
    buf_length = w.buf_length;
    storing = w.storing;
    sent_length = w.sent_length;
    got_length = omega (
      arith, w.sent_length, w.got_length, w.published, w.released, w.reading, w.tail_seen,
      w.tail_old, w.head_old, w.head_seen,
    );
    published = w.published;
    released = omega (
      arith, w.sent_length, w.got_length, w.published, w.released, w.reading, w.tail_seen,
      w.tail_old, w.head_old, w.head_seen,
    );
    reading = omega arith;
    tail_seen = omega (
      arith, w.sent_length, w.got_length, w.published, w.released, w.reading, w.tail_seen,
      w.tail_old, w.head_old, w.head_seen,
    );
    tail_old = w.tail_old;
    head_old = w.head_old;
    head_seen = w.head_seen;
    slots = λ i low high.
        w.slots i
          (omega (
            arith, w.sent_length, w.got_length, w.published, w.released, w.reading, w.tail_seen,
            w.tail_old, w.head_old, w.head_seen,
          ))
          high;
    order = w.order;
  }

  pub release : t ≡ 0 → Ring (record q { head = c.head }) p c sent got a u m 0 0 0
  release none = record {
    cap_pos = w.cap_pos;
    buf_length = w.buf_length;
    storing = w.storing;
    sent_length = w.sent_length;
    got_length = omega (
      arith, w.sent_length, w.got_length, w.published, w.released, w.reading, w.tail_seen,
      w.tail_old, w.head_old, w.head_seen,
    );
    published = w.published;
    released = omega arith;
    reading = omega arith;
    tail_seen = omega (
      arith, w.sent_length, w.got_length, w.published, w.released, w.reading, w.tail_seen,
      w.tail_old, w.head_old, w.head_seen,
    );
    tail_old = w.tail_old;
    head_old = omega (
      arith, w.sent_length, w.got_length, w.published, w.released, w.reading, w.tail_seen,
      w.tail_old, w.head_old, w.head_seen,
    );
    head_seen = w.head_seen;
    slots = w.slots;
    order = w.order;
  }
