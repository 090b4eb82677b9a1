-- ===== src/Handoff/Batch/Accesses.antt =====
-- Every access of the shared ring, and every step of an index, keeps the ring.
use native.Mathlib.Nat.{mod-lt}
use hi_perf_cmp.Prelude.{
  ℕ, ◌+◌, ◌%◌, ◌<◌, ◌≤◌, ◌≡◌, ◌∙◌, arith, List, [], ◌∷◌, ◌++◌, length, get_or, set, length-set,
  get_or-set, length-append,
}
use hi_perf_cmp.Handoff.Spsc.Invariant.{mod_distinct, get_or-append_one}
use hi_perf_cmp.Handoff.Batch.{Spsc, Producer, Consumer}
use hi_perf_cmp.Handoff.Batch.Invariant.{Ring}

module _ {q : Spsc} {p : Producer} {c : Consumer} {sent got : List ℕ} {a u m t r h : ℕ}
    (w : Ring q p c sent got a u m t r h) where
  -- The producer looks at the shared head, and finds room for `k`.
  pub see_head :
      (k : ℕ)
      → a ≡ 0
      → p.tail + k ≤ q.head + q.cap
      → Ring q (record p { cached_head = q.head }) c sent got a u k t r h
  see_head k first room = record {
    cap_pos = w.cap_pos;
    buf_length = w.buf_length;
    storing = omega arith;
    sent_length = w.sent_length;
    got_length = w.got_length;
    published = w.published;
    released = w.released;
    reading = w.reading;
    tail_seen = w.tail_seen;
    tail_old = w.tail_old;
    head_old = omega arith;
    head_seen = room;
    slots = w.slots;
    order = w.order;
  }

  pub has_room :
      (k : ℕ) → a ≡ 0 → p.tail + k ≤ p.cached_head + q.cap → Ring q p c sent got a u k t r h
  has_room k first room = record {
    cap_pos = w.cap_pos;
    buf_length = w.buf_length;
    storing = omega arith;
    sent_length = w.sent_length;
    got_length = w.got_length;
    published = w.published;
    released = w.released;
    reading = w.reading;
    tail_seen = w.tail_seen;
    tail_old = w.tail_old;
    head_old = w.head_old;
    head_seen = room;
    slots = w.slots;
    order = w.order;
  }

  slot_written :
      (x : ℕ)
      → a < m
      → (i : ℕ) → c.head ≤ i
      → i < length (sent ++ (x ∷ []))
      → get_or (set q.buf ((p.tail + a) % q.cap) x) (i % q.cap) 0 ≡ get_or (sent ++ (x ∷ [])) i 0
  slot_written x room i low high = ground (
    arith,
    w.head_seen,
    w.head_old,
    w.released,
    w.buf_length,
    w.sent_length,
    length-append sent (x ∷ []),
    w.slots i low,
    mod-lt (p.tail + a) w.cap_pos,
    mod_distinct i (p.tail + a) q.cap,
    get_or-append_one sent x i,
    get_or-set q.buf ((p.tail + a) % q.cap) (i % q.cap) x 0,
  )

  -- The producer stores a token for which there is room.
  pub store :
      (x : ℕ)
      → a < m
      → Ring
          (record q { buf = set q.buf ((p.tail + a) % q.cap) x })
          p
          c
          (sent ++ (x ∷ []))
          got
          (a + 1)
          u
          m
          t
          r
          h
  store x room = record {
    cap_pos = w.cap_pos;
    buf_length = length-set q.buf _ x ∙ w.buf_length;
    storing = omega arith;
    sent_length = omega (arith, w.sent_length, length-append sent (x ∷ []));
    got_length = w.got_length;
    published = w.published;
    released = w.released;
    reading = w.reading;
    tail_seen = w.tail_seen;
    tail_old = w.tail_old;
    head_old = w.head_old;
    head_seen = w.head_seen;
    slots = slot_written x room;
    order = λ i k. ground (
      arith,
      w.order i k,
      get_or-append_one sent x i,
      w.sent_length,
      w.got_length,
      w.reading,
      w.tail_seen,
      w.tail_old,
      w.published,
    );
  }
