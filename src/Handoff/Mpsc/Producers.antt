-- ===== src/Handoff/Mpsc/Producers.antt =====
-- Each access of a producer keeps the ring's invariant.
use native.Mathlib.Decide.{dec_lt}
use mathlib.Core.Path.{subst}
use hi_perf_cmp.Prelude.{
  ℕ, ◌+◌, ◌-◌, ◌%◌, ◌^◌, ◌<◌, ◌≤◌, ◌≡◌, ◌≢◌, refl, sym, ap, ◌∙◌, arith, Bool, false, Bool-cases,
  inl, inr, length, length-set, ltb, leb, get_or-set, set,
}
use hi_perf_cmp.Prelude.Word.{add64}
use hi_perf_cmp.Handoff.Mpsc.{
  Mpsc, Publishing, idle, stopped, waits, stores, marks, MpProducer, Ring, put_producer, from_k,
  need, publish,
}
use hi_perf_cmp.Handoff.Mpsc.Invariant.{
  last, Owes, fill_at, window_end, HasStored, IsProducer, IsRing, put_producer-all, shrinks,
  from_k-Owes, same_slot,
}

-- A producer that enters the loop at `k`.
pub from_k-IsProducer :
    (r : Mpsc) (token : ℕ → ℕ) (done : ℕ → Bool) (seq n : ℕ) (f : ℕ → ℕ) (k cached : ℕ)
    → ((i : ℕ)
        → seq + k ≤ i
        → i < seq + n
        → (done i ≡ false) × (i < r.claim) × (token i ≡ f (i - seq)))
    → seq + n ≤ r.claim
    → seq + n ≤ r.head + r.cap
    → cached ≤ r.head
    → IsProducer r token done (record { cached_head = cached; publishing = from_k seq n f k })
from_k-IsProducer r token done seq n f k cached owed bound window le = elim (Bool-cases (ltb k n)) [
  | inl e ↦ rw e (record {
    owed = λ i h. owed i h.0 h.1;
    bound = bound;
    window = window;
    cached = le;
    stored = ground arith;
  })
  | inr e ↦ rw e (record {
    owed = λ i h. absurd (omega (arith, h));
    bound = omega arith;
    window = omega arith;
    cached = le;
    stored = tt;
  })
]

module _ {s : Ring} (w : IsRing s) (p : ℕ) where
  abbrev here : MpProducer
  here = s.producers p

  -- Only the producer changes, and owes nothing new.
  pub only_producer :
      (v : MpProducer)
      → IsProducer s.shared s.token s.done v
      → ((i : ℕ) → Owes v.publishing i → Owes here.publishing i)
      → IsRing (record s { producers = put_producer s.producers p v })
  only_producer v ok less = record {
    cap_pos = w.cap_pos;
    buf_length = w.buf_length;
    avail_length = w.avail_length;
    each =
        put_producer-all (λ q m. IsProducer s.shared s.token s.done m) s.producers p v ok
          (λ q ne. w.each q);
    alone = shrinks s.producers p v w.alone less;
    head_old = w.head_old;
    head_fits = w.head_fits;
    taken = w.taken;
    known = w.known;
    slots = w.slots;
    marked = w.marked;
    reading = w.reading;
    got_length = w.got_length;
    order = w.order;
  }

  -- What producer `p` owes, where it stands at `at`.
  pub owed_at :
      (at : Publishing)
      → here.publishing ≡ at
      → (i : ℕ) → Owes at i
      → (s.done i ≡ false) × (i < s.shared.claim) × (s.token i ≡ fill_at at i)
  owed_at at e =
      subst
        (λ z.
          (i : ℕ)
          → Owes z i
          → (s.done i ≡ false) × (i < s.shared.claim) × (s.token i ≡ fill_at z i))
        e (w.each p).owed

  pub at-Owes :
      (at : Publishing) → here.publishing ≡ at → (i : ℕ) → Owes at i → Owes here.publishing i
  at-Owes at e i = subst (λ z. Owes z i) (sym e)

  pub bound_at : (at : Publishing) → here.publishing ≡ at → last at ≤ s.shared.claim
  bound_at at e = subst (λ z. last z ≤ s.shared.claim) e (w.each p).bound

  pub window_at :
      (at : Publishing) → here.publishing ≡ at → window_end at ≤ s.shared.head + s.shared.cap
  window_at at e = subst (λ z. window_end z ≤ s.shared.head + s.shared.cap) e (w.each p).window

  pub stored_at : (at : Publishing) → here.publishing ≡ at → HasStored s.shared.buf s.shared.cap at
  stored_at at e = subst (HasStored s.shared.buf s.shared.cap) e (w.each p).stored

  -- The loop on a full ring.
  pub publish-waits :
      (v : ℕ) (fill : ℕ → ℕ) (seq n : ℕ) (f : ℕ → ℕ)
      → s.shared.claim < 2 ^ 63
      → here.publishing ≡ waits seq n f
      → IsRing (publish p v fill s (waits seq n f))
  unfolding publish
  publish-waits v fill seq n f few e =
      let bound = bound_at (waits seq n f) e in
      let owed = owed_at (waits seq n f) e in
      elim (Bool-cases (leb (need seq n s.shared.cap) s.shared.head)) [
        | inl z ↦ rw z (
            only_producer (record { cached_head = s.shared.head; publishing = from_k seq n f 0 })
              (from_k-IsProducer s.shared s.token s.done seq n f 0 s.shared.head
                (λ i a b. owed i (omega arith, b)) bound (ground arith) (omega arith))
              (λ i h.
                at-Owes (waits seq n f) e i
                  (let r = from_k-Owes seq n f 0 i h in (omega (arith, r), r.1))))
        | inr z ↦ rw z (
            only_producer (record { cached_head = s.shared.head; publishing = waits seq n f })
              (record {
                owed = owed;
                bound = bound;
                window = omega arith;
                cached = omega arith;
                stored = tt;
              })
              (at-Owes (waits seq n f) e))
      ]

  -- A sequence that is not published is not before the consumer.
  pub not_before : (i : ℕ) → s.done i ≡ false → s.consumer.head ≤ i
  not_before i h = elim (dec_lt i s.consumer.head) [
    | yes lt ↦ absurd (ground (arith, w.taken i lt))
    | no ge ↦ omega arith
  ]

  -- The slots of two unpublished or undrained sequences of the window differ.
  pub other_slot :
      (i j : ℕ)
      → s.consumer.head ≤ i
      → i < s.shared.head + s.shared.cap
      → s.consumer.head ≤ j
      → j < s.shared.head + s.shared.cap
      → i ≢ j
      → i % s.shared.cap ≢ j % s.shared.cap
  other_slot i j a b c d ne same = ne (
      same_slot s.consumer.head s.shared.cap i j w.cap_pos a (omega (arith, w.head_old)) c
        (omega (arith, w.head_old)) same)

  -- A write to the slot of a sequence `i` of `p` leaves what other producers have stored.
  still_stored :
      (i x q : ℕ)
      → q ≢ p
      → Owes here.publishing i
      → s.done i ≡ false
      → i < s.shared.head + s.shared.cap
      → HasStored (set s.shared.buf (i % s.shared.cap) x) s.shared.cap (s.producers q).publishing
  still_stored i x q ne mine unmarked in_window = go (s.producers q).publishing refl
    where
      go :
          (at : Publishing)
          → (s.producers q).publishing ≡ at
          → HasStored (set s.shared.buf (i % s.shared.cap) x) s.shared.cap at
      go idle e = tt
      go stopped e = tt
      go (waits seq n f) e = tt
      go (stores seq n f k) e = subst (HasStored s.shared.buf s.shared.cap) e (w.each q).stored
      go (marks seq n f k) e =
          let (lt, have) = subst (HasStored s.shared.buf s.shared.cap) e (w.each q).stored in
          let theirs : Owes (s.producers q).publishing (seq + k) =
            subst (λ z. Owes z (seq + k)) (sym e) (omega arith, omega arith) in
          let unpublished = ((w.each q).owed (seq + k) theirs).0 in
          let window =
            subst (λ z. window_end z ≤ s.shared.head + s.shared.cap) e (w.each q).window in
          let different : i ≢ seq + k =
            λ h. ne (w.alone q p (seq + k) theirs (subst (λ j. Owes here.publishing j) h mine)) in
          let slot =
            other_slot i (seq + k) (not_before i unmarked) in_window
              (not_before (seq + k) unpublished) (omega arith) different in
          (
            lt,
            get_or-set s.shared.buf (i % s.shared.cap) ((seq + k) % s.shared.cap) x 0
                  (omega (arith, w.buf_length, w.cap_pos))
                ∙ ground (arith, have),
          )

  -- The store to the slot.
  pub publish-stores :
      (v : ℕ) (fill : ℕ → ℕ) (seq n : ℕ) (f : ℕ → ℕ) (k : ℕ)
      → s.shared.claim < 2 ^ 63
      → here.publishing ≡ stores seq n f k
      → IsRing (publish p v fill s (stores seq n f k))
  unfolding publish
  publish-stores v fill seq n f k few e =
      let owed = owed_at (stores seq n f k) e in
      let window = window_at (stores seq n f k) e in
      let less : k < n = stored_at (stores seq n f k) e in
      let mine = owed (seq + k) (omega arith, omega arith) in
      let fits : add64 seq k ≡ seq + k = omega (arith, mine) in
      let owes = at-Owes (stores seq n f k) e in
      let slot_lt : (seq + k) % s.shared.cap < length s.shared.buf =
        omega (arith, w.buf_length, w.cap_pos) in
      rw fits (record {
        cap_pos = w.cap_pos;
        buf_length = length-set s.shared.buf ((seq + k) % s.shared.cap) (f k) ∙ w.buf_length;
        avail_length = w.avail_length;
        each =
            put_producer-all
              (λ q m.
                IsProducer
                  (record s.shared { buf = set s.shared.buf ((seq + k) % s.shared.cap) (f k) })
                  s.token s.done m)
              s.producers p _
              (record {
                owed = owed;
                bound = bound_at (stores seq n f k) e;
                window = window;
                cached = (w.each p).cached;
                stored = (
                  less,
                  get_or-set s.shared.buf ((seq + k) % s.shared.cap) ((seq + k) % s.shared.cap)
                        (f k) 0 slot_lt
                      ∙ ground arith,
                );
              })
              (λ q ne. record {
                owed = (w.each q).owed;
                bound = (w.each q).bound;
                window = (w.each q).window;
                cached = (w.each q).cached;
                stored =
                    still_stored (seq + k) (f k) q ne (owes (seq + k) (omega arith, omega arith))
                      mine.0 (omega arith);
              });
        alone = shrinks s.producers p _ w.alone owes;
        head_old = w.head_old;
        head_fits = w.head_fits;
        taken = w.taken;
        known = w.known;
        slots = λ i h le.
            let old = w.slots i h le in
            let different : seq + k ≢ i = λ same. ground (arith, mine, ap s.done same) in
            let slot =
              other_slot (seq + k) i (not_before (seq + k) mine.0) (omega arith) le (w.known i h).1
                different in
            (
              old.0,
              get_or-set s.shared.buf ((seq + k) % s.shared.cap) (i % s.shared.cap) (f k) 0 slot_lt
                  ∙ ground (arith, old),
            );
        marked = w.marked;
        reading = w.reading;
        got_length = w.got_length;
        order = w.order;
      })
