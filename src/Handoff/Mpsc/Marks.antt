-- ===== src/Handoff/Mpsc/Marks.antt =====
-- The store to a mark, and the claim of a burst.
use mathlib.Core.Path.{subst}
use hi_perf_cmp.Prelude.{
  ℕ, ◌+◌, ◌-◌, ◌/◌, ◌%◌, ◌^◌, ◌<◌, ◌≤◌, ◌≡◌, ◌≢◌, refl, sym, ap, ◌∙◌, arith, Bool, true, false,
  Bool-cases, inl, inr, length, length-set, ◌==◌, ltb, leb, ◌&&◌, if◌then◌else◌, get_or, get_or-set,
  set,
}
use hi_perf_cmp.Prelude.Word.{add64}
use hi_perf_cmp.Handoff.Mpsc.{
  idle, waits, marks, MpProducer, Draining, outside, checks, reads, releases, Ring, put_producer,
  from_k, publish,
}
use hi_perf_cmp.Handoff.Mpsc.Invariant.{
  Owes, IsProducer, IsReading, IsRing, put_producer-all, shrinks, from_k-Owes, same_round,
}
use hi_perf_cmp.Handoff.Mpsc.Producers.{
  owed_at, at-Owes, bound_at, window_at, stored_at, not_before, other_slot, only_producer,
  from_k-IsProducer,
}

-- What is published stays published.
still-IsReading :
    (done done' : ℕ → Bool) (head : ℕ) (d : Draining)
    → ((i : ℕ) → done i ≡ true → done' i ≡ true)
    → IsReading done head d
    → IsReading done' head d
still-IsReading done done' head outside more h = tt
still-IsReading done done' head (checks m count) more h = tt
still-IsReading done done' head (reads m count) more h = more head h
still-IsReading done done' head releases more h = tt

module _ {s : Ring} (w : IsRing s) (p : ℕ) where
  -- The store to the mark of the slot.
  pub publish-marks :
      (v : ℕ) (fill : ℕ → ℕ) (seq n : ℕ) (f : ℕ → ℕ) (k : ℕ)
      → s.shared.claim < 2 ^ 63
      → (s.producers p).publishing ≡ marks seq n f k
      → IsRing (publish p v fill s (marks seq n f k))
  unfolding publish
  publish-marks v fill seq n f k few e =
      let owed = owed_at w p (marks seq n f k) e in
      let window = window_at w p (marks seq n f k) e in
      let bound = bound_at w p (marks seq n f k) e in
      let (less, have) = stored_at w p (marks seq n f k) e in
      let mine = owed (seq + k) (omega arith, omega arith) in
      let fits : add64 seq k ≡ seq + k = omega (arith, mine) in
      let owes = at-Owes w p (marks seq n f k) e in
      let slot_lt : (seq + k) % s.shared.cap < length s.shared.avail =
        omega (arith, w.avail_length, w.cap_pos) in
      let written = λ (i : ℕ).
        get_or-set s.shared.avail ((seq + k) % s.shared.cap) (i % s.shared.cap)
          ((seq + k) / s.shared.cap) 0 slot_lt in
      let fill_k : f (seq + k - seq) ≡ f k = ap f (omega arith) in
      rw fits (record {
        cap_pos = w.cap_pos;
        buf_length = w.buf_length;
        avail_length =
            length-set s.shared.avail ((seq + k) % s.shared.cap) ((seq + k) / s.shared.cap)
            ∙ w.avail_length;
        each =
            put_producer-all
              (λ q m.
                IsProducer
                  (record s.shared {
                    avail =
                        set s.shared.avail ((seq + k) % s.shared.cap) ((seq + k) / s.shared.cap);
                  })
                  s.token (λ i. if seq + k == i then true else s.done i) m)
              s.producers p _
              (from_k-IsProducer _ s.token (λ i. if seq + k == i then true else s.done i) seq n f
                (k + 1) _
                (λ i a b. let o = owed i (omega arith, b) in (ground (arith, o), o.1, o.2)) bound
                window (w.each p).cached)
              (λ q ne. record {
                owed = λ i h.
                    let o = (w.each q).owed i h in
                    let different : seq + k ≢ i = λ same. ne (
                      w.alone q p i h (
                        subst (λ j. Owes (s.producers p).publishing j) same
                          (owes (seq + k) (omega arith, omega arith)))) in
                    (ground (arith, o), o.1, o.2);
                bound = (w.each q).bound;
                window = (w.each q).window;
                cached = (w.each q).cached;
                stored = (w.each q).stored;
              });
        alone =
            shrinks s.producers p _ w.alone
              (λ i h. let r = from_k-Owes seq n f (k + 1) i h in owes i (omega (arith, r), r.1));
        head_old = w.head_old;
        head_fits = w.head_fits;
        taken = λ i h. ground (arith, w.taken i h);
        known = λ i h. ground (arith, w.known i, mine, window);
        slots = λ i h le. elim (Bool-cases (seq + k == i)) [
          | inl z ↦
              let same : seq + k ≡ i = ground arith in
              (
                written i
                    ∙ ground
                        (arith, ap (λ j. j % s.shared.cap) same, ap (λ j. j / s.shared.cap) same),
                ap (λ j. get_or s.shared.buf (j % s.shared.cap) 0) (sym same)
                    ∙ have
                    ∙ sym fill_k
                    ∙ sym mine.2
                    ∙ ap s.token same,
              )
          | inr z ↦
              let before : s.done i ≡ true = ground arith in
              let old = w.slots i before le in
              let slot =
                other_slot w p (seq + k) i (not_before w p (seq + k) mine.0) (omega (arith, mine))
                  le (w.known i before).1 (λ x. ground arith) in
              (written i ∙ ground (arith, old), old.1)
        ];
        marked = λ i small h. elim (Bool-cases (seq + k == i)) [
          | inl z ↦ rw z refl
          | inr z ↦ rw z (elim (Bool-cases ((seq + k) % s.shared.cap == i % s.shared.cap)) [
            | inl y ↦
                let round : (seq + k) / s.shared.cap ≡ i / s.shared.cap =
                  ground (arith, written i) in
                let same = same_round s.shared.cap (seq + k) i (ground arith) round in
                absurd (ground arith)
            | inr y ↦ w.marked i small (ground (arith, written i))
          ])
        ];
        reading =
            still-IsReading s.done (λ i. if seq + k == i then true else s.done i) s.consumer.head
              s.consumer.draining (λ i h. ground arith) w.reading;
        got_length = w.got_length;
        order = w.order;
      })

  -- The tokens after a claim of `n` sequences.
  abbrev claimed : ℕ → (ℕ → ℕ) → ℕ → ℕ
  claimed n fill i =
      if leb s.shared.claim i && ltb i (s.shared.claim + n)
      then fill (i - s.shared.claim)
      else s.token i

  -- `p` becomes a producer that owes only of what it claims.
  claim_burst :
      (n : ℕ) (fill : ℕ → ℕ) (v : MpProducer)
      → IsProducer (record s.shared { claim = s.shared.claim + n }) (claimed n fill) s.done v
      → ((i : ℕ) → Owes v.publishing i → s.shared.claim ≤ i)
      → IsRing (record s {
        shared = record s.shared { claim = s.shared.claim + n };
        producers = put_producer s.producers p v;
        token = claimed n fill;
      })
  claim_burst n fill v ok above =
      let old : (i : ℕ) → i < s.shared.claim → claimed n fill i ≡ s.token i =
        λ i lt. ground arith in
      record {
        cap_pos = w.cap_pos;
        buf_length = w.buf_length;
        avail_length = w.avail_length;
        each =
            put_producer-all
              (λ q m.
                IsProducer (record s.shared { claim = s.shared.claim + n }) (claimed n fill) s.done
                  m)
              s.producers p v ok
              (λ q ne. record {
                owed =
                    λ i h. let o = (w.each q).owed i h in (o.0, omega (arith, o), old i o.1 ∙ o.2);
                bound = omega (arith, (w.each q).bound);
                window = (w.each q).window;
                cached = (w.each q).cached;
                stored = (w.each q).stored;
              });
        alone = λ q r i.
            put_producer-all
              (λ z m.
                Owes m.publishing i → Owes (put_producer s.producers p v r).publishing i → z ≡ r)
              s.producers p v
              (λ h.
                put_producer-all (λ z m. Owes m.publishing i → p ≡ z) s.producers p v (λ k. refl)
                  (λ z ne k. absurd (omega (arith, above i h, (w.each z).owed i k))) r)
              (λ z ne h.
                put_producer-all (λ y m. Owes m.publishing i → z ≡ y) s.producers p v
                  (λ k. absurd (omega (arith, above i k, (w.each z).owed i h)))
                  (λ y ne' k. w.alone z y i h k) r)
              q;
        head_old = w.head_old;
        head_fits = omega (arith, w.head_fits);
        taken = w.taken;
        known = λ i h. (omega (arith, w.known i h), (w.known i h).1);
        slots = λ i h le. ((w.slots i h le).0, (w.slots i h le).1 ∙ sym (old i (w.known i h).0));
        marked = w.marked;
        reading = w.reading;
        got_length = w.got_length;
        order = λ i lt. w.order i lt ∙ sym (old i (omega (arith, w.head_fits)));
      }

  -- The claim of a burst.
  pub publish-idle :
      (n : ℕ) (fill : ℕ → ℕ)
      → s.shared.claim + n < 2 ^ 63
      → (s.producers p).publishing ≡ idle
      → IsRing (publish p n fill s idle)
  unfolding publish
  publish-idle n fill few e = elim (Bool-cases (leb n s.shared.cap)) [
    | inl z ↦
        let fits : add64 s.shared.claim n ≡ s.shared.claim + n = omega arith in
        let token : (i : ℕ)
            → s.shared.claim ≤ i
            → i < s.shared.claim + n
            → (s.done i ≡ false)
              × (i < s.shared.claim + n)
              × (claimed n fill i ≡ fill (i - s.shared.claim)) =
          λ i a b.
            let same : claimed n fill i ≡ fill (i - s.shared.claim) = ground arith in
            let fresh : s.done i ≡ false = ground (arith, w.known i) in (fresh, b, same) in
        let m = s.producers p in
        rw (z, fits)
          (elim (Bool-cases (ltb m.cached_head (s.shared.claim + n - s.shared.cap))) [
            | inl y ↦ rw y (
                claim_burst n fill
                  (record { cached_head = m.cached_head; publishing = waits s.shared.claim n fill })
                  (record {
                    owed = λ i h. token i h.0 h.1;
                    bound = omega arith;
                    window = omega arith;
                    cached = (w.each p).cached;
                    stored = tt;
                  })
                  (λ i h. h.0))
            | inr y ↦ rw y (
                claim_burst n fill
                  (record {
                    cached_head = m.cached_head;
                    publishing = from_k s.shared.claim n fill 0;
                  })
                  (from_k-IsProducer (record s.shared { claim = s.shared.claim + n })
                    (claimed n fill) s.done s.shared.claim n fill 0 m.cached_head
                    (λ i a b. token i (omega arith) b) (omega arith)
                    (ground (arith, (w.each p).cached)) (w.each p).cached)
                  (λ i h. omega (arith, from_k-Owes s.shared.claim n fill 0 i h)))
          ])
    | inr z ↦ rw z (
        only_producer w p _
          (record {
            owed = λ i h. absurd (omega (arith, h));
            bound = omega arith;
            window = omega arith;
            cached = (w.each p).cached;
            stored = tt;
          })
          (λ i h. absurd (omega (arith, h))))
  ]
