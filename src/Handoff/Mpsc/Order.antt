-- ===== src/Handoff/Mpsc/Order.antt =====
-- What the ring promises under every schedule of its threads.
use native.Mathlib.Nat.{div-add-mod}
use native.Mathlib.Decide.{dec_lt}
use mathlib.Core.Path.{subst}
use hi_perf_cmp.Prelude.{
  ℕ, zero, suc, ◌+◌, ◌/◌, ◌%◌, ◌^◌, ◌<◌, ◌≤◌, ◌≡◌, refl, sym, ap, ◌∙◌, arith, Bool, true,
  Bool-cases, inl, inr, List, [], ◌∷◌, length, length-append, length-replicate, ◌==◌, ltb, leb,
  get_or, replicate,
}
use hi_perf_cmp.Prelude.Word.{add64}
use hi_perf_cmp.Handoff.Spsc.Invariant.{get_or-append_one}
use hi_perf_cmp.Handoff.Mpsc.{
  new, ring, never, Publishing, idle, stopped, waits, stores, marks, Draining, outside, checks,
  reads, releases, Ring, publish, drain, ends, Turn, produce, consume, turn, run,
}
use hi_perf_cmp.Handoff.Mpsc.Invariant.{IsReading, IsRing}
use hi_perf_cmp.Handoff.Mpsc.Producers.{publish-waits, publish-stores}
use hi_perf_cmp.Handoff.Mpsc.Marks.{publish-idle, publish-marks}

module _ {s : Ring} (w : IsRing s) where
  -- Only the place of the consumer in `drain` changes.
  only_draining :
      (d : Draining)
      → IsReading s.done s.consumer.head d
      → IsRing (record s { consumer = record s.consumer { draining = d } })
  only_draining d ok = record {
    cap_pos = w.cap_pos;
    buf_length = w.buf_length;
    avail_length = w.avail_length;
    each = w.each;
    alone = w.alone;
    head_old = w.head_old;
    head_fits = w.head_fits;
    taken = w.taken;
    known = w.known;
    slots = w.slots;
    marked = w.marked;
    reading = ok;
    got_length = w.got_length;
    order = w.order;
  }

  ends-IsReading : (done : ℕ → Bool) (head count : ℕ) → IsReading done head (ends count)
  ends-IsReading done head count = elim (Bool-cases (ltb 0 count)) [
    | inl e ↦ rw e tt
    | inr e ↦ rw e tt
  ]

  drain-IsRing :
      (max : ℕ) (d : Draining)
      → s.shared.claim < 2 ^ 63
      → s.consumer.draining ≡ d
      → IsRing (drain max s d)
  unfolding drain
  drain-IsRing max outside few e = elim (Bool-cases (ltb 0 max)) [
    | inl z ↦ rw z (only_draining (checks max 0) tt)
    | inr z ↦ rw z (only_draining outside tt)
  ]
  drain-IsRing max (checks m count) few e =
      elim (Bool-cases (
        get_or s.shared.avail (s.consumer.head % s.shared.cap) 0
        == s.consumer.head / s.shared.cap)) [
          | inl z ↦ rw z (
              only_draining (reads m count)
                (w.marked s.consumer.head (omega (arith, w.head_fits)) (ground arith)))
          | inr z ↦ rw z (only_draining (ends count) (ends-IsReading s.done s.consumer.head count))
        ]
  drain-IsRing max (reads m count) few e =
      let done : s.done s.consumer.head ≡ true =
        subst (IsReading s.done s.consumer.head) e w.reading in
      let here = w.slots s.consumer.head done (omega arith) in
      let known = w.known s.consumer.head done in
      let up : add64 s.consumer.head 1 ≡ s.consumer.head + 1 = omega (arith, known) in
      let token = get_or s.shared.buf (s.consumer.head % s.shared.cap) 0 in
      rw up (record {
        cap_pos = w.cap_pos;
        buf_length = w.buf_length;
        avail_length = w.avail_length;
        each = w.each;
        alone = w.alone;
        head_old = omega (arith, w.head_old);
        head_fits = omega (arith, known);
        taken = λ i lt. elim (dec_lt i s.consumer.head) [
          | yes below ↦ w.taken i below
          | no ge ↦ let same : s.consumer.head ≡ i = omega arith in ap s.done (sym same) ∙ done
        ];
        known = w.known;
        slots = λ i h le. w.slots i h (omega arith);
        marked = w.marked;
        reading = elim (Bool-cases (ltb (count + 1) m)) [
          | inl z ↦ rw z tt
          | inr z ↦ rw z (ends-IsReading s.done (s.consumer.head + 1) (count + 1))
        ];
        got_length = length-append s.got (token ∷ []) ∙ omega (arith, w.got_length);
        order = λ i lt. elim (dec_lt i s.consumer.head) [
          | yes below ↦
              get_or-append_one s.got token i ∙ ground (arith, w.got_length, w.order i below)
          | no ge ↦
              let same : s.consumer.head ≡ i = omega arith in
              get_or-append_one s.got token i ∙ ground (arith, w.got_length, here, ap s.token same)
        ];
      })
  drain-IsRing max releases few e = record {
    cap_pos = w.cap_pos;
    buf_length = w.buf_length;
    avail_length = w.avail_length;
    each = λ p. record {
      owed = (w.each p).owed;
      bound = (w.each p).bound;
      window = omega (arith, (w.each p).window, w.head_old);
      cached = omega (arith, (w.each p).cached, w.head_old);
      stored = (w.each p).stored;
    };
    alone = w.alone;
    head_old = omega arith;
    head_fits = w.head_fits;
    taken = w.taken;
    known = λ i h. ((w.known i h).0, omega (arith, w.known i h, w.head_old));
    slots = w.slots;
    marked = w.marked;
    reading = tt;
    got_length = w.got_length;
    order = w.order;
  }

  publish-stopped : (p n : ℕ) (fill : ℕ → ℕ) → IsRing (publish p n fill s stopped)
  unfolding publish
  publish-stopped p n fill = w

  publish-IsRing :
      (p n : ℕ) (fill : ℕ → ℕ) (at : Publishing)
      → s.shared.claim + n < 2 ^ 63
      → (s.producers p).publishing ≡ at
      → IsRing (publish p n fill s at)
  publish-IsRing p n fill idle few e = publish-idle w p n fill few e
  publish-IsRing p n fill stopped few e = publish-stopped p n fill
  publish-IsRing p n fill (waits seq m f) few e = publish-waits w p n fill seq m f (omega arith) e
  publish-IsRing p n fill (stores seq m f k) few e =
      publish-stores w p n fill seq m f k (omega arith) e
  publish-IsRing p n fill (marks seq m f k) few e =
      publish-marks w p n fill seq m f k (omega arith) e

-- The sequences that a schedule claims at most.
abbrev pub claims : List Turn → ℕ
claims [] = 0
claims (produce p n fill ∷ ts) = n + claims ts
claims (consume max ∷ ts) = claims ts

publish_claim :
    (p n c : ℕ) (fill : ℕ → ℕ) (s : Ring) (at : Publishing)
    → s.shared.claim + (n + c) < 2 ^ 63
    → (publish p n fill s at).shared.claim + c < 2 ^ 63
unfolding publish
publish_claim p n c fill s idle few = elim (Bool-cases (leb n s.shared.cap)) [
  | inl z ↦ rw z (omega arith)
  | inr z ↦ rw z (omega arith)
]
publish_claim p n c fill s stopped few = omega arith
publish_claim p n c fill s (waits seq m f) few = omega arith
publish_claim p n c fill s (stores seq m f k) few = omega arith
publish_claim p n c fill s (marks seq m f k) few = omega arith

drain_claim : (max : ℕ) (s : Ring) (d : Draining) → (drain max s d).shared.claim ≡ s.shared.claim
unfolding drain
drain_claim max s outside = refl
drain_claim max s (checks m count) = refl
drain_claim max s (reads m count) = refl
drain_claim max s releases = refl

pub run-IsRing :
    (ts : List Turn) {s : Ring} → IsRing s → s.shared.claim + claims ts < 2 ^ 63 → IsRing (run ts s)
unfolding run turn
run-IsRing [] w few = w
run-IsRing (produce p n fill ∷ ts) {s} w few =
    let at = (s.producers p).publishing in
    run-IsRing ts (publish-IsRing w p n fill at (omega arith) refl)
      (publish_claim p n (claims ts) fill s at few)
run-IsRing (consume max ∷ ts) {s} w few =
    let d = s.consumer.draining in
    run-IsRing ts (drain-IsRing w max d (omega arith) refl) (omega (arith, drain_claim max s d))

get_or-replicate_in : (n i a d : ℕ) → i < n → get_or (replicate n a) i d ≡ a
get_or-replicate_in zero i a d lt = absurd (omega arith)
get_or-replicate_in (suc n) zero a d lt = refl
get_or-replicate_in (suc n) (suc i) a d lt = get_or-replicate_in n i a d (omega arith)

quotient : (c i : ℕ) → 0 < c → i / c ≤ i
quotient c i pos = grind (arith, div-add-mod i c)

ring_claim : (size c : ℕ) → c < 2 ^ 63 → (ring size).shared.claim + c < 2 ^ 63
unfolding ring new
ring_claim size c few = omega arith

pub ring-IsRing : (size : ℕ) → 0 < size → IsRing (ring size)
unfolding ring new
ring-IsRing size pos = record {
  cap_pos = pos;
  buf_length = length-replicate size 0;
  avail_length = length-replicate size never;
  each = λ p. record {
    owed = λ i h. absurd (omega (arith, h));
    bound = omega arith;
    window = omega arith;
    cached = omega arith;
    stored = tt;
  };
  alone = λ p q i h k. absurd (omega (arith, h));
  head_old = omega arith;
  head_fits = omega arith;
  taken = λ i h. absurd (omega arith);
  known = λ i h. absurd (ground arith);
  slots = λ i h k. absurd (ground arith);
  marked = λ i small h. absurd (
      ground
        (arith, get_or-replicate_in size (i % size) never 0 (omega arith), quotient size i pos));
  reading = tt;
  got_length = refl;
  order = λ i h. absurd (omega arith);
}

-- Under every schedule of the producers and the consumer of a ring of positive capacity, the tokens that
-- were drained are those of the sequences 0, 1, 2, ... in this order, each once: the token at `i` is the one that the producer
-- which claimed sequence `i` fills in. The schedule claims fewer than 2^63 sequences.
pub run-Delivers :
    (ts : List Turn) (size i : ℕ)
    → 0 < size
    → claims ts < 2 ^ 63
    → i < length (run ts (ring size)).got
    → (get_or (run ts (ring size)).got i 0 ≡ (run ts (ring size)).token i)
      × (i < (run ts (ring size)).shared.claim)
run-Delivers ts size i pos few lt =
    let w : IsRing (run ts (ring size)) =
      run-IsRing ts (ring-IsRing size pos) (ring_claim size (claims ts) few) in
    (w.order i (omega (arith, w.got_length)), omega (arith, w.got_length, w.head_fits))
