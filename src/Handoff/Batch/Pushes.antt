-- ===== src/Handoff/Batch/Pushes.antt =====
-- Every turn of the producer keeps the invariant.
use mathlib.Core.Path.{subst}
use hi_perf_cmp.Prelude.{
  ℕ, ◌+◌, ◌%◌, ◌^◌, ◌<◌, ◌≤◌, ◌≡◌, refl, arith, [], ◌∷◌, ◌++◌, length, set, Bool-cases, inl, inr,
  false, ltb, ◌==◌, length-append, if◌then◌else◌,
}
use hi_perf_cmp.Prelude.Word.{add64, sub64}
use hi_perf_cmp.Handoff.Batch.{
  Pushing, resting, waits, writes, batch_waits, fills, publishes, panicked, Push, push,
  batch_publish, Channel, from_k, start_push, produce,
}
use hi_perf_cmp.Handoff.Batch.Invariant.{
  stored, unpublished, left, burst, has_space, taken, unreleased, has_tokens, to_take, Ring, IsRing,
}
use hi_perf_cmp.Handoff.Batch.Accesses.{see_head, has_room, store}
use hi_perf_cmp.Handoff.Batch.Indices.{move_tail, publish}

-- The ring of a state in which the producer stands so.
abbrev Producing : Channel → ℕ → ℕ → ℕ → Type 0
Producing s a u m =
    Ring s.shared s.producer s.consumer s.sent s.got a u m (taken s.popping) (unreleased s.popping)
      (has_tokens s.popping)

from_k-IsRing :
    (n : ℕ) (fill : ℕ → ℕ) (k : ℕ) (s : Channel)
    → Producing s k 0 n
    → 0 < to_take s.popping
    → k ≤ n
    → length s.sent + s.shared.cap < 2 ^ 64
    → IsRing (from_k n fill k s)
unfolding from_k
from_k-IsRing n fill k s w d le few = elim (Bool-cases (ltb k n)) [
  | inl more ↦
      rw more (record { ring = w; filling = ground arith; draining = d; bursts = omega arith })
  | inr done ↦
      let e : k ≡ n = ground arith in
      rw done (record {
        ring =
            subst
              (λ j.
                Ring s.shared (record s.producer { tail = add64 s.producer.tail j }) s.consumer
                  s.sent s.got 0 j 0 (taken s.popping) (unreleased s.popping)
                  (has_tokens s.popping))
              e (move_tail w few le refl);
        filling = omega arith;
        draining = d;
        bursts = omega arith;
      })
]

-- A burst that the test admits has room.
room_for :
    (tail n seen cap : ℕ)
    → ltb cap (sub64 (add64 tail n) seen) ≡ false
    → seen ≤ tail
    → n ≤ cap
    → tail + cap < 2 ^ 64
    → tail + n ≤ seen + cap
room_for tail n seen cap free old le few = ground arith

module _ {s : Channel} (w : IsRing s) (few : length s.sent + 1 + s.shared.cap < 2 ^ 64) where
  ring_at : (x : Pushing) → s.pushing ≡ x → Producing s (stored x) (unpublished x) (has_space x)
  ring_at x e = subst (λ y. Producing s (stored y) (unpublished y) (has_space y)) e w.ring

  push_starts : (v : ℕ) → Producing s 0 0 0 → IsRing (start_push s (push v))
  unfolding start_push
  push_starts v r =
      elim (Bool-cases (sub64 s.producer.tail s.producer.cached_head == s.shared.cap)) [
        | inl full ↦ rw full (record {
          ring = r;
          filling = omega arith;
          draining = w.draining;
          bursts = omega arith;
        })
        | inr free ↦ rw free (record {
          ring = has_room r 1 refl (
              ground (
                arith, r.head_seen, r.head_old, r.released, r.tail_seen, r.tail_old, r.published,
                r.sent_length,
              ));
          filling = omega arith;
          draining = w.draining;
          bursts = omega arith;
        })
      ]

  batch_starts :
      (n : ℕ) (fill : ℕ → ℕ) → Producing s 0 0 0 → IsRing (start_push s (batch_publish n fill))
  unfolding start_push
  batch_starts n fill r = elim (Bool-cases (ltb s.shared.cap n)) [
    | inl large ↦
        rw large
          (record { ring = r; filling = omega arith; draining = w.draining; bursts = omega arith })
    | inr fits ↦ rw fits (small (ground arith))
  ]
    where
      small :
          n ≤ s.shared.cap
          → IsRing (
              if ltb s.shared.cap (sub64 (add64 s.producer.tail n) s.producer.cached_head)
              then record s { pushing = batch_waits n fill }
              else from_k n fill 0 s)
      small le =
          elim (Bool-cases
            (ltb s.shared.cap (sub64 (add64 s.producer.tail n) s.producer.cached_head))) [
              | inl full ↦ rw full (record {
                ring = r;
                filling = omega arith;
                draining = w.draining;
                bursts = omega arith;
              })
              | inr free ↦ rw free (
                  from_k-IsRing n fill 0 s
                    (has_room r n refl (
                      room_for s.producer.tail n s.producer.cached_head s.shared.cap free
                        (omega arith) le (omega arith)))
                    w.draining (omega arith) (omega arith))
            ]

  push_waits : (c : Push) (x : ℕ) → Producing s 0 0 0 → IsRing (produce c s (waits x))
  unfolding produce
  push_waits c x r = elim (Bool-cases (ltb (sub64 s.producer.tail s.shared.head) s.shared.cap)) [
    | inl free ↦ rw free (record {
      ring = see_head r 1 refl (
          ground (
            arith, r.head_seen, r.head_old, r.released, r.tail_seen, r.tail_old, r.published,
            r.sent_length,
          ));
      filling = omega arith;
      draining = w.draining;
      bursts = omega arith;
    })
    | inr full ↦ rw full (record {
      ring = see_head r 0 refl (omega arith);
      filling = omega arith;
      draining = w.draining;
      bursts = omega arith;
    })
  ]

  push_writes : (c : Push) (x : ℕ) → Producing s 0 0 1 → IsRing (produce c s (writes x))
  unfolding produce
  push_writes c x r =
      let here : s.producer.tail + 0 ≡ s.producer.tail = omega arith in
      let q = store r x (omega arith) in
      record {
        ring =
            subst
              (λ j.
                Ring (record s.shared { buf = set s.shared.buf (j % s.shared.cap) x })
                  (record s.producer { tail = add64 s.producer.tail 1 }) s.consumer
                  (s.sent ++ (x ∷ [])) s.got 0 1 0 (taken s.popping) (unreleased s.popping)
                  (has_tokens s.popping))
              here (move_tail q (omega (arith, length-append s.sent (x ∷ []))) (omega arith) refl);
        filling = omega arith;
        draining = w.draining;
        bursts = omega arith;
      }

  batch_waits-IsRing :
      (c : Push) (n : ℕ) (fill : ℕ → ℕ)
      → n ≤ s.shared.cap
      → Producing s 0 0 0
      → IsRing (produce c s (batch_waits n fill))
  unfolding produce
  batch_waits-IsRing c n fill le r =
      elim (Bool-cases (ltb s.shared.cap (sub64 (add64 s.producer.tail n) s.shared.head))) [
        | inl full ↦ rw full (record {
          ring = see_head r 0 refl (omega arith);
          filling = omega arith;
          draining = w.draining;
          bursts = le;
        })
        | inr free ↦ rw free (
            from_k-IsRing n fill 0
              (record s {
                producer = record s.producer { cached_head = s.shared.head };
                pushing = batch_waits n fill;
              })
              (see_head r n refl (
                room_for s.producer.tail n s.shared.head s.shared.cap free (omega arith) le
                  (omega arith)))
              w.draining (omega arith) (omega arith))
      ]

  batch_fills :
      (c : Push) (n : ℕ) (fill : ℕ → ℕ) (k : ℕ)
      → k < n
      → Producing s k 0 n
      → IsRing (produce c s (fills n fill k))
  unfolding produce
  batch_fills c n fill k more r =
      let here : s.producer.tail + k ≡ add64 s.producer.tail k = omega arith in
      from_k-IsRing n fill (k + 1)
        (record s {
          shared = record s.shared {
            buf = set s.shared.buf (add64 s.producer.tail k % s.shared.cap) (fill k);
          };
          sent = s.sent ++ (fill k ∷ []);
        })
        (subst
          (λ j.
            Ring (record s.shared { buf = set s.shared.buf (j % s.shared.cap) (fill k) }) s.producer
              s.consumer (s.sent ++ (fill k ∷ [])) s.got (k + 1) 0 n (taken s.popping)
              (unreleased s.popping) (has_tokens s.popping))
          here (store r (fill k) more))
        w.draining (omega arith) (omega (arith, length-append s.sent (fill k ∷ [])))

  pub produce-IsRing : (c : Push) (x : Pushing) → s.pushing ≡ x → IsRing (produce c s x)
  unfolding produce
  produce-IsRing (push v) resting e = push_starts v (ring_at resting e)
  produce-IsRing (batch_publish n fill) resting e = batch_starts n fill (ring_at resting e)
  produce-IsRing c (waits x) e = push_waits c x (ring_at (waits x) e)
  produce-IsRing c (writes x) e = push_writes c x (ring_at (writes x) e)
  produce-IsRing c (batch_waits n fill) e =
      batch_waits-IsRing c n fill (subst (λ y. burst y ≤ s.shared.cap) e w.bursts)
        (ring_at (batch_waits n fill) e)
  produce-IsRing c (fills n fill k) e =
      batch_fills c n fill k (let l = subst (λ y. 0 < left y) e w.filling in omega arith)
        (ring_at (fills n fill k) e)
  produce-IsRing c (publishes n) e = record {
    ring = publish (ring_at (publishes n) e) (omega arith) refl;
    filling = omega arith;
    draining = w.draining;
    bursts = omega arith;
  }
  produce-IsRing c panicked e = w
