-- ===== src/Handoff/Batch/Pops.antt =====
-- Every turn of the consumer keeps the invariant.
use mathlib.Core.Path.{subst}
use hi_perf_cmp.Prelude.{
  ℕ, ◌+◌, ◌%◌, ◌^◌, ◌<◌, ◌≤◌, ◌≡◌, refl, arith, [], ◌∷◌, ◌++◌, length, get_or, Bool-cases, inl, inr,
  ltb, ◌==◌,
}
use hi_perf_cmp.Prelude.Word.{add64, sub64}
use hi_perf_cmp.Handoff.Batch.{
  Popping, idle, awaits, reads, refreshes, drains, releases, Pop, pop, drain, Channel, min, drain_k,
  start_pop, consume,
}
use hi_perf_cmp.Handoff.Batch.Invariant.{
  stored, unpublished, left, burst, has_space, taken, unreleased, has_tokens, to_take, Ring, IsRing,
}
use hi_perf_cmp.Handoff.Batch.Indices.{see_tail, has_there, read, move_head, release}

-- The ring of a state in which the consumer stands so.
abbrev Consuming : Channel → ℕ → ℕ → ℕ → Type 0
Consuming s t r h =
    Ring s.shared s.producer s.consumer s.sent s.got (stored s.pushing) (unpublished s.pushing)
      (has_space s.pushing) t r h

module _ (take k : ℕ) (s : Channel) (w : Consuming s k 0 take) (f : 0 < left s.pushing)
    (b : burst s.pushing ≤ s.shared.cap) (few : length s.sent + s.shared.cap < 2 ^ 64) where
  drain_k-IsRing : k ≤ take → IsRing (drain_k take k s)
  unfolding drain_k
  drain_k-IsRing le = elim (Bool-cases (ltb k take)) [
    | inl more ↦ rw more (record { ring = w; filling = f; draining = ground arith; bursts = b })
    | inr done ↦
        let e : k ≡ take = ground arith in
        let moved =
          subst
            (λ j.
              Ring s.shared s.producer (record s.consumer { head = add64 s.consumer.head j }) s.sent
                s.got (stored s.pushing) (unpublished s.pushing) (has_space s.pushing) 0 j 0)
            e (move_head w few refl) in
        elim (Bool-cases (ltb 0 take)) [
          | inl some ↦
              rw (done, some)
                (record { ring = moved; filling = f; draining = omega arith; bursts = b })
          | inr none ↦
              let z : take ≡ 0 = ground arith in
              rw (done, none)
                (record {
                  ring =
                      subst
                        (λ j.
                          Ring s.shared s.producer
                            (record s.consumer { head = add64 s.consumer.head take }) s.sent s.got
                            (stored s.pushing) (unpublished s.pushing) (has_space s.pushing) 0 j 0)
                        z moved;
                  filling = f;
                  draining = omega arith;
                  bursts = b;
                })
        ]
  ]

module _ {s : Channel} (w : IsRing s) (few : length s.sent + s.shared.cap < 2 ^ 64) where
  ring_at : (x : Popping) → s.popping ≡ x → Consuming s (taken x) (unreleased x) (has_tokens x)
  ring_at x e = subst (λ y. Consuming s (taken y) (unreleased y) (has_tokens y)) e w.ring

  pop_starts : Consuming s 0 0 0 → IsRing (start_pop s pop)
  unfolding start_pop
  pop_starts r = elim (Bool-cases (s.consumer.head == s.consumer.cached_tail)) [
    | inl empty ↦
        rw empty
          (record { ring = r; filling = w.filling; draining = omega arith; bursts = w.bursts })
    | inr some ↦ rw some (record {
      ring = has_there r few 1 refl (ground (arith, r.tail_seen));
      filling = w.filling;
      draining = omega arith;
      bursts = w.bursts;
    })
  ]

  drain_starts : (max : ℕ) → Consuming s 0 0 0 → IsRing (start_pop s (drain max))
  unfolding start_pop
  drain_starts max r = elim (Bool-cases (s.consumer.head == s.consumer.cached_tail)) [
    | inl empty ↦
        rw empty
          (record { ring = r; filling = w.filling; draining = omega arith; bursts = w.bursts })
    | inr some ↦ rw some (
        drain_k-IsRing (min (sub64 s.consumer.cached_tail s.consumer.head) max) 0 s
          (has_there r few (min (sub64 s.consumer.cached_tail s.consumer.head) max) refl
            (ground (arith, r.tail_seen, r.tail_old, r.published, r.sent_length)))
          w.filling w.bursts few (omega arith))
  ]

  pop_awaits : (c : Pop) → Consuming s 0 0 0 → IsRing (consume c s awaits)
  unfolding consume
  pop_awaits c r = elim (Bool-cases (s.consumer.head == s.shared.tail)) [
    | inl empty ↦ rw empty (record {
      ring = see_tail r few 0 refl (omega (arith, r.tail_seen, r.tail_old));
      filling = w.filling;
      draining = omega arith;
      bursts = w.bursts;
    })
    | inr some ↦ rw some (record {
      ring = see_tail r few 1 refl (ground (arith, r.tail_seen, r.tail_old));
      filling = w.filling;
      draining = omega arith;
      bursts = w.bursts;
    })
  ]

  pop_reads : (c : Pop) → Consuming s 0 0 1 → IsRing (consume c s reads)
  unfolding consume
  pop_reads c r =
      let here : s.consumer.head + 0 ≡ s.consumer.head = omega arith in
      let q = read r few (omega arith) in
      record {
        ring =
            subst
              (λ j.
                Ring s.shared s.producer (record s.consumer { head = add64 s.consumer.head 1 })
                  s.sent (s.got ++ (get_or s.shared.buf (j % s.shared.cap) 0 ∷ []))
                  (stored s.pushing) (unpublished s.pushing) (has_space s.pushing) 0 1 0)
              here (move_head q few refl);
        filling = w.filling;
        draining = omega arith;
        bursts = w.bursts;
      }

  drain_refreshes : (c : Pop) (max : ℕ) → Consuming s 0 0 0 → IsRing (consume c s (refreshes max))
  unfolding consume
  drain_refreshes c max r =
      drain_k-IsRing (min (sub64 s.shared.tail s.consumer.head) max) 0
        (record s { consumer = record s.consumer { cached_tail = s.shared.tail } })
        (see_tail r few (min (sub64 s.shared.tail s.consumer.head) max) refl
          (ground (arith, r.tail_seen, r.tail_old, r.published, r.sent_length)))
        w.filling w.bursts few (omega arith)

  drain_reads :
      (c : Pop) (take k : ℕ)
      → k < take
      → Consuming s k 0 take
      → IsRing (consume c s (drains take k))
  unfolding consume
  drain_reads c take k more r =
      let here : s.consumer.head + k ≡ add64 s.consumer.head k =
        omega (arith, r.tail_seen, r.tail_old, r.published, r.sent_length) in
      drain_k-IsRing take (k + 1)
        (record s {
          got = s.got ++ (get_or s.shared.buf (add64 s.consumer.head k % s.shared.cap) 0 ∷ []);
        })
        (subst
          (λ j.
            Ring s.shared s.producer s.consumer s.sent
              (s.got ++ (get_or s.shared.buf (j % s.shared.cap) 0 ∷ [])) (stored s.pushing)
              (unpublished s.pushing) (has_space s.pushing) (k + 1) 0 take)
          here (read r few more))
        w.filling w.bursts few (omega arith)

  pub consume-IsRing : (c : Pop) (x : Popping) → s.popping ≡ x → IsRing (consume c s x)
  unfolding consume
  consume-IsRing pop idle e = pop_starts (ring_at idle e)
  consume-IsRing (drain max) idle e = drain_starts max (ring_at idle e)
  consume-IsRing c awaits e = pop_awaits c (ring_at awaits e)
  consume-IsRing c reads e = pop_reads c (ring_at reads e)
  consume-IsRing c (refreshes max) e = drain_refreshes c max (ring_at (refreshes max) e)
  consume-IsRing c (drains take k) e =
      drain_reads c take k (let l = subst (λ y. 0 < to_take y) e w.draining in omega arith)
        (ring_at (drains take k) e)
  consume-IsRing c (releases n) e = record {
    ring = release (ring_at (releases n) e) few refl;
    filling = w.filling;
    draining = omega arith;
    bursts = w.bursts;
  }
