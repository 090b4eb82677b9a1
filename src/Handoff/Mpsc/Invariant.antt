-- ===== src/Handoff/Mpsc/Invariant.antt =====
-- What holds of the ring between any two accesses.
use native.Mathlib.Nat.{div-add-mod}
use native.Mathlib.Decide.{dec_lt}
use mathlib.Core.Path.{subst}
use hi_perf_cmp.Handoff.Spsc.Invariant.{mod_distinct}
use hi_perf_cmp.Prelude.{
  ℕ, ◌+◌, ◌-◌, ◌/◌, ◌%◌, ◌^◌, ◌<◌, ◌≤◌, ◌≡◌, ◌≢◌, sym, arith, Bool, true, false, Bool-cases, inl,
  inr, List, length, ◌==◌, ltb, if◌then◌else◌, get_or,
}
use hi_perf_cmp.Handoff.Mpsc.{
  Mpsc, Publishing, idle, stopped, waits, stores, marks, MpProducer, Draining, outside, checks,
  reads, releases, Ring, put_producer, from_k,
}

-- The sequences that a producer has claimed and not published.
abbrev pub first : Publishing → ℕ
first idle = 0
first stopped = 0
first (waits seq n f) = seq
first (stores seq n f k) = seq + k
first (marks seq n f k) = seq + k

abbrev pub last : Publishing → ℕ
last idle = 0
last stopped = 0
last (waits seq n f) = seq + n
last (stores seq n f k) = seq + n
last (marks seq n f k) = seq + n

abbrev pub Owes : Publishing → ℕ → Type 0
Owes at i = (first at ≤ i) × (i < last at)

-- The token that the producer puts into a sequence.
abbrev pub fill_at : Publishing → ℕ → ℕ
fill_at idle i = 0
fill_at stopped i = 0
fill_at (waits seq n f) i = f (i - seq)
fill_at (stores seq n f k) i = f (i - seq)
fill_at (marks seq n f k) i = f (i - seq)

-- The end of the slots that the producer may write to.
abbrev pub window_end : Publishing → ℕ
window_end idle = 0
window_end stopped = 0
window_end (waits seq n f) = 0
window_end (stores seq n f k) = seq + n
window_end (marks seq n f k) = seq + n

-- The slot of a producer before its mark holds the token.
abbrev pub HasStored : List ℕ → ℕ → Publishing → Type 0
HasStored buf cap idle = Unit {0}
HasStored buf cap stopped = Unit {0}
HasStored buf cap (waits seq n f) = Unit {0}
HasStored buf cap (stores seq n f k) = k < n
HasStored buf cap (marks seq n f k) = (k < n) × (get_or buf ((seq + k) % cap) 0 ≡ f k)

pub record IsProducer (r : Mpsc) (token : ℕ → ℕ) (done : ℕ → Bool) (m : MpProducer) : Type 0 where
  pub owed :
      (i : ℕ)
      → Owes m.publishing i
      → (done i ≡ false) × (i < r.claim) × (token i ≡ fill_at m.publishing i)
  pub bound : last m.publishing ≤ r.claim
  pub window : window_end m.publishing ≤ r.head + r.cap
  pub cached : m.cached_head ≤ r.head
  pub stored : HasStored r.buf r.cap m.publishing

abbrev pub IsReading : (ℕ → Bool) → ℕ → Draining → Type 0
IsReading done head outside = Unit {0}
IsReading done head (checks m count) = Unit {0}
IsReading done head (reads m count) = done head ≡ true
IsReading done head releases = Unit {0}

pub record IsRing (s : Ring) : Type 0 where
  pub cap_pos : 0 < s.shared.cap
  pub buf_length : length s.shared.buf ≡ s.shared.cap
  pub avail_length : length s.shared.avail ≡ s.shared.cap
  pub each : (p : ℕ) → IsProducer s.shared s.token s.done (s.producers p)
  pub alone :
      (p q i : ℕ) → Owes (s.producers p).publishing i → Owes (s.producers q).publishing i → p ≡ q
  pub head_old : s.shared.head ≤ s.consumer.head
  pub head_fits : s.consumer.head ≤ s.shared.claim
  pub taken : (i : ℕ) → i < s.consumer.head → s.done i ≡ true
  pub known : (i : ℕ) → s.done i ≡ true → (i < s.shared.claim) × (i < s.shared.head + s.shared.cap)
  pub slots :
      (i : ℕ)
      → s.done i ≡ true
      → s.consumer.head ≤ i
      → (get_or s.shared.avail (i % s.shared.cap) 0 ≡ i / s.shared.cap)
        × (get_or s.shared.buf (i % s.shared.cap) 0 ≡ s.token i)
  pub marked :
      (i : ℕ)
      → i < 2 ^ 63
      → get_or s.shared.avail (i % s.shared.cap) 0 ≡ i / s.shared.cap
      → s.done i ≡ true
  pub reading : IsReading s.done s.consumer.head s.consumer.draining
  pub got_length : length s.got ≡ s.consumer.head
  pub order : (i : ℕ) → i < s.consumer.head → get_or s.got i 0 ≡ s.token i

-- One producer changes.
pub put_producer-all :
    (P : ℕ → MpProducer → Type 0) (ps : ℕ → MpProducer) (p : ℕ) (v : MpProducer)
    → P p v
    → ((q : ℕ) → q ≢ p → P q (ps q))
    → (q : ℕ) → P q (put_producer ps p v q)
put_producer-all P ps p v here rest q = elim (Bool-cases (p == q)) [
  | inl e ↦ rw e (subst (λ r. P r v) (ground arith) here)
  | inr e ↦ rw e (rest q (ground arith))
]

-- The producer that changes owes nothing new.
pub shrinks :
    (ps : ℕ → MpProducer) (p : ℕ) (v : MpProducer)
    → ((q r i : ℕ) → Owes (ps q).publishing i → Owes (ps r).publishing i → q ≡ r)
    → ((i : ℕ) → Owes v.publishing i → Owes (ps p).publishing i)
    → (q r i : ℕ) → Owes (put_producer ps p v q).publishing i
    → Owes (put_producer ps p v r).publishing i
    → q ≡ r
shrinks ps p v alone less q r i h k =
    alone q r i
      (put_producer-all (λ z m. Owes m.publishing i → Owes (ps z).publishing i) ps p v (less i)
        (λ z ne x. x) q h)
      (put_producer-all (λ z m. Owes m.publishing i → Owes (ps z).publishing i) ps p v (less i)
        (λ z ne x. x) r k)

pub from_k-Owes :
    (seq n : ℕ) (f : ℕ → ℕ) (k i : ℕ) → Owes (from_k seq n f k) i → (seq + k ≤ i) × (i < seq + n)
from_k-Owes seq n f k i h = go (ltb k n) h
  where
    go : (b : Bool) → Owes (if b then stores seq n f k else idle) i → (seq + k ≤ i) × (i < seq + n)
    go true h = h
    go false h = absurd (omega (arith, h))

-- Two sequences of one window in one slot are the same.
pub same_slot :
    (h c i j : ℕ) → 0 < c → h ≤ i → i < h + c → h ≤ j → j < h + c → i % c ≡ j % c → i ≡ j
same_slot h c i j pos a b d e same = elim (dec_lt i j) [
  | yes lt ↦ absurd (mod_distinct i j c lt (omega arith) same)
  | no ge ↦ elim (dec_lt j i) [
    | yes lt ↦ absurd (mod_distinct j i c lt (omega arith) (sym same))
    | no ge' ↦ omega arith
  ]
]

-- A sequence is its round and its slot.
pub same_round : (c i j : ℕ) → i % c ≡ j % c → i / c ≡ j / c → i ≡ j
same_round c i j r q = grind (arith, div-add-mod i c, div-add-mod j c)
