-- ===== src/Handoff/Spsc/Invariant.antt =====
-- What holds of the ring between any two accesses.
use native.Mathlib.Nat.{div-add-mod, mul-le-mul_left, mul-suc}
use native.Mathlib.Decide.{dec_lt}
use hi_perf_cmp.Prelude.{
  ℕ, zero, suc, ◌+◌, ◌/◌, ◌%◌, ◌<◌, ◌≤◌, ◌≡◌, ◌≢◌, refl, arith, List, [], ◌∷◌, ◌++◌, length, get_or,
  ◌==◌, if◌then◌else◌,
}
use hi_perf_cmp.Handoff.Spsc.{Pushing, writes, publishes, Popping, reads, releases, Channel}

abbrev pub unpublished : Pushing → ℕ
unpublished publishes = 1
unpublished _ = 0

abbrev pub unreleased : Popping → ℕ
unreleased releases = 1
unreleased _ = 0

abbrev pub has_space : Pushing → ℕ
has_space (writes x) = 1
has_space _ = 0

abbrev pub has_token : Popping → ℕ
has_token reads = 1
has_token _ = 0

pub record IsRing (s : Channel) : Type 0 where
  pub cap_pos : 0 < s.shared.cap
  pub buf_length : length s.shared.buf ≡ s.shared.cap
  pub sent_length : length s.sent ≡ s.producer.tail
  pub got_length : length s.got ≡ s.consumer.head
  pub published : s.shared.tail + unpublished s.pushing ≡ s.producer.tail
  pub released : s.shared.head + unreleased s.popping ≡ s.consumer.head
  pub tail_seen : s.consumer.head + has_token s.popping ≤ s.consumer.cached_tail
  pub tail_old : s.consumer.cached_tail ≤ s.shared.tail
  pub head_old : s.producer.cached_head ≤ s.shared.head
  pub head_seen : s.producer.tail + has_space s.pushing ≤ s.producer.cached_head + s.shared.cap
  pub slots :
      (i : ℕ)
      → s.consumer.head ≤ i
      → i < s.producer.tail
      → get_or s.shared.buf (i % s.shared.cap) 0 ≡ get_or s.sent i 0
  pub order : (i : ℕ) → i < s.consumer.head → get_or s.got i 0 ≡ get_or s.sent i 0

-- Fewer than `n` apart, two indices are in different slots.
pub mod_distinct : (a b n : ℕ) → a < b → b < a + n → a % n ≢ b % n
mod_distinct a b n lt close e = elim (dec_lt (a / n) (b / n)) [
  | yes h ↦
      absurd
        (omega (arith, div-add-mod a n, div-add-mod b n, mul-le-mul_left n h, mul-suc n (a / n)))
  | no h ↦
      let le : b / n ≤ a / n = omega arith in
      absurd (omega (arith, div-add-mod a n, div-add-mod b n, mul-le-mul_left n le))
]

pub get_or-append_one :
    (xs : List ℕ) (x i : ℕ)
    → get_or (xs ++ (x ∷ [])) i 0 ≡ (if i == length xs then x else get_or xs i 0)
get_or-append_one [] x zero = refl
get_or-append_one [] x (suc i) = ground arith
get_or-append_one (y ∷ xs) x zero = ground arith
get_or-append_one (y ∷ xs) x (suc i) = ground (arith, get_or-append_one xs x i)
