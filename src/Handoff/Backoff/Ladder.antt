-- ===== src/Handoff/Backoff/Ladder.antt =====
-- The rungs that idle calls climb.
use hi_perf_cmp.Prelude.{
  ℕ, zero, suc, ◌-◌, ◌*◌, ◌<◌, ◌≡◌, refl, ap, ◌∙◌, arith, ltb, if◌then◌else◌, Bool-cases, inl, inr,
  true,
}
use hi_perf_cmp.Handoff.Backoff.{
  Backoff, min_park_ns, max_park_ns, with_parker, Action, spins, yields, parks, min, idle,
}

-- The park times without their bound.
unfoldable pub doubled : ℕ → ℕ
doubled zero = min_park_ns
doubled (suc k) = doubled k * 2

-- The `n`th idle call: 10 spins, 20 yields, and then parks that double up to the bound.
unfoldable pub rung : ℕ → Action
rung n =
    if ltb n 10
    then spins
    else if ltb n 30
    then yields
    else parks (min (doubled (n - 30)) max_park_ns)

-- The ladder after `n` calls without work.
unfoldable pub climb : ℕ → Backoff → Backoff
climb zero b = b
climb (suc n) b = (idle 0 (climb n b)).1

abbrev at_rung : ℕ → Backoff
at_rung n = record {
  spins = min n 10;
  yields = min (n - 10) 20;
  park_ns = min (doubled (n - 30)) max_park_ns;
}

next_doubled :
    (n : ℕ) → doubled (suc n - 30) ≡ (if ltb n 30 then min_park_ns else doubled (n - 30) * 2)
unfolding doubled
next_doubled n = elim (Bool-cases (ltb n 30)) [
  | inl e ↦ let h : suc n - 30 ≡ 0 = ground arith in rw (e, h) refl
  | inr e ↦ let h : suc n - 30 ≡ suc (n - 30) = ground arith in rw (e, h) refl
]

-- Whether its first 30 calls are over or not, the ladder has not doubled before.
not_doubled : (n : ℕ) → ltb n 30 ≡ true → doubled (n - 30) ≡ min_park_ns
unfolding doubled
not_doubled n e = let h : n - 30 ≡ 0 = ground arith in rw h refl

idle-at_rung : (n : ℕ) → idle 0 (at_rung n) ≡ (rung n, at_rung (suc n))
unfolding idle rung
idle-at_rung n = ground (arith, next_doubled n, not_doubled n)

climb_lem : (n : ℕ) → climb n with_parker ≡ at_rung n
unfolding climb with_parker doubled
climb_lem zero = refl
climb_lem (suc n) = ap (λ b. (idle 0 b).1) (climb_lem n) ∙ ap (λ p. p.1) (idle-at_rung n)

idle-work : (b : Backoff) (work : ℕ) → 0 < work → (idle work b).1 ≡ with_parker
unfolding idle with_parker
idle-work b work pos = let h : ltb 0 work ≡ true = ground arith in rw h refl

-- After a call with work, the calls without work spin 10 times, yield 20 times, and then park for
-- 1000 ns, twice as long each time and 1000000 ns at most.
pub idle-rung :
    (b : Backoff) (work n : ℕ) → 0 < work → (idle 0 (climb n (idle work b).1)).0 ≡ rung n
idle-rung b work n pos = rw (idle-work b work pos, climb_lem n) (ap (λ p. p.0) (idle-at_rung n))
