-- ===== src/Autobench/Driver/Waits.antt =====
-- The wait for a server ends.
use hi_perf_cmp.Prelude.{
  ℕ, zero, suc, ◌+◌, ◌-◌, ◌*◌, ◌≤◌, ◌≡◌, refl, arith, [], ◌∷◌, Bool, false, not, inl, inr,
  Bool-cases, ltb,
}
use hi_perf_cmp.Autobench.Sampling.{Transport, tcp, udp, quic}
use hi_perf_cmp.Autobench.Process.{spawned, paused, launched, killed, Log, Os, Step, ok, ends}
use hi_perf_cmp.Autobench.Driver.{
  wait_until, wait_for_bind, wait_for_udp_echo, wait_for_udp_bind_probe, wait_ready,
}

-- A pause is of 20 milliseconds at least.
pub record IsClock {F : Type 0} (os : Os F) : Type 0 where
  pub pauses : (t : Transport) (h : Log) → os.now h + 20 ≤ os.now (paused t ∷ h)

-- The servers that were spawned and not killed.
abbrev pub running : Log → ℕ
running [] = 0
running (spawned c ∷ h) = suc (running h)
running (paused t ∷ h) = running h
running (launched c ∷ h) = running h
running (killed ∷ h) = running h - 1

-- It ended with an answer, and with the servers as they were.
abbrev pub Answered : {F : Type 0} → ℕ → Step F Bool → Type 0
Answered n (ok b h) = running h ≡ n
Answered n (ends e h) = ⊥

module _ {F : Type 0} (os : Os F) (clock : IsClock os) where
  -- A probe for each pause, and the look at the clock that ends the wait.
  wait_until-Answered :
      (answers : Log → Bool) (t : Transport) (n deadline : ℕ) (h : Log)
      → deadline ≤ os.now h + 20 * n
      → Answered (running h) (wait_until os answers t (suc n) deadline h)
  unfolding wait_until
  wait_until-Answered answers t zero deadline h few =
      let late : ltb (os.now h) deadline ≡ false = ground arith in rw late refl
  wait_until-Answered answers t (suc n) deadline h few =
      elim (Bool-cases (ltb (os.now h) deadline)) [
        | inl early ↦ elim (Bool-cases (answers h)) [
          | inl here ↦ rw (early, here) refl
          | inr later ↦
              rw (early, later)
                (wait_until-Answered answers t n deadline (paused t ∷ h)
                  (omega (arith, clock.pauses t h)))
        ]
        | inr late ↦ rw late refl
      ]

  pub wait_ready-Answered : (t : Transport) (h : Log) → Answered (running h) (wait_ready os t h)
  unfolding wait_ready wait_for_bind wait_for_udp_echo wait_for_udp_bind_probe
  wait_ready-Answered tcp h =
      wait_until-Answered os.connects tcp 500 (os.now h + 10000) h (omega arith)
  wait_ready-Answered udp h = elim (Bool-cases (os.probe_socket h)) [
    | inl opened ↦
        rw opened (wait_until-Answered os.echoes udp 500 (os.now h + 10000) h (omega arith))
    | inr refused ↦ rw refused refl
  ]
  wait_ready-Answered quic h =
      wait_until-Answered (λ l. not (os.binds l)) quic 500 (os.now h + 10000) h (omega arith)
