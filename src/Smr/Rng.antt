-- ===== src/Smr/Rng.antt =====
-- rust/smr-collections/common/src/rng.rs: the splitmix64 generator of the workloads.
use Prim.Native.Nat.{bit_xor}
use hi_perf_cmp.Prelude.{ℕ, ◌*◌, ◌/◌, ◌%◌, ◌^◌, ◌≡◌, refl}
use hi_perf_cmp.Prelude.Word.{add64}

-- `SEED`
abbrev pub seed : ℕ
seed = 0x1234_5678_9ABC_DEF0

-- The state of a `SplitMix` is one u64.
abbrev mix : ℕ → ℕ → ℕ → ℕ
mix z shift factor = bit_xor z (z / 2 ^ shift) * factor % 2 ^ 64

abbrev finish : ℕ → ℕ
finish z = bit_xor z (z / 2 ^ 31)

-- `SplitMix::next`: the value, and the new state.
unfoldable pub next : ℕ → ℕ × ℕ
next state =
    let s = add64 state 0x9E37_79B9_7F4A_7C15 in
    (finish (mix (mix s 30 0xBF58_476D_1CE4_E5B9) 27 0x94D0_49BB_1331_11EB), s)

-- `splitmix_is_deterministic_and_known`
golden : (next seed).0 ≡ 0x161922c645ce50e8
unfolding next
golden = refl
