-- ===== src/Prelude/Word.antt =====
-- Machine integers as bit patterns: an `iN` or a `uN` is a number below 2 ^ N, and a cast between
-- the two is the identity. Arithmetic wraps, as it does in a release build.
use Prim.Native.Nat.{ℕ, ◌+◌, ◌-◌, ◌/◌, ◌%◌, ◌^◌}
use mathlib.Core.Bool.{Bool, ◌&&◌, not}
use mathlib.Core.Option.{Option, none, some}
use hi_perf_cmp.Prelude.Tests.{ltb, leb, ◌==◌, if◌then◌else◌}

abbrev pub add32 : ℕ → ℕ → ℕ
add32 a b = (a + b) % 2 ^ 32

abbrev pub sub32 : ℕ → ℕ → ℕ
sub32 a b = (a + 2 ^ 32 - b) % 2 ^ 32

abbrev pub add64 : ℕ → ℕ → ℕ
add64 a b = (a + b) % 2 ^ 64

abbrev pub sub64 : ℕ → ℕ → ℕ
sub64 a b = (a + 2 ^ 64 - b) % 2 ^ 64

-- `<` of i32 and of i64: moving the sign bit turns it into the order of the patterns.
abbrev pub lt_i32 : ℕ → ℕ → Bool
lt_i32 a b = ltb ((a + 2 ^ 31) % 2 ^ 32) ((b + 2 ^ 31) % 2 ^ 32)

abbrev pub lt_i64 : ℕ → ℕ → Bool
lt_i64 a b = ltb ((a + 2 ^ 63) % 2 ^ 64) ((b + 2 ^ 63) % 2 ^ 64)

-- `a.min(b)` of i64
abbrev pub min_i64 : ℕ → ℕ → ℕ
min_i64 a b = if lt_i64 b a then b else a

-- `-1` as an i32
abbrev pub minus_one_i32 : ℕ
minus_one_i32 = 2 ^ 32 - 1

abbrev pub is_negative_i64 : ℕ → Bool
is_negative_i64 a = leb (2 ^ 63) a

abbrev pub abs_i64 : ℕ → ℕ
abs_i64 a = if is_negative_i64 a then 2 ^ 64 - a else a

-- `a / b` of i64 rounds towards zero. `none` is the panic on zero and on `i64::MIN / -1`.
unfoldable pub div_i64 : ℕ → ℕ → Option ℕ
div_i64 a b =
    if b == 0
    then none
    else if (a == 2 ^ 63) && (b == 2 ^ 64 - 1)
    then none
    else if (if is_negative_i64 a then not (is_negative_i64 b) else is_negative_i64 b)
    then some ((2 ^ 64 - abs_i64 a / abs_i64 b) % 2 ^ 64)
    else some (abs_i64 a / abs_i64 b)
