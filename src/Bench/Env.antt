-- ===== src/Bench/Env.antt =====
-- rust/bench-common/src: variables of the environment, read as positive numbers.
use hi_perf_cmp.Prelude.{
  ℕ, ◌+◌, ◌-◌, ◌*◌, ◌<◌, ◌≡◌, arith, [], ◌∷◌, Option, none, some, ◌==◌, ◌&&◌, leb, ltb,
  if◌then◌else◌, inl, inr, Bool-cases, Option-cases,
}
use hi_perf_cmp.Prelude.Text.{Text}
use hi_perf_cmp.Autobench.Sampling.{trim}

-- `env::var`: a variable that is not set, or is no Unicode, has no text.
abbrev pub Env : Type 0
Env = Text → Option Text

-- What is wrong with a variable.
pub data Error : Type 0 where
  invalid : Text → Text → Error
  not_positive : Text → Error
  no_host : Error
  no_dir : Error

pub data Result (A : Type 0) : Type 0 where
  good : A → Result A
  bad : Error → Result A

infixl 5 ◌>>=◌
abbrev pub ◌>>=◌ : {A B : Type 0} → Result A → (A → Result B) → Result B
◌>>=◌ (good a) k = k a
◌>>=◌ (bad e) k = bad e

-- The digits of a number below the bound, after those that were read.
unfoldable pub digits : ℕ → ℕ → Text → Option ℕ
digits bound n [] = some n
digits bound n (c ∷ cs) =
    let rest = digits bound (10 * n + (c - 48)) cs in
    if leb 48 c && (leb c 57 && ltb (10 * n + (c - 48)) bound) then rest else none

-- `str::parse` of an unsigned number: digits, after a plus sign or none.
unfoldable pub parse : ℕ → Text → Option ℕ
parse bound [] = none
parse bound (c ∷ []) = digits bound 0 (c ∷ [])
parse bound (c ∷ d ∷ cs) = if c == 43 then digits bound 0 (d ∷ cs) else digits bound 0 (c ∷ d ∷ cs)

abbrev pub positive : Text → Text → Option ℕ → Result ℕ
positive name raw none = bad (invalid name raw)
positive name raw (some value) = if value == 0 then bad (not_positive name) else good value

unfoldable pub parse_positive : Env → ℕ → Text → ℕ → Result ℕ
parse_positive env bound name default = elim (env name) [
  | none ↦ good default
  | some raw ↦ positive name raw (parse bound (trim raw))
]

digits-lt : (bound n : ℕ) (t : Text) (v : ℕ) → n < bound → digits bound n t ≡ some v → v < bound
unfolding digits
digits-lt bound n [] v low e = ground arith
digits-lt bound n (c ∷ cs) v low e =
    elim (Bool-cases (leb 48 c && (leb c 57 && ltb (10 * n + (c - 48)) bound))) [
      | inl digit ↦ digits-lt bound (10 * n + (c - 48)) cs v (ground arith) (rw digit at e)
      | inr other ↦ absurd (none_ne (rw other at e))
    ]
  where
    none_ne : {v : ℕ} → ◌≡◌ {A = Option ℕ} none (some v) → ⊥
    none_ne q = cc

parse-lt : (bound : ℕ) (t : Text) (v : ℕ) → 0 < bound → parse bound t ≡ some v → v < bound
unfolding parse
parse-lt bound [] v low e = absurd (ground arith)
parse-lt bound (c ∷ []) v low e = digits-lt bound 0 (c ∷ []) v low e
parse-lt bound (c ∷ d ∷ cs) v low e =
    ground (arith, digits-lt bound 0 (d ∷ cs) v, digits-lt bound 0 (c ∷ d ∷ cs) v)

-- A number that is accepted is positive and fits its type, if the default does.
pub parse_positive-bounds :
    (env : Env) (bound : ℕ) (name : Text) (default : ℕ) {v : ℕ}
    → 0 < default
    → default < bound
    → parse_positive env bound name default ≡ good v
    → (0 < v) × (v < bound)
unfolding parse_positive
parse_positive-bounds env bound name default pos low e = elim (Option-cases (env name)) [
  | inl unset ↦ by_default (rw (parse_positive, unset) at e)
  | inr (raw, set) ↦ by_text _ raw (rw (parse_positive, set) at e)
]
  where
    by_default : {v : ℕ} → good default ≡ good v → (0 < v) × (v < bound)
    by_default q = ground arith

    by_text :
        (v : ℕ) (raw : Text)
        → positive name raw (parse bound (trim raw)) ≡ good v
        → (0 < v) × (v < bound)
    by_text v raw q = ground (arith, parse-lt bound (trim raw) v)
