-- ===== src/Prelude/Run.antt =====
-- Stateful code that may panic, and the rules by which two such programs are compared.
use mathlib.Core.Option.{Option, none, some}

-- A panic ends the program: no state is left to look at.
pub data Run (S A : Type 0) : Type 0 where
  ok : A → S → Run S A
  panic : Run S A

abbrev pub Cmd : Type 0 → Type 0 → Type 0
Cmd S A = S → Run S A

abbrev pub pure : {S A : Type 0} → A → Cmd S A
pure a s = ok a s

abbrev pub and_then : {S A B : Type 0} → Run S A → (A → Cmd S B) → Run S B
and_then (ok a s) k = k a s
and_then panic k = panic

infixl 5 ◌>>=◌ ◌>>◌
abbrev pub ◌>>=◌ : {S A B : Type 0} → Cmd S A → (A → Cmd S B) → Cmd S B
◌>>=◌ m k s = and_then (m s) k

abbrev pub ◌>>◌ : {S B : Type 0} → Cmd S (Unit {0}) → Cmd S B → Cmd S B
◌>>◌ m k s = and_then (m s) (λ _. k)

abbrev pub gets : {S A : Type 0} → (S → A) → Cmd S A
gets f s = ok (f s) s

abbrev pub modify : {S : Type 0} → (S → S) → Cmd S (Unit {0})
modify f s = ok tt (f s)

-- `o.expect(..)`, or an index that panics out of bounds.
abbrev pub unwrap : {S A : Type 0} → Option A → Cmd S A
unwrap none s = panic
unwrap (some a) s = ok a s

abbrev pub skip : {S : Type 0} → Cmd S (Unit {0})
skip s = ok tt s
