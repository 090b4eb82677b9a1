-- ===== src/Prelude/Post.antt =====
-- What holds of a command's result, if it does not panic.
use hi_perf_cmp.Prelude.Tests.{if◌then◌else◌}
use hi_perf_cmp.Prelude.Run.{Run, ok, panic, Cmd, and_then, ◌>>=◌, ◌>>◌, pure, unwrap, gets}
use mathlib.Core.Path.{◌≡◌, subst}
use mathlib.Core.Bool.{Bool, true, false}
use mathlib.Core.Option.{Option, none, some}

pub data Post {S A : Type 0} (P : A → S → Type 0) : Run S A → Type 0 where
  returns : {a : A} {s : S} → P a s → Post P (ok a s)
  panics : Post P panic

abbrev Holds : {S A : Type 0} → (A → S → Type 0) → Run S A → Type 0
Holds P (ok a s) = P a s
Holds P panic = Unit

-- The postcondition at a run that is known to return.
pub Post-ok :
    {S A : Type 0} {P : A → S → Type 0} {a : A} {s : S} {r : Run S A}
    → Post P r
    → r ≡ ok a s
    → P a s
Post-ok {P} (returns p) e = subst (Holds P) e p
Post-ok panics e = cc

-- Every step of `m` goes along `R`, a relation between the state before and the state after.
abbrev pub Moves : {S A : Type 0} → (S → S → Type 0) → Cmd S A → Type 0
Moves {S} R m = (s : S) → Post (λ _ t. R s t) (m s)

pub record IsPreorder {S : Type 0} (R : S → S → Type 0) : Type 0 where
  pub reflexive : (s : S) → R s s
  pub transitive : {s t u : S} → R s t → R t u → R s u

module _ {S : Type 0} {R : S → S → Type 0} (o : IsPreorder R) where
  and_then-Post :
      {A B : Type 0} {s : S} {r : Run S A} (k : A → Cmd S B)
      → Post (λ _ t. R s t) r
      → ((a : A) → Moves R (k a))
      → Post (λ _ t. R s t) (and_then r k)
  and_then-Post k (returns {a} {s = t} h) next = weaken h (next a t)
    where
      weaken :
          {B : Type 0} {s t : S} {r : Run S B}
          → R s t
          → Post (λ _ u. R t u) r
          → Post (λ _ u. R s u) r
      weaken h (returns p) = returns (o.transitive h p)
      weaken h panics = panics
  and_then-Post k panics next = panics

  pub bind-Moves :
      {A B : Type 0} {m : Cmd S A} {k : A → Cmd S B}
      → Moves R m
      → ((a : A) → Moves R (k a))
      → Moves R (m >>= k)
  bind-Moves {k} h next s = and_then-Post k (h s) next

  pub then-Moves :
      {B : Type 0} {m : Cmd S (Unit {0})} {k : Cmd S B} → Moves R m → Moves R k → Moves R (m >> k)
  then-Moves {k} h next s = and_then-Post (λ _. k) (h s) (λ _. next)

  pub pure-Moves : {A : Type 0} (a : A) → Moves R (pure a)
  pure-Moves a s = returns (o.reflexive s)

  pub gets-Moves : {A : Type 0} (f : S → A) → Moves R (gets f)
  gets-Moves f s = returns (o.reflexive s)

  pub unwrap-Moves : {A : Type 0} (a : Option A) → Moves R (unwrap a)
  unwrap-Moves none s = panics
  unwrap-Moves (some a) s = returns (o.reflexive s)

  pub if-Moves :
      {A : Type 0} {m n : Cmd S A} (c : Bool) → Moves R m → Moves R n → Moves R (if c then m else n)
  if-Moves true h k = h
  if-Moves false h k = k
