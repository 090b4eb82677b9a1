-- ===== src/Prelude/Lockstep.antt =====
-- Two stateful programs side by side: from related states they both panic, or both return the same
-- value in related states again. The rules follow the shape of the code.
use hi_perf_cmp.Prelude.Tests.{if◌then◌else◌}
use hi_perf_cmp.Prelude.Run.{Run, ok, panic, Cmd, pure, and_then, ◌>>=◌, ◌>>◌, unwrap}
use hi_perf_cmp.Prelude.Post.{Post, Post-ok}
use mathlib.Core.Path.{◌≡◌, refl, subst}
use mathlib.Core.Bool.{Bool, true, false}
use mathlib.Core.Option.{Option, none, some}

pub data Agree {S T A : Type 0} (R : S → T → Type 0) : Run S A → Run T A → Type 0 where
  returns : {a b : A} {s : S} {t : T} → a ≡ b → R s t → Agree R (ok a s) (ok b t)
  panics : Agree R panic panic

-- `m` and `n` agree from related states.
abbrev pub Sim : {S T A : Type 0} → (S → T → Type 0) → Cmd S A → Cmd T A → Type 0
Sim {S} {T} R m n = (s : S) (t : T) → R s t → Agree R (m s) (n t)

module _ {S T : Type 0} {R : S → T → Type 0} where
  and_then-Agree :
      {A B : Type 0} {r : Run S A} {q : Run T A} (k : A → Cmd S B) (l : A → Cmd T B)
      → Agree R r q
      → ((a : A) → Sim R (k a) (l a))
      → Agree R (and_then r k) (and_then q l)
  and_then-Agree k l (returns {a} {s} {t} e h) next =
      subst (λ x. Agree R (k a s) (l x t)) e (next a s t h)
  and_then-Agree k l panics next = panics

  pub bind-Sim :
      {A B : Type 0} {m : Cmd S A} {n : Cmd T A} {k : A → Cmd S B} {l : A → Cmd T B}
      → Sim R m n
      → ((a : A) → Sim R (k a) (l a))
      → Sim R (m >>= k) (n >>= l)
  bind-Sim {k} {l} h next s t r = and_then-Agree k l (h s t r) next

  pub then-Sim :
      {B : Type 0} {m : Cmd S (Unit {0})} {n : Cmd T (Unit {0})} {k : Cmd S B} {l : Cmd T B}
      → Sim R m n
      → Sim R k l
      → Sim R (m >> k) (n >> l)
  then-Sim {k} {l} h next s t r = and_then-Agree (λ _. k) (λ _. l) (h s t r) (λ _. next)

  pub pure-Sim : {A : Type 0} (a : A) → Sim R (pure a) (pure a)
  pure-Sim a s t r = returns refl r

  pub panic-Sim : {A : Type 0} → Sim {A = A} R (λ _. panic) (λ _. panic)
  panic-Sim s t r = panics

  pub unwrap-Sim : {A : Type 0} (o : Option A) → Sim R (unwrap o) (unwrap o)
  unwrap-Sim none s t r = panics
  unwrap-Sim (some a) s t r = returns refl r

  pub if-Sim :
      {A : Type 0} {m m' : Cmd S A} {n n' : Cmd T A} (c : Bool)
      → Sim R m n
      → Sim R m' n'
      → Sim R (if c then m else m') (if c then n else n')
  if-Sim true h h' = h
  if-Sim false h h' = h'

-- What is known of the left run alone joins what relates the two.
pub with-Post :
    {S T A : Type 0} {R : S → T → Type 0} {P : A → S → Type 0} {r : Run S A} {q : Run T A}
    → Agree R r q
    → Post P r
    → Agree (λ s t. R s t × ((a : A) × P a s)) r q
with-Post (returns {a} e h) p = returns e (h, (a, Post-ok p refl))
with-Post panics p = panics

pub weaken-Agree :
    {S T A : Type 0} {R Q : S → T → Type 0} {r : Run S A} {q : Run T A}
    → Agree R r q
    → ((s : S) (t : T) → R s t → Q s t)
    → Agree Q r q
weaken-Agree (returns {s} {t} e h) f = returns e (f s t h)
weaken-Agree panics f = panics

pub and_then-Agree' :
    {S T B : Type 0} {R Q : S → T → Type 0} {r : Run S (Unit {0})} {q : Run T (Unit {0})}
    {k : Cmd S B} {l : Cmd T B}
    → Agree R r q
    → ((s : S) (t : T) → R s t → Agree Q (k s) (l t))
    → Agree Q (and_then r (λ _. k)) (and_then q (λ _. l))
and_then-Agree' (returns {s} {t} e h) next = next s t h
and_then-Agree' panics next = panics
