-- ===== src/Prelude/TextMap.antt =====
-- A map that is keyed by texts, in the order of its keys, as `BTreeMap` keeps it.
use Prim.Native.Nat.{ℕ, ◌+◌, ◌≤◌}
use mathlib.Core.Path.{◌≡◌, refl}
use mathlib.Core.Logic.{inl, inr}
use mathlib.Core.Option.{Option, none, some}
use mathlib.Core.List.{List, [], ◌∷◌}
use native.Mathlib.Omega.{arith}
use hi_perf_cmp.Prelude.Tests.{if◌then◌else◌, Option-cases}
use hi_perf_cmp.Prelude.Text.{Text, same_text, text_before, same_text_sound, same_text_refl}

abbrev pub TextMap : Type 0 → Type 0
TextMap V = List (Text × V)

module _ {V : Type 0} where
  unfoldable pub get : Text → TextMap V → Option V
  get k [] = none
  get k ((j, w) ∷ m) = if same_text j k then some w else get k m

  overwrite : Text → V → TextMap V → TextMap V
  overwrite k v [] = []
  overwrite k v ((j, w) ∷ m) = if same_text j k then (j, v) ∷ m else (j, w) ∷ overwrite k v m

  add : Text → V → TextMap V → TextMap V
  add k v [] = (k, v) ∷ []
  add k v ((j, w) ∷ m) = if text_before k j then (k, v) ∷ (j, w) ∷ m else (j, w) ∷ add k v m

  unfoldable pub insert : Text → V → TextMap V → TextMap V
  unfolding overwrite add
  insert k v m = elim (get k m) [ none ↦ add k v m | some old ↦ overwrite k v m ]

  -- How often a key stands in the map.
  unfoldable pub times : Text → TextMap V → ℕ
  times k [] = 0
  times k ((j, w) ∷ m) = (if same_text j k then 1 else 0) + times k m

  get-add :
      (k j : Text) (v : V) (m : TextMap V)
      → get k m ≡ none
      → get j (add k v m) ≡ (if same_text k j then some v else get j m)
  unfolding get add
  get-add k j v [] e = refl
  get-add k j v ((i, w) ∷ m) e = ground (
    arith,
    same_text_sound i k,
    same_text_sound k j,
    same_text_sound i j,
    same_text_refl k,
    same_text_refl j,
    same_text_refl i,
    get-add k j v m,
  )

  get-overwrite :
      (k j : Text) (v old : V) (m : TextMap V)
      → get k m ≡ some old
      → get j (overwrite k v m) ≡ (if same_text k j then some v else get j m)
  unfolding get overwrite
  get-overwrite k j v old [] e = ground arith
  get-overwrite k j v old ((i, w) ∷ m) e = ground (
    arith,
    same_text_sound i k,
    same_text_sound k j,
    same_text_sound i j,
    same_text_refl k,
    same_text_refl j,
    same_text_refl i,
    get-overwrite k j v old m,
  )

  pub get-insert :
      (k j : Text) (v : V) (m : TextMap V)
      → get j (insert k v m) ≡ (if same_text k j then some v else get j m)
  unfolding insert
  get-insert k j v m = elim (Option-cases (get k m)) [
    | inl e ↦ rw (insert, e) (get-add k j v m e)
    | inr (old, e) ↦ rw (insert, e) (get-overwrite k j v old m e)
  ]

  pub times-none : (k : Text) (m : TextMap V) → get k m ≡ none → times k m ≡ 0
  unfolding get times
  times-none k [] e = refl
  times-none k ((j, w) ∷ m) e = ground (arith, times-none k m)

  times-add :
      (k j : Text) (v : V) (m : TextMap V)
      → times j (add k v m) ≡ (if same_text k j then 1 else 0) + times j m
  unfolding times add
  times-add k j v [] = refl
  times-add k j v ((i, w) ∷ m) = ground (arith, times-add k j v m)

  times-overwrite : (k j : Text) (v : V) (m : TextMap V) → times j (overwrite k v m) ≡ times j m
  unfolding times overwrite
  times-overwrite k j v [] = refl
  times-overwrite k j v ((i, w) ∷ m) = ground (arith, times-overwrite k j v m)

  -- A key that stands in the map once at most still does.
  pub times-insert :
      (k j : Text) (v : V) (m : TextMap V) → times j m ≤ 1 → times j (insert k v m) ≤ 1
  unfolding insert
  times-insert k j v m once = elim (Option-cases (get k m)) [
    | inl e ↦
        rw (insert, e)
          (ground (arith, times-add k j v m, same_text_sound k j, times-none k m e, once))
    | inr (old, e) ↦ rw (insert, e) (omega (arith, times-overwrite k j v m))
  ]
