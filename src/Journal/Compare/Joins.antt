-- ===== src/Journal/Compare/Joins.antt =====
-- What the join of two runs holds for a cell.
use hi_perf_cmp.Prelude.{
  ◌≡◌, refl, ap, ◌∙◌, sym, Bool, List, [], ◌∷◌, Option, none, some, true, false, ◌||◌, ◌&&◌, not,
  if◌then◌else◌, Bool-cases, Option-cases, inl, inr,
}
use hi_perf_cmp.Journal.Compare.{
  CellKey, same_key, Floats, ResultLine, Comparison, get, index, compared, join_shared,
  keys_only_in, join,
}
use hi_perf_cmp.Journal.Compare.Index.{same_key_sound, last_line, get-index}

abbrev pub is_found : {A : Type 0} → Option A → Bool
is_found none = false
is_found (some a) = true

-- The comparison of a cell, among those of a join.
unfoldable pub find : {F : Type 0} → CellKey → List (Comparison F) → Option (Comparison F)
find k [] = none
find k (c ∷ cs) = let rest = find k cs in if same_key k c.key then some c else rest

unfoldable pub listed : CellKey → List CellKey → Bool
listed k [] = false
listed k (h ∷ ks) = same_key k h || listed k ks

and_false : (b : Bool) → (b && false) ≡ false
and_false true = refl
and_false false = refl

module _ {F : Type 0} (fl : Floats F) where
  -- A cell that has a line in both runs is compared.
  unfoldable pub both :
      CellKey → F → Option (ResultLine F) → Option (ResultLine F) → Option (Comparison F)
  both k t none y = none
  both k t (some x) none = none
  both k t (some x) (some y) = some (compared fl k x y t)

  get_nil : (k : CellKey) → get fl k [] ≡ none
  unfolding get
  get_nil k = refl

  get_cons :
      (k h : CellKey) (x : ResultLine F) (a : List (CellKey × ResultLine F))
      → get fl k ((h, x) ∷ a) ≡ (if same_key k h then some x else get fl k a)
  unfolding get
  get_cons k h x a = refl

  shared_nil : (t : F) (b : List (CellKey × ResultLine F)) → join_shared fl t [] b ≡ []
  unfolding join_shared
  shared_nil t b = refl

  only_nil : (b : List (CellKey × ResultLine F)) → keys_only_in fl [] b ≡ []
  unfolding keys_only_in
  only_nil b = refl

  -- The step of each loop, by what the other run has.
  only_none :
      (h : CellKey) (x : ResultLine F) (a b : List (CellKey × ResultLine F))
      → get fl h b ≡ none
      → keys_only_in fl ((h, x) ∷ a) b ≡ h ∷ keys_only_in fl a b
  unfolding keys_only_in
  only_none h x a b n =
      ap
        (λ o. elim o as (λ _. List CellKey) [
          | none ↦ h ∷ keys_only_in fl a b
          | some z ↦ keys_only_in fl a b
        ])
        n

  only_some :
      (h : CellKey) (x y : ResultLine F) (a b : List (CellKey × ResultLine F))
      → get fl h b ≡ some y
      → keys_only_in fl ((h, x) ∷ a) b ≡ keys_only_in fl a b
  unfolding keys_only_in
  only_some h x y a b q =
      ap
        (λ o. elim o as (λ _. List CellKey) [
          | none ↦ h ∷ keys_only_in fl a b
          | some z ↦ keys_only_in fl a b
        ])
        q

  shared_none :
      (t : F) (h : CellKey) (x : ResultLine F) (a b : List (CellKey × ResultLine F))
      → get fl h b ≡ none
      → join_shared fl t ((h, x) ∷ a) b ≡ join_shared fl t a b
  unfolding join_shared
  shared_none t h x a b n =
      ap
        (λ o. elim o as (λ _. List (Comparison F)) [
          | none ↦ join_shared fl t a b
          | some z ↦ compared fl h x z t ∷ join_shared fl t a b
        ])
        n

  shared_some :
      (t : F) (h : CellKey) (x y : ResultLine F) (a b : List (CellKey × ResultLine F))
      → get fl h b ≡ some y
      → join_shared fl t ((h, x) ∷ a) b ≡ compared fl h x y t ∷ join_shared fl t a b
  unfolding join_shared
  shared_some t h x y a b q =
      ap
        (λ o. elim o as (λ _. List (Comparison F)) [
          | none ↦ join_shared fl t a b
          | some z ↦ compared fl h x z t ∷ join_shared fl t a b
        ])
        q

  both-none : (k : CellKey) (t : F) (o : Option (ResultLine F)) → both k t o none ≡ none
  unfolding both
  both-none k t none = refl
  both-none k t (some x) = refl

  find-join_shared :
      (k : CellKey) (t : F) (a b : List (CellKey × ResultLine F))
      → find k (join_shared fl t a b) ≡ both k t (get fl k a) (get fl k b)
  unfolding find both compared
  find-join_shared k t [] b = rw (get_nil k, shared_nil t b) refl
  find-join_shared k t ((h, x) ∷ a) b = elim (Option-cases (get fl h b)) [
    | inl n ↦ elim (Bool-cases (same_key k h)) [
      | inl e ↦
          let none_k : get fl k b ≡ none = ap (λ z. get fl z b) (same_key_sound k h e) ∙ n in
          rw (get_cons k h x a, shared_none t h x a b n, e, find-join_shared k t a b, none_k)
            (both-none k t (get fl k a))
      | inr e ↦ rw (get_cons k h x a, shared_none t h x a b n, e) (find-join_shared k t a b)
    ]
    | inr (y, q) ↦ elim (Bool-cases (same_key k h)) [
      | inl e ↦
          let is = same_key_sound k h e in
          let some_k : get fl k b ≡ some y = ap (λ z. get fl z b) is ∙ q in
          rw (get_cons k h x a, shared_some t h x y a b q, e, some_k)
            (ap (λ z. some (compared fl z x y t)) (sym is))
      | inr e ↦ rw (get_cons k h x a, shared_some t h x y a b q, e) (find-join_shared k t a b)
    ]
  ]

  listed-keys_only_in :
      (k : CellKey) (a b : List (CellKey × ResultLine F))
      → listed k (keys_only_in fl a b) ≡ (is_found (get fl k a) && not (is_found (get fl k b)))
  unfolding listed
  listed-keys_only_in k [] b = rw (get_nil k, only_nil b) refl
  listed-keys_only_in k ((h, x) ∷ a) b = elim (Option-cases (get fl h b)) [
    | inl n ↦ elim (Bool-cases (same_key k h)) [
      | inl e ↦
          let none_k : get fl k b ≡ none = ap (λ z. get fl z b) (same_key_sound k h e) ∙ n in
          rw (get_cons k h x a, only_none h x a b n, e, none_k) refl
      | inr e ↦ rw (get_cons k h x a, only_none h x a b n, e) (listed-keys_only_in k a b)
    ]
    | inr (y, q) ↦ elim (Bool-cases (same_key k h)) [
      | inl e ↦
          let some_k : get fl k b ≡ some y = ap (λ z. get fl z b) (same_key_sound k h e) ∙ q in
          rw (get_cons k h x a, only_some h x y a b q, e, listed-keys_only_in k a b, some_k)
            (and_false (is_found (get fl k a)))
      | inr e ↦ rw (get_cons k h x a, only_some h x y a b q, e) (listed-keys_only_in k a b)
    ]
  ]

  -- A cell is compared by a join exactly when both runs have a line for it that is no placeholder, and
  -- then by the last such line of each; it is added when only the second run has one, and removed when
  -- only the first has one.
  pub find-join :
      (k : CellKey) (a b : List (ResultLine F)) (t : F)
      → (find k (join fl a b t).shared ≡ both k t (last_line fl k none a) (last_line fl k none b))
        × (listed k (join fl a b t).added
            ≡ (is_found (last_line fl k none b) && not (is_found (last_line fl k none a))))
        × (listed k (join fl a b t).removed
            ≡ (is_found (last_line fl k none a) && not (is_found (last_line fl k none b))))
  unfolding join
  find-join k a b t =
      let at_a = get-index fl k a in
      let at_b = get-index fl k b in
      (
        find-join_shared k t (index fl a) (index fl b) ∙ rw (at_a, at_b) refl,
        listed-keys_only_in k (index fl b) (index fl a) ∙ rw (at_a, at_b) refl,
        listed-keys_only_in k (index fl a) (index fl b) ∙ rw (at_a, at_b) refl,
      )
