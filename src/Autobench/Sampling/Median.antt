-- ===== src/Autobench/Sampling/Median.antt =====
-- The median of samples that are no NaN.
use Prim.Native.Nat.{Ordering}
use hi_perf_cmp.Prelude.{
  ℕ, zero, suc, ◌+◌, ◌-◌, ◌/◌, ◌≤◌, ◌<◌, ◌≡◌, refl, ap, ◌∙◌, arith, List, [], ◌∷◌, some, Bool, true,
  not, length, get_elem?, get_elem?-in_range, if◌then◌else◌,
}
use mathlib.Core.Path.{subst}
use hi_perf_cmp.Autobench.Verdict.{Floats, less, at_most}
use hi_perf_cmp.Autobench.Sampling.{place, sort_by, median}

abbrev pub count : {F : Type 0} → (F → Bool) → List F → ℕ
count p [] = 0
count p (x ∷ xs) = (if p x then 1 else 0) + count p xs

-- The order of the floats that are no NaN.
pub record IsOrder {F : Type 0} (f : Floats F) : Type 0 where
  pub compares : (a b : F) → (o : Ordering) × (f.partial_cmp a b ≡ some o)
  pub flips : (a b : F) → less f a b ≡ not (at_most f b a)
  pub at_most_trans :
      (a b c : F) → at_most f a b ≡ true → at_most f b c ≡ true → at_most f a c ≡ true

module _ {F : Type 0} (f : Floats F) (w : IsOrder f) where
  abbrev Below : F → List F → Type 0
  Below x [] = Unit {0}
  Below x (y ∷ ys) = (at_most f x y ≡ true) × Below x ys

  abbrev Sorted : List F → Type 0
  Sorted [] = Unit {0}
  Sorted (x ∷ xs) = Below x xs × Sorted xs

  at_most_refl : (a : F) → at_most f a a ≡ true
  unfolding less at_most
  at_most_refl a = ground (arith, w.flips a a, (w.compares a a).1)

  Below-trans : (x y : F) (ys : List F) → at_most f x y ≡ true → Below y ys → Below x ys
  Below-trans x y [] le b = tt
  Below-trans x y (z ∷ zs) le b = (w.at_most_trans x y z le b.0, Below-trans x y zs le b.1)

  -- What it is to be the list with one more in its place.
  record Placed (x : F) (ys zs : List F) : Type 0 where
    sorted : Sorted zs
    counts : (p : F → Bool) → count p zs ≡ count p (x ∷ ys)
    longer : length zs ≡ suc (length ys)
    below : (a : F) → at_most f a x ≡ true → Below a ys → Below a zs

  in_front :
      (x y : F) (ys : List F)
      → at_most f x y ≡ true
      → Sorted (y ∷ ys)
      → Placed x (y ∷ ys) (x ∷ y ∷ ys)
  in_front x y ys le s = record {
    sorted = ((le, Below-trans x y ys le s.0), s);
    counts = λ p. refl;
    longer = refl;
    below = λ a h b. (h, b);
  }

  behind :
      (x y : F) (ys zs : List F)
      → at_most f y x ≡ true
      → Sorted (y ∷ ys)
      → Placed x ys zs
      → Placed x (y ∷ ys) (y ∷ zs)
  behind x y ys zs le s r = record {
    sorted = (r.below y le s.0, r.sorted);
    counts = λ p. omega (arith, r.counts p);
    longer = omega (arith, r.longer);
    below = λ a h b. (b.0, r.below a h b.1);
  }

  place-Placed :
      (x : F) (ys : List F) → Sorted ys → (zs : List F) × (place f x ys ≡ some zs) × Placed x ys zs
  unfolding place at_most less
  place-Placed x [] s = (
    x ∷ [],
    refl,
    record { sorted = (tt, tt); counts = λ p. refl; longer = refl; below = λ a h b. (h, tt) },
  )
  place-Placed x (y ∷ ys) s = go (place-Placed x ys s.1) (w.compares x y).0 (w.compares x y).1
    where
      go :
          (zs : List F) × (place f x ys ≡ some zs) × Placed x ys zs
          → (o : Ordering) → f.partial_cmp x y ≡ some o
          → (zs : List F) × (place f x (y ∷ ys) ≡ some zs) × Placed x (y ∷ ys) zs
      go r Ordering.lt e =
          (x ∷ y ∷ ys, rw (e, place) refl, in_front x y ys (rw (e, at_most) refl) s)
      go r Ordering.eq e =
          (x ∷ y ∷ ys, rw (e, place) refl, in_front x y ys (rw (e, at_most) refl) s)
      go (zs, q, r) Ordering.gt e =
          (y ∷ zs, rw (e, q, place) refl, behind x y ys zs (ground (arith, w.flips x y, e)) s r)

  -- A list in order with the items of another.
  record Arranged (xs zs : List F) : Type 0 where
    sorted : Sorted zs
    counts : (p : F → Bool) → count p zs ≡ count p xs
    long : length zs ≡ length xs

  sort_by-Arranged : (xs : List F) → (zs : List F) × (sort_by f xs ≡ some zs) × Arranged xs zs
  unfolding sort_by
  sort_by-Arranged [] = ([], refl, record { sorted = tt; counts = λ p. refl; long = refl })
  sort_by-Arranged (x ∷ xs) =
      let (ys, q, r) = sort_by-Arranged xs in
      let (zs, e, g) = place-Placed x ys r.sorted in
      (
        zs,
        rw q e,
        record {
          sorted = g.sorted;
          counts = λ p. omega (arith, g.counts p, r.counts p);
          long = omega (arith, g.longer, r.long);
        },
      )

  none_less : (m : F) (ys : List F) → Below m ys → count (λ y. less f y m) ys ≡ 0
  none_less m [] b = refl
  none_less m (y ∷ ys) b = ground (arith, none_less m ys b.1, w.flips y m, b.0)

  Below-at :
      (y : F) (ys : List F) (i : ℕ) {m : F}
      → Below y ys
      → get_elem? ys i ≡ some m
      → at_most f y m ≡ true
  Below-at y [] i b e = absurd (ground arith)
  Below-at y (z ∷ zs) zero b e = let q : z ≡ _ = ground arith in rw q at b.0
  Below-at y (z ∷ zs) (suc i) b e = Below-at y zs i b.1 e

  ranks :
      (ys : List F) (i : ℕ) {m : F}
      → Sorted ys
      → get_elem? ys i ≡ some m
      → (count (λ y. less f y m) ys ≤ i) × (i < count (λ y. at_most f y m) ys)
  ranks [] i s e = absurd (ground arith)
  ranks (y ∷ ys) zero {m} s e =
      let q : y ≡ m = ground arith in
      subst
        (λ k. (count (λ x. less f x k) (y ∷ ys) ≤ 0) × (0 < count (λ x. at_most f x k) (y ∷ ys))) q
        (ground (arith, none_less y ys s.0, w.flips y y, at_most_refl y))
  ranks (y ∷ ys) (suc i) {m} s e =
      let (low, high) = ranks ys i s.1 e in ground (arith, low, high, Below-at y ys i s.0 e)

  median_of :
      (x : F) (xs zs : List F)
      → sort_by f (x ∷ xs) ≡ some zs
      → median f (x ∷ xs) ≡ get_elem? zs ((length zs - 1) / 2)
  unfolding median
  median_of x xs zs e = rw (e, median) refl

  abbrev pub Middle : F → List F → F → Type 0
  Middle x xs m =
      (median f (x ∷ xs) ≡ some m)
      × (count (λ y. less f y m) (x ∷ xs) ≤ length xs / 2)
      × (length xs / 2 < count (λ y. at_most f y m) (x ∷ xs))

  Middle-of :
      (x : F) (xs zs : List F)
      → sort_by f (x ∷ xs) ≡ some zs
      → Arranged (x ∷ xs) zs
      → (m : F) × (get_elem? zs (length xs / 2) ≡ some m)
      → (m : F) × Middle x xs m
  Middle-of x xs zs q r (m, e) =
      let (low, high) = ranks zs (length xs / 2) r.sorted e in
      let place_eq : (length zs - 1) / 2 ≡ length xs / 2 = omega (arith, r.long) in
      (
        m,
        (
          median_of x xs zs q ∙ (ap (get_elem? zs) place_eq ∙ e),
          omega (arith, low, r.counts (λ y. less f y m)),
          omega (arith, high, r.counts (λ y. at_most f y m)),
        ),
      )

  -- The median of at least one sample is a value that at most as many samples are below as stand
  -- before the lower middle place, and that more than these do not exceed. No sample is a NaN.
  pub median-Middle : (x : F) (xs : List F) → (m : F) × Middle x xs m
  median-Middle x xs =
      let (zs, q, r) = sort_by-Arranged (x ∷ xs) in
      Middle-of x xs zs q r (get_elem?-in_range zs (length xs / 2) (omega (arith, r.long)))
