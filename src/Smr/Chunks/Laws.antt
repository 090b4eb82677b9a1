-- ===== src/Smr/Chunks/Laws.antt =====
-- The chunk table as one long array: what a write does to a read, for the owner of the table.
use mathlib.Core.Option
use native.Mathlib.Nat.{div-add-mod}
use hi_perf_cmp.Prelude.{
  ℕ, ◌+◌, ◌/◌, ◌%◌, ◌≤◌, ◌<◌, ◌≡◌, ◌≢◌, ◌∙◌, Option, none, some, arith, inl, inr, ◌==◌,
  if◌then◌else◌, get_elem?, set, get_elem?-set, Bool-cases, Option-cases, ◌&&◌,
}
use hi_perf_cmp.Smr.Chunks.History.{IsLater}
use hi_perf_cmp.Smr.Chunks.{
  Chunks, deref, read_table, read, update_heap, replace, copy_on_write, write_item, write_table,
  modify_at, modify,
}

-- The owner's table holds distinct allocations, none from a later generation.
pub record IsOwned {A : Type 0} (gen : ℕ) (c : Chunks A) : Type 0 where
  pub bound : (i a : ℕ) → get_elem? c.table i ≡ some a → a < c.fresh
  pub born : (i a : ℕ) → get_elem? c.table i ≡ some a → (c.heap a).born ≤ gen
  pub distinct : (i j a : ℕ) → get_elem? c.table i ≡ some a → get_elem? c.table j ≡ some a → i ≡ j

-- The items as the table shows them.
abbrev pub at : {A : Type 0} → Chunks A → ℕ → ℕ → Option A
at c ci off = deref c.heap (get_elem? c.table ci) off

module _ {A : Type 0} where
  pub IsOwned-mono : {g h : ℕ} {c : Chunks A} → g ≤ h → IsOwned g c → IsOwned h c
  IsOwned-mono le w = record {
    bound = w.bound;
    born = λ i a e. omega (arith, w.born i a e);
    distinct = w.distinct;
  }

  copy-IsOwned :
      (gen : ℕ) (c : Chunks A) (ci a : ℕ)
      → IsOwned gen c
      → get_elem? c.table ci ≡ some a
      → IsOwned gen (copy_on_write gen c ci a)
  unfolding copy_on_write replace
  copy-IsOwned gen c ci a w e = record {
    bound = λ i b q. ground (arith, get_elem?-set c.table ci i c.fresh e, w.bound i b);
    born = λ i b q. ground (arith, get_elem?-set c.table ci i c.fresh e, w.bound i b, w.born i b);
    distinct = λ i j b p q. ground (
      arith,
      get_elem?-set c.table ci i c.fresh e,
      get_elem?-set c.table ci j c.fresh e,
      w.bound i b,
      w.bound j b,
      w.distinct i j b,
    );
  }

  -- The copy shows the same items.
  copy-at :
      (gen : ℕ) (c : Chunks A) (ci a j off : ℕ)
      → IsOwned gen c
      → get_elem? c.table ci ≡ some a
      → at (copy_on_write gen c ci a) j off ≡ at c j off
  unfolding copy_on_write replace deref
  copy-at gen c ci a j off w e = elim (Option-cases (get_elem? c.table j)) [
    | inl n ↦ ground (arith, get_elem?-set c.table ci j c.fresh e)
    | inr (b, q) ↦ ground (arith, get_elem?-set c.table ci j c.fresh e, w.bound j b)
  ]

  write-IsOwned :
      (gen : ℕ) (c : Chunks A) (a off : ℕ) (f : A → A) {d : Chunks A}
      → IsOwned gen c
      → write_item c a off f ≡ some d
      → IsOwned gen d
  unfolding write_item
  write-IsOwned gen c a off f w e = record {
    bound = λ i b q. ground (arith, w.bound i b);
    born = λ i b q. ground (arith, w.born i b, w.born i a);
    distinct = λ i j b p q. ground (arith, w.distinct i j b);
  }

  write-at :
      (gen : ℕ) (c : Chunks A) (ci a off : ℕ) (f : A → A) (j k : ℕ) {d : Chunks A}
      → IsOwned gen c
      → get_elem? c.table ci ≡ some a
      → write_item c a off f ≡ some d
      → at d j k ≡ (if (ci == j) && (off == k) then Option.map f (at c j k) else at c j k)
  unfolding write_item deref
  write-at gen c ci a off f j k w h e = elim (Option-cases (get_elem? (c.heap a).items off)) [
    | inl n ↦ ground arith
    | inr (x, q) ↦ elim (Option-cases (get_elem? c.table j)) [
      | inl n ↦ ground (arith)
      | inr (b, p) ↦ ground (arith, get_elem?-set (c.heap a).items off k (f x) q, w.distinct ci j a)
    ]
  ]

  at-eq-some :
      (c : Chunks A) (ci off : ℕ) {x : A}
      → at c ci off ≡ some x
      → (a : ℕ) × (get_elem? c.table ci ≡ some a) × (get_elem? (c.heap a).items off ≡ some x)
  unfolding deref
  at-eq-some c ci off h = elim (Option-cases (get_elem? c.table ci)) [
    | inl n ↦ ground arith
    | inr (a, q) ↦ (a, q, ground arith)
  ]

  -- What a write of `f` at item `off` of chunk `ci` must do.
  record Wrote (gen : ℕ) (c : Chunks A) (ci off : ℕ) (y : A) (d : Chunks A) : Type 0 where
    owned : IsOwned gen d
    reads : (j k : ℕ) → at d j k ≡ (if (ci == j) && (off == k) then some y else at c j k)

  write_item-some :
      (c : Chunks A) (a off : ℕ) (f : A → A) {x : A}
      → get_elem? (c.heap a).items off ≡ some x
      → write_item c a off f
        ≡ some (record c {
          heap =
              update_heap c.heap a
                (record { born = (c.heap a).born; items = set (c.heap a).items off (f x) });
        })
  unfolding write_item
  write_item-some c a off f p = rw (p, write_item)

  write_table-some :
      (gen : ℕ) (c : Chunks A) (ci off : ℕ) (f : A → A) {x : A}
      → IsOwned gen c
      → at c ci off ≡ some x
      → (d : Chunks A) × (write_table c (get_elem? c.table ci) off f ≡ some d)
        × Wrote gen c ci off (f x) d
  unfolding write_table
  write_table-some gen c ci off f {x} w h =
      let (a, q, p) = at-eq-some c ci off h in
      let e = write_item-some c a off f p in
      (
        _,
        rw q e,
        record {
          owned = write-IsOwned gen c a off f w e;
          reads = λ j k. ground (arith, write-at gen c ci a off f j k w q e);
        },
      )

  -- A write succeeds where the table shows an item.
  modify_at-some :
      (gen : ℕ) (c : Chunks A) (ci off : ℕ) (f : A → A) {x : A}
      → IsOwned gen c
      → at c ci off ≡ some x
      → (d : Chunks A) × (modify_at gen c (get_elem? c.table ci) ci off f ≡ some d)
        × Wrote gen c ci off (f x) d
  unfolding modify_at
  modify_at-some gen c ci off f {x} w h =
      let (a, q, p) = at-eq-some c ci off h in
      let u = copy_on_write gen c ci a in
      let (d, e, r) =
        write_table-some gen u ci off f (copy-IsOwned gen c ci a w q)
          (copy-at gen c ci a ci off w q ∙ h) in
      (
        d,
        rw q e,
        record {
          owned = r.owned;
          reads = λ j k. ground (arith, r.reads j k, copy-at gen c ci a j k w q);
        },
      )

  modify_at-none :
      (gen : ℕ) (c : Chunks A) (ci off : ℕ) (f : A → A)
      → IsOwned gen c
      → at c ci off ≡ none
      → modify_at gen c (get_elem? c.table ci) ci off f ≡ none
  unfolding modify_at
  modify_at-none gen c ci off f w h = elim (Option-cases (get_elem? c.table ci)) [
    | inl n ↦ rw n
    | inr (a, q) ↦
        rw q
          (write_table-none (copy_on_write gen c ci a) ci off f (copy-at gen c ci a ci off w q ∙ h))
  ]
    where
      write_table-none :
          (d : Chunks A) (ci off : ℕ) (f : A → A)
          → at d ci off ≡ none
          → write_table d (get_elem? d.table ci) off f ≡ none
      write_table-none d ci off f h = unfold write_table write_item deref in ground arith

same_place :
    (size i j : ℕ) → size ≢ 0 → ((i / size == j / size) && (i % size == j % size)) ≡ (i == j)
same_place size i j h = ground (arith, div-add-mod i size, div-add-mod j size)

module _ {A : Type 0} where
  pub modify-some :
      (size gen : ℕ) (c : Chunks A) (i : ℕ) (f : A → A) {x : A}
      → IsOwned gen c
      → read size c i ≡ some x
      → (d : Chunks A) × (modify size gen c i f ≡ some d)
        × IsOwned gen d
        × ((j : ℕ) → read size d j ≡ (if i == j then some (f x) else read size c j))
  unfolding modify read_table
  modify-some size gen c i f {x} w h = elim (Bool-cases (size == 0)) [
    | inl e ↦ ground arith
    | inr e ↦
        let (d, m, r) = modify_at-some gen c (i / size) (i % size) f w (rw e at h) in
        (
          d,
          rw e m,
          r.owned,
          λ j. rw (e, r.reads (j / size) (j % size), same_place size i j (ground arith)),
        )
  ]

  pub modify-none :
      (size gen : ℕ) (c : Chunks A) (i : ℕ) (f : A → A)
      → IsOwned gen c
      → read size c i ≡ none
      → modify size gen c i f ≡ none
  unfolding modify read_table
  modify-none size gen c i f w h = elim (Bool-cases (size == 0)) [
    | inl e ↦ rw e
    | inr e ↦ rw e (modify_at-none gen c (i / size) (i % size) f w (rw e at h))
  ]

  -- A copy of the table reads as it did, whatever is written in later generations.
  pub read_table-frozen :
      (size gen : ℕ) (c d : Chunks A) (i : ℕ)
      → IsOwned gen c
      → IsLater (gen + 1) c d
      → read_table size d.heap c.table i ≡ read size c i
  unfolding read_table deref
  read_table-frozen size gen c d i w l = elim (Option-cases (get_elem? c.table (i / size))) [
    | inl n ↦ ground arith
    | inr (a, q) ↦ rw (q, l.frozen a (w.bound _ a q) (omega (arith, w.born _ a q)))
  ]
