-- ===== src/Smr/Chunks/History.antt =====
-- What a write to a chunk table leaves alone: every chunk that was born before the generation.
use hi_perf_cmp.Prelude.{
  ℕ, ◌≤◌, ◌<◌, ◌≡◌, refl, ◌∙◌, Option, none, some, arith, ◌==◌, get_elem?, ◌/◌, ◌%◌, get_elem?-set,
  Bool-cases, inl, inr,
}
use hi_perf_cmp.Smr.Chunks.{
  Chunks, replace, copy_on_write, write_item, write_table, modify_at, modify,
}

-- From generation `gen` on, `d` may come after `c`: what was frozen in `c` is unchanged.
pub record IsLater {A : Type 0} (gen : ℕ) (c d : Chunks A) : Type 0 where
  pub grows : c.fresh ≤ d.fresh
  pub frozen : (a : ℕ) → a < c.fresh → (c.heap a).born < gen → d.heap a ≡ c.heap a

module _ {A : Type 0} where
  pub IsLater-refl : (gen : ℕ) (c : Chunks A) → IsLater gen c c
  IsLater-refl gen c = record { grows = omega arith; frozen = λ a h b. refl }

  pub IsLater-trans :
      {g h : ℕ} {c d e : Chunks A} → g ≤ h → IsLater g c d → IsLater h d e → IsLater g c e
  IsLater-trans le p q = record {
    grows = omega (arith, p.grows, q.grows);
    frozen = λ a lt b.
        q.frozen a (omega (arith, p.grows)) (rw (p.frozen a lt b) (omega arith)) ∙ p.frozen a lt b;
  }

  write_item-IsLater :
      (gen : ℕ) (c : Chunks A) (a off : ℕ) (f : A → A) {d : Chunks A}
      → gen ≤ (c.heap a).born
      → write_item c a off f ≡ some d
      → IsLater gen c d
  unfolding write_item
  write_item-IsLater gen c a off f h e = record {
    grows = ground arith;
    frozen = λ b lt old. ground arith;
  }

  copy_on_write-IsLater :
      (gen : ℕ) (c : Chunks A) (ci a : ℕ) → IsLater gen c (copy_on_write gen c ci a)
  unfolding copy_on_write replace
  copy_on_write-IsLater gen c ci a = record {
    grows = ground arith;
    frozen = λ b lt old. ground arith;
  }

  -- After the copy the table leads to a chunk of this generation.
  copied_is_new :
      (gen : ℕ) (c : Chunks A) (ci a : ℕ) {b : ℕ}
      → get_elem? c.table ci ≡ some a
      → get_elem? (copy_on_write gen c ci a).table ci ≡ some b
      → gen ≤ ((copy_on_write gen c ci a).heap b).born
  unfolding copy_on_write replace
  copied_is_new gen c ci a {b} h e = ground (arith, get_elem?-set c.table ci ci c.fresh h)

  write_table-IsLater :
      (gen : ℕ) (c : Chunks A) (o : Option ℕ) (off : ℕ) (f : A → A) {d : Chunks A}
      → ((a : ℕ) → o ≡ some a → gen ≤ (c.heap a).born)
      → write_table c o off f ≡ some d
      → IsLater gen c d
  unfolding write_table
  write_table-IsLater gen c none off f h e = cc
  write_table-IsLater gen c (some a) off f h e = write_item-IsLater gen c a off f (h a refl) e

  modify_at-IsLater :
      (gen : ℕ) (c : Chunks A) (o : Option ℕ) (ci off : ℕ) (f : A → A) {d : Chunks A}
      → get_elem? c.table ci ≡ o
      → modify_at gen c o ci off f ≡ some d
      → IsLater gen c d
  unfolding modify_at
  modify_at-IsLater gen c none ci off f h e = cc
  modify_at-IsLater gen c (some a) ci off f h e =
      IsLater-trans (omega arith) (copy_on_write-IsLater gen c ci a)
        (write_table-IsLater gen _ _ off f (λ b q. copied_is_new gen c ci a h q) e)

  pub modify-IsLater :
      (size gen : ℕ) (c : Chunks A) (i : ℕ) (f : A → A) {d : Chunks A}
      → modify size gen c i f ≡ some d
      → IsLater gen c d
  unfolding modify
  modify-IsLater size gen c i f e = elim (Bool-cases (size == 0)) [
    | inl h ↦ absurd (cc (rw h at e))
    | inr h ↦ modify_at-IsLater gen c _ (i / size) (i % size) f refl (rw h at e)
  ]
