-- ===== src/Smr/Snapshot/Bytes.antt =====
-- The bytes of a message: what `encode` puts in the buffer, and what `restore` reads of it.
use hi_perf_cmp.Prelude.{
  ℕ, ◌+◌, ◌≡◌, refl, sym, ap, ◌∙◌, arith, List, [], ◌∷◌, ◌++◌, Option, some, length, length-append,
}
use mathlib.Core.Path.{subst}
use hi_perf_cmp.Smr.Booksnap.{put_level, put_order, level_length, order_length}
use hi_perf_cmp.Smr.Booksnap.Writes.{
  Emits, header_bytes, block_bytes, group_bytes, level_bytes, order_bytes, entries_bytes,
  length-entries, seq-Emits, header-Emits, block-Emits, group-Emits, level-Emits, order-Emits,
  entries-Emits, append_assoc,
}
use hi_perf_cmp.Smr.Snapshot.{Image, orders_at, sbe_len, put_image}
use hi_perf_cmp.Smr.Snapshot.Restore.{restores, restore_entries}

abbrev pub message_bytes : Image → List ℕ
message_bytes m =
    header_bytes
    ++ (block_bytes m.block
        ++ (group_bytes level_length (length m.levels)
            ++ (entries_bytes level_bytes m.levels
                ++ (group_bytes order_length (length m.orders)
                    ++ entries_bytes order_bytes m.orders))))

pub image-Emits : (m : Image) → Emits (put_image m) 0 (message_bytes m)
unfolding put_image
image-Emits m = seq-Emits header-Emits refl (
    seq-Emits (block-Emits m.block) refl (
      seq-Emits (group-Emits level_length (length m.levels) 48) refl (
        seq-Emits
          (entries-Emits put_level level_bytes level_length (λ e. refl) level-Emits m.levels 52)
          (ap (λ n. 52 + n) (length-entries level_bytes level_length (λ e. refl) m.levels))
          (seq-Emits (group-Emits order_length (length m.orders) (orders_at m)) refl (
            entries-Emits put_order order_bytes order_length (λ e. refl) order-Emits m.orders
              (orders_at m + 4))))))

pub length-message : (m : Image) → length (message_bytes m) ≡ sbe_len m
length-message m = omega (
  arith,
  length-append (entries_bytes level_bytes m.levels)
      (group_bytes order_length (length m.orders) ++ entries_bytes order_bytes m.orders),
  length-entries level_bytes level_length (λ e. refl) m.levels,
  length-entries order_bytes order_length (λ e. refl) m.orders,
)

-- Each entry fits its words.
abbrev pub Each : {A : Type 0} → (A → Type 0) → List A → Type 0
Each P [] = Unit {0}
Each P (e ∷ es) = P e × Each P es

pub append-Each :
    {A : Type 0} (P : A → Type 0) (xs ys : List A) → Each P xs → Each P ys → Each P (xs ++ ys)
append-Each P [] ys p q = q
append-Each P (x ∷ xs) ys (p, ps) q = (p, append-Each P xs ys ps q)

-- The entries, one after another.
abbrev pub ApplyAll : {A S : Type 0} → (A → S → Option S) → List A → S → S → Type 0
ApplyAll apply [] s s' = s ≡ s'
ApplyAll {S} apply (e ∷ es) s s' = (t : S) × (apply e s ≡ some t) × ApplyAll apply es t s'

pub restore_entries-all :
    {A S : Type 0} (get : ℕ → List ℕ → Option A) (bytes : A → List ℕ) (P : A → Type 0) (width : ℕ)
    (apply : A → S → Option S)
    → ((e : A) → length (bytes e) ≡ width)
    → ((e : A) (i : ℕ) (w r : List ℕ) → P e → i ≡ length w → get i (w ++ (bytes e ++ r)) ≡ some e)
    → (es : List A) (i : ℕ) (w r : List ℕ) (s s' : S) → Each P es
    → i ≡ length w
    → ApplyAll apply es s s'
    → restore_entries get apply (length es) width i (w ++ (entries_bytes bytes es ++ r)) s
      ≡ restores s'
unfolding restore_entries
restore_entries-all get bytes P width apply wide read [] i w r s s' each h e = ap restores e
restore_entries-all get bytes P width apply wide read (e ∷ es) i w r s s' (fits, each) h
      (t, first, rest) =
    let e_bytes = entries_bytes bytes es in
    let this =
      ap (λ l. get i (w ++ l)) (append_assoc (bytes e) e_bytes r)
      ∙ read e i w (e_bytes ++ r) fits h in
    let moved =
      ap (λ l. w ++ l) (append_assoc (bytes e) e_bytes r)
      ∙ sym (append_assoc w (bytes e) (e_bytes ++ r)) in
    rw (this, first, moved)
      (restore_entries-all get bytes P width apply wide read es (i + width) (w ++ bytes e) r t s'
        each (omega (arith, length-append w (bytes e), wide e)) rest)

pub append-ApplyAll :
    {A S : Type 0} (apply : A → S → Option S) (xs ys : List A) (s t u : S)
    → ApplyAll apply xs s t
    → ApplyAll apply ys t u
    → ApplyAll apply (xs ++ ys) s u
append-ApplyAll apply [] ys s t u p q = subst (λ r. ApplyAll apply ys r u) (sym p) q
append-ApplyAll apply (x ∷ xs) ys s t u (r, first, rest) q =
    (r, first, append-ApplyAll apply xs ys r t u rest q)
