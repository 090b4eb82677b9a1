-- ===== src/Smr/Snapshot/Orders.antt =====
-- What the order entries of a book's image do to a new book.
use hi_perf_cmp.Prelude.{
  ℕ, zero, suc, ◌<◌, ◌≤◌, ◌≡◌, ◌≢◌, refl, sym, ap, ◌∙◌, arith, true, Bool-cases, inl, inr, List, [],
  ◌∷◌, ◌++◌, Option, none, some, ◌==◌, ltb, not, if◌then◌else◌, length, length-set, length-append,
  get_or, get_or-set, set,
}
use hi_perf_cmp.Smr.Level.{Order, zero_order, IdMap, no_ids, put_id}
use hi_perf_cmp.Smr.Book.{Book}
use hi_perf_cmp.Smr.Book.View.{View, Ghost, IsLinked}
use hi_perf_cmp.Smr.Booksnap.{OrderEntry}
use hi_perf_cmp.Smr.Snapshot.{side_enum, order_entry, order_entries}
use hi_perf_cmp.Smr.Snapshot.Restore.{side_u8, order_of, apply_order}
use hi_perf_cmp.Smr.Snapshot.Bytes.{ApplyAll, append-ApplyAll}

-- An order as it comes back: any side but 0 is the ask side.
abbrev pub restored_order : Order → Order
restored_order o = record o { side = if o.side == 0 then 0 else 1 }

order_of-order_entry : (slot : ℕ) (o : Order) → order_of (order_entry slot o) ≡ restored_order o
unfolding order_of order_entry side_u8 side_enum
order_of-order_entry slot o = elim (Bool-cases (o.side == 0)) [
  | inl e ↦ rw e refl
  | inr e ↦ rw e refl
]

module _ (at : ℕ → Order) where
  -- The entries of the slots below `n`.
  abbrev pub slot_entries : ℕ → List OrderEntry
  slot_entries zero = []
  slot_entries (suc n) = slot_entries n ++ (order_entry n (at n) ∷ [])

  pub length-slot_entries : (n : ℕ) → length (slot_entries n) ≡ n
  length-slot_entries zero = refl
  length-slot_entries (suc n) =
      omega
        (arith, length-append (slot_entries n) (order_entry n (at n) ∷ []), length-slot_entries n)

  pub order_entries-slots :
      (read : ℕ → Option Order) (n : ℕ)
      → ((s : ℕ) → s < n → read s ≡ some (at s))
      → order_entries read n ≡ some (slot_entries n)
  unfolding order_entries
  order_entries-slots read zero found = refl
  order_entries-slots read (suc n) found =
      rw (order_entries-slots read n (λ s h. found s (omega arith)), found n (omega arith)) refl

  abbrev pub write_pool : ℕ → List Order → List Order
  write_pool zero pool = pool
  write_pool (suc n) pool = set (write_pool n pool) n (restored_order (at n))

  abbrev pub write_ids : ℕ → IdMap → IdMap
  write_ids zero ids = ids
  write_ids (suc n) ids =
      if not ((at n).order_id == 0)
      then put_id (write_ids n ids) (at n).order_id n
      else write_ids n ids

  pub length-write_pool : (n : ℕ) (pool : List Order) → length (write_pool n pool) ≡ length pool
  length-write_pool zero pool = refl
  length-write_pool (suc n) pool =
      length-set (write_pool n pool) n (restored_order (at n)) ∙ length-write_pool n pool

  pub at_write_pool :
      (n j : ℕ) (pool : List Order)
      → n ≤ length pool
      → get_or (write_pool n pool) j zero_order
        ≡ (if ltb j n then restored_order (at j) else get_or pool j zero_order)
  at_write_pool zero j pool room = ground arith
  at_write_pool (suc n) j pool room =
      get_or-set (write_pool n pool) n j (restored_order (at n)) zero_order
        (omega (arith, length-write_pool n pool))
      ∙ (elim (Bool-cases (n == j)) [
        | inl e ↦
            let here : n ≡ j = ground arith in
            let low : ltb j (suc n) ≡ true = ground arith in
            rw (e, low) (ap (λ s. restored_order (at s)) here)
        | inr e ↦
            let same : ltb j (suc n) ≡ ltb j n = ground arith in
            rw (e, same) (at_write_pool n j pool (omega arith))
      ])

  one_applied :
      (n : ℕ) (b : Book)
      → n < length b.pool
      → apply_order
          (order_entry n (at n))
          (record b { pool = write_pool n b.pool; idmap = write_ids n b.idmap })
        ≡ some (record b { pool = write_pool (suc n) b.pool; idmap = write_ids (suc n) b.idmap })
  unfolding apply_order order_entry
  one_applied n b room =
      let low : ltb n (length (write_pool n b.pool)) ≡ true =
        ground (arith, length-write_pool n b.pool) in
      rw (low, order_of-order_entry n (at n)) refl

  pub orders_applied :
      (n : ℕ) (b : Book)
      → n ≤ length b.pool
      → ApplyAll apply_order
          (slot_entries n)
          b
          (record b { pool = write_pool n b.pool; idmap = write_ids n b.idmap })
  orders_applied zero b room = refl
  orders_applied (suc n) b room =
      append-ApplyAll apply_order (slot_entries n) (order_entry n (at n) ∷ []) b
        (record b { pool = write_pool n b.pool; idmap = write_ids n b.idmap })
        (record b { pool = write_pool (suc n) b.pool; idmap = write_ids (suc n) b.idmap })
        (orders_applied n b (omega arith))
        (
          record b { pool = write_pool (suc n) b.pool; idmap = write_ids (suc n) b.idmap },
          last,
          refl,
        )
    where
      last :
          apply_order
            (order_entry n (at n))
            (record b { pool = write_pool n b.pool; idmap = write_ids n b.idmap })
          ≡ some (record b { pool = write_pool (suc n) b.pool; idmap = write_ids (suc n) b.idmap })
      last = one_applied n b (omega arith)

-- What of a lookup is below `n`.
abbrev pub keep : ℕ → Option ℕ → Option ℕ
keep n none = none
keep n (some s) = if ltb s n then some s else none

keep-zero : (o : Option ℕ) → keep 0 o ≡ none
keep-zero none = refl
keep-zero (some s) = ground arith

keep-suc : (n : ℕ) (o : Option ℕ) → o ≢ some n → keep (suc n) o ≡ keep n o
keep-suc n none h = refl
keep-suc n (some s) h = elim (Bool-cases (s == n)) [
  | inl e ↦ absurd (h (ap some (ground arith)))
  | inr e ↦ ground arith
]

-- The id-map of a book, from the slots below `n`.
module _ {place : ℕ → Option ℕ} {m : ℕ} {g : Ghost} {v : View} (w : IsLinked place m g v) where
  at_write_ids : (n id : ℕ) → write_ids v.at n no_ids id ≡ keep n (v.idmap id)
  at_write_ids zero id = sym (keep-zero (v.idmap id))
  at_write_ids (suc n) id = elim (Bool-cases ((v.at n).order_id == 0)) [
    | inl e ↦
        let other : v.idmap id ≢ some n = λ h. ground (arith, w.id_rests id n h) in
        rw (e, keep-suc n (v.idmap id) other) (at_write_ids n id)
    | inr e ↦ elim (Bool-cases ((v.at n).order_id == id)) [
      | inl f ↦
          let is : (v.at n).order_id ≡ id = ground arith in
          let here : v.idmap id ≡ some n = ap v.idmap (sym is) ∙ w.rests_id n (ground arith) in
          let low : ltb n (suc n) ≡ true = ground arith in rw (e, f, here, low) refl
      | inr f ↦
          let other : v.idmap id ≢ some n = λ h. ground (arith, w.id_rests id n h) in
          rw (e, f, keep-suc n (v.idmap id) other) (at_write_ids n id)
    ]
  ]

  pub write_ids-all : (id : ℕ) → write_ids v.at v.hwm no_ids id ≡ v.idmap id
  write_ids-all id = at_write_ids v.hwm id ∙ all (v.idmap id) refl
    where
      all : (o : Option ℕ) → v.idmap id ≡ o → keep v.hwm o ≡ v.idmap id
      all none h = sym h
      all (some s) h =
          let low : ltb s v.hwm ≡ true = ground (arith, w.id_rests id s h, w.fresh s) in
          rw low (sym h)
