-- ===== src/Smr/Booksnap/Writes.antt =====
-- What the writes of a snapshot leave: one follows another in the buffer.
use hi_perf_cmp.Prelude.{
  ℕ, zero, suc, ◌+◌, ◌*◌, ◌≤◌, ◌≡◌, refl, sym, ap, ◌∙◌, arith, true, List, [], ◌∷◌, ◌++◌, some,
  length, length-append, length-drop, drop, take, leb,
}
use hi_perf_cmp.Smr.Booksnap.{
  Block, LevelEntry, OrderEntry, Write, ◌>=>◌, to_le_bytes, put_bytes_at, put_word_at, side_byte,
  put_header, put_block, put_group, put_level, put_order, put_entries, block_length, template_id,
  schema_id, schema_version,
}

-- A write that puts `xs` at `i`, which is the end of what is written.
pub record Emits (f : Write) (i : ℕ) (xs : List ℕ) : Type 0 where
  pub emits :
      (w r : List ℕ)
      → i ≡ length w
      → length xs ≤ length r
      → f (w ++ r) ≡ some ((w ++ xs) ++ drop (length xs) r)

module _ {ℓ} {A : Type ℓ} where
  pub append_assoc : (xs ys zs : List A) → (xs ++ ys) ++ zs ≡ xs ++ (ys ++ zs)
  append_assoc [] ys zs = refl
  append_assoc (x ∷ xs) ys zs = ap (λ l. x ∷ l) (append_assoc xs ys zs)

  pub take-append : (xs ys : List A) → take (length xs) (xs ++ ys) ≡ xs
  take-append [] ys = refl
  take-append (x ∷ xs) ys = ap (λ l. x ∷ l) (take-append xs ys)

  pub drop-append : (xs ys : List A) (k : ℕ) → drop (length xs + k) (xs ++ ys) ≡ drop k ys
  drop-append [] ys k = ap (λ n. drop n ys) (omega arith)
  drop-append (x ∷ xs) ys k =
      ap (λ n. drop n (x ∷ (xs ++ ys))) (shift (length xs) k) ∙ drop-append xs ys k
    where
      shift : (n k : ℕ) → suc n + k ≡ suc (n + k)
      shift n k = omega arith

  pub drop-drop : (m n : ℕ) (xs : List A) → drop n (drop m xs) ≡ drop (m + n) xs
  drop-drop zero n xs = ap (λ k. drop k xs) (omega arith)
  drop-drop (suc m) zero [] = nothing (suc m + 0)
    where
      nothing : (k : ℕ) → [] ≡ drop {A = A} k []
      nothing zero = refl
      nothing (suc k) = refl
  drop-drop (suc m) (suc n) [] = ap (λ k. drop k []) (shift m (suc n))
    where
      shift : (n k : ℕ) → suc (n + k) ≡ suc n + k
      shift n k = omega arith
  drop-drop (suc m) n (x ∷ xs) = drop-drop m n xs ∙ ap (λ k. drop k (x ∷ xs)) (shift m n)
    where
      shift : (n k : ℕ) → suc (n + k) ≡ suc n + k
      shift n k = omega arith

bytes-Emits : (i : ℕ) (xs : List ℕ) → Emits (put_bytes_at i xs) i xs
unfolding put_bytes_at
bytes-Emits i xs = record {
  emits = λ w r h fits.
      let short : leb (i + length xs) (length (w ++ r)) ≡ true =
        ground (arith, length-append w r) in
      rw
        (
          short,
          h,
          take-append w r,
          drop-append w r (length xs),
          sym (append_assoc w xs (drop (length xs) r)),
        )
        refl;
}

pub word-Emits : (n i v : ℕ) → Emits (put_word_at n i v) i (to_le_bytes n v)
word-Emits n i v = bytes-Emits i (to_le_bytes n v)

pub seq-Emits :
    {f g : Write} {i j : ℕ} {xs ys : List ℕ}
    → Emits f i xs
    → i + length xs ≡ j
    → Emits g j ys
    → Emits (f >=> g) i (xs ++ ys)
seq-Emits {f} {g} {i} {j} {xs} {ys} p e q = record {
  emits = λ w r h fits.
      let first = p.emits w r h (omega (arith, length-append xs ys)) in
      let second =
        q.emits (w ++ xs) (drop (length xs) r) (omega (arith, length-append w xs))
          (omega (arith, length-append xs ys, length-drop (length xs) r)) in
      rw
        (
          first,
          second,
          drop-drop (length xs) (length ys) r,
          append_assoc w xs ys,
          length-append xs ys,
        )
        refl;
}

abbrev pub level_bytes : LevelEntry → List ℕ
level_bytes e =
    to_le_bytes 1 (side_byte e.side)
    ++ (to_le_bytes 4 e.level_tick
        ++ (to_le_bytes 8 e.qty_total
            ++ (to_le_bytes 4 e.order_count ++ (to_le_bytes 4 e.head ++ to_le_bytes 4 e.tail))))

pub level-Emits : (e : LevelEntry) (i : ℕ) → Emits (put_level e i) i (level_bytes e)
unfolding put_level
level-Emits e i = seq-Emits (word-Emits 1 i _) refl (
    seq-Emits (word-Emits 4 (i + 1) _) (omega arith) (
      seq-Emits (word-Emits 8 (i + 5) _) (omega arith) (
        seq-Emits (word-Emits 4 (i + 13) _) (omega arith)
          (seq-Emits (word-Emits 4 (i + 17) _) (omega arith) (word-Emits 4 (i + 21) _)))))

abbrev pub order_bytes : OrderEntry → List ℕ
order_bytes e =
    to_le_bytes 4 e.slot
    ++ (to_le_bytes 8 e.order_id
        ++ (to_le_bytes 8 e.price
            ++ (to_le_bytes 8 e.qty
                ++ (to_le_bytes 8 e.filled
                    ++ (to_le_bytes 1 (side_byte e.side)
                        ++ (to_le_bytes 4 e.next_slot ++ to_le_bytes 4 e.prev))))))

pub order-Emits : (e : OrderEntry) (i : ℕ) → Emits (put_order e i) i (order_bytes e)
unfolding put_order
order-Emits e i = seq-Emits (word-Emits 4 i _) refl (
    seq-Emits (word-Emits 8 (i + 4) _) (omega arith) (
      seq-Emits (word-Emits 8 (i + 12) _) (omega arith) (
        seq-Emits (word-Emits 8 (i + 20) _) (omega arith) (
          seq-Emits (word-Emits 8 (i + 28) _) (omega arith) (
            seq-Emits (word-Emits 1 (i + 36) _) (omega arith)
              (seq-Emits (word-Emits 4 (i + 37) _) (omega arith) (word-Emits 4 (i + 41) _)))))))

-- The bytes of a group's entries.
abbrev pub entries_bytes : {A : Type 0} → (A → List ℕ) → List A → List ℕ
entries_bytes bytes [] = []
entries_bytes bytes (e ∷ es) = bytes e ++ entries_bytes bytes es

pub entries-Emits :
    {A : Type 0} (put : A → ℕ → Write) (bytes : A → List ℕ) (width : ℕ)
    → ((e : A) → length (bytes e) ≡ width)
    → ((e : A) (i : ℕ) → Emits (put e i) i (bytes e))
    → (es : List A) (i : ℕ) → Emits (put_entries put width es i) i (entries_bytes bytes es)
unfolding put_entries
entries-Emits put bytes width wide each [] i = record {
  emits = λ w r h fits. ap some (sym (append_assoc w [] r));
}
entries-Emits put bytes width wide each (e ∷ es) i =
    seq-Emits (each e i) (ap (λ n. i + n) (wide e))
      (entries-Emits put bytes width wide each es (i + width))

pub length-entries :
    {A : Type 0} (bytes : A → List ℕ) (width : ℕ)
    → ((e : A) → length (bytes e) ≡ width)
    → (es : List A) → length (entries_bytes bytes es) ≡ length es * width
length-entries bytes width wide [] = omega arith
length-entries bytes width wide (e ∷ es) =
    length-append (bytes e) (entries_bytes bytes es)
    ∙ omega (arith, wide e, length-entries bytes width wide es, times_suc (length es) width)
  where
    times_suc : (n m : ℕ) → suc n * m ≡ m + n * m
    times_suc n m = grind arith

abbrev pub header_bytes : List ℕ
header_bytes =
    to_le_bytes 2 block_length
    ++ (to_le_bytes 2 template_id ++ (to_le_bytes 2 schema_id ++ to_le_bytes 2 schema_version))

pub header-Emits : Emits put_header 0 header_bytes
unfolding put_header
header-Emits = seq-Emits (word-Emits 2 0 block_length) refl (
    seq-Emits (word-Emits 2 2 template_id) refl
      (seq-Emits (word-Emits 2 4 schema_id) refl (word-Emits 2 6 schema_version)))

abbrev pub block_bytes : Block → List ℕ
block_bytes m =
    to_le_bytes 8 m.price_min
    ++ (to_le_bytes 8 m.tick_size
        ++ (to_le_bytes 4 m.nl_evels
            ++ (to_le_bytes 4 m.capacity
                ++ (to_le_bytes 4 m.hwm
                    ++ (to_le_bytes 4 m.best_bid
                        ++ (to_le_bytes 4 m.best_ask ++ to_le_bytes 4 m.free_head))))))

pub block-Emits : (m : Block) → Emits (put_block m) 8 (block_bytes m)
unfolding put_block
block-Emits m = seq-Emits (word-Emits 8 8 _) refl (
    seq-Emits (word-Emits 8 16 _) refl (
      seq-Emits (word-Emits 4 24 _) refl (
        seq-Emits (word-Emits 4 28 _) refl (
          seq-Emits (word-Emits 4 32 _) refl (
            seq-Emits (word-Emits 4 36 _) refl
              (seq-Emits (word-Emits 4 40 _) refl (word-Emits 4 44 _)))))))

abbrev pub group_bytes : ℕ → ℕ → List ℕ
group_bytes width count = to_le_bytes 2 width ++ to_le_bytes 2 count

pub group-Emits : (width count i : ℕ) → Emits (put_group width count i) i (group_bytes width count)
unfolding put_group
group-Emits width count i = seq-Emits (word-Emits 2 i _) (omega arith) (word-Emits 2 (i + 2) _)
