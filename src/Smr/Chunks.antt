-- ===== src/Smr/Chunks.antt =====
-- The chunk tables of rust/smr-collections/common/src/cowbook.rs: a `Vec<Arc<Chunk>>` and the
-- allocations that its `Arc`s point to. An address is never reused, so that a chunk lives as long
-- as anybody can name it: what `Arc` frees, nobody reads. A root holds a copy of a table.
pub mod Laws
pub mod History
use hi_perf_cmp.Prelude.{
  ℕ, ◌+◌, ◌/◌, ◌%◌, List, Option, none, some, ◌==◌, ltb, if◌then◌else◌, get_elem?, set,
}

-- `OrderChunk`, `LevelChunk`
pub record Chunk (A : Type 0) : Type 0 where
  pub born : ℕ  -- u64
  pub items : List A

-- The allocations made so far are the addresses below `fresh`.
pub record Chunks (A : Type 0) : Type 0 where
  pub heap : ℕ → Chunk A
  pub fresh : ℕ
  pub table : List ℕ

module _ {A : Type 0} where
  -- Chunk `ci` of a table, then the item at `off`.
  unfoldable pub deref : (ℕ → Chunk A) → Option ℕ → ℕ → Option A
  deref heap none off = none
  deref heap (some a) off = get_elem? (heap a).items off

  -- `table[i / size].items[i % size]`; a size of zero and an index out of range panic.
  unfoldable pub read_table : ℕ → (ℕ → Chunk A) → List ℕ → ℕ → Option A
  read_table size heap table i =
      if size == 0 then none else deref heap (get_elem? table (i / size)) (i % size)

  abbrev pub read : ℕ → Chunks A → ℕ → Option A
  read size c i = read_table size c.heap c.table i

  abbrev pub update_heap : (ℕ → Chunk A) → ℕ → Chunk A → ℕ → Chunk A
  update_heap heap a x b = if a == b then x else heap b

  -- `Arc::new`, stored in the table
  unfoldable pub replace : Chunks A → ℕ → Chunk A → Chunks A
  replace c ci x = record {
    heap = update_heap c.heap c.fresh x;
    fresh = c.fresh + 1;
    table = set c.table ci c.fresh;
  }

  -- `if table[ci].born < gen { table[ci] = Arc::new(copy) }`
  unfoldable pub copy_on_write : ℕ → Chunks A → ℕ → ℕ → Chunks A
  copy_on_write gen c ci a =
      if ltb (c.heap a).born gen
      then replace c ci (record { born = gen; items = (c.heap a).items })
      else c

  -- The write through the pointer to the chunk in the table.
  unfoldable pub write_item : Chunks A → ℕ → ℕ → (A → A) → Option (Chunks A)
  write_item c a off f = elim (get_elem? (c.heap a).items off) [
    | none ↦ none
    | some x ↦ some (record c {
      heap =
          update_heap c.heap a
            (record { born = (c.heap a).born; items = set (c.heap a).items off (f x) });
    })
  ]

  -- The address in the table after the copy.
  unfoldable pub write_table : Chunks A → Option ℕ → ℕ → (A → A) → Option (Chunks A)
  write_table c none off f = none
  write_table c (some a) off f = write_item c a off f

  unfoldable pub modify_at : ℕ → Chunks A → Option ℕ → ℕ → ℕ → (A → A) → Option (Chunks A)
  modify_at gen c none ci off f = none
  modify_at gen c (some a) ci off f =
      let d = copy_on_write gen c ci a in write_table d (get_elem? d.table ci) off f

  unfoldable pub modify : ℕ → ℕ → Chunks A → ℕ → (A → A) → Option (Chunks A)
  modify size gen c i f =
      if size == 0
      then none
      else modify_at gen c (get_elem? c.table (i / size)) (i / size) (i % size) f
