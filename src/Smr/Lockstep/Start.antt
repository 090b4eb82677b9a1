-- ===== src/Smr/Lockstep/Start.antt =====
-- `CowBook::new` shows `Book::new`.
use native.Mathlib.Nat.{div-add-mod}
use hi_perf_cmp.Prelude.{
  ℕ, zero, suc, ◌+◌, ◌-◌, ◌*◌, ◌/◌, ◌%◌, ◌^◌, ◌≤◌, ◌<◌, ◌≡◌, ◌≢◌, refl, sym, ◌∙◌, none, some, false,
  arith, get_elem?, ltb, ◌==◌, if◌then◌else◌, inl, inr, Option-cases, replicate,
  get_elem?-replicate, length-replicate,
}
use hi_perf_cmp.Smr.Level.{SmrConfig}
use hi_perf_cmp.Smr.Chunks.{read, read_table, deref}
use hi_perf_cmp.Smr.Chunks.Laws.{IsOwned}
use hi_perf_cmp.Smr.Book
use hi_perf_cmp.Smr.CowBook
use hi_perf_cmp.Smr.CowBook.{CowBook, level_chunk, div_ceil, addresses, new_chunk, new_chunks}
use hi_perf_cmp.Smr.Lockstep.{Shows}

get_elem?-addresses :
    (k i j : ℕ) → get_elem? (addresses k i) j ≡ (if ltb j k then some (i + j) else none)
get_elem?-addresses zero i j = ground arith
get_elem?-addresses (suc k) i zero = ground arith
get_elem?-addresses (suc k) i (suc j) = ground (arith, get_elem?-addresses k (i + 1) j)

-- Chunk `i / size` is there exactly for the items of the table, and holds item `i % size`.
module _ (size n i : ℕ) (h : size ≢ 0) where
  rest_lt : (k : ℕ) → k % size < size
  rest_lt k = omega arith

  in_table : i < n → i / size < div_ceil n size
  in_table lt = grind (arith, div-add-mod i size, div-add-mod n size, rest_lt n, rest_lt i)

  in_chunk_lt : i < n → i % size < n - (i / size) * size
  in_chunk_lt lt = grind (arith, div-add-mod i size)

  not_in_chunk : n ≤ i → n - (i / size) * size ≤ i % size
  not_in_chunk le = grind (arith, div-add-mod i size)

module _ {A : Type 0} (size n : ℕ) (item : A) (h : size ≢ 0) where
  read-new_chunks : (i : ℕ) → read size (new_chunks size n item) i ≡ get_elem? (replicate n item) i
  unfolding read_table new_chunks new_chunk deref
  read-new_chunks i = elim (Option-cases (get_elem? (addresses (div_ceil n size) 0) (i / size))) [
    | inl none_there ↦ ground (arith, first, in_table size n i h, get_elem?-replicate n i item)
    | inr (a, there) ↦
        let e : a ≡ i / size = ground (arith, first) in
        rw (there, e)
          (ground (
            arith,
            in_chunk_lt size n i h,
            not_in_chunk size n i h,
            rest_lt size n i h i,
            get_elem?-replicate n i item,
            get_elem?-replicate
                (if ltb size (n - i / size * size) then size else n - i / size * size) (i % size)
                item,
          ))
  ]
    where
      first :
          get_elem? (addresses (div_ceil n size) 0) (i / size)
          ≡ (if ltb (i / size) (div_ceil n size) then some (i / size) else none)
      first = ground (arith, get_elem?-addresses (div_ceil n size) 0 (i / size))

  new_chunks-IsOwned : IsOwned 1 (new_chunks size n item)
  unfolding new_chunks new_chunk
  new_chunks-IsOwned = record {
    bound = λ i a e. ground (arith, get_elem?-addresses (div_ceil n size) 0 i);
    born = λ i a e. omega arith;
    distinct = λ i j a p q. ground (
      arith,
      get_elem?-addresses (div_ceil n size) 0 i,
      get_elem?-addresses (div_ceil n size) 0 j,
    );
  }

pub new_book-Shows :
    (cfg : SmrConfig)
    → cfg.chunk ≢ 0
    → cfg.cap < 2 ^ 32
    → Shows (CowBook.new_book cfg) (Book.new cfg)
unfolding Book.new
new_book-Shows cfg h small = record {
  price_min = refl;
  tick = refl;
  n_levels = refl;
  capacity = sym (length-replicate cfg.cap _ ∙ omega arith);
  hwm = refl;
  best_bid = refl;
  best_ask = refl;
  free_head = refl;
  idmap = refl;
  orders = read-new_chunks cfg.chunk cfg.cap _ h;
  bids = read-new_chunks level_chunk cfg.levels _ (omega arith);
  asks = read-new_chunks level_chunk cfg.levels _ (omega arith);
  orders_owned = new_chunks-IsOwned cfg.chunk cfg.cap _ h;
  bids_owned = new_chunks-IsOwned level_chunk cfg.levels _ (omega arith);
  asks_owned = new_chunks-IsOwned level_chunk cfg.levels _ (omega arith);
}

-- `CowBook::new` returns a book that shows the book of `Book::new`, if the chunk size is positive
-- and the capacity fits in a u32; with a chunk size of zero it panics.
pub new-Shows :
    (cfg : SmrConfig)
    → cfg.cap < 2 ^ 32
    → (cfg.chunk ≢ 0 → (w : CowBook) × (CowBook.new cfg ≡ some w) × Shows w (Book.new cfg))
      × (cfg.chunk ≡ 0 → CowBook.new cfg ≡ none)
unfolding CowBook.new
new-Shows cfg small = (
  λ h.
      let e : (cfg.chunk == 0) ≡ false = ground arith in
      (CowBook.new_book cfg, rw e refl, new_book-Shows cfg h small),
  λ h. ground arith,
)
