-- ===== src/Smr/Booksnap.antt =====
-- rust/smr-collections/booksnap-sbe/generated/booksnap/src: the bytes of a snapshot. lib.rs reads and
-- writes little-endian words at an index of a slice; book_snapshot_codec.rs and
-- message_header_codec.rs place the fields. `none` is a panic on a slice out of range.
pub mod Writes
pub mod Reads
use hi_perf_cmp.Prelude.{
  ℕ, zero, suc, ◌+◌, ◌*◌, ◌/◌, ◌%◌, List, [], ◌∷◌, ◌++◌, Option, none, some, ◌==◌, leb,
  if◌then◌else◌, length, get_elem?, take, drop,
}
use hi_perf_cmp.Prelude.Partial.{◌>>=◌}

-- `side::Side`
pub data Side : Type 0 where
  bid : Side
  ask : Side
  null_val : Side

pub record LevelEntry : Type 0 where
  pub side : Side
  pub level_tick : ℕ  -- u32
  pub qty_total : ℕ  -- i64
  pub order_count : ℕ  -- u32
  pub head : ℕ  -- u32
  pub tail : ℕ  -- u32

pub record OrderEntry : Type 0 where
  pub slot : ℕ  -- u32
  pub order_id : ℕ  -- i64
  pub price : ℕ  -- i64
  pub qty : ℕ  -- i64
  pub filled : ℕ  -- i64
  pub side : Side
  pub next_slot : ℕ  -- u32
  pub prev : ℕ  -- u32

-- The fixed block of the message.
pub record Block : Type 0 where
  pub price_min : ℕ  -- i64
  pub tick_size : ℕ  -- i64
  pub nl_evels : ℕ  -- u32
  pub capacity : ℕ  -- u32
  pub hwm : ℕ  -- u32
  pub best_bid : ℕ  -- i32
  pub best_ask : ℕ  -- i32
  pub free_head : ℕ  -- u32

-- `to_le_bytes` of a word of `n` bytes
abbrev pub to_le_bytes : ℕ → ℕ → List ℕ
to_le_bytes zero v = []
to_le_bytes (suc n) v = v % 256 ∷ to_le_bytes n (v / 256)

-- `from_le_bytes`
abbrev pub from_le_bytes : List ℕ → ℕ
from_le_bytes [] = 0
from_le_bytes (b ∷ bs) = b + 256 * from_le_bytes bs

-- A write to the buffer.
abbrev pub Write : Type 0
Write = List ℕ → Option (List ℕ)

infixr 6 ◌>=>◌
abbrev pub ◌>=>◌ : Write → Write → Write
f >=> g = λ buf. f buf >>= g

unfoldable pub put_bytes_at : ℕ → List ℕ → Write
put_bytes_at index bytes buf =
    if leb (index + length bytes) (length buf)
    then some (take index buf ++ (bytes ++ drop (index + length bytes) buf))
    else none

abbrev pub put_word_at : ℕ → ℕ → ℕ → Write
put_word_at width index value = put_bytes_at index (to_le_bytes width value)

unfoldable pub get_bytes_at : ℕ → ℕ → List ℕ → Option (List ℕ)
get_bytes_at width index buf =
    if leb (index + width) (length buf) then some (take width (drop index buf)) else none

unfoldable pub get_word_at : ℕ → ℕ → List ℕ → Option ℕ
get_word_at width index buf = do bytes ← get_bytes_at width index buf; some (from_le_bytes bytes)

-- `value as u8`
unfoldable pub side_byte : Side → ℕ
side_byte bid = 0
side_byte ask = 1
side_byte null_val = 255

-- `Side::from`
unfoldable pub side_from : ℕ → Side
side_from v = if v == 0 then bid else if v == 1 then ask else null_val

abbrev pub block_length : ℕ
block_length = 40

abbrev pub template_id : ℕ
template_id = 1

abbrev pub schema_id : ℕ
schema_id = 8

abbrev pub schema_version : ℕ
schema_version = 2

-- `BookSnapshotEncoder::header`, at offset 0
unfoldable pub put_header : Write
put_header =
    put_word_at 2 0 block_length
    >=> put_word_at 2 2 template_id
    >=> put_word_at 2 4 schema_id
    >=> put_word_at 2 6 schema_version

-- The setters of `BookSnapshotEncoder`, behind the header of 8 bytes.
unfoldable pub put_block : Block → Write
put_block m =
    put_word_at 8 8 m.price_min
    >=> put_word_at 8 16 m.tick_size
    >=> put_word_at 4 24 m.nl_evels
    >=> put_word_at 4 28 m.capacity
    >=> put_word_at 4 32 m.hwm
    >=> put_word_at 4 36 m.best_bid
    >=> put_word_at 4 40 m.best_ask
    >=> put_word_at 4 44 m.free_head

-- `wrap` of a group encoder
unfoldable pub put_group : ℕ → ℕ → ℕ → Write
put_group width count limit = put_word_at 2 limit width >=> put_word_at 2 (limit + 2) count

abbrev pub level_length : ℕ
level_length = 25

abbrev pub order_length : ℕ
order_length = 45

unfoldable pub put_level : LevelEntry → ℕ → Write
put_level e offset =
    put_word_at 1 offset (side_byte e.side)
    >=> put_word_at 4 (offset + 1) e.level_tick
    >=> put_word_at 8 (offset + 5) e.qty_total
    >=> put_word_at 4 (offset + 13) e.order_count
    >=> put_word_at 4 (offset + 17) e.head
    >=> put_word_at 4 (offset + 21) e.tail

unfoldable pub put_order : OrderEntry → ℕ → Write
put_order e offset =
    put_word_at 4 offset e.slot
    >=> put_word_at 8 (offset + 4) e.order_id
    >=> put_word_at 8 (offset + 12) e.price
    >=> put_word_at 8 (offset + 20) e.qty
    >=> put_word_at 8 (offset + 28) e.filled
    >=> put_word_at 1 (offset + 36) (side_byte e.side)
    >=> put_word_at 4 (offset + 37) e.next_slot
    >=> put_word_at 4 (offset + 41) e.prev

-- The entries of a group: `advance` puts each at the limit, which moves by the entry's length.
unfoldable pub put_entries : {A : Type 0} → (A → ℕ → Write) → ℕ → List A → ℕ → Write
put_entries put width [] limit buf = some buf
put_entries put width (e ∷ es) limit buf = do
  next ← put e limit buf
  put_entries put width es (limit + width) next

-- The version in the header.
unfoldable pub get_version : List ℕ → Option ℕ
get_version = get_word_at 2 6

unfoldable pub get_block_length : List ℕ → Option ℕ
get_block_length = get_word_at 2 0

unfoldable pub get_level : ℕ → List ℕ → Option LevelEntry
get_level offset buf = do
  side ← get_elem? buf offset
  level_tick ← get_word_at 4 (offset + 1) buf
  qty_total ← get_word_at 8 (offset + 5) buf
  order_count ← get_word_at 4 (offset + 13) buf
  head ← get_word_at 4 (offset + 17) buf
  tail ← get_word_at 4 (offset + 21) buf
  some (record {
    side = side_from side;
    level_tick = level_tick;
    qty_total = qty_total;
    order_count = order_count;
    head = head;
    tail = tail;
  })

unfoldable pub get_order : ℕ → List ℕ → Option OrderEntry
get_order offset buf = do
  slot ← get_word_at 4 offset buf
  order_id ← get_word_at 8 (offset + 4) buf
  price ← get_word_at 8 (offset + 12) buf
  qty ← get_word_at 8 (offset + 20) buf
  filled ← get_word_at 8 (offset + 28) buf
  side ← get_elem? buf (offset + 36)
  next_slot ← get_word_at 4 (offset + 37) buf
  prev ← get_word_at 4 (offset + 41) buf
  some (record {
    slot = slot;
    order_id = order_id;
    price = price;
    qty = qty;
    filled = filled;
    side = side_from side;
    next_slot = next_slot;
    prev = prev;
  })
