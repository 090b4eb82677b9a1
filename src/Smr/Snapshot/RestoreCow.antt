-- ===== src/Smr/Snapshot/RestoreCow.antt =====
-- rust/smr-collections/common/src/cowsnap.rs: `restore_cow`.
pub mod Ends
pub mod Alike
use hi_perf_cmp.Prelude.{
  ℕ, ◌+◌, ◌-◌, List, Option, none, some, ◌==◌, ltb, not, if◌then◌else◌, length, take,
}
use hi_perf_cmp.Prelude.Run.{Run, ok, panic, Cmd, ◌>>◌, modify, skip}
use hi_perf_cmp.Smr.Level.{SmrConfig, put_id}
use hi_perf_cmp.Smr.Book
use hi_perf_cmp.Smr.CowBook
use hi_perf_cmp.Smr.CowBook.{CowBook}
use hi_perf_cmp.Smr.Booksnap.{LevelEntry, OrderEntry, get_word_at}
use hi_perf_cmp.Smr.Snapshot.Restore
use hi_perf_cmp.Smr.Snapshot.Restore.{
  Restored, fails, ◌>>=◌, expect, too_short, crc_mismatch, unsupported_version, wrong_capacity,
  side_u8, restore_groups,
}

-- The state that a command leaves, if it returns.
abbrev pub left : {S : Type 0} → Run S (Unit {0}) → Option S
left (ok a s) = some s
left panic = none

-- The writes through `level_mut` and `order_mut`
unfoldable pub put_level : LevelEntry → Cmd CowBook (Unit {0})
put_level e = CowBook.level_mut (side_u8 e.side) e.level_tick (λ lvl. record lvl {
  head = e.head;
  tail = e.tail;
  qty_total = e.qty_total;
  count = e.order_count;
})

unfoldable pub put_order : OrderEntry → Cmd CowBook (Unit {0})
put_order e = do
  CowBook.order_mut e.slot (λ o. record o {
    order_id = e.order_id;
    price = e.price;
    qty = e.qty;
    filled = e.filled;
    side = side_u8 e.side;
    next = e.next_slot;
    prev = e.prev;
  })
  if not (e.order_id == 0)
      then modify (λ b. record b { idmap = put_id b.idmap e.order_id e.slot })
      else skip

unfoldable pub restore_cow_message : List ℕ → SmrConfig → Restored CowBook
restore_cow_message buf cfg = expect (CowBook.new cfg) >>= λ book.
    expect (get_word_at 2 6 buf) >>= λ version.
    if not (version == 2)
    then fails (unsupported_version version)
    else (expect (get_word_at 2 0 buf) >>= λ acting_length.
        expect (get_word_at 8 8 buf) >>= λ price_min. expect (get_word_at 8 16 buf) >>= λ tick.
        expect (get_word_at 4 24 buf) >>= λ n_levels. expect (get_word_at 4 32 buf) >>= λ hwm.
        expect (get_word_at 4 36 buf) >>= λ best_bid. expect (get_word_at 4 40 buf) >>= λ best_ask.
        expect (get_word_at 4 28 buf) >>= λ capacity.
        if not (capacity == cfg.cap)
        then fails (wrong_capacity capacity cfg.cap)
        else (expect (get_word_at 4 44 buf) >>= λ free_head.
            restore_groups (λ e b. left (put_level e b)) (λ e b. left (put_order e b))
              (8 + acting_length) buf
              (record book {
                price_min = price_min;
                tick = tick;
                n_levels = n_levels;
                hwm = hwm;
                best_bid = best_bid;
                best_ask = best_ask;
                free_head = free_head;
              })))

unfoldable pub restore_cow : (List ℕ → ℕ) → List ℕ → SmrConfig → Restored CowBook
restore_cow crc32c bytes cfg =
    if ltb (length bytes) 4
    then fails too_short
    else (expect (get_word_at 4 (length bytes - 4) bytes) >>= λ want.
        if not (crc32c (take (length bytes - 4) bytes) == want)
        then fails crc_mismatch
        else restore_cow_message (take (length bytes - 4) bytes) cfg)
