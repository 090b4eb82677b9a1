-- ===== src/Smr/Snapshot/Messages.antt =====
-- Whole messages: `restore` reads the fields that `put_message` wrote.
use hi_perf_cmp.Prelude.{
  ℕ, ◌+◌, ◌-◌, ◌^◌, ◌<◌, ◌≤◌, ◌≡◌, refl, sym, ap, ◌∙◌, arith, true, false, List, [], ◌++◌, some,
  ◌==◌, ltb, length, length-append, length-drop, drop, take,
}
use hi_perf_cmp.Smr.Level.{SmrConfig}
use hi_perf_cmp.Smr.Book
use hi_perf_cmp.Smr.Book.{Book}
use hi_perf_cmp.Smr.Booksnap.{
  Block, to_le_bytes, level_length, order_length, get_word_at, block_length, template_id, schema_id,
  schema_version,
}
use hi_perf_cmp.Smr.Booksnap.Writes.{
  header_bytes, group_bytes, level_bytes, order_bytes, entries_bytes, word-Emits, take-append,
}
use hi_perf_cmp.Smr.Booksnap.Reads.{get_word_at-append}
use hi_perf_cmp.Smr.Snapshot.{Image, sbe_len, put_message}
use hi_perf_cmp.Smr.Snapshot.Bytes.{message_bytes, image-Emits, length-message, ApplyAll}
use hi_perf_cmp.Smr.Snapshot.Restore.{restores, restore_message, restore, apply_level, apply_order}
use hi_perf_cmp.Smr.Snapshot.Groups.{IsImage, append_nil, restore_groups-done}

-- The new book with the fields of a block.
abbrev pub start : SmrConfig → Block → Book
start cfg k = record (Book.new cfg) {
  price_min = k.price_min;
  tick = k.tick_size;
  n_levels = k.nl_evels;
  hwm = k.hwm;
  best_bid = k.best_bid;
  best_ask = k.best_ask;
  free_head = k.free_head;
}

module _ (m : Image) (f : IsImage m) (cfg : SmrConfig) (cap : m.block.capacity ≡ cfg.cap) where
  abbrev groups : List ℕ
  groups =
      group_bytes level_length (length m.levels)
      ++ (entries_bytes level_bytes m.levels
          ++ (group_bytes order_length (length m.orders) ++ entries_bytes order_bytes m.orders))

  module _ (t u : Book) (levels : ApplyAll apply_level m.levels (start cfg m.block) t)
      (orders : ApplyAll apply_order m.orders t u) where
    pub restore_message-lem : restore_message (message_bytes m) cfg ≡ restores u
    unfolding restore_message
    restore_message-lem =
        let k = m.block in
        let h = header_bytes in
        let p1 = h ++ to_le_bytes 8 k.price_min in
        let p2 = p1 ++ to_le_bytes 8 k.tick_size in
        let p3 = p2 ++ to_le_bytes 4 k.nl_evels in
        let p4 = p3 ++ to_le_bytes 4 k.capacity in
        let p5 = p4 ++ to_le_bytes 4 k.hwm in
        let p6 = p5 ++ to_le_bytes 4 k.best_bid in
        let p7 = p6 ++ to_le_bytes 4 k.best_ask in
        let r7 = groups in
        let r6 = to_le_bytes 4 k.free_head ++ r7 in
        let r5 = to_le_bytes 4 k.best_ask ++ r6 in
        let r4 = to_le_bytes 4 k.best_bid ++ r5 in
        let r3 = to_le_bytes 4 k.hwm ++ r4 in
        let r2 = to_le_bytes 4 k.capacity ++ r3 in
        let r1 = to_le_bytes 4 k.nl_evels ++ r2 in
        let r0 = to_le_bytes 8 k.tick_size ++ r1 in
        let body = to_le_bytes 8 k.price_min ++ r0 in
        let right : (m.block.capacity == cfg.cap) ≡ true = ground (arith, cap) in
        rw
          (
            get_word_at-append 2 6 schema_version
                (to_le_bytes 2 block_length
                  ++ (to_le_bytes 2 template_id ++ to_le_bytes 2 schema_id))
                body refl (omega arith),
            get_word_at-append 2 0 block_length []
                (to_le_bytes 2 template_id
                  ++ (to_le_bytes 2 schema_id ++ (to_le_bytes 2 schema_version ++ body)))
                refl (omega arith),
            get_word_at-append 8 8 k.price_min h r0 refl f.price_min,
            get_word_at-append 8 16 k.tick_size p1 r1 refl f.tick_size,
            get_word_at-append 4 24 k.nl_evels p2 r2 refl f.nl_evels,
            get_word_at-append 4 32 k.hwm p4 r4 refl f.hwm,
            get_word_at-append 4 36 k.best_bid p5 r5 refl f.best_bid,
            get_word_at-append 4 40 k.best_ask p6 r6 refl f.best_ask,
            get_word_at-append 4 28 k.capacity p3 r3 refl f.capacity,
            right,
            get_word_at-append 4 44 k.free_head p7 r7 refl f.free_head,
          )
          (restore_groups-done m f (start cfg k) t u levels orders)

-- The bytes of `put_message`, into a buffer that has the room: the message, its checksum, and what was
-- behind them.
pub put_message-lem :
    (crc32c : List ℕ → ℕ) (m : Image) (buf : List ℕ)
    → sbe_len m + 4 ≤ length buf
    → put_message crc32c m buf
      ≡ some (
        (message_bytes m ++ to_le_bytes 4 (crc32c (message_bytes m)))
            ++ drop 4 (drop (sbe_len m) buf),
        sbe_len m + 4,
      )
unfolding put_message
put_message-lem crc32c m buf room =
    let size = length-message m in
    let whole =
      (image-Emits m).emits [] buf refl (omega (arith, size))
      ∙ ap (λ n. some (message_bytes m ++ drop n buf)) size in
    let taken =
      ap (λ n. take n (message_bytes m ++ drop (sbe_len m) buf)) (sym size)
      ∙ take-append (message_bytes m) (drop (sbe_len m) buf) in
    let crc =
      (word-Emits 4 (sbe_len m) (crc32c (message_bytes m))).emits (message_bytes m)
        (drop (sbe_len m) buf) (sym size) (omega (arith, length-drop (sbe_len m) buf)) in
    rw (whole, taken, crc) refl

-- `restore` of a message and its checksum.
pub restore-message_bytes :
    (crc32c : List ℕ → ℕ) (m : Image) (cfg : SmrConfig)
    → crc32c (message_bytes m) < 2 ^ 32
    → restore crc32c (message_bytes m ++ to_le_bytes 4 (crc32c (message_bytes m))) cfg
      ≡ restore_message (message_bytes m) cfg
unfolding restore
restore-message_bytes crc32c m cfg fits =
    let crc = crc32c (message_bytes m) in
    let whole = length-append (message_bytes m) (to_le_bytes 4 crc) in
    let long : ltb (length (message_bytes m ++ to_le_bytes 4 crc)) 4 ≡ false =
      ground (arith, whole) in
    let at : length (message_bytes m ++ to_le_bytes 4 crc) - 4 ≡ length (message_bytes m) =
      omega (arith, whole) in
    let taken = take-append (message_bytes m) (to_le_bytes 4 crc) in
    let want =
      ap (λ l. get_word_at 4 (length (message_bytes m)) (message_bytes m ++ l))
        (sym (append_nil (to_le_bytes 4 crc)))
      ∙ get_word_at-append 4 (length (message_bytes m)) crc (message_bytes m) [] refl fits in
    let same : (crc == crc) ≡ true = ground arith in rw (long, at, want, taken, same) refl
