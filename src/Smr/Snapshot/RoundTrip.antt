-- ===== src/Smr/Snapshot/RoundTrip.antt =====
-- A book that is encoded and restored is the book again.
use mathlib.Core.Path.{fun_ext}
use hi_perf_cmp.Prelude.{
  ℕ, ◌+◌, ◌^◌, ◌<◌, ◌≤◌, ◌≡◌, refl, ap, ◌∙◌, arith, List, ◌++◌, some, length, length-append,
  length-drop, take, drop,
}
use hi_perf_cmp.Smr.Level.{SmrConfig}
use hi_perf_cmp.Smr.Book.{Book}
use hi_perf_cmp.Smr.Book.View.{view, Rests, Ghost}
use hi_perf_cmp.Smr.Book.InsertRuns.{IsBook}
use hi_perf_cmp.Smr.Booksnap.{to_le_bytes}
use hi_perf_cmp.Smr.Booksnap.Writes.{take-append}
use hi_perf_cmp.Smr.Snapshot.{encode, sbe_len}
use hi_perf_cmp.Smr.Snapshot.Fields.{IsWordy, image_of, image_of-IsImage}
use hi_perf_cmp.Smr.Snapshot.Restore.{restores, restore}
use hi_perf_cmp.Smr.Snapshot.Bytes.{message_bytes, length-message}
use hi_perf_cmp.Smr.Snapshot.Messages.{restore_message-lem, put_message-lem, restore-message_bytes}
use hi_perf_cmp.Smr.Snapshot.Orders.{restored_order, length-write_pool, write_ids-all}
use hi_perf_cmp.Smr.Snapshot.Returns.{
  encode-image, fresh_pool, returned, with_asks, levels_applied, all_applied, back_level, back_at,
  same_capacity, returned-IsBook, resting_back, length-fresh_pool,
}

-- What an encoding restores to: a well-formed book with the same fields, levels, id-map and orders. A
-- vacant slot keeps all but a side that is neither 0 nor 1.
pub record Returned (crc32c : List ℕ → ℕ) (g : Ghost) (b : Book) (buf : List ℕ) (cfg : SmrConfig)
    : Type 0 where
  pub out : List ℕ
  pub len : ℕ
  pub written : encode crc32c b buf ≡ some (out, len)
  pub length_out : length out ≡ length buf
  pub b' : Book
  pub read : restore crc32c (take len out) cfg ≡ restores b'
  pub book : IsBook g b'
  pub ladder : (b'.price_min ≡ b.price_min) × (b'.tick ≡ b.tick) × (b'.n_levels ≡ b.n_levels)
  pub best : (b'.best_bid ≡ b.best_bid) × (b'.best_ask ≡ b.best_ask)
  pub pool : (length b'.pool ≡ length b.pool) × (b'.hwm ≡ b.hwm) × (b'.free_head ≡ b.free_head)
  pub levels : (side t : ℕ) → side < 2 → (view b').level side t ≡ (view b).level side t
  pub idmap : b'.idmap ≡ b.idmap
  pub resting : (s : ℕ) → Rests (view b) s → (view b').at s ≡ (view b).at s
  pub vacant : (s : ℕ) → s < b.hwm → (view b').at s ≡ restored_order ((view b).at s)

module _ {g : Ghost} {b : Book} (w : IsBook g b) (f : IsWordy b) (cfg : SmrConfig)
    (cap : cfg.cap ≡ length b.pool) (levels : cfg.levels ≡ b.n_levels) where
  pub restored :
      (crc32c : List ℕ → ℕ) (buf : List ℕ)
      → ((l : List ℕ) → crc32c l < 2 ^ 32)
      → sbe_len (image_of b) + 4 ≤ length buf
      → Returned crc32c g b buf cfg
  restored crc32c buf word room =
      let m = image_of b in
      let bytes = message_bytes m ++ to_le_bytes 4 (crc32c (message_bytes m)) in
      let rest = drop 4 (drop (sbe_len m) buf) in
      let size : sbe_len m + 4 ≡ length bytes = omega (
        arith,
        length-append (message_bytes m) (to_le_bytes 4 (crc32c (message_bytes m))),
        length-message m,
      ) in
      record {
        out = bytes ++ rest;
        len = sbe_len m + 4;
        written = encode-image w f crc32c buf ∙ put_message-lem crc32c m buf room;
        length_out = omega (
          arith,
          size,
          length-append bytes rest,
          length-drop 4 (drop (sbe_len m) buf),
          length-drop (sbe_len m) buf,
        );
        b' = returned w f cfg cap levels;
        read =
            ap (λ l. restore crc32c l cfg)
              (ap (λ n. take n (bytes ++ rest)) size ∙ take-append bytes rest)
            ∙ restore-message_bytes crc32c m cfg (word (message_bytes m))
            ∙ restore_message-lem m (image_of-IsImage w f) cfg (same_capacity w f cfg cap levels)
                (with_asks w f cfg cap levels) (returned w f cfg cap levels)
                (levels_applied w f cfg cap levels) (all_applied w f cfg cap levels);
        book = returned-IsBook w f cfg cap levels;
        ladder = (refl, refl, refl);
        best = (refl, refl);
        pool = (
          length-write_pool (view b).at b.hwm (fresh_pool w f cfg cap levels)
              ∙ length-fresh_pool w f cfg cap levels,
          refl,
          refl,
        );
        levels = λ side t h. back_level w f cfg cap levels side t;
        idmap = fun_ext (write_ids-all w.links);
        resting = resting_back w f cfg cap levels;
        vacant = λ s lt. back_at w f cfg cap levels s ∙ ground arith;
      }

-- A well-formed book, whose fields fit their words and whose occupied levels and used slots fit 16-bit
-- counts, encoded into a buffer with room and restored with a configuration of its capacity and
-- levels: `encode` returns and `restore` accepts the bytes, for any checksum that is a u32. The
-- restored book is well formed, and has the same fields, levels, id-map and resting orders; a vacant
-- slot keeps all but a side that is neither 0 nor 1.
pub restore-encode :
    (crc32c : List ℕ → ℕ) (g : Ghost) (b : Book) (buf : List ℕ) (cfg : SmrConfig)
    → ((l : List ℕ) → crc32c l < 2 ^ 32)
    → IsBook g b
    → IsWordy b
    → cfg.cap ≡ length b.pool
    → cfg.levels ≡ b.n_levels
    → sbe_len (image_of b) + 4 ≤ length buf
    → Returned crc32c g b buf cfg
restore-encode crc32c g b buf cfg word w f cap levels room =
    restored w f cfg cap levels crc32c buf word room
