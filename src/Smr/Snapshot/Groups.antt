-- ===== src/Smr/Snapshot/Groups.antt =====
-- The groups of a message: `restore` reads the entries that were written.
use hi_perf_cmp.Prelude.{
  ℕ, ◌+◌, ◌^◌, ◌<◌, ◌≡◌, refl, sym, ap, ◌∙◌, arith, List, [], ◌∷◌, ◌++◌, some, length,
  length-append,
}
use hi_perf_cmp.Smr.Book.{Book}
use hi_perf_cmp.Smr.Booksnap.{
  to_le_bytes, level_length, order_length, get_word_at, get_level, get_order,
}
use hi_perf_cmp.Smr.Booksnap.Writes.{
  header_bytes, block_bytes, group_bytes, level_bytes, order_bytes, entries_bytes, length-entries,
  append_assoc,
}
use hi_perf_cmp.Smr.Booksnap.Reads.{
  IsLevelEntry, IsOrderEntry, get_word_at-append, get_level-level_bytes, get_order-order_bytes,
}
use hi_perf_cmp.Smr.Snapshot.{Image, orders_at}
use hi_perf_cmp.Smr.Snapshot.Bytes.{message_bytes, Each, ApplyAll, restore_entries-all}
use hi_perf_cmp.Smr.Snapshot.Restore.{
  restores, restore_entries, restore_groups, apply_level, apply_order,
}

-- The fields and the counts of a message fit their words.
pub record IsImage (m : Image) : Type 0 where
  pub price_min : m.block.price_min < 2 ^ 64
  pub tick_size : m.block.tick_size < 2 ^ 64
  pub nl_evels : m.block.nl_evels < 2 ^ 32
  pub capacity : m.block.capacity < 2 ^ 32
  pub hwm : m.block.hwm < 2 ^ 32
  pub best_bid : m.block.best_bid < 2 ^ 32
  pub best_ask : m.block.best_ask < 2 ^ 32
  pub free_head : m.block.free_head < 2 ^ 32
  pub levels : Each IsLevelEntry m.levels
  pub orders : Each IsOrderEntry m.orders
  pub few_levels : length m.levels < 2 ^ 16
  pub few_orders : length m.orders < 2 ^ 16

pub append_nil : {A : Type 0} → (xs : List A) → xs ++ [] ≡ xs
append_nil [] = refl
append_nil (x ∷ xs) = ap (λ l. x ∷ l) (append_nil xs)

module _ (m : Image) (f : IsImage m) where
  abbrev lead : List ℕ
  lead = header_bytes ++ block_bytes m.block

  abbrev levels_part : List ℕ
  levels_part = entries_bytes level_bytes m.levels

  abbrev orders_part : List ℕ
  orders_part = entries_bytes order_bytes m.orders

  abbrev before_levels : List ℕ
  before_levels = lead ++ group_bytes level_length (length m.levels)

  abbrev before_orders : List ℕ
  before_orders = (before_levels ++ levels_part) ++ group_bytes order_length (length m.orders)

  orders_group :
      message_bytes m
      ≡ (before_levels ++ levels_part)
        ++ (group_bytes order_length (length m.orders) ++ orders_part)
  orders_group = sym (
      append_assoc before_levels levels_part
        (group_bytes order_length (length m.orders) ++ orders_part))

  orders_entries : message_bytes m ≡ before_orders ++ (orders_part ++ [])
  orders_entries =
      orders_group
      ∙ sym (
          append_assoc (before_levels ++ levels_part) (group_bytes order_length (length m.orders))
            orders_part)
      ∙ ap (λ l. before_orders ++ l) (sym (append_nil orders_part))

  length-before : length (before_levels ++ levels_part) ≡ orders_at m
  length-before = omega (
    arith,
    length-append before_levels levels_part,
    length-entries level_bytes level_length (λ e. refl) m.levels,
  )

  order_width : get_word_at 2 (orders_at m) (message_bytes m) ≡ some order_length
  order_width =
      ap (get_word_at 2 (orders_at m)) orders_group
      ∙ get_word_at-append 2 (orders_at m) order_length (before_levels ++ levels_part)
          (to_le_bytes 2 (length m.orders) ++ orders_part) (sym length-before) (omega arith)

  order_count : get_word_at 2 (orders_at m + 2) (message_bytes m) ≡ some (length m.orders)
  order_count =
      ap (get_word_at 2 (orders_at m + 2)) (
        orders_group
        ∙ sym (
            append_assoc (before_levels ++ levels_part) (to_le_bytes 2 order_length)
              (to_le_bytes 2 (length m.orders) ++ orders_part)))
      ∙ get_word_at-append 2 (orders_at m + 2) (length m.orders)
          ((before_levels ++ levels_part) ++ to_le_bytes 2 order_length) orders_part
          (omega (
            arith,
            length-before,
            length-append (before_levels ++ levels_part) (to_le_bytes 2 order_length),
          ))
          f.few_orders

  level_count : get_word_at 2 50 (message_bytes m) ≡ some (length m.levels)
  level_count =
      get_word_at-append 2 50 (length m.levels) (lead ++ to_le_bytes 2 level_length)
        (levels_part ++ (group_bytes order_length (length m.orders) ++ orders_part)) refl
        f.few_levels

  module _ (s t u : Book) (levels : ApplyAll apply_level m.levels s t)
      (orders : ApplyAll apply_order m.orders t u) where
    levels_done :
        restore_entries get_level apply_level (length m.levels) level_length 52 (message_bytes m) s
        ≡ restores t
    levels_done =
        restore_entries-all get_level level_bytes IsLevelEntry level_length apply_level (λ e. refl)
          (λ e i w r p h. get_level-level_bytes e i w r p h) m.levels 52 before_levels
          (group_bytes order_length (length m.orders) ++ orders_part) s t f.levels refl levels

    orders_done :
        restore_entries get_order apply_order
          (length m.orders)
          order_length
          (orders_at m + 4)
          (message_bytes m)
          t
        ≡ restores u
    orders_done =
        ap
          (λ l.
            restore_entries get_order apply_order (length m.orders) order_length (orders_at m + 4) l
              t)
          orders_entries
        ∙ restore_entries-all get_order order_bytes IsOrderEntry order_length apply_order
            (λ e. refl) (λ e i w r p h. get_order-order_bytes e i w r p h) m.orders
            (orders_at m + 4) before_orders [] t u f.orders
            (omega (
              arith,
              length-before,
              length-append (before_levels ++ levels_part)
                  (group_bytes order_length (length m.orders)),
            ))
            orders

    pub restore_groups-done :
        restore_groups apply_level apply_order 48 (message_bytes m) s ≡ restores u
    unfolding restore_groups
    restore_groups-done =
        rw
          (
            get_word_at-append 2 48 level_length lead
                (to_le_bytes 2 (length m.levels)
                  ++ (levels_part ++ (group_bytes order_length (length m.orders) ++ orders_part)))
                refl (omega arith),
            level_count,
            levels_done,
            order_width,
            order_count,
          )
          orders_done
