-- ===== src/Phase3/TableTests.antt =====
-- Runs of the order table at concrete inputs.
use hft_feed_handler.Common.{
  ℕ, zero, suc, false, none, some, ◌≡◌, refl, ◌&&◌, ◌==◌, if◌then◌else◌, arith,
}
use hft_feed_handler.Core.Types.{buy, iex}
use hft_feed_handler.Phase3.OrderTable.{
  OrderTable, OrderRef, new_table, put_order, erase_order, mix_key, find_order, find_from,
  place_from,
}
use hft_feed_handler.Phase3.OrderTable.Map.{IsWellFormed, value_of, put_order_lem}
use hft_feed_handler.Phase3.OrderTable.Erase.{erase_order_lem}
use hft_feed_handler.Phase3.OrderTable.Full.{IsUsedUp, put_order_full, new_table-IsWellFormed}

abbrev order : ℕ → OrderRef
order qty = record {
  venue = iex;
  symbol_u64 = 9;
  side = buy;
  price = 100;
  qty = qty;
  queue_ahead = 0;
}

abbrev one_order : OrderTable
one_order = (put_order (new_table 8) 1 (order 5)).0

one_order-IsWellFormed : IsWellFormed one_order
one_order-IsWellFormed =
    (put_order_lem (new_table 8) 1 (order 5) (new_table-IsWellFormed 8 (omega arith))).0

put_order_lem_example :
    IsWellFormed (put_order one_order 2 (order 7)).0
    × ((k : ℕ)
        → value_of (put_order one_order 2 (order 7)).0 k ≡ (
            if (put_order one_order 2 (order 7)).1 && 2 == k
            then some (order 7)
            else value_of one_order k))
put_order_lem_example = put_order_lem one_order 2 (order 7) one_order-IsWellFormed

erase_order_lem_example :
    IsWellFormed (erase_order one_order 1)
    × ((k : ℕ)
        → value_of (erase_order one_order 1) k ≡ (if 1 == k then none else value_of one_order k))
erase_order_lem_example = erase_order_lem one_order 1 one_order-IsWellFormed

-- Two orders came and went: nothing is live, and no slot is unused.
abbrev churned : OrderTable
churned =
    let t = erase_order (put_order (new_table 2) 1 (order 5)).0 1 in
    erase_order (put_order t 2 (order 5)).0 2

churned_count : churned.order_count ≡ 0
unfolding put_order erase_order find_order find_from place_from new_table mix_key
churned_count = refl

churned-IsUsedUp : IsUsedUp churned.orders 3
unfolding put_order erase_order find_order find_from place_from new_table mix_key
churned-IsUsedUp zero lt = (refl, refl)
churned-IsUsedUp (suc zero) lt = (refl, refl)
churned-IsUsedUp (suc (suc j)) lt = absurd (omega arith)

put_order_full_example :
    ((put_order churned 3 (order 5)).1 ≡ false)
    × ((put_order churned 3 (order 5)).0.orders ≡ churned.orders)
unfolding put_order erase_order find_order find_from place_from new_table mix_key
put_order_full_example = put_order_full churned 3 (order 5) (omega arith) churned-IsUsedUp
