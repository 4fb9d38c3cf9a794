-- ===== src/Phase3/Levels.antt =====
-- src/phase3/order_book_engine.cpp, `qty_at`, `add_qty`, `reduce_qty`: one side of a book, a vector of
-- levels with the best price first. A level is a pair of its price and its quantity; a quantity is a
-- `std::uint64_t`.
pub mod Position
pub mod Meets
pub mod Order
pub mod Laws
use hft_feed_handler.Common.{
  ℕ, ◌+◌, ◌-◌, ◌%◌, Bool, Option, none, some, List, ltb, ◌==◌, if◌then◌else◌, get_elem?, set,
  insert_at, erase_at, lower_bound, u64_mod,
}

abbrev pub Level : Type 0
Level = ℕ × ℕ

-- The order of two prices on a side: bids fall, asks rise.
abbrev pub goes_before : Bool → ℕ → ℕ → Bool
goes_before descending a b = if descending then ltb b a else ltb a b

-- The comparison of the three searches.
abbrev pub ahead_of : Bool → ℕ → Level → Bool
ahead_of descending price level = goes_before descending level.0 price

abbrev pub search : List Level → ℕ → Bool → ℕ
search levels price descending = lower_bound (ahead_of descending price) levels

-- By what stands at the place that the search gives.
abbrev pub qty_there : ℕ → Option Level → ℕ
qty_there price none = 0
qty_there price (some level) = if level.0 == price then level.1 else 0

unfoldable pub qty_at : List Level → ℕ → Bool → ℕ
qty_at levels price descending = qty_there price (get_elem? levels (search levels price descending))

abbrev pub add_there : List Level → ℕ → ℕ → ℕ → Option Level → List Level
add_there levels i price qty none = insert_at levels i (price, qty)
add_there levels i price qty (some level) =
    if level.0 == price
    then set levels i (level.0, (level.1 + qty) % u64_mod)
    else insert_at levels i (price, qty)

unfoldable pub add_qty : List Level → ℕ → ℕ → Bool → List Level
add_qty levels price qty descending =
    let i = search levels price descending in add_there levels i price qty (get_elem? levels i)

abbrev pub reduce_there : List Level → ℕ → ℕ → ℕ → Option Level → List Level
reduce_there levels i price qty none = levels
reduce_there levels i price qty (some level) =
    if level.0 == price
    then (if ltb qty level.1 then set levels i (level.0, level.1 - qty) else erase_at levels i)
    else levels

unfoldable pub reduce_qty : List Level → ℕ → ℕ → Bool → List Level
reduce_qty levels price qty descending =
    let i = search levels price descending in reduce_there levels i price qty (get_elem? levels i)
