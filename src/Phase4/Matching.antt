-- ===== src/Phase4/Matching.antt =====
-- src/phase4/sim_matching_engine.cpp and include/mf/phase4/sim_matching_engine.hpp. `on_fill_` is set, and
-- a call gives the fills that it was called with, in order. `std::sort`, and the floor of a quantity's
-- share in floating point, are parameters.
pub mod Budget
use hft_feed_handler.Common.{
  ℕ, ℤ, pos, negsuc, ◌+◌, ◌-◌, Bool, true, false, ◌||◌, not, Option, none, some, List, [], ◌∷◌,
  ◌++◌, ltb, ◌==◌, min, if◌then◌else◌, find, assign, erase,
}
use hft_feed_handler.Core.Types.{
  BookEvent, Side, buy, sell, unknown, EventType, trade, execute_price, cross_trade, as_u64,
}

pub data OrderSide : Type 0 where
  buy_side sell_side : OrderSide

pub record Fill : Type 0 where
  pub order_id : ℕ
  pub side : OrderSide
  pub price : ℤ
  pub qty : ℕ
  pub ts_ns : ℕ
  pub partial : Bool

pub record Order : Type 0 where
  pub order_id : ℕ
  pub side : OrderSide
  pub price : ℤ
  pub qty : ℕ
  pub ts_ns : ℕ

pub record SymbolBook : Type 0 where
  pub bids : List Order
  pub asks : List Order

pub record SimMatchingEngine : Type 0 where
  pub books : List (ℕ × SymbolBook)
  pub order_to_symbol : List (ℕ × ℕ)

abbrev pub empty_book : SymbolBook
empty_book = record { bids = []; asks = [] }

-- `<` on `std::int64_t`.
unfoldable pub lt_int : ℤ → ℤ → Bool
lt_int (pos a) (pos b) = ltb a b
lt_int (pos a) (negsuc b) = false
lt_int (negsuc a) (pos b) = true
lt_int (negsuc a) (negsuc b) = ltb b a

-- `a.price != b.price` is that one of them is smaller.
unfoldable pub bid_better : Order → Order → Bool
bid_better a b =
    if lt_int b.price a.price
    then true
    else if lt_int a.price b.price
    then false
    else ltb a.ts_ns b.ts_ns

unfoldable pub ask_better : Order → Order → Bool
ask_better a b =
    if lt_int a.price b.price
    then true
    else if lt_int b.price a.price
    then false
    else ltb a.ts_ns b.ts_ns

unfoldable pub bind_order_symbol : SimMatchingEngine → ℕ → ℕ → SimMatchingEngine
bind_order_symbol e order_id symbol_u64 =
    if order_id == 0
    then e
    else record e { order_to_symbol = assign e.order_to_symbol order_id symbol_u64 }

-- `books_[symbol]`, which makes an empty book if there is none.
unfoldable pub symbol_book : List (ℕ × SymbolBook) → ℕ → SymbolBook
symbol_book books symbol = elim (find books symbol) [ none ↦ empty_book | some book ↦ book ]

unfoldable pub insert_order :
    ((Order → Order → Bool) → List Order → List Order) → SymbolBook → Order → OrderSide → SymbolBook
insert_order sort book ord buy_side = record book { bids = sort bid_better (book.bids ++ ord ∷ []) }
insert_order sort book ord sell_side = record book {
  asks = sort ask_better (book.asks ++ ord ∷ []);
}

unfoldable pub submit :
    ((Order → Order → Bool) → List Order → List Order)
    → SimMatchingEngine
    → OrderSide
    → ℤ
    → ℕ
    → ℕ
    → ℕ
    → SimMatchingEngine
submit sort e side price qty order_id ts_ns =
    let ord : Order = record {
      order_id = order_id;
      side = side;
      price = price;
      qty = qty;
      ts_ns = ts_ns;
    } in
    if (order_id == 0) || (qty == 0) then e else elim (find e.order_to_symbol order_id) [
      | none ↦ e
      | some symbol ↦ record e {
        books = assign e.books symbol (insert_order sort (symbol_book e.books symbol) ord side);
      }
    ]

-- The orders that `remove_order` leaves.
unfoldable pub remove_order : ℕ → List Order → List Order
remove_order order_id [] = []
remove_order order_id (o ∷ v) =
    let rest = remove_order order_id v in if o.order_id == order_id then rest else o ∷ rest

unfoldable pub cancel_order : SimMatchingEngine → ℕ → SimMatchingEngine
cancel_order e order_id = elim (find e.order_to_symbol order_id) [
  | none ↦ e
  | some symbol ↦ elim (find e.books symbol) [
    | none ↦ e
    | some book ↦ record {
      books = assign e.books symbol (record {
        bids = remove_order order_id book.bids;
        asks = remove_order order_id book.asks;
      });
      order_to_symbol = erase e.order_to_symbol order_id;
    }
  ]
]

-- What a loop over the orders of a side leaves: the orders, the symbols of orders, the fills.
pub record Filled : Type 0 where
  pub orders : List Order
  pub order_to_symbol : List (ℕ × ℕ)
  pub fills : List Fill
  pub fill_budget : ℕ

-- The loop of `fill_bids` and `fill_asks`, which `stops` at an order. The quantity that is left is 0
-- when `take` is all of it.
unfoldable pub fill_orders :
    (Order → Bool) → OrderSide → ℤ → ℕ → List Order → List (ℕ × ℕ) → ℕ → Filled
fill_orders stops side trade_price ts_ns [] links fill_budget = record {
  orders = [];
  order_to_symbol = links;
  fills = [];
  fill_budget = fill_budget;
}
fill_orders stops side trade_price ts_ns (o ∷ os) links fill_budget =
    let take = min o.qty fill_budget in
    let left = o.qty - take in
    let done = left == 0 in
    let fill : Fill = record {
      order_id = o.order_id;
      side = side;
      price = trade_price;
      qty = take;
      ts_ns = ts_ns;
      partial = ltb take o.qty;
    } in
    let rest =
      fill_orders stops side trade_price ts_ns os (if done then erase links o.order_id else links)
        (fill_budget - take) in
    if (fill_budget == 0) || stops o
    then record { orders = o ∷ os; order_to_symbol = links; fills = []; fill_budget = fill_budget }
    else record rest {
      orders = if done then rest.orders else record o { qty = left } ∷ rest.orders;
      fills = if ltb 0 take then fill ∷ rest.fills else rest.fills;
    }

unfoldable pub fill_bids : List Order → List (ℕ × ℕ) → ℤ → ℕ → ℕ → Filled
fill_bids bids links trade_price fill_budget ts_ns =
    fill_orders (λ o. lt_int o.price trade_price) buy_side trade_price ts_ns bids links fill_budget

unfoldable pub fill_asks : List Order → List (ℕ × ℕ) → ℤ → ℕ → ℕ → Filled
fill_asks asks links trade_price fill_budget ts_ns =
    fill_orders (λ o. lt_int trade_price o.price) sell_side trade_price ts_ns asks links fill_budget

-- The events that fill.
unfoldable pub prints : EventType → Bool
prints trade = true
prints execute_price = true
prints cross_trade = true
prints _ = false

unfoldable pub fill_side :
    SimMatchingEngine → ℕ → SymbolBook → BookEvent → ℕ → Side → SimMatchingEngine × List Fill
fill_side e symbol book ev budget sell =
    let f = fill_bids book.bids e.order_to_symbol (pos ev.price) budget ev.exchange_ts_ns in
    (
      record {
        books = assign e.books symbol (record book { bids = f.orders });
        order_to_symbol = f.order_to_symbol;
      },
      f.fills,
    )
fill_side e symbol book ev budget buy =
    let f = fill_asks book.asks e.order_to_symbol (pos ev.price) budget ev.exchange_ts_ns in
    (
      record {
        books = assign e.books symbol (record book { asks = f.orders });
        order_to_symbol = f.order_to_symbol;
      },
      f.fills,
    )
fill_side e symbol book ev budget unknown = (e, [])

-- `share` is the floor of a quantity times the participation cap.
unfoldable pub on_market_event :
    (ℕ → ℕ) → SimMatchingEngine → BookEvent → SimMatchingEngine × List Fill
on_market_event share e ev =
    let symbol = as_u64 ev.symbol in
    let budget = share ev.qty in
    if not (prints ev.type) then (e, []) else elim (find e.books symbol) [
      | none ↦ (e, [])
      | some book ↦
          if (ev.qty == 0) || (budget == 0)
          then (e, [])
          else fill_side e symbol book ev budget ev.side
    ]
