-- ===== src/Phase4/Tests.antt =====
-- The matching simulation on concrete books: src/phase4/sim_matching_engine.cpp.
use hft_feed_handler.Common.{ℕ, pos, List, [], ◌∷◌, ◌≡◌, refl, false, true, ◌/◌}
use hft_feed_handler.Core.Types.{BookEvent, default_event, trade, sell, as_u64}
use hft_feed_handler.Phase4.Matching.{
  Order, SimMatchingEngine, buy_side, fill_bids, fill_asks, fill_orders, lt_int, prints, fill_side,
  on_market_event, bind_order_symbol, submit, insert_order, symbol_book,
}
use hft_feed_handler.Phase4.Matching.Budget.{IsFilled, fill-IsFilled}

abbrev bid : ℕ → ℕ → ℕ → Order
bid order_id price qty = record {
  order_id = order_id;
  side = buy_side;
  price = pos price;
  qty = qty;
  ts_ns = 1;
}

abbrev two_bids : List Order
two_bids = bid 1 101 30 ∷ bid 2 100 40 ∷ []

-- A budget of 50 at 100 fills the better bid and half of the other.
two_bids_filled : fill_bids two_bids ((1, 7) ∷ (2, 7) ∷ []) (pos 100) 50 9 ≡ record {
  orders = bid 2 100 20 ∷ [];
  order_to_symbol = (2, 7) ∷ [];
  fills =
      record {
        order_id = 1;
        side = buy_side;
        price = pos 100;
        qty = 30;
        ts_ns = 9;
        partial = false;
      }
      ∷ record {
        order_id = 2;
        side = buy_side;
        price = pos 100;
        qty = 20;
        ts_ns = 9;
        partial = true;
      }
      ∷ [];
  fill_budget = 0;
}
unfolding fill_bids fill_orders lt_int
two_bids_filled = refl

fill-IsFilled_example :
    IsFilled
      (λ o. lt_int o.price (pos 100))
      two_bids
      50
      (fill_bids two_bids ((1, 7) ∷ (2, 7) ∷ []) (pos 100) 50 9)
    × IsFilled
        (λ o. lt_int (pos 100) o.price)
        two_bids
        50
        (fill_asks two_bids ((1, 7) ∷ (2, 7) ∷ []) (pos 100) 50 9)
fill-IsFilled_example = fill-IsFilled two_bids ((1, 7) ∷ (2, 7) ∷ []) (pos 100) 50 9

-- A sale of 40 at 100 of the empty symbol, with a quarter for the simulation, fills 10 of a bid at 101.
abbrev bound : SimMatchingEngine
bound = bind_order_symbol (record { books = []; order_to_symbol = [] }) 1 0

abbrev sale : BookEvent
sale = record default_event { type = trade; side = sell; qty = 40; price = 100 }

quarter_filled :
    (on_market_event (λ q. q / 4) (submit (λ better v. v) bound buy_side (pos 101) 30 1 1) sale).1
    ≡ record { order_id = 1; side = buy_side; price = pos 100; qty = 10; ts_ns = 0; partial = true }
      ∷ []
unfolding on_market_event submit bind_order_symbol insert_order symbol_book fill_side fill_bids
    fill_orders prints lt_int as_u64
quarter_filled = refl
