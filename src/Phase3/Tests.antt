-- ===== src/Phase3/Tests.antt =====
-- Runs of the best bid and offer at concrete inputs.
use hft_feed_handler.Common.{ℕ, true, some, ◌≡◌, refl, map, ltb}
use hft_feed_handler.Core.Types.{venue_to_u8, nasdaq, iex, cboe}
use hft_feed_handler.Core.VenueArray.{all_venues}
use hft_feed_handler.Phase3.Types.{TopOfBook}
use hft_feed_handler.Phase3.Nbbo.{
  NbboConsolidator, SymbolState, deref, new_consolidator, update_and_current, update_state, current,
  locate, with_top, compute, compute_over,
}
use hft_feed_handler.Phase3.Nbbo.Best.{
  IsFirstBest, higher, bid_of, ask_of, best_bid, best_ask, compute-IsFirstBest,
}

abbrev top : ℕ → ℕ → TopOfBook
top bid ask = record {
  has_bid = true;
  has_ask = true;
  bid_price = bid;
  bid_qty = 5;
  ask_price = ask;
  ask_qty = 7;
}

-- Three venues of symbol 9: the first of the two best bids wins.
abbrev three_venues : NbboConsolidator
three_venues =
    let (c₁, n₁) = update_and_current new_consolidator 9 nasdaq (top 100 105) 1 in
    let (c₂, n₂) = update_and_current c₁ 9 iex (top 101 104) 2 in
    let (c₃, n₃) = update_and_current c₂ 9 cboe (top 101 103) 3 in c₃

best_bid_venue : (current three_venues 9).bid_venue ≡ 1
unfolding current update_and_current new_consolidator locate update_state with_top compute
    compute_over venue_to_u8
best_bid_venue = refl

best_ask_sequence : (current three_venues 9).ask_venue_sequence ≡ 3
unfolding current update_and_current new_consolidator locate update_state with_top compute
    compute_over
best_ask_sequence = refl

-- The state of symbol 9 in it.
abbrev nine : SymbolState
nine = deref three_venues.by_symbol (some 9)

compute-IsFirstBest_example :
    IsFirstBest higher (map (bid_of nine.venues) all_venues) (best_bid (compute nine))
    × IsFirstBest ltb (map (ask_of nine.venues) all_venues) (best_ask (compute nine))
compute-IsFirstBest_example = compute-IsFirstBest nine

abbrev one_venue : NbboConsolidator
one_venue = (update_and_current new_consolidator 9 nasdaq (top 100 105) 1).0
