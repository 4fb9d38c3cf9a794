-- ===== src/Feed/Tests.antt =====
-- The parser of ITCH and the order book engine run together at concrete payloads:
-- src/proto/nasdaq/itch50_parser.cpp, src/phase3/order_book_engine.cpp.
use hft_feed_handler.Common.{ap, ◌≢◌, ◌≡◌, refl, inl, inr, some, [], ◌∷◌, arith}
use hft_feed_handler.Core.Types.{BookEvent, venue_to_u8, iex, nasdaq, add, buy, default_event}
use hft_feed_handler.Proto.Bytes.{Bytes, read}
use hft_feed_handler.Proto.Itch.{ParseStats, parse_message, new_stats, counted, start_event}
use hft_feed_handler.Proto.Itch
use hft_feed_handler.Phase3.Engine.{OrderBookEngine, new_engine, on_event}
use hft_feed_handler.Phase3.Engine.Books.{IsWellFormed, book_of}
use hft_feed_handler.Phase3.Engine.Event.{on_event_lem}
use hft_feed_handler.Phase3.Engine.Top.{new_engine-IsWellFormed}
use hft_feed_handler.Feed.Reductions.{on_event-parse_message}

-- A deletion of the order 7, and the event that it is parsed as.
abbrev rest : Bytes
rest = 0 ∷ 1 ∷ 0 ∷ 2 ∷ 0 ∷ 0 ∷ 0 ∷ 0 ∷ 1 ∷ 5 ∷ 0 ∷ 0 ∷ 0 ∷ 0 ∷ 0 ∷ 0 ∷ 0 ∷ 7 ∷ []

abbrev deletion : BookEvent
deletion = Itch.on_delete (start_event b'D' 1 2) rest

parsed : parse_message (b'D' ∷ rest) 1 2 new_stats ≡ some (counted new_stats b'D', some deletion)
unfolding parse_message Itch.switch Itch.case_for Itch.sized read
parsed = refl

-- A bid of the order 7 in the book of symbol 9.
abbrev bid : BookEvent
bid = record default_event {
  type = add;
  order_id = 7;
  side = buy;
  price = 100;
  qty = 5;
  symbol = record { bytes = 0 ∷ 0 ∷ 0 ∷ 0 ∷ 0 ∷ 0 ∷ 0 ∷ 9 ∷ [] };
}

abbrev one_bid : OrderBookEngine
one_bid = (on_event (new_engine 8) bid).0

one_bid-IsWellFormed : IsWellFormed one_bid
one_bid-IsWellFormed = (on_event_lem (new_engine 8) bid (new_engine-IsWellFormed 8)).0

iex_differs : iex ≢ nasdaq
unfolding venue_to_u8
iex_differs e = let same = ap venue_to_u8 e in absurd (omega (arith, same))

on_event-parse_message_example : book_of (on_event one_bid deletion).0 iex 0 ≡ book_of one_bid iex 0
on_event-parse_message_example =
    on_event-parse_message b'D' rest 1 2 new_stats (counted new_stats b'D') deletion one_bid iex 0
      (inr (inr (inr (inl refl)))) parsed one_bid-IsWellFormed (λ e k. absurd (iex_differs e))
