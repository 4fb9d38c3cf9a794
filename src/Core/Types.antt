-- ===== src/Core/Types.antt =====
-- include/mf/core/types.hpp: venues, sides, event types, symbols and the canonical `BookEvent`.
-- An enumerator is a constructor, with its underlying value in `Venue.to_u8` and its siblings; an
-- array of bytes is a list of numbers. `uint64_t` and narrower fields are native numbers.
use hft_feed_handler.Common.{ℕ, ◌+◌, ◌*◌, ◌%◌, Option, none, List, [], ◌∷◌, u64_mod}

pub data Venue : Type 0 where
  nasdaq iex cboe cme bitfinex : Venue

unfoldable pub venue_to_u8 : Venue → ℕ
venue_to_u8 nasdaq = 0
venue_to_u8 iex = 1
venue_to_u8 cboe = 2
venue_to_u8 cme = 3
venue_to_u8 bitfinex = 4

pub data Side : Type 0 where
  buy sell unknown : Side

unfoldable pub side_to_u8 : Side → ℕ
side_to_u8 buy = 0
side_to_u8 sell = 1
side_to_u8 unknown = 2

pub data EventType : Type 0 where
  add add_mpid execute execute_price cancel delete replace trade cross_trade imbalance system
        stock_directory unknown :
      EventType

unfoldable pub event_type_to_u8 : EventType → ℕ
event_type_to_u8 add = 0
event_type_to_u8 add_mpid = 1
event_type_to_u8 execute = 2
event_type_to_u8 execute_price = 3
event_type_to_u8 cancel = 4
event_type_to_u8 delete = 5
event_type_to_u8 replace = 6
event_type_to_u8 trade = 7
event_type_to_u8 cross_trade = 8
event_type_to_u8 imbalance = 9
event_type_to_u8 system = 10
event_type_to_u8 stock_directory = 11
event_type_to_u8 unknown = 255

-- `SymbolKey`: its eight bytes, first to last.
pub record SymbolKey : Type 0 where
  pub bytes : List ℕ

-- The loop of `as_u64`. `value << 8` leaves the low byte free, so the `|` adds the byte.
pub as_u64_from : ℕ → List ℕ → ℕ
as_u64_from value [] = value
as_u64_from value (b ∷ bs) = as_u64_from ((value * 256) % u64_mod + b) bs

unfoldable pub as_u64 : SymbolKey → ℕ
unfolding as_u64_from
as_u64 s = as_u64_from 0 s.bytes

pub record BookEvent : Type 0 where
  pub venue : Venue
  pub type : EventType
  pub sequence : ℕ
  pub exchange_ts_ns : ℕ
  pub ingest_ts_ns : ℕ
  pub symbol : SymbolKey
  pub order_id : ℕ
  pub match_id : ℕ
  pub reference_order_id : ℕ
  pub qty : ℕ
  pub price : ℕ
  pub prev_qty : ℕ
  pub prev_price : ℕ
  pub side : Side
  pub mpid : Option (List ℕ)
  pub raw_type : ℕ

-- `BookEvent{}`.
abbrev pub default_event : BookEvent
default_event = record {
  venue = nasdaq;
  type = EventType.unknown;
  sequence = 0;
  exchange_ts_ns = 0;
  ingest_ts_ns = 0;
  symbol = record { bytes = 0 ∷ 0 ∷ 0 ∷ 0 ∷ 0 ∷ 0 ∷ 0 ∷ 0 ∷ [] };
  order_id = 0;
  match_id = 0;
  reference_order_id = 0;
  qty = 0;
  price = 0;
  prev_qty = 0;
  prev_price = 0;
  side = Side.unknown;
  mpid = none;
  raw_type = 0;
}
