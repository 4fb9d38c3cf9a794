-- ===== src/Proto/Pitch.antt =====
-- src/proto/cboe/pitch_parser.cpp, `PitchParser`: fixed-length ASCII messages. A parse gives the new
-- statistics and the event, or `none` for a read outside the payload. A `char` is the number of its
-- byte; one above 127 is negative in the source and, like here, no digit. `copied` is what `copy_symbol`
-- leaves.
pub mod Messages
pub mod Safe
use hft_feed_handler.Common.{
  ℕ, ◌+◌, ◌*◌, ◌-◌, ◌/◌, ◌%◌, Bool, true, false, not, ◌&&◌, ◌||◌, Option, none, some, List, [], ◌∷◌,
  ◌++◌, ltb, leb, ◌==◌, if◌then◌else◌, length, get_or, replicate, take, min, u32_mod, u64_mod,
  ◌>>=◌,
}
use hft_feed_handler.Core.Types.{
  BookEvent, default_event, cboe, Side, buy, sell, EventType, add, add_mpid, execute, cancel, trade,
}
use hft_feed_handler.Phase2.Tracker.{inc64}
use hft_feed_handler.Proto.Bytes.{Bytes, slice, read, count}
use Messages.{
  add_order_short_message, add_order_long_message, add_order_extended_message,
  order_executed_message, order_cancel_message, trade_short_message, trade_long_message,
  trade_extended_message,
}

-- The loops of the two number parsers; a byte that is no digit makes the whole number 0.
unfoldable pub ascii_from : ℕ → Bytes → ℕ
ascii_from value [] = value
ascii_from value (c ∷ cs) =
    let rest = ascii_from ((value * 10 + (c - b'0')) % u64_mod) cs in
    if ltb c b'0' || ltb b'9' c then 0 else rest

unfoldable pub parse_ascii_u64 : Bytes → ℕ
parse_ascii_u64 p = ascii_from 0 p

unfoldable pub base36_from : ℕ → Bytes → ℕ
base36_from value [] = value
base36_from value (c ∷ cs) =
    let digit = base36_from ((value * 36 + (c - b'0')) % u64_mod) cs in
    let letter = base36_from ((value * 36 + (10 + (c - b'A'))) % u64_mod) cs in
    if leb b'0' c && leb c b'9' then digit else if leb b'A' c && leb c b'Z' then letter else 0

unfoldable pub parse_base36_u64 : Bytes → ℕ
parse_base36_u64 p = base36_from 0 p

unfoldable pub parse_price_4dp : Bytes → ℕ
parse_price_4dp p10 = min (parse_ascii_u64 p10) (u32_mod - 1)

unfoldable pub parse_long_price_6dp_to_4dp : Bytes → ℕ
parse_long_price_6dp_to_4dp p14 = min (parse_ascii_u64 p14 / 100) (u32_mod - 1)

abbrev pub decode_side : ℕ → Side
decode_side c = if c == b'B' then buy else if c == b'S' then sell else Side.unknown

-- The first eight bytes of a field, filled up with spaces.
abbrev pub copied : Bytes → Bytes
copied src = take 8 (src ++ replicate 8 b' ')

unfoldable pub ts_ms_to_ns : Bytes → ℕ
ts_ms_to_ns ts8 = (parse_ascii_u64 ts8 * 1000000) % u64_mod

pub record ParseStats : Type 0 where
  pub type_counts : List ℕ
  pub parsed_messages : ℕ
  pub malformed_messages : ℕ

abbrev pub Parsed : Type 0
Parsed = Option (ParseStats × Option BookEvent)

abbrev pub malformed : ParseStats → ParseStats
malformed stats = record stats { malformed_messages = inc64 stats.malformed_messages }

abbrev pub counted : ParseStats → ℕ → ParseStats
counted stats type = record stats {
  type_counts = count stats.type_counts type;
  parsed_messages = inc64 stats.parsed_messages;
}

abbrev pub start_event : ℕ → ℕ → ℕ → BookEvent
start_event type sequence ingest_ts_ns = record default_event {
  venue = cboe;
  sequence = sequence;
  ingest_ts_ns = ingest_ts_ns;
  raw_type = type;
}

-- The quantity of a field of six digits.
abbrev pub parse_shares : Bytes → ℕ
parse_shares shares = parse_ascii_u64 shares % u32_mod

-- What the cases of the switch make of the bytes of their struct.
unfoldable pub on_add_short : BookEvent → Bytes → BookEvent
on_add_short ev bytes =
    let m = add_order_short_message bytes in
    record ev {
      type = add;
      exchange_ts_ns = ts_ms_to_ns m.timestamp_ms;
      order_id = parse_base36_u64 m.order_id;
      side = decode_side m.side;
      qty = parse_shares m.shares;
      symbol = record { bytes = copied m.symbol };
      price = parse_price_4dp m.price;
    }

unfoldable pub on_add_long : BookEvent → Bytes → BookEvent
on_add_long ev bytes =
    let m = add_order_long_message bytes in
    record ev {
      type = add_mpid;
      exchange_ts_ns = ts_ms_to_ns m.timestamp_ms;
      order_id = parse_base36_u64 m.order_id;
      side = decode_side m.side;
      qty = parse_shares m.shares;
      symbol = record { bytes = copied m.symbol };
      price = parse_price_4dp m.price;
      mpid = some m.participant_id;
    }

unfoldable pub on_add_extended : BookEvent → Bytes → BookEvent
on_add_extended ev bytes =
    let m = add_order_extended_message bytes in
    record ev {
      type = add_mpid;
      exchange_ts_ns = ts_ms_to_ns m.timestamp_ms;
      order_id = parse_base36_u64 m.order_id;
      side = decode_side m.side;
      qty = parse_shares m.shares;
      symbol = record { bytes = copied m.symbol };
      price = parse_long_price_6dp_to_4dp m.price_long;
      mpid = some m.participant_id;
    }

unfoldable pub on_executed : BookEvent → Bytes → BookEvent
on_executed ev bytes =
    let m = order_executed_message bytes in
    record ev {
      type = execute;
      exchange_ts_ns = ts_ms_to_ns m.timestamp_ms;
      order_id = parse_base36_u64 m.order_id;
      qty = parse_shares m.executed_shares;
      match_id = parse_base36_u64 m.execution_id;
    }

unfoldable pub on_cancel : BookEvent → Bytes → BookEvent
on_cancel ev bytes =
    let m = order_cancel_message bytes in
    record ev {
      type = cancel;
      exchange_ts_ns = ts_ms_to_ns m.timestamp_ms;
      order_id = parse_base36_u64 m.order_id;
      qty = parse_shares m.canceled_shares;
    }

unfoldable pub on_trade_short : BookEvent → Bytes → BookEvent
on_trade_short ev bytes =
    let m = trade_short_message bytes in
    record ev {
      type = trade;
      exchange_ts_ns = ts_ms_to_ns m.timestamp_ms;
      order_id = parse_base36_u64 m.order_id;
      side = decode_side m.side;
      qty = parse_shares m.shares;
      symbol = record { bytes = copied m.symbol };
      price = parse_price_4dp m.price;
      match_id = parse_base36_u64 m.execution_id;
    }

unfoldable pub on_trade_long : BookEvent → Bytes → BookEvent
on_trade_long ev bytes =
    let m = trade_long_message bytes in
    record ev {
      type = trade;
      exchange_ts_ns = ts_ms_to_ns m.timestamp_ms;
      order_id = parse_base36_u64 m.order_id;
      side = decode_side m.side;
      qty = parse_shares m.shares;
      symbol = record { bytes = copied m.symbol };
      price = parse_price_4dp m.price;
      match_id = parse_base36_u64 m.execution_id;
    }

unfoldable pub on_trade_extended : BookEvent → Bytes → BookEvent
on_trade_extended ev bytes =
    let m = trade_extended_message bytes in
    record ev {
      type = trade;
      exchange_ts_ns = ts_ms_to_ns m.timestamp_ms;
      order_id = parse_base36_u64 m.order_id;
      side = decode_side m.side;
      qty = parse_shares m.shares;
      symbol = record { bytes = copied m.symbol };
      price = parse_long_price_6dp_to_4dp m.price_long;
      match_id = parse_base36_u64 m.execution_id;
    }

-- A case: `require_exact(sizeof(m))`, the copy of `m` and the event.
unfoldable pub exact : Bytes → ParseStats → ℕ → (Bytes → BookEvent) → Parsed
exact payload stats n fill =
    let copied_event = (do m ← read payload 0 n; some (stats, some (fill m))) in
    if not (length payload == n) then some (malformed stats, none) else copied_event

-- The switch: a type's case, with the size of its struct.
unfoldable pub case_for : ℕ → Option (ℕ × (BookEvent → Bytes → BookEvent))
case_for type =
    if type == b'A'
    then some (45, on_add_short)
    else if type == b'd'
    then some (52, on_add_long)
    else if type == b'1'
    then some (56, on_add_extended)
    else if type == b'E'
    then some (39, on_executed)
    else if type == b'X'
    then some (27, on_cancel)
    else if type == b'P'
    then some (56, on_trade_short)
    else if type == b'r'
    then some (58, on_trade_long)
    else if type == b'2'
    then some (62, on_trade_extended)
    else none

unfoldable pub switch :
    Bytes → ParseStats → BookEvent → Option (ℕ × (BookEvent → Bytes → BookEvent)) → Parsed
switch payload stats ev none = some (stats, some (record ev { type = EventType.unknown }))
switch payload stats ev (some (n, fill)) = exact payload stats n (fill ev)

unfoldable pub parse_message : Bytes → ℕ → ℕ → ParseStats → Parsed
parse_message payload sequence ingest_ts_ns stats =
    let dispatched = (do
      msg_type ← read payload 8 1
      let type = get_or msg_type 0 0
      switch payload (counted stats type) (start_event type sequence ingest_ts_ns)
          (case_for type)) in
    if ltb (length payload) 9 then some (malformed stats, none) else dispatched
