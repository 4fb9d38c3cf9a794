-- ===== src/Proto/Deep.antt =====
-- src/proto/iex/deep_parser.cpp, `DeepParser`: fixed-length little-endian messages. A parse gives the
-- new statistics and the event, or `none` for a read outside the payload. The host is little-endian, so
-- `read_le` gives the number back as it was loaded.
pub mod Messages
pub mod Safe
use hft_feed_handler.Common.{
  ℕ, ◌-◌, Bool, not, Option, none, some, List, ◌==◌, if◌then◌else◌, length, get_or, min, u32_mod,
  ◌>>=◌,
}
use hft_feed_handler.Core.Types.{
  BookEvent, default_event, iex, Side, buy, sell, EventType, system, add, replace, delete,
  execute_price, trade,
}
use hft_feed_handler.Phase2.Tracker.{inc64}
use hft_feed_handler.Proto.Bytes.{Bytes, read, load_le, count}
use Messages.{
  system_event_message, security_event_message, add_order_message, modify_order_message,
  delete_order_message, order_executed_message, trade_message,
}

unfoldable pub read_le : Bytes → ℕ
read_le v = load_le v

abbrev pub decode_side : ℕ → Side
decode_side c = if c == b'8' then buy else if c == b'5' then sell else Side.unknown

unfoldable pub narrow_u64_to_u32 : ℕ → ℕ
narrow_u64_to_u32 v = min v (u32_mod - 1)

pub record ParseStats : Type 0 where
  pub type_counts : List ℕ
  pub parsed_messages : ℕ
  pub malformed_messages : ℕ
  pub unimplemented_messages : ℕ

abbrev pub Parsed : Type 0
Parsed = Option (ParseStats × Option BookEvent)

abbrev pub malformed : ParseStats → ParseStats
malformed stats = record stats { malformed_messages = inc64 stats.malformed_messages }

abbrev pub unimplemented : ParseStats → ParseStats
unimplemented stats = record stats { unimplemented_messages = inc64 stats.unimplemented_messages }

abbrev pub counted : ParseStats → ℕ → ParseStats
counted stats type = record stats {
  type_counts = count stats.type_counts type;
  parsed_messages = inc64 stats.parsed_messages;
}

abbrev pub start_event : ℕ → ℕ → ℕ → BookEvent
start_event type sequence ingest_ts_ns = record default_event {
  venue = iex;
  sequence = sequence;
  ingest_ts_ns = ingest_ts_ns;
  raw_type = type;
}

-- What the cases of the switch make of the bytes of their struct.
unfoldable pub on_system : BookEvent → Bytes → BookEvent
on_system ev bytes =
    let m = system_event_message bytes in
    record ev { type = system; exchange_ts_ns = read_le m.timestamp_le }

unfoldable pub on_security_event : BookEvent → Bytes → BookEvent
on_security_event ev bytes =
    let m = security_event_message bytes in
    record ev {
      type = system;
      exchange_ts_ns = read_le m.timestamp_le;
      symbol = record { bytes = m.symbol };
    }

unfoldable pub on_add : BookEvent → Bytes → BookEvent
on_add ev bytes =
    let m = add_order_message bytes in
    record ev {
      type = add;
      exchange_ts_ns = read_le m.timestamp_le;
      symbol = record { bytes = m.symbol };
      order_id = read_le m.order_id_le;
      qty = read_le m.size_le;
      price = narrow_u64_to_u32 (read_le m.price_le);
      side = decode_side m.side;
    }

unfoldable pub on_modify : BookEvent → Bytes → BookEvent
on_modify ev bytes =
    let m = modify_order_message bytes in
    record ev {
      type = replace;
      exchange_ts_ns = read_le m.timestamp_le;
      symbol = record { bytes = m.symbol };
      order_id = read_le m.order_id_ref_le;
      qty = read_le m.size_le;
      price = narrow_u64_to_u32 (read_le m.price_le);
    }

unfoldable pub on_delete : BookEvent → Bytes → BookEvent
on_delete ev bytes =
    let m = delete_order_message bytes in
    record ev {
      type = delete;
      exchange_ts_ns = read_le m.timestamp_le;
      symbol = record { bytes = m.symbol };
      order_id = read_le m.order_id_ref_le;
    }

unfoldable pub on_executed : BookEvent → Bytes → BookEvent
on_executed ev bytes =
    let m = order_executed_message bytes in
    record ev {
      type = execute_price;
      exchange_ts_ns = read_le m.timestamp_le;
      symbol = record { bytes = m.symbol };
      order_id = read_le m.order_id_ref_le;
      qty = read_le m.size_le;
      price = narrow_u64_to_u32 (read_le m.price_le);
      match_id = read_le m.trade_id_le;
    }

unfoldable pub on_trade : BookEvent → Bytes → BookEvent
on_trade ev bytes =
    let m = trade_message bytes in
    record ev {
      type = trade;
      exchange_ts_ns = read_le m.timestamp_le;
      symbol = record { bytes = m.symbol };
      qty = read_le m.size_le;
      price = narrow_u64_to_u32 (read_le m.price_le);
      match_id = read_le m.trade_id_le;
    }

-- A case: `require_exact(sizeof(m))`, the copy of `m` and the event.
unfoldable pub exact : Bytes → ParseStats → ℕ → (Bytes → BookEvent) → Parsed
exact payload stats n fill =
    let copied_event = (do m ← read payload 0 n; some (stats, some (fill m))) in
    if not (length payload == n) then some (malformed stats, none) else copied_event

-- The switch: a type's case, with the size of its struct.
unfoldable pub case_for : ℕ → Option (ℕ × (BookEvent → Bytes → BookEvent))
case_for type =
    if type == b'S'
    then some (10, on_system)
    else if type == b'E'
    then some (18, on_security_event)
    else if type == b'a'
    then some (38, on_add)
    else if type == b'M'
    then some (38, on_modify)
    else if type == b'R'
    then some (26, on_delete)
    else if type == b'L'
    then some (46, on_executed)
    else if type == b'T'
    then some (38, on_trade)
    else none

-- Without a case, also for the types that the source lists as recognised, the event is unknown.
unfoldable pub switch :
    Bytes → ParseStats → BookEvent → Option (ℕ × (BookEvent → Bytes → BookEvent)) → Parsed
switch payload stats ev none =
    some (unimplemented stats, some (record ev { type = EventType.unknown }))
switch payload stats ev (some (n, fill)) = exact payload stats n (fill ev)

unfoldable pub parse_message : Bytes → ℕ → ℕ → ParseStats → Parsed
parse_message payload sequence ingest_ts_ns stats =
    let dispatched = (do
      msg_type ← read payload 0 1
      let type = get_or msg_type 0 0
      switch payload (counted stats type) (start_event type sequence ingest_ts_ns)
          (case_for type)) in
    if length payload == 0 then some (malformed stats, none) else dispatched
