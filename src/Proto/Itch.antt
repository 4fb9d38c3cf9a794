-- ===== src/Proto/Itch.antt =====
-- src/proto/nasdaq/itch50_parser.cpp, `Itch50Parser`. A parse gives the new statistics and the event, or
-- `none` for a read outside the payload. A `char` is the number of its byte; `|` of shifted bytes adds.
pub mod Messages
pub mod Safe
pub mod Hot
pub mod Same
pub mod RoundTrip
use hft_feed_handler.Common.{
  ℕ, ◌+◌, ◌*◌, ◌-◌, ◌%◌, ◌^◌, Bool, true, false, not, ◌&&◌, Option, none, some, List, [], ◌∷◌, ltb,
  ◌==◌, if◌then◌else◌, length, get_or, replicate, u32_mod, ◌>>=◌,
}
use hft_feed_handler.Core.Types.{
  BookEvent, default_event, nasdaq, Side, buy, sell, EventType, add, add_mpid, execute,
  execute_price, cancel, delete, replace, trade, cross_trade, imbalance, system, stock_directory,
}
use hft_feed_handler.Phase2.Tracker.{inc64}
use hft_feed_handler.Proto.Bytes.{Bytes, slice, read, read_be, count}
use Messages.{
  AddOrderMessage, system_event_message, stock_directory_message, add_order_message,
  add_order_mpid_message, order_executed_message, order_executed_price_message,
  order_cancel_message, order_delete_message, order_replace_message, trade_message,
  cross_trade_message, noii_message,
}

pub record ParseStats : Type 0 where
  pub type_counts : List ℕ
  pub parsed_messages : ℕ
  pub malformed_messages : ℕ

abbrev pub new_stats : ParseStats
new_stats = record { type_counts = replicate 256 0; parsed_messages = 0; malformed_messages = 0 }

-- The optional event beside the statistics. A read that may not be there comes before it.
abbrev pub Parsed : Type 0
Parsed = Option (ParseStats × Option BookEvent)

abbrev pub malformed : ParseStats → ParseStats
malformed stats = record stats { malformed_messages = inc64 stats.malformed_messages }

-- The counts at the start of a message of a type.
abbrev pub counted : ParseStats → ℕ → ParseStats
counted stats type = record stats {
  type_counts = count stats.type_counts type;
  parsed_messages = inc64 stats.parsed_messages;
}

-- Six bytes, the highest first.
unfoldable pub decode_ts6 : Bytes → ℕ
decode_ts6 ts =
    get_or ts 0 0 * 2 ^ 40
    + get_or ts 1 0 * 2 ^ 32
    + get_or ts 2 0 * 2 ^ 24
    + get_or ts 3 0 * 2 ^ 16
    + get_or ts 4 0 * 2 ^ 8
    + get_or ts 5 0

abbrev pub decode_side : ℕ → Side
decode_side c = if c == b'B' then buy else if c == b'S' then sell else Side.unknown

-- The event that the switch starts from.
abbrev pub start_event : ℕ → ℕ → ℕ → BookEvent
start_event type sequence ingest_ts_ns = record default_event {
  venue = nasdaq;
  sequence = sequence;
  ingest_ts_ns = ingest_ts_ns;
  raw_type = type;
}

-- What the cases of the switch make of the bytes of their struct.
unfoldable pub on_add : BookEvent → Bytes → BookEvent
on_add ev bytes =
    let m = add_order_message bytes in
    record ev {
      type = add;
      exchange_ts_ns = decode_ts6 m.timestamp;
      order_id = read_be m.order_ref_be;
      qty = read_be m.shares_be;
      price = read_be m.price_be;
      side = decode_side m.buy_sell;
      symbol = record { bytes = m.stock };
    }

unfoldable pub on_add_mpid : BookEvent → Bytes → BookEvent
on_add_mpid ev bytes =
    let m = add_order_mpid_message bytes in
    record ev {
      type = add_mpid;
      exchange_ts_ns = decode_ts6 m.base.timestamp;
      order_id = read_be m.base.order_ref_be;
      qty = read_be m.base.shares_be;
      price = read_be m.base.price_be;
      side = decode_side m.base.buy_sell;
      symbol = record { bytes = m.base.stock };
      mpid = some m.attribution;
    }

unfoldable pub on_executed : BookEvent → Bytes → BookEvent
on_executed ev bytes =
    let m = order_executed_message bytes in
    record ev {
      type = execute;
      exchange_ts_ns = decode_ts6 m.timestamp;
      order_id = read_be m.order_ref_be;
      qty = read_be m.executed_shares_be;
      match_id = read_be m.match_number_be;
    }

unfoldable pub on_executed_price : BookEvent → Bytes → BookEvent
on_executed_price ev bytes =
    let m = order_executed_price_message bytes in
    record ev {
      type = execute_price;
      exchange_ts_ns = decode_ts6 m.timestamp;
      order_id = read_be m.order_ref_be;
      qty = read_be m.executed_shares_be;
      match_id = read_be m.match_number_be;
      price = read_be m.execution_price_be;
    }

unfoldable pub on_cancel : BookEvent → Bytes → BookEvent
on_cancel ev bytes =
    let m = order_cancel_message bytes in
    record ev {
      type = cancel;
      exchange_ts_ns = decode_ts6 m.timestamp;
      order_id = read_be m.order_ref_be;
      qty = read_be m.canceled_shares_be;
    }

unfoldable pub on_delete : BookEvent → Bytes → BookEvent
on_delete ev bytes =
    let m = order_delete_message bytes in
    record ev {
      type = delete;
      exchange_ts_ns = decode_ts6 m.timestamp;
      order_id = read_be m.order_ref_be;
    }

unfoldable pub on_replace : BookEvent → Bytes → BookEvent
on_replace ev bytes =
    let m = order_replace_message bytes in
    record ev {
      type = replace;
      exchange_ts_ns = decode_ts6 m.timestamp;
      reference_order_id = read_be m.original_order_ref_be;
      order_id = read_be m.new_order_ref_be;
      qty = read_be m.shares_be;
      price = read_be m.price_be;
    }

unfoldable pub on_trade : BookEvent → Bytes → BookEvent
on_trade ev bytes =
    let m = trade_message bytes in
    record ev {
      type = trade;
      exchange_ts_ns = decode_ts6 m.timestamp;
      order_id = read_be m.order_ref_be;
      side = decode_side m.buy_sell;
      qty = read_be m.shares_be;
      symbol = record { bytes = m.stock };
      price = read_be m.price_be;
      match_id = read_be m.match_number_be;
    }

unfoldable pub on_cross_trade : BookEvent → Bytes → BookEvent
on_cross_trade ev bytes =
    let m = cross_trade_message bytes in
    record ev {
      type = cross_trade;
      exchange_ts_ns = decode_ts6 m.timestamp;
      qty = read_be m.shares_be % u32_mod;
      symbol = record { bytes = m.stock };
      price = read_be m.cross_price_be;
      match_id = read_be m.match_number_be;
    }

unfoldable pub on_noii : BookEvent → Bytes → BookEvent
on_noii ev bytes =
    let m = noii_message bytes in
    record ev {
      type = imbalance;
      exchange_ts_ns = decode_ts6 m.timestamp;
      qty = read_be m.imbalance_shares_be % u32_mod;
      symbol = record { bytes = m.stock };
    }

unfoldable pub on_system : BookEvent → Bytes → BookEvent
on_system ev bytes =
    let m = system_event_message bytes in
    record ev { type = system; exchange_ts_ns = decode_ts6 m.timestamp }

unfoldable pub on_directory : BookEvent → Bytes → BookEvent
on_directory ev bytes =
    let m = stock_directory_message bytes in
    record ev {
      type = stock_directory;
      exchange_ts_ns = decode_ts6 m.timestamp;
      symbol = record { bytes = m.stock };
    }

-- A case: `require_size(sizeof(m) + 1)`, the copy of `m` from behind the type, and the event.
unfoldable pub sized : Bytes → ParseStats → ℕ → (Bytes → BookEvent) → Parsed
sized payload stats n fill =
    let copied = (do m ← read payload 1 n; some (stats, some (fill m))) in
    if ltb (length payload) (n + 1) then some (malformed stats, none) else copied

-- The switch: a type's case, with the size of its struct.
unfoldable pub case_for : ℕ → Option (ℕ × (BookEvent → Bytes → BookEvent))
case_for type =
    if type == b'A'
    then some (35, on_add)
    else if type == b'F'
    then some (39, on_add_mpid)
    else if type == b'E'
    then some (30, on_executed)
    else if type == b'C'
    then some (35, on_executed_price)
    else if type == b'X'
    then some (22, on_cancel)
    else if type == b'D'
    then some (18, on_delete)
    else if type == b'U'
    then some (34, on_replace)
    else if type == b'P'
    then some (43, on_trade)
    else if type == b'Q'
    then some (39, on_cross_trade)
    else if type == b'I'
    then some (49, on_noii)
    else if type == b'S'
    then some (11, on_system)
    else if type == b'R'
    then some (38, on_directory)
    else none

-- `none` is the default of the switch.
unfoldable pub switch :
    Bytes → ParseStats → BookEvent → Option (ℕ × (BookEvent → Bytes → BookEvent)) → Parsed
switch payload stats ev none = some (stats, some (record ev { type = EventType.unknown }))
switch payload stats ev (some (n, fill)) = sized payload stats n (fill ev)

unfoldable pub parse_message : Bytes → ℕ → ℕ → ParseStats → Parsed
parse_message [] sequence ingest_ts_ns stats = some (malformed stats, none)
parse_message (type ∷ rest) sequence ingest_ts_ns stats =
    switch (type ∷ rest) (counted stats type) (start_event type sequence ingest_ts_ns)
      (case_for type)
