-- ===== src/Proto/Pitch/Messages.antt =====
-- include/mf/proto/cboe/pitch_messages.hpp: the packed structs, each with the function that copies it
-- from its bytes.
use hft_feed_handler.Common.{ℕ, get_or}
use hft_feed_handler.Proto.Bytes.{Bytes, slice}

pub record AddOrderShortMessage : Type 0 where
  pub timestamp_ms : Bytes
  pub msg_type : ℕ
  pub order_id : Bytes
  pub side : ℕ
  pub shares : Bytes
  pub symbol : Bytes
  pub price : Bytes
  pub reserved : ℕ

unfoldable pub add_order_short_message : Bytes → AddOrderShortMessage
add_order_short_message m = record {
  timestamp_ms = slice m 0 8;
  msg_type = get_or m 8 0;
  order_id = slice m 9 12;
  side = get_or m 21 0;
  shares = slice m 22 6;
  symbol = slice m 28 6;
  price = slice m 34 10;
  reserved = get_or m 44 0;
}

pub record AddOrderLongMessage : Type 0 where
  pub timestamp_ms : Bytes
  pub msg_type : ℕ
  pub order_id : Bytes
  pub side : ℕ
  pub shares : Bytes
  pub symbol : Bytes
  pub price : Bytes
  pub reserved : ℕ
  pub participant_id : Bytes
  pub customer_indicator : ℕ

unfoldable pub add_order_long_message : Bytes → AddOrderLongMessage
add_order_long_message m = record {
  timestamp_ms = slice m 0 8;
  msg_type = get_or m 8 0;
  order_id = slice m 9 12;
  side = get_or m 21 0;
  shares = slice m 22 6;
  symbol = slice m 28 8;
  price = slice m 36 10;
  reserved = get_or m 46 0;
  participant_id = slice m 47 4;
  customer_indicator = get_or m 51 0;
}

pub record AddOrderExtendedMessage : Type 0 where
  pub timestamp_ms : Bytes
  pub msg_type : ℕ
  pub order_id : Bytes
  pub side : ℕ
  pub shares : Bytes
  pub symbol : Bytes
  pub price_long : Bytes
  pub display : ℕ
  pub participant_id : Bytes
  pub customer_indicator : ℕ

unfoldable pub add_order_extended_message : Bytes → AddOrderExtendedMessage
add_order_extended_message m = record {
  timestamp_ms = slice m 0 8;
  msg_type = get_or m 8 0;
  order_id = slice m 9 12;
  side = get_or m 21 0;
  shares = slice m 22 6;
  symbol = slice m 28 8;
  price_long = slice m 36 14;
  display = get_or m 50 0;
  participant_id = slice m 51 4;
  customer_indicator = get_or m 55 0;
}

pub record OrderExecutedMessage : Type 0 where
  pub timestamp_ms : Bytes
  pub msg_type : ℕ
  pub order_id : Bytes
  pub executed_shares : Bytes
  pub execution_id : Bytes

unfoldable pub order_executed_message : Bytes → OrderExecutedMessage
order_executed_message m = record {
  timestamp_ms = slice m 0 8;
  msg_type = get_or m 8 0;
  order_id = slice m 9 12;
  executed_shares = slice m 21 6;
  execution_id = slice m 27 12;
}

pub record OrderCancelMessage : Type 0 where
  pub timestamp_ms : Bytes
  pub msg_type : ℕ
  pub order_id : Bytes
  pub canceled_shares : Bytes

unfoldable pub order_cancel_message : Bytes → OrderCancelMessage
order_cancel_message m = record {
  timestamp_ms = slice m 0 8;
  msg_type = get_or m 8 0;
  order_id = slice m 9 12;
  canceled_shares = slice m 21 6;
}

pub record TradeShortMessage : Type 0 where
  pub timestamp_ms : Bytes
  pub msg_type : ℕ
  pub order_id : Bytes
  pub side : ℕ
  pub shares : Bytes
  pub symbol : Bytes
  pub price : Bytes
  pub execution_id : Bytes

unfoldable pub trade_short_message : Bytes → TradeShortMessage
trade_short_message m = record {
  timestamp_ms = slice m 0 8;
  msg_type = get_or m 8 0;
  order_id = slice m 9 12;
  side = get_or m 21 0;
  shares = slice m 22 6;
  symbol = slice m 28 6;
  price = slice m 34 10;
  execution_id = slice m 44 12;
}

pub record TradeLongMessage : Type 0 where
  pub timestamp_ms : Bytes
  pub msg_type : ℕ
  pub order_id : Bytes
  pub side : ℕ
  pub shares : Bytes
  pub symbol : Bytes
  pub price : Bytes
  pub execution_id : Bytes

unfoldable pub trade_long_message : Bytes → TradeLongMessage
trade_long_message m = record {
  timestamp_ms = slice m 0 8;
  msg_type = get_or m 8 0;
  order_id = slice m 9 12;
  side = get_or m 21 0;
  shares = slice m 22 6;
  symbol = slice m 28 8;
  price = slice m 36 10;
  execution_id = slice m 46 12;
}

pub record TradeExtendedMessage : Type 0 where
  pub timestamp_ms : Bytes
  pub msg_type : ℕ
  pub order_id : Bytes
  pub side : ℕ
  pub shares : Bytes
  pub symbol : Bytes
  pub price_long : Bytes
  pub execution_id : Bytes

unfoldable pub trade_extended_message : Bytes → TradeExtendedMessage
trade_extended_message m = record {
  timestamp_ms = slice m 0 8;
  msg_type = get_or m 8 0;
  order_id = slice m 9 12;
  side = get_or m 21 0;
  shares = slice m 22 6;
  symbol = slice m 28 8;
  price_long = slice m 36 14;
  execution_id = slice m 50 12;
}
