-- ===== src/Proto/Deep/Messages.antt =====
-- include/mf/proto/iex/deep_messages.hpp: the packed structs, each with the function that copies it
-- from its bytes.
use hft_feed_handler.Common.{ℕ, get_or}
use hft_feed_handler.Proto.Bytes.{Bytes, slice}

pub record SystemEventMessage : Type 0 where
  pub msg_type : ℕ
  pub system_event : ℕ
  pub timestamp_le : Bytes

unfoldable pub system_event_message : Bytes → SystemEventMessage
system_event_message m = record {
  msg_type = get_or m 0 0;
  system_event = get_or m 1 0;
  timestamp_le = slice m 2 8;
}

pub record SecurityEventMessage : Type 0 where
  pub msg_type : ℕ
  pub security_event : ℕ
  pub timestamp_le : Bytes
  pub symbol : Bytes

unfoldable pub security_event_message : Bytes → SecurityEventMessage
security_event_message m = record {
  msg_type = get_or m 0 0;
  security_event = get_or m 1 0;
  timestamp_le = slice m 2 8;
  symbol = slice m 10 8;
}

pub record AddOrderMessage : Type 0 where
  pub msg_type : ℕ
  pub side : ℕ
  pub timestamp_le : Bytes
  pub symbol : Bytes
  pub order_id_le : Bytes
  pub size_le : Bytes
  pub price_le : Bytes

unfoldable pub add_order_message : Bytes → AddOrderMessage
add_order_message m = record {
  msg_type = get_or m 0 0;
  side = get_or m 1 0;
  timestamp_le = slice m 2 8;
  symbol = slice m 10 8;
  order_id_le = slice m 18 8;
  size_le = slice m 26 4;
  price_le = slice m 30 8;
}

pub record ModifyOrderMessage : Type 0 where
  pub msg_type : ℕ
  pub modify_flags : ℕ
  pub timestamp_le : Bytes
  pub symbol : Bytes
  pub order_id_ref_le : Bytes
  pub size_le : Bytes
  pub price_le : Bytes

unfoldable pub modify_order_message : Bytes → ModifyOrderMessage
modify_order_message m = record {
  msg_type = get_or m 0 0;
  modify_flags = get_or m 1 0;
  timestamp_le = slice m 2 8;
  symbol = slice m 10 8;
  order_id_ref_le = slice m 18 8;
  size_le = slice m 26 4;
  price_le = slice m 30 8;
}

pub record DeleteOrderMessage : Type 0 where
  pub msg_type : ℕ
  pub reserved : ℕ
  pub timestamp_le : Bytes
  pub symbol : Bytes
  pub order_id_ref_le : Bytes

unfoldable pub delete_order_message : Bytes → DeleteOrderMessage
delete_order_message m = record {
  msg_type = get_or m 0 0;
  reserved = get_or m 1 0;
  timestamp_le = slice m 2 8;
  symbol = slice m 10 8;
  order_id_ref_le = slice m 18 8;
}

pub record OrderExecutedMessage : Type 0 where
  pub msg_type : ℕ
  pub sale_condition_flags : ℕ
  pub timestamp_le : Bytes
  pub symbol : Bytes
  pub order_id_ref_le : Bytes
  pub size_le : Bytes
  pub price_le : Bytes
  pub trade_id_le : Bytes

unfoldable pub order_executed_message : Bytes → OrderExecutedMessage
order_executed_message m = record {
  msg_type = get_or m 0 0;
  sale_condition_flags = get_or m 1 0;
  timestamp_le = slice m 2 8;
  symbol = slice m 10 8;
  order_id_ref_le = slice m 18 8;
  size_le = slice m 26 4;
  price_le = slice m 30 8;
  trade_id_le = slice m 38 8;
}

pub record TradeMessage : Type 0 where
  pub msg_type : ℕ
  pub sale_condition_flags : ℕ
  pub timestamp_le : Bytes
  pub symbol : Bytes
  pub size_le : Bytes
  pub price_le : Bytes
  pub trade_id_le : Bytes

unfoldable pub trade_message : Bytes → TradeMessage
trade_message m = record {
  msg_type = get_or m 0 0;
  sale_condition_flags = get_or m 1 0;
  timestamp_le = slice m 2 8;
  symbol = slice m 10 8;
  size_le = slice m 18 4;
  price_le = slice m 22 8;
  trade_id_le = slice m 30 8;
}
