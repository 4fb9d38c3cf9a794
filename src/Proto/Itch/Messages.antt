-- ===== src/Proto/Itch/Messages.antt =====
-- include/mf/proto/nasdaq/itch50_messages.hpp: the packed structs, each with the function that copies
-- it from its bytes. A multi-byte field keeps its bytes, a single one is its number; the fields stand
-- one behind another.
use hft_feed_handler.Common.{ℕ, get_or}
use hft_feed_handler.Proto.Bytes.{Bytes, slice}

pub record SystemEventMessage : Type 0 where
  pub stock_locate_be : Bytes
  pub tracking_number_be : Bytes
  pub timestamp : Bytes
  pub event_code : ℕ

unfoldable pub system_event_message : Bytes → SystemEventMessage
system_event_message m = record {
  stock_locate_be = slice m 0 2;
  tracking_number_be = slice m 2 2;
  timestamp = slice m 4 6;
  event_code = get_or m 10 0;
}

pub record StockDirectoryMessage : Type 0 where
  pub stock_locate_be : Bytes
  pub tracking_number_be : Bytes
  pub timestamp : Bytes
  pub stock : Bytes
  pub market_category : ℕ
  pub financial_status : ℕ
  pub round_lot_size_be : Bytes
  pub round_lots_only : ℕ
  pub issue_classification : ℕ
  pub issue_sub_type : Bytes
  pub authenticity : ℕ
  pub short_sale_threshold_indicator : ℕ
  pub ipo_flag : ℕ
  pub luld_reference_price_tier : ℕ
  pub etp_flag : ℕ
  pub etp_leverage_factor_be : Bytes
  pub inverse_indicator : ℕ

unfoldable pub stock_directory_message : Bytes → StockDirectoryMessage
stock_directory_message m = record {
  stock_locate_be = slice m 0 2;
  tracking_number_be = slice m 2 2;
  timestamp = slice m 4 6;
  stock = slice m 10 8;
  market_category = get_or m 18 0;
  financial_status = get_or m 19 0;
  round_lot_size_be = slice m 20 4;
  round_lots_only = get_or m 24 0;
  issue_classification = get_or m 25 0;
  issue_sub_type = slice m 26 2;
  authenticity = get_or m 28 0;
  short_sale_threshold_indicator = get_or m 29 0;
  ipo_flag = get_or m 30 0;
  luld_reference_price_tier = get_or m 31 0;
  etp_flag = get_or m 32 0;
  etp_leverage_factor_be = slice m 33 4;
  inverse_indicator = get_or m 37 0;
}

pub record AddOrderMessage : Type 0 where
  pub stock_locate_be : Bytes
  pub tracking_number_be : Bytes
  pub timestamp : Bytes
  pub order_ref_be : Bytes
  pub buy_sell : ℕ
  pub shares_be : Bytes
  pub stock : Bytes
  pub price_be : Bytes

unfoldable pub add_order_message : Bytes → AddOrderMessage
add_order_message m = record {
  stock_locate_be = slice m 0 2;
  tracking_number_be = slice m 2 2;
  timestamp = slice m 4 6;
  order_ref_be = slice m 10 8;
  buy_sell = get_or m 18 0;
  shares_be = slice m 19 4;
  stock = slice m 23 8;
  price_be = slice m 31 4;
}

pub record AddOrderMpidMessage : Type 0 where
  pub base : AddOrderMessage
  pub attribution : Bytes

unfoldable pub add_order_mpid_message : Bytes → AddOrderMpidMessage
unfolding add_order_message
add_order_mpid_message m = record {
  base = add_order_message (slice m 0 35);
  attribution = slice m 35 4;
}

pub record OrderExecutedMessage : Type 0 where
  pub stock_locate_be : Bytes
  pub tracking_number_be : Bytes
  pub timestamp : Bytes
  pub order_ref_be : Bytes
  pub executed_shares_be : Bytes
  pub match_number_be : Bytes

unfoldable pub order_executed_message : Bytes → OrderExecutedMessage
order_executed_message m = record {
  stock_locate_be = slice m 0 2;
  tracking_number_be = slice m 2 2;
  timestamp = slice m 4 6;
  order_ref_be = slice m 10 8;
  executed_shares_be = slice m 18 4;
  match_number_be = slice m 22 8;
}

pub record OrderExecutedPriceMessage : Type 0 where
  pub stock_locate_be : Bytes
  pub tracking_number_be : Bytes
  pub timestamp : Bytes
  pub order_ref_be : Bytes
  pub executed_shares_be : Bytes
  pub match_number_be : Bytes
  pub printable : ℕ
  pub execution_price_be : Bytes

unfoldable pub order_executed_price_message : Bytes → OrderExecutedPriceMessage
order_executed_price_message m = record {
  stock_locate_be = slice m 0 2;
  tracking_number_be = slice m 2 2;
  timestamp = slice m 4 6;
  order_ref_be = slice m 10 8;
  executed_shares_be = slice m 18 4;
  match_number_be = slice m 22 8;
  printable = get_or m 30 0;
  execution_price_be = slice m 31 4;
}

pub record OrderCancelMessage : Type 0 where
  pub stock_locate_be : Bytes
  pub tracking_number_be : Bytes
  pub timestamp : Bytes
  pub order_ref_be : Bytes
  pub canceled_shares_be : Bytes

unfoldable pub order_cancel_message : Bytes → OrderCancelMessage
order_cancel_message m = record {
  stock_locate_be = slice m 0 2;
  tracking_number_be = slice m 2 2;
  timestamp = slice m 4 6;
  order_ref_be = slice m 10 8;
  canceled_shares_be = slice m 18 4;
}

pub record OrderDeleteMessage : Type 0 where
  pub stock_locate_be : Bytes
  pub tracking_number_be : Bytes
  pub timestamp : Bytes
  pub order_ref_be : Bytes

unfoldable pub order_delete_message : Bytes → OrderDeleteMessage
order_delete_message m = record {
  stock_locate_be = slice m 0 2;
  tracking_number_be = slice m 2 2;
  timestamp = slice m 4 6;
  order_ref_be = slice m 10 8;
}

pub record OrderReplaceMessage : Type 0 where
  pub stock_locate_be : Bytes
  pub tracking_number_be : Bytes
  pub timestamp : Bytes
  pub original_order_ref_be : Bytes
  pub new_order_ref_be : Bytes
  pub shares_be : Bytes
  pub price_be : Bytes

unfoldable pub order_replace_message : Bytes → OrderReplaceMessage
order_replace_message m = record {
  stock_locate_be = slice m 0 2;
  tracking_number_be = slice m 2 2;
  timestamp = slice m 4 6;
  original_order_ref_be = slice m 10 8;
  new_order_ref_be = slice m 18 8;
  shares_be = slice m 26 4;
  price_be = slice m 30 4;
}

pub record TradeMessage : Type 0 where
  pub stock_locate_be : Bytes
  pub tracking_number_be : Bytes
  pub timestamp : Bytes
  pub order_ref_be : Bytes
  pub buy_sell : ℕ
  pub shares_be : Bytes
  pub stock : Bytes
  pub price_be : Bytes
  pub match_number_be : Bytes

unfoldable pub trade_message : Bytes → TradeMessage
trade_message m = record {
  stock_locate_be = slice m 0 2;
  tracking_number_be = slice m 2 2;
  timestamp = slice m 4 6;
  order_ref_be = slice m 10 8;
  buy_sell = get_or m 18 0;
  shares_be = slice m 19 4;
  stock = slice m 23 8;
  price_be = slice m 31 4;
  match_number_be = slice m 35 8;
}

pub record CrossTradeMessage : Type 0 where
  pub stock_locate_be : Bytes
  pub tracking_number_be : Bytes
  pub timestamp : Bytes
  pub shares_be : Bytes
  pub stock : Bytes
  pub cross_price_be : Bytes
  pub match_number_be : Bytes
  pub cross_type : ℕ

unfoldable pub cross_trade_message : Bytes → CrossTradeMessage
cross_trade_message m = record {
  stock_locate_be = slice m 0 2;
  tracking_number_be = slice m 2 2;
  timestamp = slice m 4 6;
  shares_be = slice m 10 8;
  stock = slice m 18 8;
  cross_price_be = slice m 26 4;
  match_number_be = slice m 30 8;
  cross_type = get_or m 38 0;
}

pub record NoiiMessage : Type 0 where
  pub stock_locate_be : Bytes
  pub tracking_number_be : Bytes
  pub timestamp : Bytes
  pub paired_shares_be : Bytes
  pub imbalance_shares_be : Bytes
  pub imbalance_direction : ℕ
  pub stock : Bytes
  pub far_price_be : Bytes
  pub near_price_be : Bytes
  pub current_ref_price_be : Bytes
  pub cross_type : ℕ
  pub price_variation_indicator : ℕ

unfoldable pub noii_message : Bytes → NoiiMessage
noii_message m = record {
  stock_locate_be = slice m 0 2;
  tracking_number_be = slice m 2 2;
  timestamp = slice m 4 6;
  paired_shares_be = slice m 10 8;
  imbalance_shares_be = slice m 18 8;
  imbalance_direction = get_or m 26 0;
  stock = slice m 27 8;
  far_price_be = slice m 35 4;
  near_price_be = slice m 39 4;
  current_ref_price_be = slice m 43 4;
  cross_type = get_or m 47 0;
  price_variation_indicator = get_or m 48 0;
}
