-- ===== src/Phase3/Types.antt =====
-- include/mf/phase3/types.hpp: the top of one book, and the best bid and offer over the venues.
use hft_feed_handler.Common.{ℕ, Bool, false}

pub record TopOfBook : Type 0 where
  pub has_bid : Bool
  pub has_ask : Bool
  pub bid_price : ℕ
  pub bid_qty : ℕ
  pub ask_price : ℕ
  pub ask_qty : ℕ

-- `TopOfBook{}`.
abbrev pub default_top : TopOfBook
default_top = record {
  has_bid = false;
  has_ask = false;
  bid_price = 0;
  bid_qty = 0;
  ask_price = 0;
  ask_qty = 0;
}

pub record Nbbo : Type 0 where
  pub has_bid : Bool
  pub has_ask : Bool
  pub bid_price : ℕ
  pub bid_qty : ℕ
  pub ask_price : ℕ
  pub ask_qty : ℕ
  pub bid_venue : ℕ
  pub ask_venue : ℕ
  pub bid_venue_sequence : ℕ
  pub ask_venue_sequence : ℕ

-- `Nbbo{}`.
abbrev pub default_nbbo : Nbbo
default_nbbo = record {
  has_bid = false;
  has_ask = false;
  bid_price = 0;
  bid_qty = 0;
  ask_price = 0;
  ask_qty = 0;
  bid_venue = 0;
  ask_venue = 0;
  bid_venue_sequence = 0;
  ask_venue_sequence = 0;
}
