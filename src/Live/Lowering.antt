-- ===== src/Live/Lowering.antt =====
-- src/live/bitfinex/lowering.cpp, fixed_point.cpp and on_book.cpp: rows of the venue's book made events.
-- `double` and what the code asks of it are a parameter.
pub mod Follows
use hft_feed_handler.Common.{
  ℕ, Bool, true, false, not, ◌||◌, Option, none, some, List, [], ◌∷◌, ◌++◌, ◌==◌, if◌then◌else◌,
  length, take, replicate, ◌-◌, find, assign, erase,
}
use hft_feed_handler.Core.Types.{
  BookEvent, default_event, bitfinex, Side, buy, sell, SymbolKey, EventType, add, cancel, replace,
}
use hft_feed_handler.Phase2.Tracker.{inc64}
use hft_feed_handler.Proto.Bytes.{Bytes}

-- Comparisons with 0.0, `std::isfinite`, `std::round`, the test against the largest 32-bit number, the
-- conversion to one, `std::abs`, and the products with 10000.0 and 1000000.0.
pub record Doubles : Type 1 where
  pub Double : Type 0
  pub is_zero : Double → Bool
  pub is_positive : Double → Bool
  pub is_negative : Double → Bool
  pub is_finite : Double → Bool
  pub round : Double → Double
  pub exceeds_u32 : Double → Bool
  pub to_u32 : Double → ℕ
  pub abs : Double → Double
  pub times_10000 : Double → Double
  pub times_1000000 : Double → Double

pub record RestingOrder : Type 0 where
  pub price : ℕ
  pub qty : ℕ

-- `orders_`; `erase` and `clear` are the map's.
abbrev pub OnBookTracker : Type 0
OnBookTracker = List (ℕ × RestingOrder)

abbrev pub resting : ℕ → ℕ → RestingOrder
resting price qty = record { price = price; qty = qty }

abbrev pub insert_order : OnBookTracker → ℕ → ℕ → ℕ → OnBookTracker
insert_order on_book order_id price qty = assign on_book order_id (resting price qty)

abbrev pub update_order : OnBookTracker → ℕ → ℕ → ℕ → OnBookTracker
update_order on_book order_id price qty = assign on_book order_id (resting price qty)

unfoldable pub contains : OnBookTracker → ℕ → Bool
contains on_book order_id = elim (find on_book order_id) [ none ↦ false | some o ↦ true ]

pub record FixedPointStats : Type 0 where
  pub price_reject : ℕ
  pub qty_reject : ℕ

pub record LoweringStats : Type 0 where
  pub fixed_point : FixedPointStats
  pub adds : ℕ
  pub replaces : ℕ
  pub cancels : ℕ
  pub skipped_not_on_book : ℕ
  pub rejected : ℕ

abbrev pub no_lowering_stats : LoweringStats
no_lowering_stats = record {
  fixed_point = record { price_reject = 0; qty_reject = 0 };
  adds = 0;
  replaces = 0;
  cancels = 0;
  skipped_not_on_book = 0;
  rejected = 0;
}

-- The eight bytes of the key, with zeros behind a shorter text.
unfoldable pub symbol_from_wire : Bytes → SymbolKey
symbol_from_wire wire = record { bytes = take 8 wire ++ replicate (8 - length wire) 0 }

unfoldable pub make_base : ℕ → ℕ → SymbolKey → BookEvent
make_base sequence ts_ns sym = record default_event {
  venue = bitfinex;
  sequence = sequence;
  exchange_ts_ns = ts_ns;
  ingest_ts_ns = ts_ns;
  symbol = sym;
}

-- What `lower_row` leaves.
pub record Lowered : Type 0 where
  pub on_book : OnBookTracker
  pub stats : LoweringStats
  pub event : Option BookEvent

-- The events of an optional one.
abbrev pub event_list : Option BookEvent → List BookEvent
event_list none = []
event_list (some ev) = ev ∷ []

module _ (d : Doubles) where
  open d use {
    Double, is_zero, is_positive, is_negative, is_finite, round, exceeds_u32, to_u32, abs,
    times_10000, times_1000000,
  }

  pub record BookRow : Type 0 where
    pub order_id : ℕ
    pub price : Double
    pub amount : Double

  unfoldable pub side_from_amount : Double → Side
  side_from_amount amount =
      if is_positive amount then buy else if is_negative amount then sell else Side.unknown

  -- `none` counts as a rejection.
  unfoldable pub to_u32_bounded : Double → Option ℕ
  to_u32_bounded v =
      if not (is_finite v) || is_negative v
      then none
      else if exceeds_u32 (round v)
      then none
      else some (to_u32 (round v))

  unfoldable pub price_to_u32_4dp : Double → FixedPointStats → Option ℕ × FixedPointStats
  price_to_u32_4dp price stats = elim (to_u32_bounded (times_10000 price)) [
    | none ↦ (none, record stats { price_reject = inc64 stats.price_reject })
    | some out ↦ (some out, stats)
  ]

  unfoldable pub qty_to_u32_micro_base : Double → FixedPointStats → Option ℕ × FixedPointStats
  qty_to_u32_micro_base abs_amount stats = elim (to_u32_bounded (times_1000000 abs_amount)) [
    | none ↦ (none, record stats { qty_reject = inc64 stats.qty_reject })
    | some out ↦ (some out, stats)
  ]

  -- Both conversions: the quantity's only if the price's succeeds.
  unfoldable pub converted : BookRow → FixedPointStats → Option (ℕ × ℕ) × FixedPointStats
  unfolding price_to_u32_4dp qty_to_u32_micro_base
  converted row stats =
      let price = price_to_u32_4dp row.price stats in
      let qty = qty_to_u32_micro_base (abs row.amount) price.1 in
      elim price.0 [
        | none ↦ (none, price.1)
        | some p ↦ elim qty.0 [ none ↦ (none, qty.1) | some q ↦ (some (p, q), qty.1) ]
      ]

  -- The rest of `lower_row` behind the conversions.
  unfoldable pub lower_live :
      BookRow → ℕ → ℕ → ℕ → ℕ → Bytes → OnBookTracker → LoweringStats → Lowered
  unfolding make_base symbol_from_wire side_from_amount contains
  lower_live row price qty sequence ts_ns symbol_wire on_book stats =
      let ev = record (make_base sequence ts_ns (symbol_from_wire symbol_wire)) {
        order_id = row.order_id;
        side = side_from_amount row.amount;
        price = price;
        qty = qty;
      } in
      elim (find on_book row.order_id) [
        | none ↦ record {
          on_book = insert_order on_book row.order_id price qty;
          stats = record stats { adds = inc64 stats.adds };
          event = some (record ev { type = add; raw_type = b'A' });
        }
        | some prev ↦ record {
          on_book = update_order on_book row.order_id price qty;
          stats = record stats { replaces = inc64 stats.replaces };
          event = some (record ev {
            type = replace;
            raw_type = b'R';
            reference_order_id = row.order_id;
            prev_price = prev.price;
            prev_qty = prev.qty;
          });
        }
      ]

  unfoldable pub lower_row : BookRow → ℕ → ℕ → Bytes → OnBookTracker → LoweringStats → Lowered
  unfolding contains make_base symbol_from_wire side_from_amount
  lower_row row sequence ts_ns symbol_wire on_book stats =
      let numbers = converted row stats.fixed_point in
      let counted = record stats { fixed_point = numbers.1 } in
      if is_zero row.price
      then if not (contains on_book row.order_id)
        then record {
          on_book = on_book;
          stats = record stats { skipped_not_on_book = inc64 stats.skipped_not_on_book };
          event = none;
        }
        else record {
          on_book = erase on_book row.order_id;
          stats = record stats { cancels = inc64 stats.cancels };
          event = some (record (make_base sequence ts_ns (symbol_from_wire symbol_wire)) {
            type = cancel;
            raw_type = b'X';
            order_id = row.order_id;
            side = side_from_amount row.amount;
            qty = 0;
          });
        }
      else elim numbers.0 [
        | none ↦ record {
          on_book = on_book;
          stats = record counted { rejected = inc64 counted.rejected };
          event = none;
        }
        | some (price, qty) ↦ lower_live row price qty sequence ts_ns symbol_wire on_book counted
      ]

  -- What the loop of `lower_snapshot_rows` leaves.
  pub record Bootstrap : Type 0 where
    pub on_book : OnBookTracker
    pub stats : LoweringStats
    pub events : List BookEvent

  -- A round of the loop.
  unfoldable pub lower_snapshot_row : BookRow → ℕ → Bytes → OnBookTracker → LoweringStats → Lowered
  unfolding make_base symbol_from_wire side_from_amount
  lower_snapshot_row row ts_ns symbol_wire on_book stats =
      let numbers = converted row stats.fixed_point in
      let counted = record stats { fixed_point = numbers.1 } in
      if is_zero row.price
      then record { on_book = on_book; stats = stats; event = none }
      else elim numbers.0 [
        | none ↦ record {
          on_book = on_book;
          stats = record counted { rejected = inc64 counted.rejected };
          event = none;
        }
        | some (price, qty) ↦ record {
          on_book = insert_order on_book row.order_id price qty;
          stats = record counted { adds = inc64 counted.adds };
          event = some (record (make_base 0 ts_ns (symbol_from_wire symbol_wire)) {
            type = add;
            raw_type = b'A';
            order_id = row.order_id;
            side = side_from_amount row.amount;
            price = price;
            qty = qty;
          });
        }
      ]

  unfoldable pub lower_snapshot_rows :
      List BookRow → ℕ → Bytes → OnBookTracker → LoweringStats → Bootstrap
  lower_snapshot_rows [] ts_ns symbol_wire on_book stats = record {
    on_book = on_book;
    stats = stats;
    events = [];
  }
  lower_snapshot_rows (row ∷ rows) ts_ns symbol_wire on_book stats =
      let lowered = lower_snapshot_row row ts_ns symbol_wire on_book stats in
      let rest = lower_snapshot_rows rows ts_ns symbol_wire lowered.on_book lowered.stats in
      record rest { events = event_list lowered.event ++ rest.events }
