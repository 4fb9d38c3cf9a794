-- ===== src/Phase3/Engine.antt =====
-- src/phase3/order_book_engine.cpp, `OrderBookEngine`: the books of every venue and symbol, and the
-- table of live orders. `books_` are maps whose nodes never move, so a cached pointer is the key of its
-- node. A new engine's number of order slots is an argument; the source's is `order_slots`.
pub mod Books
pub mod Event
pub mod Top
use hft_feed_handler.Common.{
  ℕ, ◌-◌, ◌%◌, Bool, true, false, not, ◌&&◌, ◌||◌, Option, none, some, List, [], ◌∷◌, ltb, leb,
  ◌==◌, if◌then◌else◌, find, assign, set, u32_mod,
}
use hft_feed_handler.Core.Types.{
  Venue, Side, buy, sell, EventType, add, add_mpid, execute, execute_price, cancel, delete, replace,
  BookEvent, as_u64,
}
use hft_feed_handler.Core.VenueArray.{VenueArray, fill, at, put}
use hft_feed_handler.Phase3.Types.{TopOfBook, default_top}
use hft_feed_handler.Phase3.Levels.{Level, qty_at, add_qty, reduce_qty}
use hft_feed_handler.Phase3.OrderTable.{
  OrderTable, OrderRef, new_table, order_key, slot_at, find_order, put_order, erase_order,
}

pub record VenueBook : Type 0 where
  pub bids : List Level
  pub asks : List Level

abbrev pub default_book : VenueBook
default_book = record { bids = []; asks = [] }

pub record ApplyResult : Type 0 where
  pub changed_top : Bool
  pub order_table_saturated : Bool
  pub queue_ahead_before_add : ℕ
  pub top_after : TopOfBook

pub record OrderBookEngine : Type 0 where
  pub books : VenueArray (List (ℕ × VenueBook))
  pub orders : OrderTable
  pub cached_symbols : VenueArray ℕ
  pub cached_books : VenueArray (Option ℕ)
  pub cached_valid : VenueArray Bool

abbrev pub order_slots : ℕ
order_slots = 0x20_0000

unfoldable pub new_engine : ℕ → OrderBookEngine
new_engine slots = record {
  books = fill [];
  orders = new_table slots;
  cached_symbols = fill 0;
  cached_books = fill none;
  cached_valid = fill false;
}

-- `front()` of a side.
abbrev pub front_of : List Level → Option Level
front_of [] = none
front_of (level ∷ levels) = some level

abbrev pub with_bid : Option Level → TopOfBook → TopOfBook
with_bid none out = out
with_bid (some level) out = record out {
  has_bid = true;
  bid_price = level.0;
  bid_qty = level.1 % u32_mod;
}

abbrev pub with_ask : Option Level → TopOfBook → TopOfBook
with_ask none out = out
with_ask (some level) out = record out {
  has_ask = true;
  ask_price = level.0;
  ask_qty = level.1 % u32_mod;
}

unfoldable pub snapshot : VenueBook → TopOfBook
snapshot book = with_ask (front_of book.asks) (with_bid (front_of book.bids) default_top)

-- A pointer is null or the key of a node.
abbrev pub is_null : Option ℕ → Bool
is_null none = true
is_null (some k) = false

abbrev pub book_or_default : Option VenueBook → VenueBook
book_or_default none = default_book
book_or_default (some b) = b

-- `books_[idx][symbol_u64]`: a missing entry is made.
abbrev pub entry : List (ℕ × VenueBook) → ℕ → List (ℕ × VenueBook)
entry m symbol = assign m symbol (book_or_default (find m symbol))

unfoldable pub book_for : OrderBookEngine → Venue → ℕ → OrderBookEngine
book_for e venue symbol =
    if at e.cached_valid venue
      && at e.cached_symbols venue == symbol
      && not (is_null (at e.cached_books venue))
    then e
    else record e {
      books = put e.books venue (entry (at e.books venue) symbol);
      cached_symbols = put e.cached_symbols venue symbol;
      cached_books = put e.cached_books venue (some symbol);
      cached_valid = put e.cached_valid venue true;
    }

-- The book behind a pointer, read and written.
abbrev pub book_behind : List (ℕ × VenueBook) → Option ℕ → VenueBook
book_behind m none = default_book
book_behind m (some k) = book_or_default (find m k)

abbrev pub write_book : List (ℕ × VenueBook) → Option ℕ → VenueBook → List (ℕ × VenueBook)
write_book m none b = m
write_book m (some k) b = assign m k b

unfoldable pub add_side : VenueBook → Side → ℕ → ℕ → VenueBook
add_side book buy price qty = record book { bids = add_qty book.bids price qty true }
add_side book sell price qty = record book { asks = add_qty book.asks price qty false }
add_side book Side.unknown price qty = book

unfoldable pub reduce_side : VenueBook → Side → ℕ → ℕ → VenueBook
reduce_side book buy price qty = record book { bids = reduce_qty book.bids price qty true }
reduce_side book sell price qty = record book { asks = reduce_qty book.asks price qty false }
reduce_side book Side.unknown price qty = book

-- What a branch of `on_event` changes: the event's book, the table and the result.
pub record Applied : Type 0 where
  pub book : VenueBook
  pub table : OrderTable
  pub queue_ahead : ℕ
  pub saturated : Bool

-- The insertion at the end of two branches.
unfoldable pub register : Applied → BookEvent → ℕ → Applied
register s ev queue_ahead =
    let (table', stored) = put_order s.table (order_key ev.venue ev.order_id) (record {
      venue = ev.venue;
      symbol_u64 = as_u64 ev.symbol;
      side = ev.side;
      price = ev.price;
      qty = ev.qty;
      queue_ahead = queue_ahead;
    }) in
    if ev.order_id == 0 then s else record s { table = table'; saturated = not stored }

abbrev pub queue_at : VenueBook → Side → ℕ → ℕ
queue_at book buy price = qty_at book.bids price true
queue_at book _ price = qty_at book.asks price false

unfoldable pub apply_add : Applied → BookEvent → Applied
apply_add s ev =
    let q = queue_at s.book ev.side ev.price in
    register (record s { book = add_side s.book ev.side ev.price ev.qty; queue_ahead = q }) ev q

abbrev pub is_delete : EventType → Bool
is_delete delete = true
is_delete _ = false

-- An execution, a cancellation or a deletion, of the order found. A quantity of 0 means all of it.
unfoldable pub apply_reduction : Applied → BookEvent → Option ℕ → Applied
apply_reduction s ev none = s
apply_reduction s ev (some idx) =
    let slot = slot_at s.table.orders idx in
    let order = slot.value in
    let dec = if ev.qty == 0 || ltb order.qty ev.qty then order.qty else ev.qty in
    record s {
      book = reduce_side s.book order.side order.price dec;
      table =
          if leb order.qty dec || is_delete ev.type
          then erase_order s.table (order_key ev.venue ev.order_id)
          else record s.table {
            orders =
                set s.table.orders idx
                  (record slot { value = record order { qty = order.qty - dec } });
          };
    }

-- The old order goes, if it is there.
unfoldable pub apply_removal : Applied → ℕ → Option ℕ → Applied
apply_removal s old_key none = s
apply_removal s old_key (some idx) =
    let order = (slot_at s.table.orders idx).value in
    record s {
      book = reduce_side s.book order.side order.price order.qty;
      table = erase_order s.table old_key;
    }

unfoldable pub apply_replace : Applied → BookEvent → Applied
apply_replace s ev =
    let old_key = order_key ev.venue ev.reference_order_id in
    let s' = apply_removal s old_key (find_order s.table old_key) in
    register (record s' { book = add_side s'.book ev.side ev.price ev.qty }) ev 0

unfoldable pub apply : EventType → Applied → BookEvent → Applied
apply add s ev = apply_add s ev
apply add_mpid s ev = apply_add s ev
apply execute s ev = apply_reduction s ev (find_order s.table (order_key ev.venue ev.order_id))
apply execute_price s ev =
    apply_reduction s ev (find_order s.table (order_key ev.venue ev.order_id))
apply cancel s ev = apply_reduction s ev (find_order s.table (order_key ev.venue ev.order_id))
apply delete s ev = apply_reduction s ev (find_order s.table (order_key ev.venue ev.order_id))
apply replace s ev = apply_replace s ev
apply _ s ev = s

differs : Bool → Bool → Bool
differs true b = not b
differs false b = b

unfoldable pub top_changed : TopOfBook → TopOfBook → Bool
unfolding differs
top_changed before after =
    differs before.has_bid after.has_bid
    || differs before.has_ask after.has_ask
    || not (before.bid_price == after.bid_price)
    || not (before.bid_qty == after.bid_qty)
    || not (before.ask_price == after.ask_price)
    || not (before.ask_qty == after.ask_qty)

unfoldable pub on_event : OrderBookEngine → BookEvent → OrderBookEngine × ApplyResult
on_event e ev =
    let e' = book_for e ev.venue (as_u64 ev.symbol) in
    let ptr = at e'.cached_books ev.venue in
    let book = book_behind (at e'.books ev.venue) ptr in
    let s =
      apply ev.type (record { book = book; table = e'.orders; queue_ahead = 0; saturated = false })
        ev in
    (
      record e' {
        books = put e'.books ev.venue (write_book (at e'.books ev.venue) ptr s.book);
        orders = s.table;
      },
      record {
        changed_top = top_changed (snapshot book) (snapshot s.book);
        order_table_saturated = s.saturated;
        queue_ahead_before_add = s.queue_ahead;
        top_after = snapshot s.book;
      },
    )

-- `top_of_book`; a book that is not there has no top.
unfoldable pub top_of_book : OrderBookEngine → Venue → ℕ → TopOfBook
top_of_book e venue symbol = snapshot (book_or_default (find (at e.books venue) symbol))
