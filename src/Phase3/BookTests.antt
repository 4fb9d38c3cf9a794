-- ===== src/Phase3/BookTests.antt =====
-- Runs of the order book engine at concrete inputs.
use hft_feed_handler.Common.{
  ℕ, true, some, List, [], ◌∷◌, ◌≡◌, refl, ◌==◌, if◌then◌else◌, find, lower_bound, less_at, ◌⊎◌,
  ◌≢◌, ◌%◌, ◌++◌, arith,
}
use hft_feed_handler.Phase2.Tracker.{inc64}
use hft_feed_handler.Core.Types.{
  Side, buy, sell, EventType, add, execute, iex, Venue, BookEvent, default_event, as_u64,
  venue_to_u8,
}
use hft_feed_handler.Phase3.Levels.{Level, qty_at, add_qty, reduce_qty}
use hft_feed_handler.Phase3.Levels.Position.{Sorted}
use hft_feed_handler.Phase3.Levels.Laws.{more, less, add_qty_lem, reduce_qty_lem}
use hft_feed_handler.Phase3.OrderTable.{
  new_table, order_key, mix_key, find_from, find_order, place_from, put_order, erase_order,
}
use hft_feed_handler.Phase3.Engine.{
  OrderBookEngine, VenueBook, new_engine, book_for, add_side, reduce_side, register, apply_add,
  apply_reduction, apply, snapshot, top_of_book, on_event,
}
use hft_feed_handler.Phase3.Engine.Books.{IsSorted, IsWellFormed, book_of}
use hft_feed_handler.Phase3.Engine.Event.{is_at, before_event, on_event_lem}
use hft_feed_handler.Phase3.Engine.Top.{
  ReportsBid, ReportsAsk, snapshot_lem, new_engine-IsWellFormed,
}
use hft_feed_handler.Phase3.Reconciler
use hft_feed_handler.Phase3.Reconciler.{BookReconciler, new_reconciler, replay_events, touch}
use hft_feed_handler.Phase3.Reconciler.Touched.{Rebuilt, Distinct, Adds}
use hft_feed_handler.Phase3.Reconciler.Divergence.{Checked, on_event-Checked}

abbrev order : EventType → Side → ℕ → ℕ → ℕ → BookEvent
order type side id price qty = record default_event {
  venue = iex;
  type = type;
  order_id = id;
  side = side;
  price = price;
  qty = qty;
}

abbrev two_bids : OrderBookEngine
two_bids = (on_event (on_event (new_engine 8) (order add buy 1 100 5)).0 (order add buy 2 101 3)).0

two_bids_top : (top_of_book two_bids iex 0).bid_price ≡ 101
unfolding on_event top_of_book snapshot apply apply_add add_side add_qty qty_at register put_order
    place_from book_for new_engine new_table as_u64 lower_bound less_at
two_bids_top = refl

-- The better bid is executed in full.
executed_top : (top_of_book (on_event two_bids (order execute buy 2 0 3)).0 iex 0).bid_price ≡ 100
unfolding on_event top_of_book snapshot apply apply_add apply_reduction add_side reduce_side add_qty
    reduce_qty qty_at register put_order place_from find_order find_from erase_order book_for
    new_engine new_table as_u64 lower_bound less_at order_key mix_key venue_to_u8
executed_top = refl

abbrev bids : List Level
bids = (105, 5) ∷ (103, 2) ∷ (100, 9) ∷ []

bids-Sorted : Sorted true bids
unfolding Sorted
bids-Sorted = ((refl, (refl, tt)), ((refl, tt), (tt, tt)))

add_qty_lem_example :
    Sorted true (add_qty bids 104 7 true)
    × ((k : ℕ)
        → find (add_qty bids 104 7 true) k
          ≡ (if 104 == k then some (more (find bids 104) 7) else find bids k))
add_qty_lem_example = add_qty_lem true 104 7 bids bids-Sorted

reduce_qty_lem_example :
    Sorted true (reduce_qty bids 103 2 true)
    × ((k : ℕ)
        → find (reduce_qty bids 103 2 true) k
          ≡ (if 103 == k then less (find bids 103) 2 else find bids k))
reduce_qty_lem_example = reduce_qty_lem true 103 2 bids bids-Sorted

abbrev book : VenueBook
book = record { bids = bids; asks = (106, 1) ∷ [] }

book-IsSorted : IsSorted book
unfolding IsSorted Sorted
book-IsSorted = (bids-Sorted, (tt, tt))

snapshot_lem_example : ReportsBid book.bids (snapshot book) × ReportsAsk book.asks (snapshot book)
snapshot_lem_example = snapshot_lem book book-IsSorted

abbrev one_bid : OrderBookEngine
one_bid = (on_event (new_engine 8) (order add buy 1 100 5)).0

one_bid-IsWellFormed : IsWellFormed one_bid
one_bid-IsWellFormed =
    (on_event_lem (new_engine 8) (order add buy 1 100 5) (new_engine-IsWellFormed 8)).0

abbrev sale : BookEvent
sale = order add sell 2 104 3

on_event_lem_example :
    IsWellFormed (on_event one_bid sale).0
    × ((w : Venue) (k : ℕ)
        → book_of (on_event one_bid sale).0 w k ≡ (
            if is_at sale w k
            then (apply sale.type (before_event one_bid sale) sale).book
            else book_of one_bid w k))
    × ((on_event one_bid sale).0.orders ≡ (apply sale.type (before_event one_bid sale) sale).table)
    × ((on_event one_bid sale).1.top_after
        ≡ top_of_book (on_event one_bid sale).0 iex (as_u64 sale.symbol))
on_event_lem_example = on_event_lem one_bid sale one_bid-IsWellFormed

-- A reconciler whose live engine has lost the book of its first event.
abbrev lost_book : BookReconciler
lost_book = record (Reconciler.on_event 8 (new_reconciler 8 2) (order add buy 1 100 5)) {
  live = new_engine 8;
}

lost_book-Distinct : Distinct lost_book.touched
unfolding Reconciler.on_event new_reconciler
lost_book-Distinct = ((λ t. t), tt)

on_event-Checked_example :
    Adds lost_book.touched iex (as_u64 sale.symbol) (Reconciler.on_event 8 lost_book sale).touched
    × (((inc64 lost_book.stats.events_processed % lost_book.snapshot_interval ≡ 0)
          × (rebuilt : OrderBookEngine) × Rebuilt 8 (lost_book.consumed ++ sale ∷ []) rebuilt
          × Checked
              (on_event lost_book.live sale).0
              rebuilt
              (Reconciler.on_event 8 lost_book sale).touched
              lost_book.stats
              (Reconciler.on_event 8 lost_book sale).stats)
        ⊎ ((inc64 lost_book.stats.events_processed % lost_book.snapshot_interval ≢ 0)
            × ((Reconciler.on_event 8 lost_book sale).stats.divergences
                ≡ lost_book.stats.divergences)
            × ((Reconciler.on_event 8 lost_book sale).stats.snapshots_checked
                ≡ lost_book.stats.snapshots_checked)))
unfolding Reconciler.on_event new_reconciler
on_event-Checked_example =
    on_event-Checked 8 lost_book sale lost_book-Distinct (omega arith) (omega arith)
