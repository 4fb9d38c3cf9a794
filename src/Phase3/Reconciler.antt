-- ===== src/Phase3/Reconciler.antt =====
-- src/phase3/book_snapshot.cpp and include/mf/phase3/book_snapshot.hpp, `BookReconciler`: every so many
-- events the books are rebuilt from all events so far and compared with the live ones. `slots` is the
-- size of an engine's order table, the same for both. `touched_` is a set; only the number of its
-- elements and their comparisons matter.
pub mod Touched
pub mod Divergence
use hft_feed_handler.Common.{
  ℕ, ◌%◌, Bool, true, false, not, ◌&&◌, ◌||◌, Option, none, some, List, [], ◌∷◌, ◌++◌, map, ◌==◌,
  if◌then◌else◌, length, find,
}
use hft_feed_handler.Core.Types.{Venue, venue_to_u8, BookEvent, as_u64}
use hft_feed_handler.Core.VenueArray.{at}
use hft_feed_handler.Phase2.Tracker.{inc64}
use hft_feed_handler.Phase3.Levels.{Level}
use hft_feed_handler.Phase3.Engine
use hft_feed_handler.Phase3.Engine.{OrderBookEngine, VenueBook, new_engine}

pub record BookLevel : Type 0 where
  pub price : ℕ
  pub qty : ℕ

pub record BookSnapshot : Type 0 where
  pub bids : List BookLevel
  pub asks : List BookLevel

-- `OrderBookEngine::snapshot` of a venue and symbol.
abbrev pub level_of : Level → BookLevel
level_of level = record { price = level.0; qty = level.1 }

abbrev pub snapshot_of : Option VenueBook → BookSnapshot
snapshot_of none = record { bids = []; asks = [] }
snapshot_of (some b) = record { bids = map level_of b.bids; asks = map level_of b.asks }

unfoldable pub book_snapshot : OrderBookEngine → Venue → ℕ → BookSnapshot
book_snapshot e venue symbol = snapshot_of (find (at e.books venue) symbol)

-- The loop of `byte_equal` over one side; the sizes are equal there.
abbrev pub levels_equal : List BookLevel → List BookLevel → Bool
levels_equal [] ys = true
levels_equal (x ∷ xs) [] = true
levels_equal (x ∷ xs) (y ∷ ys) =
    let rest = levels_equal xs ys in if x.price == y.price && x.qty == y.qty then rest else false

unfoldable pub byte_equal : BookSnapshot → BookSnapshot → Bool
byte_equal a b =
    if not (length a.bids == length b.bids) || not (length a.asks == length b.asks)
    then false
    else levels_equal a.bids b.bids && levels_equal a.asks b.asks

pub record BookReconcileStats : Type 0 where
  pub events_processed : ℕ
  pub snapshots_checked : ℕ
  pub divergences : ℕ
  pub snapshot_interval : ℕ

pub record BookReconciler : Type 0 where
  pub snapshot_interval : ℕ
  pub live : OrderBookEngine
  pub consumed : List BookEvent
  pub touched : List (Venue × ℕ)
  pub stats : BookReconcileStats

unfoldable pub new_reconciler : ℕ → ℕ → BookReconciler
new_reconciler slots interval =
    let snapshot_interval = if interval == 0 then 1 else interval in
    record {
      snapshot_interval = snapshot_interval;
      live = new_engine slots;
      consumed = [];
      touched = [];
      stats = record {
        events_processed = 0;
        snapshots_checked = 0;
        divergences = 0;
        snapshot_interval = snapshot_interval;
      };
    }

-- `touched_.insert`.
abbrev pub touch : List (Venue × ℕ) → Venue → ℕ → List (Venue × ℕ)
touch [] v k = (v, k) ∷ []
touch ((w, j) ∷ ts) v k =
    let rest = touch ts v k in
    if venue_to_u8 w == venue_to_u8 v && j == k then (w, j) ∷ ts else (w, j) ∷ rest

-- The loop that rebuilds the books.
unfoldable pub replay_events : OrderBookEngine → List BookEvent → OrderBookEngine
replay_events e [] = e
replay_events e (ev ∷ evs) = replay_events (Engine.on_event e ev).0 evs

-- The loop that compares the books.
unfoldable pub compare_books :
    OrderBookEngine → OrderBookEngine → List (Venue × ℕ) → BookReconcileStats → BookReconcileStats
compare_books live rebuilt [] stats = stats
compare_books live rebuilt ((v, k) ∷ ts) stats =
    let checked = record stats { snapshots_checked = inc64 stats.snapshots_checked } in
    compare_books live rebuilt ts (
      if not (byte_equal (book_snapshot live v k) (book_snapshot rebuilt v k))
      then record checked { divergences = inc64 checked.divergences }
      else checked)

unfoldable pub check_snapshot : ℕ → BookReconciler → BookReconciler
check_snapshot slots r = record r {
  stats = compare_books r.live (replay_events (new_engine slots) r.consumed) r.touched r.stats;
}

unfoldable pub on_event : ℕ → BookReconciler → BookEvent → BookReconciler
on_event slots r ev =
    let r' = record r {
      live = (Engine.on_event r.live ev).0;
      consumed = r.consumed ++ ev ∷ [];
      touched = touch r.touched ev.venue (as_u64 ev.symbol);
      stats = record r.stats { events_processed = inc64 r.stats.events_processed };
    } in
    let checked = check_snapshot slots r' in
    if r'.stats.events_processed % r'.snapshot_interval == 0 then checked else r'
