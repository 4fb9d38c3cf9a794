-- ===== src/Phase2/Tests.antt =====
-- Runs of the code of src/phase2 on small inputs, and instances of the theorems about it.
use mathlib.Core.List.{Perm}
use hft_feed_handler.Common.{
  inl, ℕ, ◌+◌, ◌≡◌, ◌<◌, refl, some, List, [], ◌∷◌, arith, map, lower_bound, less_at,
}
use hft_feed_handler.Core.Types.{BookEvent, default_event, Venue, nasdaq, iex, cboe, cme, bitfinex}
use hft_feed_handler.Core.VenueArray.{fill, at}
use hft_feed_handler.Phase2.Tracker.{
  gap_too_large, new_tracker, on_sequence, force_advance, release, pop_buffered,
}
use hft_feed_handler.Phase2.Tracker.Release.{IsFirstFree}
use hft_feed_handler.Phase2.Tracker.Spec.{SequenceSet, Skips}
use hft_feed_handler.Phase2.Tracker.Refine.{Refines, empty_set, new_tracker-Refines}
use hft_feed_handler.Phase2.Tracker.Arrive.{Simulated, on_sequence-Refines}
use hft_feed_handler.Phase2.Tracker.Skip.{force_advance-Refines}
use hft_feed_handler.Phase2.Tracker.Session.{Fits, contains, run, run-first_missing}
use hft_feed_handler.Phase2.Sequencer
use hft_feed_handler.Core.Crc.{update_crc_from_book_event}
use hft_feed_handler.Phase2.Merger.{DeterministicMerger, pop_next, less_event, queued_count}
use hft_feed_handler.Phase2.Merger.Drain.{drain, drain-Sorted, Sorted}
use hft_feed_handler.Phase2.Merger.Conserve.{queued, drain-perm}
use hft_feed_handler.Phase2.Recovery.{
  ReplayRecoveryStore, lookup, record_event, new_store, request_recovery, drain_recovered,
}
use hft_feed_handler.Phase2.Recovery.Store.{lookup_complete, InSequence, Rises-InSequence}
use hft_feed_handler.Phase2.Pipeline.{
  new_pipeline, on_event, on_events, process_event, finalize, dispatch, release_pending,
  release_one, publish, evict_store, evict_pending_before, reinject,
}

-- 2 arrives before 1: both are released by 1.
early_two : (run (new_tracker 4) (2 ∷ 1 ∷ [])).0.next_expected ≡ 3
unfolding run on_sequence new_tracker release pop_buffered
early_two = refl

beyond_window : (on_sequence (new_tracker 2) 5).1.status ≡ gap_too_large
unfolding on_sequence new_tracker
beyond_window = refl

-- The tracker that holds 2, and the set that it stands for.
held_two : Simulated 9 (empty_set 4) 2 (on_sequence (new_tracker 4) 2)
held_two =
    on_sequence-Refines 9 (new_tracker 4) (empty_set 4) 2
      (new_tracker-Refines 9 4 (omega arith) (omega arith)) (omega arith)

on_sequence-Refines_example :
    Simulated 9 held_two.0 1 (on_sequence (on_sequence (new_tracker 4) 2).0 1)
on_sequence-Refines_example =
    on_sequence-Refines 9 (on_sequence (new_tracker 4) 2).0 held_two.0 1 held_two.2 (omega arith)

force_advance-Refines_example :
    (b : SequenceSet) × Skips held_two.0 7 b
    × Refines 9 (force_advance (on_sequence (new_tracker 4) 2).0 7) b
force_advance-Refines_example =
    force_advance-Refines 9 (on_sequence (new_tracker 4) 2).0 held_two.0 7 held_two.2 (omega arith)

shuffled-Fits : Fits 9 (new_tracker 4) (2 ∷ 4 ∷ 1 ∷ 2 ∷ [])
unfolding on_sequence new_tracker release pop_buffered
shuffled-Fits = (
  omega arith,
  (λ e. cc),
  (omega arith, (λ e. cc), (omega arith, (λ e. cc), (omega arith, (λ e. cc), tt))),
)

run-first_missing_example :
    IsFirstFree
      (contains (2 ∷ 4 ∷ 1 ∷ 2 ∷ []))
      1
      (run (new_tracker 4) (2 ∷ 4 ∷ 1 ∷ 2 ∷ [])).0.next_expected
    × ((run (new_tracker 4) (2 ∷ 4 ∷ 1 ∷ 2 ∷ [])).1 + 1
        ≡ (run (new_tracker 4) (2 ∷ 4 ∷ 1 ∷ 2 ∷ [])).0.next_expected)
run-first_missing_example =
    run-first_missing 9 4 (2 ∷ 4 ∷ 1 ∷ 2 ∷ []) (omega arith) (omega arith) shuffled-Fits

-- An event of a venue, by sequence and exchange time.
abbrev event : Venue → ℕ → ℕ → BookEvent
event v seq ts = record default_event { venue = v; sequence = seq; exchange_ts_ns = ts }

-- Three events of two venues, each venue's in order of time.
abbrev two_queues : DeterministicMerger
two_queues = record {
  per_venue_capacity = 8;
  queues = record (fill []) {
    nasdaq_slot = event nasdaq 1 20 ∷ event nasdaq 2 40 ∷ [];
    cboe_slot = event cboe 1 30 ∷ [];
  };
}

merged_times : map (λ e. e.exchange_ts_ns) (drain 9 two_queues).1 ≡ 20 ∷ 30 ∷ 40 ∷ []
unfolding drain pop_next
merged_times = refl

two_queues-Sorted : (v : Venue) → Sorted (at two_queues.queues v)
two_queues-Sorted nasdaq = (inl (omega arith), tt)
two_queues-Sorted iex = tt
two_queues-Sorted cboe = tt
two_queues-Sorted cme = tt
two_queues-Sorted bitfinex = tt

two_queues_few : queued_count two_queues < 9
unfolding queued_count
two_queues_few = omega arith

drain-Sorted_example : Sorted (drain 9 two_queues).1
drain-Sorted_example = drain-Sorted 9 two_queues two_queues-Sorted

drain-perm_example :
    Perm (drain 9 two_queues).1 (queued two_queues.queues)
    × ((drain 9 two_queues).0.queues ≡ fill [])
drain-perm_example = drain-perm 9 two_queues two_queues_few

-- Three of four events arrive, the second late; the third venue's gap is recovered from the store.
abbrev session : List BookEvent
session = event iex 1 10 ∷ event iex 3 30 ∷ event iex 2 20 ∷ event nasdaq 1 15 ∷ []

session_published :
    map (λ e. e.exchange_ts_ns) (finalize (on_events (new_pipeline 4 16) session)).1
    ≡ 10 ∷ 15 ∷ 20 ∷ 30 ∷ []
unfolding finalize on_events on_event process_event dispatch release_pending release_one publish
    evict_store evict_pending_before reinject new_pipeline on_sequence release pop_buffered
    new_tracker Sequencer.on_sequence Sequencer.next_expected request_recovery drain_recovered
    record_event lookup lower_bound less_at drain pop_next update_crc_from_book_event queued_count
    less_event
session_published = refl

-- A store with three events in sequence.
abbrev stored : ReplayRecoveryStore
stored = record (new_store 8) {
  by_venue = record (fill []) { iex_slot = event iex 1 10 ∷ event iex 2 20 ∷ event iex 4 40 ∷ [] };
}

stored-InSequence : InSequence (at stored.by_venue iex)
stored-InSequence = Rises-InSequence 0 (at stored.by_venue iex) (omega arith)

lookup_complete_example : (f : BookEvent) × (lookup stored iex 4 ≡ some f) × (f.sequence ≡ 4)
lookup_complete_example =
    lookup_complete stored iex 4 2 (event iex 4 40) stored-InSequence refl refl
