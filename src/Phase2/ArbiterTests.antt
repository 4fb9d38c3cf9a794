-- ===== src/Phase2/ArbiterTests.antt =====
-- src/phase2/ab_arbiter.cpp run at concrete events.
use hft_feed_handler.Common.{ℕ, ◌≡◌, refl, some, none, List, [], ◌∷◌, arith, Option, map, ◌==◌}
use hft_feed_handler.Core.Types.{BookEvent, default_event, nasdaq}
use hft_feed_handler.Phase2.Sequencer
use hft_feed_handler.Phase2.Tracker
use hft_feed_handler.Phase2.Sequencer.{next_expected}
use hft_feed_handler.Phase2.Pipeline.Release.{Ascends}
use hft_feed_handler.Phase2.Arbiter.{
  FeedSide, feed_a, feed_b, AbArbiter, AbArbiterResult, new_arbiter, on_event, element, erase_at,
}
use hft_feed_handler.Phase2.Arbiter.Invariant.{of_venue}
use hft_feed_handler.Phase2.Arbiter.Event.{Arbitrated, on_event-Arbitrated}
use hft_feed_handler.Phase2.Arbiter.Session.{new_arbiter-Inv, on_events, on_events-Ascends}

abbrev numbered : ℕ → BookEvent
numbered n = record default_event { sequence = n }

-- The second sequence arrives first, then the first twice.
abbrev raced : List (FeedSide × BookEvent)
raced = (feed_a, numbered 2) ∷ (feed_b, numbered 1) ∷ (feed_a, numbered 1) ∷ []

abbrev delivered_sequences : Option AbArbiter → List ℕ
delivered_sequences (some s) = map (λ e. e.sequence) s.ready
delivered_sequences none = []

-- The event that waited is not delivered when its turn has come.
lost_event : delivered_sequences (on_events (new_arbiter 8) raced) ≡ 1 ∷ []
unfolding on_events on_event new_arbiter Sequencer.on_sequence Tracker.on_sequence
    Sequencer.new_trackers Tracker.new_tracker element next_expected Tracker.release
    Tracker.pop_buffered erase_at
lost_event = refl

on_event-Arbitrated_example :
    (r : AbArbiter) × (out : AbArbiterResult) × (on_event feed_a (new_arbiter 8) (numbered 1)
      ≡ some (r, out))
    × Arbitrated 9 (new_arbiter 8) (numbered 1) out.accepted r
    × (out.accepted
        ≡ ((numbered 1).sequence == next_expected (new_arbiter 8).sequencer (numbered 1).venue))
on_event-Arbitrated_example =
    on_event-Arbitrated 9 feed_a (new_arbiter 8) (numbered 1)
      (new_arbiter-Inv 9 8 (omega arith) (omega arith)) (omega arith)

on_events-Ascends_example :
    (r : AbArbiter) × (on_events (new_arbiter 8) raced ≡ some r)
    × Ascends 0 (of_venue nasdaq r.ready) (next_expected r.sequencer nasdaq)
on_events-Ascends_example =
    on_events-Ascends 9 8 raced nasdaq (omega arith) (omega arith)
      (omega arith, (omega arith, (omega arith, tt)))
