-- ===== src/Phase2/Sequencer.antt =====
-- `MultiVenueSequenceTracker` (src/phase2/sequence_tracker.cpp) and `GapAwareSequencer`
-- (src/phase2/recovery.cpp): a tracker for each venue, and a request for every gap that one reports.
-- The recovery handler behind its interface is an operation on a state of its own; a null handler
-- is `none`.
pub mod Laws
use hft_feed_handler.Common.{ℕ, Option, none, some}
use hft_feed_handler.Core.Types.{Venue}
use hft_feed_handler.Core.VenueArray.{VenueArray, fill, at, put}
use hft_feed_handler.Phase2.Tracker.{
  SequenceTracker, SequenceUpdate, SequenceStatus, GapRange, gap_too_large, in_order,
  duplicate_or_old, gap_buffered, new_tracker,
}
use hft_feed_handler.Phase2.Tracker
use hft_feed_handler.Phase2.Recovery.{RecoveryRequest, RecoveryReason, gap_detected}

-- One tracker in each slot.
abbrev pub Trackers : Type 0
Trackers = VenueArray SequenceTracker

unfoldable pub new_trackers : ℕ → Trackers
new_trackers gap_window = fill (new_tracker gap_window)

unfoldable pub on_venue_sequence : Trackers → Venue → ℕ → Trackers × SequenceUpdate
on_venue_sequence ts venue seq =
    let (t, u) = Tracker.on_sequence (at ts venue) seq in (put ts venue t, u)

unfoldable pub force_advance : Trackers → Venue → ℕ → Trackers
force_advance ts venue new_next = put ts venue (Tracker.force_advance (at ts venue) new_next)

unfoldable pub next_expected : Trackers → Venue → ℕ
next_expected ts venue = (at ts venue).next_expected

pub record SequencerResult : Type 0 where
  pub update : SequenceUpdate
  pub recovery : Option RecoveryRequest

reason_for : SequenceStatus → RecoveryReason
reason_for gap_too_large = RecoveryReason.gap_too_large
reason_for in_order = gap_detected
reason_for duplicate_or_old = gap_detected
reason_for gap_buffered = gap_detected

module _ {ℓ} {H : Type ℓ} (handler : Option (RecoveryRequest → H → H)) where
  notify : RecoveryRequest → H → H
  notify req h = elim handler [ none ↦ h | some request ↦ request req h ]

  -- The part of `on_sequence` behind the trackers: by the missing range.
  report : Trackers → SequenceUpdate → Venue → Option GapRange → H → Trackers × H × SequencerResult
  unfolding notify
  report ts u venue none h = (ts, h, record { update = u; recovery = none })
  report ts u venue (some missing) h =
      let req : RecoveryRequest = record {
        venue = venue;
        missing = missing;
        reason = reason_for u.status;
      } in
      (ts, notify req h, record { update = u; recovery = some req })

  unfoldable pub on_sequence : Trackers → H → Venue → ℕ → Trackers × H × SequencerResult
  unfolding on_venue_sequence report reason_for
  on_sequence ts h venue seq =
      let (ts', u) = on_venue_sequence ts venue seq in report ts' u venue u.missing_range h
