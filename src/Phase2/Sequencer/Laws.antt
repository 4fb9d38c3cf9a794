-- ===== src/Phase2/Sequencer/Laws.antt =====
-- `GapAwareSequencer::on_sequence` moves one venue's tracker as that tracker's `on_sequence` does and
-- passes its update on, and asks for recovery exactly when the update names a missing range.
use hft_feed_handler.Common.{ℕ, ◌≡◌, Option, some, Option-cases, inl, inr}
use hft_feed_handler.Core.Types.{Venue}
use hft_feed_handler.Core.VenueArray.{at, put}
use hft_feed_handler.Phase2.Tracker
use hft_feed_handler.Phase2.Tracker.{GapRange, SequenceUpdate}
use hft_feed_handler.Phase2.Recovery.{RecoveryRequest}
use hft_feed_handler.Phase2.Sequencer.{Trackers, on_sequence, report}

module _ {ℓ} {H : Type ℓ} (handler : Option (RecoveryRequest → H → H)) (ts : Trackers) (h : H)
    (v : Venue) (seq : ℕ) where
  pub update-on_sequence :
      (on_sequence handler ts h v seq).2.update ≡ (Tracker.on_sequence (at ts v) seq).1
  unfolding on_sequence
  update-on_sequence = elim (Option-cases (Tracker.on_sequence (at ts v) seq).1.missing_range) [
    | inl e ↦ rw (e, report)
    | inr (r, e) ↦ rw (e, report)
  ]

  pub trackers-on_sequence :
      (on_sequence handler ts h v seq).0 ≡ put ts v (Tracker.on_sequence (at ts v) seq).0
  unfolding on_sequence
  trackers-on_sequence = elim (Option-cases (Tracker.on_sequence (at ts v) seq).1.missing_range) [
    | inl e ↦ rw (e, report)
    | inr (r, e) ↦ rw (e, report)
  ]

-- A property of the handler's state that every request named by the update keeps.
pub handler-on_sequence {ℓ κ} :
    {H : Type ℓ} (P : H → Type κ) (request : RecoveryRequest → H → H) (ts : Trackers) (h : H)
    (v : Venue) (seq : ℕ)
    → P h
    → ((req : RecoveryRequest)
        → (Tracker.on_sequence (at ts v) seq).1.missing_range ≡ some req.missing
        → P (request req h))
    → P (on_sequence (some request) ts h v seq).1
unfolding on_sequence
handler-on_sequence P request ts h v seq start keep =
    elim (Option-cases (Tracker.on_sequence (at ts v) seq).1.missing_range) [
      | inl e ↦ rw (e, report) start
      | inr (r, e) ↦ rw (e, report) (keep _ e)
    ]
