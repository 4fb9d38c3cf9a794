-- ===== src/Phase2/Pipeline.antt =====
-- src/phase2/pipeline.cpp: every event is recorded, sequenced and published in order of its sequence
-- numbers; what arrived early waits in a map for each venue, and what a gap misses is looked up.
pub mod Slices
pub mod Release
pub mod Invariant
pub mod Process
pub mod Session
use hft_feed_handler.Common.{
  ℕ, zero, suc, ◌+◌, ◌-◌, ◌%◌, Bool, true, false, Option, none, some, List, [], ◌∷◌, ltb,
  if◌then◌else◌, length, find, assign, erase, erase_below, u64_mod,
}
use hft_feed_handler.Core.Types.{Venue, BookEvent}
use hft_feed_handler.Core.VenueArray.{VenueArray, fill, at, put}
use hft_feed_handler.Core.Crc.{update_crc_from_book_event}
use hft_feed_handler.Phase2.Tracker.{
  SequenceStatus, SequenceUpdate, in_order, duplicate_or_old, gap_buffered, gap_too_large, inc64,
}
use hft_feed_handler.Phase2.Recovery.{
  ReplayRecoveryStore, ReplayRecoverySimulator, new_store, new_simulator, record_event,
  evict_before, request_recovery, drain_recovered,
}
use hft_feed_handler.Phase2.Sequencer.{Trackers, new_trackers}
use hft_feed_handler.Phase2.Sequencer
use hft_feed_handler.Phase2.Merger.{DeterministicMerger, new_merger, queued_count}
use hft_feed_handler.Phase2.Merger
use hft_feed_handler.Phase2.Merger.Drain.{drain}

pub record PipelineStats : Type 0 where
  pub accepted : ℕ
  pub dropped_publish_overflow : ℕ
  pub dropped_duplicate_or_old : ℕ
  pub buffered_out_of_order : ℕ
  pub dropped_gap_too_large : ℕ
  pub dropped_gap_too_large_pending_evicted : ℕ
  pub pending_inconsistency : ℕ
  pub recovery_requests : ℕ
  pub recovery_reinjected : ℕ
  pub merged_crc : ℕ

-- `std::map<std::uint64_t, BookEvent>`.
abbrev pub Pending : Type 0
Pending = List (ℕ × BookEvent)

pub record Pipeline : Type 0 where
  pub recovery_store : ReplayRecoveryStore
  pub recovery_sim : ReplayRecoverySimulator
  pub sequencer : Trackers
  pub merger : DeterministicMerger
  pub pending_by_venue : VenueArray Pending
  pub stats : PipelineStats

abbrev pub recovery_lookback_slack : ℕ
recovery_lookback_slack = 64

unfoldable pub new_pipeline : ℕ → ℕ → Pipeline
unfolding new_trackers new_merger
new_pipeline gap_window per_venue_capacity = record {
  recovery_store = new_store ((gap_window + recovery_lookback_slack) % u64_mod);
  recovery_sim = new_simulator;
  sequencer = new_trackers gap_window;
  merger = new_merger per_venue_capacity;
  pending_by_venue = fill [];
  stats = record {
    accepted = 0;
    dropped_publish_overflow = 0;
    dropped_duplicate_or_old = 0;
    buffered_out_of_order = 0;
    dropped_gap_too_large = 0;
    dropped_gap_too_large_pending_evicted = 0;
    pending_inconsistency = 0;
    recovery_requests = 0;
    recovery_reinjected = 0;
    merged_crc = 0;
  };
}

unfoldable pub publish : Pipeline → BookEvent → Pipeline
unfolding Merger.push
publish p ev =
    let (merger', pushed) = Merger.push p.merger ev in
    let q = record p { merger = merger' } in
    if pushed
    then record q { stats = record p.stats { accepted = inc64 p.stats.accepted } }
    else record q {
      stats = record p.stats { dropped_publish_overflow = inc64 p.stats.dropped_publish_overflow };
    }

unfoldable pub evict_pending_before : Pipeline → Venue → ℕ → Pipeline
evict_pending_before p venue seq = record p {
  pending_by_venue = put p.pending_by_venue venue (erase_below (at p.pending_by_venue venue) seq);
}

-- The store forgets what lies more than the slack behind the expected sequence.
unfoldable pub evict_store : Pipeline → Venue → Pipeline
evict_store p venue =
    let next = Sequencer.next_expected p.sequencer venue in
    if ltb recovery_lookback_slack next
    then record p {
      recovery_store = evict_before p.recovery_store venue (next - recovery_lookback_slack);
    }
    else p

-- One round of the release loop, by what `pending.find(seq)` gives.
unfoldable pub release_one : Pipeline → Venue → ℕ → Option BookEvent → Pipeline
release_one p venue seq none = record p {
  stats = record p.stats { pending_inconsistency = inc64 p.stats.pending_inconsistency };
}
release_one p venue seq (some held) =
    let q = publish p held in
    record q {
      pending_by_venue = put q.pending_by_venue venue (erase (at q.pending_by_venue venue) seq);
    }

-- The release loop: `to_release` rounds from `seq` on.
unfoldable pub release_pending : ℕ → Pipeline → Venue → ℕ → Pipeline
release_pending zero p venue seq = p
release_pending (suc to_release) p venue seq =
    release_pending to_release (release_one p venue seq (find (at p.pending_by_venue venue) seq))
      venue (inc64 seq)

-- The branches of `process_event`, by the status that the sequencer gave.
unfoldable pub dispatch : SequenceStatus → SequenceUpdate → Pipeline → BookEvent → Pipeline
dispatch duplicate_or_old u p ev = record p {
  stats = record p.stats { dropped_duplicate_or_old = inc64 p.stats.dropped_duplicate_or_old };
}
dispatch gap_too_large u p ev =
    let p₁ = record p { sequencer = Sequencer.force_advance p.sequencer ev.venue ev.sequence } in
    let p₂ = evict_pending_before p₁ ev.venue ev.sequence in
    let evicted =
      length (at p.pending_by_venue ev.venue) - length (at p₂.pending_by_venue ev.venue) in
    evict_store
      (record p₂ {
        stats = record p.stats {
          dropped_gap_too_large = inc64 p.stats.dropped_gap_too_large;
          dropped_gap_too_large_pending_evicted =
              (p.stats.dropped_gap_too_large_pending_evicted + evicted) % u64_mod;
        };
      })
      ev.venue
dispatch gap_buffered u p ev = record p {
  pending_by_venue =
      put p.pending_by_venue ev.venue (assign (at p.pending_by_venue ev.venue) ev.sequence ev);
  stats = record p.stats { buffered_out_of_order = inc64 p.stats.buffered_out_of_order };
}
dispatch in_order u p ev =
    evict_store (release_pending (u.released_count - 1) (publish p ev) ev.venue (inc64 ev.sequence))
      ev.venue

-- The simulator answers from the store as it is at the time of the request.
unfoldable pub process_event : Pipeline → BookEvent → Pipeline
process_event p ev =
    let (ts, sim, r) =
      Sequencer.on_sequence (some (request_recovery (some p.recovery_store))) p.sequencer
        p.recovery_sim ev.venue ev.sequence in
    dispatch r.update.status r.update (record p { sequencer = ts; recovery_sim = sim }) ev

-- The loop over the recovered events; one that waits already is skipped.
unfoldable pub reinject : Pipeline → List BookEvent → Pipeline
reinject p [] = p
reinject p (r ∷ rs) =
    reinject
      (elim (find (at p.pending_by_venue r.venue) r.sequence) [
        | some e ↦ p
        | none ↦
            let q = process_event p r in
            record q {
              stats = record q.stats { recovery_reinjected = inc64 q.stats.recovery_reinjected };
            }
      ])
      rs

unfoldable pub on_event : Pipeline → BookEvent → Pipeline
on_event p ev =
    let p₁ = process_event (record p { recovery_store = record_event p.recovery_store ev }) ev in
    let (sim, recovered) = drain_recovered p₁.recovery_sim in
    reinject (record p₁ { recovery_sim = sim }) recovered

unfoldable pub on_events : Pipeline → List BookEvent → Pipeline
on_events p [] = p
on_events p (e ∷ es) = on_events (on_event p e) es

crc_of : ℕ → List BookEvent → ℕ
crc_of crc [] = crc
crc_of crc (e ∷ es) = crc_of (update_crc_from_book_event crc e) es

-- The pipeline that `finalize` leaves, and the events that a sink is handed, in order. The loop takes
-- one round for each queued event and one that finds nothing.
unfoldable pub finalize : Pipeline → Pipeline × List BookEvent
unfolding crc_of
finalize p =
    let (m, merged) = drain (suc (queued_count p.merger)) p.merger in
    (
      record p {
        merger = m;
        stats = record p.stats {
          merged_crc = crc_of p.stats.merged_crc merged;
          recovery_requests = p.recovery_sim.requests_total;
        };
      },
      merged,
    )
