-- ===== src/Phase2/Pipeline/Invariant.antt =====
-- What the pipeline keeps true for each venue, and that no event breaks it.
use hft_feed_handler.Common.{
  ℕ, ◌≤◌, ◌<◌, ◌≡◌, ◌≢◌, ap, arith, ◌==◌, ◌||◌, find, assign, erase_below, find-assign,
  find-erase_below,
}
use hft_feed_handler.Core.Types.{Venue, BookEvent}
use hft_feed_handler.Core.VenueArray.{put, at-put_self, at-put_ne}
use hft_feed_handler.Phase2.Tracker.{SequenceTracker}
use hft_feed_handler.Phase2.Tracker.Spec.{SequenceSet, Skips, behind, ahead}
use hft_feed_handler.Phase2.Tracker.Refine.{Refines}
use hft_feed_handler.Phase2.Recovery.{ReplayRecoverySimulator}
use hft_feed_handler.Phase2.Pipeline.{Pipeline}
use hft_feed_handler.Phase2.Pipeline.Slices.{Slice, slice}
use hft_feed_handler.Phase2.Pipeline.Release.{Ascends, Ascends-mono, is_some, IsKeyed}

-- One venue: its tracker stands for the set `a`, exactly the held sequences wait in the map, each under
-- its own number, and what was published went out in ascending order.
pub record Holds (last : ℕ) (v : Venue) (s : Slice) (a : SequenceSet) : Type 0 where
  pub refines : Refines last s.tracker a
  pub present : (k : ℕ) → a.next ≤ k → is_some (find s.waiting k) ≡ a.held k
  pub keyed : IsKeyed v s.waiting
  pub ordered : Ascends 0 s.queue a.next

-- What an event makes of a pipeline.
pub record Processed (last : ℕ) (v : Venue) (p r : Pipeline) : Type 0 where
  pub set : SequenceSet
  pub holds : Holds last v (slice r v) set
  pub others : (w : Venue) → v ≢ w → slice r w ≡ slice p w
  pub consistent : r.stats.pending_inconsistency ≡ p.stats.pending_inconsistency

-- The pipeline behind the sequencer: the venue's tracker has moved.
abbrev pub sequenced : Pipeline → Venue → SequenceTracker → ReplayRecoverySimulator → Pipeline
sequenced p v t sim = record p { sequencer = put p.sequencer v t; recovery_sim = sim }

abbrev pub with_tracker : Slice → SequenceTracker → Slice
with_tracker s t = record s { tracker = t }

pub slice-sequenced :
    (p : Pipeline) (v : Venue) (t : SequenceTracker) (sim : ReplayRecoverySimulator)
    → slice (sequenced p v t sim) v ≡ with_tracker (slice p v) t
slice-sequenced p v t sim = ap (with_tracker (slice p v)) (at-put_self p.sequencer v t)

pub slice-sequenced_ne :
    (p : Pipeline) (v w : Venue) (t : SequenceTracker) (sim : ReplayRecoverySimulator)
    → v ≢ w
    → slice (sequenced p v t sim) w ≡ slice p w
slice-sequenced_ne p v w t sim h = ap (with_tracker (slice p w)) (at-put_ne p.sequencer v w t h)

-- An early event waits.
pub Holds-early :
    {last : ℕ} (v : Venue) (s : Slice) (a : SequenceSet) (t : SequenceTracker) (ev : BookEvent)
    → ev.venue ≡ v
    → Holds last v s a
    → Refines last t (record a { held = λ k. ev.sequence == k || a.held k })
    → Holds last v
        (record s { tracker = t; waiting = assign s.waiting ev.sequence ev })
        (record a { held = λ k. ev.sequence == k || a.held k })
Holds-early v s a t ev mine h r = record {
  refines = r;
  present = λ k le. ground (arith, find-assign s.waiting ev.sequence k ev, h.present k le);
  keyed = λ k e p. ground (arith, find-assign s.waiting ev.sequence k ev, h.keyed k e);
  ordered = h.ordered;
}

-- A gap that is skipped drops what waited before its end.
pub Holds-skip :
    {last : ℕ} (v : Venue) (s : Slice) (a b : SequenceSet) (t : SequenceTracker) (seq : ℕ)
    → a.next < seq
    → Holds last v s a
    → Skips a seq b
    → Refines last t b
    → Holds last v (record s { tracker = t; waiting = erase_below s.waiting seq }) b
Holds-skip v s a b t seq up h (behind le) r = absurd (omega arith)
Holds-skip v s a _ t seq up h (ahead lt) r = record {
  refines = r;
  present = λ k le. ground (arith, find-erase_below s.waiting seq k, h.present k);
  keyed = λ k e p. ground (arith, find-erase_below s.waiting seq k, h.keyed k e);
  ordered = Ascends-mono 0 s.queue a.next seq h.ordered (omega arith);
}
