-- ===== src/Phase2/Pipeline/Slices.antt =====
-- What the pipeline keeps for one venue, and which operations of it touch which venue.
use hft_feed_handler.Common.{
  ℕ, ◌≡◌, ◌≢◌, refl, sym, ap, ◌∙◌, some, List, [], ◌∷◌, ◌++◌, Bool-cases, inl, inr, ltb, erase,
}
use hft_feed_handler.Core.Types.{Venue, BookEvent}
use hft_feed_handler.Core.VenueArray.{at, at-put_self, at-put_ne}
use hft_feed_handler.Phase2.Sequencer
use hft_feed_handler.Phase2.Tracker.{SequenceTracker}
use hft_feed_handler.Phase2.Pipeline.{Pipeline, Pending, publish, release_one, evict_store}

pub record Slice : Type 0 where
  pub tracker : SequenceTracker
  pub waiting : Pending
  pub queue : List BookEvent

abbrev pub slice : Pipeline → Venue → Slice
slice p v = record {
  tracker = at p.sequencer v;
  waiting = at p.pending_by_venue v;
  queue = at p.merger.queues v;
}

abbrev pub with_queue : Slice → List BookEvent → Slice
with_queue s q = record s { queue = q }

pub slice-publish_self :
    (p : Pipeline) (ev : BookEvent) (v : Venue)
    → ev.venue ≡ v
    → slice (publish p ev) v ≡ record (slice p v) { queue = at p.merger.queues v ++ ev ∷ [] }
unfolding publish
slice-publish_self p ev v e =
    rw (← e) (ap (with_queue (slice p ev.venue)) (at-put_self p.merger.queues ev.venue _))

pub slice-publish_ne :
    (p : Pipeline) (ev : BookEvent) (w : Venue) → ev.venue ≢ w → slice (publish p ev) w ≡ slice p w
unfolding publish
slice-publish_ne p ev w h = ap (with_queue (slice p w)) (at-put_ne p.merger.queues ev.venue w _ h)

pub publish_consistent :
    (p : Pipeline) (ev : BookEvent)
    → (publish p ev).stats.pending_inconsistency ≡ p.stats.pending_inconsistency
unfolding publish
publish_consistent p ev = refl

pub slice-evict_store : (p : Pipeline) (v w : Venue) → slice (evict_store p v) w ≡ slice p w
unfolding evict_store
slice-evict_store p v w = elim (Bool-cases (ltb 64 (Sequencer.next_expected p.sequencer v))) [
  | inl e ↦ rw e
  | inr e ↦ rw e
]

pub evict_store_consistent : (p : Pipeline) (v : Venue) → (evict_store p v).stats ≡ p.stats
unfolding evict_store
evict_store_consistent p v = elim (Bool-cases (ltb 64 (Sequencer.next_expected p.sequencer v))) [
  | inl e ↦ rw e
  | inr e ↦ rw e
]

abbrev with_waiting : Slice → Pending → Slice
with_waiting s m = record s { waiting = m }

-- A held event that is released leaves the map and joins the queue.
pub slice-release_one_self :
    (p : Pipeline) (v : Venue) (seq : ℕ) (held : BookEvent)
    → held.venue ≡ v
    → slice (release_one p v seq (some held)) v ≡ record (slice p v) {
      waiting = erase (at p.pending_by_venue v) seq;
      queue = at p.merger.queues v ++ held ∷ [];
    }
unfolding release_one publish
slice-release_one_self p v seq held e =
    ap (with_waiting (slice (publish p held) v)) (at-put_self p.pending_by_venue v _)
    ∙ ap (λ s. with_waiting s (erase (at p.pending_by_venue v) seq)) (slice-publish_self p held v e)

pub slice-release_one_ne :
    (p : Pipeline) (v w : Venue) (seq : ℕ) (held : BookEvent)
    → held.venue ≡ v
    → v ≢ w
    → slice (release_one p v seq (some held)) w ≡ slice p w
unfolding release_one publish
slice-release_one_ne p v w seq held e h =
    ap (with_waiting (slice (publish p held) w)) (at-put_ne p.pending_by_venue v w _ h)
    ∙ slice-publish_ne p held w (λ q. h (sym e ∙ q))
