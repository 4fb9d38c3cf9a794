-- ===== src/Phase2/Pipeline/Process.antt =====
-- `Pipeline::process_event` keeps the invariant on every branch.
use hft_feed_handler.Common.{
  ℕ, ◌+◌, ◌-◌, ◌≤◌, ◌<◌, ◌≡◌, refl, sym, ap, ap₂, ◌∙◌, some, [], ◌∷◌, ◌++◌, arith, ◌==◌, ◌||◌,
  assign, erase_below, u64_mod, subst,
}
use hft_feed_handler.Core.Types.{BookEvent}
use hft_feed_handler.Core.VenueArray.{at, put, at-put_self, at-put_ne}
use hft_feed_handler.Phase2.Tracker.{
  SequenceTracker, SequenceUpdate, in_order, duplicate_or_old, gap_buffered, gap_too_large, inc64,
  on_sequence,
}
use hft_feed_handler.Phase2.Tracker
use hft_feed_handler.Phase2.Tracker.Spec.{SequenceSet, Arrives, old, in_turn, early, far}
use hft_feed_handler.Phase2.Tracker.Refine.{Refines}
use hft_feed_handler.Phase2.Tracker.Arrive.{on_sequence-Refines}
use hft_feed_handler.Phase2.Tracker.Skip.{force_advance-Refines}
use hft_feed_handler.Phase2.Recovery.{ReplayRecoverySimulator, request_recovery}
use hft_feed_handler.Phase2.Tracker.Release.{IsFirstFree}
use hft_feed_handler.Phase2.Sequencer
use hft_feed_handler.Phase2.Sequencer.Laws.{update-on_sequence, trackers-on_sequence}
use hft_feed_handler.Phase2.Pipeline.{
  Pipeline, publish, release_pending, dispatch, process_event, evict_store, evict_pending_before,
}
use hft_feed_handler.Phase2.Pipeline.Slices.{
  slice, slice-publish_self, slice-publish_ne, slice-evict_store, publish_consistent,
  evict_store_consistent,
}
use hft_feed_handler.Phase2.Pipeline.Release.{
  Ascends, Ascends-append, is_some, IsKeyed, Drained, release_pending-Drained,
}
use hft_feed_handler.Phase2.Pipeline.Invariant.{
  Holds, Processed, sequenced, slice-sequenced, slice-sequenced_ne, Holds-early, Holds-skip,
}

-- The branch of an early event.
early-Processed :
    (last : ℕ) (p : Pipeline) (ev : BookEvent) (a : SequenceSet) (t : SequenceTracker)
    (sim : ReplayRecoverySimulator) (u : SequenceUpdate)
    → Holds last ev.venue (slice p ev.venue) a
    → Refines last t (record a { held = λ k. ev.sequence == k || a.held k })
    → Processed last ev.venue p (dispatch gap_buffered u (sequenced p ev.venue t sim) ev)
unfolding dispatch
early-Processed last p ev a t sim u h r = record {
  set = record a { held = λ k. ev.sequence == k || a.held k };
  holds =
      subst (λ s. Holds last ev.venue s (record a { held = λ k. ev.sequence == k || a.held k }))
        (sym eq) (Holds-early ev.venue (slice p ev.venue) a t ev refl h r);
  others = λ w ne.
      ap₂ (λ tr m. record (slice p w) { tracker = tr; waiting = m })
        (at-put_ne p.sequencer ev.venue w t ne) (at-put_ne p.pending_by_venue ev.venue w _ ne);
  consistent = refl;
}
  where
    eq :
        slice (dispatch gap_buffered u (sequenced p ev.venue t sim) ev) ev.venue
        ≡ record (slice p ev.venue) {
          tracker = t;
          waiting = assign (at p.pending_by_venue ev.venue) ev.sequence ev;
        }
    eq =
        ap₂ (λ tr m. record (slice p ev.venue) { tracker = tr; waiting = m })
          (at-put_self p.sequencer ev.venue t) (at-put_self p.pending_by_venue ev.venue _)

-- The branch of a gap beyond the window.
far-Processed :
    (last : ℕ) (p : Pipeline) (ev : BookEvent) (a : SequenceSet) (t : SequenceTracker)
    (sim : ReplayRecoverySimulator) (u : SequenceUpdate)
    → Holds last ev.venue (slice p ev.venue) a
    → a.next < ev.sequence
    → ev.sequence ≤ last
    → Refines last t a
    → Processed last ev.venue p (dispatch gap_too_large u (sequenced p ev.venue t sim) ev)
unfolding dispatch evict_pending_before Sequencer.force_advance
far-Processed last p ev a t sim u h up sent r =
    let (b, skips, r') = force_advance-Refines last t a ev.sequence r (omega arith) in
    record {
      set = b;
      holds =
          subst (λ s. Holds last ev.venue s b) (sym eq)
            (Holds-skip ev.venue (slice p ev.venue) a b (Tracker.force_advance t ev.sequence)
              ev.sequence up h skips r');
      others = λ w ne.
          slice-evict_store _ ev.venue w
          ∙ ap₂ (λ tr m. record (slice p w) { tracker = tr; waiting = m })
              (at-put_ne (put p.sequencer ev.venue t) ev.venue w _ ne
                ∙ at-put_ne p.sequencer ev.venue w t ne)
              (at-put_ne p.pending_by_venue ev.venue w _ ne);
      consistent = ap (λ s. s.pending_inconsistency) (evict_store_consistent _ ev.venue);
    }
  where
    eq :
        slice (dispatch gap_too_large u (sequenced p ev.venue t sim) ev) ev.venue
        ≡ record (slice p ev.venue) {
          tracker = Tracker.force_advance t ev.sequence;
          waiting = erase_below (at p.pending_by_venue ev.venue) ev.sequence;
        }
    eq =
        slice-evict_store _ ev.venue ev.venue
        ∙ ap₂ (λ tr m. record (slice p ev.venue) { tracker = tr; waiting = m })
            (at-put_self (put p.sequencer ev.venue t) ev.venue _
              ∙ ap (λ x. Tracker.force_advance x ev.sequence) (at-put_self p.sequencer ev.venue t))
            (at-put_self p.pending_by_venue ev.venue _)

-- The branch of the expected event: it is published, and the run behind it.
module _ (last : ℕ) (p : Pipeline) (ev : BookEvent) (a : SequenceSet) (t : SequenceTracker)
    (sim : ReplayRecoverySimulator) (after : ℕ) (h : Holds last ev.venue (slice p ev.venue) a)
    (turn : ev.sequence ≡ a.next) (first : IsFirstFree a.held (a.next + 1) after)
    (r : Refines last t (record a { next = after })) where
  abbrev published : Pipeline
  published = publish (sequenced p ev.venue t sim) ev

  published_self :
      slice published ev.venue
      ≡ record (slice p ev.venue) { tracker = t; queue = at p.merger.queues ev.venue ++ ev ∷ [] }
  published_self =
      slice-publish_self (sequenced p ev.venue t sim) ev ev.venue refl
      ∙ ap
          (λ tr. record (slice p ev.venue) {
            tracker = tr;
            queue = at p.merger.queues ev.venue ++ ev ∷ [];
          })
          (at-put_self p.sequencer ev.venue t)

  waiting_same : at published.pending_by_venue ev.venue ≡ at p.pending_by_venue ev.venue
  waiting_same = ap (λ s. s.waiting) published_self

  after_small : after < u64_mod
  after_small = omega (arith, r.no_wrap, r.in_session, r.same_next)

  drained :
      Drained ev.venue after published
        (release_pending (after - a.next - 1) published ev.venue (inc64 ev.sequence))
  drained =
      release_pending-Drained (after - a.next - 1) published ev.venue (inc64 ev.sequence) after
        (omega (arith, first.from, after_small)) after_small
        (subst (IsKeyed ev.venue) (sym waiting_same) h.keyed)
        (λ s lo hi. rw waiting_same (
          h.present s (omega (arith, first.from, after_small))
          ∙ first.taken s (omega (arith, first.from, after_small)) hi))
        (subst (λ q. Ascends 0 q (inc64 ev.sequence)) (sym (ap (λ s. s.queue) published_self))
          (Ascends-append 0 (at p.merger.queues ev.venue) a.next (inc64 ev.sequence) ev h.ordered
            (omega arith) (omega (arith, first.from, after_small))))

  in_turn-Processed : Processed last ev.venue p (
      evict_store
        (release_pending (after - a.next - 1) published ev.venue (inc64 ev.sequence))
        ev.venue)
  in_turn-Processed =
      let d = drained in
      record {
        set = record a { next = after };
        holds =
            subst (λ s. Holds last ev.venue s (record a { next = after }))
              (sym (slice-evict_store _ ev.venue ev.venue))
              (record {
                refines =
                    subst (λ x. Refines last x (record a { next = after }))
                      (sym (d.tracker ∙ ap (λ s. s.tracker) published_self)) r;
                present = λ k le.
                    ap is_some (d.waiting k le)
                    ∙ rw waiting_same (h.present k (omega (arith, first.from)));
                keyed = d.keyed;
                ordered = d.ordered;
              });
        others = λ w ne.
            slice-evict_store _ ev.venue w
            ∙ d.others w ne
            ∙ slice-publish_ne _ ev w ne
            ∙ slice-sequenced_ne p ev.venue w t sim ne;
        consistent =
            ap (λ s. s.pending_inconsistency) (evict_store_consistent _ ev.venue)
            ∙ d.consistent
            ∙ publish_consistent (sequenced p ev.venue t sim) ev;
      }

old-Processed :
    (last : ℕ) (p : Pipeline) (ev : BookEvent) (a : SequenceSet) (t : SequenceTracker)
    (sim : ReplayRecoverySimulator) (u : SequenceUpdate)
    → Holds last ev.venue (slice p ev.venue) a
    → Refines last t a
    → Processed last ev.venue p (dispatch duplicate_or_old u (sequenced p ev.venue t sim) ev)
unfolding dispatch
old-Processed last p ev a t sim u h r = record {
  set = a;
  holds =
      subst (λ s. Holds last ev.venue s a) (sym (slice-sequenced p ev.venue t sim))
        (record { refines = r; present = h.present; keyed = h.keyed; ordered = h.ordered });
  others = λ w ne. slice-sequenced_ne p ev.venue w t sim ne;
  consistent = refl;
}

dispatch-Processed :
    (last : ℕ) (p : Pipeline) (ev : BookEvent) (a : SequenceSet) (t : SequenceTracker)
    (sim : ReplayRecoverySimulator) {b : SequenceSet} {u : SequenceUpdate}
    → Arrives a ev.sequence b u
    → Holds last ev.venue (slice p ev.venue) a
    → ev.sequence ≤ last
    → Refines last t b
    → Processed last ev.venue p (dispatch u.status u (sequenced p ev.venue t sim) ev)
unfolding dispatch
dispatch-Processed last p ev a t sim {u = u} (old lt) h sent r =
    old-Processed last p ev a t sim u h r
dispatch-Processed last p ev a t sim {u = u} (in_turn after turn first) h sent r =
    in_turn-Processed last p ev a t sim after h turn first r
dispatch-Processed last p ev a t sim {u = u} (early lo hi) h sent r =
    early-Processed last p ev a t sim u h r
dispatch-Processed last p ev a t sim {u = u} (far lt) h sent r =
    far-Processed last p ev a t sim u h (omega arith) sent r

-- The sequencer's part of `process_event`, as the moved tracker and its update.
process_event_lem :
    (p : Pipeline) (ev : BookEvent)
    → process_event p ev ≡ (
        let (t, u) = on_sequence (at p.sequencer ev.venue) ev.sequence in
        dispatch u.status u
          (sequenced p ev.venue t
            (Sequencer.on_sequence
              (some (request_recovery (some p.recovery_store)))
              p.sequencer
              p.recovery_sim
              ev.venue
              ev.sequence).1)
          ev)
unfolding process_event
process_event_lem p ev = rw (
  update-on_sequence (some (request_recovery (some p.recovery_store))) p.sequencer p.recovery_sim
      ev.venue ev.sequence,
  trackers-on_sequence (some (request_recovery (some p.recovery_store))) p.sequencer p.recovery_sim
      ev.venue ev.sequence,
)

-- Whatever arrives, the venue of the event keeps its invariant, every other venue is left alone, and
-- no inconsistency is counted.
pub process_event-Processed :
    (last : ℕ) (p : Pipeline) (ev : BookEvent) (a : SequenceSet)
    → Holds last ev.venue (slice p ev.venue) a
    → ev.sequence ≤ last
    → Processed last ev.venue p (process_event p ev)
process_event-Processed last p ev a h sent =
    let (b, arrives, r) =
      on_sequence-Refines last (at p.sequencer ev.venue) a ev.sequence h.refines sent in
    rw (process_event_lem p ev) (dispatch-Processed last p ev a _ _ arrives h sent r)
