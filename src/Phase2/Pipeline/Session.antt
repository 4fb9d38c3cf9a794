-- ===== src/Phase2/Pipeline/Session.antt =====
-- A whole session of events through the pipeline.
use hft_feed_handler.Common.{
  ℕ, zero, suc, ◌-◌, ◌≤◌, ◌≡◌, refl, sym, ◌∙◌, some, List, [], ◌∷◌, arith, find, Option-cases,
  Bool-cases, ltb, inl, inr, subst,
}
use hft_feed_handler.Core.Types.{Venue, BookEvent}
use hft_feed_handler.Core.VenueArray.{at, Venue-discrete}
use hft_feed_handler.Phase2.Tracker.{
  SequenceUpdate, SequenceStatus, GapRange, in_order, duplicate_or_old, gap_buffered, gap_too_large,
  inc64,
}
use hft_feed_handler.Phase2.Tracker.Spec.{SequenceSet, Arrives, old, in_turn, early, far}
use hft_feed_handler.Phase2.Tracker.Arrive.{on_sequence-Refines}
use hft_feed_handler.Phase2.Recovery.{request_recovery, drain_recovered, record_event}
use hft_feed_handler.Phase2.Recovery.Store.{AllUpTo, request_recovery-AllUpTo}
use hft_feed_handler.Phase2.Sequencer
use hft_feed_handler.Phase2.Merger
use hft_feed_handler.Phase2.Sequencer.Laws.{handler-on_sequence}
use hft_feed_handler.Phase2.Pipeline.{
  Pipeline, publish, release_one, release_pending, dispatch, process_event, evict_store,
  evict_pending_before, reinject, on_event,
}
use hft_feed_handler.Phase2.Pipeline.Slices.{slice}
use hft_feed_handler.Phase2.Pipeline.Invariant.{Holds}
use hft_feed_handler.Phase2.Pipeline.Process.{process_event-Processed}

-- Between two events of a session whose sequences are at most `last`.
pub record Inv (last : ℕ) (p : Pipeline) : Type 0 where
  pub venues : (v : Venue) → (a : SequenceSet) × Holds last v (slice p v) a
  pub recovered : AllUpTo last p.recovery_sim.pending_recovered
  pub consistent : p.stats.pending_inconsistency ≡ 0

release_pending-sim :
    (n : ℕ) (p : Pipeline) (v : Venue) (seq : ℕ)
    → (release_pending n p v seq).recovery_sim ≡ p.recovery_sim
unfolding release_pending release_one publish
release_pending-sim zero p v seq = refl
release_pending-sim (suc n) p v seq =
    release_pending-sim n (release_one p v seq (find (at p.pending_by_venue v) seq)) v (inc64 seq)
    ∙ elim (Option-cases (find (at p.pending_by_venue v) seq)) [
      | inl e ↦ rw e
      | inr (held, e) ↦ rw e
    ]

evict_store-sim : (p : Pipeline) (v : Venue) → (evict_store p v).recovery_sim ≡ p.recovery_sim
unfolding evict_store
evict_store-sim p v = elim (Bool-cases (ltb 64 (Sequencer.next_expected p.sequencer v))) [
  | inl e ↦ rw e
  | inr e ↦ rw e
]

dispatch-sim :
    (s : SequenceStatus) (u : SequenceUpdate) (p : Pipeline) (ev : BookEvent)
    → (dispatch s u p ev).recovery_sim ≡ p.recovery_sim
unfolding dispatch publish evict_pending_before
dispatch-sim duplicate_or_old u p ev = refl
dispatch-sim gap_too_large u p ev = evict_store-sim _ ev.venue
dispatch-sim gap_buffered u p ev = refl
dispatch-sim in_order u p ev =
    evict_store-sim _ ev.venue
    ∙ release_pending-sim (u.released_count - 1) (publish p ev) ev.venue (inc64 ev.sequence)

-- A reported gap ends below the arriving sequence.
missing-le :
    (last seq : ℕ) {a b : SequenceSet} {u : SequenceUpdate} (m : GapRange)
    → Arrives a seq b u
    → seq ≤ last
    → u.missing_range ≡ some m
    → (m.end ≤ last) × (m.begin ≤ suc last)
missing-le last seq m (old h) le e = cc
missing-le last seq m (in_turn after h first) le e = cc
missing-le last seq m (early lo hi) le e = ground arith
missing-le last seq m (far h) le e = ground arith

process_event-recovered :
    (last : ℕ) (p : Pipeline) (ev : BookEvent) (a : SequenceSet)
    → Holds last ev.venue (slice p ev.venue) a
    → ev.sequence ≤ last
    → AllUpTo last p.recovery_sim.pending_recovered
    → AllUpTo last (process_event p ev).recovery_sim.pending_recovered
unfolding process_event
process_event-recovered last p ev a h sent all =
    let (b, arrives, r) =
      on_sequence-Refines last (at p.sequencer ev.venue) a ev.sequence h.refines sent in
    subst (λ s. AllUpTo last s.pending_recovered) (sym (dispatch-sim _ _ _ ev))
      (handler-on_sequence (λ s. AllUpTo last s.pending_recovered)
        (request_recovery (some p.recovery_store)) p.sequencer p.recovery_sim ev.venue ev.sequence
        all
        (λ req e.
          let (le, lo) = missing-le last ev.sequence req.missing arrives sent e in
          request_recovery-AllUpTo last p.recovery_store req p.recovery_sim le lo all))

process_event-Inv :
    (last : ℕ) (p : Pipeline) (ev : BookEvent)
    → Inv last p
    → ev.sequence ≤ last
    → Inv last (process_event p ev)
process_event-Inv last p ev i sent =
    let (a, h) = i.venues ev.venue in
    let done = process_event-Processed last p ev a h sent in
    record {
      venues = λ w. elim (Venue-discrete ev.venue w) [
        | yes e ↦
            subst (λ v. (b : SequenceSet) × Holds last v (slice (process_event p ev) v) b) e
              (done.set, done.holds)
        | no ne ↦
            let (c, k) = i.venues w in (c, subst (λ s. Holds last w s c) (sym (done.others w ne)) k)
      ];
      recovered = process_event-recovered last p ev a h sent i.recovered;
      consistent = done.consistent ∙ i.consistent;
    }

reinject-Inv :
    (last : ℕ) (rs : List BookEvent) (p : Pipeline)
    → Inv last p
    → AllUpTo last rs
    → Inv last (reinject p rs)
unfolding reinject
reinject-Inv last [] p i all = i
reinject-Inv last (r ∷ rs) p i all =
    elim (Option-cases (find (at p.pending_by_venue r.venue) r.sequence)) [
      | inl e ↦ rw e (
          reinject-Inv last rs _
            (let j = process_event-Inv last p r i all.0 in
              record { venues = j.venues; recovered = j.recovered; consistent = j.consistent })
            all.1)
      | inr (x, e) ↦ rw e (reinject-Inv last rs p i all.1)
    ]

-- No event breaks the invariant: recording, sequencing, publishing, buffering, skipping gaps and
-- processing what was recovered.
pub on_event-Inv :
    (last : ℕ) (p : Pipeline) (ev : BookEvent)
    → Inv last p
    → ev.sequence ≤ last
    → Inv last (on_event p ev)
unfolding on_event drain_recovered
on_event-Inv last p ev i sent =
    let j =
      process_event-Inv last (record p { recovery_store = record_event p.recovery_store ev }) ev
        (record { venues = i.venues; recovered = i.recovered; consistent = i.consistent }) sent in
    reinject-Inv last _ _ (record { venues = j.venues; recovered = tt; consistent = j.consistent })
      j.recovered
