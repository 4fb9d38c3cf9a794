-- ===== src/Phase2/Arbiter/Event.antt =====
-- src/phase2/ab_arbiter.cpp: one event.
use hft_feed_handler.Common.{
  ℕ, suc, ◌+◌, ◌≤◌, ◌≡◌, ◌≢◌, refl, sym, ap, ◌∙◌, inl, inr, ◌⊎◌, Bool, true, Option, none, some,
  List, [], ◌∷◌, ◌++◌, ◌==◌, if◌then◌else◌, length, arith, subst, ◌>>=◌,
}
use hft_feed_handler.Core.Types.{Venue, BookEvent}
use hft_feed_handler.Core.VenueArray.{at, put, at-put_self, at-put_ne}
use hft_feed_handler.Phase2.Tracker.{SequenceTracker, SequenceUpdate, new_tracker}
use hft_feed_handler.Phase2.Tracker.Release.{IsFirstFree}
use hft_feed_handler.Phase2.Tracker.Spec.{SequenceSet, Arrives, old, in_turn, early, far}
use hft_feed_handler.Phase2.Tracker.Refine.{Refines}
use hft_feed_handler.Phase2.Tracker.Arrive.{on_sequence-Refines}
use hft_feed_handler.Phase2.Tracker.Skip.{force_advance-Refines}
use hft_feed_handler.Phase2.Sequencer
use hft_feed_handler.Phase2.Tracker
use hft_feed_handler.Phase2.Sequencer.Laws.{trackers-on_sequence, update-on_sequence}
use hft_feed_handler.Phase2.Arbiter.{
  FeedSide, AbArbiter, AbArbiterResult, is_in_order, settle, accept, sort_events, won,
  on_event_within, on_event,
}
use hft_feed_handler.Phase2.Arbiter.Pending.{
  AllOf, AllOf-mono, AllOf-sort_events, length-sort_events, replay-Swept,
}
use hft_feed_handler.Phase2.Arbiter.Invariant.{
  of_venue, of_venue-append_self, of_venue-append_ne, Waits, Share, share, IsFair, Inv, Inv-at,
  IsFair-early, IsFair-skip, IsFair-deliver,
}

-- The arbiter behind its sequencer: the venue's tracker has moved.
abbrev sequenced : AbArbiter → Venue → SequenceTracker → AbArbiter
sequenced s v t = record s { sequencer = put s.sequencer v t }

-- What the arbiter has delivered after an event.
abbrev delivered : AbArbiter → BookEvent → Bool → List BookEvent
delivered s ev accepted = if accepted then s.ready ++ ev ∷ [] else s.ready

-- What an event makes of an arbiter.
pub record Arbitrated (last : ℕ) (s : AbArbiter) (ev : BookEvent) (accepted : Bool) (r : AbArbiter)
    : Type 0 where
  pub inv : Inv last r
  pub ready : r.ready ≡ delivered s ev accepted

abbrev pub shared : SequenceTracker → List BookEvent → List BookEvent → Share
shared t waiting out = record { tracker = t; waiting = waiting; delivered = out }

-- The loop's part: the event is delivered, and every pending event that is left waits.
accept-Arbitrated :
    (last : ℕ) (again : AbArbiter → BookEvent → Option AbArbiter) (side : FeedSide) (ev : BookEvent)
    (s : AbArbiter) (a : SequenceSet) (after : ℕ) (t : SequenceTracker)
    → Inv last s
    → IsFair last (share s ev.venue) a
    → ev.sequence ≡ a.next
    → IsFirstFree a.held (a.next + 1) after
    → Refines last t (record a { next = after })
    → (r : AbArbiter) × (accept again side ev (sequenced s ev.venue t) ≡ some r)
      × Arbitrated last s ev true r
unfolding accept Sequencer.next_expected
accept-Arbitrated last again side ev s a after t i fair turn first r =
    elim (cases (at s.pending ev.venue)) [
      | inl e ↦ (
        record (sequenced s ev.venue t) { ready = s.ready ++ ev ∷ []; stats = won s.stats side },
        rw (accept, e) refl,
        finished _ refl refl (λ w ne. refl) (subst (AllOf (Waits b)) (sym e) tt),
      )
      | inr (x, xs, e) ↦
          let start : AbArbiter = record (sequenced s ev.venue t) {
            ready = s.ready ++ ev ∷ [];
            stats = won s.stats side;
            pending = put s.pending ev.venue (sort_events (x ∷ xs));
          } in
          let here : at start.pending ev.venue ≡ sort_events (x ∷ xs) =
            at-put_self s.pending ev.venue (sort_events (x ∷ xs)) in
          let swept =
            replay-Swept (Waits b) again (suc (length (x ∷ xs))) ev
              (Sequencer.next_expected start.sequencer ev.venue) 0 start not_next
              (subst (AllOf (Waits b)) (sym here)
                (AllOf-sort_events (Waits b) (x ∷ xs) (subst (AllOf (Waits b)) e waiting)))
              (omega arith) (omega (arith, ap length here, length-sort_events (x ∷ xs))) in
          (
            swept.0,
            rw (accept, e) swept.1,
            finished swept.0 swept.2.sequencer swept.2.ready
                (λ w ne.
                  swept.2.others w ne ∙ at-put_ne s.pending ev.venue w (sort_events (x ∷ xs)) ne)
                swept.2.left,
          )
    ]
  where
    b : SequenceSet
    b = record a { next = after }

    cases :
        (xs : List BookEvent)
        → (xs ≡ []) ⊎ ((y : BookEvent) × (ys : List BookEvent) × (xs ≡ y ∷ ys))
    cases [] = inl refl
    cases (y ∷ ys) = inr (y, ys, refl)

    waiting : AllOf (Waits b) (at s.pending ev.venue)
    waiting =
        AllOf-mono (Waits a) (Waits b) (at s.pending ev.venue)
          (λ x h le. h (omega (arith, first.from))) fair.waits

    now_next : Sequencer.next_expected (put s.sequencer ev.venue t) ev.venue ≡ after
    now_next = ap (λ u. u.next_expected) (at-put_self s.sequencer ev.venue t) ∙ r.same_next

    not_next :
        (x : BookEvent)
        → Waits b x
        → x.sequence ≢ Sequencer.next_expected (put s.sequencer ev.venue t) ev.venue
    not_next x h e = held_and_free (e ∙ now_next)
      where
        held_and_free : x.sequence ≡ after → ⊥
        held_and_free same = ground (arith, h (omega arith), first.free, ap a.held same)

    finished :
        (q : AbArbiter)
        → q.sequencer ≡ put s.sequencer ev.venue t
        → q.ready ≡ s.ready ++ ev ∷ []
        → ((w : Venue) → ev.venue ≢ w → at q.pending w ≡ at s.pending w)
        → AllOf (Waits b) (at q.pending ev.venue)
        → Arbitrated last s ev true q
    finished q es er others left = record {
      inv =
          Inv-at last s q ev.venue b i
            (λ w ne j.
              shared ((ap (λ ts. at ts w) es ∙ at-put_ne s.sequencer ev.venue w t ne) j)
                (others w ne j) ((ap (of_venue w) er ∙ of_venue-append_ne w s.ready ev ne) j))
            (subst (λ sh. IsFair last sh b)
              (λ j.
                shared (sym (ap (λ ts. at ts ev.venue) es ∙ at-put_self s.sequencer ev.venue t) j)
                  (at q.pending ev.venue)
                  (sym (ap (of_venue ev.venue) er ∙ of_venue-append_self ev.venue s.ready ev refl)
                    j))
              (IsFair-deliver last (share s ev.venue) a after t ev (at q.pending ev.venue) fair turn
                (omega (arith, first.from)) r left));
      ready = er;
    }

-- An event that is not delivered may move its venue's tracker and change its pending events.
quiet :
    (last : ℕ) (s q : AbArbiter) (v : Venue) (t : SequenceTracker) (waiting : List BookEvent)
    (b : SequenceSet)
    → Inv last s
    → at q.sequencer v ≡ t
    → ((w : Venue) → v ≢ w → at q.sequencer w ≡ at s.sequencer w)
    → at q.pending v ≡ waiting
    → ((w : Venue) → v ≢ w → at q.pending w ≡ at s.pending w)
    → q.ready ≡ s.ready
    → IsFair last (shared t waiting (of_venue v s.ready)) b
    → Inv last q
quiet last s q v t waiting b i et ets ew ews er fair =
    Inv-at last s q v b i (λ w ne j. shared (ets w ne j) (ews w ne j) (of_venue w (er j)))
      (subst (λ sh. IsFair last sh b) (λ j. shared (sym et j) (sym ew j) (of_venue v (sym er j)))
        fair)

settle-Arbitrated :
    (last : ℕ) (again : AbArbiter → BookEvent → Option AbArbiter) (side : FeedSide) (ev : BookEvent)
    (s : AbArbiter) (a b : SequenceSet) (u : SequenceUpdate) (t : SequenceTracker)
    → Inv last s
    → IsFair last (share s ev.venue) a
    → ev.sequence ≤ last
    → Arrives a ev.sequence b u
    → Refines last t b
    → (r : AbArbiter) × (settle again side ev u.status (sequenced s ev.venue t) ≡ some r)
      × Arbitrated last s ev (is_in_order u.status) r
      × (is_in_order u.status ≡ (ev.sequence == a.next))
unfolding settle Sequencer.force_advance
settle-Arbitrated last again side ev s a _ _ t i fair sent (old h) r = (
  _,
  refl,
  record {
    inv =
        quiet last s _ ev.venue t (at s.pending ev.venue) a i (at-put_self s.sequencer ev.venue t)
          (λ w ne. at-put_ne s.sequencer ev.venue w t ne) refl (λ w ne. refl) refl
          (record { refines = r; waits = fair.waits; ascends = fair.ascends });
    ready = refl;
  },
  ground arith,
)
settle-Arbitrated last again side ev s a _ _ t i fair sent (in_turn after turn first) r =
    let done = accept-Arbitrated last again side ev s a after t i fair turn first r in
    (done.0, done.1, done.2, ground arith)
settle-Arbitrated last again side ev s a b _ t i fair sent (early lo hi) r = (
  _,
  refl,
  record {
    inv =
        quiet last s _ ev.venue t (at s.pending ev.venue ++ ev ∷ []) b i
          (at-put_self s.sequencer ev.venue t) (λ w ne. at-put_ne s.sequencer ev.venue w t ne)
          (at-put_self s.pending ev.venue _) (λ w ne. at-put_ne s.pending ev.venue w _ ne) refl
          (IsFair-early last (share s ev.venue) a t ev fair r);
    ready = refl;
  },
  ground arith,
)
settle-Arbitrated last again side ev s a _ _ t i fair sent (far h) r =
    let (b, skips, r₁) = force_advance-Refines last t a ev.sequence r (omega arith) in
    (
      _,
      refl,
      record {
        inv =
            quiet last s _ ev.venue (Tracker.force_advance t ev.sequence) (at s.pending ev.venue) b
              i
              (at-put_self (put s.sequencer ev.venue t) ev.venue _
                ∙ ap (λ q. Tracker.force_advance q ev.sequence)
                    (at-put_self s.sequencer ev.venue t))
              (λ w ne.
                at-put_ne (put s.sequencer ev.venue t) ev.venue w _ ne
                ∙ at-put_ne s.sequencer ev.venue w t ne)
              refl (λ w ne. refl) refl
              (IsFair-skip last (share s ev.venue) a b (Tracker.force_advance t ev.sequence)
                ev.sequence skips fair r₁);
        ready = refl;
      },
      ground arith,
    )

-- One event of either feed, in a session of sequences up to `last`: the call comes to an end and keeps
-- the invariant. It delivers the event, behind those delivered so far, exactly if its sequence is the
-- expected one of its venue; it delivers no other, also not those that waited for it.
pub on_event-Arbitrated :
    (last : ℕ) (side : FeedSide) (s : AbArbiter) (ev : BookEvent)
    → Inv last s
    → ev.sequence ≤ last
    → (r : AbArbiter) × (out : AbArbiterResult) × (on_event side s ev ≡ some (r, out))
      × Arbitrated last s ev out.accepted r
      × (out.accepted ≡ (ev.sequence == Sequencer.next_expected s.sequencer ev.venue))
unfolding on_event on_event_within Sequencer.next_expected
on_event-Arbitrated last side s ev i sent =
    let (a, fair) = i.venues ev.venue in
    let (b, arrives, r) =
      on_sequence-Refines last (at s.sequencer ev.venue) a ev.sequence fair.refines sent in
    let done = settle-Arbitrated last again side ev s a b _ _ i fair sent arrives r in
    rw
      (
        ap (λ u. u.status)
            (update-on_sequence {H = Unit {0}} none s.sequencer tt ev.venue ev.sequence),
        trackers-on_sequence {H = Unit {0}} none s.sequencer tt ev.venue ev.sequence,
        done.1,
      )
      (done.0, _, refl, done.2, done.3 ∙ ap (λ n. ev.sequence == n) (sym fair.refines.same_next))
  where
    again : AbArbiter → BookEvent → Option AbArbiter
    again s₁ x = do q ← on_event_within (length (at s.pending ev.venue)) side s₁ x; some q.0
