-- ===== src/Phase2/Arbiter/Invariant.antt =====
-- src/phase2/ab_arbiter.cpp: what the arbiter keeps true for each venue.
use hft_feed_handler.Common.{
  ℕ, ◌≤◌, ◌<◌, ◌≡◌, ◌≢◌, refl, sym, ap, ◌∙◌, true, List, [], ◌∷◌, ◌++◌, ◌==◌, ◌||◌, arith, subst,
}
use hft_feed_handler.Core.Types.{Venue, BookEvent}
use hft_feed_handler.Core.VenueArray.{at, Venue-discrete}
use hft_feed_handler.Phase2.Tracker.{SequenceTracker}
use hft_feed_handler.Phase2.Tracker.Spec.{SequenceSet, Skips, behind, ahead}
use hft_feed_handler.Phase2.Tracker.Refine.{Refines}
use hft_feed_handler.Phase2.Pipeline.Release.{Ascends, Ascends-append, Ascends-mono}
use hft_feed_handler.Phase2.Arbiter.{AbArbiter}
use hft_feed_handler.Phase2.Arbiter.Pending.{AllOf, AllOf-mono, AllOf-append_one}

-- The events of a venue, in their order.
abbrev keep_if : {v w : Venue} → Dec (v ≡ w) → BookEvent → List BookEvent → List BookEvent
keep_if (yes e) x xs = x ∷ xs
keep_if (no ne) x xs = xs

unfoldable pub of_venue : Venue → List BookEvent → List BookEvent
of_venue v [] = []
of_venue v (x ∷ xs) = keep_if (Venue-discrete x.venue v) x (of_venue v xs)

keep_if-append :
    (v w : Venue) (d : Dec (w ≡ v)) (y x : BookEvent) (xs : List BookEvent)
    → keep_if d y (xs ++ x ∷ []) ≡ keep_if d y xs ++ x ∷ []
keep_if-append v w (yes e) y x xs = refl
keep_if-append v w (no ne) y x xs = refl

keep_if_yes : (v w : Venue) (d : Dec (w ≡ v)) (x : BookEvent) → w ≡ v → keep_if d x [] ≡ x ∷ []
keep_if_yes v w (yes p) x e = refl
keep_if_yes v w (no ne) x e = absurd (ne e)

keep_if_no : (v w : Venue) (d : Dec (w ≡ v)) (x : BookEvent) → w ≢ v → keep_if d x [] ≡ []
keep_if_no v w (yes p) x h = absurd (h p)
keep_if_no v w (no ne) x h = refl

pub of_venue-append_self :
    (v : Venue) (xs : List BookEvent) (x : BookEvent)
    → x.venue ≡ v
    → of_venue v (xs ++ x ∷ []) ≡ of_venue v xs ++ x ∷ []
unfolding of_venue
of_venue-append_self v [] x e = keep_if_yes v x.venue (Venue-discrete x.venue v) x e
of_venue-append_self v (y ∷ xs) x e =
    ap (keep_if (Venue-discrete y.venue v) y) (of_venue-append_self v xs x e)
    ∙ keep_if-append v y.venue (Venue-discrete y.venue v) y x (of_venue v xs)

pub of_venue-append_ne :
    (v : Venue) (xs : List BookEvent) (x : BookEvent)
    → x.venue ≢ v
    → of_venue v (xs ++ x ∷ []) ≡ of_venue v xs
unfolding of_venue
of_venue-append_ne v [] x h = keep_if_no v x.venue (Venue-discrete x.venue v) x h
of_venue-append_ne v (y ∷ xs) x h =
    ap (keep_if (Venue-discrete y.venue v) y) (of_venue-append_ne v xs x h)

-- A pending event that is not behind its venue's tracker is held there.
abbrev pub Waits : SequenceSet → BookEvent → Type 0
Waits a x = a.next ≤ x.sequence → a.held x.sequence ≡ true

-- The part of an arbiter that belongs to a venue.
pub record Share : Type 0 where
  pub tracker : SequenceTracker
  pub waiting : List BookEvent
  pub delivered : List BookEvent

abbrev pub share : AbArbiter → Venue → Share
share s v = record {
  tracker = at s.sequencer v;
  waiting = at s.pending v;
  delivered = of_venue v s.ready;
}

-- One venue: its tracker stands for the set `a`, its pending events are held there or passed, and the
-- delivered ones ascend and are passed.
pub record IsFair (last : ℕ) (s : Share) (a : SequenceSet) : Type 0 where
  pub refines : Refines last s.tracker a
  pub waits : AllOf (Waits a) s.waiting
  pub ascends : Ascends 0 s.delivered a.next

-- In a session of sequences up to `last`, so with every venue.
pub record Inv (last : ℕ) (s : AbArbiter) : Type 0 where
  pub venues : (v : Venue) → (a : SequenceSet) × IsFair last (share s v) a

-- A change of one venue.
pub Inv-at :
    (last : ℕ) (s r : AbArbiter) (v : Venue) (a : SequenceSet)
    → Inv last s
    → ((w : Venue) → v ≢ w → share r w ≡ share s w)
    → IsFair last (share r v) a
    → Inv last r
Inv-at last s r v a i same fair = record {
  venues = λ w. elim (Venue-discrete v w) [
    | yes e ↦ subst (λ w'. (b : SequenceSet) × IsFair last (share r w') b) e (a, fair)
    | no ne ↦ let (b, k) = i.venues w in (b, subst (λ sh. IsFair last sh b) (sym (same w ne)) k)
  ];
}

-- An early event is held and waits.
pub IsFair-early :
    (last : ℕ) (sh : Share) (a : SequenceSet) (t : SequenceTracker) (ev : BookEvent)
    → IsFair last sh a
    → Refines last t (record a { held = λ s. ev.sequence == s || a.held s })
    → IsFair last
        (record sh { tracker = t; waiting = sh.waiting ++ ev ∷ [] })
        (record a { held = λ s. ev.sequence == s || a.held s })
IsFair-early last sh a t ev k r = record {
  refines = r;
  waits =
      AllOf-append_one (Waits (record a { held = λ s. ev.sequence == s || a.held s })) sh.waiting ev
        (AllOf-mono (Waits a) _ sh.waiting (λ x h le. ground (arith, h le)) k.waits)
        (λ le. ground arith);
  ascends = k.ascends;
}

-- A gap that is skipped.
pub IsFair-skip :
    (last : ℕ) (sh : Share) (a b : SequenceSet) (t : SequenceTracker) (seq : ℕ)
    → Skips a seq b
    → IsFair last sh a
    → Refines last t b
    → IsFair last (record sh { tracker = t }) b
IsFair-skip last sh a b t seq (behind le) k r = record {
  refines = r;
  waits = k.waits;
  ascends = k.ascends;
}
IsFair-skip last sh a _ t seq (ahead lt) k r = record {
  refines = r;
  waits = AllOf-mono (Waits a) _ sh.waiting (λ x h le. h (omega arith)) k.waits;
  ascends = Ascends-mono 0 sh.delivered a.next seq k.ascends (omega arith);
}

-- An event in order is delivered.
pub IsFair-deliver :
    (last : ℕ) (sh : Share) (a : SequenceSet) (after : ℕ) (t : SequenceTracker) (ev : BookEvent)
    (left : List BookEvent)
    → IsFair last sh a
    → ev.sequence ≡ a.next
    → a.next < after
    → Refines last t (record a { next = after })
    → AllOf (Waits (record a { next = after })) left
    → IsFair last
        (record { tracker = t; waiting = left; delivered = sh.delivered ++ ev ∷ [] })
        (record a { next = after })
IsFair-deliver last sh a after t ev left k turn up r waits = record {
  refines = r;
  waits = waits;
  ascends = Ascends-append 0 sh.delivered a.next after ev k.ascends (omega arith) (omega arith);
}
