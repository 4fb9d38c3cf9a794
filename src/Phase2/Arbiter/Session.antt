-- ===== src/Phase2/Arbiter/Session.antt =====
-- src/phase2/ab_arbiter.cpp: a whole session of both feeds.
use hft_feed_handler.Common.{
  ℕ, ◌+◌, ◌≤◌, ◌<◌, ◌≡◌, refl, sym, Option, some, List, [], ◌∷◌, arith, subst, u64_mod, ◌>>=◌,
}
use hft_feed_handler.Core.Types.{Venue, BookEvent, nasdaq, iex, cboe, cme, bitfinex}
use hft_feed_handler.Phase2.Tracker.{new_tracker}
use hft_feed_handler.Phase2.Tracker.Refine.{new_tracker-Refines, empty_set}
use hft_feed_handler.Phase2.Pipeline.Release.{Ascends}
use hft_feed_handler.Phase2.Sequencer
use hft_feed_handler.Phase2.Arbiter.{FeedSide, AbArbiter, new_arbiter, on_event}
use hft_feed_handler.Phase2.Arbiter.Event.{on_event-Arbitrated, shared}
use hft_feed_handler.Phase2.Arbiter.Invariant.{of_venue, share, IsFair, Inv}

pub new_arbiter-Inv :
    (last window : ℕ) → last + 1 < u64_mod → window + 3 < u64_mod → Inv last (new_arbiter window)
unfolding new_arbiter Sequencer.new_trackers of_venue
new_arbiter-Inv last window small room = record {
  venues = λ v.
      (empty_set window, subst (λ sh. IsFair last sh (empty_set window)) (sym (new_share v)) fair);
}
  where
    new_share : (v : Venue) → share (new_arbiter window) v ≡ shared (new_tracker window) [] []
    new_share nasdaq = refl
    new_share iex = refl
    new_share cboe = refl
    new_share cme = refl
    new_share bitfinex = refl

    fair : IsFair last (shared (new_tracker window) [] []) (empty_set window)
    fair = record {
      refines = new_tracker-Refines last window small room;
      waits = tt;
      ascends = omega arith;
    }

-- Both feeds' events in the order in which they arrive.
unfoldable pub on_events : AbArbiter → List (FeedSide × BookEvent) → Option AbArbiter
on_events s [] = some s
on_events s ((side, ev) ∷ es) = do r ← on_event side s ev; on_events r.0 es

abbrev pub ArriveUpTo : ℕ → List (FeedSide × BookEvent) → Type 0
ArriveUpTo last [] = Unit {0}
ArriveUpTo last ((side, ev) ∷ es) = (ev.sequence ≤ last) × ArriveUpTo last es

on_events_from-Inv :
    (last : ℕ) (es : List (FeedSide × BookEvent)) (s : AbArbiter)
    → Inv last s
    → ArriveUpTo last es
    → (r : AbArbiter) × (on_events s es ≡ some r) × Inv last r
unfolding on_events
on_events_from-Inv last [] s i all = (s, refl, i)
on_events_from-Inv last ((side, ev) ∷ es) s i (sent, all) =
    let (s₁, out, e, done, turn) = on_event-Arbitrated last side s ev i sent in
    let rest = on_events_from-Inv last es s₁ done.inv all in (rest.0, rw (e, rest.1) refl, rest.2)

-- However the events of two feeds interleave and repeat, with sequences up to `last`, a new arbiter
-- handles them all, and those of a venue are delivered in strictly ascending order, below the sequence
-- that its tracker expects: none twice, whichever feed brought it first.
pub on_events-Ascends :
    (last window : ℕ) (es : List (FeedSide × BookEvent)) (v : Venue)
    → last + 1 < u64_mod
    → window + 3 < u64_mod
    → ArriveUpTo last es
    → (r : AbArbiter) × (on_events (new_arbiter window) es ≡ some r)
      × Ascends 0 (of_venue v r.ready) (Sequencer.next_expected r.sequencer v)
unfolding Sequencer.next_expected
on_events-Ascends last window es v small room all =
    let (r, e, i) =
      on_events_from-Inv last es (new_arbiter window) (new_arbiter-Inv last window small room)
        all in
    let (a, fair) = i.venues v in
    (r, e, subst (Ascends 0 (of_venue v r.ready)) (sym fair.refines.same_next) fair.ascends)
