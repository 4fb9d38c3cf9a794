-- ===== src/Phase2/Arbiter.antt =====
-- src/phase2/ab_arbiter.cpp, `AbArbiter`: the first of two redundant feeds wins. Its sequencer has no
-- recovery handler. `none` stands for a run out of fuel.
pub mod Pending
pub mod Invariant
pub mod Event
pub mod Session
use hft_feed_handler.Common.{
  ℕ, zero, suc, ◌+◌, Bool, true, false, Option, none, some, List, [], ◌∷◌, ◌++◌, ltb, ◌==◌,
  if◌then◌else◌, length, take, drop, ◌>>=◌,
}
use hft_feed_handler.Core.Types.{BookEvent}
use hft_feed_handler.Core.VenueArray.{VenueArray, fill, at, put}
use hft_feed_handler.Phase2.Tracker.{
  SequenceStatus, in_order, duplicate_or_old, gap_buffered, gap_too_large, inc64,
}
use hft_feed_handler.Phase2.Recovery.{RecoveryRequest}
use hft_feed_handler.Phase2.Sequencer.{Trackers, new_trackers, next_expected}
use hft_feed_handler.Phase2.Sequencer

pub data FeedSide : Type 0 where
  feed_a feed_b : FeedSide

pub record AbArbiterStats : Type 0 where
  pub accepted : ℕ
  pub accepted_a : ℕ
  pub accepted_b : ℕ
  pub duplicate_or_old : ℕ
  pub gap_buffered : ℕ
  pub gap_too_large : ℕ
  pub forced_advances : ℕ

pub record AbArbiterResult : Type 0 where
  pub accepted : Bool
  pub status : SequenceStatus
  pub recovery : Option RecoveryRequest

pub record AbArbiter : Type 0 where
  pub sequencer : Trackers
  pub pending : VenueArray (List BookEvent)
  pub ready : List BookEvent
  pub stats : AbArbiterStats

abbrev pub new_stats : AbArbiterStats
new_stats = record {
  accepted = 0;
  accepted_a = 0;
  accepted_b = 0;
  duplicate_or_old = 0;
  gap_buffered = 0;
  gap_too_large = 0;
  forced_advances = 0;
}

unfoldable pub new_arbiter : ℕ → AbArbiter
new_arbiter gap_window = record {
  sequencer = new_trackers gap_window;
  pending = fill [];
  ready = [];
  stats = new_stats;
}

-- `std::sort` by sequence.
unfoldable pub insert_event : BookEvent → List BookEvent → List BookEvent
insert_event ev [] = ev ∷ []
insert_event ev (x ∷ xs) =
    let behind = insert_event ev xs in
    if ltb x.sequence ev.sequence then x ∷ behind else ev ∷ x ∷ xs

unfoldable pub sort_events : List BookEvent → List BookEvent
unfolding insert_event
sort_events [] = []
sort_events (x ∷ xs) = insert_event x (sort_events xs)

-- `pend.erase(it)` at an index, and the element there.
unfoldable pub erase_at : List BookEvent → ℕ → List BookEvent
erase_at [] i = []
erase_at (x ∷ xs) zero = xs
erase_at (x ∷ xs) (suc i) = x ∷ erase_at xs i

unfoldable pub element : List BookEvent → ℕ → Option BookEvent
element [] i = none
element (x ∷ xs) zero = some x
element (x ∷ xs) (suc i) = element xs i

abbrev pub with_pending : AbArbiter → BookEvent → List BookEvent → AbArbiter
with_pending s ev pend = record s { pending = put s.pending ev.venue pend }

-- The loop over the pending events, where `it` is an index and `again` is the call of `on_event` for
-- an event whose turn has come.
unfoldable pub replay :
    (AbArbiter → BookEvent → Option AbArbiter)
    → ℕ
    → BookEvent
    → ℕ
    → ℕ
    → AbArbiter
    → Option AbArbiter
replay again zero ev next it s = none
replay again (suc fuel) ev next it s =
    let pend = at s.pending ev.venue in
    let erased = with_pending s ev (erase_at pend it) in
    elim (element pend it) [
      | none ↦ some s
      | some x ↦
          let old = replay again fuel ev next it erased in
          let turn = (do s₁ ← again erased x; replay again fuel ev next it s₁) in
          let later = replay again fuel ev next (it + 1) s in
          if ltb x.sequence next then old else if x.sequence == next then turn else later
    ]

abbrev pub won : AbArbiterStats → FeedSide → AbArbiterStats
won st feed_a = record st { accepted = inc64 st.accepted; accepted_a = inc64 st.accepted_a }
won st feed_b = record st { accepted = inc64 st.accepted; accepted_b = inc64 st.accepted_b }

-- The path of an event in order.
unfoldable pub accept :
    (AbArbiter → BookEvent → Option AbArbiter) → FeedSide → BookEvent → AbArbiter → Option AbArbiter
unfolding replay sort_events
accept again side ev s =
    let s₁ = record s { ready = s.ready ++ ev ∷ []; stats = won s.stats side } in
    elim (at s.pending ev.venue) [
      | [] ↦ some s₁
      | x ∷ xs ↦
          replay again (suc (length (x ∷ xs))) ev (next_expected s₁.sequencer ev.venue) 0
            (with_pending s₁ ev (sort_events (x ∷ xs)))
    ]

-- What a status makes of an event.
unfoldable pub settle :
    (AbArbiter → BookEvent → Option AbArbiter)
    → FeedSide
    → BookEvent
    → SequenceStatus
    → AbArbiter
    → Option AbArbiter
unfolding accept
settle again side ev duplicate_or_old s =
    some (record s { stats = record s.stats { duplicate_or_old = inc64 s.stats.duplicate_or_old } })
settle again side ev gap_buffered s = some (record s {
  pending = put s.pending ev.venue (at s.pending ev.venue ++ ev ∷ []);
  stats = record s.stats { gap_buffered = inc64 s.stats.gap_buffered };
})
settle again side ev gap_too_large s = some (record s {
  sequencer = Sequencer.force_advance s.sequencer ev.venue ev.sequence;
  stats = record s.stats {
    gap_too_large = inc64 s.stats.gap_too_large;
    forced_advances = inc64 s.stats.forced_advances;
  };
})
settle again side ev in_order s = accept again side ev s

abbrev pub is_in_order : SequenceStatus → Bool
is_in_order in_order = true
is_in_order duplicate_or_old = false
is_in_order gap_buffered = false
is_in_order gap_too_large = false

-- The call, nested at most as deep as the fuel.
unfoldable pub on_event_within :
    ℕ → FeedSide → AbArbiter → BookEvent → Option (AbArbiter × AbArbiterResult)
unfolding settle
on_event_within zero side s ev = none
on_event_within (suc fuel) side s ev =
    let again : AbArbiter → BookEvent → Option AbArbiter =
      λ s₁ x. (do r ← on_event_within fuel side s₁ x; some r.0) in
    let (ts, u, r) =
      Sequencer.on_sequence {H = Unit {0}} none s.sequencer tt ev.venue ev.sequence in
    do
      s₁ ← settle again side ev r.update.status (record s { sequencer = ts })
      some (
        s₁,
        record {
          accepted = is_in_order r.update.status;
          status = r.update.status;
          recovery = r.recovery;
        },
      )

-- Each nested call has one pending event less.
unfoldable pub on_event : FeedSide → AbArbiter → BookEvent → Option (AbArbiter × AbArbiterResult)
unfolding on_event_within
on_event side s ev = on_event_within (suc (length (at s.pending ev.venue))) side s ev

unfoldable pub drain_ready : AbArbiter → AbArbiter × List BookEvent
drain_ready s = (record s { ready = [] }, s.ready)
