-- ===== src/Phase2/Merger.antt =====
-- src/phase2/deterministic_merger.cpp: one queue for each venue, and the earliest front of them all.
pub mod Order
pub mod Select
pub mod Drain
pub mod Conserve
use hft_feed_handler.Common.{
  ℕ, zero, suc, ◌+◌, Bool, true, false, not, Option, none, some, List, [], ◌∷◌, ◌++◌, ◌==◌, ltb,
  if◌then◌else◌, length,
}
use hft_feed_handler.Core.Types.{Venue, BookEvent, venue_to_u8}
use hft_feed_handler.Core.VenueArray.{VenueArray, fill, at, put, all_venues}

pub record DeterministicMerger : Type 0 where
  pub per_venue_capacity : ℕ
  pub queues : VenueArray (List BookEvent)

unfoldable pub new_merger : ℕ → DeterministicMerger
new_merger per_venue_capacity = record { per_venue_capacity = per_venue_capacity; queues = fill [] }

unfoldable pub less_event : BookEvent → BookEvent → Bool
unfolding venue_to_u8
less_event a b =
    if not (a.exchange_ts_ns == b.exchange_ts_ns)
    then ltb a.exchange_ts_ns b.exchange_ts_ns
    else if not (venue_to_u8 a.venue == venue_to_u8 b.venue)
    then ltb (venue_to_u8 a.venue) (venue_to_u8 b.venue)
    else if not (a.sequence == b.sequence)
    then ltb a.sequence b.sequence
    else ltb a.raw_type b.raw_type

-- The capacity is a hint: a push is never refused.
unfoldable pub push : DeterministicMerger → BookEvent → DeterministicMerger × Bool
push m ev = (record m { queues = put m.queues ev.venue (at m.queues ev.venue ++ ev ∷ []) }, true)

-- `less_event(candidate, queue.front())`. The loop asks it of non-empty queues only.
beats : BookEvent → List BookEvent → Bool
beats candidate [] = false
beats candidate (front ∷ rest) = less_event candidate front

-- One round of the loop of `pop_next`; no best index yet is `none`.
consider : VenueArray (List BookEvent) → Venue → Option Venue → List BookEvent → Option Venue
unfolding beats
consider queues v best [] = best
consider queues v none (front ∷ rest) = some v
consider queues v (some b) (front ∷ rest) = if beats front (at queues b) then some v else some b

best_index : VenueArray (List BookEvent) → List Venue → Option Venue → Option Venue
unfolding consider
best_index queues [] best = best
best_index queues (v ∷ vs) best = best_index queues vs (consider queues v best (at queues v))

take_front : DeterministicMerger → Venue → List BookEvent → DeterministicMerger × Option BookEvent
take_front m v [] = (m, none)
take_front m v (front ∷ rest) = (record m { queues = put m.queues v rest }, some front)

-- The result is the value returned through `out`, or `none` where it returns false.
unfoldable pub pop_next : DeterministicMerger → DeterministicMerger × Option BookEvent
unfolding best_index take_front less_event
pop_next m = elim (best_index m.queues all_venues none) [
  | none ↦ (m, none)
  | some v ↦ take_front m v (at m.queues v)
]

unfoldable pub queued_count : DeterministicMerger → ℕ
queued_count m =
    length m.queues.nasdaq_slot
    + length m.queues.iex_slot
    + length m.queues.cboe_slot
    + length m.queues.cme_slot
    + length m.queues.bitfinex_slot
