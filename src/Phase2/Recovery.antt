-- ===== src/Phase2/Recovery.antt =====
-- include/mf/phase2/recovery.hpp and src/phase2/recovery_simulator.cpp: the requests that a gap leads
-- to, the store of recent events, and the simulator that answers requests from the store.
pub mod Store
use hft_feed_handler.Common.{
  ℕ, zero, suc, ◌+◌, ◌-◌, Option, none, some, List, [], ◌∷◌, ◌++◌, ◌==◌, ltb, if◌then◌else◌, length,
  get_elem?, lower_bound, Bool,
}
use hft_feed_handler.Core.Types.{Venue, BookEvent}
use hft_feed_handler.Core.VenueArray.{VenueArray, fill, at, put}
use hft_feed_handler.Phase2.Tracker.{GapRange, inc64}

pub data RecoveryReason : Type 0 where
  gap_detected gap_too_large : RecoveryReason

pub record RecoveryRequest : Type 0 where
  pub venue : Venue
  pub missing : GapRange
  pub reason : RecoveryReason

pub record ReplayRecoveryStore : Type 0 where
  pub max_events_per_venue : ℕ
  pub by_venue : VenueArray (List BookEvent)

abbrev pub new_store : ℕ → ReplayRecoveryStore
new_store max_events = record { max_events_per_venue = max_events; by_venue = fill [] }

-- `while (q.size() > max_events_per_venue_) q.pop_front();`
trim : ℕ → List BookEvent → List BookEvent
trim max_events [] = []
trim max_events (e ∷ q) =
    let rest = trim max_events q in if ltb max_events (length (e ∷ q)) then rest else e ∷ q

unfoldable pub record_event : ReplayRecoveryStore → BookEvent → ReplayRecoveryStore
unfolding trim
record_event s ev = record s {
  by_venue =
      put s.by_venue ev.venue (trim s.max_events_per_venue (at s.by_venue ev.venue ++ ev ∷ []));
}

-- `while (!q.empty() && q.front().sequence < min_sequence_to_keep) q.pop_front();`
drop_before : ℕ → List BookEvent → List BookEvent
drop_before min_sequence [] = []
drop_before min_sequence (e ∷ q) =
    let rest = drop_before min_sequence q in if ltb e.sequence min_sequence then rest else e ∷ q

unfoldable pub evict_before : ReplayRecoveryStore → Venue → ℕ → ReplayRecoveryStore
unfolding drop_before
evict_before s venue min_sequence = record s {
  by_venue = put s.by_venue venue (drop_before min_sequence (at s.by_venue venue));
}

abbrev pub earlier_than : ℕ → BookEvent → Bool
earlier_than seq ev = ltb ev.sequence seq

-- `it != q.end() && it->sequence == sequence`, for the element at the lower bound.
hit : ℕ → Option BookEvent → Option BookEvent
hit seq none = none
hit seq (some e) = if e.sequence == seq then some e else none

unfoldable pub lookup : ReplayRecoveryStore → Venue → ℕ → Option BookEvent
unfolding hit
lookup s venue seq =
    let q = at s.by_venue venue in hit seq (get_elem? q (lower_bound (earlier_than seq) q))

-- `ReplayRecoverySimulator`; the store that it points to is an argument of `request_recovery`.
pub record ReplayRecoverySimulator : Type 0 where
  pub pending_recovered : List BookEvent
  pub requests_total : ℕ
  pub recovered_events_total : ℕ

abbrev pub new_simulator : ReplayRecoverySimulator
new_simulator = record { pending_recovered = []; requests_total = 0; recovered_events_total = 0 }

recovered : ReplayRecoverySimulator → Option BookEvent → ReplayRecoverySimulator
recovered sim none = sim
recovered sim (some e) = record sim {
  pending_recovered = sim.pending_recovered ++ e ∷ [];
  recovered_events_total = inc64 sim.recovered_events_total;
}

-- The loop over the missing range: `rounds` sequences from `seq` on.
recover_range :
    ReplayRecoveryStore → Venue → ℕ → ℕ → ReplayRecoverySimulator → ReplayRecoverySimulator
unfolding recovered
recover_range store venue zero seq sim = sim
recover_range store venue (suc rounds) seq sim =
    recover_range store venue rounds (seq + 1) (recovered sim (lookup store venue seq))

-- By the reason: large spans are not looked up.
answer :
    RecoveryReason
    → ReplayRecoveryStore
    → RecoveryRequest
    → ReplayRecoverySimulator
    → ReplayRecoverySimulator
unfolding recover_range
answer gap_too_large store req sim = sim
answer gap_detected store req sim =
    recover_range store req.venue (suc req.missing.end - req.missing.begin) req.missing.begin sim

-- A null store is `none`.
unfoldable pub request_recovery :
    Option ReplayRecoveryStore → RecoveryRequest → ReplayRecoverySimulator → ReplayRecoverySimulator
unfolding answer
request_recovery store req sim =
    let sim' = record sim { requests_total = inc64 sim.requests_total } in
    elim store [ none ↦ sim' | some s ↦ answer req.reason s req sim' ]

unfoldable pub drain_recovered : ReplayRecoverySimulator → ReplayRecoverySimulator × List BookEvent
drain_recovered sim = (record sim { pending_recovered = [] }, sim.pending_recovered)
