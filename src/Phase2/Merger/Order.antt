-- ===== src/Phase2/Merger/Order.antt =====
-- `less_event` orders events by time, venue, sequence and raw type, in this order.
use hft_feed_handler.Common.{◌≡◌, ◌<◌, ◌≤◌, ◌⊎◌, true, false, arith}
use hft_feed_handler.Core.Types.{BookEvent, venue_to_u8}
use hft_feed_handler.Phase2.Merger.{less_event}

-- `a` does not come after `b`: it has the lower time, or at the same time the lower venue, or at the same
-- venue the lower sequence, or at the same sequence no higher raw type.
abbrev pub NotAfter : BookEvent → BookEvent → Type 0
NotAfter a b =
    (a.exchange_ts_ns < b.exchange_ts_ns)
    ⊎ ((a.exchange_ts_ns ≡ b.exchange_ts_ns)
        × ((venue_to_u8 a.venue < venue_to_u8 b.venue)
            ⊎ ((venue_to_u8 a.venue ≡ venue_to_u8 b.venue)
                × ((a.sequence < b.sequence)
                    ⊎ ((a.sequence ≡ b.sequence) × (a.raw_type ≤ b.raw_type))))))

pub NotAfter-refl : (a : BookEvent) → NotAfter a a
NotAfter-refl a = ground arith

pub NotAfter-trans : (a b c : BookEvent) → NotAfter a b → NotAfter b c → NotAfter a c
NotAfter-trans a b c p q = ground arith

-- An event that is less does not come after the other,
pub less_event-true : (a b : BookEvent) → less_event a b ≡ true → NotAfter a b
unfolding less_event
less_event-true a b h = ground arith

-- and one that is not less does not come before it.
pub less_event-false : (a b : BookEvent) → less_event a b ≡ false → NotAfter b a
unfolding less_event
less_event-false a b h = ground arith
