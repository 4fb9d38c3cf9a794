-- ===== src/Phase2/Merger/Drain.antt =====
-- The loop `while (merger_.pop_next(ev))` of src/phase2/pipeline.cpp, `Pipeline::finalize`: and the
-- order in which it delivers.
use hft_feed_handler.Common.{ℕ, zero, suc, Option, none, some, List, [], ◌∷◌, subst}
use hft_feed_handler.Core.Types.{Venue, BookEvent}
use hft_feed_handler.Core.VenueArray.{VenueArray, at, put, at-put_self, at-put_ne, Venue-discrete}
use hft_feed_handler.Phase2.Merger.{DeterministicMerger, pop_next}
use hft_feed_handler.Phase2.Merger.Order.{NotAfter}
use hft_feed_handler.Phase2.Merger.Select.{Leads, Pops, nothing, front, pop_next-Pops}

unfoldable pub deliver :
    DeterministicMerger × Option BookEvent
    → DeterministicMerger × List BookEvent
    → DeterministicMerger × List BookEvent
deliver (m', none) rest = (m', [])
deliver (m', some e) (last, es) = (last, e ∷ es)

-- The loop on fuel: the merger that it leaves, and the events in the order of their delivery.
unfoldable pub drain : ℕ → DeterministicMerger → DeterministicMerger × List BookEvent
unfolding deliver
drain zero m = (m, [])
drain (suc fuel) m = let rest = drain fuel (pop_next m).0 in deliver (pop_next m) rest

-- Each event stands no earlier than the one before it.
abbrev pub SortedFrom : BookEvent → List BookEvent → Type 0
SortedFrom e [] = Unit {0}
SortedFrom e (x ∷ xs) = NotAfter e x × SortedFrom x xs

abbrev pub Sorted : List BookEvent → Type 0
Sorted [] = Unit {0}
Sorted (x ∷ xs) = SortedFrom x xs

Sorted-tail : (e : BookEvent) (xs : List BookEvent) → SortedFrom e xs → Sorted xs
Sorted-tail e [] h = tt
Sorted-tail e (x ∷ xs) h = h.1

Leads-tail : (e : BookEvent) (xs : List BookEvent) → SortedFrom e xs → Leads e xs
Leads-tail e [] h = tt
Leads-tail e (x ∷ xs) h = h.0

-- A property of every queue survives at the venue that changes if it holds of the new queue.
all-put :
    (P : List BookEvent → Type 0) (q : VenueArray (List BookEvent)) (v w : Venue)
    (rest : List BookEvent)
    → P rest
    → P (at q w)
    → P (at (put q v rest) w)
all-put P q v w rest hr hw = elim (Venue-discrete v w) [
  | yes e ↦ subst (λ u. P (at (put q v rest) u)) e (rw (at-put_self q v rest) hr)
  | no e ↦ rw (at-put_ne q v w rest e) hw
]

-- The next front is delivered in order, and what remains stays sorted behind it.
deliver-SortedFrom :
    (fuel : ℕ) (m : DeterministicMerger) (e : BookEvent)
    (r : DeterministicMerger × Option BookEvent)
    → Pops m r
    → ((v : Venue) → Sorted (at m.queues v))
    → ((v : Venue) → Leads e (at m.queues v))
    → ((n : DeterministicMerger) (x : BookEvent)
        → ((v : Venue) → Sorted (at n.queues v))
        → ((v : Venue) → Leads x (at n.queues v))
        → SortedFrom x (drain fuel n).1)
    → SortedFrom e (deliver r (drain fuel r.0)).1
unfolding deliver
deliver-SortedFrom fuel m e _ (nothing h) s l ih = tt
deliver-SortedFrom fuel m e _ (front v x rest p lead) s l ih = (
  subst (Leads e) p (l v),
  ih (record m { queues = put m.queues v rest }) x
      (λ w. all-put Sorted m.queues v w rest (Sorted-tail x rest behind) (s w))
      (λ w. all-put (Leads x) m.queues v w rest (Leads-tail x rest behind) (lead w)),
)
  where
    behind : SortedFrom x rest
    behind = subst Sorted p (s v)

drain-SortedFrom :
    (fuel : ℕ) (m : DeterministicMerger) (e : BookEvent)
    → ((v : Venue) → Sorted (at m.queues v))
    → ((v : Venue) → Leads e (at m.queues v))
    → SortedFrom e (drain fuel m).1
unfolding drain
drain-SortedFrom zero m e s l = tt
drain-SortedFrom (suc fuel) m e s l =
    deliver-SortedFrom fuel m e (pop_next m) (pop_next-Pops m) s l (drain-SortedFrom fuel)

deliver-Sorted :
    (fuel : ℕ) (m : DeterministicMerger) (r : DeterministicMerger × Option BookEvent)
    → Pops m r
    → ((v : Venue) → Sorted (at m.queues v))
    → Sorted (deliver r (drain fuel r.0)).1
unfolding deliver
deliver-Sorted fuel m _ (nothing h) s = tt
deliver-Sorted fuel m _ (front v x rest p lead) s =
    drain-SortedFrom fuel (record m { queues = put m.queues v rest }) x
      (λ w. all-put Sorted m.queues v w rest (Sorted-tail x rest behind) (s w))
      (λ w. all-put (Leads x) m.queues v w rest (Leads-tail x rest behind) (lead w))
  where
    behind : SortedFrom x rest
    behind = subst Sorted p (s v)

-- If each venue's queue is in order, the merged delivery is: by time, venue, sequence and raw type.
pub drain-Sorted :
    (fuel : ℕ) (m : DeterministicMerger)
    → ((v : Venue) → Sorted (at m.queues v))
    → Sorted (drain fuel m).1
unfolding drain
drain-Sorted zero m s = tt
drain-Sorted (suc fuel) m s = deliver-Sorted fuel m (pop_next m) (pop_next-Pops m) s
