-- ===== src/Phase2/Merger/Conserve.antt =====
-- The final loop of `Pipeline::finalize` delivers what is queued, all of it and nothing else, and ends.
use mathlib.Core.List.{Perm, perm_middle}
use mathlib.Core.List.Perm
use hft_feed_handler.Common.{
  ℕ, zero, suc, ◌<◌, ◌≡◌, ap, Option, List, [], ◌∷◌, ◌++◌, arith, length, length-append,
}
use hft_feed_handler.Core.Types.{Venue, BookEvent, nasdaq, iex, cboe, cme, bitfinex}
use hft_feed_handler.Core.VenueArray.{VenueArray, at, put, fill}
use hft_feed_handler.Phase2.Merger.{DeterministicMerger, pop_next, queued_count}
use hft_feed_handler.Phase2.Merger.Select.{Pops, nothing, front, pop_next-Pops}
use hft_feed_handler.Phase2.Merger.Drain.{deliver, drain}

-- All that is queued.
abbrev pub queued : VenueArray (List BookEvent) → List BookEvent
queued q = q.nasdaq_slot ++ (q.iex_slot ++ (q.cboe_slot ++ (q.cme_slot ++ q.bitfinex_slot)))

under :
    {e : BookEvent} {xs ys : List BookEvent} (l : List BookEvent)
    → Perm (e ∷ xs) ys
    → Perm (e ∷ (l ++ xs)) (l ++ ys)
under l h = Perm.trans (Perm.symm (perm_middle l _)) (Perm.append_left l h)

queued-put :
    (q : VenueArray (List BookEvent)) (v : Venue) (e : BookEvent) (rest : List BookEvent)
    → at q v ≡ e ∷ rest
    → Perm (e ∷ queued (put q v rest)) (queued q)
queued-put q nasdaq e rest p = rw p (Perm.refl _)
queued-put q iex e rest p = rw p (under q.nasdaq_slot (Perm.refl _))
queued-put q cboe e rest p = rw p (under q.nasdaq_slot (under q.iex_slot (Perm.refl _)))
queued-put q cme e rest p =
    rw p (under q.nasdaq_slot (under q.iex_slot (under q.cboe_slot (Perm.refl _))))
queued-put q bitfinex e rest p =
    rw p
      (under q.nasdaq_slot (under q.iex_slot (under q.cboe_slot (under q.cme_slot (Perm.refl _)))))

queued_count-put :
    (m : DeterministicMerger) (v : Venue) (e : BookEvent) (rest : List BookEvent)
    → at m.queues v ≡ e ∷ rest
    → suc (queued_count (record m { queues = put m.queues v rest })) ≡ queued_count m
unfolding queued_count
queued_count-put m nasdaq e rest p = omega (arith, ap length p)
queued_count-put m iex e rest p = omega (arith, ap length p)
queued_count-put m cboe e rest p = omega (arith, ap length p)
queued_count-put m cme e rest p = omega (arith, ap length p)
queued_count-put m bitfinex e rest p = omega (arith, ap length p)

all_empty : (m : DeterministicMerger) → ((v : Venue) → at m.queues v ≡ []) → queued m.queues ≡ []
all_empty m h = simp (h nasdaq, h iex, h cboe, h cme, h bitfinex)

length-queued : (m : DeterministicMerger) → queued_count m ≡ length (queued m.queues)
unfolding queued_count
length-queued m = simp length-append (omega arith)

deliver-perm :
    (fuel : ℕ) (m : DeterministicMerger) (r : DeterministicMerger × Option BookEvent)
    → Pops m r
    → queued_count m < suc fuel
    → ((n : DeterministicMerger)
        → queued_count n < fuel
        → Perm (drain fuel n).1 (queued n.queues) × ((drain fuel n).0.queues ≡ fill []))
    → Perm (deliver r (drain fuel r.0)).1 (queued m.queues)
      × ((deliver r (drain fuel r.0)).0.queues ≡ fill [])
unfolding deliver
deliver-perm fuel m _ (nothing h) few ih = (
  rw (all_empty m h) Perm.nil,
  λ i. record {
    nasdaq_slot = h nasdaq i;
    iex_slot = h iex i;
    cboe_slot = h cboe i;
    cme_slot = h cme i;
    bitfinex_slot = h bitfinex i;
  },
)
deliver-perm fuel m _ (front v x rest p lead) few ih =
    let (same, done) =
      ih (record m { queues = put m.queues v rest })
        (omega (arith, queued_count-put m v x rest p)) in
    (Perm.trans (Perm.cons x same) (queued-put m.queues v x rest p), done)

-- With fuel for one round more than there are events queued, every queued event is delivered exactly
-- once, nothing else is, and every queue is left empty.
pub drain-perm :
    (fuel : ℕ) (m : DeterministicMerger)
    → queued_count m < fuel
    → Perm (drain fuel m).1 (queued m.queues) × ((drain fuel m).0.queues ≡ fill [])
unfolding drain
drain-perm zero m few = elim few [ ]
drain-perm (suc fuel) m few =
    deliver-perm fuel m (pop_next m) (pop_next-Pops m) few (drain-perm fuel)
