-- ===== src/Phase2/Merger/Select.antt =====
-- `pop_next` takes the front that no other front precedes, and fails only when nothing is queued.
use hft_feed_handler.Common.{
  ◌≡◌, refl, sym, inl, inr, Option, none, some, List, [], ◌∷◌, Bool-cases, ◌⊎◌, subst,
}
use hft_feed_handler.Core.Types.{Venue, BookEvent, nasdaq, iex, cboe, cme, bitfinex}
use hft_feed_handler.Core.VenueArray.{VenueArray, at, put, all_venues}
use hft_feed_handler.Phase2.Merger.{
  DeterministicMerger, less_event, beats, consider, best_index, take_front, pop_next,
}
use hft_feed_handler.Phase2.Merger.Order.{
  NotAfter, NotAfter-refl, NotAfter-trans, less_event-true, less_event-false,
}

-- No front of the queue precedes `e`.
abbrev pub Leads : BookEvent → List BookEvent → Type 0
Leads e [] = Unit {0}
Leads e (front ∷ rest) = NotAfter e front

Leads-trans : (a b : BookEvent) (q : List BookEvent) → NotAfter a b → Leads b q → Leads a q
Leads-trans a b [] h l = tt
Leads-trans a b (front ∷ rest) h l = NotAfter-trans a b front h l

-- What holds of the best index once the venues of `seen` are considered.
abbrev Best : VenueArray (List BookEvent) → (Venue → Type 0) → Option Venue → Type 0
Best queues Seen none = (v : Venue) → Seen v → at queues v ≡ []
Best queues Seen (some b) =
    (e : BookEvent) × (rest : List BookEvent) × (at queues b ≡ e ∷ rest)
    × ((v : Venue) → Seen v → Leads e (at queues v))

-- One more venue.
abbrev Also : Venue → (Venue → Type 0) → Venue → Type 0
Also w Seen v = (v ≡ w) ⊎ Seen v

also_elim :
    {Seen : Venue → Type 0} (P : Venue → Type 0) (w : Venue)
    → P w
    → ((v : Venue) → Seen v → P v)
    → (v : Venue) → Also w Seen v
    → P v
also_elim P w base rest v (inl p) = subst P (sym p) base
also_elim P w base rest v (inr s) = rest v s

consider-Best :
    (queues : VenueArray (List BookEvent)) (Seen : Venue → Type 0) (w : Venue) (best : Option Venue)
    (q : List BookEvent)
    → at queues w ≡ q
    → Best queues Seen best
    → Best queues (Also w Seen) (consider queues w best q)
unfolding consider
consider-Best queues Seen w none [] e h = also_elim (λ v. at queues v ≡ []) w e h
consider-Best queues Seen w (some b) [] e (f, r, p, l) =
    (f, r, p, also_elim (λ v. Leads f (at queues v)) w (rw e tt) l)
consider-Best queues Seen w none (front ∷ rest) e h = (
  front,
  rest,
  e,
  also_elim (λ v. Leads front (at queues v)) w (rw e (NotAfter-refl front)) (λ v s. rw (h v s) tt),
)
consider-Best queues Seen w (some b) (front ∷ rest) e (f, r, p, l) =
    elim (Bool-cases (less_event front f)) [
      | inl wins ↦
          rw (p, beats, wins)
            (
              front,
              rest,
              e,
              also_elim (λ v. Leads front (at queues v)) w (rw e (NotAfter-refl front))
                  (λ v s. Leads-trans front f (at queues v) (less_event-true front f wins) (l v s)),
            )
      | inr loses ↦
          rw (p, beats, loses)
            (
              f,
              r,
              p,
              also_elim (λ v. Leads f (at queues v)) w (rw e (less_event-false front f loses)) l,
            )
    ]

-- The venues considered after those of `vs`, too.
abbrev SeenAfter : List Venue → (Venue → Type 0) → Venue → Type 0
SeenAfter [] Seen = Seen
SeenAfter (w ∷ vs) Seen = SeenAfter vs (Also w Seen)

best_index-Best :
    (queues : VenueArray (List BookEvent)) (vs : List Venue) (Seen : Venue → Type 0)
    (best : Option Venue)
    → Best queues Seen best
    → Best queues (SeenAfter vs Seen) (best_index queues vs best)
unfolding best_index
best_index-Best queues [] Seen best h = h
best_index-Best queues (w ∷ vs) Seen best h =
    best_index-Best queues vs (Also w Seen) (consider queues w best (at queues w))
      (consider-Best queues Seen w best (at queues w) refl h)

all_seen : (v : Venue) → SeenAfter all_venues (λ _. ⊥) v
all_seen nasdaq = inr (inr (inr (inr (inl refl))))
all_seen iex = inr (inr (inr (inl refl)))
all_seen cboe = inr (inr (inl refl))
all_seen cme = inr (inl refl)
all_seen bitfinex = inl refl

-- What `pop_next` makes of a merger.
pub data Pops (m : DeterministicMerger) : DeterministicMerger × Option BookEvent → Type 0 where
  nothing : ((v : Venue) → at m.queues v ≡ []) → Pops m (m, none)
  front :
      (v : Venue) (e : BookEvent) (rest : List BookEvent)
      → at m.queues v ≡ e ∷ rest
      → ((w : Venue) → Leads e (at m.queues w))
      → Pops m (record m { queues = put m.queues v rest }, some e)

chosen :
    (m : DeterministicMerger) (best : Option Venue)
    → Best m.queues (SeenAfter all_venues (λ _. ⊥)) best
    → Pops m (elim best [ none ↦ (m, none) | some v ↦ take_front m v (at m.queues v) ])
unfolding take_front
chosen m none h = nothing (λ v. h v (all_seen v))
chosen m (some b) (e, rest, p, l) = rw (p, take_front) (front b e rest p (λ w. l w (all_seen w)))

-- `pop_next` removes the front of one queue, which no front of any queue precedes, and leaves the other
-- queues alone; it fails, changing nothing, only if every queue is empty.
pub pop_next-Pops : (m : DeterministicMerger) → Pops m (pop_next m)
unfolding pop_next
pop_next-Pops m =
    chosen m (best_index m.queues all_venues none)
      (best_index-Best m.queues all_venues (λ _. ⊥) none (λ v s. absurd s))
