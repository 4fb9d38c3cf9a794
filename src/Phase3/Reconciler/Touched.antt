-- ===== src/Phase3/Reconciler/Touched.antt =====
-- src/phase3/book_snapshot.cpp: the places that a reconciler compares, and the engine that it rebuilds.
use hft_feed_handler.Common.{
  ℕ, ◌≡◌, ◌⊎◌, ◌↔◌, refl, sym, subst, inl, inr, Bool-cases, true, List, [], ◌∷◌, ◌++◌, ◌==◌, ◌&&◌,
  if◌then◌else◌, arith, ==_iff,
}
use mathlib.Core.List.{append_assoc, append-nil}
use hft_feed_handler.Core.Types.{Venue, BookEvent, venue_to_u8}
use hft_feed_handler.Core.VenueArray.{Venue-discrete}
use hft_feed_handler.Phase3.Engine
use hft_feed_handler.Phase3.Engine.{OrderBookEngine, new_engine}
use hft_feed_handler.Phase3.Engine.Event.{other_index, same_index}
use hft_feed_handler.Phase3.Reconciler.{replay_events, touch}

-- An engine that started empty has applied the events, one after the other.
pub data Rebuilt (slots : ℕ) : List BookEvent → OrderBookEngine → Type 0 where
  at_first : Rebuilt slots [] (new_engine slots)
  applied :
      {evs : List BookEvent} {e : OrderBookEngine} (ev : BookEvent)
      → Rebuilt slots evs e
      → Rebuilt slots (evs ++ ev ∷ []) (Engine.on_event e ev).0

pub replay_events-Rebuilt :
    (slots : ℕ) (done evs : List BookEvent) (e : OrderBookEngine)
    → Rebuilt slots done e
    → Rebuilt slots (done ++ evs) (replay_events e evs)
unfolding replay_events
replay_events-Rebuilt slots done [] e h = subst (λ es. Rebuilt slots es e) (sym (append-nil done)) h
replay_events-Rebuilt slots done (ev ∷ evs) e h =
    subst (λ es. Rebuilt slots es (replay_events (Engine.on_event e ev).0 evs))
      (append_assoc done (ev ∷ []) evs)
      (replay_events-Rebuilt slots (done ++ ev ∷ []) evs (Engine.on_event e ev).0 (applied ev h))

-- A place, a venue and a symbol, is touched.
abbrev pub Touches : List (Venue × ℕ) → Venue → ℕ → Type 0
Touches [] w j = ⊥
Touches ((v, k) ∷ ts) w j = ((v ≡ w) × (k ≡ j)) ⊎ Touches ts w j

-- No place is touched twice.
abbrev pub Distinct : List (Venue × ℕ) → Type 0
Distinct [] = Unit {0}
Distinct ((v, k) ∷ ts) = ¬ Touches ts v k × Distinct ts

venue_eq : (v w : Venue) → (venue_to_u8 v == venue_to_u8 w) ≡ true → v ≡ w
venue_eq v w e = elim (Venue-discrete v w) [
  | yes s ↦ s
  | no ne ↦ ground (arith, e, other_index v w ne)
]

place_eq :
    (u v : Venue) (i k : ℕ) → (venue_to_u8 u == venue_to_u8 v && i == k) ≡ true → (u ≡ v) × (i ≡ k)
place_eq u v i k e = (venue_eq u v (ground (arith, e)), (==_iff i k).0 (ground (arith, e)))

touch-old :
    (ts : List (Venue × ℕ)) (v w : Venue) (k j : ℕ) → Touches ts w j → Touches (touch ts v k) w j
touch-old [] v w k j h = elim h [ ]
touch-old ((u, i) ∷ ts) v w k j h = elim (Bool-cases (venue_to_u8 u == venue_to_u8 v && i == k)) [
  | inl e ↦ rw e h
  | inr e ↦ rw e (elim h [ inl here ↦ inl here | inr there ↦ inr (touch-old ts v w k j there) ])
]

touch-new : (ts : List (Venue × ℕ)) (v : Venue) (k : ℕ) → Touches (touch ts v k) v k
touch-new [] v k = inl (refl, refl)
touch-new ((u, i) ∷ ts) v k = elim (Bool-cases (venue_to_u8 u == venue_to_u8 v && i == k)) [
  | inl e ↦ rw e (inl (place_eq u v i k e))
  | inr e ↦ rw e (inr (touch-new ts v k))
]

touch-only :
    (ts : List (Venue × ℕ)) (v w : Venue) (k j : ℕ)
    → Touches (touch ts v k) w j
    → Touches ts w j ⊎ ((v ≡ w) × (k ≡ j))
touch-only [] v w k j (inl here) = inr here
touch-only [] v w k j (inr there) = elim there [ ]
touch-only ((u, i) ∷ ts) v w k j h = elim (Bool-cases (venue_to_u8 u == venue_to_u8 v && i == k)) [
  | inl e ↦ inl (subst (λ b. Touches (if b then (u, i) ∷ ts else (u, i) ∷ touch ts v k) w j) e h)
  | inr e ↦ elim (subst (λ b. Touches (if b then (u, i) ∷ ts else (u, i) ∷ touch ts v k) w j) e h) [
    | inl here ↦ inl (inl here)
    | inr there ↦ elim (touch-only ts v w k j there) [ inl old ↦ inl (inr old) | inr new ↦ inr new ]
  ]
]

touch-Distinct : (ts : List (Venue × ℕ)) (v : Venue) (k : ℕ) → Distinct ts → Distinct (touch ts v k)
touch-Distinct [] v k h = ((λ t. t), tt)
touch-Distinct ((u, i) ∷ ts) v k (apart, h) =
    elim (Bool-cases (venue_to_u8 u == venue_to_u8 v && i == k)) [
      | inl e ↦ rw e (apart, h)
      | inr e ↦ rw e (
          (
            λ t. elim (touch-only ts v u k i t) [
              | inl old ↦ apart old
              | inr (s, same) ↦ ground (arith, e, same_index u v (sym s), (==_iff i k).1 (sym same))
            ],
            touch-Distinct ts v k h,
          ))
    ]

-- The places `after` are the places `before` and one more, which may have been among them, each once.
abbrev pub Adds : List (Venue × ℕ) → Venue → ℕ → List (Venue × ℕ) → Type 0
Adds before v k after =
    Distinct after
    × ((w : Venue) (j : ℕ) → Touches after w j ↔ (Touches before w j ⊎ ((v ≡ w) × (k ≡ j))))

pub touch-Adds :
    (ts : List (Venue × ℕ)) (v : Venue) (k : ℕ) → Distinct ts → Adds ts v k (touch ts v k)
touch-Adds ts v k h = (
  touch-Distinct ts v k h,
  λ w j. (
    touch-only ts v w k j,
    λ t. elim t [
      | inl old ↦ touch-old ts v w k j old
      | inr (s, same) ↦
          subst (λ x. Touches (touch ts v k) x j) s
            (subst (λ i. Touches (touch ts v k) v i) same (touch-new ts v k))
    ],
  ),
)
