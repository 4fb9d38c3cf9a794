-- ===== src/Phase3/Levels/Meets.antt =====
-- src/phase3/order_book_engine.cpp: what the search for a price meets at the first of sorted levels.
use hft_feed_handler.Common.{
  ℕ, Bool, true, false, none, List, [], ◌∷◌, ◌≡◌, refl, inl, inr, sym, ap, ◌∙◌, ◌==◌, Bool-cases,
  arith, find,
}
use hft_feed_handler.Phase3.Levels.{Level, goes_before}
use hft_feed_handler.Phase3.Levels.Position.{Every, goes_before_trans}

find-absent :
    (d : Bool) (price : ℕ) (xs : List Level)
    → Every (λ y. goes_before d price y.0 ≡ true) xs
    → find xs price ≡ none
find-absent d price [] h = refl
find-absent true price (x ∷ xs) (h, hs) = ground (arith, find-absent true price xs hs)
find-absent false price (x ∷ xs) (h, hs) = ground (arith, find-absent false price xs hs)

-- Neither ahead nor equal is behind.
behind_price :
    (d : Bool) (p price : ℕ)
    → goes_before d p price ≡ false
    → (p == price) ≡ false
    → goes_before d price p ≡ true
behind_price true p price h e = ground arith
behind_price false p price h e = ground arith

pub ahead_differs : (d : Bool) (p price : ℕ) → goes_before d p price ≡ true → (p == price) ≡ false
ahead_differs true p price h = ground arith
ahead_differs false p price h = ground arith

pub Every-behind :
    (d : Bool) (price p : ℕ) (xs : List Level)
    → goes_before d price p ≡ true
    → Every (λ y. goes_before d p y.0 ≡ true) xs
    → Every (λ y. goes_before d price y.0 ≡ true) xs
Every-behind d price p [] h hs = tt
Every-behind d price p (x ∷ xs) h (k, hs) =
    (goes_before_trans d price p x.0 h k, Every-behind d price p xs h hs)

-- What the search meets, if it is not an earlier level: the price's level, or that there is none.
pub data Meets (d : Bool) (price : ℕ) : Level → List Level → Type 0 where
  ahead : {x : Level} {xs : List Level} → goes_before d x.0 price ≡ true → Meets d price x xs
  equal :
      {x : Level} {xs : List Level}
      → goes_before d x.0 price ≡ false
      → (x.0 == price) ≡ true
      → find xs price ≡ none
      → Meets d price x xs
  behind :
      {x : Level} {xs : List Level}
      → goes_before d x.0 price ≡ false
      → (x.0 == price) ≡ false
      → goes_before d price x.0 ≡ true
      → find xs price ≡ none
      → Meets d price x xs

pub meets :
    (d : Bool) (price : ℕ) (x : Level) (xs : List Level)
    → Every (λ y. goes_before d x.0 y.0 ≡ true) xs
    → Meets d price x xs
meets d price x xs h = elim (Bool-cases (goes_before d x.0 price)) [
  | inl e ↦ ahead e
  | inr e ↦ elim (Bool-cases (x.0 == price)) [
    | inl same ↦ equal e same (ap (find xs) (sym (number same)) ∙ find-absent d x.0 xs h)
    | inr other ↦
        let back = behind_price d x.0 price e other in
        behind e other back (find-absent d price xs (Every-behind d price x.0 xs back h))
  ]
]
  where
    number : (x.0 == price) ≡ true → x.0 ≡ price
    number e = ground arith
