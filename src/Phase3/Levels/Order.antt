-- ===== src/Phase3/Levels/Order.antt =====
-- src/phase3/order_book_engine.cpp: the updates of levels keep them sorted.
use hft_feed_handler.Common.{
  ℕ, zero, suc, Bool, true, Option, none, some, List, [], ◌∷◌, ◌≡◌, refl, inl, inr, ltb, ◌==◌,
  Bool-cases, get_elem?,
}
use hft_feed_handler.Phase3.Levels.{Level, goes_before, add_there, reduce_there}
use hft_feed_handler.Phase3.Levels.Position.{Every, Sorted, position}
use hft_feed_handler.Phase3.Levels.Meets.{ahead, equal, behind, meets, Every-behind}

-- Both updates behind the first level are updates of the rest.
pub add_there_cons :
    (x : Level) (xs : List Level) (i price qty : ℕ) (o : Option Level)
    → add_there (x ∷ xs) (suc i) price qty o ≡ x ∷ add_there xs i price qty o
add_there_cons x xs i price qty none = refl
add_there_cons x xs i price qty (some y) = elim (Bool-cases (y.0 == price)) [
  | inl e ↦ rw e refl
  | inr e ↦ rw e refl
]

pub reduce_there_cons :
    (x : Level) (xs : List Level) (i price qty : ℕ) (o : Option Level)
    → reduce_there (x ∷ xs) (suc i) price qty o ≡ x ∷ reduce_there xs i price qty o
reduce_there_cons x xs i price qty none = refl
reduce_there_cons x xs i price qty (some y) = elim (Bool-cases (y.0 == price)) [
  | inl e ↦ elim (Bool-cases (ltb qty y.1)) [ inl f ↦ rw (e, f) refl | inr f ↦ rw (e, f) refl ]
  | inr e ↦ rw e refl
]

-- The updates keep the order.
module _ (P : ℕ → Type 0) where
  Every-add :
      (xs : List Level) (i price qty : ℕ)
      → Every (λ y. P y.0) xs
      → P price
      → Every (λ y. P y.0) (add_there xs i price qty (get_elem? xs i))
  Every-add [] zero price qty h p = (p, tt)
  Every-add [] (suc i) price qty h p = (p, tt)
  Every-add (x ∷ xs) zero price qty (h, hs) p = elim (Bool-cases (x.0 == price)) [
    | inl e ↦ rw e (h, hs)
    | inr e ↦ rw e (p, (h, hs))
  ]
  Every-add (x ∷ xs) (suc i) price qty (h, hs) p =
      rw (add_there_cons x xs i price qty (get_elem? xs i)) (h, Every-add xs i price qty hs p)

  Every-reduce :
      (xs : List Level) (i price qty : ℕ)
      → Every (λ y. P y.0) xs
      → Every (λ y. P y.0) (reduce_there xs i price qty (get_elem? xs i))
  Every-reduce [] i price qty h = tt
  Every-reduce (x ∷ xs) zero price qty (h, hs) = elim (Bool-cases (x.0 == price)) [
    | inl e ↦ elim (Bool-cases (ltb qty x.1)) [ inl f ↦ rw (e, f) (h, hs) | inr f ↦ rw (e, f) hs ]
    | inr e ↦ rw e (h, hs)
  ]
  Every-reduce (x ∷ xs) (suc i) price qty (h, hs) =
      rw (reduce_there_cons x xs i price qty (get_elem? xs i)) (h, Every-reduce xs i price qty hs)

pub add_there-Sorted :
    (d : Bool) (price qty : ℕ) (xs : List Level)
    → Sorted d xs
    → Sorted d (add_there xs (position d price xs) price qty (get_elem? xs (position d price xs)))
unfolding Sorted
add_there-Sorted d price qty [] h = (tt, tt)
add_there-Sorted d price qty (x ∷ xs) (h, hs) = elim (meets d price x xs h) [
  | ahead e ↦
      let i = position d price xs in
      rw (e, add_there_cons x xs i price qty (get_elem? xs i))
        (
          Every-add (λ p. goes_before d x.0 p ≡ true) xs i price qty h e,
          add_there-Sorted d price qty xs hs,
        )
  | equal e same gone ↦ rw (e, same) (h, hs)
  | behind e other back gone ↦ rw (e, other) ((back, Every-behind d price x.0 xs back h), (h, hs))
]

pub reduce_there-Sorted :
    (d : Bool) (price qty : ℕ) (xs : List Level)
    → Sorted d xs
    → Sorted d
        (reduce_there xs (position d price xs) price qty (get_elem? xs (position d price xs)))
unfolding Sorted
reduce_there-Sorted d price qty [] h = tt
reduce_there-Sorted d price qty (x ∷ xs) (h, hs) = elim (meets d price x xs h) [
  | ahead e ↦
      let i = position d price xs in
      rw (e, reduce_there_cons x xs i price qty (get_elem? xs i))
        (
          Every-reduce (λ p. goes_before d x.0 p ≡ true) xs i price qty h,
          reduce_there-Sorted d price qty xs hs,
        )
  | equal e same gone ↦ elim (Bool-cases (ltb qty x.1)) [
    | inl f ↦ rw (e, same, f) (h, hs)
    | inr f ↦ rw (e, same, f) hs
  ]
  | behind e other back gone ↦ rw (e, other) (h, hs)
]
