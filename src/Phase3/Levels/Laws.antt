-- ===== src/Phase3/Levels/Laws.antt =====
-- src/phase3/order_book_engine.cpp: what the three operations on sorted levels do to the quantity at
-- each price, read off the levels as a map from prices.
use hft_feed_handler.Common.{
  ℕ, ◌+◌, ◌-◌, ◌%◌, Bool, true, false, Option, none, some, List, [], ◌∷◌, ◌≡◌, refl, inl, inr, ap,
  ◌∙◌, ltb, ◌==◌, if◌then◌else◌, Bool-cases, arith, subst, ==_iff, get_elem?, find, u64_mod,
}
use hft_feed_handler.Phase3.Levels.{
  Level, qty_there, qty_at, add_there, add_qty, reduce_there, reduce_qty,
}
use hft_feed_handler.Phase3.Levels.Position.{Sorted, position, search-position}
use hft_feed_handler.Phase3.Levels.Meets.{ahead, equal, behind, meets, ahead_differs}
use hft_feed_handler.Phase3.Levels.Order.{
  add_there_cons, reduce_there_cons, add_there-Sorted, reduce_there-Sorted,
}

-- The quantity at a price, 0 if there is no level.
abbrev pub held : Option ℕ → ℕ
held none = 0
held (some qty) = qty

-- A level's quantity after an addition and after a reduction; a level that would hold nothing goes.
abbrev pub more : Option ℕ → ℕ → ℕ
more none qty = qty
more (some old) qty = (old + qty) % u64_mod

abbrev pub less : Option ℕ → ℕ → Option ℕ
less none qty = none
less (some old) qty = if ltb qty old then some (old - qty) else none

qty_position :
    (d : Bool) (price : ℕ) (xs : List Level)
    → Sorted d xs
    → qty_there price (get_elem? xs (position d price xs)) ≡ held (find xs price)
unfolding Sorted
qty_position d price [] h = refl
qty_position d price (x ∷ xs) (h, hs) = elim (meets d price x xs h) [
  | ahead e ↦ rw (e, ahead_differs d x.0 price e) (qty_position d price xs hs)
  | equal e same gone ↦ rw (e, same) refl
  | behind e other back gone ↦ rw (e, other, gone) refl
]

find-behind :
    (x : Level) (xs ys : List Level) (price k : ℕ) (v : Option ℕ)
    → (x.0 == price) ≡ false
    → find ys k ≡ (if price == k then v else find xs k)
    → find (x ∷ ys) k ≡ (if price == k then v else find (x ∷ xs) k)
find-behind x xs ys price k v other h = ground (arith, h)

add_position :
    (d : Bool) (price qty k : ℕ) (xs : List Level)
    → Sorted d xs
    → find (add_there xs (position d price xs) price qty (get_elem? xs (position d price xs))) k
      ≡ (if price == k then some (more (find xs price) qty) else find xs k)
unfolding Sorted
add_position d price qty k [] h = refl
add_position d price qty k (x ∷ xs) (h, hs) = elim (meets d price x xs h) [
  | ahead e ↦
      let i = position d price xs in
      let other = ahead_differs d x.0 price e in
      rw (e, other)
        (ap (λ ys. find ys k) (add_there_cons x xs i price qty (get_elem? xs i))
          ∙ find-behind x xs (add_there xs i price qty (get_elem? xs i)) price k
              (some (more (find xs price) qty)) other (add_position d price qty k xs hs))
  | equal e same gone ↦ rw (e, same) (ground arith)
  | behind e other back gone ↦ rw (e, other, gone) (ground arith)
]

shrink :
    (x : Level) (xs : List Level) (price qty k : ℕ)
    → (x.0 == price) ≡ true
    → find xs price ≡ none
    → find (if ltb qty x.1 then (x.0, x.1 - qty) ∷ xs else xs) k
      ≡ (if price == k then (if ltb qty x.1 then some (x.1 - qty) else none) else find (x ∷ xs) k)
shrink x xs price qty k same gone = elim (Bool-cases (price == k)) [
  | inl e ↦
      subst
        (λ j. find (if ltb qty x.1 then (x.0, x.1 - qty) ∷ xs else xs) j ≡ (
          if price == j then (if ltb qty x.1 then some (x.1 - qty) else none) else find (x ∷ xs) j))
        ((==_iff price k).0 e) (ground (arith, gone))
  | inr e ↦ ground arith
]

reduce_position :
    (d : Bool) (price qty k : ℕ) (xs : List Level)
    → Sorted d xs
    → find (reduce_there xs (position d price xs) price qty (get_elem? xs (position d price xs))) k
      ≡ (if price == k then less (find xs price) qty else find xs k)
unfolding Sorted
reduce_position d price qty k [] h = ground arith
reduce_position d price qty k (x ∷ xs) (h, hs) = elim (meets d price x xs h) [
  | ahead e ↦
      let i = position d price xs in
      let other = ahead_differs d x.0 price e in
      rw (e, other)
        (ap (λ ys. find ys k) (reduce_there_cons x xs i price qty (get_elem? xs i))
          ∙ find-behind x xs (reduce_there xs i price qty (get_elem? xs i)) price k
              (less (find xs price) qty) other (reduce_position d price qty k xs hs))
  | equal e same gone ↦ rw (e, same) (shrink x xs price qty k same gone)
  | behind e other back gone ↦ rw (e, other, gone) (ground (arith, gone))
]

-- On sorted levels, `qty_at` gives the quantity of the price's level, 0 if there is none.
pub qty_at_lem :
    (d : Bool) (price : ℕ) (xs : List Level)
    → Sorted d xs
    → qty_at xs price d ≡ held (find xs price)
unfolding qty_at
qty_at_lem d price xs h = rw (search-position d price xs h) (qty_position d price xs h)

-- On sorted levels, `add_qty` adds to the price's level modulo 2^64, or makes one, changes no other
-- price, and keeps the levels sorted.
pub add_qty_lem :
    (d : Bool) (price qty : ℕ) (xs : List Level)
    → Sorted d xs
    → Sorted d (add_qty xs price qty d)
      × ((k : ℕ)
          → find (add_qty xs price qty d) k
            ≡ (if price == k then some (more (find xs price) qty) else find xs k))
unfolding add_qty
add_qty_lem d price qty xs h =
    rw (search-position d price xs h)
      (add_there-Sorted d price qty xs h, (λ k. add_position d price qty k xs h))

-- On sorted levels, `reduce_qty` takes a smaller quantity from the price's level, removes the level
-- otherwise, changes no other price, and keeps the levels sorted.
pub reduce_qty_lem :
    (d : Bool) (price qty : ℕ) (xs : List Level)
    → Sorted d xs
    → Sorted d (reduce_qty xs price qty d)
      × ((k : ℕ)
          → find (reduce_qty xs price qty d) k
            ≡ (if price == k then less (find xs price) qty else find xs k))
unfolding reduce_qty
reduce_qty_lem d price qty xs h =
    rw (search-position d price xs h)
      (reduce_there-Sorted d price qty xs h, (λ k. reduce_position d price qty k xs h))
