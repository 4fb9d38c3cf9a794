-- ===== src/Phase4/Matching/Budget.antt =====
-- src/phase4/sim_matching_engine.cpp: what `fill_bids` and `fill_asks` do with a budget.
use hft_feed_handler.Common.{
  ℕ, ◌+◌, ◌-◌, ℤ, Bool, true, List, [], ◌∷◌, ltb, ◌==◌, min, if◌then◌else◌, ◌≡◌, refl, inl, inr,
  ◌⊎◌, Bool-cases, arith,
}
use hft_feed_handler.Phase4.Matching.{
  OrderSide, Order, Fill, Filled, fill_orders, fill_bids, fill_asks, lt_int, buy_side, sell_side,
}

-- The quantity of a list of orders.
unfoldable pub resting : List Order → ℕ
resting [] = 0
resting (o ∷ os) = o.qty + resting os

-- The quantity of a list of fills.
unfoldable pub filled : List Fill → ℕ
filled [] = 0
filled (f ∷ fs) = f.qty + filled fs

-- The first of the orders, if there is one, stops a loop.
unfoldable pub IsStopped : (Order → Bool) → List Order → Type 0
IsStopped stops [] = Unit {0}
IsStopped stops (o ∷ os) = stops o ≡ true

-- What a loop leaves: no quantity is lost, the fills have what the budget lost, and the budget is used up
-- unless the first order that is left stops the loop.
pub record IsFilled (stops : Order → Bool) (orders : List Order) (budget : ℕ) (f : Filled)
    : Type 0 where
  pub kept : resting f.orders + filled f.fills ≡ resting orders
  pub capped : filled f.fills + f.fill_budget ≡ budget
  pub used : (f.fill_budget ≡ 0) ⊎ IsStopped stops f.orders

-- One order's turn, with what the loop over the orders behind it leaves.
turn-IsFilled :
    (stops : Order → Bool) (o : Order) (os : List Order) (budget : ℕ) (fill : Fill) (rest : Filled)
    → fill.qty ≡ min o.qty budget
    → IsFilled stops os (budget - min o.qty budget) rest
    → IsFilled stops (o ∷ os) budget (record rest {
      orders =
          if (o.qty - min o.qty budget) == 0
          then rest.orders
          else record o { qty = o.qty - min o.qty budget } ∷ rest.orders;
      fills = if ltb 0 (min o.qty budget) then fill ∷ rest.fills else rest.fills;
    })
unfolding resting filled IsStopped
turn-IsFilled stops o os budget fill rest q i =
    elim (Bool-cases ((o.qty - min o.qty budget) == 0)) [
      | inl done ↦ elim (Bool-cases (ltb 0 (min o.qty budget))) [
        | inl takes ↦
            rw (done, takes)
              (record {
                kept = ground (arith, i.kept, q, done);
                capped = ground (arith, i.capped, q, done);
                used = i.used;
              })
        | inr none_taken ↦
            rw (done, none_taken)
              (record {
                kept = ground (arith, i.kept, q, done, none_taken);
                capped = ground (arith, i.capped, q, done, none_taken);
                used = i.used;
              })
      ]
      | inr part ↦ elim (Bool-cases (ltb 0 (min o.qty budget))) [
        | inl takes ↦
            rw (part, takes)
              (record {
                kept = ground (arith, i.kept, q, part);
                capped = ground (arith, i.capped, q, part);
                used = inl (ground (arith, i.capped, part));
              })
        | inr none_taken ↦
            rw (part, none_taken)
              (record {
                kept = ground (arith, i.kept, q, part, none_taken);
                capped = ground (arith, i.capped, q, part, none_taken);
                used = inl (ground (arith, i.capped, part));
              })
      ]
    ]

fill_orders-IsFilled :
    (stops : Order → Bool) (side : OrderSide) (price : ℤ) (ts : ℕ) (orders : List Order)
    (links : List (ℕ × ℕ)) (budget : ℕ)
    → IsFilled stops orders budget (fill_orders stops side price ts orders links budget)
unfolding fill_orders resting filled IsStopped
fill_orders-IsFilled stops side price ts [] links budget = record {
  kept = refl;
  capped = omega arith;
  used = inr tt;
}
fill_orders-IsFilled stops side price ts (o ∷ os) links budget = elim (Bool-cases (budget == 0)) [
  | inl spent ↦
      rw spent (record { kept = omega arith; capped = omega arith; used = inl (ground arith) })
  | inr more ↦ elim (Bool-cases (stops o)) [
    | inl stop ↦
        rw (more, stop) (record { kept = omega arith; capped = omega arith; used = inr stop })
    | inr on ↦
        rw (more, on)
          (turn-IsFilled stops o os budget _ _ refl
            (fill_orders-IsFilled stops side price ts os _ (budget - min o.qty budget)))
  ]
]

-- Whatever the orders and the budget, `fill_bids` and `fill_asks` lose no quantity: what rests afterwards
-- and what is filled is what rested before. What is filled and what is left of the budget is the budget,
-- and a budget is left only if no order is, or the first bid that is left is below the trade's price, or the
-- first ask that is left above it.
pub fill-IsFilled :
    (orders : List Order) (links : List (ℕ × ℕ)) (price : ℤ) (budget ts : ℕ)
    → IsFilled (λ o. lt_int o.price price) orders budget (fill_bids orders links price budget ts)
      × IsFilled (λ o. lt_int price o.price) orders budget (fill_asks orders links price budget ts)
unfolding fill_bids fill_asks
fill-IsFilled orders links price budget ts = (
  fill_orders-IsFilled (λ o. lt_int o.price price) buy_side price ts orders links budget,
  fill_orders-IsFilled (λ o. lt_int price o.price) sell_side price ts orders links budget,
)
