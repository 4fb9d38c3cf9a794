-- ===== src/Phase3/Engine/Top.antt =====
-- src/phase3/order_book_engine.cpp, `snapshot`: the top of a sorted book is its best level.
use hft_feed_handler.Common.{
  ℕ, ◌≤◌, Bool, true, false, none, some, List, [], ◌∷◌, ◌≡◌, refl, inl, inr, ◌==◌, Bool-cases,
  arith, find, ltb-false→le, sym, ◌∙◌, ◌%◌, ==_iff, u32_mod,
}
use mathlib.Core.Option.{none-ne-some}
use hft_feed_handler.Core.VenueArray.{at-fill}
use hft_feed_handler.Phase3.Types.{TopOfBook}
use hft_feed_handler.Phase3.Levels.{Level, goes_before}
use hft_feed_handler.Phase3.Levels.Position.{Every, Sorted}
use hft_feed_handler.Phase3.Engine.{VenueBook, new_engine, snapshot}
use hft_feed_handler.Phase3.Engine.Books.{IsSorted, IsWellFormed}

found_later :
    (x : Level) (xs : List Level) (k q : ℕ)
    → (x.0 == k) ≡ false
    → find (x ∷ xs) k ≡ some q
    → find xs k ≡ some q
found_later x xs k q other = rw other (λ e. e)

not_before_itself :
    (d : Bool) (a p k : ℕ) → goes_before d p a ≡ true → (a == k) ≡ true → goes_before d k p ≡ false
not_before_itself true a p k h e = ground arith
not_before_itself false a p k h e = ground arith

later_lem :
    (d : Bool) (p k q : ℕ) (ys : List Level)
    → Every (λ y. goes_before d p y.0 ≡ true) ys
    → find ys k ≡ some q
    → goes_before d k p ≡ false
later_lem d p k q [] h e = absurd (none-ne-some _ e)
later_lem d p k q (y ∷ ys) (h, hs) e = elim (Bool-cases (y.0 == k)) [
  | inl same ↦ not_before_itself d y.0 p k h same
  | inr other ↦ later_lem d p k q ys hs (found_later y ys k q other e)
]

front_itself : (d : Bool) (p k : ℕ) → (p == k) ≡ true → goes_before d k p ≡ false
front_itself true p k e = ground arith
front_itself false p k e = ground arith

front_found : (x : Level) (xs : List Level) → find (x ∷ xs) x.0 ≡ some x.1
front_found x xs = rw ((==_iff x.0 x.0).1 refl) refl

-- No level goes before the front one.
front_best :
    (d : Bool) (x : Level) (xs : List Level) (k q : ℕ)
    → Sorted d (x ∷ xs)
    → find (x ∷ xs) k ≡ some q
    → goes_before d k x.0 ≡ false
unfolding Sorted
front_best d x xs k q (h, hs) e = elim (Bool-cases (x.0 == k)) [
  | inl same ↦ front_itself d x.0 k same
  | inr other ↦ later_lem d x.0 k q xs h (found_later x xs k q other e)
]

-- What is reported of one side of a book, where `NoBetter k p` says that `k` is no better a price than `p`.
pub data IsTop (NoBetter : ℕ → ℕ → Type 0) (levels : List Level) : Bool → ℕ → ℕ → Type 0 where
  no_level : ((k : ℕ) → find levels k ≡ none) → IsTop NoBetter levels false 0 0
  best_level :
      (price qty : ℕ)
      → find levels price ≡ some qty
      → ((k q : ℕ) → find levels k ≡ some q → NoBetter k price)
      → IsTop NoBetter levels true price (qty % u32_mod)

abbrev pub ReportsBid : List Level → TopOfBook → Type 0
ReportsBid bids t = IsTop (λ k p. k ≤ p) bids t.has_bid t.bid_price t.bid_qty

abbrev pub ReportsAsk : List Level → TopOfBook → Type 0
ReportsAsk asks t = IsTop (λ k p. p ≤ k) asks t.has_ask t.ask_price t.ask_qty

front-ReportsBid :
    (x : Level) (xs : List Level)
    → Sorted true (x ∷ xs)
    → IsTop (λ k p. k ≤ p) (x ∷ xs) true x.0 (x.1 % u32_mod)
front-ReportsBid x xs h =
    best_level x.0 x.1 (front_found x xs)
      (λ k q e. ltb-false→le x.0 k (front_best true x xs k q h e))

front-ReportsAsk :
    (x : Level) (xs : List Level)
    → Sorted false (x ∷ xs)
    → IsTop (λ k p. p ≤ k) (x ∷ xs) true x.0 (x.1 % u32_mod)
front-ReportsAsk x xs h =
    best_level x.0 x.1 (front_found x xs)
      (λ k q e. ltb-false→le k x.0 (front_best false x xs k q h e))

reports :
    (bids asks : List Level)
    → Sorted true bids
    → Sorted false asks
    → ReportsBid bids (snapshot (record { bids = bids; asks = asks }))
      × ReportsAsk asks (snapshot (record { bids = bids; asks = asks }))
unfolding snapshot
reports [] [] h k = (no_level (λ _. refl), no_level (λ _. refl))
reports [] (y ∷ asks) h k = (no_level (λ _. refl), front-ReportsAsk y asks k)
reports (x ∷ bids) [] h k = (front-ReportsBid x bids h, no_level (λ _. refl))
reports (x ∷ bids) (y ∷ asks) h k = (front-ReportsBid x bids h, front-ReportsAsk y asks k)

-- What a sorted book reports on each side: that there is no level, at price and quantity 0, exactly if
-- there is none; and else the price of a level that no other level betters, a higher bid or a lower ask,
-- with that level's quantity modulo 2^32.
pub snapshot_lem :
    (b : VenueBook) → IsSorted b → ReportsBid b.bids (snapshot b) × ReportsAsk b.asks (snapshot b)
unfolding IsSorted
snapshot_lem b (bids, asks) = reports b.bids b.asks bids asks

-- A new engine has no book.
pub new_engine-IsWellFormed : (slots : ℕ) → IsWellFormed (new_engine slots)
unfolding new_engine IsWellFormed IsSorted Sorted
new_engine-IsWellFormed slots = (
  (λ v k. rw (at-fill {A = List (ℕ × VenueBook)} [] v) (tt, tt)),
  (λ v k valid e. absurd (none-ne-some _ (sym (at-fill none v) ∙ e))),
)
