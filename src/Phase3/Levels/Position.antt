-- ===== src/Phase3/Levels/Position.antt =====
-- src/phase3/order_book_engine.cpp: in sorted levels the binary search gives the place of a price.
use hft_feed_handler.Common.{
  ℕ, zero, suc, Bool, true, false, List, [], ◌∷◌, ◌≡◌, inl, inr, refl, ◌<◌, ◌≤◌, if◌then◌else◌,
  Bool-cases, arith, less_at, IsPartitionPoint, lower_bound-eq,
}
use hft_feed_handler.Phase3.Levels.{Level, goes_before, ahead_of, search}

-- What every level of a list satisfies.
abbrev pub Every : (Level → Type 0) → List Level → Type 0
Every P [] = Unit {0}
Every P (x ∷ xs) = P x × Every P xs

unfoldable pub Sorted : Bool → List Level → Type 0
Sorted descending [] = Unit {0}
Sorted descending (x ∷ xs) =
    Every (λ y. goes_before descending x.0 y.0 ≡ true) xs × Sorted descending xs

-- The number of levels in front that are ahead of a price.
abbrev pub position : Bool → ℕ → List Level → ℕ
position descending price [] = 0
position descending price (x ∷ xs) =
    let rest = position descending price xs in
    if goes_before descending x.0 price then suc rest else 0

pub goes_before_trans :
    (d : Bool) (a b c : ℕ)
    → goes_before d a b ≡ true
    → goes_before d b c ≡ true
    → goes_before d a c ≡ true
goes_before_trans true a b c h k = ground arith
goes_before_trans false a b c h k = ground arith

-- Behind a level that is not ahead of a price, none is.
none_ahead :
    (d : Bool) (price p : ℕ) (xs : List Level) (i : ℕ)
    → Every (λ y. goes_before d p y.0 ≡ true) xs
    → goes_before d p price ≡ false
    → less_at (ahead_of d price) xs i ≡ false
unfolding less_at
none_ahead d price p [] i h e = refl
none_ahead true price p (x ∷ xs) zero (h, hs) e = ground arith
none_ahead false price p (x ∷ xs) zero (h, hs) e = ground arith
none_ahead d price p (x ∷ xs) (suc i) (h, hs) e = none_ahead d price p xs i hs e

position-IsPartitionPoint :
    (d : Bool) (price : ℕ) (xs : List Level)
    → Sorted d xs
    → IsPartitionPoint (ahead_of d price) xs (position d price xs)
unfolding Sorted less_at
position-IsPartitionPoint d price [] h = record {
  before = λ i lt. absurd (omega arith);
  behind = λ i le. refl;
}
position-IsPartitionPoint d price (x ∷ xs) (h, hs) =
    let p = position-IsPartitionPoint d price xs hs in
    elim (Bool-cases (goes_before d x.0 price)) [
      | inl ahead ↦ rw ahead (record { before = before ahead p; behind = behind p })
      | inr behind ↦
          rw behind (record { before = λ i lt. absurd (omega arith); behind = fails behind })
    ]
  where
    before :
        goes_before d x.0 price ≡ true
        → IsPartitionPoint (ahead_of d price) xs (position d price xs)
        → (i : ℕ) → i < suc (position d price xs)
        → less_at (ahead_of d price) (x ∷ xs) i ≡ true
    before ahead p zero lt = ahead
    before ahead p (suc i) lt = p.before i (omega arith)

    behind :
        IsPartitionPoint (ahead_of d price) xs (position d price xs)
        → (i : ℕ) → suc (position d price xs) ≤ i
        → less_at (ahead_of d price) (x ∷ xs) i ≡ false
    behind p zero le = absurd (omega arith)
    behind p (suc i) le = p.behind i (omega arith)

    fails :
        goes_before d x.0 price ≡ false
        → (i : ℕ) → 0 ≤ i
        → less_at (ahead_of d price) (x ∷ xs) i ≡ false
    fails e zero le = e
    fails e (suc i) le = none_ahead d price x.0 xs i h e

pub search-position :
    (d : Bool) (price : ℕ) (xs : List Level) → Sorted d xs → search xs price d ≡ position d price xs
search-position d price xs h =
    lower_bound-eq (ahead_of d price) xs (position d price xs)
      (position-IsPartitionPoint d price xs h)
