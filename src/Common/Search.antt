-- ===== src/Common/Search.antt =====
-- `std::lower_bound` on a random access range, as the libraries implement it: by halving. On a range
-- that is partitioned by the test it finds the partition point.
use Prim.Native.Nat.{ℕ, zero, suc, ◌+◌, ◌-◌, ◌/◌, ◌≤◌, ◌<◌}
use mathlib.Core.Path.{◌≡◌, refl, sym, ◌∙◌}
use mathlib.Core.Logic.{inl, inr}
use mathlib.Core.Bool.{Bool, true, false}
use mathlib.Core.Option.{none, some}
use mathlib.Core.List.{List, [], ◌∷◌}
use native.Mathlib.Omega.{arith}
use native.Mathlib.Decide.{dec_lt}
use hft_feed_handler.Common.Tests.{◌==◌, if◌then◌else◌, Bool-cases}
use hft_feed_handler.Common.Lists.{get_elem?, length}

module _ {ℓ} {A : Type ℓ} (less : A → Bool) where
  -- The test at an index; past the end nothing is less.
  unfoldable pub less_at : List A → ℕ → Bool
  less_at xs i = elim (get_elem? xs i) [ some x ↦ less x | none ↦ false ]

  -- `len` elements from `first` on are left to search.
  pub lower_bound_from : ℕ → List A → ℕ → ℕ → ℕ
  unfolding less_at
  lower_bound_from zero xs first len = first
  lower_bound_from (suc fuel) xs first len =
      let half = len / 2 in
      let right = lower_bound_from fuel xs (first + half + 1) (len - half - 1) in
      let left = lower_bound_from fuel xs first half in
      if len == 0 then first else if less_at xs (first + half) then right else left

  unfoldable pub lower_bound : List A → ℕ
  unfolding lower_bound_from
  lower_bound xs = lower_bound_from (length xs) xs 0 (length xs)

  -- The elements that pass stand before those that fail.
  abbrev pub IsPartitioned : List A → Type 0
  IsPartitioned xs = (i j : ℕ) → i ≤ j → less_at xs j ≡ true → less_at xs i ≡ true

  -- `r` is the number of elements that pass.
  pub record IsPartitionPoint (xs : List A) (r : ℕ) : Type 0 where
    pub before : (i : ℕ) → i < r → less_at xs i ≡ true
    pub behind : (i : ℕ) → r ≤ i → less_at xs i ≡ false

  fails_on :
      (xs : List A) (i j : ℕ)
      → IsPartitioned xs
      → i ≤ j
      → less_at xs i ≡ false
      → less_at xs j ≡ false
  fails_on xs i j part h e = elim (Bool-cases (less_at xs j)) [
    | inl t ↦ cc (part i j h t)
    | inr f ↦ f
  ]

  lower_bound_from-IsPartitionPoint :
      (fuel : ℕ) (xs : List A) (first len : ℕ)
      → IsPartitioned xs
      → len ≤ fuel
      → ((i : ℕ) → i < first → less_at xs i ≡ true)
      → ((i : ℕ) → first + len ≤ i → less_at xs i ≡ false)
      → IsPartitionPoint xs (lower_bound_from fuel xs first len)
  unfolding lower_bound_from
  lower_bound_from-IsPartitionPoint zero xs first len part few lo hi = record {
    before = lo;
    behind = λ i h. hi i (omega arith);
  }
  lower_bound_from-IsPartitionPoint (suc fuel) xs first len part few lo hi =
      elim (Bool-cases (len == 0)) [
        | inl done ↦ rw done (record { before = lo; behind = λ i h. hi i (ground arith) })
        | inr more ↦ elim (Bool-cases (less_at xs (first + len / 2))) [
          | inl pass ↦
              rw (more, pass)
                (lower_bound_from-IsPartitionPoint fuel xs (first + len / 2 + 1) (len - len / 2 - 1)
                  part (omega arith) (λ i h. part i (first + len / 2) (omega arith) pass)
                  (λ i h. hi i (ground arith)))
          | inr fail ↦
              rw (more, fail)
                (lower_bound_from-IsPartitionPoint fuel xs first (len / 2) part (ground arith) lo
                  (λ i h. fails_on xs (first + len / 2) i part h fail))
        ]
      ]

  less_at_end : (xs : List A) (i : ℕ) → length xs ≤ i → less_at xs i ≡ false
  unfolding less_at
  less_at_end [] i h = refl
  less_at_end (x ∷ xs) zero h = elim h [ ]
  less_at_end (x ∷ xs) (suc i) h = less_at_end xs i (omega arith)

  pub lower_bound-IsPartitionPoint :
      (xs : List A) → IsPartitioned xs → IsPartitionPoint xs (lower_bound xs)
  unfolding lower_bound
  lower_bound-IsPartitionPoint xs part =
      lower_bound_from-IsPartitionPoint (length xs) xs 0 (length xs) part (omega arith)
        (λ i h. absurd (omega arith)) (λ i h. less_at_end xs i (omega arith))

  -- A partition point is the only one, and what has one is partitioned.
  IsPartitionPoint-IsPartitioned : (xs : List A) (r : ℕ) → IsPartitionPoint xs r → IsPartitioned xs
  IsPartitionPoint-IsPartitioned xs r p i j le t = elim (dec_lt j r) [
    | yes lt ↦ p.before i (omega arith)
    | no ge ↦ cc (sym t ∙ p.behind j (omega arith))
  ]

  pub lower_bound-eq : (xs : List A) (r : ℕ) → IsPartitionPoint xs r → lower_bound xs ≡ r
  lower_bound-eq xs r p =
      let q = lower_bound-IsPartitionPoint xs (IsPartitionPoint-IsPartitioned xs r p) in
      elim (dec_lt (lower_bound xs) r) [
        | yes lt ↦ cc (sym (p.before (lower_bound xs) lt) ∙ q.behind (lower_bound xs) (omega arith))
        | no ge ↦ elim (dec_lt r (lower_bound xs)) [
          | yes lt ↦ cc (sym (q.before r lt) ∙ p.behind r (omega arith))
          | no le ↦ omega arith
        ]
      ]
