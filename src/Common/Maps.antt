-- ===== src/Common/Maps.antt =====
-- `std::map` and `std::unordered_map` with unsigned keys: each key once. A map is the list of its
-- entries; what the code asks of it does not depend on their order.
use Prim.Native.Nat.{ℕ}
use mathlib.Core.Path.{◌≡◌, refl}
use mathlib.Core.Option.{Option, none, some}
use mathlib.Core.List.{List, [], ◌∷◌}
use native.Mathlib.Omega.{arith}
use hft_feed_handler.Common.Tests.{◌==◌, ltb, if◌then◌else◌}

module _ {ℓ} {V : Type ℓ} where
  -- `find(key)`.
  abbrev pub find : List (ℕ × V) → ℕ → Option V
  find [] k = none
  find ((j, v) ∷ m) k = if j == k then some v else find m k

  -- `m[key] = value`.
  abbrev pub assign : List (ℕ × V) → ℕ → V → List (ℕ × V)
  assign [] k v = (k, v) ∷ []
  assign ((j, w) ∷ m) k v = if j == k then (k, v) ∷ m else (j, w) ∷ assign m k v

  -- `erase(key)`.
  abbrev pub erase : List (ℕ × V) → ℕ → List (ℕ × V)
  erase [] k = []
  erase ((j, w) ∷ m) k = let rest = erase m k in if j == k then rest else (j, w) ∷ rest

  -- `erase(begin(), lower_bound(key))`: the entries with smaller keys go.
  abbrev pub erase_below : List (ℕ × V) → ℕ → List (ℕ × V)
  erase_below [] k = []
  erase_below ((j, w) ∷ m) k = let rest = erase_below m k in if ltb j k then rest else (j, w) ∷ rest

  pub find-assign :
      (m : List (ℕ × V)) (k j : ℕ) (v : V)
      → find (assign m k v) j ≡ (if k == j then some v else find m j)
  find-assign [] k j v = refl
  find-assign ((i, w) ∷ m) k j v = ground (arith, find-assign m k j v)

  pub find-erase :
      (m : List (ℕ × V)) (k j : ℕ) → find (erase m k) j ≡ (if k == j then none else find m j)
  find-erase [] k j = ground arith
  find-erase ((i, w) ∷ m) k j = ground (arith, find-erase m k j)

  pub find-erase_below :
      (m : List (ℕ × V)) (k j : ℕ) → find (erase_below m k) j ≡ (if ltb j k then none else find m j)
  find-erase_below [] k j = ground arith
  find-erase_below ((i, w) ∷ m) k j = ground (arith, find-erase_below m k j)
