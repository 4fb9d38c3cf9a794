-- ===== src/Phase3/OrderTable/Write.antt =====
-- src/phase3/order_book_engine.cpp: what a write to one slot of a consistent table does to the orders
-- of all keys.
use hft_feed_handler.Common.{
  ℕ, ◌<◌, true, false, Option, none, some, List, ◌≡◌, ◌≢◌, refl, inl, inr, sym, ap, ◌∙◌, subst,
  ◌==◌, if◌then◌else◌, Bool-cases, Option-cases, ==_iff, arith, bit_and, bit_and_le, length, set,
  length-set,
}
use mathlib.Core.Option.{none-ne-some}
use hft_feed_handler.Phase3.OrderTable.{OrderRef, OrderSlot, slot_at, is_live, find_from, mix_key}
use hft_feed_handler.Phase3.OrderTable.Probe.{
  slot_at-set_ne, found_live, found_range, Keeps, keeps_lem, still_found,
}

abbrev pub find_in : List OrderSlot → ℕ → ℕ → Option ℕ
find_in orders mask key = find_from (length orders) orders mask key (bit_and (mix_key key) mask)

-- Every live slot is the one that its key is found in, so no key has two.
abbrev pub IsConsistent : List OrderSlot → ℕ → Type 0
IsConsistent orders mask =
    (mask < length orders)
    × ((i k : ℕ)
        → i < length orders
        → is_live (slot_at orders i) k ≡ true
        → find_in orders mask k ≡ some i)

abbrev pub value_there : List OrderSlot → Option ℕ → Option OrderRef
value_there orders none = none
value_there orders (some i) = some (slot_at orders i).value

pub true_not_false : true ≡ false → ⊥
true_not_false e = ground arith

pub home_fits : (mask n k : ℕ) → mask < n → bit_and (mix_key k) mask < n
home_fits mask n k h = omega (arith, bit_and_le (mix_key k) mask)

module _ (orders : List OrderSlot) (mask key s : ℕ) (slot : OrderSlot)
    (good : IsConsistent orders mask) (in_range : s < length orders)
    (used : (slot.state == 0) ≡ false)
    (alone : (k : ℕ)
      → (key == k) ≡ false
      → (is_live slot k ≡ false) × (is_live (slot_at orders s) k ≡ false)) where
  keeps : (k i : ℕ) → (key == k) ≡ false → Keeps orders s slot k i
  keeps k i other =
      keeps_lem orders s slot k i in_range used ((alone k other).0 ∙ sym (alone k other).1)

  found_same :
      (k : ℕ) → (key == k) ≡ false → find_in (set orders s slot) mask k ≡ find_in orders mask k
  unfolding Keeps
  found_same k other = rw (length-set orders s slot) (elim (Option-cases (find_in orders mask k)) [
    | inr (j, e) ↦
        still_found (length orders) orders mask k (bit_and (mix_key k) mask) j s slot
          (λ i. keeps k i other) e
        ∙ sym e
    | inl e ↦
        elim (Option-cases
          (find_from (length orders) (set orders s slot) mask k (bit_and (mix_key k) mask))) [
            | inl f ↦ f ∙ sym e
            | inr (j, f) ↦ absurd (
                none-ne-some _ (
                  sym e
                  ∙ good.1 j k (range j f) (
                      sym (keeps k j other).1
                      ∙ found_live (length orders) (set orders s slot) mask k
                          (bit_and (mix_key k) mask) j f)))
          ]
  ])
    where
      range :
          (j : ℕ)
          → find_from (length orders) (set orders s slot) mask k (bit_and (mix_key k) mask) ≡ some j
          → j < length orders
      range j f =
          subst (λ n. j < n) (length-set orders s slot)
            (found_range (length orders) (set orders s slot) mask k (bit_and (mix_key k) mask) j
              (rw (length-set orders s slot) good.0)
              (rw (length-set orders s slot) (home_fits mask (length orders) k good.0)) f)

  value_same :
      (k : ℕ)
      → (key == k) ≡ false
      → value_there (set orders s slot) (find_in orders mask k)
        ≡ value_there orders (find_in orders mask k)
  value_same k other = elim (Option-cases (find_in orders mask k)) [
    | inl e ↦ rw e refl
    | inr (j, e) ↦ rw e (ap (λ x. some x.value) (slot_at-set_ne orders s j slot (apart j e)))
  ]
    where
      apart : (j : ℕ) → find_in orders mask k ≡ some j → s ≢ j
      apart j e here = true_not_false (
          sym (found_live (length orders) orders mask k (bit_and (mix_key k) mask) j e)
          ∙ ap (λ i. is_live (slot_at orders i) k) (sym here)
          ∙ (alone k other).1)

  pub write_lem :
      (w : Option OrderRef)
      → ((j : ℕ)
          → j < length orders
          → is_live (slot_at (set orders s slot) j) key ≡ true
          → find_in (set orders s slot) mask key ≡ some j)
      → value_there (set orders s slot) (find_in (set orders s slot) mask key) ≡ w
      → IsConsistent (set orders s slot) mask
        × ((k : ℕ)
            → value_there (set orders s slot) (find_in (set orders s slot) mask k)
              ≡ (if key == k then w else value_there orders (find_in orders mask k)))
  unfolding Keeps
  write_lem w own value =
      ((subst (λ n. mask < n) (sym (length-set orders s slot)) good.0, live), values)
    where
      live :
          (i k : ℕ)
          → i < length (set orders s slot)
          → is_live (slot_at (set orders s slot) i) k ≡ true
          → find_in (set orders s slot) mask k ≡ some i
      live i k lt h = elim (Bool-cases (key == k)) [
        | inl same ↦
            subst
              (λ n.
                is_live (slot_at (set orders s slot) i) n ≡ true
                → find_in (set orders s slot) mask n ≡ some i)
              ((==_iff key k).0 same) (own i (subst (λ n. i < n) (length-set orders s slot) lt)) h
        | inr other ↦
            found_same k other
            ∙ good.1 i k (subst (λ n. i < n) (length-set orders s slot) lt)
                (sym (keeps k i other).1 ∙ h)
      ]

      values :
          (k : ℕ)
          → value_there (set orders s slot) (find_in (set orders s slot) mask k)
            ≡ (if key == k then w else value_there orders (find_in orders mask k))
      values k = elim (Bool-cases (key == k)) [
        | inl same ↦ rw same (
            subst (λ n. value_there (set orders s slot) (find_in (set orders s slot) mask n) ≡ w)
              ((==_iff key k).0 same) value)
        | inr other ↦
            rw other
              (ap (value_there (set orders s slot)) (found_same k other) ∙ value_same k other)
      ]
