-- ===== src/Phase3/OrderTable/Erase.antt =====
-- src/phase3/order_book_engine.cpp, `erase_order`, on the finite map that the table stands for.
use hft_feed_handler.Common.{
  ℕ, ◌<◌, true, false, Option, none, some, List, ◌≡◌, refl, inl, inr, sym, ap, ◌∙◌, subst, ◌==◌,
  if◌then◌else◌, Bool-cases, Option-cases, ==_iff, arith, bit_and, length, set, length-set,
  ℕ_discrete,
}
use mathlib.Core.Option.{some-injective}
use hft_feed_handler.Phase3.OrderTable.{
  OrderTable, OrderSlot, slot_at, is_live, find_order, erase_order, erase_there, mix_key,
}
use hft_feed_handler.Phase3.OrderTable.Probe.{
  slot_at-set_self, slot_at-set_ne, found_live, found_range,
}
use hft_feed_handler.Phase3.OrderTable.Write.{
  find_in, value_there, home_fits, write_lem, true_not_false,
}
use hft_feed_handler.Phase3.OrderTable.Map.{IsWellFormed, value_of, Becomes}

erase_there_lem :
    (t : OrderTable) (key : ℕ) (o : Option ℕ)
    → IsWellFormed t
    → find_in t.orders t.order_mask key ≡ o
    → Becomes t (erase_there t o) key true none
unfolding IsWellFormed
erase_there_lem t key none good e = (good, absent)
  where
    absent : (k : ℕ) → value_of t k ≡ (if key == k then none else value_of t k)
    absent k = elim (Bool-cases (key == k)) [
      | inl same ↦
          rw same
            (subst (λ n. value_of t n ≡ none) ((==_iff key k).0 same) (ap (value_there t.orders) e))
      | inr other ↦ rw other refl
    ]
erase_there_lem t key (some s) good e =
    write_lem orders mask key s slot good in_range refl alone none own (ap (value_there _) gone)
  where
    orders : List OrderSlot
    orders = t.orders

    mask : ℕ
    mask = t.order_mask

    slot : OrderSlot
    slot = record (slot_at orders s) { state = 2 }

    live : is_live (slot_at orders s) key ≡ true
    live = found_live (length orders) orders mask key (bit_and (mix_key key) mask) s e

    in_range : s < length orders
    in_range =
        found_range (length orders) orders mask key (bit_and (mix_key key) mask) s good.0
          (home_fits mask (length orders) key good.0) e

    alone :
        (k : ℕ)
        → (key == k) ≡ false
        → (is_live slot k ≡ false) × (is_live (slot_at orders s) k ≡ false)
    alone k other = (refl, ground (arith, live, other))

    not_live : (j : ℕ) → j < length orders → is_live (slot_at (set orders s slot) j) key ≡ true → ⊥
    not_live j lt h = elim (ℕ_discrete s j) [
      | yes here ↦ true_not_false (
          sym h
          ∙ ap (λ i. is_live (slot_at (set orders s slot) i) key) (sym here)
          ∙ ap (λ x. is_live x key) (slot_at-set_self orders s slot in_range))
      | no ne ↦ ne (
          some-injective _ _ (
            sym e
            ∙ good.1 j key lt
                (sym (ap (λ x. is_live x key) (slot_at-set_ne orders s j slot ne)) ∙ h)))
    ]

    own :
        (j : ℕ)
        → j < length orders
        → is_live (slot_at (set orders s slot) j) key ≡ true
        → find_in (set orders s slot) mask key ≡ some j
    own j lt h = absurd (not_live j lt h)

    gone : find_in (set orders s slot) mask key ≡ none
    gone = elim (Option-cases (find_in (set orders s slot) mask key)) [
      | inl f ↦ f
      | inr (j, f) ↦ absurd (
          not_live j
            (subst (λ n. j < n) (length-set orders s slot)
              (found_range (length (set orders s slot)) (set orders s slot) mask key
                (bit_and (mix_key key) mask) j (rw (length-set orders s slot) good.0)
                (rw (length-set orders s slot) (home_fits mask (length orders) key good.0)) f))
            (found_live (length (set orders s slot)) (set orders s slot) mask key
              (bit_and (mix_key key) mask) j f))
    ]

-- On a well-formed table `erase_order` removes the key's order, if it has one, changes no other key's,
-- and leaves the table well-formed.
pub erase_order_lem :
    (t : OrderTable) (key : ℕ)
    → IsWellFormed t
    → IsWellFormed (erase_order t key)
      × ((k : ℕ) → value_of (erase_order t key) k ≡ (if key == k then none else value_of t k))
unfolding erase_order find_order
erase_order_lem t key good = erase_there_lem t key (find_order t key) good refl
