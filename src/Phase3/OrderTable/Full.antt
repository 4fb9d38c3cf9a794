-- ===== src/Phase3/OrderTable/Full.antt =====
-- src/phase3/order_book_engine.cpp: erased slots stay used, and `put_order` takes one only on the way to
-- a slot that never was.
use hft_feed_handler.Common.{
  ℕ, zero, suc, ◌<◌, false, none, List, ◌≡◌, refl, inl, inr, sym, ap, ◌∙◌, ltb, ◌/◌, ◌==◌,
  Bool-cases, arith, bit_and, bit_and_le, length, length-replicate, get_or-replicate,
}
use hft_feed_handler.Phase2.Tracker.{inc64}
use hft_feed_handler.Phase3.OrderTable.{
  OrderTable, OrderRef, OrderSlot, default_slot, slot_at, is_live, place_from, put_order, mix_key,
  new_table,
}
use hft_feed_handler.Phase3.OrderTable.Place.{next_tombstone}
use hft_feed_handler.Phase3.OrderTable.Write.{home_fits}
use hft_feed_handler.Phase3.OrderTable.Map.{IsWellFormed}

-- Every slot has been used, and none is live for the key.
abbrev pub IsUsedUp : List OrderSlot → ℕ → Type 0
IsUsedUp orders key =
    (j : ℕ)
    → j < length orders
    → ((slot_at orders j).state == 0 ≡ false) × (is_live (slot_at orders j) key ≡ false)

place_from_full :
    (n : ℕ) (orders : List OrderSlot) (mask key tombstone i : ℕ)
    → mask < length orders
    → i < length orders
    → IsUsedUp orders key
    → place_from n orders mask key tombstone i ≡ none
unfolding place_from
place_from_full zero orders mask key tombstone i fits lt full = refl
place_from_full (suc n) orders mask key tombstone i fits lt full =
    rw ((full i lt).1, (full i lt).0)
      (place_from_full n orders mask key (next_tombstone orders tombstone i)
        (bit_and (inc64 i) mask) fits (omega (arith, bit_and_le (inc64 i) mask)) full)

-- If every slot of a table has been used, `put_order` refuses every key that is not live, however few
-- slots are live, and changes no slot.
pub put_order_full :
    (t : OrderTable) (key : ℕ) (value : OrderRef)
    → t.order_mask < length t.orders
    → IsUsedUp t.orders key
    → ((put_order t key value).1 ≡ false) × ((put_order t key value).0.orders ≡ t.orders)
unfolding put_order
put_order_full t key value fits full = elim (Bool-cases (ltb (length t.orders / 2) t.order_count)) [
  | inl many ↦ rw many (refl, refl)
  | inr room ↦
      rw
        (
          room,
          place_from_full (length t.orders) t.orders t.order_mask key (length t.orders)
              (bit_and (mix_key key) t.order_mask) fits
              (home_fits t.order_mask (length t.orders) key fits) full,
        )
        (refl, refl)
]

-- A new table has no live slot.
pub new_table-IsWellFormed : (slots : ℕ) → 0 < slots → IsWellFormed (new_table slots)
unfolding IsWellFormed new_table
new_table-IsWellFormed slots some_slots = (
  omega (arith, length-replicate slots default_slot),
  (λ i k lt h.
      absurd
        (ground (arith, sym (ap (λ x. is_live x k) (get_or-replicate slots i default_slot)) ∙ h))),
)
