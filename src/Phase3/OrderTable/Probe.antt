-- ===== src/Phase3/OrderTable/Probe.antt =====
-- src/phase3/order_book_engine.cpp: what the probing loops of the order table find and choose.
use hft_feed_handler.Common.{
  ℕ, zero, suc, ◌<◌, true, false, some, List, ◌≡◌, ◌≢◌, refl, inl, inr, ◌∙◌, subst, ◌==◌,
  Bool-cases, arith, bit_and, bit_and_le, length, set, get_or-set_self, get_or-set_ne, ℕ_discrete,
}
use mathlib.Core.Option.{some-injective, none-ne-some}
use hft_feed_handler.Phase2.Tracker.{inc64}
use hft_feed_handler.Phase3.OrderTable.{OrderSlot, default_slot, slot_at, is_live, find_from}

pub slot_at-set_self :
    (orders : List OrderSlot) (s : ℕ) (slot : OrderSlot)
    → s < length orders
    → slot_at (set orders s slot) s ≡ slot
slot_at-set_self orders s slot lt = get_or-set_self orders s slot default_slot lt

pub slot_at-set_ne :
    (orders : List OrderSlot) (s i : ℕ) (slot : OrderSlot)
    → s ≢ i
    → slot_at (set orders s slot) i ≡ slot_at orders i
slot_at-set_ne orders s i slot ne = get_or-set_ne orders s i slot default_slot ne

-- What `find_from` finds is a live slot of the key.
pub found_live :
    (n : ℕ) (orders : List OrderSlot) (mask key i j : ℕ)
    → find_from n orders mask key i ≡ some j
    → is_live (slot_at orders j) key ≡ true
unfolding find_from
found_live zero orders mask key i j = λ e. absurd (none-ne-some _ e)
found_live (suc n) orders mask key i j = elim (Bool-cases ((slot_at orders i).state == 0)) [
  | inl empty ↦ rw empty (λ e. absurd (none-ne-some _ e))
  | inr used ↦ elim (Bool-cases (is_live (slot_at orders i) key)) [
    | inl live ↦
        rw (used, live)
          (λ e. subst (λ k. is_live (slot_at orders k) key ≡ true) (some-injective _ _ e) live)
    | inr other ↦ rw (used, other) (found_live n orders mask key (bit_and (inc64 i) mask) j)
  ]
]

pub found_range :
    (n : ℕ) (orders : List OrderSlot) (mask key i j : ℕ)
    → mask < length orders
    → i < length orders
    → find_from n orders mask key i ≡ some j
    → j < length orders
unfolding find_from
found_range zero orders mask key i j fits lt = λ e. absurd (none-ne-some _ e)
found_range (suc n) orders mask key i j fits lt =
    elim (Bool-cases ((slot_at orders i).state == 0)) [
      | inl empty ↦ rw empty (λ e. absurd (none-ne-some _ e))
      | inr used ↦ elim (Bool-cases (is_live (slot_at orders i) key)) [
        | inl live ↦ rw (used, live) (λ e. subst (λ k. k < length orders) (some-injective _ _ e) lt)
        | inr other ↦
            rw (used, other)
              (found_range n orders mask key (bit_and (inc64 i) mask) j fits
                (omega (arith, bit_and_le (inc64 i) mask)))
      ]
    ]

-- What a write that leaves the slot used, and live for the key if it was, shows at an index.
unfoldable pub Keeps : List OrderSlot → ℕ → OrderSlot → ℕ → ℕ → Type 0
Keeps orders s slot key i =
    ((slot_at orders i).state == 0 ≡ false → (slot_at (set orders s slot) i).state == 0 ≡ false)
    × (is_live (slot_at (set orders s slot) i) key ≡ is_live (slot_at orders i) key)

pub keeps_lem :
    (orders : List OrderSlot) (s : ℕ) (slot : OrderSlot) (key i : ℕ)
    → s < length orders
    → (slot.state == 0) ≡ false
    → is_live slot key ≡ is_live (slot_at orders s) key
    → Keeps orders s slot key i
unfolding Keeps
keeps_lem orders s slot key i lt used same = elim (ℕ_discrete s i) [
  | no ne ↦ rw (slot_at-set_ne orders s i slot ne) ((λ e. e), refl)
  | yes here ↦
      subst
        (λ k.
          ((slot_at orders k).state == 0 ≡ false
            → (slot_at (set orders s slot) k).state == 0 ≡ false)
          × (is_live (slot_at (set orders s slot) k) key ≡ is_live (slot_at orders k) key))
        here (rw (slot_at-set_self orders s slot lt) ((λ e. used), same))
]

-- Such a write hides nothing that was found.
pub still_found :
    (n : ℕ) (orders : List OrderSlot) (mask key i j s : ℕ) (slot : OrderSlot)
    → ((k : ℕ) → Keeps orders s slot key k)
    → find_from n orders mask key i ≡ some j
    → find_from n (set orders s slot) mask key i ≡ some j
unfolding find_from Keeps
still_found zero orders mask key i j s slot keeps = λ e. absurd (none-ne-some _ e)
still_found (suc n) orders mask key i j s slot keeps =
    elim (Bool-cases ((slot_at orders i).state == 0)) [
      | inl empty ↦ rw empty (λ e. absurd (none-ne-some _ e))
      | inr used ↦ elim (Bool-cases (is_live (slot_at orders i) key)) [
        | inl live ↦ rw (used, live, (keeps i).0 used, (keeps i).1 ∙ live) (λ e. e)
        | inr other ↦
            rw (used, other, (keeps i).0 used, (keeps i).1 ∙ other)
              (still_found n orders mask key (bit_and (inc64 i) mask) j s slot keeps)
      ]
    ]
