-- ===== src/Phase3/OrderTable/Place.antt =====
-- src/phase3/order_book_engine.cpp, `put_order`: the slot that its loop chooses.
use hft_feed_handler.Common.{
  ℕ, zero, suc, ◌<◌, Bool, true, false, ◌&&◌, Option, none, some, List, ◌≡◌, refl, inl, inr, sym,
  ap, ◌∙◌, subst, ◌==◌, if◌then◌else◌, Bool-cases, arith, bit_and, bit_and_le, length, set,
  ℕ_discrete,
}
use mathlib.Core.Option.{some-injective, none-ne-some}
use hft_feed_handler.Phase2.Tracker.{inc64}
use hft_feed_handler.Phase3.OrderTable.{OrderSlot, slot_at, is_live, find_from, place_from}
use hft_feed_handler.Phase3.OrderTable.Probe.{slot_at-set_self, slot_at-set_ne}

pub live_used : (x : OrderSlot) (key : ℕ) → is_live x key ≡ true → (x.state == 0) ≡ false
live_used x key h = ground arith

abbrev place_at : ℕ → Bool → Option (ℕ × Bool)
place_at i new = some (i, new)

fst_some : (a b : ℕ) (c d : Bool) → place_at a c ≡ place_at b d → a ≡ b
fst_some a b c d e = ap (λ p. p.0) (some-injective _ _ e)

not_new : (a b : ℕ) → place_at a true ≡ place_at b false → ⊥
not_new a b e = ground (arith, ap (λ p. p.1) (some-injective _ _ e))

not_old : (a b : ℕ) → place_at a false ≡ place_at b true → ⊥
not_old a b e = ground (arith, ap (λ p. p.1) (some-injective _ _ e))

-- The tombstone after a round.
abbrev pub next_tombstone : List OrderSlot → ℕ → ℕ → ℕ
next_tombstone orders tombstone i =
    if (slot_at orders i).state == 2 && tombstone == length orders then i else tombstone

-- An entry to update is the one that `find_from` finds.
pub placed_old :
    (n : ℕ) (orders : List OrderSlot) (mask key tombstone i s : ℕ)
    → place_from n orders mask key tombstone i ≡ some (s, false)
    → find_from n orders mask key i ≡ some s
unfolding find_from place_from
placed_old zero orders mask key tombstone i s = λ e. absurd (none-ne-some _ e)
placed_old (suc n) orders mask key tombstone i s =
    elim (Bool-cases (is_live (slot_at orders i) key)) [
      | inl live ↦
          rw (live, live_used (slot_at orders i) key live) (λ e. ap some (fst_some _ _ _ _ e))
      | inr other ↦ elim (Bool-cases ((slot_at orders i).state == 0)) [
        | inl empty ↦ rw (other, empty) (λ e. absurd (not_new _ _ e))
        | inr used ↦
            rw (other, used)
              (placed_old n orders mask key (next_tombstone orders tombstone i)
                (bit_and (inc64 i) mask) s)
      ]
    ]

-- A new entry is made only if `find_from` finds none.
pub placed_new :
    (n : ℕ) (orders : List OrderSlot) (mask key tombstone i s : ℕ)
    → place_from n orders mask key tombstone i ≡ some (s, true)
    → find_from n orders mask key i ≡ none
unfolding find_from place_from
placed_new zero orders mask key tombstone i s = λ e. refl
placed_new (suc n) orders mask key tombstone i s =
    elim (Bool-cases (is_live (slot_at orders i) key)) [
      | inl live ↦ rw (live, live_used (slot_at orders i) key live) (λ e. absurd (not_old _ _ e))
      | inr other ↦ elim (Bool-cases ((slot_at orders i).state == 0)) [
        | inl empty ↦ rw (other, empty) (λ e. refl)
        | inr used ↦
            rw (other, used)
              (placed_new n orders mask key (next_tombstone orders tombstone i)
                (bit_and (inc64 i) mask) s)
      ]
    ]

-- Once there is a tombstone, it is the slot of a new entry.
placed_tombstone :
    (n : ℕ) (orders : List OrderSlot) (mask key tombstone i s : ℕ)
    → (tombstone == length orders) ≡ false
    → place_from n orders mask key tombstone i ≡ some (s, true)
    → s ≡ tombstone
unfolding place_from
placed_tombstone zero orders mask key tombstone i s set = λ e. absurd (none-ne-some _ e)
placed_tombstone (suc n) orders mask key tombstone i s set =
    elim (Bool-cases (is_live (slot_at orders i) key)) [
      | inl live ↦ rw live (λ e. absurd (not_old _ _ e))
      | inr other ↦ elim (Bool-cases ((slot_at orders i).state == 0)) [
        | inl empty ↦ rw (other, empty, kept) (rw set (λ e. sym (fst_some _ _ _ _ e)))
        | inr used ↦
            rw (other, used, kept)
              (placed_tombstone n orders mask key tombstone (bit_and (inc64 i) mask) s set)
      ]
    ]
  where
    kept : next_tombstone orders tombstone i ≡ tombstone
    kept = ground (arith, set)

-- A usable slot: in range and not live.
abbrev pub IsFree : List OrderSlot → ℕ → Type 0
IsFree orders s = (s < length orders) × (((slot_at orders s).state == 1) ≡ false)

pub place_from-IsFree :
    (n : ℕ) (orders : List OrderSlot) (mask key tombstone i s : ℕ)
    → mask < length orders
    → i < length orders
    → ((tombstone == length orders) ≡ false → IsFree orders tombstone)
    → place_from n orders mask key tombstone i ≡ some (s, true)
    → IsFree orders s
unfolding place_from
place_from-IsFree zero orders mask key tombstone i s fits lt free = λ e. absurd (none-ne-some _ e)
place_from-IsFree (suc n) orders mask key tombstone i s fits lt free =
    elim (Bool-cases (is_live (slot_at orders i) key)) [
      | inl live ↦ rw live (λ e. absurd (not_old _ _ e))
      | inr other ↦ elim (Bool-cases ((slot_at orders i).state == 0)) [
        | inl empty ↦
            rw (other, empty) (λ e. subst (IsFree orders) (fst_some _ _ _ _ e) (chosen empty))
        | inr used ↦
            rw (other, used)
              (place_from-IsFree n orders mask key (next_tombstone orders tombstone i)
                (bit_and (inc64 i) mask) s fits (omega (arith, bit_and_le (inc64 i) mask)) next)
      ]
    ]
  where
    next :
        (next_tombstone orders tombstone i == length orders) ≡ false
        → IsFree orders (next_tombstone orders tombstone i)
    next = elim (Bool-cases ((slot_at orders i).state == 2 && tombstone == length orders)) [
      | inl here ↦ rw here (λ e. (lt, ground arith))
      | inr old ↦ rw old free
    ]

    chosen :
        ((slot_at orders i).state == 0) ≡ true
        → IsFree orders (
            if next_tombstone orders tombstone i == length orders
            then i
            else next_tombstone orders tombstone i)
    chosen empty = elim (Bool-cases (next_tombstone orders tombstone i == length orders)) [
      | inl none_yet ↦ rw none_yet (lt, ground arith)
      | inr there ↦ rw there (next there)
    ]

-- In the table with the new entry, the key is found where it was put.
pub inserted_found :
    (n : ℕ) (orders : List OrderSlot) (mask key i s : ℕ) (slot : OrderSlot)
    → i < length orders
    → mask < length orders
    → s < length orders
    → is_live slot key ≡ true
    → place_from n orders mask key (length orders) i ≡ some (s, true)
    → find_from n (set orders s slot) mask key i ≡ some s
unfolding place_from find_from
inserted_found zero orders mask key i s slot lt fits in_range live = λ e. absurd (none-ne-some _ e)
inserted_found (suc n) orders mask key i s slot lt fits in_range live = elim (ℕ_discrete s i) [
  | yes here ↦ (λ e.
      subst (λ k. find_from (suc n) (set orders s slot) mask key k ≡ some s) here
        (rw (slot_at-set_self orders s slot in_range, live_used slot key live, live) refl))
  | no ne ↦ elim (Bool-cases (is_live (slot_at orders i) key)) [
    | inl found ↦ rw found (λ e. absurd (not_old _ _ e))
    | inr other ↦ elim (Bool-cases ((slot_at orders i).state == 0)) [
      | inl empty ↦ rw (other, empty) (λ e. absurd (ne (sym (fst_some _ _ _ _ e) ∙ own empty)))
      | inr used ↦ elim (Bool-cases ((slot_at orders i).state == 2)) [
        | inl tomb ↦
            rw (other, used, taken tomb)
              (λ e. absurd (
                ne (
                  placed_tombstone n orders mask key i (bit_and (inc64 i) mask) s (ground arith)
                    e)))
        | inr plain ↦
            rw (other, used, kept plain, slot_at-set_ne orders s i slot ne, used, other)
              (inserted_found n orders mask key (bit_and (inc64 i) mask) s slot
                (omega (arith, bit_and_le (inc64 i) mask)) fits in_range live)
      ]
    ]
  ]
]
  where
    taken : ((slot_at orders i).state == 2) ≡ true → next_tombstone orders (length orders) i ≡ i
    taken tomb = ground (arith, tomb)

    kept :
        ((slot_at orders i).state == 2) ≡ false
        → next_tombstone orders (length orders) i ≡ length orders
    kept plain = ground (arith, plain)

    own :
        ((slot_at orders i).state == 0) ≡ true
        → (if next_tombstone orders (length orders) i == length orders
            then i
            else next_tombstone orders (length orders) i)
          ≡ i
    own empty = ground (arith, empty)
