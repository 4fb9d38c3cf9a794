-- ===== src/Phase3/OrderTable/Map.antt =====
-- src/phase3/order_book_engine.cpp: the table of orders stands for a finite map from keys to orders.
use hft_feed_handler.Common.{
  ℕ, ◌<◌, Bool, true, false, ◌&&◌, Option, none, some, List, ◌≡◌, refl, inl, inr, sym, ap, ◌∙◌, ltb,
  ◌/◌, ◌==◌, if◌then◌else◌, Bool-cases, arith, bit_and, length, set, length-set, ℕ_discrete,
}
use mathlib.Core.Option.{none-ne-some}
use hft_feed_handler.Phase3.OrderTable.{
  OrderTable, OrderRef, OrderSlot, slot_at, is_live, place_from, put_order, put_there, mix_key,
}
use hft_feed_handler.Phase3.OrderTable.Probe.{
  slot_at-set_self, slot_at-set_ne, found_live, found_range, Keeps, keeps_lem, still_found,
}
use hft_feed_handler.Phase3.OrderTable.Place.{
  live_used, IsFree, placed_old, placed_new, place_from-IsFree, inserted_found,
}
use hft_feed_handler.Phase3.OrderTable.Write.{
  find_in, IsConsistent, value_there, home_fits, write_lem,
}

unfoldable pub IsWellFormed : OrderTable → Type 0
IsWellFormed t = IsConsistent t.orders t.order_mask

-- The order of a key.
abbrev pub value_of : OrderTable → ℕ → Option OrderRef
value_of t key = value_there t.orders (find_in t.orders t.order_mask key)

-- What `put_order` and `erase_order` may do to a map.
abbrev pub Becomes : OrderTable → OrderTable → ℕ → Bool → Option OrderRef → Type 0
Becomes t t' key changed w =
    IsWellFormed t' × ((k : ℕ) → value_of t' k ≡ (if changed && key == k then w else value_of t k))

update_there :
    (t : OrderTable) (key : ℕ) (value : OrderRef) (s : ℕ)
    → IsWellFormed t
    → find_in t.orders t.order_mask key ≡ some s
    → Becomes t (put_there t key value (some (s, false))).0 key true (some value)
unfolding IsWellFormed Keeps
update_there t key value s good e =
    write_lem orders mask key s slot good in_range used alone (some value) own (
      ap (value_there (set orders s slot)) found
      ∙ ap (λ x. some x.value) (slot_at-set_self orders s slot in_range))
  where
    orders : List OrderSlot
    orders = t.orders

    mask : ℕ
    mask = t.order_mask

    slot : OrderSlot
    slot = record (slot_at orders s) { value = value }

    live : is_live (slot_at orders s) key ≡ true
    live = found_live (length orders) orders mask key (bit_and (mix_key key) mask) s e

    in_range : s < length orders
    in_range =
        found_range (length orders) orders mask key (bit_and (mix_key key) mask) s good.0
          (home_fits mask (length orders) key good.0) e

    used : (slot.state == 0) ≡ false
    used = live_used (slot_at orders s) key live

    alone :
        (k : ℕ)
        → (key == k) ≡ false
        → (is_live slot k ≡ false) × (is_live (slot_at orders s) k ≡ false)
    alone k other = (ground (arith, live, other), ground (arith, live, other))

    same : (i : ℕ) → Keeps orders s slot key i
    same i = keeps_lem orders s slot key i in_range used refl

    found : find_in (set orders s slot) mask key ≡ some s
    found =
        rw (length-set orders s slot)
          (still_found (length orders) orders mask key (bit_and (mix_key key) mask) s s slot same e)

    own :
        (j : ℕ)
        → j < length orders
        → is_live (slot_at (set orders s slot) j) key ≡ true
        → find_in (set orders s slot) mask key ≡ some j
    own j lt h = found ∙ sym e ∙ good.1 j key lt (sym (same j).1 ∙ h)

insert_there :
    (t : OrderTable) (key : ℕ) (value : OrderRef) (s : ℕ)
    → IsWellFormed t
    → place_from
        (length t.orders)
        t.orders
        t.order_mask
        key
        (length t.orders)
        (bit_and (mix_key key) t.order_mask)
      ≡ some (s, true)
    → Becomes t (put_there t key value (some (s, true))).0 key true (some value)
unfolding IsWellFormed
insert_there t key value s good e =
    write_lem orders mask key s slot good free.0 refl alone (some value) own (
      ap (value_there (set orders s slot)) found
      ∙ ap (λ x. some x.value) (slot_at-set_self orders s slot free.0))
  where
    orders : List OrderSlot
    orders = t.orders

    mask : ℕ
    mask = t.order_mask

    slot : OrderSlot
    slot = record { key = key; value = value; state = 1 }

    home : bit_and (mix_key key) mask < length orders
    home = home_fits mask (length orders) key good.0

    free : IsFree orders s
    free =
        place_from-IsFree (length orders) orders mask key (length orders)
          (bit_and (mix_key key) mask) s good.0 home (λ bad. ground arith) e

    live : is_live slot key ≡ true
    live = ground arith

    alone :
        (k : ℕ)
        → (key == k) ≡ false
        → (is_live slot k ≡ false) × (is_live (slot_at orders s) k ≡ false)
    alone k other = (other, ground (arith, free.1))

    found : find_in (set orders s slot) mask key ≡ some s
    found = rw (length-set orders s slot) (
        inserted_found (length orders) orders mask key (bit_and (mix_key key) mask) s slot home
          good.0 free.0 live e)

    none_before : find_in orders mask key ≡ none
    none_before =
        placed_new (length orders) orders mask key (length orders) (bit_and (mix_key key) mask) s e

    own :
        (j : ℕ)
        → j < length orders
        → is_live (slot_at (set orders s slot) j) key ≡ true
        → find_in (set orders s slot) mask key ≡ some j
    own j lt h = elim (ℕ_discrete s j) [
      | yes here ↦ found ∙ ap some here
      | no ne ↦ absurd (
          none-ne-some _ (
            sym none_before
            ∙ good.1 j key lt
                (sym (ap (λ x. is_live x key) (slot_at-set_ne orders s j slot ne)) ∙ h)))
    ]

put_there_lem :
    (t : OrderTable) (key : ℕ) (value : OrderRef) (o : Option (ℕ × Bool))
    → IsWellFormed t
    → place_from
        (length t.orders)
        t.orders
        t.order_mask
        key
        (length t.orders)
        (bit_and (mix_key key) t.order_mask)
      ≡ o
    → Becomes t (put_there t key value o).0 key (put_there t key value o).1 (some value)
unfolding IsWellFormed
put_there_lem t key value none good e = (good, (λ k. refl))
put_there_lem t key value (some (s, true)) good e = insert_there t key value s good e
put_there_lem t key value (some (s, false)) good e = update_there t key value s good (
    placed_old (length t.orders) t.orders t.order_mask key (length t.orders)
      (bit_and (mix_key key) t.order_mask) s e)

-- On a well-formed table `put_order` maps the key to the order if it answers true, changes no other
-- key's order, changes none if it answers false, and leaves the table well-formed.
pub put_order_lem :
    (t : OrderTable) (key : ℕ) (value : OrderRef)
    → IsWellFormed t
    → (let (t', stored) = put_order t key value in
        IsWellFormed t'
        × ((k : ℕ) → value_of t' k ≡ (if stored && key == k then some value else value_of t k)))
unfolding put_order IsWellFormed
put_order_lem t key value good = elim (Bool-cases (ltb (length t.orders / 2) t.order_count)) [
  | inl full ↦ rw full (good, (λ k. refl))
  | inr room ↦ rw room (put_there_lem t key value _ good refl)
]
