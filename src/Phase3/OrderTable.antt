-- ===== src/Phase3/OrderTable.antt =====
-- src/phase3/order_book_engine.cpp, `find_order`, `put_order`, `erase_order`: the open-addressing table
-- of live orders. A slot's state is 0 if it was never used, 1 if live, 2 if erased; a pointer into the
-- table is an index. `order_mask_` is one less than the number of slots, so every index is in range,
-- and what `get_or` reads past the end never matters. `queue_ahead` holds the number that the source
-- casts to `double`.
pub mod Probe
pub mod Place
pub mod Write
pub mod Map
pub mod Erase
pub mod Full
use hft_feed_handler.Common.{
  ℕ, zero, suc, ◌-◌, ◌*◌, ◌/◌, ◌%◌, ◌^◌, bit_and, bit_xor, Bool, true, false, ◌&&◌, Option, none,
  some, List, ltb, ◌==◌, if◌then◌else◌, length, get_or, set, replicate, u64_mod,
}
use hft_feed_handler.Core.Types.{Venue, nasdaq, Side, venue_to_u8}
use hft_feed_handler.Phase2.Tracker.{inc64}

pub record OrderRef : Type 0 where
  pub venue : Venue
  pub symbol_u64 : ℕ
  pub side : Side
  pub price : ℕ
  pub qty : ℕ
  pub queue_ahead : ℕ

pub record OrderSlot : Type 0 where
  pub key : ℕ
  pub value : OrderRef
  pub state : ℕ

-- `OrderSlot{}`.
abbrev pub default_slot : OrderSlot
default_slot = record {
  key = 0;
  value = record {
    venue = nasdaq;
    symbol_u64 = 0;
    side = Side.unknown;
    price = 0;
    qty = 0;
    queue_ahead = 0;
  };
  state = 0;
}

pub record OrderTable : Type 0 where
  pub orders : List OrderSlot
  pub order_mask : ℕ
  pub order_count : ℕ
  pub dropped_order_inserts : ℕ

-- The table of a new engine; the source's has `1 << 21` slots.
unfoldable pub new_table : ℕ → OrderTable
new_table slots = record {
  orders = replicate slots default_slot;
  order_mask = slots - 1;
  order_count = 0;
  dropped_order_inserts = 0;
}

unfoldable pub order_key : Venue → ℕ → ℕ
order_key venue order_id = bit_xor ((venue_to_u8 venue * 2 ^ 56) % u64_mod) order_id

-- `key ^= key >> 33U`.
abbrev fold : ℕ → ℕ
fold key = bit_xor key (key / 2 ^ 33)

unfoldable pub mix_key : ℕ → ℕ
mix_key key =
    fold ((fold ((fold key * 0xff51afd7ed558ccd) % u64_mod) * 0xc4ceb9fe1a85ec53) % u64_mod)

abbrev pub slot_at : List OrderSlot → ℕ → OrderSlot
slot_at orders idx = get_or orders idx default_slot

abbrev pub is_live : OrderSlot → ℕ → Bool
is_live slot key = slot.state == 1 && slot.key == key

-- The loop of `find_order`; the result is the index of the slot.
unfoldable pub find_from : ℕ → List OrderSlot → ℕ → ℕ → ℕ → Option ℕ
find_from zero orders mask key idx = none
find_from (suc probes) orders mask key idx =
    let rest = find_from probes orders mask key (bit_and (inc64 idx) mask) in
    if (slot_at orders idx).state == 0
    then none
    else if is_live (slot_at orders idx) key
    then some idx
    else rest

unfoldable pub find_order : OrderTable → ℕ → Option ℕ
find_order t key =
    find_from (length t.orders) t.orders t.order_mask key (bit_and (mix_key key) t.order_mask)

-- The loop of `put_order`: the slot to write and whether that is a new entry. A tombstone's index equal
-- to the number of slots is none yet.
unfoldable pub place_from : ℕ → List OrderSlot → ℕ → ℕ → ℕ → ℕ → Option (ℕ × Bool)
place_from zero orders mask key first_tombstone idx = none
place_from (suc probes) orders mask key first_tombstone idx =
    let tombstone =
      if (slot_at orders idx).state == 2 && first_tombstone == length orders
      then idx
      else first_tombstone in
    let rest = place_from probes orders mask key tombstone (bit_and (inc64 idx) mask) in
    if is_live (slot_at orders idx) key
    then some (idx, false)
    else if (slot_at orders idx).state == 0
    then some ((if tombstone == length orders then idx else tombstone), true)
    else rest

-- What `put_order` does with the place found.
abbrev pub put_there : OrderTable → ℕ → OrderRef → Option (ℕ × Bool) → OrderTable × Bool
put_there t key value none =
    (record t { dropped_order_inserts = inc64 t.dropped_order_inserts }, false)
put_there t key value (some (idx, false)) =
    (record t { orders = set t.orders idx (record (slot_at t.orders idx) { value = value }) }, true)
put_there t key value (some (idx, true)) = (
  record t {
    orders = set t.orders idx (record { key = key; value = value; state = 1 });
    order_count = inc64 t.order_count;
  },
  true,
)

unfoldable pub put_order : OrderTable → ℕ → OrderRef → OrderTable × Bool
put_order t key value =
    if ltb (length t.orders / 2) t.order_count
    then (record t { dropped_order_inserts = inc64 t.dropped_order_inserts }, false)
    else put_there t key value (
        place_from (length t.orders) t.orders t.order_mask key (length t.orders)
          (bit_and (mix_key key) t.order_mask))

-- `erase_order` looks a key up as `find_order` does.
abbrev pub erase_there : OrderTable → Option ℕ → OrderTable
erase_there t none = t
erase_there t (some idx) = record t {
  orders = set t.orders idx (record (slot_at t.orders idx) { state = 2 });
  order_count = t.order_count - 1;
}

unfoldable pub erase_order : OrderTable → ℕ → OrderTable
erase_order t key = erase_there t (find_order t key)
