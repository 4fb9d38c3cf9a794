-- ===== src/Core/SpscRing.antt =====
-- include/mf/core/spsc_ring.hpp, `SPSCRingBuffer`. The buffer has `Size` slots, and `& mask_` is the
-- remainder by `Size`, a power of two. Owned and external storage differ only in where the slots are.
pub mod Steps
pub mod Slots
pub mod Fifo
pub mod Calls
pub mod Size
use hft_feed_handler.Common.{
  ℕ, ◌+◌, ◌-◌, ◌%◌, Bool, true, false, Option, none, some, List, ltb, ◌==◌, if◌then◌else◌, length,
  get_or, set, replicate,
}

pub record SpscRingBuffer {ℓ} (A : Type ℓ) : Type ℓ where
  pub head : ℕ
  pub tail : ℕ
  pub buffer : List A

unfoldable pub new_ring {ℓ} : {A : Type ℓ} → ℕ → A → SpscRingBuffer A
new_ring size default = record { head = 0; tail = 0; buffer = replicate size default }

-- `(i + 1U) & mask_`.
abbrev pub following {ℓ} : {A : Type ℓ} → SpscRingBuffer A → ℕ → ℕ
following r i = (i + 1) % length r.buffer

unfoldable pub try_push {ℓ} : {A : Type ℓ} → SpscRingBuffer A → A → SpscRingBuffer A × Bool
try_push r item =
    let next = following r r.head in
    if next == r.tail
    then (r, false)
    else (record r { buffer = set r.buffer r.head item; head = next }, true)

unfoldable pub try_pop {ℓ} : {A : Type ℓ} → A → SpscRingBuffer A → SpscRingBuffer A × Option A
try_pop default r =
    if r.tail == r.head
    then (r, none)
    else (record r { tail = following r r.tail }, some (get_or r.buffer r.tail default))

unfoldable pub size {ℓ} : {A : Type ℓ} → SpscRingBuffer A → ℕ
size r = if ltb r.head r.tail then length r.buffer - (r.tail - r.head) else r.head - r.tail
