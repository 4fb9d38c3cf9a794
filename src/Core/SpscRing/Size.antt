-- ===== src/Core/SpscRing/Size.antt =====
-- include/mf/core/spsc_ring.hpp: `size`.
use hft_feed_handler.Common.{
  ℕ, ◌+◌, ◌-◌, ◌≤◌, ◌<◌, ◌≡◌, ap, inl, inr, Bool-cases, List, [], ltb, length, arith, ltb→lt,
  ltb-false→le, length-append,
}
use native.Mathlib.Nat.{mod-eq-sub-mod}
use hft_feed_handler.Core.SpscRing.{size}
use hft_feed_handler.Core.SpscRing.Steps.{Threads, new_threads, Reach}
use hft_feed_handler.Core.SpscRing.Slots.{mod_small}
use hft_feed_handler.Core.SpscRing.Fifo.{Queues, Reach-Queues, new_threads-Queues}

module _ {A : Type 0} (default : A) where
  size_lem : (t : Threads A) (q : List A) → Queues default t q → size t.ring ≡ length q
  unfolding size
  size_lem t q i = elim (Bool-cases (ltb (t.ring.tail + length q) (length t.ring.buffer))) [
    | inl flat ↦ ground (
      arith,
      i.head_eq,
      i.tail_in,
      i.short,
      mod_small (length t.ring.buffer) (t.ring.tail + length q) (ltb→lt _ _ flat),
    )
    | inr around ↦
        let over : length t.ring.buffer ≤ t.ring.tail + length q = ltb-false→le _ _ around in
        ground (
          arith,
          i.head_eq,
          i.tail_in,
          i.short,
          mod-eq-sub-mod over,
          mod_small (length t.ring.buffer) (t.ring.tail + length q - length t.ring.buffer)
              (omega (arith, i.tail_in, i.short)),
        )
  ]

  -- After any interleaving `size` is the number of items that were pushed and not yet popped.
  pub Reach-size :
      (n : ℕ) (t : Threads A)
      → 0 < n
      → Reach default (new_threads n default) t
      → size t.ring + length t.popped ≡ length t.pushed
  Reach-size n t pos r =
      let (q, i) = Reach-Queues default [] (new_threads-Queues default n pos) r in
      omega (arith, size_lem t q i, ap length i.order, length-append t.popped q)
