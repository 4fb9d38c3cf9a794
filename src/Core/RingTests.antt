-- ===== src/Core/RingTests.antt =====
-- include/mf/core/spsc_ring.hpp run on a ring of two slots.
use hft_feed_handler.Common.{ℕ, ◌<◌, ◌≡◌, refl, List, [], ◌∷◌, ◌++◌, length, arith}
use hft_feed_handler.Core.SpscRing.{new_ring}
use hft_feed_handler.Core.SpscRing.Steps.{
  Threads, new_threads, ready_to_push, ready_to_pop, Reach, at_once, then_step, push_test,
  push_write, push_store, pop_test, has_item,
}
use hft_feed_handler.Core.SpscRing.Slots.{Stands}
use hft_feed_handler.Core.SpscRing.Fifo.{Reach-Fifo}
use hft_feed_handler.Core.SpscRing.Calls.{Pushes, Pops, try_push-Pushes, try_pop-Pops}

abbrev start : Threads ℕ
start = new_threads 2 0

-- The item 5 is in, and the popping thread has seen it.
abbrev seen : Threads ℕ
seen = record {
  ring = record { head = 1; tail = 0; buffer = 5 ∷ 0 ∷ [] };
  producer = ready_to_push;
  consumer = has_item;
  pushed = 5 ∷ [];
  popped = [];
}

reached : Reach 0 start seen
unfolding new_ring
reached =
    then_step
      (then_step
        (then_step (then_step at_once (push_test 5 refl (λ e. ground arith))) (push_write 5 refl))
        (push_store 5 refl))
      (pop_test refl (λ e. ground arith))

Reach-Fifo_example :
    (q : List ℕ) × (seen.pushed ≡ seen.popped ++ q)
    × (length q < length seen.ring.buffer)
    × Stands 0 seen.ring.buffer seen.ring.tail q
Reach-Fifo_example = Reach-Fifo 0 2 seen (omega arith) reached

-- The ring is full for a push, while the popping thread is about to read.
try_push-Pushes_example : (q : List ℕ) × (seen.pushed ≡ seen.popped ++ q) × Pushes 0 seen 6 q
try_push-Pushes_example = try_push-Pushes 0 2 seen 6 (omega arith) reached refl

-- The item 5 is in.
abbrev filled : Threads ℕ
filled = record seen { consumer = ready_to_pop }

filled_reached : Reach 0 start filled
unfolding new_ring
filled_reached =
    then_step
      (then_step (then_step at_once (push_test 5 refl (λ e. ground arith))) (push_write 5 refl))
      (push_store 5 refl)

try_pop-Pops_example : (q : List ℕ) × (filled.pushed ≡ filled.popped ++ q) × Pops 0 filled q
try_pop-Pops_example = try_pop-Pops 0 2 filled (omega arith) filled_reached refl
