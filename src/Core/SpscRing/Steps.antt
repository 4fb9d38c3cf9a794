-- ===== src/Core/SpscRing/Steps.antt =====
-- include/mf/core/spsc_ring.hpp: the ring between two threads. Each access to what they share is a step:
-- the test, the access to the slot and the store of the index. A thread reads its own index unchanged by
-- the other. The release stores and acquire loads order a slot's accesses with the index's, so steps in a
-- row are all there is to see.
use hft_feed_handler.Common.{ℕ, ◌≡◌, ◌≢◌, List, [], ◌∷◌, ◌++◌, get_or, set}
use hft_feed_handler.Core.SpscRing.{SpscRingBuffer, new_ring, following}

-- Where `try_push` stands: before its test, behind it, or behind the write.
pub data Producer {ℓ} (A : Type ℓ) : Type ℓ where
  ready_to_push : Producer A
  has_room : A → Producer A
  has_written : A → Producer A

-- Where `try_pop` stands.
pub data Consumer {ℓ} (A : Type ℓ) : Type ℓ where
  ready_to_pop : Consumer A
  has_item : Consumer A
  has_read : A → Consumer A

-- Both threads, with the items whose calls have returned true so far.
pub record Threads {ℓ} (A : Type ℓ) : Type ℓ where
  pub ring : SpscRingBuffer A
  pub producer : Producer A
  pub consumer : Consumer A
  pub pushed : List A
  pub popped : List A

abbrev pub new_threads {ℓ} : {A : Type ℓ} → ℕ → A → Threads A
new_threads size default = record {
  ring = new_ring size default;
  producer = ready_to_push;
  consumer = ready_to_pop;
  pushed = [];
  popped = [];
}

module _ {ℓ} {A : Type ℓ} (default : A) where
  abbrev pub stored : Threads A → A → SpscRingBuffer A
  stored t item = record t.ring { buffer = set t.ring.buffer t.ring.head item }

  abbrev pub advanced : Threads A → SpscRingBuffer A
  advanced t = record t.ring { head = following t.ring t.ring.head }

  abbrev pub consumed : Threads A → SpscRingBuffer A
  consumed t = record t.ring { tail = following t.ring t.ring.tail }

  -- A step of one of the threads. A call that returns false changes nothing.
  pub data Step (t : Threads A) : Threads A → Type ℓ where
    push_full : following t.ring t.ring.head ≡ t.ring.tail → t.producer ≡ ready_to_push → Step t t
    push_test :
        (item : A)
        → t.producer ≡ ready_to_push
        → following t.ring t.ring.head ≢ t.ring.tail
        → Step t (record t { producer = has_room item })
    push_write :
        (item : A)
        → t.producer ≡ has_room item
        → Step t (record t { ring = stored t item; producer = has_written item })
    push_store :
        (item : A)
        → t.producer ≡ has_written item
        → Step t (record t {
          ring = advanced t;
          producer = ready_to_push;
          pushed = t.pushed ++ item ∷ [];
        })
    pop_empty : t.ring.tail ≡ t.ring.head → t.consumer ≡ ready_to_pop → Step t t
    pop_test :
        t.consumer ≡ ready_to_pop
        → t.ring.tail ≢ t.ring.head
        → Step t (record t { consumer = has_item })
    pop_read :
        t.consumer ≡ has_item
        → Step t (record t { consumer = has_read (get_or t.ring.buffer t.ring.tail default) })
    pop_store :
        (item : A)
        → t.consumer ≡ has_read item
        → Step t (record t {
          ring = consumed t;
          consumer = ready_to_pop;
          popped = t.popped ++ item ∷ [];
        })

  -- Any number of steps, in whatever order the threads take them.
  pub data Reach (t : Threads A) : Threads A → Type ℓ where
    at_once : Reach t t
    then_step : {u v : Threads A} → Reach t u → Step u v → Reach t v
