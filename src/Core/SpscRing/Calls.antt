-- ===== src/Core/SpscRing/Calls.antt =====
-- include/mf/core/spsc_ring.hpp: a whole call of `try_push` or `try_pop`, while the other thread stands
-- wherever it is.
use hft_feed_handler.Common.{
  ℕ, suc, ◌+◌, ◌%◌, ◌<◌, ◌≡◌, ◌⊎◌, refl, sym, ap, ◌∙◌, inl, inr, Bool-cases, true, false, none,
  some, List, [], ◌∷◌, ◌++◌, ltb, ◌==◌, length, set, ==_iff, arith, length-set, subst,
}
use native.Mathlib.Nat.{mod-add-mod}
use hft_feed_handler.Core.SpscRing.{following, try_push, try_pop}
use hft_feed_handler.Core.SpscRing.Steps.{
  ready_to_push, ready_to_pop, Threads, new_threads, push_test, push_write, push_store, pop_test,
  pop_read, pop_store, has_read, Reach, at_once, then_step,
}
use hft_feed_handler.Core.SpscRing.Slots.{mod_apart}
use hft_feed_handler.Core.SpscRing.Fifo.{
  Queues, Reach-Queues, new_threads-Queues, room_left, item_there,
}

module _ {A : Type 0} (default : A) where
  -- The threads after a call of `try_push` that returned true, and of `try_pop` that returned `x`.
  abbrev pub pushed_by : Threads A → A → Threads A
  pushed_by t item = record t {
    ring = (try_push t.ring item).0;
    producer = ready_to_push;
    pushed = t.pushed ++ item ∷ [];
  }

  abbrev pub popped_by : Threads A → A → Threads A
  popped_by t x = record t {
    ring = (try_pop default t.ring).0;
    consumer = ready_to_pop;
    popped = t.popped ++ x ∷ [];
  }

  full_length :
      (t : Threads A) (q : List A)
      → Queues default t q
      → following t.ring t.ring.head ≡ t.ring.tail
      → suc (length q) ≡ length t.ring.buffer
  full_length t q i full = elim (Bool-cases (ltb (suc (length q)) (length t.ring.buffer))) [
    | inr over ↦ ground (arith, over, i.short)
    | inl room ↦ absurd (
        mod_apart (length t.ring.buffer) t.ring.tail (suc (length q)) i.tail_in (omega arith)
          (ground (arith, room))
          (sym full
            ∙ ap (λ h. (h + 1) % length t.ring.buffer) i.head_eq
            ∙ mod-add-mod (t.ring.tail + length q) (length t.ring.buffer) 1
            ∙ ap (λ k. k % length t.ring.buffer) (omega arith)))
  ]

  empty_queue :
      (t : Threads A) (q : List A) → Queues default t q → t.ring.tail ≡ t.ring.head → q ≡ []
  empty_queue t [] i e = refl
  empty_queue t (x ∷ q) i e = absurd (
      mod_apart (length t.ring.buffer) t.ring.tail (suc (length q)) i.tail_in (omega arith) i.short
        (e ∙ i.head_eq))

  -- What a call of `try_push` does to a ring that holds the queue `q`: it returns true if there is room for
  -- one item and the free slot, and its steps have appended the item; or it returns false, the ring is as
  -- full as it gets, and it is unchanged.
  abbrev pub Pushes : Threads A → A → List A → Type 0
  Pushes t item q =
      (((try_push t.ring item).1 ≡ true)
        × (suc (length q) < length t.ring.buffer)
        × Reach default t (pushed_by t item))
      ⊎ (((try_push t.ring item).1 ≡ false)
          × (suc (length q) ≡ length t.ring.buffer)
          × ((try_push t.ring item).0 ≡ t.ring))

  -- What a call of `try_pop` does: it returns the first item, and its steps have taken it; or the queue is
  -- empty, it returns nothing, and the ring is unchanged.
  abbrev pub Pops : Threads A → List A → Type 0
  Pops t q =
      ((x : A) × (rest : List A) × (q ≡ x ∷ rest)
        × ((try_pop default t.ring).1 ≡ some x)
        × Reach default t (popped_by t x))
      ⊎ ((q ≡ []) × ((try_pop default t.ring).1 ≡ none) × ((try_pop default t.ring).0 ≡ t.ring))

  Queues-Pushes :
      (t : Threads A) (item : A) (q : List A)
      → Queues default t q
      → t.producer ≡ ready_to_push
      → Pushes t item q
  unfolding try_push
  Queues-Pushes t item q i p = elim (Bool-cases (following t.ring t.ring.head == t.ring.tail)) [
    | inl full ↦ inr (rw full refl, full_length t q i ((==_iff _ _).0 full), rw full refl)
    | inr room ↦ inl (
      rw room refl,
      room_left default t q i (λ e. ground (arith, (==_iff _ _).1 e, room)),
      rw room (
          subst
            (λ n. Reach default t (record t {
              ring = record t.ring {
                head = (t.ring.head + 1) % n;
                buffer = set t.ring.buffer t.ring.head item;
              };
              producer = ready_to_push;
              pushed = t.pushed ++ item ∷ [];
            }))
            (length-set t.ring.buffer t.ring.head item)
            (then_step
              (then_step
                (then_step at_once (push_test item p (λ e. ground (arith, (==_iff _ _).1 e, room))))
                (push_write item refl))
              (push_store item refl))),
    )
  ]

  Queues-Pops :
      (t : Threads A) (q : List A) → Queues default t q → t.consumer ≡ ready_to_pop → Pops t q
  unfolding try_pop
  Queues-Pops t q i p = elim (Bool-cases (t.ring.tail == t.ring.head)) [
    | inl empty ↦ inr (empty_queue t q i ((==_iff _ _).0 empty), rw empty refl, rw empty refl)
    | inr apart ↦
        let (x, rest, e) =
          item_there default t q i (λ e. ground (arith, (==_iff _ _).1 e, apart)) in
        let first = (subst (Queues default t) e i).stands.0 in
        inl (
          x,
          rest,
          e,
          rw apart (ap some first),
          rw apart (
              then_step
                (then_step
                  (then_step at_once (pop_test p (λ e. ground (arith, (==_iff _ _).1 e, apart))))
                  (pop_read refl))
                (pop_store x (ap has_read first))),
        )
  ]

  -- However the threads came to where they stand, and wherever the popping one stands: a call of
  -- `try_push` that nothing interrupts returns true exactly if the items that are not yet popped leave
  -- room for one and a free slot, and then its steps have appended the item; if it returns false the ring
  -- is unchanged.
  pub try_push-Pushes :
      (n : ℕ) (t : Threads A) (item : A)
      → 0 < n
      → Reach default (new_threads n default) t
      → t.producer ≡ ready_to_push
      → (q : List A) × (t.pushed ≡ t.popped ++ q) × Pushes t item q
  try_push-Pushes n t item pos r p =
      let (q, i) = Reach-Queues default [] (new_threads-Queues default n pos) r in
      (q, i.order, Queues-Pushes t item q i p)

  -- Likewise wherever the pushing thread stands, a call of `try_pop` returns the first item that is not yet
  -- popped, and its steps have taken it; it returns nothing, and the ring is unchanged, exactly if every
  -- pushed item is popped.
  pub try_pop-Pops :
      (n : ℕ) (t : Threads A)
      → 0 < n
      → Reach default (new_threads n default) t
      → t.consumer ≡ ready_to_pop
      → (q : List A) × (t.pushed ≡ t.popped ++ q) × Pops t q
  try_pop-Pops n t pos r p =
      let (q, i) = Reach-Queues default [] (new_threads-Queues default n pos) r in
      (q, i.order, Queues-Pops t q i p)
