-- ===== src/Core/SpscRing/Fifo.antt =====
-- include/mf/core/spsc_ring.hpp: between two threads the ring is a bounded queue.
use hft_feed_handler.Common.{
  ℕ, suc, ◌+◌, ◌%◌, ◌<◌, ◌≡◌, ◌≢◌, refl, sym, ap, ◌∙◌, subst, List, [], ◌∷◌, ◌++◌, length, get_or,
  arith, length-set, length-append, length-replicate, replicate, get_or-set_self, ℕ_discrete,
}
use mathlib.Core.List.{append_assoc}
use native.Mathlib.Nat.{mod-add-mod, add-mod_right}
use hft_feed_handler.Core.SpscRing.{SpscRingBuffer, new_ring, following}
use hft_feed_handler.Core.SpscRing.Steps.{
  Producer, ready_to_push, has_room, has_written, Consumer, ready_to_pop, has_item, has_read,
  Threads, new_threads, Step, push_full, push_test, push_write, push_store, pop_empty, pop_test,
  pop_read, pop_store, Reach, at_once, then_step, stored, advanced, consumed,
}
use hft_feed_handler.Core.SpscRing.Slots.{
  Stands, Stands-set, Stands-append, mod_next, mod_small, mod_below,
}

module _ {A : Type 0} (default : A) where
  -- What the producer has seen of the ring is still so.
  abbrev pub IsPushing : Producer A → SpscRingBuffer A → List A → Type 0
  IsPushing ready_to_push r q = Unit {0}
  IsPushing (has_room item) r q = suc (length q) < length r.buffer
  IsPushing (has_written item) r q =
      (suc (length q) < length r.buffer) × (get_or r.buffer r.head default ≡ item)

  -- What the consumer has seen of the queue is still so.
  abbrev pub IsPopping : Consumer A → List A → Type 0
  IsPopping ready_to_pop q = Unit {0}
  IsPopping has_item q = (x : A) × (rest : List A) × (q ≡ x ∷ rest)
  IsPopping (has_read x) q = (rest : List A) × (q ≡ x ∷ rest)

  -- The queue `q` stands in the ring.
  pub record Queues (t : Threads A) (q : List A) : Type 0 where
    pub tail_in : t.ring.tail < length t.ring.buffer
    pub short : length q < length t.ring.buffer
    pub head_eq : t.ring.head ≡ (t.ring.tail + length q) % length t.ring.buffer
    pub stands : Stands default t.ring.buffer t.ring.tail q
    pub order : t.pushed ≡ t.popped ++ q
    pub pushing : IsPushing t.producer t.ring q
    pub popping : IsPopping t.consumer q

  -- The ring is not full when the slot behind the head is not the tail.
  pub room_left :
      (t : Threads A) (q : List A)
      → Queues t q
      → following t.ring t.ring.head ≢ t.ring.tail
      → suc (length q) < length t.ring.buffer
  room_left t q i open_slot = elim (ℕ_discrete (suc (length q)) (length t.ring.buffer)) [
    | no ne ↦ omega (arith, i.short)
    | yes full ↦ absurd (
        open_slot (
          ap (λ h. (h + 1) % length t.ring.buffer) i.head_eq
          ∙ mod-add-mod (t.ring.tail + length q) (length t.ring.buffer) 1
          ∙ ap (λ k. k % length t.ring.buffer) (omega arith)
          ∙ add-mod_right t.ring.tail (length t.ring.buffer)
          ∙ mod_small (length t.ring.buffer) t.ring.tail i.tail_in))
  ]

  -- The queue is not empty when the head is not at the tail.
  pub item_there :
      (t : Threads A) (q : List A)
      → Queues t q
      → t.ring.tail ≢ t.ring.head
      → (x : A) × (rest : List A) × (q ≡ x ∷ rest)
  item_there t [] i apart = absurd (
      apart (
        sym (
          i.head_eq
          ∙ ap (λ k. k % length t.ring.buffer) (omega arith)
          ∙ mod_small (length t.ring.buffer) t.ring.tail i.tail_in)))
  item_there t (x ∷ q) i apart = (x, q, refl)

  IsPopping-append :
      (c : Consumer A) (q : List A) (item : A) → IsPopping c q → IsPopping c (q ++ item ∷ [])
  IsPopping-append ready_to_pop q item p = tt
  IsPopping-append has_item q item (x, rest, e) =
      (x, rest ++ item ∷ [], ap (λ xs. xs ++ item ∷ []) e)
  IsPopping-append (has_read x) q item (rest, e) = (rest ++ item ∷ [], ap (λ xs. xs ++ item ∷ []) e)

  -- Taking an item leaves the producer as much room.
  IsPushing-after_pop :
      (p : Producer A) (r : SpscRingBuffer A) (x : A) (q : List A) (tail : ℕ)
      → IsPushing p r (x ∷ q)
      → IsPushing p (record r { tail = tail }) q
  IsPushing-after_pop ready_to_push r x q tail h = tt
  IsPushing-after_pop (has_room item) r x q tail h = omega (arith, h)
  IsPushing-after_pop (has_written item) r x q tail (h, e) = (omega (arith, h), e)

  head_in : (t : Threads A) (q : List A) → Queues t q → t.ring.head < length t.ring.buffer
  head_in t q i = omega (
    arith,
    i.head_eq,
    i.tail_in,
    mod_below (length t.ring.buffer) (t.ring.tail + length q) (omega (arith, i.tail_in)),
  )

  after_write :
      (t : Threads A) (q : List A) (item : A)
      → Queues t q
      → suc (length q) < length t.ring.buffer
      → Queues (record t { ring = stored default t item; producer = has_written item }) q
  after_write t q item i room =
      let same = length-set t.ring.buffer t.ring.head item in
      record {
        tail_in = omega (arith, same, i.tail_in);
        short = omega (arith, same, i.short);
        head_eq = i.head_eq ∙ ap (λ n. (t.ring.tail + length q) % n) (sym same);
        stands =
            Stands-set default t.ring.buffer t.ring.tail t.ring.head item q i.tail_in i.short
              i.head_eq i.stands;
        order = i.order;
        pushing = (
          omega (arith, same, room),
          get_or-set_self t.ring.buffer t.ring.head item default (head_in t q i),
        );
        popping = i.popping;
      }

  after_store :
      (t : Threads A) (q : List A) (item : A)
      → Queues t q
      → suc (length q) < length t.ring.buffer
      → get_or t.ring.buffer t.ring.head default ≡ item
      → Queues
          (record t {
            ring = advanced default t;
            producer = ready_to_push;
            pushed = t.pushed ++ item ∷ [];
          })
          (q ++ item ∷ [])
  after_store t q item i room written = record {
    tail_in = i.tail_in;
    short = omega (arith, room, length-append q (item ∷ []));
    head_eq =
        ap (λ h. (h + 1) % length t.ring.buffer) i.head_eq
        ∙ mod-add-mod (t.ring.tail + length q) (length t.ring.buffer) 1
        ∙ ap (λ k. k % length t.ring.buffer) (omega (arith, length-append q (item ∷ [])));
    stands =
        Stands-append default t.ring.buffer t.ring.tail item q i.tail_in
          (ap (λ k. get_or t.ring.buffer k default) (sym i.head_eq) ∙ written) i.stands;
    order = ap (λ xs. xs ++ item ∷ []) i.order ∙ append_assoc t.popped q (item ∷ []);
    pushing = tt;
    popping = IsPopping-append t.consumer q item i.popping;
  }

  after_read :
      (t : Threads A) (x : A) (rest : List A)
      → Queues t (x ∷ rest)
      → Queues
          (record t { consumer = has_read (get_or t.ring.buffer t.ring.tail default) })
          (x ∷ rest)
  after_read t x rest i = record {
    tail_in = i.tail_in;
    short = i.short;
    head_eq = i.head_eq;
    stands = i.stands;
    order = i.order;
    pushing = i.pushing;
    popping = (rest, ap (λ y. y ∷ rest) (sym i.stands.0));
  }

  after_pop :
      (t : Threads A) (item : A) (rest : List A)
      → Queues t (item ∷ rest)
      → Queues
          (record t {
            ring = consumed default t;
            consumer = ready_to_pop;
            popped = t.popped ++ item ∷ [];
          })
          rest
  after_pop t item rest i = record {
    tail_in = mod_below (length t.ring.buffer) (t.ring.tail + 1) (omega (arith, i.tail_in));
    short = omega (arith, i.short);
    head_eq = i.head_eq ∙ sym (mod_next (length t.ring.buffer) t.ring.tail (length rest) i.tail_in);
    stands = i.stands.1;
    order = i.order ∙ sym (append_assoc t.popped (item ∷ []) rest);
    pushing =
        IsPushing-after_pop t.producer t.ring item rest (following t.ring t.ring.tail) i.pushing;
    popping = tt;
  }

  -- A step of either thread keeps a queue in the ring.
  Step-Queues :
      {t u : Threads A} (q : List A) → Step default t u → Queues t q → (q' : List A) × Queues u q'
  Step-Queues q (push_full e p) i = (q, i)
  Step-Queues q (pop_empty e p) i = (q, i)
  Step-Queues {t} q (push_test item p open_slot) i = (
    q,
    record {
      tail_in = i.tail_in;
      short = i.short;
      head_eq = i.head_eq;
      stands = i.stands;
      order = i.order;
      pushing = room_left t q i open_slot;
      popping = i.popping;
    },
  )
  Step-Queues {t} q (push_write item p) i =
      (q, after_write t q item i (subst (λ w. IsPushing w t.ring q) p i.pushing))
  Step-Queues {t} q (push_store item p) i =
      let (room, written) = subst (λ w. IsPushing w t.ring q) p i.pushing in
      (q ++ item ∷ [], after_store t q item i room written)
  Step-Queues {t} q (pop_test p apart) i = (
    q,
    record {
      tail_in = i.tail_in;
      short = i.short;
      head_eq = i.head_eq;
      stands = i.stands;
      order = i.order;
      pushing = i.pushing;
      popping = item_there t q i apart;
    },
  )
  Step-Queues {t} q (pop_read p) i =
      let (x, rest, e) = subst (λ c. IsPopping c q) p i.popping in
      (x ∷ rest, after_read t x rest (subst (Queues t) e i))
  Step-Queues {t} q (pop_store item p) i =
      let (rest, e) = subst (λ c. IsPopping c q) p i.popping in
      (rest, after_pop t item rest (subst (Queues t) e i))

  pub new_threads-Queues : (n : ℕ) → 0 < n → Queues (new_threads n default) []
  unfolding new_ring
  new_threads-Queues n pos =
      let same = length-replicate n default in
      record {
        tail_in = omega (arith, same);
        short = omega (arith, same);
        head_eq = sym (mod_small (length (replicate n default)) 0 (omega (arith, same)));
        stands = tt;
        order = refl;
        pushing = tt;
        popping = tt;
      }

  pub Reach-Queues :
      {t u : Threads A} (q : List A) → Queues t q → Reach default t u → (q' : List A) × Queues u q'
  Reach-Queues q i at_once = (q, i)
  Reach-Queues q i (then_step r s) = let (q', j) = Reach-Queues q i r in Step-Queues q' s j

  -- However the steps of a pushing and a popping thread interleave, on a ring of at least one slot: the
  -- items that were popped are the first of those that were pushed, each once and in order, and the rest,
  -- fewer than there are slots, stand in the slots from the tail on.
  pub Reach-Fifo :
      (n : ℕ) (t : Threads A)
      → 0 < n
      → Reach default (new_threads n default) t
      → (q : List A) × (t.pushed ≡ t.popped ++ q)
        × (length q < length t.ring.buffer)
        × Stands default t.ring.buffer t.ring.tail q
  Reach-Fifo n t pos r =
      let (q, i) = Reach-Queues [] (new_threads-Queues n pos) r in (q, i.order, i.short, i.stands)
