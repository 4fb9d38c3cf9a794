-- ===== src/Core/SpscRing/Slots.antt =====
-- include/mf/core/spsc_ring.hpp: the slots from the tail on, around the end of the buffer.
use hft_feed_handler.Common.{
  ℕ, suc, ◌+◌, ◌%◌, ◌<◌, ◌≡◌, ◌≢◌, sym, ap, ◌∙◌, subst, List, [], ◌∷◌, ◌++◌, length, get_or, set,
  arith, length-set, get_or-set_ne, mod_window,
}
use native.Mathlib.Nat.{mod-add-mod}

pub mod_next : (n t k : ℕ) → t < n → ((t + 1) % n + k) % n ≡ (t + suc k) % n
mod_next n t k h = mod-add-mod (t + 1) n k ∙ ap (λ i. i % n) (omega arith)

pub mod_small : (n t : ℕ) → t < n → t % n ≡ t
mod_small n t h = grind arith

pub mod_below : (n k : ℕ) → 0 < n → k % n < n
mod_below n k h = grind arith

-- Fewer slots on than there are, another slot stands.
pub mod_apart : (n t k : ℕ) → t < n → 0 < k → k < n → t ≢ (t + k) % n
mod_apart n t k h pos lt e =
    let same : t ≡ t + k =
      mod_window n t (t + k) (mod_small n t h ∙ e) (omega arith) (omega arith) in
    absurd (omega (arith, same))

module _ {ℓ} {A : Type ℓ} (default : A) where
  -- A list stands in the slots from `tail` on.
  abbrev pub Stands : List A → ℕ → List A → Type ℓ
  Stands buffer tail [] = Unit {ℓ}
  Stands buffer tail (x ∷ q) =
      (get_or buffer tail default ≡ x) × Stands buffer ((tail + 1) % length buffer) q

  -- A write behind the list.
  pub Stands-set :
      (buffer : List A) (tail k : ℕ) (v : A) (q : List A)
      → tail < length buffer
      → length q < length buffer
      → k ≡ (tail + length q) % length buffer
      → Stands buffer tail q
      → Stands (set buffer k v) tail q
  Stands-set buffer tail k v [] h short e s = tt
  Stands-set buffer tail k v (x ∷ q) h short e (here, rest) = (
    get_or-set_ne buffer k tail v default (λ same.
          mod_apart (length buffer) tail (suc (length q)) h (omega arith) short (sym same ∙ e))
        ∙ here,
    subst (λ n. Stands (set buffer k v) ((tail + 1) % n) q) (sym (length-set buffer k v))
        (Stands-set buffer ((tail + 1) % length buffer) k v q
          (mod_below (length buffer) (tail + 1) (omega arith)) (omega arith)
          (e ∙ sym (mod_next (length buffer) tail (length q) h)) rest),
  )

  -- The slot behind the list joins it.
  pub Stands-append :
      (buffer : List A) (tail : ℕ) (v : A) (q : List A)
      → tail < length buffer
      → get_or buffer ((tail + length q) % length buffer) default ≡ v
      → Stands buffer tail q
      → Stands buffer tail (q ++ v ∷ [])
  Stands-append buffer tail v [] h e s = (
    ap (λ i. get_or buffer i default)
          (sym (mod_small (length buffer) tail h) ∙ ap (λ i. i % length buffer) (omega arith))
        ∙ e,
    tt,
  )
  Stands-append buffer tail v (x ∷ q) h e (here, rest) = (
    here,
    Stands-append buffer ((tail + 1) % length buffer) v q
        (mod_below (length buffer) (tail + 1) (omega arith))
        (ap (λ i. get_or buffer i default) (mod_next (length buffer) tail (length q) h) ∙ e) rest,
  )
