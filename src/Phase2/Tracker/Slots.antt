-- ===== src/Phase2/Tracker/Slots.antt =====
-- The tag ring of `SequenceTracker`: what marking, popping and clearing do to the set of sequences
-- that the ring holds.
use hft_feed_handler.Common.{
  ◌∙◌, get_or-replicate, ℕ, zero, suc, ◌+◌, ◌≤◌, ◌<◌, ◌≡◌, ◌≢◌, refl, sym, ap, [], ◌∷◌, true, false,
  List, ◌==◌, ◌||◌, if◌then◌else◌, get_or, set, length, arith, ℕ_discrete, Bool-cases, inl, inr,
  get_or-set_self, get_or-set_ne, mod_window, length-set, replicate,
}
use hft_feed_handler.Phase2.Tracker.{slot_of, holds, clear_range}

pub slot-lt-length : (tags : List ℕ) (s : ℕ) → 0 < length tags → slot_of tags s < length tags
slot-lt-length tags s h = omega arith

-- Writing the slot of `seq` leaves what the other slots hold.
holds-set_ne :
    (tags : List ℕ) (seq v s : ℕ)
    → slot_of tags seq ≢ slot_of tags s
    → holds (set tags (slot_of tags seq) v) s ≡ holds tags s
holds-set_ne tags seq v s h =
    rw (length-set tags (slot_of tags seq) v)
      (rw (get_or-set_ne tags (slot_of tags seq) (slot_of tags s) v 0 h))

-- Writing the slot of `seq` decides every sequence of that slot.
holds-set_eq :
    (tags : List ℕ) (seq v s : ℕ)
    → 0 < length tags
    → slot_of tags seq ≡ slot_of tags s
    → holds (set tags (slot_of tags seq) v) s ≡ (v == s)
holds-set_eq tags seq v s pos h =
    rw (length-set tags (slot_of tags seq) v)
      (rw (← h) (rw (get_or-set_self tags (slot_of tags seq) v 0 (slot-lt-length tags seq pos))))

-- All tags are at most `top`.
abbrev pub AtMost : ℕ → List ℕ → Type 0
AtMost top tags = (i : ℕ) → get_or tags i 0 ≤ top

pub AtMost-set :
    (top : ℕ) (tags : List ℕ) (i v : ℕ) → AtMost top tags → v ≤ top → AtMost top (set tags i v)
AtMost-set top [] i v h hv j = h j
AtMost-set top (x ∷ xs) zero v h hv zero = hv
AtMost-set top (x ∷ xs) zero v h hv (suc j) = h (suc j)
AtMost-set top (x ∷ xs) (suc i) v h hv zero = h zero
AtMost-set top (x ∷ xs) (suc i) v h hv (suc j) = AtMost-set top xs i v (λ k. h (suc k)) hv j

-- Marking a sequence of the window adds it to the held ones, and removes none of the window.
pub holds-mark :
    (tags : List ℕ) (next window seq s : ℕ)
    → window < length tags
    → AtMost (next + window) tags
    → next ≤ seq
    → seq ≤ next + window
    → next ≤ s
    → holds (set tags (slot_of tags seq) seq) s ≡ (seq == s || holds tags s)
holds-mark tags next window seq s room top lo hi h =
    elim (ℕ_discrete (slot_of tags seq) (slot_of tags s)) [
      | yes same ↦ rw (holds-set_eq tags seq seq s (omega arith) same) (
          ground (
            arith,
            top (slot_of tags s),
            mod_window (length tags) seq s same,
            mod_window (length tags) s seq (sym same),
          ))
      | no other ↦
          rw (holds-set_ne tags seq seq s other)
            (ground (arith, λ (e : seq ≡ s). other (ap (slot_of tags) e)))
    ]

-- Clearing the slot of a held sequence forgets that sequence and no later one.
pub holds-pop :
    (tags : List ℕ) (seq s : ℕ)
    → 0 < length tags
    → holds tags seq ≡ true
    → seq < s
    → holds (set tags (slot_of tags seq) 0) s ≡ holds tags s
holds-pop tags seq s pos held h = elim (ℕ_discrete (slot_of tags seq) (slot_of tags s)) [
  | yes same ↦
      rw (holds-set_eq tags seq 0 s pos same) (ground (arith, ap (λ i. get_or tags i 0) same))
  | no other ↦ holds-set_ne tags seq 0 s other
]

-- A ring whose tags are all below `s` does not hold `s`.
pub holds_above : (tags : List ℕ) (top s : ℕ) → AtMost top tags → top < s → holds tags s ≡ false
holds_above tags top s h lt = ground (arith, h (slot_of tags s))

pub length-clear_range :
    (rounds s : ℕ) (tags : List ℕ) → length (clear_range rounds s tags) ≡ length tags
unfolding clear_range
length-clear_range zero s tags = refl
length-clear_range (suc rounds) s tags =
    length-clear_range rounds (s + 1) (if holds tags s then set tags (slot_of tags s) 0 else tags)
    ∙ elim (Bool-cases (holds tags s)) [
      | inl e ↦ rw e (length-set tags (slot_of tags s) 0)
      | inr e ↦ rw e
    ]

pub AtMost-clear_range :
    (rounds s top : ℕ) (tags : List ℕ) → AtMost top tags → AtMost top (clear_range rounds s tags)
unfolding clear_range
AtMost-clear_range zero s top tags h = h
AtMost-clear_range (suc rounds) s top tags h =
    AtMost-clear_range rounds (s + 1) top
      (if holds tags s then set tags (slot_of tags s) 0 else tags)
      (elim (Bool-cases (holds tags s)) [
        | inl e ↦ rw e (AtMost-set top tags (slot_of tags s) 0 h (omega arith))
        | inr e ↦ rw e h
      ])

-- Clearing the sequences below `s'` forgets none from `s'` on.
pub holds-clear_range :
    (rounds s : ℕ) (tags : List ℕ) (s' : ℕ)
    → 0 < length tags
    → s + rounds ≤ s'
    → holds (clear_range rounds s tags) s' ≡ holds tags s'
unfolding clear_range
holds-clear_range zero s tags s' pos h = refl
holds-clear_range (suc rounds) s tags s' pos h = elim (Bool-cases (holds tags s)) [
  | inl e ↦ rw e (
      holds-clear_range rounds (s + 1) (set tags (slot_of tags s) 0) s'
        (rw (length-set tags (slot_of tags s) 0) pos) (omega arith)
      ∙ holds-pop tags s s' pos e (omega arith))
  | inr e ↦ rw e (holds-clear_range rounds (s + 1) tags s' pos (omega arith))
]

-- A cleared ring holds nothing.
pub holds-replicate : (n s : ℕ) → 0 < s → holds (replicate n 0) s ≡ false
holds-replicate n s h = rw (get_or-replicate {A = ℕ} n (slot_of (replicate n 0) s) 0) (ground arith)

pub AtMost-replicate : (top n : ℕ) → AtMost top (replicate n 0)
AtMost-replicate top n i = rw (get_or-replicate {A = ℕ} n i 0) (omega arith)
