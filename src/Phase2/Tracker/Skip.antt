-- ===== src/Phase2/Tracker/Skip.antt =====
-- src/phase2/sequence_tracker.cpp, `force_advance`, against the skips of `Tracker/Spec.antt`.
use hft_feed_handler.Common.{
  ℕ, ◌+◌, ◌-◌, ◌≤◌, ◌<◌, ◌≡◌, refl, sym, ◌∙◌, inl, inr, List, if◌then◌else◌, length,
  length-replicate, dec_lt, arith, Bool-cases, replicate, leb, leb→le,
}
use hft_feed_handler.Phase2.Tracker.{SequenceTracker, holds, force_advance, clear_range}
use hft_feed_handler.Phase2.Tracker.Slots.{
  AtMost, AtMost-clear_range, AtMost-replicate, holds_above, holds-clear_range, holds-replicate,
  length-clear_range,
}
use hft_feed_handler.Phase2.Tracker.Spec.{SequenceSet, Skips, behind, ahead}
use hft_feed_handler.Phase2.Tracker.Refine.{Refines}

-- The tags that `force_advance` leaves, when it moves.
cleared : SequenceTracker → ℕ → List ℕ
cleared t new_next =
    let span = new_next - t.next_expected in
    if leb (length t.buffered_tags) span
    then replicate (length t.buffered_tags) 0
    else clear_range span t.next_expected t.buffered_tags

force_advance_ahead :
    (t : SequenceTracker) (new_next : ℕ)
    → t.next_expected < new_next
    → force_advance t new_next
      ≡ record t { next_expected = new_next; buffered_tags = cleared t new_next }
unfolding force_advance cleared
force_advance_ahead t new_next h = ground arith

force_advance_behind :
    (t : SequenceTracker) (new_next : ℕ) → new_next ≤ t.next_expected → force_advance t new_next ≡ t
unfolding force_advance
force_advance_behind t new_next h = ground arith

length-cleared : (t : SequenceTracker) (n : ℕ) → length (cleared t n) ≡ length t.buffered_tags
unfolding cleared
length-cleared t n = elim (Bool-cases (leb (length t.buffered_tags) (n - t.next_expected))) [
  | inl e ↦ rw e (length-replicate {A = ℕ} (length t.buffered_tags) 0)
  | inr e ↦ rw e (length-clear_range (n - t.next_expected) t.next_expected t.buffered_tags)
]

AtMost-cleared :
    (t : SequenceTracker) (n top : ℕ) → AtMost top t.buffered_tags → AtMost top (cleared t n)
unfolding cleared
AtMost-cleared t n top h = elim (Bool-cases (leb (length t.buffered_tags) (n - t.next_expected))) [
  | inl e ↦ rw e (AtMost-replicate top (length t.buffered_tags))
  | inr e ↦ rw e (AtMost-clear_range (n - t.next_expected) t.next_expected top t.buffered_tags h)
]

holds-cleared :
    (t : SequenceTracker) (n s : ℕ)
    → 1 ≤ t.next_expected
    → t.gap_window < length t.buffered_tags
    → AtMost (t.next_expected + t.gap_window) t.buffered_tags
    → t.next_expected < n
    → n ≤ s
    → holds (cleared t n) s ≡ holds t.buffered_tags s
unfolding cleared
holds-cleared t n s pos room near up h =
    elim (Bool-cases (leb (length t.buffered_tags) (n - t.next_expected))) [
      | inl e ↦ rw e (
          holds-replicate (length t.buffered_tags) s (omega arith)
          ∙ sym (holds_above t.buffered_tags _ s near (omega (arith, leb→le _ _ e))))
      | inr e ↦ rw e (
          holds-clear_range (n - t.next_expected) t.next_expected t.buffered_tags s (omega arith)
            (omega arith))
    ]

-- Skipping ahead, too: the sequences held from the new one on stay held, and a target that is not
-- ahead changes nothing.
pub force_advance-Refines :
    (last : ℕ) (t : SequenceTracker) (a : SequenceSet) (new_next : ℕ)
    → Refines last t a
    → new_next ≤ last + 1
    → (b : SequenceSet) × Skips a new_next b × Refines last (force_advance t new_next) b
force_advance-Refines last t a new_next r sent = elim (dec_lt t.next_expected new_next) [
  | yes up ↦
      rw (force_advance_ahead t new_next up)
        (record a { next = new_next }, ahead (omega arith), moved up)
  | no down ↦ rw (force_advance_behind t new_next (omega arith)) (a, behind (omega arith), r)
]
  where
    moved :
        t.next_expected < new_next
        → Refines last
            (record t { next_expected = new_next; buffered_tags = cleared t new_next })
            (record a { next = new_next })
    moved up = record {
      same_next = refl;
      same_window = r.same_window;
      same_held = λ s h.
          holds-cleared t new_next s r.started r.room r.tags_near up h
          ∙ r.same_held s (omega arith);
      started = omega arith;
      in_session = sent;
      no_wrap = r.no_wrap;
      room = omega (arith, length-cleared t new_next);
      slots = omega (arith, length-cleared t new_next);
      tags_near =
          AtMost-cleared t new_next (new_next + t.gap_window) (λ i. omega (arith, r.tags_near i));
      tags_sent = AtMost-cleared t new_next last r.tags_sent;
    }
