-- ===== src/Phase2/Tracker/Refine.antt =====
-- When a `SequenceTracker` stands for a set of `Tracker/Spec.antt`, in a session whose sequences are
-- at most `last`, whatever the window, and however often the ring wraps.
use hft_feed_handler.Common.{
  ℕ, ◌+◌, ◌%◌, ◌≤◌, ◌<◌, ◌≡◌, refl, false, max, length, length-replicate, arith, u64_mod, replicate,
}
use hft_feed_handler.Phase2.Tracker.{SequenceTracker, new_tracker, holds}
use hft_feed_handler.Phase2.Tracker.Slots.{AtMost, AtMost-replicate, holds-replicate}
use hft_feed_handler.Phase2.Tracker.Spec.{SequenceSet}

-- `t` stands for the set `a` in a session of sequences up to `last`.
pub record Refines (last : ℕ) (t : SequenceTracker) (a : SequenceSet) : Type 0 where
  pub same_next : t.next_expected ≡ a.next
  pub same_window : t.gap_window ≡ a.window
  pub same_held : (s : ℕ) → a.next ≤ s → holds t.buffered_tags s ≡ a.held s
  pub started : 1 ≤ t.next_expected
  pub in_session : t.next_expected ≤ last + 1
  pub no_wrap : last + 1 < u64_mod
  pub room : t.gap_window < length t.buffered_tags
  pub slots : length t.buffered_tags + 2 < u64_mod
  pub tags_near : AtMost (t.next_expected + t.gap_window) t.buffered_tags
  pub tags_sent : AtMost last t.buffered_tags

abbrev pub empty_set : ℕ → SequenceSet
empty_set window = record { next = 1; window = window; held = λ s. false }

-- A new tracker holds nothing.
pub new_tracker-Refines :
    (last window : ℕ)
    → last + 1 < u64_mod
    → window + 3 < u64_mod
    → Refines last (new_tracker window) (empty_set window)
unfolding new_tracker
new_tracker-Refines last window small fits = record {
  same_next = refl;
  same_window = refl;
  same_held = λ s h. holds-replicate slots s h;
  started = omega arith;
  in_session = omega arith;
  no_wrap = small;
  room = omega (arith, size);
  slots = omega (arith, size);
  tags_near = AtMost-replicate (1 + window) slots;
  tags_sent = AtMost-replicate last slots;
}
  where
    slots : ℕ
    slots = max 2 ((window + 1) % u64_mod)

    size : length (replicate {A = ℕ} slots 0) ≡ max 2 (window + 1)
    size = omega (arith, length-replicate {A = ℕ} slots 0)
