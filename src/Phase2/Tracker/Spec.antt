-- ===== src/Phase2/Tracker/Spec.antt =====
-- What a sequence tracker promises, with the ring forgotten: a set of sequences that arrived early,
-- and one rule for each kind of arrival.
use hft_feed_handler.Common.{ℕ, ◌+◌, ◌-◌, ◌≤◌, ◌<◌, ◌≡◌, Bool, Option, none, some, ◌==◌, ◌||◌}
use hft_feed_handler.Phase2.Tracker.{
  SequenceUpdate, GapRange, in_order, duplicate_or_old, gap_buffered, gap_too_large,
}
use hft_feed_handler.Phase2.Tracker.Release.{IsFirstFree}

pub record SequenceSet : Type 0 where
  pub next : ℕ
  pub window : ℕ
  pub held : ℕ → Bool

-- An update in which the expected sequence stays.
abbrev pub still : SequenceSet → ℕ → SequenceUpdate
still a seq = record {
  status = duplicate_or_old;
  input_sequence = seq;
  expected_before = a.next;
  expected_after = a.next;
  released_count = 0;
  missing_range = none;
}

abbrev pub gap : SequenceSet → ℕ → Option GapRange
gap a seq = some (record { begin = a.next; end = seq - 1 })

pub data Arrives (a : SequenceSet) (seq : ℕ) : SequenceSet → SequenceUpdate → Type 0 where
  -- A sequence that was passed already changes nothing.
  old : seq < a.next → Arrives a seq a (still a seq)
  -- The expected one is released together with the run of held ones behind it.
  in_turn :
      (after : ℕ)
      → seq ≡ a.next
      → IsFirstFree a.held (a.next + 1) after
      → Arrives a seq
          (record a { next = after })
          (record {
            status = in_order;
            input_sequence = seq;
            expected_before = a.next;
            expected_after = after;
            released_count = after - a.next;
            missing_range = none;
          })
  -- One of the window is held, and the gap before it reported.
  early :
      a.next < seq
      → seq ≤ a.next + a.window
      → Arrives a seq
          (record a { held = λ s. seq == s || a.held s })
          (record {
            status = gap_buffered;
            input_sequence = seq;
            expected_before = a.next;
            expected_after = a.next;
            released_count = 0;
            missing_range = gap a seq;
          })
  -- One beyond the window is refused, and the gap before it reported.
  far :
      a.next + a.window < seq
      → Arrives a seq a (record {
        status = gap_too_large;
        input_sequence = seq;
        expected_before = a.next;
        expected_after = a.next;
        released_count = 0;
        missing_range = gap a seq;
      })

-- Skipping ahead keeps what is held from there on.
pub data Skips (a : SequenceSet) (new_next : ℕ) : SequenceSet → Type 0 where
  behind : new_next ≤ a.next → Skips a new_next a
  ahead : a.next < new_next → Skips a new_next (record a { next = new_next })
