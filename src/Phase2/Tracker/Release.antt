-- ===== src/Phase2/Tracker/Release.antt =====
-- The loop of `SequenceTracker::on_sequence` that releases what was buffered: it stops at the first
-- sequence that the ring does not hold, within its fuel, and touches nothing from there on.
use hft_feed_handler.Common.{
  ℕ, zero, suc, ◌+◌, ◌≤◌, ◌<◌, ◌≡◌, refl, sym, ◌∙◌, Bool, true, false, inl, inr, List, length, set,
  length-set, get_or, ℕ_discrete, arith, Bool-cases, u64_mod,
}
use hft_feed_handler.Phase2.Tracker.{SequenceTracker, holds, slot_of, inc64, pop_buffered, release}
use hft_feed_handler.Phase2.Tracker.Slots.{AtMost, AtMost-set, holds-pop, holds_above}

-- `m` is the first number from `n` on that is not in the set.
pub record IsFirstFree (held : ℕ → Bool) (n m : ℕ) : Type 0 where
  pub from : n ≤ m
  pub free : held m ≡ false
  pub taken : (k : ℕ) → n ≤ k → k < m → held k ≡ true

-- What the loop makes of a tracker `t` and a count.
pub record Released (t : SequenceTracker) (count : ℕ) (r : SequenceTracker × ℕ) : Type 0 where
  pub first : IsFirstFree (holds t.buffered_tags) t.next_expected r.0.next_expected
  pub counted : r.1 + t.next_expected ≡ count + r.0.next_expected
  pub later : (s : ℕ) → r.0.next_expected ≤ s → holds r.0.buffered_tags s ≡ holds t.buffered_tags s
  pub slots : length r.0.buffered_tags ≡ length t.buffered_tags
  pub window : r.0.gap_window ≡ t.gap_window
  pub capped : (top : ℕ) → AtMost top t.buffered_tags → AtMost top r.0.buffered_tags

stopped :
    (t : SequenceTracker) (count : ℕ)
    → holds t.buffered_tags t.next_expected ≡ false
    → Released t count (t, count)
stopped t count e = record {
  first = record { from = omega arith; free = e; taken = λ k lo hi. absurd (omega arith) };
  counted = refl;
  later = λ s h. refl;
  slots = refl;
  window = refl;
  capped = λ top h. h;
}

-- A held sequence is the tag of its slot.
held_tag : (tags : List ℕ) (s : ℕ) → holds tags s ≡ true → get_or tags (slot_of tags s) 0 ≡ s
held_tag tags s h = ground arith

-- One round: the tag of the expected sequence is cleared.
popped : SequenceTracker → SequenceTracker
popped t = record t {
  buffered_tags = set t.buffered_tags (slot_of t.buffered_tags t.next_expected) 0;
  next_expected = inc64 t.next_expected;
}

round :
    (t : SequenceTracker) (count : ℕ) (r : SequenceTracker × ℕ)
    → 0 < length t.buffered_tags
    → t.next_expected + 1 < u64_mod
    → count + 1 < u64_mod
    → holds t.buffered_tags t.next_expected ≡ true
    → Released (popped t) (inc64 count) r
    → Released t count r
unfolding popped
round t count r pos small few hit p =
    let step : inc64 t.next_expected ≡ t.next_expected + 1 = omega arith in
    record {
      first = record {
        from = omega arith;
        free = sym (kept r.0.next_expected (omega arith)) ∙ p.first.free;
        taken = λ k lo hi. elim (ℕ_discrete t.next_expected k) [
          | yes e ↦ rw (← e) hit
          | no e ↦ sym (kept k (omega arith)) ∙ p.first.taken k (omega arith) hi
        ];
      };
      counted = omega arith;
      later = λ s h. p.later s h ∙ kept s (omega arith);
      slots = p.slots ∙ length-set t.buffered_tags (slot_of t.buffered_tags t.next_expected) 0;
      window = p.window;
      capped = λ top h. p.capped top (
          AtMost-set top t.buffered_tags (slot_of t.buffered_tags t.next_expected) 0 h
            (omega arith));
    }
  where
    kept :
        (s : ℕ) → t.next_expected < s → holds (popped t).buffered_tags s ≡ holds t.buffered_tags s
    kept s h = holds-pop t.buffered_tags t.next_expected s pos hit h

pub release-Released :
    (fuel : ℕ) (t : SequenceTracker) (count top : ℕ)
    → 0 < length t.buffered_tags
    → AtMost top t.buffered_tags
    → top < t.next_expected + fuel
    → top + 1 < u64_mod
    → count + fuel < u64_mod
    → Released t count (release fuel t count)
unfolding release popped pop_buffered
release-Released zero t count top pos capped enough small few =
    stopped t count (holds_above t.buffered_tags top t.next_expected capped (omega arith))
release-Released (suc fuel) t count top pos capped enough small few =
    elim (Bool-cases (holds t.buffered_tags t.next_expected)) [
      | inl hit ↦
          rw (hit, pop_buffered)
            (round t count _ pos
              (omega (
                arith,
                capped (slot_of t.buffered_tags t.next_expected),
                held_tag t.buffered_tags t.next_expected hit,
              ))
              (omega arith) hit
              (release-Released fuel (popped t) (inc64 count) top
                (rw (length-set t.buffered_tags (slot_of t.buffered_tags t.next_expected) 0) pos)
                (AtMost-set top t.buffered_tags (slot_of t.buffered_tags t.next_expected) 0 capped
                  (omega arith))
                (omega (
                  arith,
                  capped (slot_of t.buffered_tags t.next_expected),
                  held_tag t.buffered_tags t.next_expected hit,
                ))
                small (omega arith)))
      | inr miss ↦ rw (miss, pop_buffered) (stopped t count miss)
    ]
