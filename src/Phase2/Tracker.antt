-- ===== src/Phase2/Tracker.antt =====
-- src/phase2/sequence_tracker.cpp, `SequenceTracker`: one venue's sequence discipline. Sequences that
-- arrive early are remembered in a ring of tags, at slot `seq % buffered_tags_.size()`.
-- A method returns the new tracker beside its result.
pub mod Slots
pub mod Release
pub mod Spec
pub mod Refine
pub mod Arrive
pub mod Skip
pub mod Session
use hft_feed_handler.Common.{
  ℕ, zero, suc, ◌+◌, ◌-◌, ◌%◌, max, Bool, true, false, Option, none, some, List, ◌==◌, ltb, leb,
  if◌then◌else◌, get_or, set, length, replicate, u64_mod,
}

pub data SequenceStatus : Type 0 where
  in_order duplicate_or_old gap_buffered gap_too_large : SequenceStatus

-- `begin` and `end` are both missing.
pub record GapRange : Type 0 where
  pub begin : ℕ
  pub end : ℕ

pub record SequenceUpdate : Type 0 where
  pub status : SequenceStatus
  pub input_sequence : ℕ
  pub expected_before : ℕ
  pub expected_after : ℕ
  pub released_count : ℕ
  pub missing_range : Option GapRange

pub record SequenceTracker : Type 0 where
  pub next_expected : ℕ
  pub gap_window : ℕ
  pub buffered_tags : List ℕ

-- `++n` on a `std::uint64_t` or a `std::size_t`.
abbrev pub inc64 : ℕ → ℕ
inc64 n = (n + 1) % u64_mod

abbrev min_ring_slots : ℕ
min_ring_slots = 2

unfoldable pub new_tracker : ℕ → SequenceTracker
new_tracker gap_window = record {
  next_expected = 1;
  gap_window = gap_window;
  buffered_tags = replicate (max min_ring_slots ((gap_window + 1) % u64_mod)) 0;
}

-- `seq % buffered_tags_.size()`.
abbrev pub slot_of : List ℕ → ℕ → ℕ
slot_of tags seq = seq % length tags

unfoldable pub mark_buffered : SequenceTracker → ℕ → SequenceTracker
mark_buffered t seq = record t {
  buffered_tags = set t.buffered_tags (slot_of t.buffered_tags seq) seq;
}

-- The test of `pop_buffered`: the slot of `seq` carries its tag.
abbrev pub holds : List ℕ → ℕ → Bool
holds tags seq = get_or tags (slot_of tags seq) 0 == seq

unfoldable pub pop_buffered : SequenceTracker → ℕ → Bool × SequenceTracker
pop_buffered t seq =
    if holds t.buffered_tags seq
    then (true, record t { buffered_tags = set t.buffered_tags (slot_of t.buffered_tags seq) 0 })
    else (false, t)

-- `while (pop_buffered(next_expected_)) { ++next_expected_; ++out.released_count; }`, on fuel.
unfoldable pub release : ℕ → SequenceTracker → ℕ → SequenceTracker × ℕ
release zero t released = (t, released)
release (suc fuel) t released =
    let (hit, t') = pop_buffered t t.next_expected in
    let rest =
      release fuel (record t' { next_expected = inc64 t'.next_expected }) (inc64 released) in
    if hit then rest else (t', released)

-- The branch of `on_sequence` for the expected sequence. Each round of the loop clears a tag, so one
-- round more than there are slots is enough.
unfoldable pub advance : SequenceTracker → SequenceUpdate → SequenceTracker × SequenceUpdate
advance t out =
    let t₁ = record t { next_expected = inc64 t.next_expected } in
    let (t₂, released) = release (suc (length t.buffered_tags)) t₁ (inc64 out.released_count) in
    (
      t₂,
      record out {
        status = in_order;
        released_count = released;
        expected_after = t₂.next_expected;
      },
    )

unfoldable pub on_sequence : SequenceTracker → ℕ → SequenceTracker × SequenceUpdate
unfolding advance mark_buffered
on_sequence t seq =
    let out : SequenceUpdate = record {
      status = in_order;
      input_sequence = seq;
      expected_before = t.next_expected;
      expected_after = t.next_expected;
      released_count = 0;
      missing_range = none;
    } in
    let missing = some (record { begin = t.next_expected; end = seq - 1 }) in
    if seq == 0
    then (t, record out { status = duplicate_or_old })
    else if ltb seq t.next_expected
    then (t, record out { status = duplicate_or_old })
    else if seq == t.next_expected
    then advance t out
    else if ltb t.gap_window (seq - t.next_expected)
    then (t, record out { status = gap_too_large; missing_range = missing })
    else (mark_buffered t seq, record out { status = gap_buffered; missing_range = missing })

-- The `for` loop of `force_advance` over `rounds` sequences from `s` on.
unfoldable pub clear_range : ℕ → ℕ → List ℕ → List ℕ
clear_range zero s tags = tags
clear_range (suc rounds) s tags =
    clear_range rounds (s + 1) (if holds tags s then set tags (slot_of tags s) 0 else tags)

unfoldable pub force_advance : SequenceTracker → ℕ → SequenceTracker
unfolding clear_range
force_advance t new_next =
    let span = new_next - t.next_expected in
    if leb new_next t.next_expected then t else record t {
      next_expected = new_next;
      buffered_tags =
          if leb (length t.buffered_tags) span
          then replicate (length t.buffered_tags) 0
          else clear_range span t.next_expected t.buffered_tags;
    }
