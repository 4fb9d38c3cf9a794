-- ===== src/Phase2/Tracker/Arrive.antt =====
-- src/phase2/sequence_tracker.cpp, `on_sequence`, against the arrivals of `Tracker/Spec.antt`.
use hft_feed_handler.Common.{
  ℕ, suc, ◌+◌, ◌-◌, ◌≤◌, ◌<◌, ◌≡◌, refl, none, sym, ◌∙◌, some, ◌==◌, ◌||◌, length, length-set, min,
  dec_lt, arith, ℕ_discrete,
}
use hft_feed_handler.Phase2.Tracker.{
  SequenceTracker, SequenceUpdate, in_order, duplicate_or_old, gap_buffered, gap_too_large, slot_of,
  inc64, on_sequence, release, mark_buffered, advance,
}
use hft_feed_handler.Phase2.Tracker.Slots.{AtMost-set, holds-mark, holds_above}
use hft_feed_handler.Phase2.Tracker.Release.{IsFirstFree, Released, release-Released}
use hft_feed_handler.Phase2.Tracker.Spec.{SequenceSet, Arrives, old, in_turn, early, far}
use hft_feed_handler.Phase2.Tracker.Refine.{Refines}

-- What one arrival makes of a tracker that stands for `a`.
abbrev pub Simulated : ℕ → SequenceSet → ℕ → SequenceTracker × SequenceUpdate → Type 0
Simulated last a seq (t, u) = (b : SequenceSet) × Arrives a seq b u × Refines last t b

-- The branches of `on_sequence`, each under its condition.
missing_from : SequenceTracker → ℕ → SequenceUpdate
missing_from t seq = record {
  status = gap_buffered;
  input_sequence = seq;
  expected_before = t.next_expected;
  expected_after = t.next_expected;
  released_count = 0;
  missing_range = some (record { begin = t.next_expected; end = seq - 1 });
}

on_sequence_old :
    (t : SequenceTracker) (seq : ℕ)
    → 1 ≤ t.next_expected
    → seq < t.next_expected
    → on_sequence t seq
      ≡ (t, record (missing_from t seq) { status = duplicate_or_old; missing_range = none })
unfolding on_sequence missing_from
on_sequence_old t seq pos h = ground arith

on_sequence_early :
    (t : SequenceTracker) (seq : ℕ)
    → t.next_expected < seq
    → seq ≤ t.next_expected + t.gap_window
    → on_sequence t seq ≡ (mark_buffered t seq, missing_from t seq)
unfolding on_sequence missing_from
on_sequence_early t seq lo hi = ground arith

on_sequence_far :
    (t : SequenceTracker) (seq : ℕ)
    → t.next_expected + t.gap_window < seq
    → on_sequence t seq ≡ (t, record (missing_from t seq) { status = gap_too_large })
unfolding on_sequence missing_from
on_sequence_far t seq h = ground arith

on_sequence_in_turn :
    (t : SequenceTracker) (seq : ℕ)
    → 1 ≤ t.next_expected
    → seq ≡ t.next_expected
    → on_sequence t seq
      ≡ advance t (record (missing_from t seq) { status = in_order; missing_range = none })
unfolding on_sequence missing_from
on_sequence_in_turn t seq pos h = ground arith

mark-Refines :
    {last : ℕ} (t : SequenceTracker) (a : SequenceSet) (seq : ℕ)
    → Refines last t a
    → seq ≤ last
    → a.next < seq
    → seq ≤ a.next + a.window
    → Refines last (mark_buffered t seq) (record a { held = λ s. seq == s || a.held s })
unfolding mark_buffered
mark-Refines t a seq r sent lo hi = record {
  same_next = r.same_next;
  same_window = r.same_window;
  same_held = λ s h.
      rw
        (holds-mark t.buffered_tags t.next_expected t.gap_window seq s r.room r.tags_near
          (omega arith) (omega arith) (omega arith))
        (rw (r.same_held s h));
  started = r.started;
  in_session = r.in_session;
  no_wrap = r.no_wrap;
  room = rw size r.room;
  slots = rw size r.slots;
  tags_near =
      AtMost-set (t.next_expected + t.gap_window) t.buffered_tags (slot_of t.buffered_tags seq) seq
        r.tags_near (omega arith);
  tags_sent = AtMost-set _ t.buffered_tags (slot_of t.buffered_tags seq) seq r.tags_sent sent;
}
  where
    size : length (mark_buffered t seq).buffered_tags ≡ length t.buffered_tags
    size = length-set t.buffered_tags (slot_of t.buffered_tags seq) seq

-- The tracker that the loop starts from, and what the loop makes of it.
started_at : SequenceTracker → SequenceTracker
started_at t = record t { next_expected = inc64 t.next_expected }

released_by : SequenceTracker → SequenceTracker × ℕ
released_by t = release (suc (length t.buffered_tags)) (started_at t) (inc64 0)

released_lem :
    {last : ℕ} (t : SequenceTracker) (a : SequenceSet)
    → Refines last t a
    → t.next_expected ≤ last
    → Released (started_at t) 1 (released_by t)
unfolding released_by started_at
released_lem {last} t a r sent =
    release-Released (suc (length t.buffered_tags)) (started_at t) (inc64 0)
      (min last (t.next_expected + t.gap_window)) (omega arith)
      (λ i. omega (arith, r.tags_near i, r.tags_sent i)) (omega arith) (omega arith) (omega arith)

Released-Refines :
    {last : ℕ} (t : SequenceTracker) (a : SequenceSet) (p : SequenceTracker × ℕ)
    → Refines last t a
    → t.next_expected ≤ last
    → Released (started_at t) 1 p
    → Refines last p.0 (record a { next = p.0.next_expected })
      × IsFirstFree a.held (a.next + 1) p.0.next_expected
      × (p.1 ≡ p.0.next_expected - a.next)
unfolding started_at
Released-Refines {last} t a p r sent q = (
  record {
    same_next = refl;
    same_window = q.window ∙ r.same_window;
    same_held = λ s h. q.later s h ∙ r.same_held s (omega arith);
    started = omega arith;
    in_session = reach;
    no_wrap = r.no_wrap;
    room = omega (arith, q.slots);
    slots = omega (arith, q.slots);
    tags_near = q.capped _ (λ i. omega (arith, r.tags_near i, q.window));
    tags_sent = q.capped last r.tags_sent;
  },
  record {
    from = omega arith;
    free = sym (r.same_held _ (omega arith)) ∙ q.first.free;
    taken = λ k lo hi. sym (r.same_held k (omega arith)) ∙ q.first.taken k (omega arith) hi;
  },
  omega arith,
)
  where
    step : inc64 t.next_expected ≡ t.next_expected + 1
    step = omega arith

    reach : p.0.next_expected ≤ last + 1
    reach = elim (dec_lt (last + 1) p.0.next_expected) [
      | yes over ↦ cc (
        sym (holds_above t.buffered_tags last (last + 1) r.tags_sent (omega arith)),
        q.first.taken (last + 1) (omega arith) over,
      )
      | no near ↦ omega arith
    ]

in_turn_update :
    (a : SequenceSet) (seq after before released : ℕ)
    → before ≡ a.next
    → released ≡ after - a.next
    → seq ≡ a.next
    → IsFirstFree a.held (a.next + 1) after
    → Arrives a seq
        (record a { next = after })
        (record {
          status = in_order;
          input_sequence = seq;
          expected_before = before;
          expected_after = after;
          released_count = released;
          missing_range = none;
        })
in_turn_update a seq after before released e c turn first = rw (e, c) (in_turn after turn first)

advance-Simulated :
    {last : ℕ} (t : SequenceTracker) (a : SequenceSet) (seq : ℕ)
    → Refines last t a
    → seq ≤ last
    → seq ≡ t.next_expected
    → Simulated last a seq
        (advance t (record (missing_from t seq) { status = in_order; missing_range = none }))
unfolding advance missing_from released_by started_at
advance-Simulated t a seq r sent turn =
    let (s, first, count) =
      Released-Refines t a _ r (omega arith) (released_lem t a r (omega arith)) in
    (
      record a { next = (released_by t).0.next_expected },
      in_turn_update a seq _ t.next_expected _ r.same_next count (omega arith) first,
      s,
    )

-- The tracker follows the specification: every arrival of the session, on every branch, is an arrival
-- at the set it stands for, with the same answer, and the new tracker stands for the new set.
pub on_sequence-Refines :
    (last : ℕ) (t : SequenceTracker) (a : SequenceSet) (seq : ℕ)
    → Refines last t a
    → seq ≤ last
    → Simulated last a seq (on_sequence t seq)
unfolding missing_from
on_sequence-Refines last t a seq r sent = elim (dec_lt seq t.next_expected) [
  | yes passed ↦
      rw (on_sequence_old t seq r.started passed)
        (a, rw (r.same_next, missing_from) (old (omega arith)), r)
  | no rest ↦ elim (ℕ_discrete seq t.next_expected) [
    | yes turn ↦
        rw (on_sequence_in_turn t seq r.started turn) (advance-Simulated t a seq r sent turn)
    | no beyond ↦ elim (dec_lt (t.next_expected + t.gap_window) seq) [
      | yes out ↦
          rw (on_sequence_far t seq out) (a, rw (r.same_next, missing_from) (far (omega arith)), r)
      | no near ↦ rw (on_sequence_early t seq (omega arith) (omega arith)) (
        record a { held = λ s. seq == s || a.held s },
        rw (r.same_next, missing_from) (early (omega arith) (omega arith)),
        mark-Refines t a seq r sent (omega arith) (omega arith),
      )
    ]
  ]
]
