-- ===== src/Phase2/Tracker/Session.antt =====
-- A whole session of one venue: the order in which its sequences arrive does not matter.
use hft_feed_handler.Common.{
  ℕ, ◌+◌, ◌≤◌, ◌<◌, ◌≡◌, ◌≢◌, refl, sym, ◌∙◌, Bool, false, List, [], ◌∷◌, ◌==◌, ◌||◌, arith,
  u64_mod,
}
use hft_feed_handler.Phase2.Tracker.{
  SequenceTracker, SequenceUpdate, gap_too_large, new_tracker, on_sequence,
}
use hft_feed_handler.Phase2.Tracker.Release.{IsFirstFree}
use hft_feed_handler.Phase2.Tracker.Spec.{SequenceSet, Arrives, old, in_turn, early, far}
use hft_feed_handler.Phase2.Tracker.Refine.{Refines, empty_set, new_tracker-Refines}
use hft_feed_handler.Phase2.Tracker.Arrive.{on_sequence-Refines}

unfoldable pub contains : List ℕ → ℕ → Bool
contains [] s = false
contains (x ∷ xs) s = x == s || contains xs s

-- The tracker after the sequences of a list, and the sum of the released counts.
unfoldable pub run : SequenceTracker → List ℕ → SequenceTracker × ℕ
run t [] = (t, 0)
run t (x ∷ xs) =
    let (t', u) = on_sequence t x in let (t'', n) = run t' xs in (t'', u.released_count + n)

-- No sequence of the list lies beyond the window when it arrives, and none is above `last`.
abbrev pub Fits : ℕ → SequenceTracker → List ℕ → Type 0
Fits last t [] = Unit {0}
Fits last t (x ∷ xs) =
    (x ≤ last) × ((on_sequence t x).1.status ≢ gap_too_large) × Fits last (on_sequence t x).0 xs

-- What the set `a` says of the sequences seen so far.
record Tracks (a : SequenceSet) (seen : ℕ → Bool) : Type 0 where
  first : IsFirstFree seen 1 a.next
  held_seen : (s : ℕ) → a.next ≤ s → a.held s ≡ seen s

abbrev also : ℕ → (ℕ → Bool) → ℕ → Bool
also x seen s = x == s || seen s

Arrives-Tracks :
    (x : ℕ) (seen : ℕ → Bool) {a b : SequenceSet} {u : SequenceUpdate}
    → Arrives a x b u
    → u.status ≢ gap_too_large
    → Tracks a seen
    → Tracks b (also x seen) × (u.released_count + a.next ≡ b.next)
Arrives-Tracks x seen {a} (old h) near k = (
  record {
    first = record {
      from = k.first.from;
      free = ground (arith, k.first.free);
      taken = λ s lo hi. ground (arith, k.first.taken s lo hi);
    };
    held_seen = λ s h'. ground (arith, k.held_seen s h');
  },
  omega arith,
)
Arrives-Tracks x seen {a} (in_turn after h first) near k = (
  record {
    first = record {
      from = omega (arith, k.first.from, first.from);
      free = ground (arith, first.free, first.from, k.held_seen after (omega (arith, first.from)));
      taken = λ s lo hi. ground (arith, k.first.taken s lo, first.taken s, k.held_seen s);
    };
    held_seen = λ s h'. ground (arith, first.from, k.held_seen s (omega (arith, first.from)));
  },
  omega (arith, first.from),
)
Arrives-Tracks x seen {a} (early lo hi) near k = (
  record {
    first = record {
      from = k.first.from;
      free = ground (arith, k.first.free);
      taken = λ s lo hi. ground (arith, k.first.taken s lo hi);
    };
    held_seen = λ s h'. ground (arith, k.held_seen s h');
  },
  omega arith,
)
Arrives-Tracks x seen (far h) near k = absurd (near refl)

-- Seen in the opposite order of a list that is consumed from its head.
also_after : List ℕ → (ℕ → Bool) → ℕ → Bool
also_after [] seen = seen
also_after (x ∷ xs) seen = also_after xs (also x seen)

also_after-contains :
    (xs : List ℕ) (seen : ℕ → Bool) (s : ℕ) → also_after xs seen s ≡ (contains xs s || seen s)
unfolding also_after contains
also_after-contains [] seen s = refl
also_after-contains (x ∷ xs) seen s = also_after-contains xs (also x seen) s ∙ ground arith

run-Tracks :
    (last : ℕ) (xs : List ℕ) (t : SequenceTracker) (a : SequenceSet) (seen : ℕ → Bool)
    → Refines last t a
    → Tracks a seen
    → Fits last t xs
    → (b : SequenceSet) × Refines last (run t xs).0 b
      × Tracks b (also_after xs seen)
      × ((run t xs).1 + a.next ≡ b.next)
unfolding run also_after
run-Tracks last [] t a seen r k fits = (a, r, k, omega arith)
run-Tracks last (x ∷ xs) t a seen r k fits =
    let (b, arrives, r') = on_sequence-Refines last t a x r fits.0 in
    let (k', count) = Arrives-Tracks x seen arrives fits.1 k in
    let (c, r'', k'', count') =
      run-Tracks last xs (on_sequence t x).0 b (also x seen) r' k' fits.2 in
    (c, r'', k'', omega (arith, count, count'))

-- Whatever order a session's sequences arrive in, and however often, the tracker then expects the
-- first number from 1 on that has not arrived, and it has released each number before that one, once.
-- The condition: each fits the window when it arrives, and no counter reaches the end of its range.
pub run-first_missing :
    (last window : ℕ) (xs : List ℕ)
    → last + 1 < u64_mod
    → window + 3 < u64_mod
    → Fits last (new_tracker window) xs
    → IsFirstFree (contains xs) 1 (run (new_tracker window) xs).0.next_expected
      × ((run (new_tracker window) xs).1 + 1 ≡ (run (new_tracker window) xs).0.next_expected)
run-first_missing last window xs small room fits =
    let (b, r, k, count) =
      run-Tracks last xs (new_tracker window) (empty_set window) (λ s. false)
        (new_tracker-Refines last window small room) nothing fits in
    (first_of_run b r k, omega (arith, count, r.same_next))
  where
    nothing : Tracks (empty_set window) (λ s. false)
    nothing = record {
      first = record { from = omega arith; free = refl; taken = λ s lo hi. absurd (omega arith) };
      held_seen = λ s h. refl;
    }

    same : (s : ℕ) → also_after xs (λ s'. false) s ≡ contains xs s
    same s = also_after-contains xs (λ s'. false) s ∙ ground arith

    first_of_run :
        (b : SequenceSet)
        → Refines last (run (new_tracker window) xs).0 b
        → Tracks b (also_after xs (λ s. false))
        → IsFirstFree (contains xs) 1 (run (new_tracker window) xs).0.next_expected
    first_of_run b r k = record {
      from = omega (arith, r.same_next, k.first.from);
      free = rw r.same_next (sym (same b.next) ∙ k.first.free);
      taken = λ s lo hi. sym (same s) ∙ k.first.taken s lo (omega (arith, r.same_next));
    }
