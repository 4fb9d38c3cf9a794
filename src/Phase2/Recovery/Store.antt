-- ===== src/Phase2/Recovery/Store.antt =====
-- What the recovery store finds, and what the simulator queues for an answer.
use hft_feed_handler.Common.{
  ℕ, zero, suc, ◌+◌, ◌-◌, ◌≤◌, ◌≡◌, refl, sym, ap, ◌∙◌, Bool, false, Option, none, some, List, [],
  ◌∷◌, ◌++◌, arith, ltb, get_elem?, lower_bound, less_at, IsPartitioned, IsPartitionPoint,
  lower_bound-IsPartitionPoint, Option-cases, inl, inr, dec_lt, lt→ltb, ltb→lt, le→ltb,
  ltb-false→le,
}
use hft_feed_handler.Core.Types.{Venue, BookEvent}
use hft_feed_handler.Core.VenueArray.{at}
use hft_feed_handler.Phase2.Recovery.{
  RecoveryRequest, RecoveryReason, gap_detected, ReplayRecoveryStore, ReplayRecoverySimulator, hit,
  lookup, earlier_than, recovered, recover_range, answer, request_recovery,
}

hit_lem :
    (seq : ℕ) (o : Option BookEvent) (e : BookEvent)
    → hit seq o ≡ some e
    → (o ≡ some e) × (e.sequence ≡ seq)
unfolding hit
hit_lem seq none e h = cc
hit_lem seq (some x) e h = ground arith

-- Whatever the order of the store, a hit is an event of the venue's queue that carries the sequence
-- asked for.
pub lookup_sound :
    (s : ReplayRecoveryStore) (v : Venue) (seq : ℕ) (e : BookEvent)
    → lookup s v seq ≡ some e
    → ((i : ℕ) × (get_elem? (at s.by_venue v) i ≡ some e)) × (e.sequence ≡ seq)
unfolding lookup
lookup_sound s v seq e h =
    let (found, carries) = hit_lem seq _ e h in
    ((lower_bound (earlier_than seq) (at s.by_venue v), found), carries)

-- Sequences do not fall along the queue.
abbrev pub InSequence : List BookEvent → Type 0
InSequence q =
    (i j : ℕ) (a b : BookEvent)
    → i ≤ j
    → get_elem? q i ≡ some a
    → get_elem? q j ≡ some b
    → a.sequence ≤ b.sequence

less_at_iff :
    (seq : ℕ) (q : List BookEvent) (i : ℕ) (e : BookEvent)
    → get_elem? q i ≡ some e
    → less_at (earlier_than seq) q i ≡ ltb e.sequence seq
unfolding less_at
less_at_iff seq q i e h = rw (h, less_at)

get_elem?-none_mono :
    (q : List BookEvent) (i j : ℕ) → i ≤ j → get_elem? q i ≡ none → get_elem? q j ≡ none
get_elem?-none_mono [] i j h e = refl
get_elem?-none_mono (x ∷ q) zero j h e = cc
get_elem?-none_mono (x ∷ q) (suc i) zero h e = absurd (omega arith)
get_elem?-none_mono (x ∷ q) (suc i) (suc j) h e = get_elem?-none_mono q i j (omega arith) e

-- The test that the search makes at an element, or past the end.
abbrev passes : ℕ → Option BookEvent → Bool
passes seq o = elim o [ some x ↦ ltb x.sequence seq | none ↦ false ]

InSequence-IsPartitioned :
    (seq : ℕ) (q : List BookEvent) → InSequence q → IsPartitioned (earlier_than seq) q
unfolding less_at
InSequence-IsPartitioned seq q asc i j le t = elim (Option-cases (get_elem? q j)) [
  | inl e ↦ cc (sym (ap (passes seq) e) ∙ t)
  | inr (b, there) ↦ elim (Option-cases (get_elem? q i)) [
    | inl e ↦ cc (sym there ∙ get_elem?-none_mono q i j le e)
    | inr (a, here) ↦
        ap (passes seq) here
        ∙ lt→ltb a.sequence seq (
            omega (
              arith,
              asc i j a b le here there,
              ltb→lt b.sequence seq (sym (ap (passes seq) there) ∙ t),
            ))
  ]
]

-- In a queue in sequence, a sequence that is there is found.
pub lookup_complete :
    (s : ReplayRecoveryStore) (v : Venue) (seq i : ℕ) (e : BookEvent)
    → InSequence (at s.by_venue v)
    → get_elem? (at s.by_venue v) i ≡ some e
    → e.sequence ≡ seq
    → (f : BookEvent) × (lookup s v seq ≡ some f) × (f.sequence ≡ seq)
unfolding lookup hit
lookup_complete s v seq i e asc there carries = elim (dec_lt i r) [
  | yes before ↦ cc (
      sym (less_at_iff seq q i e there ∙ le→ltb e.sequence seq (omega arith))
      ∙ point.before i before)
  | no behind ↦ elim (Option-cases (get_elem? q r)) [
    | inl e' ↦ cc (sym there ∙ get_elem?-none_mono q r i (omega arith) e')
    | inr (f, found) ↦
        let reaches = sym (less_at_iff seq q r f found) ∙ point.behind r (omega arith) in
        let same : f.sequence ≡ seq =
          omega
            (arith, asc r i f e (omega arith) found there, ltb-false→le f.sequence seq reaches) in
        (f, rw (found, hit) (ground arith), same)
  ]
]
  where
    q : List BookEvent
    q = at s.by_venue v

    r : ℕ
    r = lower_bound (earlier_than seq) q

    point : IsPartitionPoint (earlier_than seq) q r
    point = lower_bound-IsPartitionPoint (earlier_than seq) q (InSequence-IsPartitioned seq q asc)

-- The same, read along the queue.
abbrev pub Rises : ℕ → List BookEvent → Type 0
Rises lo [] = Unit {0}
Rises lo (e ∷ q) = (lo ≤ e.sequence) × Rises e.sequence q

Rises-ge :
    (lo : ℕ) (q : List BookEvent) (j : ℕ) (b : BookEvent)
    → Rises lo q
    → get_elem? q j ≡ some b
    → lo ≤ b.sequence
Rises-ge lo [] j b h e = cc
Rises-ge lo (x ∷ q) zero b h e = ground (arith, h.0)
Rises-ge lo (x ∷ q) (suc j) b h e = omega (arith, h.0, Rises-ge x.sequence q j b h.1 e)

pub Rises-InSequence : (lo : ℕ) (q : List BookEvent) → Rises lo q → InSequence q
Rises-InSequence lo [] h i j a b le p r = cc
Rises-InSequence lo (x ∷ q) h zero zero a b le p r = ground arith
Rises-InSequence lo (x ∷ q) h zero (suc j) a b le p r =
    ground (arith, Rises-ge x.sequence q j b h.1 r)
Rises-InSequence lo (x ∷ q) h (suc i) zero a b le p r = absurd (omega arith)
Rises-InSequence lo (x ∷ q) h (suc i) (suc j) a b le p r =
    Rises-InSequence x.sequence q h.1 i j a b (omega arith) p r

-- The simulator's queue holds only sequences up to `last`.
abbrev pub AllUpTo : ℕ → List BookEvent → Type 0
AllUpTo last [] = Unit {0}
AllUpTo last (e ∷ q) = (e.sequence ≤ last) × AllUpTo last q

AllUpTo-append :
    (last : ℕ) (q : List BookEvent) (e : BookEvent)
    → AllUpTo last q
    → e.sequence ≤ last
    → AllUpTo last (q ++ e ∷ [])
AllUpTo-append last [] e h le = (le, tt)
AllUpTo-append last (x ∷ q) e h le = (h.0, AllUpTo-append last q e h.1 le)

recovered-AllUpTo :
    (last seq : ℕ) (sim : ReplayRecoverySimulator) (o : Option BookEvent)
    → ((e : BookEvent) → o ≡ some e → e.sequence ≤ last)
    → AllUpTo last sim.pending_recovered
    → AllUpTo last (recovered sim o).pending_recovered
unfolding recovered
recovered-AllUpTo last seq sim none le h = h
recovered-AllUpTo last seq sim (some e) le h =
    AllUpTo-append last sim.pending_recovered e h (le e refl)

recover_range-AllUpTo :
    (last : ℕ) (store : ReplayRecoveryStore) (v : Venue) (rounds seq : ℕ)
    (sim : ReplayRecoverySimulator)
    → seq + rounds ≤ suc last
    → AllUpTo last sim.pending_recovered
    → AllUpTo last (recover_range store v rounds seq sim).pending_recovered
unfolding recover_range
recover_range-AllUpTo last store v zero seq sim le h = h
recover_range-AllUpTo last store v (suc rounds) seq sim le h =
    recover_range-AllUpTo last store v rounds (seq + 1) (recovered sim (lookup store v seq))
      (omega arith)
      (recovered-AllUpTo last seq sim (lookup store v seq)
        (λ e p. omega (arith, (lookup_sound store v seq e p).1)) h)

answer-AllUpTo :
    (last : ℕ) (reason : RecoveryReason) (store : ReplayRecoveryStore) (req : RecoveryRequest)
    (sim : ReplayRecoverySimulator)
    → req.missing.end ≤ last
    → req.missing.begin ≤ suc last
    → AllUpTo last sim.pending_recovered
    → AllUpTo last (answer reason store req sim).pending_recovered
unfolding answer
answer-AllUpTo last RecoveryReason.gap_too_large store req sim le lo h = h
answer-AllUpTo last gap_detected store req sim le lo h =
    recover_range-AllUpTo last store req.venue (suc req.missing.end - req.missing.begin)
      req.missing.begin sim (omega arith) h

pub request_recovery-AllUpTo :
    (last : ℕ) (store : ReplayRecoveryStore) (req : RecoveryRequest) (sim : ReplayRecoverySimulator)
    → req.missing.end ≤ last
    → req.missing.begin ≤ suc last
    → AllUpTo last sim.pending_recovered
    → AllUpTo last (request_recovery (some store) req sim).pending_recovered
unfolding request_recovery
request_recovery-AllUpTo last store req sim le lo h =
    answer-AllUpTo last req.reason store req _ le lo h
