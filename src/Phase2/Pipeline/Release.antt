-- ===== src/Phase2/Pipeline/Release.antt =====
-- The release loop of `Pipeline::process_event`: with every sequence of the run waiting, it publishes
-- them in order and counts no inconsistency.
use hft_feed_handler.Common.{
  ℕ, zero, suc, ◌+◌, ◌≤◌, ◌<◌, ◌≡◌, ◌≢◌, refl, sym, ap, ◌∙◌, Bool, true, false, Option, none, some,
  List, [], ◌∷◌, ◌++◌, arith, find, erase, find-erase, u64_mod, Option-cases, inl, inr, subst,
}
use hft_feed_handler.Core.Types.{Venue, BookEvent}
use hft_feed_handler.Core.VenueArray.{at}
use hft_feed_handler.Phase2.Tracker.{inc64}
use hft_feed_handler.Phase2.Pipeline.{Pipeline, Pending, release_one, release_pending}
use hft_feed_handler.Phase2.Pipeline.Slices.{
  slice, slice-release_one_self, slice-release_one_ne, publish_consistent,
}

-- Sequences go up from `lo` and stay below `hi`.
abbrev pub Ascends : ℕ → List BookEvent → ℕ → Type 0
Ascends lo [] hi = lo ≤ hi
Ascends lo (e ∷ q) hi = (lo ≤ e.sequence) × Ascends (e.sequence + 1) q hi

pub Ascends-append :
    (lo : ℕ) (q : List BookEvent) (hi hi' : ℕ) (e : BookEvent)
    → Ascends lo q hi
    → hi ≤ e.sequence
    → e.sequence < hi'
    → Ascends lo (q ++ e ∷ []) hi'
Ascends-append lo [] hi hi' e h le lt = (omega arith, omega arith)
Ascends-append lo (x ∷ q) hi hi' e h le lt =
    (h.0, Ascends-append (x.sequence + 1) q hi hi' e h.1 le lt)

pub Ascends-mono :
    (lo : ℕ) (q : List BookEvent) (hi hi' : ℕ) → Ascends lo q hi → hi ≤ hi' → Ascends lo q hi'
Ascends-mono lo [] hi hi' h le = omega arith
Ascends-mono lo (x ∷ q) hi hi' h le = (h.0, Ascends-mono (x.sequence + 1) q hi hi' h.1 le)

abbrev pub is_some {ℓ} : {A : Type ℓ} → Option A → Bool
is_some none = false
is_some (some a) = true

-- The map files each event under its own sequence, in its venue's map.
abbrev pub IsKeyed : Venue → Pending → Type 0
IsKeyed v m = (s : ℕ) (e : BookEvent) → find m s ≡ some e → (e.sequence ≡ s) × (e.venue ≡ v)

IsKeyed-erase : (v : Venue) (m : Pending) (k : ℕ) → IsKeyed v m → IsKeyed v (erase m k)
IsKeyed-erase v m k h s e p = h s e (ground (arith, find-erase m k s))

-- What the loop makes of a pipeline, up to the sequence `to`.
pub record Drained (v : Venue) (to : ℕ) (p r : Pipeline) : Type 0 where
  pub tracker : (slice r v).tracker ≡ (slice p v).tracker
  pub waiting : (s : ℕ) → to ≤ s → find (slice r v).waiting s ≡ find (slice p v).waiting s
  pub keyed : IsKeyed v (slice r v).waiting
  pub ordered : Ascends 0 (slice r v).queue to
  pub others : (w : Venue) → v ≢ w → slice r w ≡ slice p w
  pub consistent : r.stats.pending_inconsistency ≡ p.stats.pending_inconsistency

module _ (p : Pipeline) (v : Venue) (seq to : ℕ) (held : BookEvent) (mine : held.venue ≡ v)
    (below : seq < to) where
  abbrev after_one : Pipeline
  after_one = release_one p v seq (some held)

  self : slice after_one v ≡ record (slice p v) {
    waiting = erase (at p.pending_by_venue v) seq;
    queue = at p.merger.queues v ++ held ∷ [];
  }
  self = slice-release_one_self p v seq held mine

  waiting_after : at after_one.pending_by_venue v ≡ erase (at p.pending_by_venue v) seq
  waiting_after = ap (λ s. s.waiting) self

  queue_after : at after_one.merger.queues v ≡ at p.merger.queues v ++ held ∷ []
  queue_after = ap (λ s. s.queue) self

  still_waiting :
      (s : ℕ)
      → seq < s
      → find (at after_one.pending_by_venue v) s ≡ find (at p.pending_by_venue v) s
  still_waiting s h = rw waiting_after (ground (arith, find-erase (at p.pending_by_venue v) seq s))

  one_consistent : after_one.stats.pending_inconsistency ≡ p.stats.pending_inconsistency
  unfolding release_one
  one_consistent = publish_consistent p held

  -- One round, and the rounds behind it.
  round : (r : Pipeline) → Drained v to after_one r → Drained v to p r
  round r d = record {
    tracker = d.tracker ∙ ap (λ s. s.tracker) self;
    waiting = λ s h. d.waiting s h ∙ still_waiting s (omega arith);
    keyed = d.keyed;
    ordered = d.ordered;
    others = λ w h. d.others w h ∙ slice-release_one_ne p v w seq held mine h;
    consistent = d.consistent ∙ one_consistent;
  }

-- The loop over a run of waiting sequences publishes each, keeps the queue in order, counts no
-- inconsistency, and touches neither later entries nor other venues.
pub release_pending-Drained :
    (n : ℕ) (p : Pipeline) (v : Venue) (seq to : ℕ)
    → seq + n ≡ to
    → to < u64_mod
    → IsKeyed v (slice p v).waiting
    → ((s : ℕ) → seq ≤ s → s < to → is_some (find (slice p v).waiting s) ≡ true)
    → Ascends 0 (slice p v).queue seq
    → Drained v to p (release_pending n p v seq)
unfolding release_pending
release_pending-Drained zero p v seq to e small keyed there asc = record {
  tracker = refl;
  waiting = λ s h. refl;
  keyed = keyed;
  ordered = Ascends-mono 0 (slice p v).queue seq to asc (omega arith);
  others = λ w h. refl;
  consistent = refl;
}
release_pending-Drained (suc n) p v seq to e small keyed there asc =
    elim (Option-cases (find (at p.pending_by_venue v) seq)) [
      | inl miss ↦ cc (sym (ap is_some miss) ∙ there seq (omega arith) (omega arith))
      | inr (held, found) ↦
          let (key, mine) = keyed seq held found in
          let below : seq < to = omega arith in
          rw found (
            round p v seq to held mine below _ (
              release_pending-Drained n (release_one p v seq (some held)) v (inc64 seq) to
                (omega arith) small
                (subst (IsKeyed v) (sym (waiting_after p v seq to held mine below))
                  (IsKeyed-erase v (at p.pending_by_venue v) seq keyed))
                (λ s lo hi.
                  ap is_some (still_waiting p v seq to held mine below s (omega arith))
                  ∙ there s (omega arith) hi)
                (subst (λ q. Ascends 0 q (inc64 seq)) (sym (queue_after p v seq to held mine below))
                  (Ascends-append 0 (at p.merger.queues v) seq (inc64 seq) held asc (omega arith)
                    (omega arith)))))
    ]
