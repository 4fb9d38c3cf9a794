-- ===== src/Phase2/Arbiter/Pending.antt =====
-- src/phase2/ab_arbiter.cpp: the pending events, sorted and swept.
use hft_feed_handler.Common.{
  ℕ, zero, suc, ◌+◌, ◌≤◌, ◌<◌, ◌≡◌, ◌≢◌, refl, sym, ap, ◌∙◌, subst, inl, inr, Bool-cases,
  Option-cases, false, Option, some, List, [], ◌∷◌, ◌++◌, ltb, ◌==◌, length, arith,
}
use hft_feed_handler.Core.Types.{Venue, BookEvent}
use hft_feed_handler.Core.VenueArray.{at, at-put_self, at-put_ne}
use hft_feed_handler.Phase2.Arbiter.{
  AbArbiter, insert_event, sort_events, erase_at, element, with_pending, replay,
}

module _ (Q : BookEvent → Type 0) where
  abbrev pub AllOf : List BookEvent → Type 0
  AllOf [] = Unit {0}
  AllOf (x ∷ xs) = Q x × AllOf xs

  AllOf-insert_event :
      (ev : BookEvent) (xs : List BookEvent) → Q ev → AllOf xs → AllOf (insert_event ev xs)
  unfolding insert_event
  AllOf-insert_event ev [] q h = (q, tt)
  AllOf-insert_event ev (x ∷ xs) q (p, h) = elim (Bool-cases (ltb x.sequence ev.sequence)) [
    | inl e ↦ rw e (p, AllOf-insert_event ev xs q h)
    | inr e ↦ rw e (q, (p, h))
  ]

  pub AllOf-sort_events : (xs : List BookEvent) → AllOf xs → AllOf (sort_events xs)
  unfolding sort_events
  AllOf-sort_events [] h = tt
  AllOf-sort_events (x ∷ xs) (p, h) =
      AllOf-insert_event x (sort_events xs) p (AllOf-sort_events xs h)

  AllOf-erase_at : (xs : List BookEvent) (i : ℕ) → AllOf xs → AllOf (erase_at xs i)
  unfolding erase_at
  AllOf-erase_at [] i h = tt
  AllOf-erase_at (x ∷ xs) zero (p, h) = h
  AllOf-erase_at (x ∷ xs) (suc i) (p, h) = (p, AllOf-erase_at xs i h)

  AllOf-element :
      (xs : List BookEvent) (i : ℕ) (x : BookEvent) → element xs i ≡ some x → AllOf xs → Q x
  unfolding element
  AllOf-element [] i x e h = cc
  AllOf-element (y ∷ xs) zero x e (q, h) = let same : y ≡ x = cc in subst Q same q
  AllOf-element (y ∷ xs) (suc i) x e (q, h) = AllOf-element xs i x e h

  pub AllOf-append_one :
      (xs : List BookEvent) (x : BookEvent) → AllOf xs → Q x → AllOf (xs ++ x ∷ [])
  AllOf-append_one [] x h q = (q, tt)
  AllOf-append_one (y ∷ xs) x (p, h) q = (p, AllOf-append_one xs x h q)

pub AllOf-mono :
    (P Q : BookEvent → Type 0) (xs : List BookEvent)
    → ((x : BookEvent) → P x → Q x)
    → AllOf P xs
    → AllOf Q xs
AllOf-mono P Q [] f h = tt
AllOf-mono P Q (x ∷ xs) f (p, h) = (f x p, AllOf-mono P Q xs f h)

length-insert_event :
    (ev : BookEvent) (xs : List BookEvent) → length (insert_event ev xs) ≡ suc (length xs)
unfolding insert_event
length-insert_event ev [] = refl
length-insert_event ev (x ∷ xs) = elim (Bool-cases (ltb x.sequence ev.sequence)) [
  | inl e ↦ rw e (ap suc (length-insert_event ev xs))
  | inr e ↦ rw e refl
]

pub length-sort_events : (xs : List BookEvent) → length (sort_events xs) ≡ length xs
unfolding sort_events
length-sort_events [] = refl
length-sort_events (x ∷ xs) =
    length-insert_event x (sort_events xs) ∙ ap suc (length-sort_events xs)

-- An element that is there is one that an erasure takes away.
length-erase_at :
    (xs : List BookEvent) (i : ℕ) (x : BookEvent)
    → element xs i ≡ some x
    → (i < length xs) × (suc (length (erase_at xs i)) ≡ length xs)
unfolding element erase_at
length-erase_at [] i x e = cc
length-erase_at (y ∷ xs) zero x e = (omega arith, refl)
length-erase_at (y ∷ xs) (suc i) x e =
    let h = length-erase_at xs i x e in (omega (arith, h.0), ap suc h.1)

-- What a sweep leaves of an arbiter: the same but for the venue's pending events.
pub record Swept (Q : BookEvent → Type 0) (v : Venue) (s r : AbArbiter) : Type 0 where
  pub sequencer : r.sequencer ≡ s.sequencer
  pub ready : r.ready ≡ s.ready
  pub stats : r.stats ≡ s.stats
  pub others : (w : Venue) → v ≢ w → at r.pending w ≡ at s.pending w
  pub left : AllOf Q (at r.pending v)

Swept-self :
    (Q : BookEvent → Type 0) (v : Venue) (s : AbArbiter) → AllOf Q (at s.pending v) → Swept Q v s s
Swept-self Q v s all = record {
  sequencer = refl;
  ready = refl;
  stats = refl;
  others = λ w h. refl;
  left = all;
}

Swept-with_pending :
    (Q : BookEvent → Type 0) (ev : BookEvent) (pend : List BookEvent) (s r : AbArbiter)
    → Swept Q ev.venue (with_pending s ev pend) r
    → Swept Q ev.venue s r
Swept-with_pending Q ev pend s r k = record {
  sequencer = k.sequencer;
  ready = k.ready;
  stats = k.stats;
  others = λ w h. k.others w h ∙ at-put_ne s.pending ev.venue w pend h;
  left = k.left;
}

-- If no pending event's turn has come, the loop makes no call, whatever the call would do, and ends.
pub replay-Swept :
    (Q : BookEvent → Type 0) (again : AbArbiter → BookEvent → Option AbArbiter) (fuel : ℕ)
    (ev : BookEvent) (next it : ℕ) (s : AbArbiter)
    → ((x : BookEvent) → Q x → x.sequence ≢ next)
    → AllOf Q (at s.pending ev.venue)
    → it ≤ length (at s.pending ev.venue)
    → length (at s.pending ev.venue) < fuel + it
    → (r : AbArbiter) × (replay again fuel ev next it s ≡ some r) × Swept Q ev.venue s r
unfolding replay
replay-Swept Q again zero ev next it s none_next all in_range enough = absurd (omega arith)
replay-Swept Q again (suc fuel) ev next it s none_next all in_range enough =
    elim (Option-cases (element (at s.pending ev.venue) it)) [
      | inl e ↦ rw (replay, e) (s, refl, Swept-self Q ev.venue s all)
      | inr (x, e) ↦
          let shorter = length-erase_at (at s.pending ev.venue) it x e in
          elim (Bool-cases (ltb x.sequence next)) [
            | inl old ↦
                let rest =
                  replay-Swept Q again fuel ev next it erased none_next
                    (subst (AllOf Q) (sym here) (AllOf-erase_at Q (at s.pending ev.venue) it all))
                    (omega (arith, ap length here, shorter))
                    (omega (arith, ap length here, shorter, enough)) in
                (rest.0, rw (replay, e, old) rest.1, Swept-with_pending Q ev pend s rest.0 rest.2)
            | inr later ↦
                rw
                  (
                    replay,
                    e,
                    later,
                    not_turn x (AllOf-element Q (at s.pending ev.venue) it x e all),
                  )
                  (replay-Swept Q again fuel ev next (it + 1) s none_next all
                    (omega (arith, shorter)) (omega (arith, shorter, enough)))
          ]
    ]
  where
    pend : List BookEvent
    pend = erase_at (at s.pending ev.venue) it

    erased : AbArbiter
    erased = with_pending s ev pend

    here : at erased.pending ev.venue ≡ pend
    here = at-put_self s.pending ev.venue pend

    not_turn : (x : BookEvent) → Q x → (x.sequence == next) ≡ false
    not_turn x q = ground (arith, none_next x q)
