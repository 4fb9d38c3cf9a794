-- ===== src/Live/Resync/Unbroken.antt =====
-- src/live/bitfinex/resync_state_machine.cpp: when the feed is live, and what its events say.
use hft_feed_handler.Common.{
  ℕ, ◌≡◌, ◌≢◌, ◌↔◌, refl, sym, ap, ◌∙◌, subst, inl, inr, true, false, Bool-cases, Option, none,
  some, List, [], ◌∷◌, ◌++◌, ◌==◌, if◌then◌else◌, arith,
}
use hft_feed_handler.Core.Types.{BookEvent}
use hft_feed_handler.Phase2.Tracker.{inc64}
use hft_feed_handler.Proto.Bytes.{Bytes}
use hft_feed_handler.Live.Lowering.{Doubles}
use hft_feed_handler.Live.Lowering.Follows.{replayed, replayed-append}
use hft_feed_handler.Live.Resync.{
  ResyncStateMachine, FeedState, gapped, live, new_machine, is_live_state, breaks, on_disconnect,
  SnapshotFrame, UpdateFrame, Outcome, on_snapshot, on_update,
}
use hft_feed_handler.Live.Resync.Branches.{
  apply_update-Applied, ignored, plain, broken, next_one, on_update-replayed, same_book,
  on_snapshot-replayed,
}

true-false : true ≡ false → ⊥
true-false e = cc

gapped_dead : is_live_state gapped ≡ false
unfolding is_live_state
gapped_dead = refl

zero_of : (n : ℕ) → (n == 0) ≡ true → n ≡ 0
zero_of n h = ground arith

nonzero_of : (n : ℕ) → (n == 0) ≡ false → n ≢ 0
nonzero_of n h = ground arith

of_zero : (n : ℕ) → n ≡ 0 → (n == 0) ≡ true
of_zero n h = ground arith

of_nonzero : (n : ℕ) → n ≢ 0 → (n == 0) ≡ false
of_nonzero n h = ground arith

next_of :
    (last_seq : Option ℕ) (sequence : ℕ)
    → breaks last_seq sequence ≡ false
    → (last : ℕ) × (last_seq ≡ some last) × (sequence ≡ inc64 last)
unfolding breaks
next_of none sequence h = cc
next_of (some last) sequence h = (last, refl, ground arith)

no_break : (last sequence : ℕ) → sequence ≡ inc64 last → breaks (some last) sequence ≡ false
unfolding breaks
no_break last sequence e = ground arith

module _ (d : Doubles) where
  pub data Input : Type 0 where
    disconnection : Input
    a_snapshot : SnapshotFrame d → ℕ → Input
    an_update : UpdateFrame d → ℕ → Input

  -- The machine behind a list of inputs, the last one first.
  unfoldable pub run : Bytes → List Input → ResyncStateMachine
  run wire [] = new_machine wire
  run wire (disconnection ∷ older) = on_disconnect (run wire older)
  run wire (a_snapshot frame ts ∷ older) = (on_snapshot d (run wire older) frame ts).machine
  run wire (an_update frame ts ∷ older) = (on_update d (run wire older) frame ts).machine

  -- The events since the last snapshot, its own first.
  unfoldable pub events_since : Bytes → List Input → List BookEvent
  events_since wire [] = []
  events_since wire (disconnection ∷ older) = events_since wire older
  events_since wire (a_snapshot frame ts ∷ older) =
      (on_snapshot d (run wire older) frame ts).emitted
  events_since wire (an_update frame ts ∷ older) =
      events_since wire older ++ (on_update d (run wire older) frame ts).emitted

  abbrev pub cut_at : ℕ → Option ℕ
  cut_at sequence = if sequence == 0 then none else some sequence

  -- Since the last snapshot there were updates only, and those with a number count on from it without a
  -- gap; the last number, if there is one.
  pub data Unbroken : List Input → Option ℕ → Type 0 where
    at_snapshot :
        (frame : SnapshotFrame d) (ts : ℕ) (older : List Input)
        → Unbroken (a_snapshot frame ts ∷ older) (cut_at frame.sequence)
    unnumbered :
        (frame : UpdateFrame d) (ts : ℕ) (older : List Input) (last : Option ℕ)
        → Unbroken older last
        → frame.sequence ≡ 0
        → Unbroken (an_update frame ts ∷ older) last
    numbered :
        (frame : UpdateFrame d) (ts : ℕ) (older : List Input) (last : ℕ)
        → Unbroken older (some last)
        → frame.sequence ≢ 0
        → frame.sequence ≡ inc64 last
        → Unbroken (an_update frame ts ∷ older) (some frame.sequence)

  -- The orders on the book are those that the events since the last snapshot leave.
  run-replayed :
      (wire : Bytes) (inputs : List Input)
      → (run wire inputs).on_book ≡ replayed [] (events_since wire inputs)
  unfolding run events_since
  run-replayed wire [] = unfold new_machine replayed in refl
  run-replayed wire (disconnection ∷ older) = same_book d (run wire older) ∙ run-replayed wire older
  run-replayed wire (a_snapshot frame ts ∷ older) = on_snapshot-replayed d (run wire older) frame ts
  run-replayed wire (an_update frame ts ∷ older) =
      on_update-replayed d (run wire older) frame ts
      ∙ ap (λ b. replayed b (on_update d (run wire older) frame ts).emitted)
          (run-replayed wire older)
      ∙ sym (
          replayed-append [] (events_since wire older)
            (on_update d (run wire older) frame ts).emitted)

  live_of : (s : FeedState) → is_live_state s ≡ true → s ≡ live
  unfolding is_live_state
  live_of live h = refl
  live_of gapped h = cc

  is_live_state_of : (s : FeedState) → s ≡ live → is_live_state s ≡ true
  unfolding is_live_state
  is_live_state_of s e = ap is_live_state e

  -- While the machine is live, its inputs are unbroken.
  live-Unbroken :
      (wire : Bytes) (inputs : List Input)
      → is_live_state (run wire inputs).state ≡ true
      → Unbroken inputs (run wire inputs).last_seq
  unfolding run
  live-Unbroken wire [] h = absurd (unfold new_machine is_live_state in cc)
  live-Unbroken wire (disconnection ∷ older) h = absurd (unfold on_disconnect is_live_state in cc)
  live-Unbroken wire (a_snapshot frame ts ∷ older) h =
      unfold on_snapshot in at_snapshot frame ts older
  live-Unbroken wire (an_update frame ts ∷ older) h =
      let m = run wire older in
      elim (Bool-cases (is_live_state m.state)) [
        | inr dead ↦ absurd (
            true-false (
              sym h
              ∙ ap (λ (n : ResyncStateMachine). is_live_state n.state) (ignored d m frame ts dead).0
              ∙ dead))
        | inl lives ↦
            let before = live-Unbroken wire older lives in
            elim (Bool-cases (frame.sequence == 0)) [
              | inl z ↦
                  subst (Unbroken (an_update frame ts ∷ older))
                    (sym (
                      ap (λ (o : Outcome d). o.machine.last_seq) (plain d m frame ts lives z)
                      ∙ (apply_update-Applied d m frame ts).last_eq))
                    (unnumbered frame ts older m.last_seq before (zero_of frame.sequence z))
              | inr nz ↦ elim (Bool-cases (breaks m.last_seq frame.sequence)) [
                | inl gap ↦ absurd (
                    true-false
                      (sym h ∙ ap is_live_state (broken d m frame ts lives nz gap).0 ∙ gapped_dead))
                | inr whole ↦
                    let (last, there, counts) = next_of m.last_seq frame.sequence whole in
                    subst (Unbroken (an_update frame ts ∷ older))
                      (sym (
                        ap (λ (o : Outcome d). o.machine.last_seq)
                          (next_one d m frame ts lives nz whole)
                        ∙ (apply_update-Applied d (record m { last_seq = some frame.sequence })
                            frame ts).last_eq))
                      (numbered frame ts older last (subst (Unbroken older) there before)
                        (nonzero_of frame.sequence nz) counts)
              ]
            ]
      ]

  Unbroken-live :
      (wire : Bytes) (inputs : List Input) (last : Option ℕ)
      → Unbroken inputs last
      → (is_live_state (run wire inputs).state ≡ true) × ((run wire inputs).last_seq ≡ last)
  unfolding run
  Unbroken-live wire _ _ (at_snapshot frame ts older) =
      unfold on_snapshot is_live_state in (refl, refl)
  Unbroken-live wire _ _ (unnumbered frame ts older last u z) =
      let m = run wire older in
      let (lives, same) = Unbroken-live wire older last u in
      let e = plain d m frame ts lives (of_zero frame.sequence z) in
      let a = apply_update-Applied d m frame ts in
      (
        ap (λ (o : Outcome d). is_live_state o.machine.state) e
            ∙ ap is_live_state a.state_eq
            ∙ lives,
        ap (λ (o : Outcome d). o.machine.last_seq) e ∙ a.last_eq ∙ same,
      )
  Unbroken-live wire _ _ (numbered frame ts older last u ne counts) =
      let m = run wire older in
      let (lives, same) = Unbroken-live wire older (some last) u in
      let e =
        next_one d m frame ts lives (of_nonzero frame.sequence ne)
          (ap (λ o. breaks o frame.sequence) same ∙ no_break last frame.sequence counts) in
      let a = apply_update-Applied d (record m { last_seq = some frame.sequence }) frame ts in
      (
        ap (λ (o : Outcome d). is_live_state o.machine.state) e
            ∙ ap is_live_state a.state_eq
            ∙ lives,
        ap (λ (o : Outcome d). o.machine.last_seq) e ∙ a.last_eq,
      )

  -- However disconnections, snapshots and updates follow one another: the machine is live exactly if there
  -- was a snapshot, only updates came since the last one, and those with a number other than 0 count on
  -- from the snapshot's number, which is not 0 then, each one above the one before, modulo 2 ^ 64. The
  -- orders on the book are always those that the events since the last snapshot leave in an empty book.
  pub run_lem :
      (wire : Bytes) (inputs : List Input)
      → (((run wire inputs).state ≡ live) ↔ ((last : Option ℕ) × Unbroken inputs last))
        × ((run wire inputs).on_book ≡ replayed [] (events_since wire inputs))
  run_lem wire inputs = (
    (
      λ e. ((run wire inputs).last_seq, live-Unbroken wire inputs (is_live_state_of _ e)),
      λ (last, u). live_of _ (Unbroken-live wire inputs last u).0,
    ),
    run-replayed wire inputs,
  )
