-- ===== src/Live/Resync/Branches.antt =====
-- src/live/bitfinex/resync_state_machine.cpp: the branches of the calls, and what each leaves on the book.
use hft_feed_handler.Common.{
  ℕ, ◌≡◌, refl, sym, ap, ◌∙◌, inl, inr, true, false, Bool-cases, some, [], ◌==◌,
}
use hft_feed_handler.Live.Lowering.{Doubles}
use hft_feed_handler.Live.Lowering.Follows.{
  replayed, lower_row-IsTold, lower_snapshot_rows-replayed,
}
use hft_feed_handler.Live.Resync.{
  ResyncStateMachine, gapped, is_live_state, breaks, on_disconnect, SnapshotFrame, UpdateFrame,
  Outcome, on_snapshot, apply_update, on_update,
}

module _ (d : Doubles) where
  -- What an update that is applied leaves.
  pub record Applied (m : ResyncStateMachine) (o : Outcome d) : Type 0 where
    pub state_eq : o.machine.state ≡ m.state
    pub last_eq : o.machine.last_seq ≡ m.last_seq
    pub book_eq : o.machine.on_book ≡ replayed m.on_book o.emitted

  pub apply_update-Applied :
      (m : ResyncStateMachine) (frame : UpdateFrame d) (ts : ℕ)
      → Applied m (apply_update d m frame ts)
  unfolding apply_update
  apply_update-Applied m frame ts = record {
    state_eq = refl;
    last_eq = refl;
    book_eq =
        (lower_row-IsTold d frame.row frame.sequence ts m.symbol_wire m.on_book m.lowering_stats).1;
  }

  -- The branches of `on_update`.
  module _ (m : ResyncStateMachine) (frame : UpdateFrame d) (ts : ℕ) where
    pub ignored :
        is_live_state m.state ≡ false
        → ((on_update d m frame ts).machine ≡ m) × ((on_update d m frame ts).emitted ≡ [])
    unfolding on_update
    ignored dead = rw dead (refl, refl)

    pub plain :
        is_live_state m.state ≡ true
        → (frame.sequence == 0) ≡ true
        → on_update d m frame ts ≡ apply_update d m frame ts
    unfolding on_update
    plain lives zero_seq = rw (lives, zero_seq) refl

    pub broken :
        is_live_state m.state ≡ true
        → (frame.sequence == 0) ≡ false
        → breaks m.last_seq frame.sequence ≡ true
        → ((on_update d m frame ts).machine.state ≡ gapped)
          × ((on_update d m frame ts).machine.on_book ≡ m.on_book)
          × ((on_update d m frame ts).emitted ≡ [])
    unfolding on_update
    broken lives seq gap = rw (lives, seq, gap) (refl, refl, refl)

    pub next_one :
        is_live_state m.state ≡ true
        → (frame.sequence == 0) ≡ false
        → breaks m.last_seq frame.sequence ≡ false
        → on_update d m frame ts
          ≡ apply_update d (record m { last_seq = some frame.sequence }) frame ts
    unfolding on_update
    next_one lives seq whole = rw (lives, seq, whole) refl

    -- The book is that of the events, whatever the branch.
    pub on_update-replayed :
        (on_update d m frame ts).machine.on_book
        ≡ replayed m.on_book (on_update d m frame ts).emitted
    unfolding replayed
    on_update-replayed = elim (Bool-cases (is_live_state m.state)) [
      | inr dead ↦
          let (same, none_out) = ignored dead in
          ap (λ (n : ResyncStateMachine). n.on_book) same ∙ ap (replayed m.on_book) (sym none_out)
      | inl lives ↦ elim (Bool-cases (frame.sequence == 0)) [
        | inl z ↦
            let e = plain lives z in
            ap (λ (o : Outcome d). o.machine.on_book) e
            ∙ (apply_update-Applied m frame ts).book_eq
            ∙ ap (λ (o : Outcome d). replayed m.on_book o.emitted) (sym e)
        | inr nz ↦ elim (Bool-cases (breaks m.last_seq frame.sequence)) [
          | inl gap ↦
              let (g, same, none_out) = broken lives nz gap in
              same ∙ ap (replayed m.on_book) (sym none_out)
          | inr whole ↦
              let e = next_one lives nz whole in
              ap (λ (o : Outcome d). o.machine.on_book) e
              ∙ (apply_update-Applied (record m { last_seq = some frame.sequence }) frame
                  ts).book_eq
              ∙ ap (λ (o : Outcome d). replayed m.on_book o.emitted) (sym e)
        ]
      ]
    ]

  pub same_book : (m : ResyncStateMachine) → (on_disconnect m).on_book ≡ m.on_book
  unfolding on_disconnect
  same_book m = refl

  pub on_snapshot-replayed :
      (m : ResyncStateMachine) (frame : SnapshotFrame d) (ts : ℕ)
      → (on_snapshot d m frame ts).machine.on_book ≡ replayed [] (on_snapshot d m frame ts).emitted
  unfolding on_snapshot
  on_snapshot-replayed m frame ts =
      lower_snapshot_rows-replayed d frame.rows ts m.symbol_wire [] m.lowering_stats
