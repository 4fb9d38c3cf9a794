-- ===== src/Live/Lowering/Follows.antt =====
-- src/live/bitfinex/lowering.cpp: the events are the changes of the orders on the book.
use hft_feed_handler.Common.{
  ℕ, ◌≡◌, ◌≢◌, refl, sym, ap, ◌∙◌, inl, inr, true, false, Bool-cases, Option, none, some,
  Option-cases, List, [], ◌∷◌, ◌++◌, ◌==◌, if◌then◌else◌, find, assign, erase, find-assign,
  find-erase,
}
use hft_feed_handler.Core.Types.{BookEvent, add, cancel, replace}
use hft_feed_handler.Proto.Bytes.{Bytes}
use hft_feed_handler.Live.Lowering.{
  Doubles, OnBookTracker, RestingOrder, resting, contains, LoweringStats, BookRow, Lowered,
  converted, lower_live, lower_row, lower_snapshot_row, lower_snapshot_rows, event_list,
}

abbrev Sets : OnBookTracker → ℕ → Option RestingOrder → OnBookTracker → Type 0
Sets m order_id o m' = (j : ℕ) → find m' j ≡ (if order_id == j then o else find m j)

-- An event says how a book of orders changes.
pub data Follows (m : OnBookTracker) (ev : BookEvent) (m' : OnBookTracker) : Type 0 where
  adds :
      ev.type ≡ add
      → find m ev.order_id ≡ none
      → Sets m ev.order_id (some (resting ev.price ev.qty)) m'
      → Follows m ev m'
  replaces :
      ev.type ≡ replace
      → ev.reference_order_id ≡ ev.order_id
      → find m ev.order_id ≡ some (resting ev.prev_price ev.prev_qty)
      → Sets m ev.order_id (some (resting ev.price ev.qty)) m'
      → Follows m ev m'
  cancels :
      ev.type ≡ cancel → find m ev.order_id ≢ none → Sets m ev.order_id none m' → Follows m ev m'

-- Without an event the book stays.
abbrev pub Tells : OnBookTracker → Option BookEvent → OnBookTracker → Type 0
Tells m none m' = m' ≡ m
Tells m (some ev) m' = Follows m ev m'

-- The book that a reader of the events keeps.
unfoldable pub applied : OnBookTracker → BookEvent → OnBookTracker
applied m ev = elim ev.type [
  | add ↦ assign m ev.order_id (resting ev.price ev.qty)
  | replace ↦ assign m ev.order_id (resting ev.price ev.qty)
  | cancel ↦ erase m ev.order_id
  | _ ↦ m
]

unfoldable pub replayed : OnBookTracker → List BookEvent → OnBookTracker
unfolding applied
replayed m [] = m
replayed m (ev ∷ evs) = replayed (applied m ev) evs

pub replayed-append :
    (m : OnBookTracker) (evs fs : List BookEvent)
    → replayed m (evs ++ fs) ≡ replayed (replayed m evs) fs
unfolding replayed
replayed-append m [] fs = refl
replayed-append m (ev ∷ evs) fs = replayed-append (applied m ev) evs fs

some-none : (m : OnBookTracker) (k : ℕ) (o : RestingOrder) → find m k ≡ some o → find m k ≢ none
some-none m k o e h = cc

contains-none : (m : OnBookTracker) (k : ℕ) → find m k ≡ none → contains m k ≡ false
unfolding contains
contains-none m k e = rw (e, contains) refl

contains-some :
    (m : OnBookTracker) (k : ℕ) (o : RestingOrder) → find m k ≡ some o → contains m k ≡ true
unfolding contains
contains-some m k o e = rw (e, contains) refl

module _ (d : Doubles) where
  -- What is proved of each branch of `lower_row`.
  abbrev pub IsTold : OnBookTracker → Lowered → Type 0
  IsTold m r = Tells m r.event r.on_book × (r.on_book ≡ replayed m (event_list r.event))

  lower_live-IsTold :
      (row : BookRow d) (price qty sequence ts_ns : ℕ) (wire : Bytes) (m : OnBookTracker)
      (stats : LoweringStats)
      → IsTold m (lower_live d row price qty sequence ts_ns wire m stats)
  unfolding lower_live replayed
  lower_live-IsTold row price qty sequence ts_ns wire m stats =
      elim (Option-cases (find m row.order_id)) [
        | inl e ↦
            rw (e, lower_live)
              (adds refl e (λ j. find-assign m row.order_id j (resting price qty)), refl)
        | inr (prev, e) ↦
            rw (e, lower_live)
              (replaces refl refl e (λ j. find-assign m row.order_id j (resting price qty)), refl)
      ]

  pub lower_row-IsTold :
      (row : BookRow d) (sequence ts_ns : ℕ) (wire : Bytes) (m : OnBookTracker)
      (stats : LoweringStats)
      → IsTold m (lower_row d row sequence ts_ns wire m stats)
  unfolding lower_row replayed
  lower_row-IsTold row sequence ts_ns wire m stats = elim (Bool-cases (d.is_zero row.price)) [
    | inl gone ↦ elim (Option-cases (find m row.order_id)) [
      | inl e ↦ rw (gone, contains-none m row.order_id e) (refl, refl)
      | inr (prev, e) ↦
          rw (gone, contains-some m row.order_id prev e)
            (
              cancels refl (some-none m row.order_id prev e) (λ j. find-erase m row.order_id j),
              refl,
            )
    ]
    | inr price ↦ elim (Option-cases (converted d row stats.fixed_point).0) [
      | inl e ↦ rw (price, e) (refl, refl)
      | inr ((p, q), e) ↦ rw (price, e) (lower_live-IsTold row p q sequence ts_ns wire m _)
    ]
  ]

  lower_snapshot_row-replayed :
      (row : BookRow d) (ts_ns : ℕ) (wire : Bytes) (m : OnBookTracker) (stats : LoweringStats)
      → (lower_snapshot_row d row ts_ns wire m stats).on_book
        ≡ replayed m (event_list (lower_snapshot_row d row ts_ns wire m stats).event)
  unfolding lower_snapshot_row replayed
  lower_snapshot_row-replayed row ts_ns wire m stats = elim (Bool-cases (d.is_zero row.price)) [
    | inl gone ↦ rw gone refl
    | inr price ↦ elim (Option-cases (converted d row stats.fixed_point).0) [
      | inl e ↦ rw (price, e) refl
      | inr ((p, q), e) ↦ rw (price, e) refl
    ]
  ]

  -- The book that `lower_snapshot_rows` leaves is that of its events.
  pub lower_snapshot_rows-replayed :
      (rows : List (BookRow d)) (ts_ns : ℕ) (wire : Bytes) (m : OnBookTracker)
      (stats : LoweringStats)
      → (lower_snapshot_rows d rows ts_ns wire m stats).on_book
        ≡ replayed m (lower_snapshot_rows d rows ts_ns wire m stats).events
  unfolding lower_snapshot_rows
  lower_snapshot_rows-replayed [] ts_ns wire m stats = unfold replayed in refl
  lower_snapshot_rows-replayed (row ∷ rows) ts_ns wire m stats =
      let r = lower_snapshot_row d row ts_ns wire m stats in
      let rest = lower_snapshot_rows d rows ts_ns wire r.on_book r.stats in
      lower_snapshot_rows-replayed rows ts_ns wire r.on_book r.stats
      ∙ ap (λ b. replayed b rest.events) (lower_snapshot_row-replayed row ts_ns wire m stats)
      ∙ sym (replayed-append m (event_list r.event) rest.events)

  -- An event of `lower_row` is the change of the orders on the book that it comes with, and without one
  -- the book stays: an addition is of an order that was not there, a replacement of one that was there
  -- with the previous price and quantity that it names, and sets the new ones, a cancellation of one that
  -- was there and is not any more; no other order changes.
  pub lower_row-Tells :
      (row : BookRow d) (sequence ts_ns : ℕ) (wire : Bytes) (m : OnBookTracker)
      (stats : LoweringStats)
      → Tells m
          (lower_row d row sequence ts_ns wire m stats).event
          (lower_row d row sequence ts_ns wire m stats).on_book
  lower_row-Tells row sequence ts_ns wire m stats =
      (lower_row-IsTold row sequence ts_ns wire m stats).0
