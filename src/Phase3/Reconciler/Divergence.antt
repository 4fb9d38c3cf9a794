-- ===== src/Phase3/Reconciler/Divergence.antt =====
-- src/phase3/book_snapshot.cpp: what a check of the books counts.
use hft_feed_handler.Common.{
  ℕ, suc, ◌+◌, ◌%◌, ◌<◌, ◌≡◌, ◌≢◌, ◌⊎◌, refl, ap, ap₂, sym, subst, true, false, not, inl, inr, ◌&&◌,
  List, [], ◌∷◌, ◌++◌, ◌==◌, if◌then◌else◌, Bool-cases, length, u64_mod, arith, ==_iff,
}
use hft_feed_handler.Core.Types.{Venue, BookEvent, as_u64}
use hft_feed_handler.Phase2.Tracker.{inc64}
use hft_feed_handler.Phase3.Engine
use hft_feed_handler.Phase3.Engine.{OrderBookEngine, new_engine}
use hft_feed_handler.Phase3.Reconciler.{
  BookLevel, BookSnapshot, BookReconcileStats, BookReconciler, book_snapshot, levels_equal,
  byte_equal, replay_events, compare_books, check_snapshot, on_event, touch,
}
use hft_feed_handler.Phase3.Reconciler.Touched.{
  Rebuilt, at_first, replay_events-Rebuilt, Distinct, Adds, touch-Adds,
}

level_eq : (x y : BookLevel) → (x.price == y.price && x.qty == y.qty) ≡ true → x ≡ y
level_eq x y h =
    ap₂ (λ (p q : ℕ). record { price = p; qty = q }) ((==_iff x.price y.price).0 (ground arith))
      ((==_iff x.qty y.qty).0 (ground arith))

levels_equal-true :
    (xs ys : List BookLevel) → length xs ≡ length ys → levels_equal xs ys ≡ true → xs ≡ ys
levels_equal-true [] [] same e = refl
levels_equal-true [] (y ∷ ys) same e = absurd (omega (arith, same))
levels_equal-true (x ∷ xs) [] same e = absurd (omega (arith, same))
levels_equal-true (x ∷ xs) (y ∷ ys) same e =
    ap₂ ◌∷◌ (level_eq x y (ground arith))
      (levels_equal-true xs ys (omega (arith, same)) (ground arith))

levels_equal_refl : (xs : List BookLevel) → levels_equal xs xs ≡ true
levels_equal_refl [] = refl
levels_equal_refl (x ∷ xs) = ground (arith, levels_equal_refl xs)

byte_equal_refl : (a : BookSnapshot) → byte_equal a a ≡ true
unfolding byte_equal
byte_equal_refl a = ground (arith, levels_equal_refl a.bids, levels_equal_refl a.asks)

-- The snapshots are the same if `byte_equal` says so.
byte_equal-true : (a b : BookSnapshot) → byte_equal a b ≡ true → a ≡ b
unfolding byte_equal
byte_equal-true a b e =
    ap₂ (λ (xs ys : List BookLevel). record { bids = xs; asks = ys })
      (levels_equal-true a.bids b.bids ((==_iff _ _).0 (ground arith)) (ground arith))
      (levels_equal-true a.asks b.asks ((==_iff _ _).0 (ground arith)) (ground arith))

byte_equal-false : (a b : BookSnapshot) → byte_equal a b ≡ false → a ≢ b
byte_equal-false a b e same = ground (arith, byte_equal_refl a, e, ap (λ c. byte_equal a c) same)

-- Of so many places, the books of two engines differ in a price or a quantity, in the number of levels or
-- in their order.
pub data Differ (live rebuilt : OrderBookEngine) : List (Venue × ℕ) → ℕ → Type 0 where
  no_place : Differ live rebuilt [] 0
  same_book :
      (v : Venue) (k : ℕ) {ts : List (Venue × ℕ)} {n : ℕ}
      → book_snapshot live v k ≡ book_snapshot rebuilt v k
      → Differ live rebuilt ts n
      → Differ live rebuilt ((v, k) ∷ ts) n
  other_book :
      (v : Venue) (k : ℕ) {ts : List (Venue × ℕ)} {n : ℕ}
      → book_snapshot live v k ≢ book_snapshot rebuilt v k
      → Differ live rebuilt ts n
      → Differ live rebuilt ((v, k) ∷ ts) (suc n)

-- A check has compared each place once, and counted a divergence for each book that differs.
abbrev pub Checked :
    OrderBookEngine
    → OrderBookEngine
    → List (Venue × ℕ)
    → BookReconcileStats
    → BookReconcileStats
    → Type 0
Checked live rebuilt ts before after =
    (n : ℕ) × Differ live rebuilt ts n
    × (after.divergences ≡ (before.divergences + n) % u64_mod)
    × (after.snapshots_checked ≡ (before.snapshots_checked + length ts) % u64_mod)

compare_books-Checked :
    (live rebuilt : OrderBookEngine) (ts : List (Venue × ℕ)) (stats : BookReconcileStats)
    → stats.divergences < u64_mod
    → stats.snapshots_checked < u64_mod
    → Checked live rebuilt ts stats (compare_books live rebuilt ts stats)
unfolding compare_books
compare_books-Checked live rebuilt [] stats d c = (0, no_place, omega arith, omega arith)
compare_books-Checked live rebuilt ((v, k) ∷ ts) stats d c =
    let checked = record stats { snapshots_checked = inc64 stats.snapshots_checked } in
    let diverged = record checked { divergences = inc64 checked.divergences } in
    elim (Bool-cases (byte_equal (book_snapshot live v k) (book_snapshot rebuilt v k))) [
      | inl e ↦
          let (n, differ, divergences, count) =
            compare_books-Checked live rebuilt ts checked d (omega arith) in
          subst
            (λ same.
              Checked live rebuilt ((v, k) ∷ ts) stats
                (compare_books live rebuilt ts (if not same then diverged else checked)))
            (sym e)
            (n, same_book v k (byte_equal-true _ _ e) differ, divergences, omega (arith, count))
      | inr e ↦
          let (n, differ, divergences, count) =
            compare_books-Checked live rebuilt ts diverged (omega arith) (omega arith) in
          subst
            (λ same.
              Checked live rebuilt ((v, k) ∷ ts) stats
                (compare_books live rebuilt ts (if not same then diverged else checked)))
            (sym e)
            (
              suc n,
              other_book v k (byte_equal-false _ _ e) differ,
              omega (arith, divergences),
              omega (arith, count),
            )
    ]

-- What an event does to the touched places and the counts, whatever the live engine of the reconciler is.
-- The places are those before and the event's own, each once. Either the event is due for a check, and at
-- each of these places the book of the live engine after the event is compared with that of an engine that
-- started empty and has applied all events consumed, the last one too: the divergences grow by the number
-- of the books that differ, and the checked snapshots by that of the places, both modulo 2^64. Or it is not
-- due, and neither count changes.
pub on_event-Checked :
    (slots : ℕ) (r : BookReconciler) (ev : BookEvent)
    → Distinct r.touched
    → r.stats.divergences < u64_mod
    → r.stats.snapshots_checked < u64_mod
    → Adds r.touched ev.venue (as_u64 ev.symbol) (on_event slots r ev).touched
      × (((inc64 r.stats.events_processed % r.snapshot_interval ≡ 0)
            × (rebuilt : OrderBookEngine) × Rebuilt slots (r.consumed ++ ev ∷ []) rebuilt
            × Checked
                (Engine.on_event r.live ev).0
                rebuilt
                (on_event slots r ev).touched
                r.stats
                (on_event slots r ev).stats)
          ⊎ ((inc64 r.stats.events_processed % r.snapshot_interval ≢ 0)
              × ((on_event slots r ev).stats.divergences ≡ r.stats.divergences)
              × ((on_event slots r ev).stats.snapshots_checked ≡ r.stats.snapshots_checked)))
unfolding on_event check_snapshot
on_event-Checked slots r ev apart d c =
    elim (Bool-cases (inc64 r.stats.events_processed % r.snapshot_interval == 0)) [
      | inl due ↦ (
        rw due adds,
        inl (
          (==_iff _ _).0 due,
          replay_events (new_engine slots) (r.consumed ++ ev ∷ []),
          replay_events-Rebuilt slots [] (r.consumed ++ ev ∷ []) (new_engine slots) at_first,
          rw due (
              compare_books-Checked (Engine.on_event r.live ev).0
                (replay_events (new_engine slots) (r.consumed ++ ev ∷ []))
                (touch r.touched ev.venue (as_u64 ev.symbol))
                (record r.stats { events_processed = inc64 r.stats.events_processed }) d c),
        ),
      )
      | inr wait ↦ (
        rw wait adds,
        inr ((λ e. ground (arith, (==_iff _ _).1 e, wait)), rw wait refl, rw wait refl),
      )
    ]
  where
    adds : Adds r.touched ev.venue (as_u64 ev.symbol) (touch r.touched ev.venue (as_u64 ev.symbol))
    adds = touch-Adds r.touched ev.venue (as_u64 ev.symbol) apart
