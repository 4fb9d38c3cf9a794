-- ===== src/Phase3/Engine/Books.antt =====
-- src/phase3/order_book_engine.cpp, `on_event` and `book_for`: which book an event changes, and that
-- every book stays sorted.
use hft_feed_handler.Common.{
  &&-true, ℕ, true, false, Option, none, some, List, ◌≡◌, refl, inl, inr, sym, ap, ◌∙◌, subst, ◌&&◌,
  not, ◌==◌, Bool-cases, ==_iff, arith, find, find-assign,
}
use mathlib.Core.Option.{some-injective}
use hft_feed_handler.Core.Types.{
  Venue, Side, buy, sell, EventType, add, add_mpid, execute, execute_price, cancel, delete, replace,
  trade, cross_trade, imbalance, system, stock_directory, BookEvent,
}
use hft_feed_handler.Core.VenueArray.{at, put, at-put_self, at-put_ne, Venue-discrete}
use hft_feed_handler.Phase3.Levels.Position.{Sorted}
use hft_feed_handler.Phase3.Levels.Laws.{add_qty_lem, reduce_qty_lem}
use hft_feed_handler.Phase3.Engine.{
  OrderBookEngine, VenueBook, Applied, book_for, book_or_default, entry, is_null, apply, apply_add,
  apply_reduction, apply_removal, apply_replace, add_side, reduce_side, register,
}

unfoldable pub IsSorted : VenueBook → Type 0
IsSorted b = Sorted true b.bids × Sorted false b.asks

abbrev pub book_of : OrderBookEngine → Venue → ℕ → VenueBook
book_of e venue symbol = book_or_default (find (at e.books venue) symbol)

-- Every book is sorted, and a valid cache entry points to the node of the symbol that it names.
unfoldable pub IsWellFormed : OrderBookEngine → Type 0
IsWellFormed e =
    ((v : Venue) (k : ℕ) → IsSorted (book_of e v k))
    × ((v : Venue) (k : ℕ)
        → at e.cached_valid v ≡ true
        → at e.cached_books v ≡ some k
        → at e.cached_symbols v ≡ k)

add_side-IsSorted :
    (b : VenueBook) (side : Side) (price qty : ℕ)
    → IsSorted b
    → IsSorted (add_side b side price qty)
unfolding IsSorted add_side
add_side-IsSorted b buy price qty (bids, asks) = ((add_qty_lem true price qty b.bids bids).0, asks)
add_side-IsSorted b sell price qty (bids, asks) =
    (bids, (add_qty_lem false price qty b.asks asks).0)
add_side-IsSorted b Side.unknown price qty h = h

reduce_side-IsSorted :
    (b : VenueBook) (side : Side) (price qty : ℕ)
    → IsSorted b
    → IsSorted (reduce_side b side price qty)
unfolding IsSorted reduce_side
reduce_side-IsSorted b buy price qty (bids, asks) =
    ((reduce_qty_lem true price qty b.bids bids).0, asks)
reduce_side-IsSorted b sell price qty (bids, asks) =
    (bids, (reduce_qty_lem false price qty b.asks asks).0)
reduce_side-IsSorted b Side.unknown price qty h = h

register_book : (s : Applied) (ev : BookEvent) (q : ℕ) → (register s ev q).book ≡ s.book
unfolding register
register_book s ev q = elim (Bool-cases (ev.order_id == 0)) [
  | inl e ↦ rw e refl
  | inr e ↦ rw e refl
]

apply_add-IsSorted :
    (s : Applied) (ev : BookEvent) → IsSorted s.book → IsSorted (apply_add s ev).book
unfolding apply_add
apply_add-IsSorted s ev h =
    subst IsSorted (sym (register_book _ ev _)) (add_side-IsSorted s.book ev.side ev.price ev.qty h)

apply_reduction-IsSorted :
    (s : Applied) (ev : BookEvent) (o : Option ℕ)
    → IsSorted s.book
    → IsSorted (apply_reduction s ev o).book
unfolding apply_reduction
apply_reduction-IsSorted s ev none h = h
apply_reduction-IsSorted s ev (some idx) h = reduce_side-IsSorted s.book _ _ _ h

apply_removal-IsSorted :
    (s : Applied) (key : ℕ) (o : Option ℕ) → IsSorted s.book → IsSorted (apply_removal s key o).book
unfolding apply_removal
apply_removal-IsSorted s key none h = h
apply_removal-IsSorted s key (some idx) h = reduce_side-IsSorted s.book _ _ _ h

pub apply-IsSorted :
    (t : EventType) (s : Applied) (ev : BookEvent) → IsSorted s.book → IsSorted (apply t s ev).book
unfolding apply apply_replace
apply-IsSorted add s ev h = apply_add-IsSorted s ev h
apply-IsSorted add_mpid s ev h = apply_add-IsSorted s ev h
apply-IsSorted execute s ev h = apply_reduction-IsSorted s ev _ h
apply-IsSorted execute_price s ev h = apply_reduction-IsSorted s ev _ h
apply-IsSorted cancel s ev h = apply_reduction-IsSorted s ev _ h
apply-IsSorted delete s ev h = apply_reduction-IsSorted s ev _ h
apply-IsSorted replace s ev h =
    subst IsSorted (sym (register_book _ ev 0))
      (add_side-IsSorted _ ev.side ev.price ev.qty (apply_removal-IsSorted s _ _ h))
apply-IsSorted trade s ev h = h
apply-IsSorted cross_trade s ev h = h
apply-IsSorted imbalance s ev h = h
apply-IsSorted system s ev h = h
apply-IsSorted stock_directory s ev h = h
apply-IsSorted EventType.unknown s ev h = h

-- What `book_for` leaves: a pointer to the symbol's book, and the same books.
unfoldable pub Locates : OrderBookEngine → Venue → ℕ → OrderBookEngine → Type 0
Locates e venue symbol e' =
    (at e'.cached_books venue ≡ some symbol)
    × ((w : Venue) (k : ℕ) → book_of e' w k ≡ book_of e w k)
    × ((w : Venue) (k : ℕ)
        → at e'.cached_valid w ≡ true
        → at e'.cached_books w ≡ some k
        → at e'.cached_symbols w ≡ k)
    × (e'.orders ≡ e.orders)

find-entry :
    (m : List (ℕ × VenueBook)) (symbol k : ℕ)
    → book_or_default (find (entry m symbol) k) ≡ book_or_default (find m k)
find-entry m symbol k =
    ap book_or_default (find-assign m symbol k (book_or_default (find m symbol)))
    ∙ elim (Bool-cases (symbol == k)) [
      | inl same ↦ rw same (ap (λ j. book_or_default (find m j)) ((==_iff symbol k).0 same))
      | inr other ↦ rw other refl
    ]

pointer_of : (o : Option ℕ) → not (is_null o) ≡ true → (k : ℕ) × (o ≡ some k)
pointer_of none h = absurd (ground arith)
pointer_of (some k) h = (k, refl)

pub book_for_lem :
    (e : OrderBookEngine) (venue : Venue) (symbol : ℕ)
    → IsWellFormed e
    → Locates e venue symbol (book_for e venue symbol)
unfolding IsWellFormed Locates book_for
book_for_lem e venue symbol (sorted, points) =
    elim (Bool-cases (
      at e.cached_valid venue
      && at e.cached_symbols venue == symbol
      && not (is_null (at e.cached_books venue)))) [
        | inl hit ↦
            let (front, there) =
              &&-true (at e.cached_valid venue && at e.cached_symbols venue == symbol) _ hit in
            let (valid, same) = &&-true (at e.cached_valid venue) _ front in
            let (k, ptr) = pointer_of (at e.cached_books venue) there in
            rw hit (
              ptr
                  ∙ ap some (
                      sym (points venue k valid ptr)
                      ∙ (==_iff (at e.cached_symbols venue) symbol).0 same),
              (λ w j. refl),
              points,
              refl,
            )
        | inr miss ↦ rw miss (at-put_self e.cached_books venue (some symbol), kept, named, refl)
      ]
  where
    kept :
        (w : Venue) (k : ℕ)
        → book_or_default (find (at (put e.books venue (entry (at e.books venue) symbol)) w) k)
          ≡ book_of e w k
    kept w k = elim (Venue-discrete venue w) [
      | yes s ↦
          subst
            (λ u.
              book_or_default (find (at (put e.books venue (entry (at e.books venue) symbol)) u) k)
              ≡ book_of e u k)
            s
            (ap (λ m. book_or_default (find m k)) (at-put_self e.books venue _)
              ∙ find-entry (at e.books venue) symbol k)
      | no ne ↦ ap (λ m. book_or_default (find m k)) (at-put_ne e.books venue w _ ne)
    ]

    named :
        (w : Venue) (k : ℕ)
        → at (put e.cached_valid venue true) w ≡ true
        → at (put e.cached_books venue (some symbol)) w ≡ some k
        → at (put e.cached_symbols venue symbol) w ≡ k
    named w k = elim (Venue-discrete venue w) [
      | yes s ↦
          subst
            (λ u.
              at (put e.cached_valid venue true) u ≡ true
              → at (put e.cached_books venue (some symbol)) u ≡ some k
              → at (put e.cached_symbols venue symbol) u ≡ k)
            s
            (λ v p.
              at-put_self e.cached_symbols venue symbol
              ∙ some-injective _ _ (sym (at-put_self e.cached_books venue (some symbol)) ∙ p))
      | no ne ↦
          rw
            (
              at-put_ne e.cached_valid venue w true ne,
              at-put_ne e.cached_books venue w (some symbol) ne,
              at-put_ne e.cached_symbols venue w symbol ne,
            )
            (points w k)
    ]
