-- ===== src/Phase3/Engine/Event.antt =====
-- src/phase3/order_book_engine.cpp, `on_event`: the event path as a whole, and the top that it reports.
use hft_feed_handler.Common.{
  ℕ, Bool, true, false, some, List, ◌≡◌, refl, inl, inr, sym, ap, ◌∙◌, subst, ◌&&◌, ◌==◌,
  if◌then◌else◌, Bool-cases, arith, find, find-assign,
}
use hft_feed_handler.Core.Types.{
  Venue, venue_to_u8, nasdaq, iex, cboe, cme, bitfinex, BookEvent, as_u64,
}
use hft_feed_handler.Core.VenueArray.{VenueArray, at, put, at-put_self, at-put_ne, Venue-discrete}
use hft_feed_handler.Phase3.OrderTable.{OrderTable}
use hft_feed_handler.Phase3.Engine.{
  OrderBookEngine, VenueBook, Applied, book_for, book_behind, book_or_default, on_event, apply,
  write_book, snapshot, top_of_book,
}
use hft_feed_handler.Phase3.Engine.Books.{
  IsSorted, IsWellFormed, book_of, apply-IsSorted, Locates, book_for_lem,
}

-- Whether a place is that of an event.
abbrev pub is_at : BookEvent → Venue → ℕ → Bool
is_at ev w k = venue_to_u8 ev.venue == venue_to_u8 w && as_u64 ev.symbol == k

-- What an event is applied to.
abbrev pub before_event : OrderBookEngine → BookEvent → Applied
before_event e ev = record {
  book = book_of e ev.venue (as_u64 ev.symbol);
  table = e.orders;
  queue_ahead = 0;
  saturated = false;
}

pub same_index : (v w : Venue) → v ≡ w → (venue_to_u8 v == venue_to_u8 w) ≡ true
same_index v w e = subst (λ u. (venue_to_u8 v == venue_to_u8 u) ≡ true) e (ground arith)

pub other_index : (v w : Venue) → ¬ (v ≡ w) → (venue_to_u8 v == venue_to_u8 w) ≡ false
unfolding venue_to_u8
other_index nasdaq nasdaq h = absurd (h refl)
other_index iex iex h = absurd (h refl)
other_index cboe cboe h = absurd (h refl)
other_index cme cme h = absurd (h refl)
other_index bitfinex bitfinex h = absurd (h refl)
other_index nasdaq w h = refl
other_index iex w h = refl
other_index cboe w h = refl
other_index cme w h = refl
other_index bitfinex w h = refl

-- Writing a book where the event's pointer leads.
written :
    (books : VenueArray (List (ℕ × VenueBook))) (ev : BookEvent) (b : VenueBook) (w : Venue) (k : ℕ)
    → book_or_default (
        find
          (at (put books ev.venue (write_book (at books ev.venue) (some (as_u64 ev.symbol)) b)) w)
          k)
      ≡ (if is_at ev w k then b else book_or_default (find (at books w) k))
written books ev b w k = elim (Venue-discrete ev.venue w) [
  | yes s ↦ rw (same_index ev.venue w s) (
      subst
        (λ u.
          book_or_default (
            find
              (at (put books ev.venue (write_book (at books ev.venue) (some (as_u64 ev.symbol)) b))
                u)
              k)
          ≡ (if as_u64 ev.symbol == k then b else book_or_default (find (at books u) k)))
        s
        (ap (λ m. book_or_default (find m k)) (at-put_self books ev.venue _)
          ∙ ap book_or_default (find-assign (at books ev.venue) (as_u64 ev.symbol) k b)
          ∙ pick))
  | no ne ↦
      rw (other_index ev.venue w ne)
        (ap (λ m. book_or_default (find m k)) (at-put_ne books ev.venue w _ ne))
]
  where
    pick :
        book_or_default (if as_u64 ev.symbol == k then some b else find (at books ev.venue) k)
        ≡ (if as_u64 ev.symbol == k then b else book_or_default (find (at books ev.venue) k))
    pick = elim (Bool-cases (as_u64 ev.symbol == k)) [ inl e ↦ rw e refl | inr e ↦ rw e refl ]

finish :
    (e e' : OrderBookEngine) (ev : BookEvent) (b : VenueBook) (table : OrderTable)
    → IsWellFormed e
    → Locates e ev.venue (as_u64 ev.symbol) e'
    → IsSorted b
    → (let e'' = record e' {
      books = put e'.books ev.venue (write_book (at e'.books ev.venue) (some (as_u64 ev.symbol)) b);
      orders = table;
    } in
        IsWellFormed e''
        × ((w : Venue) (k : ℕ) → book_of e'' w k ≡ (if is_at ev w k then b else book_of e w k)))
unfolding IsWellFormed Locates
finish e e' ev b table (sorted, points) (ptr, kept, named, same) h =
    (((λ w k. subst IsSorted (sym (books w k)) (choose w k)), named), books)
  where
    books :
        (w : Venue) (k : ℕ)
        → book_or_default (
            find
              (at
                (put e'.books ev.venue
                  (write_book (at e'.books ev.venue) (some (as_u64 ev.symbol)) b))
                w)
              k)
          ≡ (if is_at ev w k then b else book_of e w k)
    books w k = written e'.books ev b w k ∙ ap (λ c. if is_at ev w k then b else c) (kept w k)

    choose : (w : Venue) (k : ℕ) → IsSorted (if is_at ev w k then b else book_of e w k)
    choose w k = elim (Bool-cases (is_at ev w k)) [ inl t ↦ rw t h | inr f ↦ rw f (sorted w k) ]

pointer :
    (e e' : OrderBookEngine) (ev : BookEvent)
    → Locates e ev.venue (as_u64 ev.symbol) e'
    → at e'.cached_books ev.venue ≡ some (as_u64 ev.symbol)
unfolding Locates
pointer e e' ev (ptr, kept, named, same) = ptr

book_of-IsSorted :
    (e : OrderBookEngine) (v : Venue) (k : ℕ) → IsWellFormed e → IsSorted (book_of e v k)
unfolding IsWellFormed
book_of-IsSorted e v k (sorted, points) = sorted v k

-- The state that the branches start from.
started :
    (e e' : OrderBookEngine) (ev : BookEvent)
    → Locates e ev.venue (as_u64 ev.symbol) e'
    → before_event e ev ≡ record {
      book = book_behind (at e'.books ev.venue) (at e'.cached_books ev.venue);
      table = e'.orders;
      queue_ahead = 0;
      saturated = false;
    }
unfolding Locates
started e e' ev (ptr, kept, named, same) =
    rw (ptr, same)
      (ap (λ b. record { book = b; table = e.orders; queue_ahead = 0; saturated = false })
        (sym (kept ev.venue (as_u64 ev.symbol))))

-- What the rest of `on_event` gives from such a state.
Result : OrderBookEngine → OrderBookEngine → BookEvent → Applied → Type 0
Result e e' ev start =
    let s = apply ev.type start ev in
    let e'' = record e' {
      books =
          put e'.books ev.venue
            (write_book (at e'.books ev.venue) (at e'.cached_books ev.venue) s.book);
      orders = s.table;
    } in
    let ideal = apply ev.type (before_event e ev) ev in
    IsWellFormed e''
    × ((w : Venue) (k : ℕ) → book_of e'' w k ≡ (if is_at ev w k then ideal.book else book_of e w k))
    × (s.table ≡ ideal.table)
    × (snapshot s.book ≡ snapshot (book_of e'' ev.venue (as_u64 ev.symbol)))

at_itself : (ev : BookEvent) → is_at ev ev.venue (as_u64 ev.symbol) ≡ true
at_itself ev = ground arith

result_lem :
    (e e' : OrderBookEngine) (ev : BookEvent)
    → IsWellFormed e
    → Locates e ev.venue (as_u64 ev.symbol) e'
    → Result e e' ev (before_event e ev)
unfolding Result
result_lem e e' ev well located =
    let s = apply ev.type (before_event e ev) ev in
    let sorted : IsSorted s.book =
      apply-IsSorted ev.type (before_event e ev) ev
        (book_of-IsSorted e ev.venue (as_u64 ev.symbol) well) in
    let (well', books) = finish e e' ev s.book s.table well located sorted in
    rw (pointer e e' ev located) (
      well',
      books,
      refl,
      ap snapshot (
          sym (
            books ev.venue (as_u64 ev.symbol)
            ∙ ap (λ b. if b then s.book else book_of e ev.venue (as_u64 ev.symbol))
                (at_itself ev))),
    )

-- On a well-formed engine, whatever its cache holds, an event changes the book of its venue and symbol
-- as its branch does and no other book, reports the top of that book, and leaves the engine
-- well-formed: bids falling and asks rising in every book.
pub on_event_lem :
    (e : OrderBookEngine) (ev : BookEvent)
    → IsWellFormed e
    → (let (e', out) = on_event e ev in
        IsWellFormed e'
        × ((w : Venue) (k : ℕ)
            → book_of e' w k ≡ (
                if is_at ev w k
                then (apply ev.type (before_event e ev) ev).book
                else book_of e w k))
        × (e'.orders ≡ (apply ev.type (before_event e ev) ev).table)
        × (out.top_after ≡ top_of_book e' ev.venue (as_u64 ev.symbol)))
unfolding on_event top_of_book Result
on_event_lem e ev well =
    let e' = book_for e ev.venue (as_u64 ev.symbol) in
    let located = book_for_lem e ev.venue (as_u64 ev.symbol) well in
    subst (Result e e' ev) (started e e' ev located) (result_lem e e' ev well located)
