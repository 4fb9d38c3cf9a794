-- ===== src/Feed/Reductions.antt =====
-- src/proto/nasdaq/itch50_parser.cpp and src/phase3/order_book_engine.cpp: which book the messages change
-- that execute, cancel, delete or replace an order.
use hft_feed_handler.Common.{
  ℕ, ◌+◌, ◌≡◌, ◌≢◌, refl, sym, ◌∙◌, subst, inl, inr, ◌⊎◌, Bool-cases, Option-cases, false, none,
  some, ◌∷◌, ltb, length, arith,
}
use hft_feed_handler.Core.Types.{
  BookEvent, Venue, nasdaq, iex, cboe, cme, bitfinex, venue_to_u8, as_u64,
}
use hft_feed_handler.Proto.Bytes.{Bytes, read}
use hft_feed_handler.Proto.Itch.{
  ParseStats, Parsed, parse_message, sized, switch, case_for, start_event, on_executed,
  on_executed_price, on_cancel, on_delete, on_replace,
}
use hft_feed_handler.Phase3.Engine.{OrderBookEngine, on_event}
use hft_feed_handler.Phase3.Engine.Books.{IsWellFormed, book_of}
use hft_feed_handler.Phase3.Engine.Event.{is_at, on_event_lem}

-- A message that takes from an order: an execution, one with a price, a cancellation, a deletion or a
-- replacement.
abbrev pub Reduces : ℕ → Type 0
Reduces type = (type ≡ b'E') ⊎ ((type ≡ b'C') ⊎ ((type ≡ b'X') ⊎ ((type ≡ b'D') ⊎ (type ≡ b'U'))))

-- An event of no symbol.
abbrev IsBlank : BookEvent → Type 0
IsBlank ev = (ev.venue ≡ nasdaq) × (as_u64 ev.symbol ≡ 0)

-- A parse whose event, if there is one, is blank.
abbrev MakesBlank : Parsed → Type 0
MakesBlank none = Unit {0}
MakesBlank (some (s, none)) = Unit {0}
MakesBlank (some (s, some ev)) = IsBlank ev

sized-MakesBlank :
    (payload : Bytes) (stats : ParseStats) (n : ℕ) (fill : Bytes → BookEvent)
    → ((bytes : Bytes) → IsBlank (fill bytes))
    → MakesBlank (sized payload stats n fill)
unfolding sized
sized-MakesBlank payload stats n fill blank = elim (Bool-cases (ltb (length payload) (n + 1))) [
  | inl short ↦ rw short tt
  | inr long ↦ elim (Option-cases (read payload 1 n)) [
    | inl e ↦ rw (long, e) tt
    | inr (m, e) ↦ rw (long, e) (blank m)
  ]
]

parse_message-MakesBlank :
    (type : ℕ) (rest : Bytes) (sequence ingest_ts_ns : ℕ) (stats : ParseStats)
    → Reduces type
    → MakesBlank (parse_message (type ∷ rest) sequence ingest_ts_ns stats)
unfolding parse_message switch case_for on_executed on_executed_price on_cancel on_delete on_replace
    as_u64
parse_message-MakesBlank type rest sequence ingest_ts_ns stats reduces = elim reduces [
  | inl e ↦ subst Goal (sym e) (
      sized-MakesBlank _ _ 30 (on_executed (start_event b'E' sequence ingest_ts_ns))
        (λ m. (refl, refl)))
  | inr (inl e) ↦ subst Goal (sym e) (
      sized-MakesBlank _ _ 35 (on_executed_price (start_event b'C' sequence ingest_ts_ns))
        (λ m. (refl, refl)))
  | inr (inr (inl e)) ↦ subst Goal (sym e) (
      sized-MakesBlank _ _ 22 (on_cancel (start_event b'X' sequence ingest_ts_ns))
        (λ m. (refl, refl)))
  | inr (inr (inr (inl e))) ↦ subst Goal (sym e) (
      sized-MakesBlank _ _ 18 (on_delete (start_event b'D' sequence ingest_ts_ns))
        (λ m. (refl, refl)))
  | inr (inr (inr (inr e))) ↦ subst Goal (sym e) (
      sized-MakesBlank _ _ 34 (on_replace (start_event b'U' sequence ingest_ts_ns))
        (λ m. (refl, refl)))
]
  where
    Goal : ℕ → Type 0
    Goal c = MakesBlank (parse_message (c ∷ rest) sequence ingest_ts_ns stats)

elsewhere :
    (ev : BookEvent) (w : Venue) (k : ℕ) → IsBlank ev → (w ≡ nasdaq → k ≢ 0) → is_at ev w k ≡ false
unfolding venue_to_u8
elsewhere ev nasdaq k (v, zero) other = ground (arith, zero, other refl)
elsewhere ev iex k (v, zero) other = rw v refl
elsewhere ev cboe k (v, zero) other = rw v refl
elsewhere ev cme k (v, zero) other = rw v refl
elsewhere ev bitfinex k (v, zero) other = rw v refl

-- On a well-formed engine, the event of a message that executes, cancels, deletes or replaces an order
-- changes no book but the one of Nasdaq's symbol 0, whichever symbol its order has.
pub on_event-parse_message :
    (type : ℕ) (rest : Bytes) (sequence ingest_ts_ns : ℕ) (stats s : ParseStats) (ev : BookEvent)
    (e : OrderBookEngine) (w : Venue) (k : ℕ)
    → Reduces type
    → parse_message (type ∷ rest) sequence ingest_ts_ns stats ≡ some (s, some ev)
    → IsWellFormed e
    → (w ≡ nasdaq → k ≢ 0)
    → book_of (on_event e ev).0 w k ≡ book_of e w k
on_event-parse_message type rest sequence ingest_ts_ns stats s ev e w k reduces parsed well other =
    (on_event_lem e ev well).1 w k ∙ rw (elsewhere ev w k blank other) refl
  where
    blank : IsBlank ev
    blank =
        subst MakesBlank parsed
          (parse_message-MakesBlank type rest sequence ingest_ts_ns stats reduces)
