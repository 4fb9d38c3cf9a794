-- ===== src/Proto/Itch/Safe.antt =====
-- src/proto/nasdaq/itch50_parser.cpp: no parse reads outside its payload.
use hft_feed_handler.Common.{
  ℕ, ◌+◌, refl, inl, inr, [], ◌∷◌, none, some, ltb, length, Bool-cases, arith, ltb-false→le,
  HasResult, Option,
}
use hft_feed_handler.Core.Types.{BookEvent}
use hft_feed_handler.Proto.Bytes.{Bytes, read_within}
use hft_feed_handler.Proto.Itch.{
  ParseStats, counted, start_event, sized, switch, case_for, parse_message,
}

pub sized-HasResult :
    (payload : Bytes) (stats : ParseStats) (n : ℕ) (fill : Bytes → BookEvent)
    → HasResult (sized payload stats n fill)
unfolding sized
sized-HasResult payload stats n fill = elim (Bool-cases (ltb (length payload) (n + 1))) [
  | inl short ↦ rw short (_, refl)
  | inr long ↦ rw (long, read_within payload 1 n (omega (arith, ltb-false→le _ _ long))) (_, refl)
]

pub switch-HasResult :
    (payload : Bytes) (stats : ParseStats) (ev : BookEvent)
    (o : Option (ℕ × (BookEvent → Bytes → BookEvent)))
    → HasResult (switch payload stats ev o)
unfolding switch
switch-HasResult payload stats ev none = (_, refl)
switch-HasResult payload stats ev (some (n, fill)) = sized-HasResult payload stats n (fill ev)

-- `parse_message` reads nothing outside its payload, whatever its bytes, and comes to a result.
pub parse_message-HasResult :
    (payload : Bytes) (sequence ingest_ts_ns : ℕ) (stats : ParseStats)
    → HasResult (parse_message payload sequence ingest_ts_ns stats)
unfolding parse_message
parse_message-HasResult [] sequence ingest_ts_ns stats = (_, refl)
parse_message-HasResult (type ∷ rest) sequence ingest_ts_ns stats =
    switch-HasResult (type ∷ rest) (counted stats type) (start_event type sequence ingest_ts_ns)
      (case_for type)
