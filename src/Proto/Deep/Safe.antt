-- ===== src/Proto/Deep/Safe.antt =====
-- src/proto/iex/deep_parser.cpp: no parse reads outside its payload.
use hft_feed_handler.Common.{
  ℕ, ◌+◌, ◌≡◌, refl, inl, inr, not, false, some, none, Option, ◌==◌, length, Bool-cases, arith,
  HasResult, ◌≤◌,
}
use hft_feed_handler.Core.Types.{BookEvent}
use hft_feed_handler.Proto.Bytes.{Bytes, read_within}
use hft_feed_handler.Proto.Deep.{ParseStats, exact, switch, parse_message}

exact-HasResult :
    (payload : Bytes) (stats : ParseStats) (n : ℕ) (fill : Bytes → BookEvent)
    → HasResult (exact payload stats n fill)
unfolding exact
exact-HasResult payload stats n fill = elim (Bool-cases (not (length payload == n))) [
  | inl other ↦ rw other (_, refl)
  | inr same ↦ rw (same, read_within payload 0 n (fits same)) (_, refl)
]
  where
    fits : not (length payload == n) ≡ false → 0 + n ≤ length payload
    fits same = ground arith

switch-HasResult :
    (payload : Bytes) (stats : ParseStats) (ev : BookEvent)
    (o : Option (ℕ × (BookEvent → Bytes → BookEvent)))
    → HasResult (switch payload stats ev o)
unfolding switch
switch-HasResult payload stats ev none = (_, refl)
switch-HasResult payload stats ev (some (n, fill)) = exact-HasResult payload stats n (fill ev)

-- `parse_message` reads nothing outside its payload, whatever its bytes, and comes to a result.
pub parse_message-HasResult_deep :
    (payload : Bytes) (sequence ingest_ts_ns : ℕ) (stats : ParseStats)
    → HasResult (parse_message payload sequence ingest_ts_ns stats)
unfolding parse_message
parse_message-HasResult_deep payload sequence ingest_ts_ns stats =
    elim (Bool-cases (length payload == 0)) [
      | inl short ↦ rw short (_, refl)
      | inr long ↦
          rw (long, read_within payload 0 1 (ground arith)) (switch-HasResult payload _ _ _)
    ]
