-- ===== src/Journal/RoundTrip.antt =====
-- src/journal: what a writer appends to a journal, a reader gives back.
use hft_feed_handler.Common.{ℕ, ◌^◌, ◌<◌, List, [], ◌∷◌}
use hft_feed_handler.Proto.Bytes.{Bytes}

abbrev pub TimesFit : {E : Type 0} → List (E × ℕ) → Type 0
TimesFit [] = Unit {0}
TimesFit ((ev, ts) ∷ evs) = (ts < 2 ^ 64) × TimesFit evs
