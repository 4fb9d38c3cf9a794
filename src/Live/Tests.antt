-- ===== src/Live/Tests.antt =====
-- src/live/bitfinex on concrete rows.
use hft_feed_handler.Common.{
  ℕ, ◌*◌, ◌^◌, ◌≡◌, ◌↔◌, true, false, Option, List, [], ◌∷◌, ◌==◌, ltb, leb,
}
use hft_feed_handler.Proto.Bytes.{Bytes}
use hft_feed_handler.Live.Lowering.{
  Doubles, OnBookTracker, resting, BookRow, no_lowering_stats, lower_row,
}
use hft_feed_handler.Live.Lowering.Follows.{Tells, lower_row-Tells, replayed}
use hft_feed_handler.Live.Resync.{live}
use hft_feed_handler.Live.Resync.Unbroken.{
  Input, a_snapshot, an_update, run, events_since, Unbroken, run_lem,
}

-- Numbers that are whole and not negative.
abbrev whole_numbers : Doubles
whole_numbers = record {
  Double = ℕ;
  is_zero = λ x. x == 0;
  is_positive = λ x. ltb 0 x;
  is_negative = λ x. false;
  is_finite = λ x. true;
  round = λ x. x;
  exceeds_u32 = λ x. leb (2 ^ 32) x;
  to_u32 = λ x. x;
  abs = λ x. x;
  times_10000 = λ x. x * 10000;
  times_1000000 = λ x. x * 1000000;
}

abbrev wire : Bytes
wire = b't' ∷ b'B' ∷ b'T' ∷ b'C' ∷ []

abbrev row : ℕ → ℕ → ℕ → BookRow whole_numbers
row order_id price amount = record { order_id = order_id; price = price; amount = amount }

abbrev one_order : OnBookTracker
one_order = (5, resting 20000 3000000) ∷ []

lower_row-Tells_example :
    Tells one_order
      (lower_row whole_numbers (row 5 4 1) 8 9 wire one_order no_lowering_stats).event
      (lower_row whole_numbers (row 5 4 1) 8 9 wire one_order no_lowering_stats).on_book
lower_row-Tells_example =
    lower_row-Tells whole_numbers (row 5 4 1) 8 9 wire one_order no_lowering_stats

-- A snapshot cut at 7 with an order, and its removal as the update 8; the last input stands first.
abbrev two_inputs : List (Input whole_numbers)
two_inputs =
    an_update (record { row = row 5 0 1; sequence = 8 }) 11
    ∷ a_snapshot (record { rows = row 5 2 3 ∷ []; sequence = 7 }) 10
    ∷ []

run_lem_example :
    (((run whole_numbers wire two_inputs).state ≡ live)
      ↔ ((last : Option ℕ) × Unbroken whole_numbers two_inputs last))
    × ((run whole_numbers wire two_inputs).on_book
        ≡ replayed [] (events_since whole_numbers wire two_inputs))
run_lem_example = run_lem whole_numbers wire two_inputs
