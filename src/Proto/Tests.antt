-- ===== src/Proto/Tests.antt =====
-- The venue parsers run at concrete payloads: src/proto and include/mf/proto/read_be.hpp.
use hft_feed_handler.Common.{◌^◌, ◌-◌, ◌≡◌, refl, ◌∷◌, [], some, true, arith, HasResult}
use hft_feed_handler.Core.Types.{buy, add}
use hft_feed_handler.Proto.Bytes.{Bytes}
use hft_feed_handler.Proto.Itch.{new_stats, counted, start_event, parse_message}
use hft_feed_handler.Proto.Itch.Hot.{parse_hot_message_simd}
use hft_feed_handler.Proto.Itch.Safe.{parse_message-HasResult}
use hft_feed_handler.Proto.Itch.Same.{parse_hot_message_simd-parse_message}
use hft_feed_handler.Proto.Itch.RoundTrip.{add_order_bytes, parse_message-add_order_bytes}
use hft_feed_handler.Proto.Pitch
use hft_feed_handler.Proto.Pitch.Safe.{parse_message-HasResult_pitch}
use hft_feed_handler.Proto.Deep
use hft_feed_handler.Proto.Mdp3
use hft_feed_handler.Proto.Mdp3.Events.{Emits, parse_packet-Emits}
use hft_feed_handler.Proto.Deep.Safe.{parse_message-HasResult_deep}

abbrev msft : Bytes
msft = b'M' ∷ b'S' ∷ b'F' ∷ b'T' ∷ 32 ∷ 32 ∷ 32 ∷ 32 ∷ []

parse_message-add_order_bytes_example :
    parse_message (b'A' ∷ add_order_bytes 1 2 3000 77 b'B' 500 msft 1234500) 9 10 new_stats
    ≡ some (
      counted new_stats b'A',
      some (record (start_event b'A' 9 10) {
        type = add;
        exchange_ts_ns = 3000;
        order_id = 77;
        qty = 500;
        price = 1234500;
        side = buy;
        symbol = record { bytes = msft };
      }),
    )
parse_message-add_order_bytes_example =
    parse_message-add_order_bytes 1 2 3000 77 b'B' 500 msft 1234500 9 10 new_stats (omega arith)
      (omega arith) (omega arith) refl (omega arith)

-- A deletion of 19 bytes.
abbrev deletion : Bytes
deletion = b'D' ∷ 0 ∷ 1 ∷ 0 ∷ 2 ∷ 0 ∷ 0 ∷ 0 ∷ 0 ∷ 1 ∷ 5 ∷ 0 ∷ 0 ∷ 0 ∷ 0 ∷ 0 ∷ 0 ∷ 0 ∷ 7 ∷ []

parse_hot_message_simd-parse_message_example :
    parse_hot_message_simd true deletion 1 2 new_stats ≡ parse_message deletion 1 2 new_stats
parse_hot_message_simd-parse_message_example =
    parse_hot_message_simd-parse_message true deletion 1 2 new_stats

parse_message-HasResult_example : HasResult (parse_message deletion 1 2 new_stats)
parse_message-HasResult_example = parse_message-HasResult deletion 1 2 new_stats

abbrev pitch_stats : Pitch.ParseStats
pitch_stats = record { type_counts = []; parsed_messages = 0; malformed_messages = 0 }

-- A cancellation: time, type, order and quantity in ASCII.
abbrev cancellation : Bytes
cancellation =
    b'2' ∷ b'8' ∷ b'8' ∷ b'0' ∷ b'0' ∷ b'1' ∷ b'6' ∷ b'8' ∷ b'X' ∷ b'0' ∷ b'0' ∷ b'0' ∷ b'0' ∷ b'0'
    ∷ b'0' ∷ b'0' ∷ b'0' ∷ b'0' ∷ b'0' ∷ b'1' ∷ b'Z' ∷ b'0' ∷ b'0' ∷ b'0' ∷ b'1' ∷ b'0' ∷ b'0' ∷ []

parse_message-HasResult_pitch_example : HasResult (Pitch.parse_message cancellation 1 2 pitch_stats)
parse_message-HasResult_pitch_example = parse_message-HasResult_pitch cancellation 1 2 pitch_stats

base36_order : Pitch.parse_base36_u64 (b'1' ∷ b'Z' ∷ []) ≡ 71
unfolding Pitch.parse_base36_u64 Pitch.base36_from
base36_order = refl

abbrev deep_stats : Deep.ParseStats
deep_stats = record {
  type_counts = [];
  parsed_messages = 0;
  malformed_messages = 0;
  unimplemented_messages = 0;
}

parse_message-HasResult_deep_example : HasResult (Deep.parse_message deletion 1 2 deep_stats)
parse_message-HasResult_deep_example = parse_message-HasResult_deep deletion 1 2 deep_stats

abbrev mdp3_stats : Mdp3.ParseStats
mdp3_stats = record {
  template_counts = [];
  parsed_messages = 0;
  malformed_messages = 0;
  book_events_emitted = 0;
}

-- A packet header and a message that claims more bytes than there are.
abbrev cut_packet : Bytes
cut_packet =
    7 ∷ 0 ∷ 0 ∷ 0 ∷ 1 ∷ 0 ∷ 0 ∷ 0 ∷ 0 ∷ 0 ∷ 0 ∷ 0 ∷ 60 ∷ 0 ∷ 11 ∷ 0 ∷ 32 ∷ 0 ∷ 1 ∷ 0 ∷ 9 ∷ 0 ∷ []

parse_packet-Emits_example :
    Emits mdp3_stats.book_events_emitted (Mdp3.parse_packet cut_packet 5 mdp3_stats)
parse_packet-Emits_example = parse_packet-Emits cut_packet 5 mdp3_stats (omega arith)

negative_price : Mdp3.price9_mantissa_to_tick (2 ^ 64 - 300000) ≡ 0
unfolding Mdp3.price9_mantissa_to_tick
negative_price = refl

-- The symbol keeps eight characters of a longer number.
long_symbol :
    (Mdp3.security_id_to_symbol 1234567890).bytes
    ≡ b'1' ∷ b'2' ∷ b'3' ∷ b'4' ∷ b'5' ∷ b'6' ∷ b'7' ∷ b'8' ∷ []
unfolding Mdp3.security_id_to_symbol Mdp3.print_int Mdp3.digits
long_symbol = refl
