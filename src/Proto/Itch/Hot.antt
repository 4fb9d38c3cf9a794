-- ===== src/Proto/Itch/Hot.antt =====
-- src/proto/nasdaq/itch50_parser.cpp, `parse_hot_message_simd`: the four frequent messages read field by
-- field from the payload. `avx2` says whether the block of an addition is loaded as well.
use hft_feed_handler.Common.{
  ℕ, Bool, true, false, not, ◌&&◌, Option, none, some, [], ◌∷◌, ltb, ◌==◌, if◌then◌else◌, length,
  get_or, ◌>>=◌,
}
use hft_feed_handler.Core.Types.{BookEvent, add, execute, cancel, delete}
use hft_feed_handler.Proto.Bytes.{Bytes, read, load_le, bswap}
use hft_feed_handler.Proto.Itch.{
  ParseStats, Parsed, malformed, counted, decode_ts6, decode_side, start_event, parse_message,
}

abbrev pub read_u64_fast : Bytes → ℕ
read_u64_fast bytes = bswap 8 (load_le bytes)

abbrev pub read_u32_fast : Bytes → ℕ
read_u32_fast bytes = bswap 4 (load_le bytes)

-- `require_size` before a case.
abbrev pub require_size : Bytes → ParseStats → ℕ → Parsed → Parsed
require_size payload stats n body =
    if ltb (length payload) n then some (malformed stats, none) else body

-- The load of the block is there only with AVX2.
abbrev pub load_block : Bool → Bytes → Option Bytes
load_block true payload = read payload 11 25
load_block false payload = some []

-- Offsets count from the payload's start; `p` is one byte behind it.
unfoldable pub hot_add : Bool → Bytes → ParseStats → BookEvent → Parsed
hot_add avx2 payload stats ev = do
  block ← load_block avx2 payload
  ts ← read payload 5 6
  order_id ← read payload 11 8
  side ← read payload 19 1
  qty ← read payload 20 4
  symbol ← read payload 24 8
  price ← read payload 32 4
  some (
    stats,
    some (record ev {
      type = add;
      exchange_ts_ns = decode_ts6 ts;
      order_id = read_u64_fast order_id;
      side = decode_side (get_or side 0 0);
      qty = read_u32_fast qty;
      symbol = record { bytes = symbol };
      price = read_u32_fast price;
    }),
  )

unfoldable pub hot_execute : Bytes → ParseStats → BookEvent → Parsed
hot_execute payload stats ev = do
  ts ← read payload 5 6
  order_id ← read payload 11 8
  qty ← read payload 19 4
  match_id ← read payload 23 8
  some (
    stats,
    some (record ev {
      type = execute;
      exchange_ts_ns = decode_ts6 ts;
      order_id = read_u64_fast order_id;
      qty = read_u32_fast qty;
      match_id = read_u64_fast match_id;
    }),
  )

unfoldable pub hot_cancel : Bytes → ParseStats → BookEvent → Parsed
hot_cancel payload stats ev = do
  ts ← read payload 5 6
  order_id ← read payload 11 8
  qty ← read payload 19 4
  some (
    stats,
    some (record ev {
      type = cancel;
      exchange_ts_ns = decode_ts6 ts;
      order_id = read_u64_fast order_id;
      qty = read_u32_fast qty;
    }),
  )

unfoldable pub hot_delete : Bytes → ParseStats → BookEvent → Parsed
hot_delete payload stats ev = do
  ts ← read payload 5 6
  order_id ← read payload 11 8
  some (
    stats,
    some (record ev {
      type = delete;
      exchange_ts_ns = decode_ts6 ts;
      order_id = read_u64_fast order_id;
    }),
  )

unfoldable pub hot_switch : Bool → Bytes → ParseStats → BookEvent → ℕ → Parsed
hot_switch avx2 payload stats ev type =
    if type == b'A'
    then require_size payload stats 36 (hot_add avx2 payload stats ev)
    else if type == b'E'
    then require_size payload stats 31 (hot_execute payload stats ev)
    else if type == b'X'
    then require_size payload stats 23 (hot_cancel payload stats ev)
    else require_size payload stats 19 (hot_delete payload stats ev)

-- Any other type goes to `parse_message`, which counts it.
unfoldable pub parse_hot_message_simd : Bool → Bytes → ℕ → ℕ → ParseStats → Parsed
parse_hot_message_simd avx2 [] sequence ingest_ts_ns stats = some (malformed stats, none)
parse_hot_message_simd avx2 (type ∷ rest) sequence ingest_ts_ns stats =
    if not (type == b'A') && not (type == b'E') && not (type == b'X') && not (type == b'D')
    then parse_message (type ∷ rest) sequence ingest_ts_ns stats
    else hot_switch avx2 (type ∷ rest) (counted stats type) (start_event type sequence ingest_ts_ns)
        type
