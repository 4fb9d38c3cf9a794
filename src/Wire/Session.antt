-- ===== src/Wire/Session.antt =====
-- src/wire/feed_session.cpp, `FeedSession`: datagrams framed, parsed and handed to a sink. The receiver is
-- the list of the datagrams that it still has, each with its time of arrival; its end is the error that a
-- socket without data gives. The sink is a function on a state of its own. `none` stands for a read outside
-- a datagram.
pub mod Handed
pub mod Poll
use hft_feed_handler.Common.{
  ℕ, ◌+◌, ◌%◌, Option, none, some, List, [], ◌∷◌, length, replicate, u64_mod, ◌>>=◌,
}
use hft_feed_handler.Core.Types.{BookEvent}
use hft_feed_handler.Phase2.Tracker.{inc64}
use hft_feed_handler.Phase2.Arbiter.{FeedSide}
use hft_feed_handler.Proto.Bytes.{Bytes, read}
use hft_feed_handler.Proto.Itch
use hft_feed_handler.Proto.Deep
use hft_feed_handler.Proto.Pitch
use hft_feed_handler.Wire.Framing.{
  WireProtocol, nasdaq_itch50, iex_deep, cboe_pitch, FrameSlice, frame,
}

-- The parser and its statistics, which the constructor chooses together.
pub data Parser : Type 0 where
  itch : Itch.ParseStats → Parser
  deep : Deep.ParseStats → Parser
  pitch : Pitch.ParseStats → Parser

pub record FeedSessionStats : Type 0 where
  pub datagrams_received : ℕ
  pub bytes_received : ℕ
  pub frames_parsed : ℕ
  pub parse_failures : ℕ
  pub sink_callbacks_fired : ℕ

pub record FeedSession : Type 0 where
  pub framer : WireProtocol
  pub side : FeedSide
  pub parser : Parser
  pub stats : FeedSessionStats

abbrev pub parser_for : WireProtocol → Parser
parser_for nasdaq_itch50 =
    itch (record { type_counts = replicate 256 0; parsed_messages = 0; malformed_messages = 0 })
parser_for iex_deep = deep (record {
  type_counts = replicate 256 0;
  parsed_messages = 0;
  malformed_messages = 0;
  unimplemented_messages = 0;
})
parser_for cboe_pitch =
    pitch (record { type_counts = replicate 256 0; parsed_messages = 0; malformed_messages = 0 })

unfoldable pub new_session : WireProtocol → FeedSide → FeedSession
new_session protocol side = record {
  framer = protocol;
  side = side;
  parser = parser_for protocol;
  stats = record {
    datagrams_received = 0;
    bytes_received = 0;
    frames_parsed = 0;
    parse_failures = 0;
    sink_callbacks_fired = 0;
  };
}

unfoldable pub parse_frame : Parser → Bytes → ℕ → ℕ → Option (Parser × Option BookEvent)
parse_frame (itch st) payload seq ingest_ts_ns = do
  r ← Itch.parse_message payload seq ingest_ts_ns st
  some (itch r.0, r.1)
parse_frame (deep st) payload seq ingest_ts_ns = do
  r ← Deep.parse_message payload seq ingest_ts_ns st
  some (deep r.0, r.1)
parse_frame (pitch st) payload seq ingest_ts_ns = do
  r ← Pitch.parse_message payload seq ingest_ts_ns st
  some (pitch r.0, r.1)

abbrev pub with_stats : FeedSession → FeedSessionStats → FeedSession
with_stats s st = record s { stats = st }

-- The counters at the start of a frame and of a datagram.
abbrev pub counted_frame : FeedSession → Parser → FeedSession
counted_frame s p = record s {
  parser = p;
  stats = record s.stats { frames_parsed = inc64 s.stats.frames_parsed };
}

abbrev pub received : FeedSession → ℕ → FeedSession
received s n = with_stats s (record s.stats {
  datagrams_received = inc64 s.stats.datagrams_received;
  bytes_received = (s.stats.bytes_received + n) % u64_mod;
})

module _ {ℓ} {S : Type ℓ} (sink : FeedSide → BookEvent → S → S) where
  -- The callback of the framer behind the parser: a failure or a call of the sink.
  unfoldable pub hand_over : FeedSession → S → Option BookEvent → FeedSession × S
  hand_over s out none =
      (with_stats s (record s.stats { parse_failures = inc64 s.stats.parse_failures }), out)
  hand_over s out (some ev) = (
    with_stats s (record s.stats { sink_callbacks_fired = inc64 s.stats.sink_callbacks_fired }),
    sink s.side ev out,
  )

  unfoldable pub on_frame : Bytes → ℕ → FeedSession → S → FrameSlice → Option (FeedSession × S)
  unfolding hand_over
  on_frame datagram ingest_ts_ns s out slice = do
    payload ← read datagram slice.data_off slice.len
    r ← parse_frame s.parser payload slice.sequence ingest_ts_ns
    some (hand_over (counted_frame s r.0) out r.1)

  unfoldable pub on_frames :
      Bytes → ℕ → FeedSession → S → List FrameSlice → Option (FeedSession × S)
  on_frames datagram ingest_ts_ns s out [] = some (s, out)
  on_frames datagram ingest_ts_ns s out (slice ∷ slices) = do
    r ← on_frame datagram ingest_ts_ns s out slice
    on_frames datagram ingest_ts_ns r.0 r.1 slices

  -- The loop over the datagrams, which an empty one ends as well. What is left of them stays with the
  -- receiver.
  unfoldable pub poll :
      FeedSession → S → List (Bytes × ℕ) → Option (FeedSession × S × List (Bytes × ℕ))
  poll s out [] = some (s, out, [])
  poll s out (([], ingest_ts_ns) ∷ datagrams) = some (s, out, datagrams)
  poll s out ((b ∷ bs, ingest_ts_ns) ∷ datagrams) = do
    slices ← frame s.framer (b ∷ bs)
    r ← on_frames (b ∷ bs) ingest_ts_ns (received s (length (b ∷ bs))) out slices
    poll r.0 r.1 datagrams
