-- ===== src/Wire/Tests.antt =====
-- src/wire and include/mf/wire run at concrete datagrams.
use hft_feed_handler.Common.{
  Option, ℕ, ◌+◌, ◌%◌, ◌≡◌, ◌≤◌, List, [], ◌∷◌, some, map, arith, u64_mod, length,
}
use hft_feed_handler.Proto.Bytes.{Bytes}
use hft_feed_handler.Core.Types.{BookEvent}
use hft_feed_handler.Phase2.Arbiter.{FeedSide, feed_a}
use hft_feed_handler.Wire.Session.{FeedSession, new_session, poll}
use hft_feed_handler.Wire.Session.Handed.{AreSmall, Receives, Handed}
use hft_feed_handler.Wire.Session.Poll.{poll-Handed}
use hft_feed_handler.Wire.Framing.{FrameSlice, frame, nasdaq_itch50, iex_deep, cboe_pitch}
use hft_feed_handler.Wire.Framing.Prefixed.{prefixed, numbered, shown}
use hft_feed_handler.Wire.Framing.Safe.{IsSafe, frame-IsSafe}
use hft_feed_handler.Wire.Framing.Lines.{joined, numbered_line, frame-joined}
use hft_feed_handler.Wire.MoldUdp.{ItchMoldUdpFramer, pack_datagram, write_be16}
use hft_feed_handler.Wire.MoldUdp.RoundTrip.{IsFramed, frame-pack_datagram}
use hft_feed_handler.Wire.MoldUdp.Complete.{frame-pack_datagram-prefixed}

abbrev framer : ItchMoldUdpFramer
framer = record { session = b'S' ∷ b'1' ∷ []; next_seq = 7 }

-- A message of two bytes, one of one byte, and a length with nothing behind it.
abbrev input : Bytes
input = 0 ∷ 2 ∷ 65 ∷ 66 ∷ 0 ∷ 1 ∷ 67 ∷ 0 ∷ 9 ∷ []

frame-pack_datagram_example :
    (f₁ : ItchMoldUdpFramer) × (out : Bytes) × (consumed : ℕ) × (pack_datagram framer input 16 1400
      ≡ some (f₁, out, consumed))
    × IsFramed framer input f₁ out consumed
frame-pack_datagram_example =
    frame-pack_datagram framer input 16 1400
      (
        omega arith,
        (
          omega arith,
          (
            omega arith,
            (
              omega arith,
              (omega arith, (omega arith, (omega arith, (omega arith, (omega arith, tt))))),
            ),
          ),
        ),
      )
      (omega arith) (omega arith)

abbrev two_bytes : Bytes
two_bytes = 65 ∷ 66 ∷ []

abbrev one_byte : Bytes
one_byte = 67 ∷ []

frame-pack_datagram-prefixed_example :
    (out : Bytes) × (slices : List FrameSlice) × (pack_datagram framer
        (prefixed (two_bytes ∷ one_byte ∷ []))
        16
        1400
      ≡ some (
        record framer {
          next_seq = (framer.next_seq + length (two_bytes ∷ one_byte ∷ [])) % u64_mod;
        },
        out,
        length (prefixed (two_bytes ∷ one_byte ∷ [])),
      ))
    × (frame nasdaq_itch50 out ≡ some slices)
    × (map (shown out) slices ≡ numbered framer.next_seq 0 (two_bytes ∷ one_byte ∷ []))
unfolding prefixed write_be16
frame-pack_datagram-prefixed_example =
    frame-pack_datagram-prefixed framer two_bytes (one_byte ∷ []) 16 1400 (omega arith)
      (omega arith, (omega arith, tt)) (omega arith, (omega arith, tt)) (omega arith) (omega arith)
      room
  where
    room : 22 + length (prefixed (two_bytes ∷ one_byte ∷ [])) ≤ 1400
    room = omega arith

frame-IsSafe_example : IsSafe input (frame iex_deep input)
frame-IsSafe_example = frame-IsSafe iex_deep input

frame-joined_example :
    (fs : List FrameSlice) × (frame cboe_pitch (joined ((65 ∷ []) ∷ (66 ∷ 67 ∷ []) ∷ [])) ≡ some fs)
    × (map (shown (joined ((65 ∷ []) ∷ (66 ∷ 67 ∷ []) ∷ []))) fs
        ≡ map numbered_line ((65 ∷ []) ∷ (66 ∷ 67 ∷ []) ∷ []))
frame-joined_example = frame-joined ((65 ∷ []) ∷ (66 ∷ 67 ∷ []) ∷ []) (
  omega arith,
  ((λ e. ground arith), tt),
  (omega arith, ((λ e. ground arith), ((λ e. ground arith), tt)), tt),
)

-- A session that hands its events to a counter.
abbrev count_events : FeedSide → BookEvent → ℕ → ℕ
count_events side ev n = n + 1

abbrev session : FeedSession
session = new_session nasdaq_itch50 feed_a

-- A datagram with a message of type `Z` and one cut short, then an empty one.
abbrev datagrams : List (Bytes × ℕ)
datagrams =
    (
      48 ∷ 48 ∷ 48 ∷ 48 ∷ 48 ∷ 48 ∷ 48 ∷ 48 ∷ 48 ∷ 48 ∷ 0 ∷ 0 ∷ 0 ∷ 0 ∷ 0 ∷ 0 ∷ 0 ∷ 5 ∷ 0 ∷ 2 ∷ 0
          ∷ 1 ∷ b'Z' ∷ 0 ∷ 1 ∷ b'A' ∷ [],
      10,
    )
    ∷ ([], 11)
    ∷ []

session-AreSmall : AreSmall session.stats
unfolding new_session
session-AreSmall = record {
  frames_lt = omega arith;
  failures_lt = omega arith;
  callbacks_lt = omega arith;
}

poll-Handed_example :
    (r : FeedSession × ℕ × List (Bytes × ℕ)) × (os : List (Option BookEvent)) × (poll count_events
        session 0 datagrams
      ≡ some r)
    × Receives session.framer session.parser datagrams r.0.parser os r.2
    × Handed count_events session 0 os r.0 r.1
poll-Handed_example = poll-Handed count_events session 0 datagrams session-AreSmall
