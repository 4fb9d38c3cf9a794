-- ===== src/Wire/Framing.antt =====
-- include/mf/wire/framing.hpp and src/wire/framing.cpp, `DatagramFramer`. A slice's pointer is its
-- offset in the datagram, and the calls of `on_frame` are the list of their slices. `none` stands for a
-- read outside the datagram.
pub mod Prefixed
pub mod Safe
pub mod Lines
use hft_feed_handler.Common.{
  ℕ, zero, suc, ◌+◌, ◌*◌, ◌-◌, ◌%◌, Bool, true, false, not, ◌||◌, Option, none, some, List, [], ◌∷◌,
  ◌++◌, ltb, leb, ◌==◌, if◌then◌else◌, length, get_or, u64_mod, ◌>>=◌,
}
use hft_feed_handler.Proto.Bytes.{Bytes, read}

pub data WireProtocol : Type 0 where
  nasdaq_itch50 iex_deep cboe_pitch : WireProtocol

pub record FrameSlice : Type 0 where
  pub data_off : ℕ
  pub len : ℕ
  pub sequence : ℕ

-- Two bytes as a number.
unfoldable pub be16_of : Bytes → ℕ
be16_of p = get_or p 0 0 * 256 + get_or p 1 0

unfoldable pub be16 : Bytes → ℕ → Option ℕ
unfolding be16_of
be16 datagram off = do p ← read datagram off 2; some (be16_of p)

unfoldable pub be64_from : ℕ → Bytes → ℕ
be64_from v [] = v
be64_from v (b ∷ bs) = be64_from ((v * 256) % u64_mod + b) bs

unfoldable pub be64 : Bytes → ℕ → Option ℕ
unfolding be64_from
be64 datagram off = do p ← read datagram off 8; some (be64_from 0 p)

unfoldable pub ascii_from : ℕ → Bytes → ℕ
ascii_from v [] = v
ascii_from v (c ∷ cs) =
    let rest = ascii_from ((v * 10 + (c - b'0')) % u64_mod) cs in
    if ltb c b'0' || ltb b'9' c then 0 else rest

abbrev pub parse_ascii_u64 : Bytes → ℕ
parse_ascii_u64 p = ascii_from 0 p

-- The loop over length-prefixed messages, for `n` more of them, up to `stop`.
unfoldable pub frames_from : Bytes → ℕ → ℕ → ℕ → ℕ → ℕ → Option (List FrameSlice)
frames_from datagram stop first_seq zero i off = some []
frames_from datagram stop first_seq (suc n) i off =
    let framed = (do
      mlen ← be16 datagram off
      let off = off + 2
      let rest = frames_from datagram stop first_seq n (i + 1) (off + mlen)
      let called = (do
        slices ← rest
        some (record { data_off = off; len = mlen; sequence = (first_seq + i) % u64_mod } ∷ slices))
      if ltb stop (off + mlen) then some [] else called) in
    if leb (off + 2) stop then framed else some []

unfoldable pub frame_itch : Bytes → Option (List FrameSlice)
frame_itch datagram =
    let framed = (do
      first_seq ← be64 datagram 10
      msg_count ← be16 datagram 18
      frames_from datagram (length datagram) first_seq msg_count 0 20) in
    if ltb (length datagram) 20 then some [] else framed

unfoldable pub frame_deep : Bytes → Option (List FrameSlice)
frame_deep datagram =
    let framed = (do
      payload_len ← be16 datagram 8
      msg_count ← be16 datagram 10
      first_seq ← be64 datagram 20
      let frames = frames_from datagram (36 + payload_len) first_seq msg_count 0 36
      if ltb (length datagram) (36 + payload_len) then some [] else frames) in
    if ltb (length datagram) 36 then some [] else framed

-- The call for the bytes from `start` to before `i`, when there are any.
unfoldable pub line : Bytes → ℕ → ℕ → Option (List FrameSlice)
line datagram start i =
    let mlen = i - start in
    let called = (do
      msg ← read datagram start 8
      some (record { data_off = start; len = mlen; sequence = parse_ascii_u64 msg } ∷ [])) in
    if leb i start
    then some []
    else if leb 8 mlen
    then called
    else some (record { data_off = start; len = mlen; sequence = 0 } ∷ [])

-- The loop over the bytes from `i` on, of which `n` are left, and the line behind the last newline.
unfoldable pub lines_from : Bytes → ℕ → ℕ → ℕ → Option (List FrameSlice)
lines_from datagram zero start i = line datagram start i
lines_from datagram (suc n) start i = do
  b ← read datagram i 1
  let same_line = lines_from datagram n start (i + 1)
  let next_line = (do
    called ← line datagram start i
    slices ← lines_from datagram n (i + 1) (i + 1)
    some (called ++ slices))
  if not (get_or b 0 0 == 10) then same_line else next_line

unfoldable pub frame : WireProtocol → Bytes → Option (List FrameSlice)
frame protocol [] = some []
frame nasdaq_itch50 (b ∷ bs) = frame_itch (b ∷ bs)
frame iex_deep (b ∷ bs) = frame_deep (b ∷ bs)
frame cboe_pitch (b ∷ bs) = lines_from (b ∷ bs) (length (b ∷ bs)) 0 0
