-- ===== src/Wire/MoldUdp.antt =====
-- include/mf/wire/itch_moldudp.hpp, `ItchMoldUdpFramer`: length-prefixed messages packed into a datagram.
pub mod Packs
pub mod RoundTrip
pub mod Complete
use hft_feed_handler.Common.{
  ℕ, zero, suc, ◌+◌, ◌*◌, ◌-◌, ◌/◌, ◌%◌, Bool, true, false, not, ◌&&◌, ◌||◌, Option, none, some,
  List, [], ◌∷◌, ◌++◌, ltb, leb, ◌==◌, if◌then◌else◌, length, get_or, take, drop, replicate,
  u64_mod, ◌>>=◌,
}
use hft_feed_handler.Proto.Bytes.{Bytes, read, store_be}
use hft_feed_handler.Wire.Framing.{be16}

pub record ItchMoldUdpFramer : Type 0 where
  pub session : Bytes
  pub next_seq : ℕ

unfoldable pub write_be16 : ℕ → Bytes
write_be16 v = (v / 256) % 256 ∷ v % 256 ∷ []

unfoldable pub write_be64 : ℕ → Bytes
write_be64 v = store_be 8 v

-- The datagram so far, the offset in the input and the number of messages.
pub record Packing : Type 0 where
  pub out : Bytes
  pub off : ℕ
  pub msg_count : ℕ

-- The header with no count.
unfoldable pub header : ItchMoldUdpFramer → Bytes
header f = take 10 (f.session ++ replicate 10 b' ') ++ write_be64 f.next_seq ++ 0 ∷ 0 ∷ []

-- The message appended to the datagram.
unfoldable pub append_message : Packing → Bytes → Packing
append_message s payload = record {
  out = s.out ++ write_be16 (length payload) ++ payload;
  off = s.off + (2 + length payload);
  msg_count = (s.msg_count + 1) % 65536;
}

-- A round of the loop: `some none` where it ends.
unfoldable pub pack_next : Bytes → ℕ → ℕ → Packing → Option (Option Packing)
pack_next input max_messages max_bytes s =
    let packed = (do
      msg_len ← be16 input s.off
      let needed = 20 + 2 + (length s.out - 20) + 2 + msg_len
      let appended = (do
        payload ← read input (s.off + 2) msg_len
        some (some (append_message s payload)))
      let ends = msg_len == 0 || ltb (length input) (s.off + 2 + msg_len) || ltb max_bytes needed
      if ends then some none else appended) in
    if leb (s.off + 2) (length input) && ltb s.msg_count max_messages then packed else some none

-- The loop. Without fuel it has no result; each round takes three bytes of the input or more.
unfoldable pub pack_from : ℕ → Bytes → ℕ → ℕ → Packing → Option Packing
pack_from zero input max_messages max_bytes s = none
pack_from (suc fuel) input max_messages max_bytes s = do
  next ← pack_next input max_messages max_bytes s
  elim next [ none ↦ some s | some s₁ ↦ pack_from fuel input max_messages max_bytes s₁ ]

-- The datagram with its count, and the framer after it. No message leaves both as they were.
unfoldable pub finish : ItchMoldUdpFramer → Packing → ItchMoldUdpFramer × Bytes × ℕ
finish f s = if s.msg_count == 0 then (f, [], 0) else (
  record f { next_seq = (f.next_seq + s.msg_count) % u64_mod },
  take 18 s.out ++ write_be16 s.msg_count ++ drop 20 s.out,
  s.off,
)

-- The new framer, the datagram and the number of bytes consumed.
unfoldable pub pack_datagram :
    ItchMoldUdpFramer → Bytes → ℕ → ℕ → Option (ItchMoldUdpFramer × Bytes × ℕ)
pack_datagram f input max_messages max_bytes =
    let packed = (do
      s ←
          pack_from (suc (length input)) input max_messages max_bytes
            (record { out = header f; off = 0; msg_count = 0 })
      some (finish f s)) in
    if ltb (length input) 2 then some (f, [], 0) else packed
