-- ===== src/Wire/MoldUdp/Complete.antt =====
-- include/mf/wire/itch_moldudp.hpp and src/wire/framing.cpp: messages that fit are all packed, and framed
-- again.
use hft_feed_handler.Common.{
  take_all, ℕ, zero, suc, ◌+◌, ◌-◌, ◌%◌, ◌^◌, ◌≤◌, ◌<◌, ◌≡◌, refl, sym, ap, ◌∙◌, true, false, ◌&&◌,
  ◌||◌, none, some, List, [], ◌∷◌, ◌++◌, ltb, leb, ◌==◌, length, take, drop, map, arith, u64_mod,
  le→ltb, le→leb, length-append, length-drop,
}
use mathlib.Core.List.{append_assoc, append-nil}
use hft_feed_handler.Proto.Bytes.{Bytes, read, read_within}
use hft_feed_handler.Wire.Framing.{FrameSlice, frame, nasdaq_itch50}
use hft_feed_handler.Wire.Framing.Prefixed.{
  prefixed, numbered, shown, AreShort, be16_at, slice_first, drop_more, room,
}
use hft_feed_handler.Wire.MoldUdp.{
  ItchMoldUdpFramer, write_be16, write_be64, Packing, header, append_message, pack_next, pack_from,
  finish, pack_datagram,
}
use hft_feed_handler.Wire.MoldUdp.Packs.{Packs}
use hft_feed_handler.Wire.MoldUdp.RoundTrip.{
  frame_itch_lem, session_bytes, length-session_bytes, length-write_be64, finish_out,
}

abbrev AreNonempty : List Bytes → Type 0
AreNonempty [] = Unit {0}
AreNonempty (m ∷ ms) = (0 < length m) × AreNonempty ms

-- A round appends the message that stands at the offset, if it fits.
pack_next_at :
    (input : Bytes) (max_messages max_bytes : ℕ) (s : Packing) (m rest : Bytes)
    → drop s.off input ≡ write_be16 (length m) ++ (m ++ rest)
    → 0 < length m
    → length m < 65536
    → s.msg_count < max_messages
    → 20 ≤ length s.out
    → length s.out + 4 + length m ≤ max_bytes
    → pack_next input max_messages max_bytes s ≡ some (some (append_message s m))
unfolding pack_next write_be16
pack_next_at input max_messages max_bytes s m rest e pos lt fewer head fits =
    rw (goes_on, be16_at input s.off (length m) (m ++ rest) lt e, continues, content) refl
  where
    behind : drop (s.off + 2) input ≡ m ++ rest
    behind = drop_more input s.off 2 (write_be16 (length m)) (m ++ rest) e refl

    inside : s.off + 2 + length m ≤ length input
    inside = room input (s.off + 2) m rest behind pos

    goes_on : (leb (s.off + 2) (length input) && ltb s.msg_count max_messages) ≡ true
    goes_on = rw (le→leb (s.off + 2) (length input) (omega (arith, inside))) (ground arith)

    continues :
        (length m == 0
          || ltb (length input) (s.off + 2 + length m)
          || ltb max_bytes (20 + 2 + (length s.out - 20) + 2 + length m))
        ≡ false
    continues =
        rw
          (
            le→ltb (length input) (s.off + 2 + length m) inside,
            le→ltb max_bytes (20 + 2 + (length s.out - 20) + 2 + length m) (omega arith),
          )
          (ground arith)

    content : read input (s.off + 2) (length m) ≡ some m
    content =
        read_within input (s.off + 2) (length m) inside
        ∙ ap some (slice_first input (s.off + 2) (length m) m rest behind refl)

unfoldable packed_all : Packing → List Bytes → Packing
packed_all s [] = s
packed_all s (m ∷ ms) = packed_all (append_message s m) ms

packed_all_lem :
    (s : Packing) (ms : List Bytes)
    → s.msg_count + length ms < 65536
    → ((packed_all s ms).out ≡ s.out ++ prefixed ms)
      × ((packed_all s ms).off ≡ s.off + length (prefixed ms))
      × ((packed_all s ms).msg_count ≡ s.msg_count + length ms)
unfolding packed_all append_message prefixed write_be16
packed_all_lem s [] few = (sym (append-nil s.out), omega arith, omega arith)
packed_all_lem s (m ∷ ms) few =
    let rest = packed_all_lem (append_message s m) ms (omega arith) in
    (
      rest.0
          ∙ append_assoc (s.out ++ write_be16 (length m)) m (prefixed ms)
          ∙ append_assoc s.out (write_be16 (length m)) (m ++ prefixed ms),
      omega (arith, rest.1, length-append m (prefixed ms)),
      omega (arith, rest.2),
    )

-- Behind the last message the loop ends.
pack_next_end :
    (input : Bytes) (max_messages max_bytes : ℕ) (s : Packing)
    → drop s.off input ≡ []
    → pack_next input max_messages max_bytes s ≡ some none
unfolding pack_next
pack_next_end input max_messages max_bytes s e = rw (over) refl
  where
    over : (leb (s.off + 2) (length input) && ltb s.msg_count max_messages) ≡ false
    over = ground (arith, length-drop s.off input, ap length e)

-- The loop packs all the messages that stand at the offset.
pack_from-packed_all :
    (input : Bytes) (max_messages max_bytes fuel : ℕ) (s : Packing) (ms : List Bytes)
    → drop s.off input ≡ prefixed ms
    → AreShort ms
    → AreNonempty ms
    → s.msg_count + length ms ≤ max_messages
    → max_messages < 65536
    → 20 ≤ length s.out
    → length s.out + 2 + length (prefixed ms) ≤ max_bytes
    → length ms < fuel
    → pack_from fuel input max_messages max_bytes s ≡ some (packed_all s ms)
unfolding pack_from packed_all prefixed append_message write_be16
pack_from-packed_all input max_messages max_bytes zero s ms e short full few small head fits
      enough =
    absurd (omega arith)
pack_from-packed_all input max_messages max_bytes (suc fuel) s [] e short full few small head fits
      enough =
    rw (pack_next_end input max_messages max_bytes s e) refl
pack_from-packed_all input max_messages max_bytes (suc fuel) s (m ∷ ms) e (lt, short) (pos, full)
      few small head fits enough =
    rw
      (pack_next_at input max_messages max_bytes s m (prefixed ms) e pos lt (omega arith) head
        first_fits)
      (pack_from-packed_all input max_messages max_bytes fuel (append_message s m) ms behind short
        full (omega arith) small (omega (arith, grown)) (omega (arith, grown, whole, fits))
        (omega arith))
  where
    grown : length (append_message s m).out ≡ length s.out + (2 + length m)
    grown = omega (
      arith,
      length-append (s.out ++ write_be16 (length m)) m,
      length-append s.out (write_be16 (length m)),
    )

    whole : length (prefixed (m ∷ ms)) ≡ 2 + (length m + length (prefixed ms))
    whole = omega (arith, length-append m (prefixed ms))

    first_fits : length s.out + 4 + length m ≤ max_bytes
    first_fits = omega (arith, whole, fits)

    behind : drop (s.off + (2 + length m)) input ≡ prefixed ms
    behind =
        drop_more input s.off (2 + length m) (write_be16 (length m) ++ m) (prefixed ms)
          (e ∙ sym (append_assoc (write_be16 (length m)) m (prefixed ms))) (omega arith)

AreNonempty-length : (ms : List Bytes) → AreNonempty ms → length ms ≤ length (prefixed ms)
unfolding prefixed write_be16
AreNonempty-length [] full = omega arith
AreNonempty-length (m ∷ ms) (pos, full) =
    omega (arith, length-append m (prefixed ms), AreNonempty-length ms full)

length-header : (f : ItchMoldUdpFramer) → length (header f) ≡ 20
unfolding header
length-header f = omega (
  arith,
  length-append (session_bytes f ++ write_be64 f.next_seq) (0 ∷ 0 ∷ []),
  length-append (session_bytes f) (write_be64 f.next_seq),
  length-session_bytes f,
  length-write_be64 f.next_seq,
)

-- Messages that are neither empty nor longer than their two bytes can say, and that fit the limits of a
-- datagram, are all packed, and the datagram is framed into them again: in order, numbered from the
-- framer's next sequence.
pub frame-pack_datagram-prefixed :
    (f : ItchMoldUdpFramer) (m : Bytes) (ms : List Bytes) (max_messages max_bytes : ℕ)
    → f.next_seq < 2 ^ 64
    → AreShort (m ∷ ms)
    → AreNonempty (m ∷ ms)
    → length (m ∷ ms) ≤ max_messages
    → max_messages < 65536
    → 22 + length (prefixed (m ∷ ms)) ≤ max_bytes
    → (out : Bytes) × (slices : List FrameSlice) × (pack_datagram f
          (prefixed (m ∷ ms))
          max_messages
          max_bytes
        ≡ some (
          record f { next_seq = (f.next_seq + length (m ∷ ms)) % u64_mod },
          out,
          length (prefixed (m ∷ ms)),
        ))
      × (frame nasdaq_itch50 out ≡ some slices)
      × (map (shown out) slices ≡ numbered f.next_seq 0 (m ∷ ms))
unfolding pack_datagram finish prefixed write_be16
frame-pack_datagram-prefixed f m ms max_messages max_bytes small short full few max_small fits = (
  bytes,
  framed.0,
  rw (long, packs, not_empty, finish_out f input max_messages final final-Packs, count, consumed)
      refl,
  framed.1,
  framed.2,
)
  where
    input : Bytes
    input = prefixed (m ∷ ms)

    start : Packing
    start = record { out = header f; off = 0; msg_count = 0 }

    final : Packing
    final = packed_all start (m ∷ ms)

    bytes : Bytes
    bytes =
        session_bytes f
        ++ write_be64 f.next_seq
        ++ (write_be16 (length (m ∷ ms)) ++ prefixed (m ∷ ms))

    twenty : length (header f) ≡ 20
    twenty = length-header f

    input_long : 3 ≤ length input
    input_long = omega (arith, length-append m (prefixed ms), full.0)

    totals :
        (final.out ≡ header f ++ input)
        × (final.off ≡ 0 + length input)
        × (final.msg_count ≡ 0 + length (m ∷ ms))
    totals = packed_all_lem start (m ∷ ms) (omega arith)

    consumed : final.off ≡ length input
    consumed = omega (arith, totals.1)

    count : final.msg_count ≡ length (m ∷ ms)
    count = omega (arith, totals.2)

    final-Packs : Packs f input max_messages final
    final-Packs = record {
      messages = m ∷ ms;
      short = short;
      out_eq = totals.0;
      consumed_eq =
          sym (ap (λ k. take k input) consumed ∙ take_all (length input) input (omega arith));
      within = omega (arith, consumed);
      count_eq = count;
      bounded = few;
    }

    long : ltb (length input) 2 ≡ false
    long = le→ltb (length input) 2 (omega (arith, input_long))

    packs : pack_from (suc (length input)) input max_messages max_bytes start ≡ some final
    packs =
        pack_from-packed_all input max_messages max_bytes (suc (length input)) start (m ∷ ms) refl
          short full (omega arith) max_small (omega (arith, twenty)) (omega (arith, twenty, fits))
          (omega (arith, AreNonempty-length (m ∷ ms) full))

    not_empty : (final.msg_count == 0) ≡ false
    not_empty = ground (arith, count)

    framed :
        (fs : List FrameSlice) × (frame nasdaq_itch50 bytes ≡ some fs)
        × (map (shown bytes) fs ≡ numbered f.next_seq 0 (m ∷ ms))
    framed =
        frame_itch_lem (session_bytes f) f.next_seq (m ∷ ms) (length-session_bytes f) small
          (omega arith) short
