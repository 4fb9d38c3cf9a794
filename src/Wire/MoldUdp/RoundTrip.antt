-- ===== src/Wire/MoldUdp/RoundTrip.antt =====
-- include/mf/wire/itch_moldudp.hpp and src/wire/framing.cpp: what is packed is framed again.
use hft_feed_handler.Common.{
  ℕ, zero, suc, ◌+◌, ◌-◌, ◌%◌, ◌^◌, ◌≤◌, ◌<◌, ◌≡◌, refl, sym, ap, ap₂, ◌∙◌, inl, inr, false, some,
  List, [], ◌∷◌, ◌++◌, ltb, ◌==◌, length, take, drop, map, replicate, arith, u64_mod, le→ltb,
  Bool-cases, length-take, length-append, length-replicate, take_first, drop_first,
}
use mathlib.Core.List.{append_assoc, append-nil}
use hft_feed_handler.Proto.Bytes.{Bytes, AreBytes, read_within, store_be, store_le, reversed}
use hft_feed_handler.Wire.Framing.{
  FrameSlice, be64, be64_from, frames_from, frame_itch, frame, nasdaq_itch50,
}
use hft_feed_handler.Wire.Framing.Prefixed.{
  prefixed, numbered, shown, AreShort, frames_from-prefixed, be16_at, slice_first, drop_more, room,
}
use hft_feed_handler.Wire.MoldUdp.{
  ItchMoldUdpFramer, write_be16, write_be64, Packing, header, pack_from, finish, pack_datagram,
}
use hft_feed_handler.Wire.MoldUdp.Packs.{Packs, pack_next-Packs}

be64_from-write_be64 : (v : ℕ) → v < 2 ^ 64 → be64_from 0 (write_be64 v) ≡ v
unfolding be64_from write_be64 store_be store_le reversed
be64_from-write_be64 v h = omega arith

length-write_be16 : (v : ℕ) → length (write_be16 v) ≡ 2
unfolding write_be16
length-write_be16 v = refl

pub length-write_be64 : (v : ℕ) → length (write_be64 v) ≡ 8
unfolding write_be64 store_be store_le reversed
length-write_be64 v = refl

be64_at :
    (d : Bytes) (off v : ℕ) (rest : Bytes)
    → v < 2 ^ 64
    → drop off d ≡ write_be64 v ++ rest
    → be64 d off ≡ some v
unfolding be64
be64_at d off v rest h e =
    rw (read_within d off 8 fits, slice_first d off 8 (write_be64 v) rest e (length-write_be64 v))
      (ap some (be64_from-write_be64 v h))
  where
    fits : off + 8 ≤ length d
    fits = omega (
      arith,
      room d off (write_be64 v) rest e (omega (arith, length-write_be64 v)),
      length-write_be64 v,
    )

-- A datagram of its parts is framed into its messages.
pub frame_itch_lem :
    (session : Bytes) (first : ℕ) (ms : List Bytes)
    → length session ≡ 10
    → first < 2 ^ 64
    → length ms < 65536
    → AreShort ms
    → (fs : List FrameSlice) × (frame nasdaq_itch50
          (session ++ write_be64 first ++ (write_be16 (length ms) ++ prefixed ms))
        ≡ some fs)
      × (map (shown (session ++ write_be64 first ++ (write_be16 (length ms) ++ prefixed ms))) fs
          ≡ numbered first 0 ms)
unfolding frame frame_itch
frame_itch_lem [] first ms h small few short = absurd (omega arith)
frame_itch_lem (s ∷ ss) first ms h small few short = (
  framed.0,
  rw
      (
        long,
        be64_at d 10 first _ small behind_session,
        be16_at d 18 (length ms) (prefixed ms) few behind_first,
      )
      framed.1,
  framed.2,
)
  where
    d : Bytes
    d = s ∷ ss ++ write_be64 first ++ (write_be16 (length ms) ++ prefixed ms)

    behind_session : drop 10 d ≡ write_be64 first ++ (write_be16 (length ms) ++ prefixed ms)
    behind_session =
        ap (drop 10) (append_assoc (s ∷ ss) (write_be64 first) _) ∙ drop_first 10 (s ∷ ss) _ h

    behind_first : drop 18 d ≡ write_be16 (length ms) ++ prefixed ms
    behind_first = drop_more d 10 8 (write_be64 first) _ behind_session (length-write_be64 first)

    behind_count : drop 20 d ≡ prefixed ms ++ []
    behind_count =
        drop_more d 18 2 (write_be16 (length ms)) (prefixed ms) behind_first
          (length-write_be16 (length ms))
        ∙ sym (append-nil (prefixed ms))

    whole : length d ≡ 20 + length (prefixed ms)
    whole = omega (
      arith,
      h,
      length-append (s ∷ ss ++ write_be64 first) (write_be16 (length ms) ++ prefixed ms),
      length-append (s ∷ ss) (write_be64 first),
      length-append (write_be16 (length ms)) (prefixed ms),
      length-write_be64 first,
      length-write_be16 (length ms),
    )

    long : ltb (length d) 20 ≡ false
    long = le→ltb (length d) 20 (omega (arith, whole))

    framed :
        (fs : List FrameSlice) × (frames_from d (length d) first (length ms) 0 20 ≡ some fs)
        × (map (shown d) fs ≡ numbered first 0 ms)
    framed = frames_from-prefixed d (length d) first 0 20 ms [] short behind_count (sym whole)

-- With fuel for every byte of the input that is left, the loop comes to its end.
pack_from-Packs :
    (f : ItchMoldUdpFramer) (input : Bytes) (max_messages max_bytes fuel : ℕ) (s : Packing)
    → AreBytes input
    → max_messages < 65536
    → Packs f input max_messages s
    → length input - s.off < fuel
    → (s₁ : Packing) × (pack_from fuel input max_messages max_bytes s ≡ some s₁)
      × Packs f input max_messages s₁
unfolding pack_from
pack_from-Packs f input max_messages max_bytes zero s bytes small p enough = absurd (omega arith)
pack_from-Packs f input max_messages max_bytes (suc fuel) s bytes small p enough =
    elim (pack_next-Packs f input max_messages max_bytes s bytes small p) [
      | inl e ↦ (s, rw e refl, p)
      | inr (s₁, e, p₁, more) ↦
          let rest =
            pack_from-Packs f input max_messages max_bytes fuel s₁ bytes small p₁
              (omega (arith, more, p₁.within, enough)) in
          (rest.0, rw e rest.1, rest.2)
    ]

-- What a call has packed: the messages `messages`, which are the input up to `consumed`, behind their
-- lengths, and which the datagram is framed into, numbered from the framer's next sequence.
pub record IsFramed (f : ItchMoldUdpFramer) (input : Bytes) (f₁ : ItchMoldUdpFramer) (out : Bytes)
    (consumed : ℕ) : Type 0 where
  pub messages : List Bytes
  pub slices : List FrameSlice
  pub within : consumed ≤ length input
  pub consumed_eq : prefixed messages ≡ take consumed input
  pub next_eq : f₁.next_seq ≡ (f.next_seq + length messages) % u64_mod
  pub framed : frame nasdaq_itch50 out ≡ some slices
  pub content : map (shown out) slices ≡ numbered f.next_seq 0 messages

nothing-IsFramed :
    (f : ItchMoldUdpFramer) (input : Bytes) → f.next_seq < 2 ^ 64 → IsFramed f input f [] 0
unfolding frame prefixed numbered
nothing-IsFramed f input h = record {
  messages = [];
  slices = [];
  within = omega arith;
  consumed_eq = refl;
  next_eq = omega arith;
  framed = refl;
  content = refl;
}

-- The session's ten bytes.
abbrev pub session_bytes : ItchMoldUdpFramer → Bytes
session_bytes f = take 10 (f.session ++ replicate 10 b' ')

pub length-session_bytes : (f : ItchMoldUdpFramer) → length (session_bytes f) ≡ 10
length-session_bytes f =
    length-take 10 (f.session ++ replicate 10 b' ')
      (omega (arith, length-append f.session (replicate 10 b' '), length-replicate {A = ℕ} 10 b' '))

pub finish_out :
    (f : ItchMoldUdpFramer) (input : Bytes) (max_messages : ℕ) (s : Packing)
    (p : Packs f input max_messages s)
    → take 18 s.out ++ write_be16 s.msg_count ++ drop 20 s.out
      ≡ session_bytes f
        ++ write_be64 f.next_seq
        ++ (write_be16 (length p.messages) ++ prefixed p.messages)
unfolding header
finish_out f input max_messages s p =
    ap₂ (λ xs ys. xs ++ ys) (ap₂ (λ xs n. xs ++ write_be16 n) front p.count_eq)
      (ap (drop 20) p.out_eq
        ∙ drop_first 20 (header f) (prefixed p.messages)
            (omega (arith, eighteen, length-append top (0 ∷ 0 ∷ []))))
    ∙ append_assoc top (write_be16 (length p.messages)) (prefixed p.messages)
  where
    top : Bytes
    top = session_bytes f ++ write_be64 f.next_seq

    eighteen : length top ≡ 18
    eighteen = omega (
      arith,
      length-append (session_bytes f) (write_be64 f.next_seq),
      length-session_bytes f,
      length-write_be64 f.next_seq,
    )

    front : take 18 s.out ≡ top
    front =
        ap (take 18) (p.out_eq ∙ append_assoc top (0 ∷ 0 ∷ []) (prefixed p.messages))
        ∙ take_first 18 top _ eighteen

finish-IsFramed :
    (f : ItchMoldUdpFramer) (input : Bytes) (max_messages : ℕ) (s : Packing)
    → f.next_seq < 2 ^ 64
    → max_messages < 65536
    → Packs f input max_messages s
    → IsFramed f input (finish f s).0 (finish f s).1 (finish f s).2
unfolding finish
finish-IsFramed f input max_messages s h small p = elim (Bool-cases (s.msg_count == 0)) [
  | inl empty ↦ rw empty (nothing-IsFramed f input h)
  | inr some_packed ↦
      rw (some_packed, finish_out f input max_messages s p)
        (record {
          messages = p.messages;
          slices = framed.0;
          within = p.within;
          consumed_eq = p.consumed_eq;
          next_eq = ap (λ n. (f.next_seq + n) % u64_mod) p.count_eq;
          framed = framed.1;
          content = framed.2;
        })
]
  where
    d : Bytes
    d =
        session_bytes f
        ++ write_be64 f.next_seq
        ++ (write_be16 (length p.messages) ++ prefixed p.messages)

    framed :
        (fs : List FrameSlice) × (frame nasdaq_itch50 d ≡ some fs)
        × (map (shown d) fs ≡ numbered f.next_seq 0 p.messages)
    framed =
        frame_itch_lem (session_bytes f) f.next_seq p.messages (length-session_bytes f) h
          (omega (arith, p.bounded)) p.short

-- `pack_datagram` reads nothing outside its input and comes to an end. `DatagramFramer::frame` cuts the
-- datagram into the messages that stand, behind their lengths, in the consumed part of the input: each
-- once, in order, numbered from the framer's next sequence, which moves on by their number.
pub frame-pack_datagram :
    (f : ItchMoldUdpFramer) (input : Bytes) (max_messages max_bytes : ℕ)
    → AreBytes input
    → f.next_seq < 2 ^ 64
    → max_messages < 65536
    → (f₁ : ItchMoldUdpFramer) × (out : Bytes) × (consumed : ℕ) × (pack_datagram f input
          max_messages max_bytes
        ≡ some (f₁, out, consumed))
      × IsFramed f input f₁ out consumed
unfolding pack_datagram prefixed
frame-pack_datagram f input max_messages max_bytes bytes h small =
    elim (Bool-cases (ltb (length input) 2)) [
      | inl short ↦ rw short (f, [], 0, refl, nothing-IsFramed f input h)
      | inr long ↦
          rw (long, packed.1)
            (
              (finish f packed.0).0,
              (finish f packed.0).1,
              (finish f packed.0).2,
              refl,
              finish-IsFramed f input max_messages packed.0 h small packed.2,
            )
    ]
  where
    start : Packing
    start = record { out = header f; off = 0; msg_count = 0 }

    start-Packs : Packs f input max_messages start
    start-Packs = record {
      messages = [];
      short = tt;
      out_eq = sym (append-nil (header f));
      consumed_eq = refl;
      within = omega arith;
      count_eq = refl;
      bounded = omega arith;
    }

    packed :
        (s₁ : Packing) × (pack_from (suc (length input)) input max_messages max_bytes start
          ≡ some s₁)
        × Packs f input max_messages s₁
    packed =
        pack_from-Packs f input max_messages max_bytes (suc (length input)) start bytes small
          start-Packs (omega arith)
