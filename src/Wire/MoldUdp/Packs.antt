-- ===== src/Wire/MoldUdp/Packs.antt =====
-- include/mf/wire/itch_moldudp.hpp: what the packing loop has put into the datagram.
use hft_feed_handler.Common.{
  ℕ, ◌+◌, ◌-◌, ◌≤◌, ◌<◌, ◌≡◌, refl, sym, ap, ap₂, ◌∙◌, subst, inl, inr, ◌⊎◌, Bool, true, false,
  ◌&&◌, ◌||◌, none, some, List, [], ◌∷◌, ◌++◌, ltb, leb, ◌==◌, length, take, drop, arith,
  Bool-cases, drop-drop, length-append, take-drop,
}
use mathlib.Core.List.{append_assoc, append-nil}
use hft_feed_handler.Proto.Bytes.{length-slice, slice-AreBytes, Bytes, AreBytes, slice, read_within}
use hft_feed_handler.Wire.Framing.{be16, be16_of}
use hft_feed_handler.Wire.Framing.Prefixed.{prefixed, AreShort}
use hft_feed_handler.Wire.MoldUdp.{
  ItchMoldUdpFramer, write_be16, Packing, header, append_message, pack_next,
}

-- What the packing has done: the messages in the datagram are the input up to the offset.
pub record Packs (f : ItchMoldUdpFramer) (input : Bytes) (max_messages : ℕ) (s : Packing)
    : Type 0 where
  pub messages : List Bytes
  pub short : AreShort messages
  pub out_eq : s.out ≡ header f ++ prefixed messages
  pub consumed_eq : prefixed messages ≡ take s.off input
  pub within : s.off ≤ length input
  pub count_eq : s.msg_count ≡ length messages
  pub bounded : length messages ≤ max_messages

prefixed-append :
    (ms : List Bytes) (m : Bytes)
    → prefixed (ms ++ m ∷ []) ≡ prefixed ms ++ (write_be16 (length m) ++ m)
unfolding prefixed write_be16
prefixed-append [] m = ap (λ xs. write_be16 (length m) ++ xs) (append-nil m)
prefixed-append (x ∷ ms) m =
    ap (λ xs. write_be16 (length x) ++ (x ++ xs)) (prefixed-append ms m)
    ∙ ap (λ xs. write_be16 (length x) ++ xs) (sym (append_assoc x (prefixed ms) _))

AreShort-append :
    (ms : List Bytes) (m : Bytes) → AreShort ms → length m < 65536 → AreShort (ms ++ m ∷ [])
AreShort-append [] m short lt = (lt, tt)
AreShort-append (x ∷ ms) m (h, short) lt = (h, AreShort-append ms m short lt)

-- Two bytes are the number that they spell, written again.
write_be16-be16_of : (a b : ℕ) → a < 256 → b < 256 → write_be16 (be16_of (a ∷ b ∷ [])) ≡ a ∷ b ∷ []
unfolding write_be16 be16_of
write_be16-be16_of a b ha hb = ap₂ (λ x y. x ∷ y ∷ []) (omega arith) (omega arith)

-- The length that is read is the length that is written again.
write_be16_again :
    (p : Bytes) → AreBytes p → length p ≡ 2 → (be16_of p < 65536) × (write_be16 (be16_of p) ≡ p)
unfolding be16_of
write_be16_again [] h e = absurd (omega arith)
write_be16_again (a ∷ []) h e = absurd (omega arith)
write_be16_again (a ∷ b ∷ []) (ha, (hb, h)) e = (omega arith, write_be16-be16_of a b ha hb)
write_be16_again (a ∷ b ∷ c ∷ p) h e = absurd (omega arith)

-- The length that stands at an offset.
abbrev pub prefix_at : Bytes → ℕ → ℕ
prefix_at input off = be16_of (slice input off 2)

append_message-Packs :
    (f : ItchMoldUdpFramer) (input : Bytes) (max_messages : ℕ) (s : Packing)
    → AreBytes input
    → max_messages < 65536
    → Packs f input max_messages s
    → s.off + 2 + prefix_at input s.off ≤ length input
    → s.msg_count < max_messages
    → Packs f input max_messages
        (append_message s (slice input (s.off + 2) (prefix_at input s.off)))
unfolding append_message
append_message-Packs f input max_messages s bytes small p fits fewer = record {
  messages = p.messages ++ m ∷ [];
  short = AreShort-append p.messages m p.short (subst (λ k. k < 65536) (sym length-m) again.0);
  out_eq =
      ap (λ xs. xs ++ write_be16 (length m) ++ m) p.out_eq
      ∙ append_assoc (header f ++ prefixed p.messages) (write_be16 (length m)) m
      ∙ append_assoc (header f) (prefixed p.messages) (write_be16 (length m) ++ m)
      ∙ ap (λ xs. header f ++ xs) (sym (prefixed-append p.messages m));
  consumed_eq =
      prefixed-append p.messages m
      ∙ ap₂ (λ xs ys. xs ++ ys) p.consumed_eq new_bytes
      ∙ sym (take-drop s.off (2 + length m) input);
  within = omega (arith, length-m);
  count_eq = omega (arith, p.count_eq, p.bounded, length-append p.messages (m ∷ []));
  bounded = omega (arith, p.count_eq, length-append p.messages (m ∷ []));
}
  where
    m : Bytes
    m = slice input (s.off + 2) (prefix_at input s.off)

    length-m : length m ≡ prefix_at input s.off
    length-m = length-slice input (s.off + 2) (prefix_at input s.off) fits

    again :
        (prefix_at input s.off < 65536) × (write_be16 (prefix_at input s.off) ≡ slice input s.off 2)
    again =
        write_be16_again (slice input s.off 2) (slice-AreBytes input s.off 2 bytes)
          (length-slice input s.off 2 (omega arith))

    new_bytes : write_be16 (length m) ++ m ≡ take (2 + length m) (drop s.off input)
    new_bytes =
        ap₂ (λ xs ys. xs ++ ys) (ap write_be16 length-m ∙ again.1)
          (ap (λ k. slice input (s.off + 2) k) (sym length-m)
            ∙ ap (take (length m)) (sym (drop-drop 2 s.off input)))
        ∙ sym (take-drop 2 (length m) (drop s.off input))

-- A round ends the loop, or appends the message that stands at the offset.
pub pack_next-Packs :
    (f : ItchMoldUdpFramer) (input : Bytes) (max_messages max_bytes : ℕ) (s : Packing)
    → AreBytes input
    → max_messages < 65536
    → Packs f input max_messages s
    → (pack_next input max_messages max_bytes s ≡ some none)
      ⊎ ((s₁ : Packing) × (pack_next input max_messages max_bytes s ≡ some (some s₁))
          × Packs f input max_messages s₁
          × (s.off < s₁.off))
unfolding pack_next be16 append_message
pack_next-Packs f input max_messages max_bytes s bytes small p =
    elim (Bool-cases (leb (s.off + 2) (length input) && ltb s.msg_count max_messages)) [
      | inr over ↦ inl (rw over refl)
      | inl goes_on ↦ elim (Bool-cases (ends (prefix_at input s.off))) [
        | inl e ↦ inl (rw (goes_on, read_within input s.off 2 (room goes_on), e) refl)
        | inr e ↦ inr (
          append_message s m,
          rw
              (
                goes_on,
                read_within input s.off 2 (room goes_on),
                e,
                read_within input (s.off + 2) (prefix_at input s.off) (fits e),
              )
              refl,
          append_message-Packs f input max_messages s bytes small p (fits e) (fewer goes_on),
          omega arith,
        )
      ]
    ]
  where
    m : Bytes
    m = slice input (s.off + 2) (prefix_at input s.off)

    ends : ℕ → Bool
    ends msg_len =
        msg_len == 0
        || ltb (length input) (s.off + 2 + msg_len)
        || ltb max_bytes (20 + 2 + (length s.out - 20) + 2 + msg_len)

    room :
        (leb (s.off + 2) (length input) && ltb s.msg_count max_messages) ≡ true
        → s.off + 2 ≤ length input
    room h = ground arith

    fewer :
        (leb (s.off + 2) (length input) && ltb s.msg_count max_messages) ≡ true
        → s.msg_count < max_messages
    fewer h = ground arith

    fits : ends (prefix_at input s.off) ≡ false → s.off + 2 + prefix_at input s.off ≤ length input
    fits h = ground arith
