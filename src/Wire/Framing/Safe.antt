-- ===== src/Wire/Framing/Safe.antt =====
-- src/wire/framing.cpp: no framing reads or points outside its datagram.
use hft_feed_handler.Common.{
  ℕ, zero, suc, ◌+◌, ◌-◌, ◌≤◌, ◌≡◌, refl, inl, inr, not, Option, some, List, [], ◌∷◌, ◌++◌, ltb,
  leb, ◌==◌, length, get_or, arith, Bool-cases, leb→le, leb-false→lt, ltb-false→le,
}
use hft_feed_handler.Proto.Bytes.{Bytes, slice, read_within}
use hft_feed_handler.Wire.Framing.{
  WireProtocol, nasdaq_itch50, iex_deep, cboe_pitch, FrameSlice, be16, be16_of, be64, be64_from,
  frames_from, frame_itch, frame_deep, line, lines_from, frame,
}

-- Every slice lies in the datagram.
abbrev pub AreInside : Bytes → List FrameSlice → Type 0
AreInside d [] = Unit {0}
AreInside d (f ∷ fs) = (f.data_off + f.len ≤ length d) × AreInside d fs

-- A framing has a result, all of whose slices lie in the datagram.
abbrev pub IsSafe : Bytes → Option (List FrameSlice) → Type 0
IsSafe d o = (fs : List FrameSlice) × (o ≡ some fs) × AreInside d fs

AreInside-append :
    (d : Bytes) (fs gs : List FrameSlice) → AreInside d fs → AreInside d gs → AreInside d (fs ++ gs)
AreInside-append d [] gs h k = k
AreInside-append d (f ∷ fs) gs (lt, h) k = (lt, AreInside-append d fs gs h k)

be16_within :
    (d : Bytes) (off : ℕ) → off + 2 ≤ length d → be16 d off ≡ some (be16_of (slice d off 2))
unfolding be16
be16_within d off h = rw (read_within d off 2 h) refl

be64_within :
    (d : Bytes) (off : ℕ) → off + 8 ≤ length d → be64 d off ≡ some (be64_from 0 (slice d off 8))
unfolding be64
be64_within d off h = rw (read_within d off 8 h) refl

frames_from-IsSafe :
    (d : Bytes) (stop first_seq n i off : ℕ)
    → stop ≤ length d
    → IsSafe d (frames_from d stop first_seq n i off)
unfolding frames_from
frames_from-IsSafe d stop first_seq zero i off h = ([], refl, tt)
frames_from-IsSafe d stop first_seq (suc n) i off h =
    let rest = frames_from-IsSafe d stop first_seq n (i + 1) (off + 2 + mlen) h in
    elim (Bool-cases (leb (off + 2) stop)) [
      | inr over ↦ rw over ([], refl, tt)
      | inl fits ↦
          let within : off + 2 ≤ length d = omega (arith, leb→le (off + 2) stop fits) in
          elim (Bool-cases (ltb stop (off + 2 + mlen))) [
            | inl cut ↦ rw (fits, be16_within d off within, cut) ([], refl, tt)
            | inr whole ↦
                rw (fits, be16_within d off within, whole, rest.1)
                  (_, refl, (omega (arith, ltb-false→le stop (off + 2 + mlen) whole), rest.2))
          ]
    ]
  where
    mlen : ℕ
    mlen = be16_of (slice d off 2)

frame_itch-IsSafe : (d : Bytes) → IsSafe d (frame_itch d)
unfolding frame_itch
frame_itch-IsSafe d = elim (Bool-cases (ltb (length d) 20)) [
  | inl short ↦ rw short ([], refl, tt)
  | inr long ↦
      let h : 20 ≤ length d = ltb-false→le (length d) 20 long in
      rw (long, be64_within d 10 (omega arith), be16_within d 18 (omega arith))
        (frames_from-IsSafe d (length d) _ _ 0 20 (omega arith))
]

frame_deep-IsSafe : (d : Bytes) → IsSafe d (frame_deep d)
unfolding frame_deep
frame_deep-IsSafe d = elim (Bool-cases (ltb (length d) 36)) [
  | inl short ↦ rw short ([], refl, tt)
  | inr long ↦
      let h : 36 ≤ length d = ltb-false→le (length d) 36 long in
      let payload_len = be16_of (slice d 8 2) in
      elim (Bool-cases (ltb (length d) (36 + payload_len))) [
        | inl cut ↦
            rw
              (
                long,
                be16_within d 8 (omega arith),
                be16_within d 10 (omega arith),
                be64_within d 20 (omega arith),
                cut,
              )
              ([], refl, tt)
        | inr whole ↦
            rw
              (
                long,
                be16_within d 8 (omega arith),
                be16_within d 10 (omega arith),
                be64_within d 20 (omega arith),
                whole,
              )
              (frames_from-IsSafe d (36 + payload_len) _ _ 0 36
                (omega (arith, ltb-false→le (length d) (36 + payload_len) whole)))
      ]
]

line-IsSafe : (d : Bytes) (start i : ℕ) → i ≤ length d → IsSafe d (line d start i)
unfolding line
line-IsSafe d start i h = elim (Bool-cases (leb i start)) [
  | inl empty ↦ rw empty ([], refl, tt)
  | inr full ↦
      let lt = leb-false→lt i start full in
      elim (Bool-cases (leb 8 (i - start))) [
        | inl long ↦
            rw (full, long, read_within d start 8 (omega (arith, leb→le 8 (i - start) long)))
              (_, refl, (omega (arith, lt), tt))
        | inr short ↦ rw (full, short) (_, refl, (omega (arith, lt), tt))
      ]
]

lines_from-IsSafe :
    (d : Bytes) (n start i : ℕ) → i + n ≡ length d → IsSafe d (lines_from d n start i)
unfolding lines_from
lines_from-IsSafe d zero start i h = line-IsSafe d start i (omega arith)
lines_from-IsSafe d (suc n) start i h =
    let same = lines_from-IsSafe d n start (i + 1) (omega arith) in
    let called = line-IsSafe d start i (omega arith) in
    let next = lines_from-IsSafe d n (i + 1) (i + 1) (omega arith) in
    elim (Bool-cases (not (get_or (slice d i 1) 0 0 == 10))) [
      | inl other ↦ rw (read_within d i 1 (omega arith), other) same
      | inr newline ↦
          rw (read_within d i 1 (omega arith), newline, called.1, next.1)
            (_, refl, AreInside-append d called.0 next.0 called.2 next.2)
    ]

-- Whatever the bytes of a datagram, `frame` reads nothing outside it, comes to an end, and calls
-- `on_frame` with slices that lie in it.
pub frame-IsSafe : (protocol : WireProtocol) (d : Bytes) → IsSafe d (frame protocol d)
unfolding frame
frame-IsSafe protocol [] = ([], refl, tt)
frame-IsSafe nasdaq_itch50 (b ∷ bs) = frame_itch-IsSafe (b ∷ bs)
frame-IsSafe iex_deep (b ∷ bs) = frame_deep-IsSafe (b ∷ bs)
frame-IsSafe cboe_pitch (b ∷ bs) = lines_from-IsSafe (b ∷ bs) (length (b ∷ bs)) 0 0 (omega arith)
