-- ===== src/Wire/Framing/Prefixed.antt =====
-- src/wire/framing.cpp: the loop over length-prefixed messages gives back the messages.
use hft_feed_handler.Common.{
  ℕ, ◌+◌, ◌%◌, ◌≤◌, ◌<◌, ◌≡◌, refl, sym, ap, ◌∙◌, some, List, [], ◌∷◌, ◌++◌, ltb, leb, length, take,
  drop, map, arith, u64_mod, le→ltb, le→leb, drop-drop, length-drop, take_first, drop_first,
  length-append, true, false, ap₂,
}
use mathlib.Core.List.{append_assoc}
use hft_feed_handler.Proto.Bytes.{Bytes, slice, read_within}
use hft_feed_handler.Wire.Framing.{FrameSlice, be16, be16_of, frames_from}
use hft_feed_handler.Wire.MoldUdp.{write_be16}

-- Messages behind their lengths.
unfoldable pub prefixed : List Bytes → Bytes
unfolding write_be16
prefixed [] = []
prefixed (m ∷ ms) = write_be16 (length m) ++ (m ++ prefixed ms)

-- The messages with their numbers, from `i` on.
unfoldable pub numbered : ℕ → ℕ → List Bytes → List (ℕ × Bytes)
numbered first i [] = []
numbered first i (m ∷ ms) = ((first + i) % u64_mod, m) ∷ numbered first (i + 1) ms

-- What a slice shows of a datagram.
abbrev pub shown : Bytes → FrameSlice → ℕ × Bytes
shown datagram f = (f.sequence, slice datagram f.data_off f.len)

abbrev pub AreShort : List Bytes → Type 0
AreShort [] = Unit {0}
AreShort (m ∷ ms) = (length m < 65536) × AreShort ms

be16-write_be16 : (v : ℕ) → v < 65536 → be16_of (write_be16 v) ≡ v
unfolding be16_of write_be16
be16-write_be16 v h = omega arith

-- What stands behind an offset, and so many bytes further.
pub drop_more :
    (d : Bytes) (off n : ℕ) (xs ys : Bytes)
    → drop off d ≡ xs ++ ys
    → length xs ≡ n
    → drop (off + n) d ≡ ys
drop_more d off n xs ys e h = sym (drop-drop n off d) ∙ ap (drop n) e ∙ drop_first n xs ys h

pub slice_first :
    (d : Bytes) (off n : ℕ) (xs ys : Bytes)
    → drop off d ≡ xs ++ ys
    → length xs ≡ n
    → slice d off n ≡ xs
slice_first d off n xs ys e h = ap (take n) e ∙ take_first n xs ys h

-- There is as much behind an offset as the datagram is longer.
pub room :
    (d : Bytes) (off : ℕ) (xs ys : Bytes)
    → drop off d ≡ xs ++ ys
    → 0 < length xs
    → off + length xs ≤ length d
room d off xs ys e h = omega (arith, length-drop off d, ap length e, length-append xs ys)

pub be16_at :
    (d : Bytes) (off v : ℕ) (rest : Bytes)
    → v < 65536
    → drop off d ≡ write_be16 v ++ rest
    → be16 d off ≡ some v
unfolding be16 be16_of write_be16
be16_at d off v rest h e =
    rw
      (
        read_within d off 2 (room d off (write_be16 v) rest e (omega arith)),
        slice_first d off 2 (write_be16 v) rest e refl,
      )
      (ap some (be16-write_be16 v h))

-- The loop, at an offset behind which the messages stand up to `stop`, gives one slice for each of them,
-- numbered from `i` on.
pub frames_from-prefixed :
    (d : Bytes) (stop first i off : ℕ) (ms : List Bytes) (post : Bytes)
    → AreShort ms
    → drop off d ≡ prefixed ms ++ post
    → off + length (prefixed ms) ≡ stop
    → (fs : List FrameSlice) × (frames_from d stop first (length ms) i off ≡ some fs)
      × (map (shown d) fs ≡ numbered first i ms)
unfolding frames_from prefixed numbered write_be16
frames_from-prefixed d stop first i off [] post short e h = ([], refl, refl)
frames_from-prefixed d stop first i off (m ∷ ms) post (lt, short) e h =
    let rest =
      frames_from-prefixed d stop first (i + 1) (off + 2 + length m) ms post short behind end in
    (
      slice_here ∷ rest.0,
      rw (fits, be16_at d off (length m) _ lt e_assoc, inside, rest.1) refl,
      ap₂ (λ x xs. x ∷ xs) (ap (λ bs. ((first + i) % u64_mod, bs)) content) rest.2,
    )
  where
    slice_here : FrameSlice
    slice_here = record { data_off = off + 2; len = length m; sequence = (first + i) % u64_mod }

    e_assoc : drop off d ≡ write_be16 (length m) ++ ((m ++ prefixed ms) ++ post)
    e_assoc = e

    tail_assoc : m ++ prefixed ms ++ post ≡ m ++ (prefixed ms ++ post)
    tail_assoc = append_assoc m (prefixed ms) post

    behind_length : drop (off + 2) d ≡ m ++ (prefixed ms ++ post)
    behind_length = drop_more d off 2 (write_be16 (length m)) _ e_assoc refl ∙ tail_assoc

    content : slice d (off + 2) (length m) ≡ m
    content = slice_first d (off + 2) (length m) m _ behind_length refl

    behind : drop (off + 2 + length m) d ≡ prefixed ms ++ post
    behind = drop_more d (off + 2) (length m) m _ behind_length refl

    whole : length (prefixed (m ∷ ms)) ≡ 2 + (length m + length (prefixed ms))
    whole = omega (arith, length-append m (prefixed ms))

    end : off + 2 + length m + length (prefixed ms) ≡ stop
    end = omega (arith, whole)

    fits : leb (off + 2) stop ≡ true
    fits = le→leb (off + 2) stop (omega (arith, end))

    inside : ltb stop (off + 2 + length m) ≡ false
    inside = le→ltb stop (off + 2 + length m) (omega (arith, end))
