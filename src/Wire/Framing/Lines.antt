-- ===== src/Wire/Framing/Lines.antt =====
-- src/wire/framing.cpp: lines that end in a newline are framed one by one.
use hft_feed_handler.Common.{
  ℕ, zero, suc, ◌+◌, ◌-◌, ◌≤◌, ◌<◌, ◌≡◌, ◌≢◌, refl, sym, ap, ap₂, ◌∙◌, inl, inr, true, false, not,
  some, List, [], ◌∷◌, ◌++◌, leb, ◌==◌, if◌then◌else◌, length, take, drop, map, arith, Bool-cases,
  leb→le, le→leb, length-append, take-drop-take,
}
use hft_feed_handler.Proto.Bytes.{Bytes, slice, read, read_within}
use hft_feed_handler.Wire.Framing.{cboe_pitch, FrameSlice, parse_ascii_u64, line, lines_from, frame}
use hft_feed_handler.Wire.Framing.Prefixed.{shown, slice_first, drop_more, room}

-- Lines with a newline behind each.
unfoldable pub joined : List Bytes → Bytes
joined [] = []
joined (l ∷ ls) = l ++ 10 ∷ joined ls

abbrev pub HasNoNewline : Bytes → Type 0
HasNoNewline [] = Unit {0}
HasNoNewline (b ∷ bs) = (b ≢ 10) × HasNoNewline bs

-- Lines that are not empty and hold no newline.
abbrev pub AreLines : List Bytes → Type 0
AreLines [] = Unit {0}
AreLines (l ∷ ls) = (0 < length l) × HasNoNewline l × AreLines ls

-- A line behind the number in its first eight bytes, 0 if it is shorter.
abbrev pub numbered_line : Bytes → ℕ × Bytes
numbered_line l = (if leb 8 (length l) then parse_ascii_u64 (take 8 l) else 0, l)

read_byte : (d : Bytes) (i b : ℕ) (rest : Bytes) → drop i d ≡ b ∷ rest → read d i 1 ≡ some (b ∷ [])
read_byte d i b rest e =
    read_within d i 1 (room d i (b ∷ []) rest e (omega arith))
    ∙ ap some (slice_first d i 1 (b ∷ []) rest e refl)

-- The loop passes bytes that are no newline.
skip_lem :
    (d : Bytes) (total n start i : ℕ) (xs post : Bytes)
    → drop i d ≡ xs ++ post
    → HasNoNewline xs
    → total ≡ length xs + n
    → lines_from d total start i ≡ lines_from d n start (i + length xs)
unfolding lines_from
skip_lem d total n start i [] post e plain h =
    ap₂ (λ k j. lines_from d k start j) (omega arith) (omega arith)
skip_lem d zero n start i (x ∷ xs) post e plain h = absurd (omega arith)
skip_lem d (suc total) n start i (x ∷ xs) post e (other, plain) h =
    rw (read_byte d i x (xs ++ post) e, is_other)
      (skip_lem d total n start (i + 1) xs post (drop_more d i 1 (x ∷ []) (xs ++ post) e refl) plain
          (omega arith)
        ∙ ap (λ j. lines_from d n start j) (omega arith))
  where
    is_other : not (x == 10) ≡ true
    is_other = ground arith

line_lem :
    (d : Bytes) (start : ℕ) (l post : Bytes)
    → drop start d ≡ l ++ post
    → 0 < length l
    → (f : FrameSlice) × (line d start (start + length l) ≡ some (f ∷ []))
      × (shown d f ≡ numbered_line l)
unfolding line
line_lem d start l post e pos = elim (Bool-cases (leb 8 (length l))) [
  | inl long ↦ (
    record {
      data_off = start;
      len = start + length l - start;
      sequence = parse_ascii_u64 (take 8 l);
    },
    rw
        (
          full,
          same,
          long,
          read_within d start 8 (omega (arith, fits, leb→le 8 (length l) long)),
          first_eight (leb→le 8 (length l) long),
        )
        refl,
    rw (same, content, long) refl,
  )
  | inr short ↦ (
    record { data_off = start; len = start + length l - start; sequence = 0 },
    rw (full, same, short) refl,
    rw (same, content, short) refl,
  )
]
  where
    full : leb (start + length l) start ≡ false
    full = ground arith

    same : start + length l - start ≡ length l
    same = omega arith

    fits : start + length l ≤ length d
    fits = room d start l post e pos

    content : slice d start (length l) ≡ l
    content = slice_first d start (length l) l post e refl

    first_eight : 8 ≤ length l → slice d start 8 ≡ take 8 l
    first_eight h = sym (take-drop-take 0 8 (length l) (drop start d) h) ∙ ap (take 8) content

nothing_left : (d : Bytes) (start : ℕ) → lines_from d 0 start start ≡ some []
unfolding lines_from line
nothing_left d start = rw (le→leb start start (omega arith)) refl

lines_from-joined :
    (d : Bytes) (n start : ℕ) (ls : List Bytes)
    → drop start d ≡ joined ls
    → n ≡ length (joined ls)
    → AreLines ls
    → (fs : List FrameSlice) × (lines_from d n start start ≡ some fs)
      × (map (shown d) fs ≡ map numbered_line ls)
unfolding lines_from joined
lines_from-joined d zero start [] e h lines = ([], nothing_left d start, refl)
lines_from-joined d (suc n) start [] e h lines = absurd (omega arith)
lines_from-joined d n start (l ∷ ls) e h (pos, plain, lines) =
    let rest =
      lines_from-joined d (length (joined ls)) (start + length l + 1) ls behind_newline refl
        lines in
    let here = line_lem d start l (10 ∷ joined ls) e pos in
    (
      here.0 ∷ rest.0,
      skip_lem d n (suc (length (joined ls))) start start l (10 ∷ joined ls) e plain total
          ∙ rw (read_byte d (start + length l) 10 (joined ls) behind, here.1, rest.1) refl,
      ap₂ (λ x xs. x ∷ xs) here.2 rest.2,
    )
  where
    behind : drop (start + length l) d ≡ 10 ∷ joined ls
    behind = drop_more d start (length l) l (10 ∷ joined ls) e refl

    behind_newline : drop (start + length l + 1) d ≡ joined ls
    behind_newline = drop_more d (start + length l) 1 (10 ∷ []) (joined ls) behind refl

    total : n ≡ length l + suc (length (joined ls))
    total = omega (arith, length-append l (10 ∷ joined ls))

-- A datagram of lines that are not empty, each with a newline behind it, is framed into these lines, in
-- order. A line of eight bytes or more has the number that its first eight spell, a shorter one has 0.
pub frame-joined :
    (ls : List Bytes)
    → AreLines ls
    → (fs : List FrameSlice) × (frame cboe_pitch (joined ls) ≡ some fs)
      × (map (shown (joined ls)) fs ≡ map numbered_line ls)
unfolding frame
frame-joined ls lines =
    rw (whole (joined ls)) (lines_from-joined (joined ls) (length (joined ls)) 0 ls refl refl lines)
  where
    whole : (d : Bytes) → frame cboe_pitch d ≡ lines_from d (length d) 0 0
    whole [] = sym (nothing_left [] 0)
    whole (b ∷ bs) = refl
