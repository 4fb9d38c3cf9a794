-- ===== src/Proto/Itch/Same.antt =====
-- src/proto/nasdaq/itch50_parser.cpp: the hot path and `parse_message` agree.
use hft_feed_handler.Common.{
  ℕ, ◌+◌, ◌≤◌, ◌<◌, ◌≡◌, refl, sym, ap, ◌∙◌, inl, inr, Bool, true, false, [], ◌∷◌, ltb, ◌==◌,
  length, get_or, Bool-cases, ==_iff, arith, ltb-false→le, zero, suc, drop, take, drop-drop,
  HasResult, subst,
}
use hft_feed_handler.Core.Types.{BookEvent}
use hft_feed_handler.Proto.Bytes.{
  length-slice, Bytes, slice, load_le, bswap, read_be, read_within, slice-slice,
}
use hft_feed_handler.Proto.Itch.Messages.{
  add_order_message, order_executed_message, order_cancel_message, order_delete_message,
}
use hft_feed_handler.Proto.Itch.{
  ParseStats, parse_message, sized, switch, case_for, on_add, on_executed, on_cancel, on_delete,
}
use hft_feed_handler.Proto.Itch.Hot.{
  hot_add, hot_execute, hot_cancel, hot_delete, hot_switch, parse_hot_message_simd, require_size,
  load_block,
}

-- A big-endian field of a struct, read at its place in the payload.
field_lem :
    (payload : Bytes) (k m n : ℕ)
    → m + n ≤ k
    → 1 + k ≤ length payload
    → read_be (slice (slice payload 1 k) m n) ≡ bswap n (load_le (slice payload (1 + m) n))
unfolding read_be
field_lem payload k m n h fits =
    ap read_be (slice-slice payload 1 k m n h)
    ∙ ap (λ l. bswap l (load_le (slice payload (1 + m) n)))
        (length-slice payload (1 + m) n (omega arith))

get_or-take : (n i : ℕ) (xs : Bytes) → i < n → get_or (take n xs) i 0 ≡ get_or xs i 0
get_or-take zero i xs h = absurd (omega arith)
get_or-take (suc n) i [] h = refl
get_or-take (suc n) zero (x ∷ xs) h = refl
get_or-take (suc n) (suc i) (x ∷ xs) h = get_or-take n i xs (omega arith)

get_or-drop : (n : ℕ) (xs : Bytes) → get_or (drop n xs) 0 0 ≡ get_or xs n 0
get_or-drop zero xs = refl
get_or-drop (suc n) [] = refl
get_or-drop (suc n) (x ∷ xs) = get_or-drop n xs

-- A single byte of a struct, read at its place in the payload.
char_lem :
    (payload : Bytes) (k i : ℕ)
    → i < k
    → get_or (slice payload 1 k) i 0 ≡ get_or (slice payload (1 + i) 1) 0 0
char_lem payload k i h =
    get_or-take k i (drop 1 payload) h
    ∙ sym (get_or-drop i (drop 1 payload))
    ∙ ap (λ xs. get_or xs 0 0) (drop-drop i 1 payload)
    ∙ sym (get_or-take 1 0 (drop (1 + i) payload) (omega arith))

block_read :
    (avx2 : Bool) (payload : Bytes) → 36 ≤ length payload → HasResult (load_block avx2 payload)
block_read true payload h = (_, read_within payload 11 25 (omega arith))
block_read false payload h = ([], refl)

same_add :
    (avx2 : Bool) (payload : Bytes) (stats : ParseStats) (ev : BookEvent)
    → require_size payload stats 36 (hot_add avx2 payload stats ev)
      ≡ sized payload stats 35 (on_add ev)
unfolding sized on_add hot_add add_order_message
same_add avx2 payload stats ev = elim (Bool-cases (ltb (length payload) 36)) [
  | inl short ↦ rw short refl
  | inr long ↦
      let h : 36 ≤ length payload = ltb-false→le (length payload) 36 long in
      rw
        (
          long,
          (block_read avx2 payload h).1,
          read_within payload 5 6 (omega arith),
          read_within payload 11 8 (omega arith),
          read_within payload 19 1 (omega arith),
          read_within payload 20 4 (omega arith),
          read_within payload 24 8 (omega arith),
          read_within payload 32 4 (omega arith),
          read_within payload 1 35 (omega arith),
          slice-slice payload 1 35 4 6 (omega arith),
          slice-slice payload 1 35 23 8 (omega arith),
          field_lem payload 35 10 8 (omega arith) (omega arith),
          field_lem payload 35 19 4 (omega arith) (omega arith),
          field_lem payload 35 31 4 (omega arith) (omega arith),
          char_lem payload 35 18 (omega arith),
        )
        refl
]

same_execute :
    (payload : Bytes) (stats : ParseStats) (ev : BookEvent)
    → require_size payload stats 31 (hot_execute payload stats ev)
      ≡ sized payload stats 30 (on_executed ev)
unfolding sized on_executed hot_execute order_executed_message
same_execute payload stats ev = elim (Bool-cases (ltb (length payload) 31)) [
  | inl short ↦ rw short refl
  | inr long ↦
      let h : 31 ≤ length payload = ltb-false→le (length payload) 31 long in
      rw
        (
          long,
          read_within payload 5 6 (omega arith),
          read_within payload 11 8 (omega arith),
          read_within payload 19 4 (omega arith),
          read_within payload 23 8 (omega arith),
          read_within payload 1 30 (omega arith),
          slice-slice payload 1 30 4 6 (omega arith),
          field_lem payload 30 10 8 (omega arith) (omega arith),
          field_lem payload 30 18 4 (omega arith) (omega arith),
          field_lem payload 30 22 8 (omega arith) (omega arith),
        )
        refl
]

same_cancel :
    (payload : Bytes) (stats : ParseStats) (ev : BookEvent)
    → require_size payload stats 23 (hot_cancel payload stats ev)
      ≡ sized payload stats 22 (on_cancel ev)
unfolding sized on_cancel hot_cancel order_cancel_message
same_cancel payload stats ev = elim (Bool-cases (ltb (length payload) 23)) [
  | inl short ↦ rw short refl
  | inr long ↦
      let h : 23 ≤ length payload = ltb-false→le (length payload) 23 long in
      rw
        (
          long,
          read_within payload 5 6 (omega arith),
          read_within payload 11 8 (omega arith),
          read_within payload 19 4 (omega arith),
          read_within payload 1 22 (omega arith),
          slice-slice payload 1 22 4 6 (omega arith),
          field_lem payload 22 10 8 (omega arith) (omega arith),
          field_lem payload 22 18 4 (omega arith) (omega arith),
        )
        refl
]

same_delete :
    (payload : Bytes) (stats : ParseStats) (ev : BookEvent)
    → require_size payload stats 19 (hot_delete payload stats ev)
      ≡ sized payload stats 18 (on_delete ev)
unfolding sized on_delete hot_delete order_delete_message
same_delete payload stats ev = elim (Bool-cases (ltb (length payload) 19)) [
  | inl short ↦ rw short refl
  | inr long ↦
      let h : 19 ≤ length payload = ltb-false→le (length payload) 19 long in
      rw
        (
          long,
          read_within payload 5 6 (omega arith),
          read_within payload 11 8 (omega arith),
          read_within payload 1 18 (omega arith),
          slice-slice payload 1 18 4 6 (omega arith),
          field_lem payload 18 10 8 (omega arith) (omega arith),
        )
        refl
]

is_type : (type c : ℕ) → (type == c) ≡ true → type ≡ c
is_type type c e = (==_iff type c).0 e

-- On every payload, the hot path gives the event and the statistics that `parse_message` gives, with
-- the block load of AVX2 or without.
pub parse_hot_message_simd-parse_message :
    (avx2 : Bool) (payload : Bytes) (sequence ingest_ts_ns : ℕ) (stats : ParseStats)
    → parse_hot_message_simd avx2 payload sequence ingest_ts_ns stats
      ≡ parse_message payload sequence ingest_ts_ns stats
unfolding parse_hot_message_simd parse_message hot_switch switch case_for
parse_hot_message_simd-parse_message avx2 [] sequence ingest_ts_ns stats = refl
parse_hot_message_simd-parse_message avx2 (type ∷ rest) sequence ingest_ts_ns stats =
    elim (Bool-cases (type == b'A')) [
      | inl e ↦ subst Goal (sym (is_type type b'A' e)) (same_add avx2 (b'A' ∷ rest) _ _)
      | inr not_a ↦ elim (Bool-cases (type == b'E')) [
        | inl e ↦ subst Goal (sym (is_type type b'E' e)) (same_execute (b'E' ∷ rest) _ _)
        | inr not_e ↦ elim (Bool-cases (type == b'X')) [
          | inl e ↦ subst Goal (sym (is_type type b'X' e)) (same_cancel (b'X' ∷ rest) _ _)
          | inr not_x ↦ elim (Bool-cases (type == b'D')) [
            | inl e ↦ subst Goal (sym (is_type type b'D' e)) (same_delete (b'D' ∷ rest) _ _)
            | inr not_d ↦ rw (not_a, not_e, not_x, not_d) refl
          ]
        ]
      ]
    ]
  where
    Goal : ℕ → Type 0
    Goal c =
        parse_hot_message_simd avx2 (c ∷ rest) sequence ingest_ts_ns stats
        ≡ parse_message (c ∷ rest) sequence ingest_ts_ns stats
