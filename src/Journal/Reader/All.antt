-- ===== src/Journal/Reader/All.antt =====
-- src/journal/journal_reader.cpp: what a journal gives whose bytes may be damaged and whose end may be
-- torn off.
use hft_feed_handler.Common.{
  ℕ, suc, zero, ◌+◌, ◌^◌, ◌≤◌, ◌<◌, ◌≡◌, refl, ap, ◌∙◌, inl, inr, true, false, Bool-cases, Option,
  none, some, List, [], ◌∷◌, ◌++◌, leb, ◌==◌, if◌then◌else◌, length, drop, arith, length-drop,
  length-append, ◌>>=◌,
}
use mathlib.Core.List.{append_assoc}
use hft_feed_handler.Proto.Bytes.{Bytes}
use hft_feed_handler.Journal.Format.{Layout, record_header_size}
use hft_feed_handler.Journal.Reader.{
  JournalReader, Delivery, set_error, unexpected_eof, next_from, next, read_all,
}
use hft_feed_handler.Journal.Reader.Records.{
  Stored, stored_bytes, Fits, is_intact, after_delivery, after_failure, delivery_of,
  next_from_round, left, room, length-stored,
}

abbrev pub AllFit : ℕ → List Stored → Type 0
AllFit size [] = Unit {0}
AllFit size (s ∷ ss) = Fits size s × AllFit size ss

unfoldable pub all_bytes : ℕ → List Stored → Bytes
all_bytes size [] = []
all_bytes size (s ∷ ss) = stored_bytes size s ++ all_bytes size ss

module _ {E : Type 0} (l : Layout E) where
  abbrev pub whole : ℕ
  whole = record_header_size + l.size

  -- What a client is given: the intact records.
  abbrev pub deliveries : List Stored → List (Delivery E)
  deliveries [] = []
  deliveries (s ∷ ss) = if is_intact s then delivery_of l s ∷ deliveries ss else deliveries ss

  abbrev pub after_record : JournalReader → Stored → JournalReader
  after_record r s = if is_intact s then after_delivery whole r else after_failure whole r

  abbrev pub after_records : JournalReader → List Stored → JournalReader
  after_records r [] = r
  after_records r (s ∷ ss) = after_records (after_record r s) ss

  -- A rest that is too short for a record is an error.
  abbrev pub after_end : JournalReader → Bytes → JournalReader
  after_end r [] = r
  after_end r (b ∷ tail) = record r { error = some (unexpected_eof, r.off) }

  -- The loop with `f` rounds left in the call of `next` that it is in.
  pub run : ℕ → ℕ → Bytes → JournalReader → Option (JournalReader × List (Delivery E))
  run f fuel base r = do
    (r', d) ← next_from l f base r
    elim d [ none ↦ some (r', []) | some x ↦ do (r'', xs) ← read_all l fuel r'; some (r'', x ∷ xs) ]

  pub read_all-run :
      (fuel : ℕ) (base : Bytes) (r : JournalReader)
      → r.base ≡ some base
      → read_all l (suc fuel) r ≡ run (suc (length base)) fuel base r
  unfolding run read_all next
  read_all-run fuel base r e = rw e refl

  pub length-all_bytes :
      (ss : List Stored) → AllFit l.size ss → length ss ≤ length (all_bytes l.size ss)
  unfolding all_bytes
  length-all_bytes [] h = omega arith
  length-all_bytes (s ∷ ss) (f, h) = omega (
    arith,
    length-append (stored_bytes l.size s) (all_bytes l.size ss),
    length-stored l.size s f,
    length-all_bytes ss h,
  )

  run_end :
      (f fuel : ℕ) (base : Bytes) (r : JournalReader) (tail : Bytes)
      → r.off ≤ length base
      → drop r.off base ≡ tail
      → length tail < record_header_size
      → run (suc f) fuel base r ≡ some (after_end r tail, [])
  unfolding run next_from set_error
  run_end f fuel base r [] inside e short =
      let over : leb (r.off + record_header_size) (length base) ≡ false =
        ground (arith, length-drop r.off base, ap length e) in
      let done : (r.off == length base) ≡ true =
        ground (arith, length-drop r.off base, ap length e) in
      rw (over, done) refl
  run_end f fuel base r (b ∷ tail) inside e short =
      let over : leb (r.off + record_header_size) (length base) ≡ false =
        ground (arith, length-drop r.off base, ap length e) in
      let more : (r.off == length base) ≡ false =
        ground (arith, length-drop r.off base, ap length e) in
      rw (over, more) refl

  run_hit :
      (f fuel : ℕ) (base : Bytes) (r r' z : JournalReader) (x : Delivery E) (xs : List (Delivery E))
      → next_from l f base r ≡ some (r', some x)
      → read_all l fuel r' ≡ some (z, xs)
      → run f fuel base r ≡ some (z, x ∷ xs)
  unfolding run
  run_hit f fuel base r r' z x xs p q = rw (p, q) refl

  run_miss :
      (f fuel : ℕ) (base : Bytes) (r r' : JournalReader)
      → next_from l (suc f) base r ≡ next_from l f base r'
      → run (suc f) fuel base r ≡ run f fuel base r'
  unfolding run
  run_miss f fuel base r r' p = rw p refl

  pub run_lem :
      (small : l.size < 2 ^ 32) (base tail : Bytes) (ss : List Stored) (f fuel : ℕ)
      (r : JournalReader)
      → AllFit l.size ss
      → r.base ≡ some base
      → r.off ≤ length base
      → drop r.off base ≡ all_bytes l.size ss ++ tail
      → length tail < record_header_size
      → length ss < f
      → length ss ≤ fuel
      → run f fuel base r ≡ some (after_end (after_records r ss) tail, deliveries ss)
  run_lem small base tail ss zero fuel r h b inside e short enough rounds = absurd (omega arith)
  run_lem small base tail [] (suc f) fuel r h b inside e short enough rounds =
      unfold all_bytes in run_end f fuel base r tail inside e short
  run_lem small base tail (s ∷ ss) (suc f) zero r h b inside e short enough rounds =
      absurd (omega arith)
  run_lem small base tail (s ∷ ss) (suc f) (suc fuel) r (fit, h) b inside e short enough rounds =
      let stands : drop r.off base ≡ stored_bytes l.size s ++ (all_bytes l.size ss ++ tail) =
        unfold all_bytes in e ∙ append_assoc (stored_bytes l.size s) (all_bytes l.size ss) tail in
      let round =
        next_from_round l base r s (all_bytes l.size ss ++ tail) small fit inside stands f in
      let ahead = left l base r s (all_bytes l.size ss ++ tail) small fit inside stands in
      let space = room l base r s (all_bytes l.size ss ++ tail) small fit inside stands in
      let many : length ss ≤ length (all_bytes l.size ss ++ tail) =
        omega (arith, length-append (all_bytes l.size ss) tail, length-all_bytes ss h) in
      elim (Bool-cases (is_intact s)) [
        | inl intact ↦ rw intact (
            run_hit (suc f) (suc fuel) base r (after_delivery whole r) _ (delivery_of l s) _
              (round ∙ rw intact refl)
              (read_all-run fuel base (after_delivery whole r) b
                ∙ run_lem small base tail ss (suc (length base)) fuel (after_delivery whole r) h b
                    (omega (arith, space)) ahead short (omega (arith, space, many)) (omega arith)))
        | inr damaged ↦ rw damaged (
            run_miss f (suc fuel) base r (after_failure whole r) (round ∙ rw damaged refl)
            ∙ run_lem small base tail ss f (suc fuel) (after_failure whole r) h b
                (omega (arith, space)) ahead short (omega arith) (omega arith))
      ]
