-- ===== src/Journal/Reader/Recovery.antt =====
-- src/journal/journal_reader.cpp: a journal is opened and read to its end.
use hft_feed_handler.Common.{
  ℕ, suc, zero, ◌+◌, ◌%◌, ◌^◌, ◌≤◌, ◌<◌, ◌≡◌, ◌≢◌, refl, ap, ◌∙◌, Bool, true, false, none, some,
  List, [], ◌∷◌, ◌++◌, ltb, if◌then◌else◌, length, drop, arith, length-append, u64_mod,
}
use hft_feed_handler.Proto.Bytes.{Bytes, store_le, load_le}
use hft_feed_handler.Journal.Format.{
  Layout, header_bytes, header_size, record_header_size, bytes_equal,
}
use hft_feed_handler.Journal.Reader.{JournalReader, no_stats, open_reader, unexpected_eof, read_all}
use hft_feed_handler.Journal.Reader.Records.{Stored, stored_bytes, is_intact, length-stored}
use hft_feed_handler.Journal.Reader.All.{
  AllFit, all_bytes, deliveries, length-all_bytes, after_record, after_records, after_end, run_lem,
  read_all-run,
}

-- A file of records, with what is left of a record that was not written to its end.
unfoldable pub journal_bytes : ℕ → List Stored → Bytes → Bytes
journal_bytes size ss tail = header_bytes ++ (all_bytes size ss ++ tail)

abbrev opened : Bytes → JournalReader
opened base = record { base = some base; off = header_size; stats = no_stats; error = none }

pub open_reader_lem :
    (r : JournalReader) (body : Bytes)
    → open_reader r (some (header_bytes ++ body)) ≡ (opened (header_bytes ++ body), true)
unfolding open_reader header_bytes store_le bytes_equal load_le
open_reader_lem r body =
    let long : ltb (length (header_bytes ++ body)) header_size ≡ false = ground arith in
    rw long refl

length-header : (body : Bytes) → length (header_bytes ++ body) ≡ header_size + length body
unfolding header_bytes store_le
length-header body = omega arith

drop-header : (body : Bytes) → drop header_size (header_bytes ++ body) ≡ body
unfolding header_bytes store_le
drop-header body = refl

-- The records whose payload has another checksum.
unfoldable pub damaged : List Stored → ℕ
damaged [] = 0
damaged (s ∷ ss) = if is_intact s then damaged ss else suc (damaged ss)

module _ {E : Type 0} (l : Layout E) where
  records_read_lem :
      (r : JournalReader) (ss : List Stored) (n : ℕ)
      → r.stats.records_read ≡ n % u64_mod
      → (after_records l r ss).stats.records_read ≡ (n + length (deliveries l ss)) % u64_mod
  records_read_lem r [] n e = omega (arith, e)
  records_read_lem r (s ∷ ss) n e =
      let one : ℕ = if is_intact s then 1 else 0 in
      let step : (after_record l r s).stats.records_read ≡ (n + one) % u64_mod =
        ground (arith, e) in
      let more : length (deliveries l (s ∷ ss)) ≡ one + length (deliveries l ss) = ground arith in
      omega (arith, records_read_lem (after_record l r s) ss (n + one) step, more)

  crc_failures_lem :
      (r : JournalReader) (ss : List Stored) (n : ℕ)
      → r.stats.crc_failures ≡ n % u64_mod
      → (after_records l r ss).stats.crc_failures ≡ (n + damaged ss) % u64_mod
  unfolding damaged
  crc_failures_lem r [] n e = omega (arith, e)
  crc_failures_lem r (s ∷ ss) n e =
      let one : ℕ = if is_intact s then 0 else 1 in
      let step : (after_record l r s).stats.crc_failures ≡ (n + one) % u64_mod =
        ground (arith, e) in
      let more : damaged (s ∷ ss) ≡ one + damaged ss = ground arith in
      omega (arith, crc_failures_lem (after_record l r s) ss (n + one) step, more)

  off_lem :
      (r : JournalReader) (ss : List Stored)
      → AllFit l.size ss
      → (after_records l r ss).off ≡ r.off + length (all_bytes l.size ss)
  unfolding all_bytes
  off_lem r [] h = omega arith
  off_lem r (s ∷ ss) (f, h) =
      let step : (after_record l r s).off ≡ r.off + (record_header_size + l.size) = ground arith in
      omega (
        arith,
        off_lem (after_record l r s) ss h,
        step,
        length-append (stored_bytes l.size s) (all_bytes l.size ss),
        length-stored l.size s f,
      )

  error_lem :
      (r : JournalReader) (ss : List Stored)
      → damaged ss ≡ 0
      → (after_records l r ss).error ≡ r.error
  unfolding damaged
  error_lem r [] none_bad = refl
  error_lem r (s ∷ ss) none_bad =
      let same : (after_record l r s).error ≡ r.error = ground arith in
      error_lem (after_record l r s) ss (ground arith) ∙ same

  -- What the reader says at the end of a journal.
  pub record Recovers (ss : List Stored) (tail : Bytes) (z : JournalReader) : Type 0 where
    pub records_read : z.stats.records_read ≡ length (deliveries l ss) % u64_mod
    pub crc_failures : z.stats.crc_failures ≡ damaged ss % u64_mod
    pub sound : damaged ss ≡ 0 → tail ≡ [] → z.error ≡ none
    pub torn :
        tail ≢ [] → z.error ≡ some (unexpected_eof, header_size + length (all_bytes l.size ss))

  after_end-Recovers :
      (base : Bytes) (ss : List Stored) (tail : Bytes)
      → AllFit l.size ss
      → Recovers ss tail (after_end l (after_records l (opened base) ss) tail)
  after_end-Recovers base ss [] h = record {
    records_read = records_read_lem (opened base) ss 0 (omega arith) ∙ omega arith;
    crc_failures = crc_failures_lem (opened base) ss 0 (omega arith) ∙ omega arith;
    sound = λ none_bad e. error_lem (opened base) ss none_bad;
    torn = λ ne. absurd (ne refl);
  }
  after_end-Recovers base ss (b ∷ tail) h = record {
    records_read = records_read_lem (opened base) ss 0 (omega arith) ∙ omega arith;
    crc_failures = crc_failures_lem (opened base) ss 0 (omega arith) ∙ omega arith;
    sound = λ none_bad e. cc;
    torn = λ ne. ap (λ n. some (unexpected_eof, n)) (off_lem (opened base) ss h);
  }

  -- Opening a journal whose end may be torn off within the head of a record, and reading it to its end,
  -- reads nothing outside it and comes to an end. It gives the records whose payload has the checksum that
  -- stands before it, in order, with their times and sequences, and counts these and the others, modulo
  -- 2 ^ 64. There is no error if no record is damaged and nothing torn; a torn end is the last error, at
  -- the offset where it starts.
  pub read_all-Recovers :
      (r : JournalReader) (ss : List Stored) (tail : Bytes) (fuel : ℕ)
      → l.size < 2 ^ 32
      → AllFit l.size ss
      → length tail < record_header_size
      → length ss < fuel
      → (z : JournalReader) × (read_all l fuel
            (open_reader r (some (journal_bytes l.size ss tail))).0
          ≡ some (z, deliveries l ss))
        × Recovers ss tail z
  unfolding journal_bytes
  read_all-Recovers r ss tail zero small h short enough = absurd (omega arith)
  read_all-Recovers r ss tail (suc fuel) small h short enough =
      let body = all_bytes l.size ss ++ tail in
      let base = header_bytes ++ body in
      let long_by : length base ≡ header_size + length body = length-header body in
      let long : header_size ≤ length base = omega (arith, long_by) in
      let behind_header : drop header_size base ≡ body = drop-header body in
      (
        after_end l (after_records l (opened base) ss) tail,
        ap (λ (o : JournalReader × Bool). read_all l (suc fuel) o.0) (open_reader_lem r body)
            ∙ read_all-run l fuel base (opened base) refl
            ∙ run_lem l small base tail ss (suc (length base)) fuel (opened base) h refl long
                behind_header short
                (omega (
                  arith,
                  length-append (all_bytes l.size ss) tail,
                  length-all_bytes l ss h,
                  long_by,
                ))
                (omega arith),
        after_end-Recovers base ss tail h,
      )
