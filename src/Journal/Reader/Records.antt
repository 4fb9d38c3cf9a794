-- ===== src/Journal/Reader/Records.antt =====
-- src/journal/journal_reader.cpp: one round of `next` over a record of the file.
use hft_feed_handler.Common.{
  ℕ, suc, ◌+◌, ◌^◌, ◌≤◌, ◌<◌, ◌≡◌, refl, sym, ap, ◌∙◌, subst, Bool, true, false, some, ◌++◌, ltb,
  leb, ◌==◌, if◌then◌else◌, length, take, drop, arith, drop-drop, length-drop, length-append,
  take_first, drop_first,
}
use hft_feed_handler.Proto.Bytes.{Bytes, read, read_within, store_le, load_le-store_le}
use hft_feed_handler.Journal.Format.{
  Layout, JournalRecord, record_bytes, record_header_size, payload_crc,
}
use hft_feed_handler.Journal.Reader.{
  JournalReader, Delivery, set_error, read_scalar, failed, passed, delivered, record_crc, next_from,
}

-- A record as it stands in a file.
pub record Stored : Type 0 where
  pub monotonic_seq : ℕ
  pub ingest_ts_ns : ℕ
  pub crc32 : ℕ
  pub payload : Bytes

abbrev pub head_of : ℕ → Stored → JournalRecord
head_of size s = record {
  monotonic_seq = s.monotonic_seq;
  ingest_ts_ns = s.ingest_ts_ns;
  payload_len = size;
  crc32 = s.crc32;
}

abbrev pub stored_bytes : ℕ → Stored → Bytes
stored_bytes size s = record_bytes (head_of size s) ++ s.payload

-- The numbers fit their fields, and the payload is an object's bytes.
pub record Fits (size : ℕ) (s : Stored) : Type 0 where
  pub seq_lt : s.monotonic_seq < 2 ^ 64
  pub ts_lt : s.ingest_ts_ns < 2 ^ 64
  pub crc_lt : s.crc32 < 2 ^ 32
  pub length_payload : length s.payload ≡ size

-- The payload has the checksum that stands before it.
abbrev pub is_intact : Stored → Bool
is_intact s = payload_crc s.payload == s.crc32

-- A read within what stands behind an offset.
pub read_at :
    (base : Bytes) (off k n : ℕ) (rem : Bytes)
    → off ≤ length base
    → drop off base ≡ rem
    → k + n ≤ length rem
    → read base (off + k) n ≡ some (take n (drop k rem))
read_at base off k n rem inside e h =
    read_within base (off + k) n (omega (arith, length-drop off base, ap length e))
    ∙ ap (λ xs. some (take n xs)) (sym (drop-drop k off base) ∙ ap (drop k) e)

pub read_scalar_at :
    (base : Bytes) (off k n v : ℕ) (rem : Bytes)
    → off ≤ length base
    → drop off base ≡ rem
    → k + n ≤ length rem
    → take n (drop k rem) ≡ store_le n v
    → v < 256 ^ n
    → read_scalar base (off + k) n ≡ some v
unfolding read_scalar
read_scalar_at base off k n v rem inside e h same lt =
    rw (read_at base off k n rem inside e h, same, load_le-store_le n v lt) refl

pub length-record_bytes : (r : JournalRecord) → length (record_bytes r) ≡ record_header_size
unfolding record_bytes store_le
length-record_bytes r = refl

pub length-stored :
    (size : ℕ) (s : Stored) → Fits size s → length (stored_bytes size s) ≡ record_header_size + size
length-stored size s f = omega (
  arith,
  length-append (record_bytes (head_of size s)) s.payload,
  length-record_bytes (head_of size s),
  f.length_payload,
)

-- The reader behind a record, whose payload is intact or not.
abbrev pub behind : ℕ → JournalReader → JournalReader
behind whole r = record r { off = r.off + whole; stats = passed r.stats whole }

abbrev pub after_delivery : ℕ → JournalReader → JournalReader
after_delivery whole r = let r' = behind whole r in record r' { stats = delivered r'.stats }

abbrev pub after_failure : ℕ → JournalReader → JournalReader
after_failure whole r =
    let r' = behind whole r in
    record r' { stats = failed r'.stats; error = some (record_crc, r.off) }

abbrev pub delivery_of {ℓ} : {E : Type ℓ} → Layout E → Stored → Delivery E
delivery_of l s = record {
  event = l.event_of s.payload;
  ingest_ts_ns = s.ingest_ts_ns;
  monotonic_seq = s.monotonic_seq;
}

module _ {E : Type 0} (l : Layout E) (base : Bytes) (r : JournalReader) (s : Stored) (rest : Bytes)
    (small : l.size < 2 ^ 32) (fits : Fits l.size s) (inside : r.off ≤ length base)
    (stands : drop r.off base ≡ stored_bytes l.size s ++ rest) where
  length_left : length (stored_bytes l.size s ++ rest) ≡ record_header_size + l.size + length rest
  length_left =
      omega (arith, length-append (stored_bytes l.size s) rest, length-stored l.size s fits)

  pub room : r.off + (record_header_size + l.size) + length rest ≡ length base
  room = omega (arith, length_left, length-drop r.off base, ap length stands)

  scalar :
      (k n v : ℕ)
      → k + n ≤ record_header_size
      → take n (drop k (stored_bytes l.size s ++ rest)) ≡ store_le n v
      → v < 256 ^ n
      → read_scalar base (r.off + k) n ≡ some v
  scalar k n v within same lt =
      read_scalar_at base r.off k n v _ inside stands (omega (arith, within, length_left)) same lt

  read_seq : read_scalar base r.off 8 ≡ some s.monotonic_seq
  unfolding record_bytes store_le
  read_seq =
      subst (λ o. read_scalar base o 8 ≡ some s.monotonic_seq) (omega arith)
        (scalar 0 8 s.monotonic_seq (omega arith) refl fits.seq_lt)

  read_ts : read_scalar base (r.off + 8) 8 ≡ some s.ingest_ts_ns
  unfolding record_bytes store_le
  read_ts = scalar 8 8 s.ingest_ts_ns (omega arith) refl fits.ts_lt

  read_len : read_scalar base (r.off + 16) 4 ≡ some l.size
  unfolding record_bytes store_le
  read_len = scalar 16 4 l.size (omega arith) refl small

  read_crc : read_scalar base (r.off + 20) 4 ≡ some s.crc32
  unfolding record_bytes store_le
  read_crc = scalar 20 4 s.crc32 (omega arith) refl fits.crc_lt

  behind_head : drop record_header_size (stored_bytes l.size s ++ rest) ≡ s.payload ++ rest
  unfolding record_bytes store_le
  behind_head = refl

  read_payload : read base (r.off + record_header_size) l.size ≡ some s.payload
  read_payload =
      read_at base r.off record_header_size l.size _ inside stands (omega (arith, length_left))
      ∙ ap (λ xs. some (take l.size xs)) behind_head
      ∙ ap some (take_first l.size s.payload rest fits.length_payload)

  pub left : drop (r.off + (record_header_size + l.size)) base ≡ rest
  left =
      sym (drop-drop (record_header_size + l.size) r.off base)
      ∙ ap (drop (record_header_size + l.size)) stands
      ∙ drop_first (record_header_size + l.size) (stored_bytes l.size s) rest
          (length-stored l.size s fits)

  -- A round over the record.
  pub next_from_round :
      (fuel : ℕ)
      → next_from l (suc fuel) base r ≡ (
          if is_intact s
          then some (after_delivery (record_header_size + l.size) r, some (delivery_of l s))
          else next_from l fuel base (after_failure (record_header_size + l.size) r))
  unfolding next_from set_error
  next_from_round fuel =
      let fits_head : leb (r.off + record_header_size) (length base) ≡ true =
        ground (arith, room) in
      let fits_all : ltb (length base) (r.off + (record_header_size + l.size)) ≡ false =
        ground (arith, room) in
      let same : (l.size == l.size) ≡ true = ground arith in
      rw (fits_head, read_seq, read_ts, read_len, read_crc, same, fits_all, read_payload) refl
