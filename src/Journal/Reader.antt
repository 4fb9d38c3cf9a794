-- ===== src/Journal/Reader.antt =====
-- src/journal/journal_reader.cpp on Linux. The mapped file is the list of its bytes; a read of it is
-- checked, and `none` is a read outside it or a loop that is not at its end.
pub mod Records
pub mod All
pub mod Recovery
use hft_feed_handler.Common.{
  ℕ, suc, zero, ◌%◌, u64_mod, ◌+◌, Bool, true, false, not, ◌&&◌, ◌||◌, Option, none, some, List, [],
  ◌∷◌, ltb, leb, ◌==◌, if◌then◌else◌, length, take, drop, ◌>>=◌,
}
use hft_feed_handler.Phase2.Tracker.{inc64}
use hft_feed_handler.Proto.Bytes.{Bytes, read, load_le}
use hft_feed_handler.Journal.Format.{
  Layout, header_size, record_header_size, payload_crc, bytes_equal, journal_magic, journal_version,
}

pub data ErrorReason : Type 0 where
  record_decode unexpected_eof header_magic header_version record_size record_crc : ErrorReason

pub record JournalReaderStats : Type 0 where
  pub records_read : ℕ
  pub crc_failures : ℕ
  pub bytes_read : ℕ

-- `base` has the mapped bytes, if there are any; `error` is set exactly if `had_error_` is.
pub record JournalReader : Type 0 where
  pub base : Option Bytes
  pub off : ℕ
  pub stats : JournalReaderStats
  pub error : Option (ErrorReason × ℕ)

abbrev pub no_stats : JournalReaderStats
no_stats = record { records_read = 0; crc_failures = 0; bytes_read = 0 }

abbrev pub new_reader : JournalReader
new_reader = record { base = none; off = 0; stats = no_stats; error = none }

unfoldable pub set_error : JournalReader → ErrorReason → ℕ → JournalReader
set_error r reason offset = record r { error = some (reason, offset) }

unfoldable pub close : JournalReader → JournalReader
close r = record r { base = none; off = 0 }

-- `path` is the content of the file, if it can be opened. The mapping of a file that is open succeeds.
unfoldable pub open_reader : JournalReader → Option Bytes → JournalReader × Bool
unfolding close set_error bytes_equal
open_reader r path =
    let r' = record (close r) { error = none } in
    elim path [
      | none ↦ (set_error r' record_decode 0, false)
      | some content ↦
          if ltb (length content) header_size
          then (close (set_error r' unexpected_eof 0), false)
          else if not (bytes_equal (take 4 content) journal_magic)
          then (close (set_error r' header_magic 0), false)
          else if not (load_le (take 4 (drop 4 content)) == journal_version)
          then (close (set_error r' header_version 0), false)
          else (record r' { base = some content; off = header_size; stats = no_stats }, true)
    ]

-- `read_scalar` of an integer of `n` bytes.
unfoldable pub read_scalar : Bytes → ℕ → ℕ → Option ℕ
read_scalar base off n = do bytes ← read base off n; some (load_le bytes)

-- What `next` leaves in its arguments.
pub record Delivery {ℓ} (E : Type ℓ) : Type ℓ where
  pub event : E
  pub ingest_ts_ns : ℕ
  pub monotonic_seq : ℕ

abbrev pub failed : JournalReaderStats → JournalReaderStats
failed s = record s { crc_failures = inc64 s.crc_failures }

abbrev pub passed : JournalReaderStats → ℕ → JournalReaderStats
passed s n = record s { bytes_read = (s.bytes_read + n) % u64_mod }

abbrev pub delivered : JournalReaderStats → JournalReaderStats
delivered s = record s { records_read = inc64 s.records_read }

-- The loop of `next`.
unfoldable pub next_from {ℓ} :
    {E : Type ℓ}
    → Layout E
    → ℕ
    → Bytes
    → JournalReader
    → Option (JournalReader × Option (Delivery E))
unfolding read_scalar set_error
next_from l zero base r = none
next_from l (suc fuel) base r =
    let size = length base in
    let whole = record_header_size + l.size in
    let r' = record r { off = r.off + whole; stats = passed r.stats whole } in
    let again =
      next_from l fuel base (set_error (record r' { stats = failed r'.stats }) record_crc r.off) in
    let turn : Option (JournalReader × Option (Delivery _)) = (do
      seq ← read_scalar base r.off 8
      ts ← read_scalar base (r.off + 8) 8
      len ← read_scalar base (r.off + 16) 4
      crc ← read_scalar base (r.off + 20) 4
      if not (len == l.size) || ltb size (r.off + whole)
          then some (
            record (set_error (record r { stats = failed r.stats })
                (if len == l.size then unexpected_eof else record_size) r.off) { off = size },
            none,
          )
          else (do
            payload ← read base (r.off + record_header_size) l.size
            if payload_crc payload == crc
                then some (
                  record r' { stats = delivered r'.stats },
                  some (record {
                    event = l.event_of payload;
                    ingest_ts_ns = ts;
                    monotonic_seq = seq;
                  }),
                )
                else again)) in
    if leb (r.off + record_header_size) size
    then turn
    else some (if r.off == size then r else set_error r unexpected_eof r.off, none)

-- Each round moves on by a record, so a round for each byte, and one, are enough.
unfoldable pub next {ℓ} :
    {E : Type ℓ} → Layout E → JournalReader → Option (JournalReader × Option (Delivery E))
next l r = elim r.base [
  | none ↦ some (r, none)
  | some base ↦ next_from l (suc (length base)) base r
]

-- A client's loop over `next`: what it leaves, and what it was given, in order.
unfoldable pub read_all {ℓ} :
    {E : Type ℓ} → Layout E → ℕ → JournalReader → Option (JournalReader × List (Delivery E))
read_all l zero r = none
read_all l (suc fuel) r = do
  (r', d) ← next l r
  elim d [ none ↦ some (r', []) | some x ↦ do (r'', xs) ← read_all l fuel r'; some (r'', x ∷ xs) ]
