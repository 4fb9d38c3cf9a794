-- ===== src/Journal/Tests.antt =====
-- src/journal on concrete files.
use hft_feed_handler.Common.{
  ℕ, false, true, ◌<◌, ◌≡◌, ◌↔◌, refl, none, some, List, [], ◌∷◌, arith, if◌then◌else◌, ◌==◌,
}
use hft_feed_handler.Core.Types.{Side, buy, sell, unknown}
use hft_feed_handler.Proto.Bytes.{Bytes}
use hft_feed_handler.Journal.Format.{Layout, header_bytes}
use hft_feed_handler.Journal.Reader.{JournalReader, new_reader, open_reader, read_all}
use hft_feed_handler.Journal.Reader.Records.{Stored, Fits}
use hft_feed_handler.Journal.Reader.All.{deliveries}
use hft_feed_handler.Journal.Reader.Recovery.{journal_bytes, Recovers, read_all-Recovers}
use hft_feed_handler.Journal.Writer.{JournalWriter, append}
use hft_feed_handler.Journal.Writer.Contents.{append-none}

-- An object of one byte.
abbrev side_of : Bytes → Side
side_of [] = unknown
side_of (b ∷ bs) = if b == 0 then buy else if b == 1 then sell else unknown

abbrev byte_of : Side → ℕ
byte_of buy = 0
byte_of sell = 1
byte_of unknown = 2

abbrev one_byte : Layout Side
one_byte = record { size = 1; bytes_of = λ s. byte_of s ∷ []; event_of = side_of }

-- A record whose payload is not what it was.
abbrev spoilt : Stored
spoilt = record { monotonic_seq = 1; ingest_ts_ns = 4; crc32 = 5; payload = 0 ∷ [] }

spoilt-Fits : Fits 1 spoilt
spoilt-Fits = record {
  seq_lt = omega arith;
  ts_lt = omega arith;
  crc_lt = omega arith;
  length_payload = refl;
}

read_all-Recovers_example :
    (z : JournalReader) × (read_all one_byte 2
        (open_reader new_reader (some (journal_bytes 1 (spoilt ∷ []) (2 ∷ 0 ∷ [])))).0
      ≡ some (z, deliveries one_byte (spoilt ∷ [])))
    × Recovers one_byte (spoilt ∷ []) (2 ∷ 0 ∷ []) z
read_all-Recovers_example =
    read_all-Recovers one_byte new_reader (spoilt ∷ []) (2 ∷ 0 ∷ []) 2 (omega arith)
      (spoilt-Fits, tt) (omega arith) (omega arith)

-- Two events for a new file, through a buffer of one record and, behind the header, a write of three bytes.
abbrev two_events : List (Side × ℕ)
two_events = (buy, 5) ∷ (sell, 6) ∷ []

-- A writer on a file of a header, with a buffer of eight bytes.
abbrev narrow : JournalWriter
narrow = record {
  is_open = true;
  can_read = false;
  file = header_bytes;
  active = [];
  buffer_bytes = 8;
  next_seq = 1;
  results = [];
}

append-none_example : (append one_byte narrow buy 5 ≡ none) ↔ (8 < 25)
append-none_example = append-none one_byte narrow buy 5 (record { is_open = refl; all_write = tt })
