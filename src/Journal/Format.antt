-- ===== src/Journal/Format.antt =====
-- include/mf/journal/journal_format.hpp. The bytes of a `BookEvent` in memory, with its padding, are the
-- compiler's, and a parameter: `sizeof`, the object's bytes, and the object that bytes are copied into.
-- A host integer is little-endian, as the header asserts.
use hft_feed_handler.Common.{ℕ, Bool, true, false, ◌&&◌, ◌==◌, ◌^◌, ◌<◌, ◌≡◌, [], ◌∷◌, ◌++◌, length}
use hft_feed_handler.Core.Crc.{crc32_update}
use hft_feed_handler.Proto.Bytes.{Bytes, store_le}

pub record Layout {ℓ} (E : Type ℓ) : Type ℓ where
  pub size : ℕ
  pub bytes_of : E → Bytes
  pub event_of : Bytes → E

-- What the language says of `sizeof`, and of copying an object's bytes out and back.
pub record IsLayout {ℓ} {E : Type ℓ} (l : Layout E) : Type ℓ where
  pub length-bytes_of : (ev : E) → length (l.bytes_of ev) ≡ l.size
  pub event_of-bytes_of : (ev : E) → l.event_of (l.bytes_of ev) ≡ ev
  pub size_lt : l.size < 2 ^ 32

abbrev pub journal_magic : Bytes
journal_magic = b'M' ∷ b'F' ∷ b'J' ∷ b'N' ∷ []

abbrev pub journal_version : ℕ
journal_version = 1

-- `sizeof(JournalHeader)` and `sizeof(JournalRecord)`.
abbrev pub header_size : ℕ
header_size = 8

abbrev pub record_header_size : ℕ
record_header_size = 24

-- The bytes of a `JournalHeader`.
unfoldable pub header_bytes : Bytes
header_bytes = journal_magic ++ store_le 4 journal_version

pub record JournalRecord : Type 0 where
  pub monotonic_seq : ℕ
  pub ingest_ts_ns : ℕ
  pub payload_len : ℕ
  pub crc32 : ℕ

-- The four scalars, one behind another.
unfoldable pub record_bytes : JournalRecord → Bytes
record_bytes r =
    store_le 8 r.monotonic_seq
    ++ (store_le 8 r.ingest_ts_ns ++ (store_le 4 r.payload_len ++ store_le 4 r.crc32))

-- The checksum of an object's bytes.
abbrev pub payload_crc : Bytes → ℕ
payload_crc bytes = crc32_update 0 bytes

-- `==` of two arrays of characters.
unfoldable pub bytes_equal : Bytes → Bytes → Bool
bytes_equal [] [] = true
bytes_equal [] (y ∷ ys) = false
bytes_equal (x ∷ xs) [] = false
bytes_equal (x ∷ xs) (y ∷ ys) = x == y && bytes_equal xs ys
