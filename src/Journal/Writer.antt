-- ===== src/Journal/Writer.antt =====
-- src/journal/journal_writer.cpp on Linux. Two buffers take turns, and only the active one holds bytes
-- that are not yet written. The results of the next calls of `write` and `writev` are an input: where
-- these are at an end, a call writes all that it is given. `fstat` of an open file succeeds, `pread`
-- succeeds if the descriptor is open for reading and fails with EBADF if it is not, and `fsync` does not
-- change what is read.
pub mod Contents
pub mod Session
use hft_feed_handler.Common.{
  ℕ, ◌+◌, ◌-◌, ◌*◌, ◌/◌, Bool, true, false, not, ◌&&◌, ◌||◌, Option, none, some, List, [], ◌∷◌,
  ◌++◌, ltb, leb, ◌==◌, min, if◌then◌else◌, length, take, drop, ◌>>=◌,
}
use hft_feed_handler.Phase2.Tracker.{inc64}
use hft_feed_handler.Proto.Bytes.{Bytes, load_le}
use hft_feed_handler.Journal.Format.{
  Layout, header_bytes, record_bytes, header_size, record_header_size, payload_crc, bytes_equal,
  journal_magic, journal_version,
}

-- `file` is what the file behind `fd_` holds, or held when it was closed; `can_read` tells whether `fd_` is
-- open for reading.
pub record JournalWriter : Type 0 where
  pub is_open : Bool
  pub can_read : Bool
  pub file : Bytes
  pub active : Bytes
  pub buffer_bytes : ℕ
  pub next_seq : ℕ
  pub results : List ℕ

unfoldable pub new_writer : ℕ → List ℕ → JournalWriter
new_writer buffer_bytes results = record {
  is_open = false;
  can_read = false;
  file = [];
  active = [];
  buffer_bytes = buffer_bytes;
  next_seq = 1;
  results = results;
}

-- The loop of `flush_active_buffer`: the file, and the results that are left. A result of 0 is also one
-- below 0.
unfoldable pub write_from : Bytes → Bytes → List ℕ → Bytes × List ℕ
write_from file rest [] = (file ++ rest, [])
write_from file rest (n ∷ results) =
    let taken = min n (length rest) in
    let more = write_from (file ++ take taken rest) (drop taken rest) results in
    if length rest == 0 then (file, n ∷ results) else if taken == 0 then (file, results) else more

unfoldable pub flush_active_buffer : JournalWriter → JournalWriter
flush_active_buffer w =
    let written = write_from w.file w.active w.results in
    if not w.is_open || length w.active == 0
    then w
    else record w { file = written.0; active = []; results = written.1 }

-- `none` is a write behind the end of the buffer.
unfoldable pub append {ℓ} : {E : Type ℓ} → Layout E → JournalWriter → E → ℕ → Option JournalWriter
append l w ev ingest_ts_ns =
    let record_size = record_header_size + l.size in
    let room =
      if ltb w.buffer_bytes (length w.active + record_size) then flush_active_buffer w else w in
    let payload = l.bytes_of ev in
    let stored =
      record_bytes (record {
        monotonic_seq = room.next_seq;
        ingest_ts_ns = ingest_ts_ns;
        payload_len = l.size;
        crc32 = payload_crc payload;
      })
      ++ payload in
    if not w.is_open
    then some w
    else if leb (length room.active + record_size) room.buffer_bytes
    then some (record room { active = room.active ++ stored; next_seq = inc64 room.next_seq })
    else none

-- `fsync` is left out.
unfoldable pub flush : JournalWriter → JournalWriter
flush w = flush_active_buffer w

unfoldable pub close : JournalWriter → JournalWriter
close w = record (flush_active_buffer w) { is_open = false; active = [] }

unfoldable pub write_header : JournalWriter → JournalWriter × Bool
write_header w = elim w.results [
  | [] ↦ (record w { file = header_bytes }, true)
  | n ∷ results ↦ (record w { file = take n header_bytes; results = results }, leb header_size n)
]

-- The version in the header of a file.
abbrev header_version : Bytes → ℕ
header_version file = load_le (take 4 (drop 4 file))

unfoldable pub validate_existing_header : ℕ → JournalWriter → JournalWriter × Bool
unfolding bytes_equal
validate_existing_header record_size w =
    if not w.can_read || ltb (length w.file) header_size
    then (w, false)
    else if not (bytes_equal (take 4 w.file) journal_magic)
    then (w, false)
    else if not (header_version w.file == journal_version)
    then (w, false)
    else (record w { next_seq = (length w.file - header_size) / record_size + 1 }, true)

unfoldable pub write_header_if_needed : ℕ → JournalWriter → JournalWriter × Bool
write_header_if_needed record_size w =
    if length w.file == 0 then write_header w else validate_existing_header record_size w

-- `path` is what the file system has there: `none` if the file cannot be opened, and no bytes if it is
-- made by the call. The file is opened with `O_WRONLY`.
unfoldable pub open_writer {ℓ} :
    {E : Type ℓ} → Layout E → JournalWriter → Option Bytes → JournalWriter × Bool
open_writer l w path =
    let w' = close w in
    elim path [
      | none ↦ (w', false)
      | some content ↦
          let tried =
            write_header_if_needed (record_header_size + l.size)
              (record w' { is_open = true; can_read = false; file = content }) in
          if tried.1 then tried else (close tried.0, false)
    ]

-- A journal of events, each with its time: opened, appended to, and closed.
unfoldable pub append_all {ℓ} :
    {E : Type ℓ} → Layout E → JournalWriter → List (E × ℕ) → Option JournalWriter
append_all l w [] = some w
append_all l w ((ev, ingest_ts_ns) ∷ evs) = do w' ← append l w ev ingest_ts_ns; append_all l w' evs

unfoldable pub write_session {ℓ} :
    {E : Type ℓ} → Layout E → JournalWriter → Option Bytes → List (E × ℕ) → Option JournalWriter
write_session l w path evs =
    let opened = open_writer l w path in
    if opened.1 then (do w' ← append_all l opened.0 evs; some (close w')) else none
