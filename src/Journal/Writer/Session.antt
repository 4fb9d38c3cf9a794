-- ===== src/Journal/Writer/Session.antt =====
-- src/journal/journal_writer.cpp: a session on a new file, and the refusal of one that is there.
use hft_feed_handler.Common.{
  ℕ, ◌+◌, ◌^◌, ◌≤◌, ◌<◌, ◌≡◌, refl, sym, ap, ap₂, ◌∙◌, leb, take_all, true, false, false, some,
  List, [], ◌∷◌, ◌++◌, ◌==◌, length, arith,
}
use mathlib.Core.List.{append_assoc, append-nil}
use hft_feed_handler.Proto.Bytes.{Bytes, store_le}
use hft_feed_handler.Journal.Format.{Layout, header_bytes, header_size, record_header_size}
use hft_feed_handler.Journal.Reader.{Delivery}
use hft_feed_handler.Journal.Reader.Records.{Stored, stored_bytes}
use hft_feed_handler.Journal.Reader.All.{all_bytes}
use hft_feed_handler.Journal.Writer.{
  JournalWriter, new_writer, append_all, close, flush_active_buffer, open_writer,
  write_header_if_needed, write_header, validate_existing_header, write_session,
}
use hft_feed_handler.Journal.Writer.Contents.{
  AllWrite, contents, IsWriting, append-Appended, stored_as, flush_active_buffer-Flushed,
}

module _ {E : Type 0} (l : Layout E) where
  -- The records of events, numbered from a sequence on.
  unfoldable pub numbered : ℕ → List (E × ℕ) → List Stored
  numbered seq [] = []
  numbered seq ((ev, ts) ∷ evs) = stored_as l seq ev ts ∷ numbered (seq + 1) evs

  -- What a reader says of them.
  unfoldable pub told : ℕ → List (E × ℕ) → List (Delivery E)
  told seq [] = []
  told seq ((ev, ts) ∷ evs) =
      record { event = ev; ingest_ts_ns = ts; monotonic_seq = seq } ∷ told (seq + 1) evs

  record AllAppended (w : JournalWriter) (evs : List (E × ℕ)) (w' : JournalWriter) : Type 0 where
    writing : IsWriting w'
    contents_eq : contents w' ≡ contents w ++ all_bytes l.size (numbered w.next_seq evs)

  append_all-AllAppended :
      (w : JournalWriter) (evs : List (E × ℕ))
      → IsWriting w
      → record_header_size + l.size ≤ w.buffer_bytes
      → w.next_seq + length evs < 2 ^ 64
      → (w' : JournalWriter) × (append_all l w evs ≡ some w') × AllAppended w evs w'
  unfolding append_all numbered all_bytes
  append_all-AllAppended w [] i room few =
      (w, refl, record { writing = i; contents_eq = sym (append-nil (contents w)) })
  append_all-AllAppended w ((ev, ts) ∷ evs) i room few =
      let (v, there, a) = append-Appended l w ev ts i room in
      let next : v.next_seq ≡ w.next_seq + 1 = omega (arith, a.seq_eq) in
      let (w', all, b) =
        append_all-AllAppended v evs a.writing (omega (arith, a.buffer_eq)) (omega arith) in
      (
        w',
        rw (there, all) refl,
        record {
          writing = b.writing;
          contents_eq =
              b.contents_eq
              ∙ ap₂ (λ xs n. xs ++ all_bytes l.size (numbered n evs)) a.contents_eq next
              ∙ append_assoc (contents w) (stored_bytes l.size (stored_as l w.next_seq ev ts))
                  (all_bytes l.size (numbered (w.next_seq + 1) evs));
        },
      )

  close-file : (w : JournalWriter) → IsWriting w → (close w).file ≡ contents w
  unfolding close
  close-file w i = let f = flush_active_buffer-Flushed w i in f.file_eq

  -- The call that writes the header of a new file writes all of it.
  abbrev pub WritesHeader : List ℕ → Type 0
  WritesHeader [] = Unit {0}
  WritesHeader (n ∷ results) = header_size ≤ n

  -- The writer behind the opening of a new file.
  abbrev started : ℕ → List ℕ → JournalWriter
  started buffer_bytes results = record {
    is_open = true;
    can_read = false;
    file = header_bytes;
    active = [];
    buffer_bytes = buffer_bytes;
    next_seq = 1;
    results = results;
  }

  behind_header : List ℕ → List ℕ
  behind_header [] = []
  behind_header (n ∷ results) = results

  open_fresh :
      (buffer_bytes : ℕ) (results : List ℕ)
      → WritesHeader results
      → open_writer l (new_writer buffer_bytes results) (some [])
        ≡ (started buffer_bytes (behind_header results), true)
  unfolding open_writer new_writer close flush_active_buffer write_header_if_needed write_header
      header_bytes store_le behind_header
  open_fresh buffer_bytes [] h = refl
  open_fresh buffer_bytes (n ∷ results) h =
      let whole : leb header_size n ≡ true = ground arith in
      rw (whole, take_all n header_bytes h) refl

  AllWrite-behind : (results : List ℕ) → AllWrite results → AllWrite (behind_header results)
  unfolding behind_header
  AllWrite-behind [] h = tt
  AllWrite-behind (n ∷ results) h = h.1

  -- Events are appended to a new file: behind the header stand their records, numbered from one on.
  pub write_session-file :
      (buffer_bytes : ℕ) (results : List ℕ) (evs : List (E × ℕ))
      → WritesHeader results
      → record_header_size + l.size ≤ buffer_bytes
      → AllWrite results
      → 1 + length evs < 2 ^ 64
      → (w : JournalWriter) × (write_session l (new_writer buffer_bytes results) (some []) evs
          ≡ some w)
        × (w.file ≡ header_bytes ++ all_bytes l.size (numbered 1 evs))
  unfolding write_session
  write_session-file buffer_bytes results evs begun room writes few =
      let start = started buffer_bytes (behind_header results) in
      let (w, all, a) =
        append_all-AllAppended start evs
          (record { is_open = refl; all_write = AllWrite-behind results writes }) room few in
      (
        close w,
        rw (open_fresh buffer_bytes results begun, all) refl,
        close-file w a.writing
            ∙ a.contents_eq
            ∙ ap (λ xs. xs ++ all_bytes l.size (numbered 1 evs)) (append-nil header_bytes),
      )

  -- A file that holds anything is refused, and stays as it is.
  pub open_writer-refuses :
      (w : JournalWriter) (content : Bytes)
      → 0 < length content
      → ((open_writer l w (some content)).1 ≡ false)
        × ((open_writer l w (some content)).0.file ≡ content)
  unfolding open_writer close flush_active_buffer write_header_if_needed validate_existing_header
  open_writer-refuses w content h =
      let held : (length content == 0) ≡ false = ground arith in rw held (refl, refl)
