-- ===== src/Journal/Writer/Contents.antt =====
-- src/journal/journal_writer.cpp: what the file and the active buffer hold together, while the calls that
-- write may write less than they are given, but never nothing.
use hft_feed_handler.Common.{
  ℕ, suc, zero, ◌+◌, ◌≤◌, ◌<◌, ◌≡◌, ◌↔◌, refl, sym, ap, ap₂, ◌∙◌, subst, inl, inr, true, false,
  Bool-cases, none, some, List, [], ◌∷◌, ◌++◌, dec_lt, ltb, leb, ◌==◌, min, if◌then◌else◌, length,
  take, drop, arith,
}
use mathlib.Core.List.{append_assoc, append-nil}
use hft_feed_handler.Phase2.Tracker.{inc64}
use hft_feed_handler.Proto.Bytes.{Bytes}
use hft_feed_handler.Journal.Format.{Layout, record_header_size, payload_crc}
use hft_feed_handler.Journal.Reader.Records.{Stored, stored_bytes}
use hft_feed_handler.Journal.Writer.{JournalWriter, write_from, flush_active_buffer, append}

-- No call writes nothing, or fails.
abbrev pub AllWrite : List ℕ → Type 0
AllWrite [] = Unit {0}
AllWrite (n ∷ results) = (0 < n) × AllWrite results

-- What was given to an open writer and is not lost.
abbrev pub contents : JournalWriter → Bytes
contents w = w.file ++ w.active

take_and_drop : (n : ℕ) (xs : Bytes) → take n xs ++ drop n xs ≡ xs
take_and_drop zero xs = refl
take_and_drop (suc n) [] = refl
take_and_drop (suc n) (x ∷ xs) = ap (λ ys. x ∷ ys) (take_and_drop n xs)

empty_of : (xs : Bytes) → (length xs == 0) ≡ true → xs ≡ []
empty_of [] h = refl
empty_of (x ∷ xs) h = ground arith

write_from_lem :
    (file rest : Bytes) (results : List ℕ)
    → AllWrite results
    → ((write_from file rest results).0 ≡ file ++ rest) × AllWrite (write_from file rest results).1
unfolding write_from
write_from_lem file rest [] h = (refl, tt)
write_from_lem file rest (n ∷ results) (pos, h) = elim (Bool-cases (length rest == 0)) [
  | inl done ↦
      rw done (sym (append-nil file) ∙ ap (λ xs. file ++ xs) (sym (empty_of rest done)), (pos, h))
  | inr more ↦
      let taken = min n (length rest) in
      let some_taken : (taken == 0) ≡ false = ground arith in
      let ih = write_from_lem (file ++ take taken rest) (drop taken rest) results h in
      rw (more, some_taken)
        (
          ih.0
              ∙ append_assoc file (take taken rest) (drop taken rest)
              ∙ ap (λ xs. file ++ xs) (take_and_drop taken rest),
          ih.1,
        )
]

-- An open writer that loses nothing.
pub record IsWriting (w : JournalWriter) : Type 0 where
  pub is_open : w.is_open ≡ true
  pub all_write : AllWrite w.results

pub record Flushed (w w' : JournalWriter) : Type 0 where
  pub writing : IsWriting w'
  pub file_eq : w'.file ≡ contents w
  pub active_eq : w'.active ≡ []
  pub buffer_eq : w'.buffer_bytes ≡ w.buffer_bytes
  pub seq_eq : w'.next_seq ≡ w.next_seq

pub flush_active_buffer-Flushed :
    (w : JournalWriter) → IsWriting w → Flushed w (flush_active_buffer w)
unfolding flush_active_buffer
flush_active_buffer-Flushed w i = elim (Bool-cases (length w.active == 0)) [
  | inl nothing ↦
      let stays : flush_active_buffer w ≡ w = ground (arith, i.is_open, nothing) in
      subst (Flushed w) (sym stays) (record {
        writing = i;
        file_eq = sym (ap (λ xs. w.file ++ xs) (empty_of w.active nothing) ∙ append-nil w.file);
        active_eq = empty_of w.active nothing;
        buffer_eq = refl;
        seq_eq = refl;
      })
  | inr bytes ↦
      let written = write_from_lem w.file w.active w.results i.all_write in
      let writes : flush_active_buffer w ≡ record w {
        file = (write_from w.file w.active w.results).0;
        active = [];
        results = (write_from w.file w.active w.results).1;
      } =
        ground (arith, i.is_open, bytes) in
      subst (Flushed w) (sym writes) (record {
        writing = record { is_open = i.is_open; all_write = written.1 };
        file_eq = written.0;
        active_eq = refl;
        buffer_eq = refl;
        seq_eq = refl;
      })
]

-- The record that an append makes.
abbrev pub stored_as {ℓ} : {E : Type ℓ} → Layout E → ℕ → E → ℕ → Stored
stored_as l seq ev ts = record {
  monotonic_seq = seq;
  ingest_ts_ns = ts;
  crc32 = payload_crc (l.bytes_of ev);
  payload = l.bytes_of ev;
}

none-some : {w : JournalWriter} → none ≡ some w → ⊥
none-some e = cc

module _ {E : Type 0} (l : Layout E) where
  abbrev whole : ℕ
  whole = record_header_size + l.size

  pub record Appended (w : JournalWriter) (ev : E) (ts : ℕ) (w' : JournalWriter) : Type 0 where
    pub writing : IsWriting w'
    pub contents_eq : contents w' ≡ contents w ++ stored_bytes l.size (stored_as l w.next_seq ev ts)
    pub buffer_eq : w'.buffer_bytes ≡ w.buffer_bytes
    pub seq_eq : w'.next_seq ≡ inc64 w.next_seq

  -- The writer behind the test for room.
  abbrev make_room : JournalWriter → JournalWriter
  make_room w = if ltb w.buffer_bytes (length w.active + whole) then flush_active_buffer w else w

  record Ready (w w' : JournalWriter) : Type 0 where
    writing : IsWriting w'
    contents_eq : contents w' ≡ contents w
    buffer_eq : w'.buffer_bytes ≡ w.buffer_bytes
    seq_eq : w'.next_seq ≡ w.next_seq
    room : leb (length w'.active + whole) w'.buffer_bytes ≡ leb whole w.buffer_bytes

  make_room-Ready : (w : JournalWriter) → IsWriting w → Ready w (make_room w)
  make_room-Ready w i = elim (Bool-cases (ltb w.buffer_bytes (length w.active + whole))) [
    | inl full ↦
        let f = flush_active_buffer-Flushed w i in
        rw full (record {
          writing = f.writing;
          contents_eq = ap₂ (λ xs ys. xs ++ ys) f.file_eq f.active_eq ∙ append-nil (contents w);
          buffer_eq = f.buffer_eq;
          seq_eq = f.seq_eq;
          room = ground (arith, f.buffer_eq, ap length f.active_eq);
        })
    | inr space ↦ rw space (record {
      writing = i;
      contents_eq = refl;
      buffer_eq = refl;
      seq_eq = refl;
      room = ground (arith, space);
    })
  ]

  -- With room for a record, `append` adds one.
  pub append-Appended :
      (w : JournalWriter) (ev : E) (ts : ℕ)
      → IsWriting w
      → whole ≤ w.buffer_bytes
      → (w' : JournalWriter) × (append l w ev ts ≡ some w') × Appended w ev ts w'
  unfolding append
  append-Appended w ev ts i enough =
      let ready = make_room-Ready w i in
      let room = make_room w in
      let there : leb whole w.buffer_bytes ≡ true = ground arith in
      let new : JournalWriter = record room {
        active = room.active ++ stored_bytes l.size (stored_as l room.next_seq ev ts);
        next_seq = inc64 room.next_seq;
      } in
      (
        new,
        simp (i.is_open, ready.room, there) refl,
        record {
          writing = record { is_open = ready.writing.is_open; all_write = ready.writing.all_write };
          contents_eq =
              sym (
                append_assoc room.file room.active
                  (stored_bytes l.size (stored_as l room.next_seq ev ts)))
              ∙ ap₂ (λ xs n. xs ++ stored_bytes l.size (stored_as l n ev ts)) ready.contents_eq
                  ready.seq_eq;
          buffer_eq = ready.buffer_eq;
          seq_eq = ap inc64 ready.seq_eq;
        },
      )

  -- An append to an open writer writes behind the end of its buffer exactly if the buffer is smaller than a
  -- record.
  pub append-none :
      (w : JournalWriter) (ev : E) (ts : ℕ)
      → IsWriting w
      → (append l w ev ts ≡ none) ↔ (w.buffer_bytes < whole)
  unfolding append
  append-none w ev ts i =
      let ready = make_room-Ready w i in
      (
        λ e. elim (dec_lt w.buffer_bytes whole) [
          | yes small ↦ small
          | no large ↦
              let (w', there, added) = append-Appended w ev ts i (omega arith) in
              absurd (none-some (sym e ∙ there))
        ],
        λ small.
            let narrow : leb whole w.buffer_bytes ≡ false = ground arith in
            simp (i.is_open, ready.room, narrow) refl,
      )
