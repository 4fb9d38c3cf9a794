-- ===== src/Proto/Mdp3/Events.antt =====
-- src/parsers/mdp3/mdp3_parser.cpp: a packet is parsed to its end, and its events are counted.
use hft_feed_handler.Common.{
  ℕ, zero, suc, ◌+◌, ◌*◌, ◌-◌, ◌%◌, ◌≤◌, ◌<◌, ◌≡◌, refl, inl, inr, Bool, Bool-cases, Option-cases,
  ◌||◌, Option, some, List, [], ltb, leb, ◌==◌, length, get_or, drop, u64_mod, arith, ltb-false→le,
  leb→le, length-append,
}
use hft_feed_handler.Core.Types.{BookEvent}
use hft_feed_handler.Proto.Bytes.{Bytes, read, slice, read_within}
use hft_feed_handler.Proto.Mdp3.{
  ParseStats, SbeMessageHeader, MdpPacketHeader, Packet, read_le, decode_sbe_header,
  decode_mdp_packet_header, malformed, emitted, counted, entries_from,
  parse_incremental_refresh_book32, parse_body, messages_from, parse_packet,
}

-- A parse that started at a count of events has a result, with the count moved on by its events.
abbrev pub Emits : ℕ → Option (ParseStats × List BookEvent) → Type 0
Emits before o =
    (r : ParseStats × List BookEvent) × (o ≡ some r)
    × (r.0.book_events_emitted ≡ (before + length r.1) % u64_mod)

nothing :
    (stats : ParseStats) (before : ℕ)
    → stats.book_events_emitted ≡ before
    → before < u64_mod
    → Emits before (some (stats, []))
nothing stats before e small = ((stats, []), refl, omega (arith, e))

entries_from-Emits :
    (p : Packet) (body : Bytes) (start block_len n i : ℕ) (stats : ParseStats)
    → stats.book_events_emitted < u64_mod
    → Emits stats.book_events_emitted (entries_from p body start block_len n i stats)
unfolding entries_from
entries_from-Emits p body start block_len zero i stats small = nothing stats _ refl small
entries_from-Emits p body start block_len (suc n) i stats small =
    let eoff = start + i * block_len in
    let skipped = entries_from-Emits p body start block_len n (i + 1) stats small in
    let pushed =
      entries_from-Emits p body start block_len n (i + 1) (emitted stats) (omega arith) in
    elim (Bool-cases (ltb (length body) (eoff + 32))) [
      | inl short ↦ rw short (nothing (malformed stats) _ refl small)
      | inr long ↦
          let fits : eoff + 32 ≤ length body = ltb-false→le _ _ long in
          elim (Bool-cases (get_or (slice body (eoff + 26) 1) 0 0 == b'J')) [
            | inl summary ↦
                rw
                  (
                    long,
                    read_within body (eoff + 25) 1 (omega (arith, fits)),
                    read_within body (eoff + 26) 1 (omega (arith, fits)),
                    summary,
                  )
                  skipped
            | inr event ↦
                rw
                  (
                    long,
                    read_within body (eoff + 25) 1 (omega (arith, fits)),
                    read_within body (eoff + 26) 1 (omega (arith, fits)),
                    event,
                    pushed.1,
                  )
                  (_, refl, omega (arith, pushed.2))
          ]
    ]

parse_book-Emits :
    (body : Bytes) (packet_seq transact_time_ns ingest_ts_ns : ℕ) (stats : ParseStats)
    → stats.book_events_emitted < u64_mod
    → Emits stats.book_events_emitted
        (parse_incremental_refresh_book32 body packet_seq transact_time_ns ingest_ts_ns stats)
unfolding parse_incremental_refresh_book32
parse_book-Emits body packet_seq transact_time_ns ingest_ts_ns stats small =
    elim (Bool-cases (ltb (length body) 11)) [
      | inl short ↦ rw short (nothing (malformed stats) _ refl small)
      | inr long ↦ elim (Bool-cases (ltb (length body) (11 + 3))) [
        | inl no_group ↦ rw (long, no_group) (nothing (malformed stats) _ refl small)
        | inr group ↦ elim (Bool-cases bad) [
          | inl b ↦
              rw (long, group, read_within body 13 1 (omega (arith, ltb-false→le _ _ group)), b)
                (nothing (malformed stats) _ refl small)
          | inr good ↦
              rw (long, group, read_within body 13 1 (omega (arith, ltb-false→le _ _ group)), good)
                (entries_from-Emits _ body 14 block_len n 0 stats small)
        ]
      ]
    ]
  where
    n : ℕ
    n = get_or (slice body 13 1) 0 0

    block_len : ℕ
    block_len = read_le body 11 2

    bad : Bool
    bad = ltb block_len 32 || ltb (length body) (14 + n * block_len)

parse_body-Emits :
    (pkt_hdr : MdpPacketHeader) (hdr : SbeMessageHeader) (msg : Bytes) (ingest_ts_ns : ℕ)
    (stats : ParseStats)
    → 10 ≤ hdr.msg_size
    → hdr.msg_size ≤ length msg
    → stats.book_events_emitted < u64_mod
    → Emits stats.book_events_emitted (parse_body pkt_hdr hdr msg ingest_ts_ns stats)
unfolding parse_body
parse_body-Emits pkt_hdr hdr msg ingest_ts_ns stats long fits small =
    elim (Bool-cases (hdr.template_id == 32)) [
      | inl book ↦
          rw (body, book)
            (parse_book-Emits (slice msg 10 (hdr.msg_size - 10)) pkt_hdr.msg_seq_num
              pkt_hdr.sending_time ingest_ts_ns stats small)
      | inr other ↦ rw (body, other) (nothing stats _ refl small)
    ]
  where
    body : read msg 10 (hdr.msg_size - 10) ≡ some (slice msg 10 (hdr.msg_size - 10))
    body = read_within msg 10 (hdr.msg_size - 10) (omega (arith, long, fits))

-- A message's header that is accepted says ten bytes or more, and no more than there are.
decode_sbe_header_fits :
    (msg : Bytes) (hdr : SbeMessageHeader)
    → decode_sbe_header msg ≡ some hdr
    → (10 ≤ hdr.msg_size) × (hdr.msg_size ≤ length msg)
unfolding decode_sbe_header
decode_sbe_header_fits msg hdr e = ground arith

messages_from-Emits :
    (fuel : ℕ) (pkt_hdr : MdpPacketHeader) (payload : Bytes) (at_byte ingest_ts_ns : ℕ)
    (stats : ParseStats)
    → stats.book_events_emitted < u64_mod
    → length payload - at_byte < fuel
    → Emits stats.book_events_emitted
        (messages_from fuel pkt_hdr payload at_byte ingest_ts_ns stats)
unfolding messages_from
messages_from-Emits zero pkt_hdr payload at_byte ingest_ts_ns stats small enough =
    absurd (omega arith)
messages_from-Emits (suc fuel) pkt_hdr payload at_byte ingest_ts_ns stats small enough =
    elim (Bool-cases (leb (at_byte + 10) (length payload))) [
      | inr over ↦ rw (messages_from, over) (nothing stats _ refl small)
      | inl more ↦ elim (Option-cases (decode_sbe_header (drop at_byte payload))) [
        | inl e ↦ rw (messages_from, more, e) (nothing (malformed stats) _ refl small)
        | inr (hdr, e) ↦
            let (long, fits) = decode_sbe_header_fits (drop at_byte payload) hdr e in
            let first =
              parse_body-Emits pkt_hdr hdr (drop at_byte payload) ingest_ts_ns
                (counted stats hdr.template_id) long fits small in
            let rest =
              messages_from-Emits fuel pkt_hdr payload (at_byte + hdr.msg_size) ingest_ts_ns
                first.0.0 (omega (arith, first.2))
                (omega (arith, enough, long, leb→le (at_byte + 10) (length payload) more)) in
            rw (messages_from, more, e, first.1, rest.1)
              (_, refl, omega (arith, first.2, rest.2, length-append first.0.1 rest.0.1))
      ]
    ]

-- Whatever the bytes of a packet, `parse_packet` reads nothing outside it, comes to an end, and counts
-- each event that it returns, modulo 2^64.
pub parse_packet-Emits :
    (udp_payload : Bytes) (ingest_ts_ns : ℕ) (stats : ParseStats)
    → stats.book_events_emitted < u64_mod
    → Emits stats.book_events_emitted (parse_packet udp_payload ingest_ts_ns stats)
unfolding parse_packet
parse_packet-Emits udp_payload ingest_ts_ns stats small =
    elim (Option-cases (decode_mdp_packet_header udp_payload)) [
      | inl e ↦ rw (parse_packet, e) (nothing (malformed stats) _ refl small)
      | inr (pkt_hdr, e) ↦
          rw (parse_packet, e)
            (messages_from-Emits (suc (length udp_payload)) pkt_hdr udp_payload 12 ingest_ts_ns
              stats small (omega arith))
    ]
