-- ===== src/Proto/Mdp3.antt =====
-- include/mf/proto/mdp3, src/parsers/mdp3: `Mdp3Parser`, a packet of messages of little-endian fields.
-- `read_le` guards itself; an element `body[i]` is a read that may not be there, and `none` stands for one
-- outside the packet and for a loop without fuel.
pub mod Events
use hft_feed_handler.Common.{
  ℕ, zero, suc, ◌+◌, ◌*◌, ◌-◌, ◌/◌, ◌%◌, ◌^◌, Bool, true, false, not, ◌&&◌, ◌||◌, Option, none,
  some, List, [], ◌∷◌, ◌++◌, ltb, leb, ◌==◌, if◌then◌else◌, length, get_or, take, drop, min,
  replicate, u32_mod, u64_mod, ◌>>=◌, ℤ, pos, negsuc, signed, quot, to_nat,
}
use hft_feed_handler.Core.Types.{
  BookEvent, default_event, cme, Side, buy, sell, EventType, add, replace, delete, SymbolKey,
}
use hft_feed_handler.Phase2.Tracker.{inc64}
use hft_feed_handler.Proto.Bytes.{Bytes, slice, read, load_le, count}

pub record SbeMessageHeader : Type 0 where
  pub msg_size : ℕ
  pub block_length : ℕ
  pub template_id : ℕ
  pub schema_id : ℕ
  pub version : ℕ

pub record MdpPacketHeader : Type 0 where
  pub msg_seq_num : ℕ
  pub sending_time : ℕ

pub record ParseStats : Type 0 where
  pub template_counts : List ℕ
  pub parsed_messages : ℕ
  pub malformed_messages : ℕ
  pub book_events_emitted : ℕ

-- `read_le<T>` of `n` bytes, 0 where they are not there.
unfoldable pub read_le : Bytes → ℕ → ℕ → ℕ
read_le bytes off n = if leb (off + n) (length bytes) then load_le (slice bytes off n) else 0

unfoldable pub decode_sbe_header : Bytes → Option SbeMessageHeader
decode_sbe_header msg =
    let out : SbeMessageHeader = record {
      msg_size = read_le msg 0 2;
      block_length = read_le msg 2 2;
      template_id = read_le msg 4 2;
      schema_id = read_le msg 6 2;
      version = read_le msg 8 2;
    } in
    if ltb (length msg) 10
    then none
    else if ltb out.msg_size 10 || ltb (length msg) out.msg_size
    then none
    else some out

unfoldable pub decode_mdp_packet_header : Bytes → Option MdpPacketHeader
decode_mdp_packet_header packet =
    if ltb (length packet) 12
    then none
    else some (record { msg_seq_num = read_le packet 0 4; sending_time = read_le packet 4 8 })

-- The decimal digits of a number below `10 ^ fuel`, and `%d` of an integer of 32 bits.
unfoldable pub digits : ℕ → ℕ → Bytes
digits zero n = []
digits (suc fuel) n =
    if ltb n 10 then (n + b'0') ∷ [] else digits fuel (n / 10) ++ (n % 10 + b'0') ∷ []

unfoldable pub print_int : ℤ → Bytes
print_int (pos n) = digits 10 n
print_int (negsuc n) = b'-' ∷ digits 10 (n + 1)

-- The null is `-2^31`, whose bits are `2^31`.
unfoldable pub security_id_to_symbol : ℕ → SymbolKey
security_id_to_symbol security_id =
    if security_id == 2 ^ 31
    then record { bytes = replicate 8 b' ' }
    else record { bytes = take 8 (print_int (signed 32 security_id) ++ replicate 8 b' ') }

unfoldable pub price9_mantissa_to_tick : ℕ → ℕ
price9_mantissa_to_tick mantissa =
    if mantissa == 2 ^ 63 then 0 else min (to_nat (quot (signed 64 mantissa) 100000)) (u32_mod - 1)

unfoldable pub entry_type_to_side : ℕ → Side
entry_type_to_side c = if c == b'0' then buy else if c == b'1' then sell else Side.unknown

unfoldable pub update_action_to_event_type : ℕ → EventType
update_action_to_event_type action =
    if action == 0
    then add
    else if action == 1
    then replace
    else if action == 2 || action == 3 || action == 4
    then delete
    else EventType.unknown

abbrev pub malformed : ParseStats → ParseStats
malformed stats = record stats { malformed_messages = inc64 stats.malformed_messages }

abbrev pub emitted : ParseStats → ParseStats
emitted stats = record stats { book_events_emitted = inc64 stats.book_events_emitted }

-- What the entries of a body share: the packet's sequence and the two times.
pub record Packet : Type 0 where
  pub packet_seq : ℕ
  pub exchange_ts : ℕ
  pub ingest_ts_ns : ℕ

-- The event of the entry `i` at an offset, with its action and type.
unfoldable pub entry_event : Packet → Bytes → ℕ → ℕ → ℕ → ℕ → BookEvent
unfolding security_id_to_symbol price9_mantissa_to_tick
entry_event p body i eoff update_action entry_type =
    let rpt_seq = read_le body (eoff + 16) 4 in
    let sequence = if not (rpt_seq == 0) then rpt_seq else (p.packet_seq * 2 ^ 32) % u64_mod + i in
    record default_event {
      venue = cme;
      type = update_action_to_event_type update_action;
      sequence = sequence;
      exchange_ts_ns = p.exchange_ts;
      ingest_ts_ns = p.ingest_ts_ns;
      symbol = security_id_to_symbol (read_le body (eoff + 12) 4);
      order_id = sequence;
      qty = to_nat (signed 32 (read_le body (eoff + 8) 4));
      price = price9_mantissa_to_tick (read_le body eoff 8);
      side = entry_type_to_side entry_type;
      raw_type = 32;
    }

-- The loop over the entries, for `n` more of them.
unfoldable pub entries_from :
    Packet → Bytes → ℕ → ℕ → ℕ → ℕ → ParseStats → Option (ParseStats × List BookEvent)
entries_from p body start block_len zero i stats = some (stats, [])
entries_from p body start block_len (suc n) i stats =
    let eoff = start + i * block_len in
    let skipped = entries_from p body start block_len n (i + 1) stats in
    let pushed = entries_from p body start block_len n (i + 1) (emitted stats) in
    let entry = (do
      update_action ← read body (eoff + 25) 1
      entry_type ← read body (eoff + 26) 1
      let ev = entry_event p body i eoff (get_or update_action 0 0) (get_or entry_type 0 0)
      let appended = (do r ← pushed; some (r.0, ev ∷ r.1))
      if get_or entry_type 0 0 == b'J' then skipped else appended) in
    if ltb (length body) (eoff + 32) then some (malformed stats, []) else entry

unfoldable pub parse_incremental_refresh_book32 :
    Bytes → ℕ → ℕ → ℕ → ParseStats → Option (ParseStats × List BookEvent)
parse_incremental_refresh_book32 body packet_seq transact_time_ns ingest_ts_ns stats =
    let transact_time = read_le body 0 8 in
    let p : Packet = record {
      packet_seq = packet_seq;
      exchange_ts = if not (transact_time == 0) then transact_time else transact_time_ns;
      ingest_ts_ns = ingest_ts_ns;
    } in
    let entry_block_len = read_le body 11 2 in
    let entries = (do
      entry_count ← read body 13 1
      let rest = entries_from p body 14 entry_block_len (get_or entry_count 0 0) 0 stats
      let bad =
          ltb entry_block_len 32
          || ltb (length body) (14 + get_or entry_count 0 0 * entry_block_len)
      if bad then some (malformed stats, []) else rest) in
    if ltb (length body) 11
    then some (malformed stats, [])
    else if ltb (length body) (11 + 3)
    then some (malformed stats, [])
    else entries

abbrev pub counted : ParseStats → ℕ → ParseStats
counted stats template_id = record stats {
  template_counts = count stats.template_counts (template_id % 256);
  parsed_messages = inc64 stats.parsed_messages;
}

-- A message of the packet, whose body is a span of it: only the book's template makes events.
unfoldable pub parse_body :
    MdpPacketHeader
    → SbeMessageHeader
    → Bytes
    → ℕ
    → ParseStats
    → Option (ParseStats × List BookEvent)
unfolding parse_incremental_refresh_book32
parse_body pkt_hdr hdr msg ingest_ts_ns stats = do
  body ← read msg 10 (hdr.msg_size - 10)
  if hdr.template_id == 32
      then parse_incremental_refresh_book32 body pkt_hdr.msg_seq_num pkt_hdr.sending_time
          ingest_ts_ns stats
      else some (stats, [])

-- The loop over the messages. A message takes ten bytes or more.
unfoldable pub messages_from :
    ℕ → MdpPacketHeader → Bytes → ℕ → ℕ → ParseStats → Option (ParseStats × List BookEvent)
unfolding parse_body
messages_from zero pkt_hdr payload at_byte ingest_ts_ns stats = none
messages_from (suc fuel) pkt_hdr payload at_byte ingest_ts_ns stats =
    let msg = drop at_byte payload in
    let message : Option (ParseStats × List BookEvent) = elim (decode_sbe_header msg) [
      | none ↦ some (malformed stats, [])
      | some hdr ↦ (do
        r ← parse_body pkt_hdr hdr msg ingest_ts_ns (counted stats hdr.template_id)
        rest ← messages_from fuel pkt_hdr payload (at_byte + hdr.msg_size) ingest_ts_ns r.0
        some (rest.0, r.1 ++ rest.1))
    ] in
    if leb (at_byte + 10) (length payload) then message else some (stats, [])

unfoldable pub parse_packet : Bytes → ℕ → ParseStats → Option (ParseStats × List BookEvent)
unfolding decode_mdp_packet_header messages_from
parse_packet udp_payload ingest_ts_ns stats = elim (decode_mdp_packet_header udp_payload) [
  | none ↦ some (malformed stats, [])
  | some pkt_hdr ↦
      messages_from (suc (length udp_payload)) pkt_hdr udp_payload 12 ingest_ts_ns stats
]
