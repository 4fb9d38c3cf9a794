-- ===== src/Core/Crc.antt =====
-- src/core/crc32.cpp and include/mf/core/book_event_crc.hpp: the checksum over merged events. The
-- fields are read through `reinterpret_cast`, so their bytes come in the order of a little-endian host.
use hft_feed_handler.Common.{
  ℕ, zero, suc, ◌-◌, ◌/◌, ◌%◌, ◌≡◌, refl, List, [], ◌∷◌, bit_and, bit_xor, u32_mod,
}
use hft_feed_handler.Core.Types.{BookEvent, venue_to_u8, event_type_to_u8}

-- `~x` on a `std::uint32_t`.
abbrev pub not32 : ℕ → ℕ
not32 x = u32_mod - 1 - x

-- One round of the inner loop; the mask is all ones if the low bit is set, and zero if not.
crc_bit : ℕ → ℕ
crc_bit crc =
    let mask = (u32_mod - bit_and crc 1) % u32_mod in bit_xor (crc / 2) (bit_and 0xedb88320 mask)

crc_bits : ℕ → ℕ → ℕ
unfolding crc_bit
crc_bits zero crc = crc
crc_bits (suc rounds) crc = crc_bits rounds (crc_bit crc)

crc_bytes : ℕ → List ℕ → ℕ
unfolding crc_bits
crc_bytes crc [] = crc
crc_bytes crc (b ∷ bs) = crc_bytes (crc_bits 8 (bit_xor crc b)) bs

unfoldable pub crc32_update : ℕ → List ℕ → ℕ
unfolding crc_bytes
crc32_update seed bytes = not32 (crc_bytes (not32 seed) bytes)

-- The `n` low bytes of a number, the lowest first.
le_bytes : ℕ → ℕ → List ℕ
le_bytes zero x = []
le_bytes (suc n) x = x % 256 ∷ le_bytes n (x / 256)

unfoldable pub update_crc_from_book_event : ℕ → BookEvent → ℕ
unfolding crc32_update le_bytes venue_to_u8 event_type_to_u8
update_crc_from_book_event crc ev =
    let crc = crc32_update crc (venue_to_u8 ev.venue ∷ []) in
    let crc = crc32_update crc (event_type_to_u8 ev.type ∷ []) in
    let crc = crc32_update crc (le_bytes 8 ev.sequence) in
    let crc = crc32_update crc (le_bytes 8 ev.exchange_ts_ns) in
    let crc = crc32_update crc ev.symbol.bytes in
    let crc = crc32_update crc (le_bytes 8 ev.order_id) in
    let crc = crc32_update crc (le_bytes 4 ev.qty) in crc32_update crc (le_bytes 4 ev.price)

-- The checksum of "123456789" under this polynomial.
check_value :
    crc32_update 0 (0x31 ∷ 0x32 ∷ 0x33 ∷ 0x34 ∷ 0x35 ∷ 0x36 ∷ 0x37 ∷ 0x38 ∷ 0x39 ∷ []) ≡ 0xcbf43926
unfolding crc32_update
check_value = refl
