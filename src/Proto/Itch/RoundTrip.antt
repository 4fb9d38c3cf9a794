-- ===== src/Proto/Itch/RoundTrip.antt =====
-- include/mf/proto/nasdaq/itch50_messages.hpp: an addition written field by field in the order of its
-- struct, and read back.
use hft_feed_handler.Common.{
  take_all, take_first, drop_first, ℕ, ◌^◌, ◌<◌, ◌≡◌, ap, ◌∙◌, some, ◌∷◌, ◌++◌, length, take, drop,
  arith, le→ltb, length-append,
}
use hft_feed_handler.Core.Types.{BookEvent, add}
use hft_feed_handler.Proto.Bytes.{
  Bytes, read_within, read_be, store_be, store_le, reversed, read_be-store_be,
}
use hft_feed_handler.Proto.Itch.Messages.{add_order_message}
use hft_feed_handler.Proto.Itch.{
  ParseStats, counted, decode_ts6, decode_side, start_event, parse_message, sized, switch, case_for,
  on_add,
}

-- The bytes of an addition behind its type.
abbrev pub add_order_bytes : ℕ → ℕ → ℕ → ℕ → ℕ → ℕ → Bytes → ℕ → Bytes
add_order_bytes locate tracking ts order_ref side shares stock price =
    store_be 2 locate
    ++ store_be 2 tracking
    ++ store_be 6 ts
    ++ store_be 8 order_ref
    ++ side ∷ store_be 4 shares
    ++ stock
    ++ store_be 4 price

decode_ts6-store_be : (ts : ℕ) → ts < 2 ^ 48 → decode_ts6 (store_be 6 ts) ≡ ts
unfolding decode_ts6 store_be store_le reversed
decode_ts6-store_be ts h = omega arith

length-add_order_bytes :
    (locate tracking ts order_ref side shares : ℕ) (stock : Bytes) (price : ℕ)
    → length stock ≡ 8
    → length (add_order_bytes locate tracking ts order_ref side shares stock price) ≡ 35
unfolding store_be store_le reversed
length-add_order_bytes locate tracking ts order_ref side shares stock price h =
    omega (arith, length-append stock (store_be 4 price))

on_add-add_order_bytes :
    (ev : BookEvent) (locate tracking ts order_ref side shares : ℕ) (stock : Bytes) (price : ℕ)
    → ts < 2 ^ 48
    → order_ref < 2 ^ 64
    → shares < 2 ^ 32
    → length stock ≡ 8
    → price < 2 ^ 32
    → on_add ev (add_order_bytes locate tracking ts order_ref side shares stock price) ≡ record ev {
      type = add;
      exchange_ts_ns = ts;
      order_id = order_ref;
      qty = shares;
      price = price;
      side = decode_side side;
      symbol = record { bytes = stock };
    }
unfolding on_add add_order_message store_be store_le reversed
on_add-add_order_bytes ev locate tracking ts order_ref side shares stock price hts href hsh hst
      hpr =
    λ i. record ev {
      type = add;
      exchange_ts_ns = decode_ts6-store_be ts hts i;
      order_id = read_be-store_be 8 order_ref (omega arith) i;
      qty = read_be-store_be 4 shares (omega arith) i;
      price = price_read i;
      side = decode_side side;
      symbol = record { bytes = take_first 8 stock (store_be 4 price) hst i };
    }
  where
    price_read : read_be (take 4 (drop 8 (stock ++ store_be 4 price))) ≡ price
    price_read =
        ap (λ bs. read_be (take 4 bs)) (drop_first 8 stock (store_be 4 price) hst)
        ∙ read_be-store_be 4 price (omega arith)

-- An addition written in the order of its struct is read back: on a payload of its type and these
-- bytes, with fields that fit and a symbol of eight bytes, `parse_message` counts the message and gives
-- the event with the same time, order, side, quantity, symbol and price.
pub parse_message-add_order_bytes :
    (locate tracking ts order_ref side shares : ℕ) (stock : Bytes) (price sequence ingest_ts_ns : ℕ)
    (stats : ParseStats)
    → ts < 2 ^ 48
    → order_ref < 2 ^ 64
    → shares < 2 ^ 32
    → length stock ≡ 8
    → price < 2 ^ 32
    → parse_message
        (b'A' ∷ add_order_bytes locate tracking ts order_ref side shares stock price)
        sequence
        ingest_ts_ns
        stats
      ≡ some (
        counted stats b'A',
        some (record (start_event b'A' sequence ingest_ts_ns) {
          type = add;
          exchange_ts_ns = ts;
          order_id = order_ref;
          qty = shares;
          price = price;
          side = decode_side side;
          symbol = record { bytes = stock };
        }),
      )
unfolding parse_message switch case_for sized
parse_message-add_order_bytes locate tracking ts order_ref side shares stock price sequence
      ingest_ts_ns stats hts href hsh hst hpr =
    rw
      (
        le→ltb (length (b'A' ∷ body)) 36 (omega (arith, whole)),
        read_within (b'A' ∷ body) 1 35 (omega (arith, whole)),
        all_taken,
      )
      (λ i. some (
        counted stats b'A',
        some (
            on_add-add_order_bytes (start_event b'A' sequence ingest_ts_ns) locate tracking ts
              order_ref side shares stock price hts href hsh hst hpr i),
      ))
  where
    body : Bytes
    body = add_order_bytes locate tracking ts order_ref side shares stock price

    whole : length body ≡ 35
    whole = length-add_order_bytes locate tracking ts order_ref side shares stock price hst

    all_taken : take 35 body ≡ body
    all_taken = take_all 35 body (omega (arith, whole))
