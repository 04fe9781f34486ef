-- ===== src/Gateway/Tests.antt =====
-- An order of 3 at 100 with the client's id 7, sent from a big-endian client, then an order with
-- another magic and a torn frame; and a fill sent to it.
use ultra_low_latency_order.Prelude.{◌≡◌, refl, List, [], ◌∷◌, ◌++◌, true, arith, length}
use ultra_low_latency_order.Types.{Order, Symbol, Side, new_limit, get_order_type}
use ultra_low_latency_order.Types.Message.{ServerMessage, fill}
use ultra_low_latency_order.Wal.Record.{IsWords}
use ultra_low_latency_order.Gateway.{admit}
use ultra_low_latency_order.Gateway.Words.{Endian, be_bytes}
use ultra_low_latency_order.Gateway.Wire.{
  order_memory, order_from_le, order_from_memory, order_to_le,
}
use ultra_low_latency_order.Wal.Bytes.{read_exact, le_bytes, read_word}
use ultra_low_latency_order.Gateway.Messages.{
  IsMessageWords, message_to_le, message_from_le, message_memory, message_from_memory,
  message_from_le-message_to_le,
}
use ultra_low_latency_order.Gateway.Session.{
  ConnectionEvent, handle_client, inbound, sent, ArePassed, AllWords, handle_client-admitted,
}

abbrev good : Order
good = record (new_limit 7 1 Symbol.eth Side.buy 100 3) { client_order_id = 0 }

abbrev foreign : Order
foreign = record good { magic = 5 }

abbrev orders : List Order
orders = good ∷ foreign ∷ good ∷ []

orders-AllWords : AllWords orders
unfolding AllWords
orders-AllWords =
    let words : IsWords good = record {
      id_fits = omega arith;
      price_fits = omega arith;
      qty_fits = omega arith;
      user_fits = omega arith;
      client_fits = omega arith;
      side_fits = omega arith;
      type_fits = omega arith;
      symbol_fits = omega arith;
      magic_fits = omega arith;
      padding_fits = omega arith;
    } in
    let other : IsWords foreign = record {
      id_fits = omega arith;
      price_fits = omega arith;
      qty_fits = omega arith;
      user_fits = omega arith;
      client_fits = omega arith;
      side_fits = omega arith;
      type_fits = omega arith;
      symbol_fits = omega arith;
      magic_fits = omega arith;
      padding_fits = omega arith;
    } in
    (words, (other, (words, tt)))

handle_client-admitted_example :
    (ps : List Order) × (handle_client Endian.little 4 (sent Endian.big orders ++ (1 ∷ 2 ∷ []))
      ≡ (inbound 4 ps, ConnectionEvent.connected 4 ∷ ConnectionEvent.disconnected 4 ∷ []))
    × ArePassed orders ps
unfolding length
handle_client-admitted_example =
    handle_client-admitted Endian.big Endian.little 4 orders (1 ∷ 2 ∷ []) orders-AllWords
      (omega arith)

-- The first order is passed on with the client's id for its client order id, and none behind it.
read_orders_test :
    (handle_client Endian.little 4 (sent Endian.big orders)).0
    ≡ record { order = record good { id = 0; client_order_id = 7 }; client_id = 4 } ∷ []
unfolding handle_client read_exact sent order_memory be_bytes le_bytes admit order_from_le
    order_from_memory read_word order_to_le get_order_type
read_orders_test = refl

abbrev message : ServerMessage
message = fill 9 7 1 1 4 100 3 true

message-IsMessageWords : IsMessageWords message
message-IsMessageWords = record {
  type_fits = omega arith;
  symbol_fits = omega arith;
  code_fits = omega arith;
  maker_fits = omega arith;
  magic_fits = omega arith;
  padding_fits = omega arith;
  order_fits = omega arith;
  user_fits = omega arith;
  match_fits = omega arith;
  price_fits = omega arith;
  qty_fits = omega arith;
  extra_price_fits = omega arith;
  extra_qty_fits = omega arith;
}

message_from_le-message_to_le_example :
    message_from_le Endian.big (
      message_from_memory Endian.big
        (message_memory Endian.little (message_to_le Endian.little message)))
    ≡ message
message_from_le-message_to_le_example =
    message_from_le-message_to_le Endian.little Endian.big message message-IsMessageWords
