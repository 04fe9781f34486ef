-- ===== src/Gateway/Wire.antt =====
-- `to_le` and `from_le` of `Order` and `ServerMessage` (src/types.rs), on a target of either byte
-- order, and what goes over the wire.
use ultra_low_latency_order.Prelude.{ℕ, ◌^◌, ◌<◌, ◌≡◌, refl, List, [], ◌++◌, u64_mod}
use ultra_low_latency_order.Types.{Order}
use ultra_low_latency_order.Wal.Bytes.{words, le_bytes, read_word, read_word-u8, read_word-u16}
use ultra_low_latency_order.Wal.Record.{order_bytes, IsWords}
use ultra_low_latency_order.Gateway.Words.{
  Endian, word_to_le, word_memory, read_memory, word_to_le-word_to_le, word_memory-word_to_le,
  read_memory-le_bytes,
}

module _ (e : Endian) where
  -- `Order::to_le`
  unfoldable pub order_to_le : Order → Order
  unfolding word_to_le
  order_to_le o = record o {
    id = word_to_le e 8 o.id;
    price = word_to_le e 8 o.price;
    qty = word_to_le e 8 o.qty;
    user_id = word_to_le e 8 o.user_id;
    client_order_id = word_to_le e 8 o.client_order_id;
    symbol_id = word_to_le e 2 o.symbol_id;
    magic = word_to_le e 2 o.magic;
  }

  -- `Order::from_le`
  unfoldable pub order_from_le : Order → Order
  unfolding word_to_le
  order_from_le o = record o {
    id = word_to_le e 8 o.id;
    price = word_to_le e 8 o.price;
    qty = word_to_le e 8 o.qty;
    user_id = word_to_le e 8 o.user_id;
    client_order_id = word_to_le e 8 o.client_order_id;
    symbol_id = word_to_le e 2 o.symbol_id;
    magic = word_to_le e 2 o.magic;
  }

  -- `bytes_of(&order)`: the fields in their order, the two bytes of padding as they are.
  unfoldable pub order_memory : Order → List ℕ
  unfolding word_memory
  order_memory o =
      word_memory e 8 o.id
      ++ (word_memory e 8 o.price
          ++ (word_memory e 8 o.qty
              ++ (word_memory e 8 o.user_id
                  ++ (word_memory e 8 o.client_order_id
                      ++ (le_bytes 1 o.side
                          ++ (le_bytes 1 o.order_type
                              ++ (word_memory e 2 o.symbol_id
                                  ++ (word_memory e 2 o.magic
                                      ++ (le_bytes 2 o.padding ++ [])))))))))

  -- `*from_bytes(&buffer)`
  unfoldable pub order_from_memory : List ℕ → Order
  unfolding read_memory
  order_from_memory bs =
      let (id, bs) = read_memory e 8 bs in
      let (price, bs) = read_memory e 8 bs in
      let (qty, bs) = read_memory e 8 bs in
      let (user_id, bs) = read_memory e 8 bs in
      let (client_order_id, bs) = read_memory e 8 bs in
      let (side, bs) = read_word 1 bs in
      let (order_type, bs) = read_word 1 bs in
      let (symbol_id, bs) = read_memory e 2 bs in
      let (magic, bs) = read_memory e 2 bs in
      let (padding, bs) = read_word 2 bs in
      record {
        id = id;
        price = price;
        qty = qty;
        user_id = user_id;
        client_order_id = client_order_id;
        side = side;
        order_type = order_type;
        symbol_id = symbol_id;
        magic = magic;
        padding = padding;
      }

  fits64 : (n : ℕ) → n < u64_mod → n < words 8
  unfolding words
  fits64 n h = h

  fits16 : (n : ℕ) → n < 2 ^ 16 → n < words 2
  unfolding words
  fits16 n h = h

  -- What a target sends of an order is little-endian.
  pub order_memory-order_to_le : (o : Order) → order_memory (order_to_le o) ≡ order_bytes o
  unfolding order_memory order_to_le order_bytes
  order_memory-order_to_le o =
      rw
        (
          word_memory-word_to_le e 8 o.id,
          word_memory-word_to_le e 8 o.price,
          word_memory-word_to_le e 8 o.qty,
          word_memory-word_to_le e 8 o.user_id,
          word_memory-word_to_le e 8 o.client_order_id,
          word_memory-word_to_le e 2 o.symbol_id,
          word_memory-word_to_le e 2 o.magic,
        )
        refl

  -- What a target reads of it is the order, once `from_le` has been applied.
  pub order_from_le-order_bytes :
      (o : Order) → IsWords o → order_from_le (order_from_memory (order_bytes o)) ≡ o
  unfolding order_from_le order_from_memory order_bytes
  order_from_le-order_bytes o h =
      rw
        (
          read_memory-le_bytes e 8 o.id _ (fits64 o.id h.id_fits),
          read_memory-le_bytes e 8 o.price _ (fits64 o.price h.price_fits),
          read_memory-le_bytes e 8 o.qty _ (fits64 o.qty h.qty_fits),
          read_memory-le_bytes e 8 o.user_id _ (fits64 o.user_id h.user_fits),
          read_memory-le_bytes e 8 o.client_order_id _ (fits64 o.client_order_id h.client_fits),
          read_word-u8 o.side _ h.side_fits,
          read_word-u8 o.order_type _ h.type_fits,
          read_memory-le_bytes e 2 o.symbol_id _ (fits16 o.symbol_id h.symbol_fits),
          read_memory-le_bytes e 2 o.magic _ (fits16 o.magic h.magic_fits),
          read_word-u16 o.padding [] h.padding_fits,
          word_to_le-word_to_le e 8 o.id (fits64 o.id h.id_fits),
          word_to_le-word_to_le e 8 o.price (fits64 o.price h.price_fits),
          word_to_le-word_to_le e 8 o.qty (fits64 o.qty h.qty_fits),
          word_to_le-word_to_le e 8 o.user_id (fits64 o.user_id h.user_fits),
          word_to_le-word_to_le e 8 o.client_order_id (fits64 o.client_order_id h.client_fits),
          word_to_le-word_to_le e 2 o.symbol_id (fits16 o.symbol_id h.symbol_fits),
          word_to_le-word_to_le e 2 o.magic (fits16 o.magic h.magic_fits),
        )
        refl
