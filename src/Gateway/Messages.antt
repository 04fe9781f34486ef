-- ===== src/Gateway/Messages.antt =====
-- `ServerMessage::to_le` and `from_le`, and a message on the wire.
use ultra_low_latency_order.Prelude.{ℕ, ◌^◌, ◌<◌, ◌≡◌, refl, List, [], ◌++◌, u64_mod}
use ultra_low_latency_order.Types.Message.{ServerMessage}
use ultra_low_latency_order.Wal.Bytes.{le_bytes, read_word, read_word-u8, read_word-u16, words}
use ultra_low_latency_order.Gateway.Words.{
  Endian, word_to_le, word_memory, read_memory, word_to_le-word_to_le, word_memory-word_to_le,
  read_memory-le_bytes,
}

module _ (e : Endian) where
  -- `ServerMessage::to_le`
  unfoldable pub message_to_le : ServerMessage → ServerMessage
  unfolding word_to_le
  message_to_le m = record m {
    magic = word_to_le e 2 m.magic;
    order_id = word_to_le e 8 m.order_id;
    user_id = word_to_le e 8 m.user_id;
    match_id = word_to_le e 8 m.match_id;
    price = word_to_le e 8 m.price;
    qty = word_to_le e 8 m.qty;
    extra_price = word_to_le e 8 m.extra_price;
    extra_qty = word_to_le e 8 m.extra_qty;
  }

  -- `ServerMessage::from_le`
  unfoldable pub message_from_le : ServerMessage → ServerMessage
  unfolding word_to_le
  message_from_le m = record m {
    magic = word_to_le e 2 m.magic;
    order_id = word_to_le e 8 m.order_id;
    user_id = word_to_le e 8 m.user_id;
    match_id = word_to_le e 8 m.match_id;
    price = word_to_le e 8 m.price;
    qty = word_to_le e 8 m.qty;
    extra_price = word_to_le e 8 m.extra_price;
    extra_qty = word_to_le e 8 m.extra_qty;
  }

  -- `bytes_of(&msg)`
  unfoldable pub message_memory : ServerMessage → List ℕ
  unfolding word_memory
  message_memory m =
      le_bytes 1 m.msg_type
      ++ (le_bytes 1 m.symbol_id
          ++ (le_bytes 1 m.reject_code
              ++ (le_bytes 1 m.is_maker
                  ++ (word_memory e 2 m.magic
                      ++ (le_bytes 2 m.padding
                          ++ (word_memory e 8 m.order_id
                              ++ (word_memory e 8 m.user_id
                                  ++ (word_memory e 8 m.match_id
                                      ++ (word_memory e 8 m.price
                                          ++ (word_memory e 8 m.qty
                                              ++ (word_memory e 8 m.extra_price
                                                  ++ (word_memory e 8 m.extra_qty ++ []))))))))))))

  -- `*from_bytes(&buffer)`
  unfoldable pub message_from_memory : List ℕ → ServerMessage
  unfolding read_memory
  message_from_memory bs =
      let (msg_type, bs) = read_word 1 bs in
      let (symbol_id, bs) = read_word 1 bs in
      let (reject_code, bs) = read_word 1 bs in
      let (is_maker, bs) = read_word 1 bs in
      let (magic, bs) = read_memory e 2 bs in
      let (padding, bs) = read_word 2 bs in
      let (order_id, bs) = read_memory e 8 bs in
      let (user_id, bs) = read_memory e 8 bs in
      let (match_id, bs) = read_memory e 8 bs in
      let (price, bs) = read_memory e 8 bs in
      let (qty, bs) = read_memory e 8 bs in
      let (extra_price, bs) = read_memory e 8 bs in
      let (extra_qty, bs) = read_memory e 8 bs in
      record {
        msg_type = msg_type;
        symbol_id = symbol_id;
        reject_code = reject_code;
        is_maker = is_maker;
        magic = magic;
        padding = padding;
        order_id = order_id;
        user_id = user_id;
        match_id = match_id;
        price = price;
        qty = qty;
        extra_price = extra_price;
        extra_qty = extra_qty;
      }

-- The fields are words of their widths, which the types of the source say.
pub record IsMessageWords (m : ServerMessage) : Type 0 where
  pub type_fits : m.msg_type < 256
  pub symbol_fits : m.symbol_id < 256
  pub code_fits : m.reject_code < 256
  pub maker_fits : m.is_maker < 256
  pub magic_fits : m.magic < 2 ^ 16
  pub padding_fits : m.padding < 2 ^ 16
  pub order_fits : m.order_id < u64_mod
  pub user_fits : m.user_id < u64_mod
  pub match_fits : m.match_id < u64_mod
  pub price_fits : m.price < u64_mod
  pub qty_fits : m.qty < u64_mod
  pub extra_price_fits : m.extra_price < u64_mod
  pub extra_qty_fits : m.extra_qty < u64_mod

-- What a target sends of a message is what a little-endian one does.
pub message_memory-message_to_le :
    (e : Endian) (m : ServerMessage)
    → message_memory e (message_to_le e m) ≡ message_memory Endian.little m
unfolding message_memory message_to_le word_memory
message_memory-message_to_le e m =
    rw
      (
        word_memory-word_to_le e 2 m.magic,
        word_memory-word_to_le e 8 m.order_id,
        word_memory-word_to_le e 8 m.user_id,
        word_memory-word_to_le e 8 m.match_id,
        word_memory-word_to_le e 8 m.price,
        word_memory-word_to_le e 8 m.qty,
        word_memory-word_to_le e 8 m.extra_price,
        word_memory-word_to_le e 8 m.extra_qty,
      )
      refl

fits64 : (n : ℕ) → n < u64_mod → n < words 8
unfolding words
fits64 n h = h

fits16 : (n : ℕ) → n < 2 ^ 16 → n < words 2
unfolding words
fits16 n h = h

-- A word is read on one target as the other has sent it.
word_over : (e : Endian) (w n : ℕ) → n < words w → word_to_le e w (word_to_le e w n) ≡ n
word_over e w n h = word_to_le-word_to_le e w n h

received :
    (e : Endian) (m : ServerMessage)
    → IsMessageWords m
    → message_from_le e (message_from_memory e (message_memory Endian.little m)) ≡ m
unfolding message_from_le message_from_memory message_memory word_memory
received e m h =
    rw
      (
        read_word-u8 m.msg_type _ h.type_fits,
        read_word-u8 m.symbol_id _ h.symbol_fits,
        read_word-u8 m.reject_code _ h.code_fits,
        read_word-u8 m.is_maker _ h.maker_fits,
        read_memory-le_bytes e 2 m.magic _ (fits16 m.magic h.magic_fits),
        read_word-u16 m.padding _ h.padding_fits,
        read_memory-le_bytes e 8 m.order_id _ (fits64 m.order_id h.order_fits),
        read_memory-le_bytes e 8 m.user_id _ (fits64 m.user_id h.user_fits),
        read_memory-le_bytes e 8 m.match_id _ (fits64 m.match_id h.match_fits),
        read_memory-le_bytes e 8 m.price _ (fits64 m.price h.price_fits),
        read_memory-le_bytes e 8 m.qty _ (fits64 m.qty h.qty_fits),
        read_memory-le_bytes e 8 m.extra_price _ (fits64 m.extra_price h.extra_price_fits),
        read_memory-le_bytes e 8 m.extra_qty [] (fits64 m.extra_qty h.extra_qty_fits),
        word_over e 2 m.magic (fits16 m.magic h.magic_fits),
        word_over e 8 m.order_id (fits64 m.order_id h.order_fits),
        word_over e 8 m.user_id (fits64 m.user_id h.user_fits),
        word_over e 8 m.match_id (fits64 m.match_id h.match_fits),
        word_over e 8 m.price (fits64 m.price h.price_fits),
        word_over e 8 m.qty (fits64 m.qty h.qty_fits),
        word_over e 8 m.extra_price (fits64 m.extra_price h.extra_price_fits),
        word_over e 8 m.extra_qty (fits64 m.extra_qty h.extra_qty_fits),
      )
      refl

-- A message whose fields are words of their widths, sent from a target of either byte order and read
-- on one of either, is the message.
pub message_from_le-message_to_le :
    (e e' : Endian) (m : ServerMessage)
    → IsMessageWords m
    → message_from_le e' (message_from_memory e' (message_memory e (message_to_le e m))) ≡ m
message_from_le-message_to_le e e' m h = rw (message_memory-message_to_le e m) (received e' m h)
