-- ===== src/Wal/Record.antt =====
-- The memory of an `Order` and of a `WalRecordHeader`, and back (`bytes_of` and `from_bytes`).
use ultra_low_latency_order.Prelude.{
  ℕ, ◌^◌, ◌<◌, ◌≡◌, refl, List, [], ◌++◌, length, length_append, u64_mod, u32_mod,
}
use ultra_low_latency_order.Types.{Order}
use ultra_low_latency_order.Wal.Bytes.{
  le_bytes, read_word, read_word-u64, read_word-u32, read_word-u16, read_word-u8, length-le_bytes,
}

pub record WalRecordHeader : Type 0 where
  pub seq_id : ℕ
  pub timestamp_ns : ℕ
  pub payload_len : ℕ
  pub crc32 : ℕ

unfoldable pub order_bytes : Order → List ℕ
order_bytes o =
    le_bytes 8 o.id
    ++ (le_bytes 8 o.price
        ++ (le_bytes 8 o.qty
            ++ (le_bytes 8 o.user_id
                ++ (le_bytes 8 o.client_order_id
                    ++ (le_bytes 1 o.side
                        ++ (le_bytes 1 o.order_type
                            ++ (le_bytes 2 o.symbol_id
                                ++ (le_bytes 2 o.magic ++ (le_bytes 2 o.padding ++ [])))))))))

unfoldable pub order_of : List ℕ → Order
order_of bs =
    let (id, bs) = read_word 8 bs in
    let (price, bs) = read_word 8 bs in
    let (qty, bs) = read_word 8 bs in
    let (user_id, bs) = read_word 8 bs in
    let (client_order_id, bs) = read_word 8 bs in
    let (side, bs) = read_word 1 bs in
    let (order_type, bs) = read_word 1 bs in
    let (symbol_id, bs) = read_word 2 bs in
    let (magic, bs) = read_word 2 bs in
    let (padding, bs) = read_word 2 bs in
    record {
      id = id;
      price = price;
      qty = qty;
      user_id = user_id;
      client_order_id = client_order_id;
      side = side;
      order_type = order_type;
      symbol_id = symbol_id;
      magic = magic;
      padding = padding;
    }

unfoldable pub header_bytes : WalRecordHeader → List ℕ
header_bytes h =
    le_bytes 8 h.seq_id
    ++ (le_bytes 8 h.timestamp_ns ++ (le_bytes 4 h.payload_len ++ (le_bytes 4 h.crc32 ++ [])))

unfoldable pub header_of : List ℕ → WalRecordHeader
header_of bs =
    let (seq_id, bs) = read_word 8 bs in
    let (timestamp_ns, bs) = read_word 8 bs in
    let (payload_len, bs) = read_word 4 bs in
    let (crc32, bs) = read_word 4 bs in
    record {
      seq_id = seq_id;
      timestamp_ns = timestamp_ns;
      payload_len = payload_len;
      crc32 = crc32;
    }

-- The fields are words of their widths, which the types of the source say.
pub record IsWords (o : Order) : Type 0 where
  pub id_fits : o.id < u64_mod
  pub price_fits : o.price < u64_mod
  pub qty_fits : o.qty < u64_mod
  pub user_fits : o.user_id < u64_mod
  pub client_fits : o.client_order_id < u64_mod
  pub side_fits : o.side < 256
  pub type_fits : o.order_type < 256
  pub symbol_fits : o.symbol_id < 2 ^ 16
  pub magic_fits : o.magic < 2 ^ 16
  pub padding_fits : o.padding < 2 ^ 16

pub order_of-order_bytes : (o : Order) → IsWords o → order_of (order_bytes o) ≡ o
unfolding order_of order_bytes
order_of-order_bytes o h =
    rw
      (
        read_word-u64 o.id _ h.id_fits,
        read_word-u64 o.price _ h.price_fits,
        read_word-u64 o.qty _ h.qty_fits,
        read_word-u64 o.user_id _ h.user_fits,
        read_word-u64 o.client_order_id _ h.client_fits,
        read_word-u8 o.side _ h.side_fits,
        read_word-u8 o.order_type _ h.type_fits,
        read_word-u16 o.symbol_id _ h.symbol_fits,
        read_word-u16 o.magic _ h.magic_fits,
        read_word-u16 o.padding [] h.padding_fits,
      )
      refl

-- The header's words.
pub record IsHeaderWords (h : WalRecordHeader) : Type 0 where
  pub seq_fits : h.seq_id < u64_mod
  pub timestamp_fits : h.timestamp_ns < u64_mod
  pub len_fits : h.payload_len < u32_mod
  pub crc_fits : h.crc32 < u32_mod

pub header_of-header_bytes :
    (h : WalRecordHeader) → IsHeaderWords h → header_of (header_bytes h) ≡ h
unfolding header_of header_bytes
header_of-header_bytes h w =
    rw
      (
        read_word-u64 h.seq_id _ w.seq_fits,
        read_word-u64 h.timestamp_ns _ w.timestamp_fits,
        read_word-u32 h.payload_len _ w.len_fits,
        read_word-u32 h.crc32 [] w.crc_fits,
      )
      refl

pub length-order_bytes : (o : Order) → length (order_bytes o) ≡ 48
unfolding order_bytes length
length-order_bytes o =
    rw
      (
        length_append (le_bytes 8 o.id) _,
        length-le_bytes 8 o.id,
        length_append (le_bytes 8 o.price) _,
        length-le_bytes 8 o.price,
        length_append (le_bytes 8 o.qty) _,
        length-le_bytes 8 o.qty,
        length_append (le_bytes 8 o.user_id) _,
        length-le_bytes 8 o.user_id,
        length_append (le_bytes 8 o.client_order_id) _,
        length-le_bytes 8 o.client_order_id,
        length_append (le_bytes 1 o.side) _,
        length-le_bytes 1 o.side,
        length_append (le_bytes 1 o.order_type) _,
        length-le_bytes 1 o.order_type,
        length_append (le_bytes 2 o.symbol_id) _,
        length-le_bytes 2 o.symbol_id,
        length_append (le_bytes 2 o.magic) _,
        length-le_bytes 2 o.magic,
        length_append (le_bytes 2 o.padding) _,
        length-le_bytes 2 o.padding,
      )
      refl

pub length-header_bytes : (h : WalRecordHeader) → length (header_bytes h) ≡ 24
unfolding header_bytes length
length-header_bytes h =
    rw
      (
        length_append (le_bytes 8 h.seq_id) _,
        length-le_bytes 8 h.seq_id,
        length_append (le_bytes 8 h.timestamp_ns) _,
        length-le_bytes 8 h.timestamp_ns,
        length_append (le_bytes 4 h.payload_len) _,
        length-le_bytes 4 h.payload_len,
        length_append (le_bytes 4 h.crc32) _,
        length-le_bytes 4 h.crc32,
      )
      refl
