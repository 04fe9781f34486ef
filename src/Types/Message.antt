-- ===== src/Types/Message.antt =====
-- `ServerMessage` and its constructors (src/types.rs).
use ultra_low_latency_order.Prelude.{ℕ, Bool, if◌then◌else◌}
use ultra_low_latency_order.Types.Enums.{ServerMsgType, msg_type_code, RejectReason, reason_code}
use ultra_low_latency_order.Types.Request.{order_magic}

-- The padding is its two bytes, as one number.
pub record ServerMessage : Type 0 where
  pub msg_type : ℕ
  pub symbol_id : ℕ
  pub reject_code : ℕ
  pub is_maker : ℕ
  pub magic : ℕ
  pub padding : ℕ
  pub order_id : ℕ
  pub user_id : ℕ
  pub match_id : ℕ
  pub price : ℕ
  pub qty : ℕ
  pub extra_price : ℕ
  pub extra_qty : ℕ

-- What the constructors share; each sets the fields that are its own.
abbrev pub blank : ServerMsgType → ℕ → ServerMessage
blank msg_type symbol_id = record {
  msg_type = msg_type_code msg_type;
  symbol_id = symbol_id;
  reject_code = 0;
  is_maker = 0;
  magic = order_magic;
  padding = 0;
  order_id = 0;
  user_id = 0;
  match_id = 0;
  price = 0;
  qty = 0;
  extra_price = 0;
  extra_qty = 0;
}

abbrev pub ack : ℕ → ℕ → ℕ → ℕ → ServerMessage
ack order_id client_order_id user_id symbol_id = record (blank ServerMsgType.accepted symbol_id) {
  order_id = order_id;
  user_id = user_id;
  extra_price = client_order_id;
}

abbrev pub reject : ℕ → ℕ → ℕ → ℕ → RejectReason → ServerMessage
reject order_id client_order_id user_id symbol_id reason =
    record (blank ServerMsgType.rejected symbol_id) {
      reject_code = reason_code reason;
      order_id = order_id;
      user_id = user_id;
      extra_price = client_order_id;
    }

abbrev pub fill : ℕ → ℕ → ℕ → ℕ → ℕ → ℕ → ℕ → Bool → ServerMessage
fill order_id client_order_id user_id symbol_id match_id price qty is_maker =
    record (blank ServerMsgType.filled symbol_id) {
      is_maker = if is_maker then 1 else 0;
      order_id = order_id;
      user_id = user_id;
      match_id = match_id;
      price = price;
      qty = qty;
      extra_price = client_order_id;
    }

abbrev pub cancel_ok : ℕ → ℕ → ℕ → ℕ → ℕ → ServerMessage
cancel_ok order_id client_order_id user_id symbol_id unexecuted_qty =
    record (blank ServerMsgType.cancelled symbol_id) {
      order_id = order_id;
      user_id = user_id;
      qty = unexecuted_qty;
      extra_price = client_order_id;
    }

abbrev pub bbo : ℕ → ℕ → ℕ → ℕ → ℕ → ServerMessage
bbo symbol_id bid_price bid_qty ask_price ask_qty = record (blank ServerMsgType.bbo symbol_id) {
  price = bid_price;
  qty = bid_qty;
  extra_price = ask_price;
  extra_qty = ask_qty;
}
