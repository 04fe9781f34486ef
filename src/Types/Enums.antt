-- ===== src/Types/Enums.antt =====
-- The enums of src/types.rs, their wire numbers and the `TryFrom<u8>` / `TryFrom<u16>` conversions.
use ultra_low_latency_order.Prelude.{ℕ, Option, none, some, Bool, true, false, ◌==◌, if◌then◌else◌}

abbrev pub num_symbols : ℕ
num_symbols = 3

pub data Side : Type 0 where
  buy sell : Side

-- `side as u8`
abbrev pub side_code : Side → ℕ
side_code Side.buy = 0
side_code Side.sell = 1

-- `Side::try_from(v).ok()`
unfoldable pub side_of : ℕ → Option Side
side_of v = if v == 0 then some Side.buy else if v == 1 then some Side.sell else none

pub data OrderType : Type 0 where
  limit market cancel deposit : OrderType

abbrev pub order_type_code : OrderType → ℕ
order_type_code OrderType.limit = 0
order_type_code OrderType.market = 1
order_type_code OrderType.cancel = 2
order_type_code OrderType.deposit = 3

unfoldable pub order_type_of : ℕ → Option OrderType
order_type_of v =
    if v == 0
    then some OrderType.limit
    else if v == 1
    then some OrderType.market
    else if v == 2
    then some OrderType.cancel
    else if v == 3
    then some OrderType.deposit
    else none

pub data Symbol : Type 0 where
  btc eth sol : Symbol

abbrev pub symbol_code : Symbol → ℕ
symbol_code Symbol.btc = 0
symbol_code Symbol.eth = 1
symbol_code Symbol.sol = 2

unfoldable pub symbol_of : ℕ → Option Symbol
symbol_of v =
    if v == 0
    then some Symbol.btc
    else if v == 1
    then some Symbol.eth
    else if v == 2
    then some Symbol.sol
    else none

-- The derived `PartialEq` of the two enums that the code compares.
abbrev pub is_type : OrderType → OrderType → Bool
is_type OrderType.limit OrderType.limit = true
is_type OrderType.market OrderType.market = true
is_type OrderType.cancel OrderType.cancel = true
is_type OrderType.deposit OrderType.deposit = true
is_type _ _ = false

abbrev pub is_buy_side : Side → Bool
is_buy_side Side.buy = true
is_buy_side Side.sell = false

pub data ServerMsgType : Type 0 where
  accepted rejected filled cancelled bbo : ServerMsgType

abbrev pub msg_type_code : ServerMsgType → ℕ
msg_type_code ServerMsgType.accepted = 0
msg_type_code ServerMsgType.rejected = 1
msg_type_code ServerMsgType.filled = 2
msg_type_code ServerMsgType.cancelled = 3
msg_type_code ServerMsgType.bbo = 4

pub data RejectReason : Type 0 where
  no_reason invalid_order insufficient_funds order_not_found unauthorized : RejectReason
  engine_full no_liquidity self_trade_prevented : RejectReason

abbrev pub reason_code : RejectReason → ℕ
reason_code RejectReason.no_reason = 0
reason_code RejectReason.invalid_order = 1
reason_code RejectReason.insufficient_funds = 2
reason_code RejectReason.order_not_found = 3
reason_code RejectReason.unauthorized = 4
reason_code RejectReason.engine_full = 5
reason_code RejectReason.no_liquidity = 6
reason_code RejectReason.self_trade_prevented = 7
