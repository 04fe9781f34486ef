-- ===== src/Types/Request.antt =====
-- `Order`, its constructors and accessors, `Trade` and `MarketDepthLevel` (src/types.rs).
use ultra_low_latency_order.Prelude.{ℕ, Option, none, some}
use ultra_low_latency_order.Types.Enums.{
  Side, side_code, side_of, OrderType, order_type_code, order_type_of, Symbol, symbol_code,
  symbol_of,
}

-- "OB"
abbrev pub order_magic : ℕ
order_magic = 0x4F42

-- The padding is its two bytes, as one number.
pub record Order : Type 0 where
  pub id : ℕ
  pub price : ℕ
  pub qty : ℕ
  pub user_id : ℕ
  pub client_order_id : ℕ
  pub side : ℕ
  pub order_type : ℕ
  pub symbol_id : ℕ
  pub magic : ℕ
  pub padding : ℕ

-- `Order::default()`
abbrev pub default_order : Order
default_order = record {
  id = 0;
  price = 0;
  qty = 0;
  user_id = 0;
  client_order_id = 0;
  side = 0;
  order_type = 0;
  symbol_id = 0;
  magic = order_magic;
  padding = 0;
}

-- `Order::new_limit`
abbrev pub new_limit : ℕ → ℕ → Symbol → Side → ℕ → ℕ → Order
new_limit id user_id symbol side price qty = record {
  id = id;
  price = price;
  qty = qty;
  user_id = user_id;
  client_order_id = id;
  side = side_code side;
  order_type = order_type_code OrderType.limit;
  symbol_id = symbol_code symbol;
  magic = order_magic;
  padding = 0;
}

-- `Order::new_client_limit`: the id is left to the exchange.
abbrev pub new_client_limit : ℕ → ℕ → Symbol → Side → ℕ → ℕ → Order
new_client_limit client_order_id user_id symbol side price qty = record {
  id = 0;
  price = price;
  qty = qty;
  user_id = user_id;
  client_order_id = client_order_id;
  side = side_code side;
  order_type = order_type_code OrderType.limit;
  symbol_id = symbol_code symbol;
  magic = order_magic;
  padding = 0;
}

-- `Order::new_market`
abbrev pub new_market : ℕ → ℕ → Symbol → Side → ℕ → ℕ → Order
new_market id user_id symbol side qty max_spend_or_slippage_price = record {
  id = id;
  price = max_spend_or_slippage_price;
  qty = qty;
  user_id = user_id;
  client_order_id = id;
  side = side_code side;
  order_type = order_type_code OrderType.market;
  symbol_id = symbol_code symbol;
  magic = order_magic;
  padding = 0;
}

-- `Order::new_cancel`
abbrev pub new_cancel : ℕ → ℕ → Symbol → Order
new_cancel target_id user_id symbol = record {
  id = target_id;
  price = 0;
  qty = 0;
  user_id = user_id;
  client_order_id = target_id;
  side = 0;
  order_type = order_type_code OrderType.cancel;
  symbol_id = symbol_code symbol;
  magic = order_magic;
  padding = 0;
}

-- `Order::new_deposit`
abbrev pub new_deposit : ℕ → ℕ → ℕ → ℕ → Order
new_deposit user_id usd_amount symbol_id asset_amount = record {
  id = 0;
  price = usd_amount;
  qty = asset_amount;
  user_id = user_id;
  client_order_id = 0;
  side = 0;
  order_type = order_type_code OrderType.deposit;
  symbol_id = symbol_id;
  magic = order_magic;
  padding = 0;
}

unfoldable pub get_side : Order → Option Side
unfolding side_of
get_side o = side_of o.side

unfoldable pub get_order_type : Order → Option OrderType
unfolding order_type_of
get_order_type o = order_type_of o.order_type

unfoldable pub get_symbol : Order → Option Symbol
unfolding symbol_of
get_symbol o = symbol_of o.symbol_id

-- `get_order_type().unwrap_or(OrderType::Limit)` and `get_side().unwrap_or(Side::Buy)`, by which
-- the risk engine, the book and the exchange read an order.
abbrev pub type_or_limit : Order → OrderType
type_or_limit o = elim (get_order_type o) [ none ↦ OrderType.limit | some t ↦ t ]

abbrev pub side_or_buy : Order → Side
side_or_buy o = elim (get_side o) [ none ↦ Side.buy | some s ↦ s ]

pub record Trade : Type 0 where
  pub match_id : ℕ
  pub maker_order_id : ℕ
  pub taker_order_id : ℕ
  pub maker_client_order_id : ℕ
  pub taker_client_order_id : ℕ
  pub maker_user_id : ℕ
  pub taker_user_id : ℕ
  pub maker_client_id : ℕ
  pub taker_client_id : ℕ
  pub buyer_id : ℕ
  pub seller_id : ℕ
  pub maker_side : ℕ
  pub symbol_id : ℕ
  pub price : ℕ
  pub qty : ℕ

pub record MarketDepthLevel : Type 0 where
  pub price : ℕ
  pub total_qty : ℕ
  pub order_count : ℕ
