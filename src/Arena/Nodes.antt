-- ===== src/Arena/Nodes.antt =====
-- `OrderNode`, `PriceLevelNode` and their defaults.
use ultra_low_latency_order.Prelude.{ℕ, Bool, false}
use ultra_low_latency_order.Types.{Order, default_order}

-- `u32::MAX`
abbrev pub null_idx : ℕ
null_idx = 0xFFFF_FFFF

abbrev pub max_arena_orders : ℕ
max_arena_orders = 131_072

abbrev pub max_price_levels : ℕ
max_price_levels = 4_096

pub record OrderNode : Type 0 where
  pub order : Order
  pub prev : ℕ
  pub next : ℕ
  pub client_id : ℕ
  pub active : Bool

abbrev pub default_order_node : OrderNode
default_order_node = record {
  order = default_order;
  prev = null_idx;
  next = null_idx;
  client_id = 0;
  active = false;
}

pub record PriceLevelNode : Type 0 where
  pub price : ℕ
  pub head_order : ℕ
  pub tail_order : ℕ
  pub prev_level : ℕ
  pub next_level : ℕ
  pub total_qty : ℕ
  pub order_count : ℕ
  pub next_free : ℕ
  pub active : Bool

abbrev pub default_level_node : PriceLevelNode
default_level_node = record {
  price = 0;
  head_order = null_idx;
  tail_order = null_idx;
  prev_level = null_idx;
  next_level = null_idx;
  total_qty = 0;
  order_count = 0;
  next_free = null_idx;
  active = false;
}
