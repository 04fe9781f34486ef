-- ===== src/Book/State.antt =====
-- The fields of `OrderBook`, and the report of a match.
use ultra_low_latency_order.Prelude.{ℕ, Bool, add64}
use ultra_low_latency_order.Types.{Symbol}
use ultra_low_latency_order.Index.Orders
use ultra_low_latency_order.Index.Prices
use ultra_low_latency_order.Index.Clients
use ultra_low_latency_order.Arena.Nodes.{null_idx, max_arena_orders, max_price_levels}
use ultra_low_latency_order.Arena.Orders.{OrderArena, new_order_arena}
use ultra_low_latency_order.Arena.Levels.{PriceLevelArena, new_level_arena}

pub record ExecutionReport : Type 0 where
  pub executed_qty : ℕ
  pub remaining_qty : ℕ
  pub stp_triggered : Bool

pub record OrderBook : Type 0 where
  pub symbol : Symbol
  pub best_bid : ℕ
  pub best_ask : ℕ
  pub price_index : Prices.FastPriceIndex
  pub level_arena : PriceLevelArena
  pub order_arena : OrderArena
  pub order_index : Orders.FastOrderIndex
  pub client_order_index : Clients.FastClientIndex
  pub trade_id_counter : ℕ
  pub order_id_counter : ℕ

-- `OrderBook::new`
unfoldable pub new_book : Symbol → OrderBook
unfolding new_order_arena new_level_arena
new_book symbol = record {
  symbol = symbol;
  best_bid = null_idx;
  best_ask = null_idx;
  price_index = Prices.new_index;
  level_arena = new_level_arena max_price_levels;
  order_arena = new_order_arena max_arena_orders;
  order_index = Orders.new_index;
  client_order_index = Clients.new_index;
  trade_id_counter = 1;
  order_id_counter = 1;
}

-- `OrderBook::next_order_id`
unfoldable pub next_order_id : OrderBook → ℕ × OrderBook
next_order_id b = (b.order_id_counter, record b { order_id_counter = add64 b.order_id_counter 1 })
