-- ===== src/Book/View.antt =====
-- `get_bbo` and `get_depth`.
pub mod Depth
use ultra_low_latency_order.Prelude.{
  ℕ, zero, suc, Option, none, some, List, [], ◌∷◌, ◌==◌, if◌then◌else◌, Exec, done, ◌>>=◌, read,
}
use ultra_low_latency_order.Types.{MarketDepthLevel}
use ultra_low_latency_order.Arena.Nodes.{null_idx}
use ultra_low_latency_order.Book.State.{OrderBook}
use ultra_low_latency_order.Book.Ladder.{LevelNodes}

-- Price and total quantity of the level at the head of a side.
unfoldable pub top_of : LevelNodes → ℕ → Exec (Option (ℕ × ℕ))
top_of ns head =
    if head == null_idx
    then done none
    else (read ns head >>= λ node. done (some (node.price, node.total_qty)))

unfoldable pub get_bbo : OrderBook → Exec (Option (ℕ × ℕ) × Option (ℕ × ℕ))
unfolding top_of
get_bbo b = do
  bid ← top_of b.level_arena.nodes b.best_bid
  ask ← top_of b.level_arena.nodes b.best_ask
  done (bid, ask)

-- The loop of `get_depth`: at most `max_levels` levels from `curr` on.
unfoldable pub depth_from : ℕ → LevelNodes → ℕ → Exec (List MarketDepthLevel)
depth_from zero ns curr = done []
depth_from (suc max_levels) ns curr =
    let on = read ns curr >>= λ node. depth_from max_levels ns node.next_level >>= λ rest. done (
      record { price = node.price; total_qty = node.total_qty; order_count = node.order_count }
      ∷ rest) in
    if curr == null_idx then done [] else on

unfoldable pub get_depth : OrderBook → ℕ → Exec (List MarketDepthLevel × List MarketDepthLevel)
unfolding depth_from
get_depth b max_levels = do
  bids ← depth_from max_levels b.level_arena.nodes b.best_bid
  asks ← depth_from max_levels b.level_arena.nodes b.best_ask
  done (bids, asks)
