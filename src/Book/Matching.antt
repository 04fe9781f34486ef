-- ===== src/Book/Matching.antt =====
-- `match_level`: the incoming order against the queue of one price level.
pub mod Serve
pub mod Round
pub mod Fill
pub mod Loop
pub mod Fifo
pub mod Sums
mod Tests
use ultra_low_latency_order.Prelude.{
  ℕ, zero, suc, Bool, true, false, not, ◌&&◌, List, [], ◌∷◌, ◌++◌, min, ltb, ◌==◌, if◌then◌else◌,
  add64, sub64, Exec, done, stalled, ◌>>=◌, read, write,
}
use ultra_low_latency_order.Types.{Order, Trade, Side, side_code}
use ultra_low_latency_order.Index.Orders
use ultra_low_latency_order.Index.Clients
use ultra_low_latency_order.Arena.Nodes.{OrderNode, PriceLevelNode}
use ultra_low_latency_order.Arena.Orders.{OrderArena, deallocate}
use ultra_low_latency_order.Arena.Queue.{is_empty, pop_order}

-- What the loop reads and writes: the incoming order, the level, the order arena, two of the
-- indices, the trades so far and the counter of their ids.
pub record MatchState : Type 0 where
  pub incoming : Order
  pub level : PriceLevelNode
  pub order_arena : OrderArena
  pub order_index : Orders.FastOrderIndex
  pub client_order_index : Clients.FastClientIndex
  pub trades : List Trade
  pub trade_id_counter : ℕ

-- The resting order is given with the connection it came from.
abbrev pub trade_of : Order → ℕ → Order × ℕ → ℕ → ℕ → Trade
trade_of incoming taker_client_id (resting, maker_client_id) trade_qty match_id =
    let takes_as_buyer = incoming.side == side_code Side.buy in
    record {
      match_id = match_id;
      maker_order_id = resting.id;
      taker_order_id = incoming.id;
      maker_client_order_id = resting.client_order_id;
      taker_client_order_id = incoming.client_order_id;
      maker_user_id = resting.user_id;
      taker_user_id = incoming.user_id;
      maker_client_id = maker_client_id;
      taker_client_id = taker_client_id;
      buyer_id = if takes_as_buyer then incoming.user_id else resting.user_id;
      seller_id = if takes_as_buyer then resting.user_id else incoming.user_id;
      maker_side = resting.side;
      symbol_id = incoming.symbol_id;
      price = resting.price;
      qty = trade_qty;
    }

-- `order.qty -= qty`
abbrev pub take_qty : Order → ℕ → Order
take_qty o qty = record o { qty = sub64 o.qty qty }

-- The end of a round in which the resting order is filled: it leaves the queue, the arena and the
-- indices.
unfoldable pub retire : MatchState → ℕ → Order → Exec MatchState
unfolding pop_order deallocate Orders.remove Clients.remove
retire s resting_idx filled = do
  (_, level, nodes) ← pop_order s.level s.order_arena.nodes
  arena ← deallocate (record s.order_arena { nodes = nodes }) resting_idx
  (_, order_index) ← Orders.remove s.order_index filled.id
  (_, client_order_index) ←
      Clients.remove s.client_order_index filled.user_id filled.client_order_id
  done (record s {
    level = level;
    order_arena = arena;
    order_index = order_index;
    client_order_index = client_order_index;
  })

-- One round: the trade with the resting order at the head of the queue.
unfoldable pub match_round : ℕ → MatchState → ℕ → OrderNode → Exec MatchState
unfolding retire
match_round taker_client_id s resting_idx resting = do
  let trade_qty = min s.incoming.qty resting.order.qty
  let left = take_qty resting.order trade_qty
  nodes ← write s.order_arena.nodes resting_idx (record resting { order = left })
  let s' : MatchState = record s {
    incoming = take_qty s.incoming trade_qty;
    level = record s.level { total_qty = sub64 s.level.total_qty trade_qty };
    order_arena = record s.order_arena { nodes = nodes };
    trades =
        s.trades
        ++ trade_of s.incoming taker_client_id (resting.order, resting.client_id) trade_qty
            s.trade_id_counter
          ∷ [];
    trade_id_counter = add64 s.trade_id_counter 1;
  }
  (if left.qty == 0 then retire s' resting_idx left else done s')

-- The loop, with the answer whether self-trade prevention has halted it.
unfoldable pub match_level : ℕ → ℕ → MatchState → Exec (Bool × MatchState)
unfolding match_round is_empty
match_level zero taker_client_id s = stalled
match_level (suc fuel) taker_client_id s =
    let round = read s.order_arena.nodes s.level.head_order >>= λ resting.
    let rest =
      match_round taker_client_id s s.level.head_order resting
      >>= match_level fuel taker_client_id in
    if resting.order.user_id == s.incoming.user_id then done (true, s) else rest in
    if ltb 0 s.incoming.qty && not (is_empty s.level) then round else done (false, s)
