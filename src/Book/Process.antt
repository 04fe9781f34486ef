-- ===== src/Book/Process.antt =====
-- `OrderBook::process`.
use ultra_low_latency_order.Prelude.{
  ℕ, zero, suc, ◌+◌, ◌-◌, Bool, true, false, not, ◌&&◌, ◌||◌, none, some, List, ltb, ◌==◌, max,
  if◌then◌else◌, add64, Exec, done, stalled, ◌>>=◌, read, write,
}
use ultra_low_latency_order.Types.{
  Order, Trade, Side, side_code, OrderType, is_type, type_or_limit, Result, ok, err,
}
use ultra_low_latency_order.Index.Orders as OrderIndex
use ultra_low_latency_order.Index.Prices
use ultra_low_latency_order.Index.Clients
use ultra_low_latency_order.Arena.Nodes.{null_idx, PriceLevelNode}
use ultra_low_latency_order.Arena.Orders
use ultra_low_latency_order.Arena.Levels
use ultra_low_latency_order.Arena.Queue.{push_order}
use ultra_low_latency_order.Book.State.{ExecutionReport, OrderBook}
use ultra_low_latency_order.Book.Ladder.{best, better, set_levels, link_price_level}
use ultra_low_latency_order.Book.Matching.{MatchState, match_level}
use ultra_low_latency_order.Book.Cancel.{drop_if_empty, cancel_order}

-- The two tests that break the matching loop: the price boundary of a limit order, and that of a
-- market order with a nonzero price. The levels are those of the other side.
unfoldable pub out_of_reach : Bool → Order → ℕ → Bool
out_of_reach is_sell o best_price =
    (is_type (type_or_limit o) OrderType.limit && better is_sell best_price o.price)
    || (is_type (type_or_limit o) OrderType.market
        && ltb 0 o.price
        && better is_sell best_price o.price)

-- What the matching loop works on.
pub record Progress : Type 0 where
  pub order : Order
  pub book : OrderBook
  pub trades : List Trade

abbrev pub match_state : Progress → PriceLevelNode → MatchState
match_state p level = record {
  incoming = p.order;
  level = level;
  order_arena = p.book.order_arena;
  order_index = p.book.order_index;
  client_order_index = p.book.client_order_index;
  trades = p.trades;
  trade_id_counter = p.book.trade_id_counter;
}

-- The call of `match_level`, whose borrows end with the writes to the book.
unfoldable pub match_best : Progress → ℕ → ℕ → Exec (Bool × Progress)
unfolding match_level
match_best p client_id level_idx = do
  level ← read p.book.level_arena.nodes level_idx
  (stp, s) ← match_level (p.book.order_arena.nodes.len + 2) client_id (match_state p level)
  level_nodes ← write p.book.level_arena.nodes level_idx s.level
  done (
    stp,
    record {
      order = s.incoming;
      book = set_levels level_nodes (record p.book {
        order_arena = s.order_arena;
        order_index = s.order_index;
        client_order_index = s.client_order_index;
        trade_id_counter = s.trade_id_counter;
      });
      trades = s.trades;
    },
  )

-- A level in reach: it is matched, and dropped if that has emptied it.
unfoldable pub take_best : Bool → Progress → ℕ → ℕ → ℕ → Exec (Bool × Progress)
unfolding match_best drop_if_empty
take_best is_sell p client_id best_idx best_price = do
  (stp, p') ← match_best p client_id best_idx
  book ← drop_if_empty p'.book best_idx best_price (not is_sell)
  done (stp, record p' { book = book })

-- The `while` loop of either side, with the answer whether self-trade prevention has halted it.
unfoldable pub match_loop : ℕ → Bool → ℕ → Progress → Exec (Bool × Progress)
unfolding out_of_reach take_best
match_loop zero is_sell client_id p = stalled
match_loop (suc fuel) is_sell client_id p =
    let best_idx = best (not is_sell) p.book in
    let round = read p.book.level_arena.nodes best_idx >>= λ level.
    let rest = take_best is_sell p client_id best_idx level.price >>= λ (stp, p').
    let more = match_loop fuel is_sell client_id p' in if stp then done (true, p') else more in
    if out_of_reach is_sell p.order level.price then done (false, p) else rest in
    if ltb 0 p.order.qty && not (best_idx == null_idx) then round else done (false, p)

-- The level at the order's price: the one there is, or a new one linked into the ladder.
unfoldable pub level_for : OrderBook → ℕ → Bool → Exec (Result ℕ × OrderBook)
unfolding Prices.lookup Prices.insert Levels.allocate link_price_level
level_for b price is_sell = do
  found ← Prices.lookup b.price_index price
  elim found [
    | some existing_idx ↦ done (ok existing_idx, b)
    | none ↦ Levels.allocate b.level_arena price >>= λ (new_level, level_arena).
        let b' : OrderBook = record b { level_arena = level_arena } in
        elim new_level [
          | err e ↦ done (err e, b')
          | ok new_idx ↦ Prices.insert b.price_index price new_idx >>= λ (inserted, price_index).
              let b'' : OrderBook = record b' { price_index = price_index } in
              elim inserted [
                | err e ↦ done (err e, b'')
                | ok _ ↦
                    link_price_level b'' new_idx is_sell >>= λ linked. done (ok new_idx, linked)
              ]
        ]
  ]

-- The queue and the indices take up the order's node.
unfoldable pub enqueue : OrderBook → Order → ℕ → ℕ → Exec (Result (Unit {0}) × OrderBook)
unfolding push_order OrderIndex.insert Clients.insert
enqueue b o node_idx level_idx = do
  level ← read b.level_arena.nodes level_idx
  (level, order_nodes) ← push_order level node_idx b.order_arena.nodes
  level_nodes ← write b.level_arena.nodes level_idx level
  (inserted, order_index) ←
      OrderIndex.insert b.order_index o.id o.client_order_id o.user_id o.price node_idx o.side
  let b' : OrderBook = set_levels level_nodes (record b {
    order_arena = record b.order_arena { nodes = order_nodes };
    order_index = order_index;
  })
  elim inserted [
    | err e ↦ done (err e, b')
    | ok _ ↦
        Clients.insert b.client_order_index o.user_id o.client_order_id o.id
        >>= λ (_, client_order_index).
            done (ok tt, record b' { client_order_index = client_order_index })
  ]

-- The insertion of a resting limit order.
unfoldable pub rest_order : OrderBook → Order → ℕ → Bool → Exec (Result (Unit {0}) × OrderBook)
unfolding Orders.allocate level_for enqueue
rest_order b o client_id is_sell = do
  (allocated, order_arena) ← Orders.allocate b.order_arena o client_id
  let b' : OrderBook = record b { order_arena = order_arena }
  elim allocated [
    | err e ↦ done (err e, b')
    | ok node_idx ↦ level_for b' o.price is_sell >>= λ (level, b''). elim level [
      | err e ↦ done (err e, b'')
      | ok level_idx ↦ enqueue b'' o node_idx level_idx
    ]
  ]

-- The id of an order that is no cancel: a fresh one, or its own, which the counter then passes.
unfoldable pub stamp : OrderBook → Order → Order × OrderBook
stamp b o =
    if o.id == 0
    then (
      record o { id = b.order_id_counter },
      record b { order_id_counter = add64 b.order_id_counter 1 },
    )
    else (o, record b { order_id_counter = max b.order_id_counter (add64 o.id 1) })

abbrev pub report : ℕ → Order → Bool → ExecutionReport
report original_qty o stp = record {
  executed_qty = original_qty - o.qty;
  remaining_qty = o.qty;
  stp_triggered = stp;
}

abbrev pub Outcome : Type 0
Outcome = Exec (Result ExecutionReport × OrderBook × List Trade)

-- What follows the matching loop.
unfoldable pub settle_remainder : ℕ → ℕ → Bool → Bool → Progress → Outcome
unfolding rest_order
settle_remainder original_qty client_id is_sell stp p =
    if stp
    then done (ok (report original_qty p.order true), p.book, p.trades)
    else if is_type (type_or_limit p.order) OrderType.market
    then done (ok (report original_qty p.order false), p.book, p.trades)
    else if ltb 0 p.order.qty && is_type (type_or_limit p.order) OrderType.limit
    then (rest_order p.book p.order client_id is_sell >>= λ (rested, b). elim rested [
      | err e ↦ done (err e, b, p.trades)
      | ok _ ↦ done (ok (report original_qty p.order false), b, p.trades)
    ])
    else done (ok (report original_qty p.order false), p.book, p.trades)

unfoldable pub process_cancel : OrderBook → Order → List Trade → Outcome
unfolding cancel_order
process_cancel b o trades =
    cancel_order b o.user_id (if o.id == 0 then o.client_order_id else o.id) >>= λ (cancelled, b').
    elim cancelled [
      | err e ↦ done (err e, b', trades)
      | ok c ↦ done (
        ok (record { executed_qty = 0; remaining_qty = c.qty; stp_triggered = false }),
        b',
        trades,
      )
    ]

unfoldable pub process_trade : OrderBook → Order → ℕ → List Trade → Outcome
unfolding stamp match_loop settle_remainder
process_trade b order client_id trades =
    let (o, b') = stamp b order in
    let is_sell = o.side == side_code Side.sell in
    match_loop (b'.level_arena.nodes.len + 2) is_sell client_id
      (record { order = o; book = b'; trades = trades })
    >>= λ (stp, p). settle_remainder o.qty client_id is_sell stp p

-- The book after the order, the trades with the new ones at the end, and the report or the reason.
unfoldable pub process : OrderBook → Order → ℕ → List Trade → Outcome
unfolding process_cancel process_trade
process b order client_id trades =
    if is_type (type_or_limit order) OrderType.cancel
    then process_cancel b order trades
    else process_trade b order client_id trades
