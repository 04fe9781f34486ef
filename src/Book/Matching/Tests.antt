-- ===== src/Book/Matching/Tests.antt =====
-- A level with two orders, of 5 and 7, in nodes 1 and 2 of an arena of three, and a buy of 9.
use ultra_low_latency_order.Prelude.{
  ℕ, ◌+◌, ◌<◌, some, ◌≡◌, ◌⊎◌, refl, true, Bool, List, [], ◌∷◌, done, arith, sum, length, ◌==◌,
  if◌then◌else◌,
}
use ultra_low_latency_order.Types.{Order, default_order, Trade}
use ultra_low_latency_order.Table.Invariant.{new_table-IsValid}
use ultra_low_latency_order.Index.Orders
use ultra_low_latency_order.Index.Clients
use ultra_low_latency_order.Arena.Nodes.{
  null_idx, OrderNode, default_order_node, PriceLevelNode, default_level_node,
}
use ultra_low_latency_order.Arena.Queue.{OrderNodes, is_empty, push_order, pop_order, unlink_order}
use ultra_low_latency_order.Arena.Chain.{Linked, Absent}
use ultra_low_latency_order.Arena.Fifo.{IsQueue, IsRelinked, rung}
use ultra_low_latency_order.Arena.Fifo.Push.{push_order-IsQueue}
use ultra_low_latency_order.Arena.Fifo.Pop.{pop_order-IsQueue}
use ultra_low_latency_order.Arena.Fifo.Unlink.{unlink_order-IsQueue}
use ultra_low_latency_order.Book.Matching.{MatchState, match_level}
use ultra_low_latency_order.Book.Matching.Round.{IsReady}
use ultra_low_latency_order.Book.Matching.Loop.{Serves, served}
use ultra_low_latency_order.Book.Matching.Fifo.{match_level-serve}
use ultra_low_latency_order.Book.Matching.Sums.{
  match_level-IsFair, IsForeign, IsNumbered, trade_qty,
}

abbrev small : Order
small = record default_order {
  id = 11;
  user_id = 1;
  client_order_id = 11;
  qty = 5;
  price = 100;
  side = 1;
}

abbrev large : Order
large = record default_order {
  id = 12;
  user_id = 2;
  client_order_id = 12;
  qty = 7;
  price = 100;
  side = 1;
}

abbrev taker : Order
taker = record default_order { id = 13; user_id = 3; client_order_id = 13; qty = 9; price = 100 }

abbrev node_one : OrderNode
node_one = record { order = small; prev = null_idx; next = 2; client_id = 21; active = true }

abbrev node_two : OrderNode
node_two = record { order = large; prev = 1; next = null_idx; client_id = 22; active = true }

abbrev two_nodes : OrderNodes
two_nodes = record {
  len = 3;
  at = λ i. if i == 1 then node_one else if i == 2 then node_two else default_order_node;
}

abbrev two_level : PriceLevelNode
two_level = record default_level_node {
  price = 100;
  head_order = 1;
  tail_order = 2;
  total_qty = 12;
  order_count = 2;
  active = true;
}

two-IsQueue : IsQueue two_level two_nodes (1 ∷ 2 ∷ [])
unfolding Linked Absent sum length
two-IsQueue = record {
  linked = (
    refl,
    omega arith,
    omega arith,
    refl,
    (λ e. omega (arith, e), tt),
    (refl, omega arith, omega arith, refl, tt, (refl, refl)),
  );
  totalled = refl;
  counted = refl;
}

abbrev two_state : MatchState
two_state = record {
  incoming = taker;
  level = two_level;
  order_arena = record { nodes = two_nodes; free_head = 0; active_count = 2; capacity = 3 };
  order_index = Orders.new_index;
  client_order_index = Clients.new_index;
  trades = [];
  trade_id_counter = 1;
}

two-IsReady : IsReady two_state (1 ∷ 2 ∷ [])
two-IsReady = record {
  queue = two-IsQueue;
  total_fits = omega arith;
  incoming_fits = omega arith;
  orders_valid = new_table-IsValid Orders.layout Orders.layout-IsLayout;
  clients_valid = new_table-IsValid Clients.layout Clients.layout-IsLayout;
}

two_within : length {A = ℕ} (1 ∷ 2 ∷ []) < 3
unfolding length
two_within = omega arith

match_level-serve_example : Serves 3 7 two_state (served 7 two_state (1 ∷ 2 ∷ []))
match_level-serve_example = match_level-serve 7 3 two_state (1 ∷ 2 ∷ []) two_within two-IsReady

match_level-IsFair_example :
    (stopped : Bool) × (s' : MatchState) × (ts : List Trade) × (match_level 3 7 two_state
      ≡ done (stopped, s'))
    × (s'.trades ≡ ts)
    × (9 ≡ s'.incoming.qty + sum trade_qty ts)
    × (12 ≡ s'.level.total_qty + sum trade_qty ts)
    × IsForeign 3 ts
    × IsNumbered 1 ts s'.trade_id_counter
    × ((s'.incoming.qty ≡ 0) ⊎ (is_empty s'.level ≡ true) ⊎ (stopped ≡ true))
match_level-IsFair_example = match_level-IsFair 3 7 two_state (1 ∷ 2 ∷ []) two_within two-IsReady

pop_order-IsQueue_example :
    (level' : PriceLevelNode) × (ns' : OrderNodes) × (pop_order two_level two_nodes
      ≡ done (some 1, level', ns'))
    × IsQueue level' ns' (2 ∷ [])
    × IsRelinked two_nodes ns'
    × (rung level' ≡ rung two_level)
pop_order-IsQueue_example = pop_order-IsQueue two_level two_nodes (2 ∷ []) two-IsQueue

unlink_order-IsQueue_example :
    (level' : PriceLevelNode) × (ns' : OrderNodes) × (unlink_order two_level 2 two_nodes
      ≡ done (level', ns'))
    × IsQueue level' ns' (1 ∷ [])
    × IsRelinked two_nodes ns'
    × (rung level' ≡ rung two_level)
unlink_order-IsQueue_example = unlink_order-IsQueue two_level two_nodes 2 (1 ∷ []) [] two-IsQueue

zero-Absent : Absent 0 (1 ∷ 2 ∷ [])
unfolding Absent
zero-Absent = ((λ e. omega (arith, e)), ((λ e. omega (arith, e)), tt))

push_order-IsQueue_example :
    (level' : PriceLevelNode) × (ns' : OrderNodes) × (push_order two_level 0 two_nodes
      ≡ done (level', ns'))
    × IsQueue level' ns' (1 ∷ 2 ∷ 0 ∷ [])
    × IsRelinked two_nodes ns'
    × (rung level' ≡ rung two_level)
push_order-IsQueue_example =
    push_order-IsQueue two_level two_nodes 0 (1 ∷ 2 ∷ []) two-IsQueue (omega arith) (omega arith)
      zero-Absent (omega arith) (omega arith)
