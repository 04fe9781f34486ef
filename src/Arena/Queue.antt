-- ===== src/Arena/Queue.antt =====
-- The methods of `PriceLevelNode` on its queue of orders. Each returns the level and the nodes of the
-- order arena as it leaves them.
use ultra_low_latency_order.Prelude.{
  ℕ, ◌-◌, Bool, Option, none, some, ◌==◌, if◌then◌else◌, add64, add32, Exec, done, ◌>>=◌, Vec, read,
  write,
}
use ultra_low_latency_order.Arena.Nodes.{null_idx, OrderNode, PriceLevelNode}

abbrev pub OrderNodes : Type 0
OrderNodes = Vec OrderNode

unfoldable pub is_empty : PriceLevelNode → Bool
is_empty level = level.head_order == null_idx

-- The writes `arena.nodes[i].next = p` and `arena.nodes[i].prev = p`.
unfoldable pub set_next : OrderNodes → ℕ → ℕ → Exec OrderNodes
set_next ns i p = do node ← read ns i; write ns i (record node { next = p })

unfoldable pub set_prev : OrderNodes → ℕ → ℕ → Exec OrderNodes
set_prev ns i p = do node ← read ns i; write ns i (record node { prev = p })

unfoldable pub push_order : PriceLevelNode → ℕ → OrderNodes → Exec (PriceLevelNode × OrderNodes)
unfolding set_next set_prev
push_order level node_idx ns = do
  ns ← set_prev ns node_idx level.tail_order
  ns ← set_next ns node_idx null_idx
  ns ← (if level.tail_order == null_idx then done ns else set_next ns level.tail_order node_idx)
  node ← read ns node_idx
  done (
    record level {
      head_order = if level.tail_order == null_idx then node_idx else level.head_order;
      tail_order = node_idx;
      total_qty = add64 level.total_qty node.order.qty;
      order_count = add32 level.order_count 1;
    },
    ns,
  )

unfoldable pub pop_order :
    PriceLevelNode → OrderNodes → Exec (Option ℕ × PriceLevelNode × OrderNodes)
unfolding set_prev
pop_order level ns = if level.head_order == null_idx then done (none, level, ns) else do
  node ← read ns level.head_order
  ns ← (if node.next == null_idx then done ns else set_prev ns node.next null_idx)
  node' ← read ns level.head_order
  done (
    some level.head_order,
    record level {
      head_order = node.next;
      tail_order = if node.next == null_idx then null_idx else level.tail_order;
      total_qty = level.total_qty - node'.order.qty;
      order_count = level.order_count - 1;
    },
    ns,
  )

unfoldable pub unlink_order : PriceLevelNode → ℕ → OrderNodes → Exec (PriceLevelNode × OrderNodes)
unfolding set_next set_prev
unlink_order level node_idx ns = do
  node ← read ns node_idx
  ns ← (if node.prev == null_idx then done ns else set_next ns node.prev node.next)
  ns ← (if node.next == null_idx then done ns else set_prev ns node.next node.prev)
  node' ← read ns node_idx
  done (
    record level {
      head_order = if node.prev == null_idx then node.next else level.head_order;
      tail_order = if node.next == null_idx then node.prev else level.tail_order;
      total_qty = level.total_qty - node'.order.qty;
      order_count = level.order_count - 1;
    },
    ns,
  )
