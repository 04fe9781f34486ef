-- ===== src/Arena/Orders.antt =====
-- `OrderArena`: a vector of nodes with a free list through `next`.
use ultra_low_latency_order.Prelude.{
  ℕ, ◌+◌, ◌-◌, ◌%◌, true, false, ◌||◌, ltb, leb, ◌==◌, if◌then◌else◌, u32_mod, add64, Exec, done,
  ◌>>=◌, Vec, read, write,
}
use ultra_low_latency_order.Types.{Order, RejectReason, Result, ok, err}
use ultra_low_latency_order.Arena.Nodes.{null_idx, OrderNode, default_order_node}

pub record OrderArena : Type 0 where
  pub nodes : Vec OrderNode
  pub free_head : ℕ
  pub active_count : ℕ
  pub capacity : ℕ

-- The node that `OrderArena::new` pushes in round `i`.
abbrev pub initial_node : ℕ → ℕ → OrderNode
initial_node capacity i = record default_order_node {
  next = if ltb (i + 1) capacity then (i + 1) % u32_mod else null_idx;
}

-- `OrderArena::new`
unfoldable pub new_order_arena : ℕ → OrderArena
new_order_arena capacity = record {
  nodes = record { len = capacity; at = initial_node capacity };
  free_head = 0;
  active_count = 0;
  capacity = capacity;
}

unfoldable pub allocate : OrderArena → Order → ℕ → Exec (Result ℕ × OrderArena)
allocate a order client_id =
    if a.free_head == null_idx then done (err RejectReason.engine_full, a) else do
      node ← read a.nodes a.free_head
      nodes ← write a.nodes a.free_head (record {
        order = order;
        prev = null_idx;
        next = null_idx;
        client_id = client_id;
        active = true;
      })
      done (
        ok a.free_head,
        record a { nodes = nodes; free_head = node.next; active_count = add64 a.active_count 1 },
      )

unfoldable pub deallocate : OrderArena → ℕ → Exec OrderArena
deallocate a idx = if idx == null_idx || leb a.nodes.len idx then done a else do
  node ← read a.nodes idx
  nodes ← write a.nodes idx (record node { active = false; next = a.free_head; prev = null_idx })
  done (record a { nodes = nodes; free_head = idx; active_count = a.active_count - 1 })
