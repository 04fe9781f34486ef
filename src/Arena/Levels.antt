-- ===== src/Arena/Levels.antt =====
-- `PriceLevelArena`: a vector of price levels with a free list through `next_free`.
use ultra_low_latency_order.Prelude.{
  ℕ, ◌+◌, ◌%◌, true, false, ◌||◌, ltb, leb, ◌==◌, if◌then◌else◌, u32_mod, Exec, done, ◌>>=◌, Vec,
  read, write,
}
use ultra_low_latency_order.Types.{RejectReason, Result, ok, err}
use ultra_low_latency_order.Arena.Nodes.{null_idx, PriceLevelNode, default_level_node}

pub record PriceLevelArena : Type 0 where
  pub nodes : Vec PriceLevelNode
  pub free_head : ℕ

abbrev pub initial_level : ℕ → ℕ → PriceLevelNode
initial_level capacity i = record default_level_node {
  next_free = if ltb (i + 1) capacity then (i + 1) % u32_mod else null_idx;
}

-- `PriceLevelArena::new`
unfoldable pub new_level_arena : ℕ → PriceLevelArena
new_level_arena capacity = record {
  nodes = record { len = capacity; at = initial_level capacity };
  free_head = 0;
}

unfoldable pub allocate : PriceLevelArena → ℕ → Exec (Result ℕ × PriceLevelArena)
allocate a price = if a.free_head == null_idx then done (err RejectReason.engine_full, a) else do
  node ← read a.nodes a.free_head
  nodes ← write a.nodes a.free_head (record {
    price = price;
    head_order = null_idx;
    tail_order = null_idx;
    prev_level = null_idx;
    next_level = null_idx;
    total_qty = 0;
    order_count = 0;
    next_free = null_idx;
    active = true;
  })
  done (ok a.free_head, record { nodes = nodes; free_head = node.next_free })

unfoldable pub deallocate : PriceLevelArena → ℕ → Exec PriceLevelArena
deallocate a idx = if idx == null_idx || leb a.nodes.len idx then done a else do
  node ← read a.nodes idx
  nodes ← write a.nodes idx (record node {
    active = false;
    head_order = null_idx;
    tail_order = null_idx;
    prev_level = null_idx;
    next_level = null_idx;
    total_qty = 0;
    order_count = 0;
    next_free = a.free_head;
  })
  done (record { nodes = nodes; free_head = idx })
