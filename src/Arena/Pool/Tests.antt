-- ===== src/Arena/Pool/Tests.antt =====
-- Arenas of two nodes, and an arena of one node that is in use.
use ultra_low_latency_order.Prelude.{ℕ, ◌≡◌, refl, [], ◌∷◌, done, arith, length}
use ultra_low_latency_order.Types.{default_order, Result}
use ultra_low_latency_order.Arena.Nodes.{null_idx}
use ultra_low_latency_order.Arena.Chain.{with_node, Absent}
use ultra_low_latency_order.Arena.Orders
use ultra_low_latency_order.Arena.Orders.{OrderArena}
use ultra_low_latency_order.Arena.Levels
use ultra_low_latency_order.Arena.Levels.{PriceLevelArena}
use ultra_low_latency_order.Arena.Pool.{range, AllFree, AllActive}
use ultra_low_latency_order.Arena.Pool.Orders as OrderPool
use ultra_low_latency_order.Arena.Pool.Levels as LevelPool

allocate-IsAllocated_example :
    (result : Result ℕ × OrderArena) × (Orders.allocate (Orders.new_order_arena 2) default_order 7
      ≡ done result)
    × OrderPool.IsAllocated (Orders.new_order_arena 2) default_order 7 (range 0 2) [] result
allocate-IsAllocated_example =
    OrderPool.allocate-IsAllocated (Orders.new_order_arena 2) default_order 7 (range 0 2) []
      (OrderPool.new_order_arena-IsOrderPool 1 (omega arith))

new_order_arena-IsOrderPool_example :
    OrderPool.IsOrderPool (Orders.new_order_arena 2) (range 0 2) []
new_order_arena-IsOrderPool_example = OrderPool.new_order_arena-IsOrderPool 1 (omega arith)

abbrev full_orders : OrderArena
full_orders = record {
  nodes = record { len = 1; at = λ _. OrderPool.occupied default_order 7 };
  free_head = null_idx;
  active_count = 1;
  capacity = 1;
}

full_orders-IsOrderPool : OrderPool.IsOrderPool full_orders [] (0 ∷ [])
unfolding AllFree AllActive Absent length
full_orders-IsOrderPool = record {
  pool = record { all_free = refl; all_active = (omega arith, refl, tt, tt); whole = refl };
  counted = refl;
  bounded = omega arith;
}

deallocate-IsOrderPool_example :
    (a' : OrderArena) × (Orders.deallocate full_orders 0 ≡ done a')
    × OrderPool.IsOrderPool a' (0 ∷ []) []
    × (a'.nodes ≡ with_node full_orders.nodes 0 (OrderPool.vacated full_orders 0))
deallocate-IsOrderPool_example =
    OrderPool.deallocate-IsOrderPool full_orders 0 [] [] [] full_orders-IsOrderPool

allocate_level-IsAllocated_example :
    (result : Result ℕ × PriceLevelArena) × (Levels.allocate (Levels.new_level_arena 2) 100
      ≡ done result)
    × LevelPool.IsAllocated (Levels.new_level_arena 2) 100 (range 0 2) [] result
allocate_level-IsAllocated_example =
    LevelPool.allocate_level-IsAllocated (Levels.new_level_arena 2) 100 (range 0 2) []
      (LevelPool.new_level_arena-IsLevelPool 1 (omega arith))

abbrev full_levels : PriceLevelArena
full_levels = record {
  nodes = record { len = 1; at = λ _. LevelPool.opened 100 };
  free_head = null_idx;
}

full_levels-IsLevelPool : LevelPool.IsLevelPool full_levels [] (0 ∷ [])
unfolding AllFree AllActive Absent length
full_levels-IsLevelPool = record {
  pool = record { all_free = refl; all_active = (omega arith, refl, tt, tt); whole = refl };
  bounded = omega arith;
}

deallocate-IsLevelPool_example :
    (a' : PriceLevelArena) × (Levels.deallocate full_levels 0 ≡ done a')
    × LevelPool.IsLevelPool a' (0 ∷ []) []
    × (a'.nodes ≡ with_node full_levels.nodes 0 (LevelPool.vacated full_levels 0))
deallocate-IsLevelPool_example =
    LevelPool.deallocate-IsLevelPool full_levels 0 [] [] [] full_levels-IsLevelPool
