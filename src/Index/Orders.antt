-- ===== src/Index/Orders.antt =====
-- `FastOrderIndex`: exchange order id -> where the order rests.
use ultra_low_latency_order.Prelude.{ℕ, ◌%◌, Bool, true, false, Option, arith, ◌==◌, Exec, refl}
use ultra_low_latency_order.Types.{Result}
use ultra_low_latency_order.Table
use ultra_low_latency_order.Table.{Layout, IsLayout, Table, new_table}
use ultra_low_latency_order.Arena.Nodes.{null_idx}
use ultra_low_latency_order.Index.Hash.{mix}

-- FAST_MAP_CAPACITY; FAST_MAP_MASK is one less, so `& FAST_MAP_MASK` is the remainder.
abbrev pub fast_map_capacity : ℕ
fast_map_capacity = 262_144

pub record FastIndexEntry : Type 0 where
  pub order_id : ℕ
  pub client_order_id : ℕ
  pub user_id : ℕ
  pub price : ℕ
  pub node_idx : ℕ
  pub side : ℕ
  pub occupied : Bool

abbrev pub default_entry : FastIndexEntry
default_entry = record {
  order_id = 0;
  client_order_id = 0;
  user_id = 0;
  price = 0;
  node_idx = null_idx;
  side = 0;
  occupied = false;
}

unfoldable pub hash : ℕ → ℕ
unfolding mix
hash order_id = mix order_id % fast_map_capacity

abbrev pub layout : Layout ℕ FastIndexEntry
layout = record {
  capacity = fast_map_capacity;
  hash = hash;
  key = λ e. e.order_id;
  occupied = λ e. e.occupied;
  vacant = default_entry;
  same = λ j k. j == k;
}

pub layout-IsLayout : IsLayout layout
unfolding hash
layout-IsLayout = record {
  capacity_pos = omega arith;
  capacity_fits = omega arith;
  hash_in = λ k. omega arith;
  vacant_free = refl;
  same_iff = λ j k. ground arith;
}

abbrev pub FastOrderIndex : Type 0
FastOrderIndex = Table FastIndexEntry

-- `FastOrderIndex::new`
abbrev pub new_index : FastOrderIndex
new_index = new_table layout

unfoldable pub insert :
    FastOrderIndex → ℕ → ℕ → ℕ → ℕ → ℕ → ℕ → Exec (Result (Unit {0}) × FastOrderIndex)
insert t order_id client_order_id user_id price node_idx side = Table.insert layout t (record {
  order_id = order_id;
  client_order_id = client_order_id;
  user_id = user_id;
  price = price;
  node_idx = node_idx;
  side = side;
  occupied = true;
})

unfoldable pub lookup : FastOrderIndex → ℕ → Exec (Option FastIndexEntry)
lookup t order_id = Table.lookup layout t order_id

unfoldable pub remove : FastOrderIndex → ℕ → Exec (Option FastIndexEntry × FastOrderIndex)
remove t order_id = Table.remove layout t order_id

unfoldable pub len : FastOrderIndex → ℕ
len t = t.count

unfoldable pub is_empty : FastOrderIndex → Bool
is_empty t = t.count == 0
