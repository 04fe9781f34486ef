-- ===== src/Book/Cancel.antt =====
-- `cancel_order`.
pub mod Refusal
mod Tests
use ultra_low_latency_order.Prelude.{
  ℕ, Bool, not, ◌||◌, Option, none, some, ◌==◌, if◌then◌else◌, Exec, done, ◌>>=◌, read, write,
}
use ultra_low_latency_order.Types.{Order, Side, side_code, RejectReason, Result, ok, err}
use ultra_low_latency_order.Index.Orders as OrderIndex
use ultra_low_latency_order.Index.Orders.{FastIndexEntry}
use ultra_low_latency_order.Index.Prices
use ultra_low_latency_order.Index.Clients
use ultra_low_latency_order.Arena.Orders
use ultra_low_latency_order.Arena.Levels
use ultra_low_latency_order.Arena.Queue.{is_empty, unlink_order}
use ultra_low_latency_order.Book.State.{OrderBook}
use ultra_low_latency_order.Book.Ladder.{set_levels, unlink_price_level}

-- The entry that a cancel names: by exchange id, else by the user's own id.
unfoldable pub find_entry : OrderBook → ℕ → ℕ → Exec (Option FastIndexEntry)
unfolding OrderIndex.lookup Clients.lookup
find_entry b requesting_user_id order_id = do
  direct ← OrderIndex.lookup b.order_index order_id
  elim direct [
    | some e ↦ done (some e)
    | none ↦ Clients.lookup b.client_order_index requesting_user_id order_id >>= λ mapped.
        elim mapped [
          | some exchange_id ↦ OrderIndex.lookup b.order_index exchange_id
          | none ↦ done none
        ]
  ]

-- Both indices forget the entry.
unfoldable pub forget : OrderBook → FastIndexEntry → Exec OrderBook
unfolding OrderIndex.remove Clients.remove
forget b entry = do
  (_, order_index) ← OrderIndex.remove b.order_index entry.order_id
  (_, client_order_index) ← Clients.remove b.client_order_index entry.user_id entry.client_order_id
  done (record b { order_index = order_index; client_order_index = client_order_index })

-- An empty level leaves the ladder, the price index and the arena.
unfoldable pub drop_if_empty : OrderBook → ℕ → ℕ → Bool → Exec OrderBook
unfolding is_empty unlink_price_level Prices.remove Levels.deallocate
drop_if_empty b level_idx price is_sell = do
  level ← read b.level_arena.nodes level_idx
  (if is_empty level
      then (do
        b ← unlink_price_level b level_idx is_sell
        (_, price_index) ← Prices.remove b.price_index price
        level_arena ← Levels.deallocate b.level_arena level_idx
        done (record b { price_index = price_index; level_arena = level_arena }))
      else done b)

-- The order leaves the queue of its level.
unfoldable pub unlink_from_level : OrderBook → FastIndexEntry → ℕ → Exec OrderBook
unfolding unlink_order drop_if_empty
unlink_from_level b entry level_idx = do
  level ← read b.level_arena.nodes level_idx
  (level, order_nodes) ← unlink_order level entry.node_idx b.order_arena.nodes
  level_nodes ← write b.level_arena.nodes level_idx level
  let b' : OrderBook =
      set_levels level_nodes
        (record b { order_arena = record b.order_arena { nodes = order_nodes } })
  drop_if_empty b' level_idx entry.price (entry.side == side_code Side.sell)

-- The cancellation of the order that an authorised entry points at.
unfoldable pub cancel_entry : OrderBook → FastIndexEntry → Exec (Result Order × OrderBook)
unfolding forget unlink_from_level Prices.lookup Orders.deallocate
cancel_entry b entry = do
  node ← read b.order_arena.nodes entry.node_idx
  (if not node.active || not (node.order.id == entry.order_id)
      then (forget b entry >>= λ b'. done (err RejectReason.order_not_found, b'))
      else (do
        level ← Prices.lookup b.price_index entry.price
        b ← elim level [ none ↦ done b | some level_idx ↦ unlink_from_level b entry level_idx ]
        order_arena ← Orders.deallocate b.order_arena entry.node_idx
        b ← forget (record b { order_arena = order_arena }) entry
        done (ok node.order, b)))

unfoldable pub cancel_order : OrderBook → ℕ → ℕ → Exec (Result Order × OrderBook)
unfolding find_entry cancel_entry
cancel_order b requesting_user_id order_id = do
  found ← find_entry b requesting_user_id order_id
  elim found [
    | none ↦ done (err RejectReason.order_not_found, b)
    | some entry ↦
        if entry.user_id == requesting_user_id
        then cancel_entry b entry
        else done (err RejectReason.unauthorized, b)
  ]
