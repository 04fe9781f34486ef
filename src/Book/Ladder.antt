-- ===== src/Book/Ladder.antt =====
-- `link_price_level` and `unlink_price_level`. The two sides run the same code at the other head
-- pointer and the other comparison.
pub mod Rungs
pub mod Sides
pub mod Sorted
pub mod Insert
pub mod Walk
pub mod Link
pub mod Unlink
mod Tests
use ultra_low_latency_order.Prelude.{
  ℕ, zero, suc, Bool, true, ltb, ◌==◌, if◌then◌else◌, Exec, done, stalled, ◌>>=◌, Vec, read, write,
}
use ultra_low_latency_order.Arena.Nodes.{null_idx, PriceLevelNode}
use ultra_low_latency_order.Book.State.{OrderBook}

abbrev pub LevelNodes : Type 0
LevelNodes = Vec PriceLevelNode

-- `best_ask` or `best_bid`, by the side of the levels.
abbrev pub best : Bool → OrderBook → ℕ
best is_sell b = if is_sell then b.best_ask else b.best_bid

abbrev pub set_best : Bool → ℕ → OrderBook → OrderBook
set_best is_sell p b = record b {
  best_ask = if is_sell then p else b.best_ask;
  best_bid = if is_sell then b.best_bid else p;
}

-- `<` among asks, `>` among bids.
abbrev pub better : Bool → ℕ → ℕ → Bool
better is_sell p q = if is_sell then ltb p q else ltb q p

abbrev pub set_levels : LevelNodes → OrderBook → OrderBook
set_levels ns b = record b { level_arena = record b.level_arena { nodes = ns } }

-- The writes to one pointer of a level.
unfoldable pub set_next_level : LevelNodes → ℕ → ℕ → Exec LevelNodes
set_next_level ns i p = do node ← read ns i; write ns i (record node { next_level = p })

unfoldable pub set_prev_level : LevelNodes → ℕ → ℕ → Exec LevelNodes
set_prev_level ns i p = do node ← read ns i; write ns i (record node { prev_level = p })

-- The `while` loop: on along the ladder while the next level is better than the price.
unfoldable pub walk : ℕ → Bool → LevelNodes → ℕ → ℕ → Exec ℕ
walk zero is_sell ns price curr = stalled
walk (suc fuel) is_sell ns price curr = read ns curr >>= λ node.
    let on = read ns node.next_level >>= λ nxt.
    let rest = walk fuel is_sell ns price node.next_level in
    if better is_sell nxt.price price then rest else done curr in
    if node.next_level == null_idx then done curr else on

-- The branch at the front of the ladder, with a level there or none.
unfoldable pub link_front : LevelNodes → ℕ → ℕ → Exec LevelNodes
unfolding set_next_level set_prev_level
link_front ns level_idx old_head = do
  ns ← set_next_level ns level_idx old_head
  ns ← set_prev_level ns level_idx null_idx
  (if old_head == null_idx then done ns else set_prev_level ns old_head level_idx)

-- The branch that links a level in behind another.
unfoldable pub link_behind : LevelNodes → ℕ → ℕ → Exec LevelNodes
unfolding set_next_level set_prev_level
link_behind ns level_idx curr = do
  node ← read ns curr
  ns ← set_next_level ns curr level_idx
  ns ← set_prev_level ns level_idx curr
  ns ← set_next_level ns level_idx node.next_level
  (if node.next_level == null_idx then done ns else set_prev_level ns node.next_level level_idx)

unfoldable pub link_price_level : OrderBook → ℕ → Bool → Exec OrderBook
link_price_level b level_idx is_sell = do
  let ns = b.level_arena.nodes
  node ← read ns level_idx
  in_front ←
      (if best is_sell b == null_idx
        then done true
        else (read ns (best is_sell b) >>= λ head. done (better is_sell node.price head.price)))
  (if in_front
      then (link_front ns level_idx (best is_sell b) >>= λ ns'.
          done (set_best is_sell level_idx (set_levels ns' b)))
      else (walk ns.len is_sell ns node.price (best is_sell b) >>= λ curr.
          link_behind ns level_idx curr >>= λ ns'. done (set_levels ns' b)))

unfoldable pub unlink_price_level : OrderBook → ℕ → Bool → Exec OrderBook
unfolding set_next_level set_prev_level
unlink_price_level b level_idx is_sell = do
  let ns = b.level_arena.nodes
  node ← read ns level_idx
  ns ←
      (if node.prev_level == null_idx
        then done ns
        else set_next_level ns node.prev_level node.next_level)
  ns ←
      (if node.next_level == null_idx
        then done ns
        else set_prev_level ns node.next_level node.prev_level)
  ns ← set_prev_level ns level_idx null_idx
  ns ← set_next_level ns level_idx null_idx
  done (
      if node.prev_level == null_idx
      then set_best is_sell node.next_level (set_levels ns b)
      else set_levels ns b)
