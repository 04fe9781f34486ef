-- ===== src/Arena/Fifo/Write.antt =====
-- A write to one node of the arena, seen from a queue, and the node's return to the arena.
use ultra_low_latency_order.Prelude.{
  ℕ, ◌-◌, ◌<◌, ◌≡◌, refl, List, [], ◌∷◌, sum, update, arith, done, read-done, write-done, ◌==◌, leb,
  false,
}
use ultra_low_latency_order.Arena.Nodes.{null_idx, OrderNode}
use ultra_low_latency_order.Arena.Orders.{OrderArena, deallocate}
use ultra_low_latency_order.Arena.Queue.{OrderNodes}
use ultra_low_latency_order.Arena.Chain.{Absent, with_node}
use ultra_low_latency_order.Arena.Fifo.{qty_at, resting}

module _ (ns : OrderNodes) (x : ℕ) (v : OrderNode) where
  -- A write outside the queue changes no order of it.
  pub sum-outside :
      (xs : List ℕ) → Absent x xs → sum (qty_at (with_node ns x v)) xs ≡ sum (qty_at ns) xs
  unfolding sum Absent
  sum-outside [] a = refl
  sum-outside (y ∷ ys) (d, a) = ground (arith, sum-outside ys a)

  pub resting-outside : (xs : List ℕ) → Absent x xs → resting (with_node ns x v) xs ≡ resting ns xs
  unfolding Absent
  resting-outside [] a = refl
  resting-outside (y ∷ ys) (d, a) =
      let same : update ns.at x v y ≡ ns.at y = ground arith in rw (resting-outside ys a, same) refl

-- `deallocate` of a node of the arena writes that node and no other.
pub deallocate-done :
    (a : OrderArena) (x : ℕ)
    → x < a.nodes.len
    → x < null_idx
    → (v : OrderNode) × (a' : OrderArena) × (deallocate a x ≡ done a')
      × (a'.nodes ≡ with_node a.nodes x v)
unfolding deallocate
deallocate-done a x inside fits =
    let v : OrderNode = record (a.nodes.at x) {
      active = false;
      next = a.free_head;
      prev = null_idx;
    } in
    let real : (x == null_idx) ≡ false = ground arith in
    let within : leb a.nodes.len x ≡ false = ground arith in
    (
      v,
      record a { nodes = with_node a.nodes x v; free_head = x; active_count = a.active_count - 1 },
      rw (real, within, read-done a.nodes x inside, write-done a.nodes x v inside) refl,
      refl,
    )
