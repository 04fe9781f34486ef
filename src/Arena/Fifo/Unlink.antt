-- ===== src/Arena/Fifo/Unlink.antt =====
-- `unlink_order` takes a node out of the queue.
use ultra_low_latency_order.Prelude.{
  length-middle, ℕ, ◌+◌, ◌-◌, ◌<◌, ◌≡◌, refl, List, [], ◌∷◌, ◌++◌, ◌⊎◌, ◌==◌, if◌then◌else◌, true,
  done, read-done, arith, sum,
}
use ultra_low_latency_order.Arena.Nodes.{null_idx, PriceLevelNode}
use ultra_low_latency_order.Arena.Queue.{OrderNodes, unlink_order}
use ultra_low_latency_order.Arena.Chain.Remove
use ultra_low_latency_order.Arena.Chain.Remove.{around, neighbours, closed-Linked}
use ultra_low_latency_order.Arena.Chain.Relink.{cut}
use ultra_low_latency_order.Arena.Fifo.{
  order_links, qty_at, IsQueue, IsRelinked, rung, sum-relinked, IsRelinked-trans,
}
use ultra_low_latency_order.Arena.Fifo.Relink.{cut-IsRelinked, mend-IsRelinked, cut-done, mend-done}

sum-middle :
    (f : ℕ → ℕ) (xs : List ℕ) (x : ℕ) (ys : List ℕ) → sum f (xs ++ x ∷ ys) ≡ f x + sum f (xs ++ ys)
unfolding sum
sum-middle f [] x ys = refl
sum-middle f (y ∷ xs) x ys = omega (arith, sum-middle f xs x ys)

module _ (level : PriceLevelNode) (ns : OrderNodes) (x : ℕ) where
  abbrev q : ℕ
  q = (ns.at x).prev

  abbrev n : ℕ
  n = (ns.at x).next

  abbrev closed : OrderNodes
  closed = Remove.closed order_links ns x

  abbrev unlinked : PriceLevelNode
  unlinked = record level {
    head_order = if q == null_idx then n else level.head_order;
    tail_order = if n == null_idx then q else level.tail_order;
    total_qty = level.total_qty - qty_at ns x;
    order_count = level.order_count - 1;
  }

  closed-IsRelinked : IsRelinked ns closed
  closed-IsRelinked =
      IsRelinked-trans ns _ _ (cut-IsRelinked ns q n) (mend-IsRelinked (cut order_links ns q n) q n)

  unlink_order-done :
      x < ns.len
      → ((q == null_idx) ≡ true) ⊎ (q < ns.len)
      → ((n == null_idx) ≡ true) ⊎ (n < ns.len)
      → unlink_order level x ns ≡ done (unlinked, closed)
  unfolding unlink_order
  unlink_order-done inside before after =
      let still : x < closed.len = rw closed-IsRelinked.same_len inside in
      let after' : ((n == null_idx) ≡ true) ⊎ (n < (cut order_links ns q n).len) =
        rw (cut-IsRelinked ns q n).same_len after in
      rw
        (
          read-done ns x inside,
          cut-done ns q n before,
          mend-done (cut order_links ns q n) q n after',
          read-done closed x still,
          closed-IsRelinked.same_order x,
        )
        refl

  module _ (xs ys : List ℕ) (queue : IsQueue level ns (xs ++ x ∷ ys)) where
    -- On a level whose queue has the node `x` anywhere, `unlink_order` returns, the queue is then the
    -- nodes before `x` and those behind it, with total and count reduced by the order's share, and
    -- nothing but links has changed in the nodes, nor the price or links of the level.
    pub unlink_order-IsQueue :
        (level' : PriceLevelNode) × (ns' : OrderNodes) × (unlink_order level x ns
          ≡ done (level', ns'))
        × IsQueue level' ns' (xs ++ ys)
        × IsRelinked ns ns'
        × (rung level' ≡ rung level)
    unlink_order-IsQueue =
        let (_, inside, _, _) = around order_links ns x _ _ xs ys queue.linked in
        let (before, after) = neighbours order_links ns x _ _ xs ys queue.linked in
        (
          unlinked,
          closed,
          unlink_order-done inside before after,
          record {
            linked = closed-Linked order_links ns x _ _ xs ys queue.linked;
            totalled = omega (
              arith,
              queue.totalled,
              sum-middle (qty_at ns) xs x ys,
              sum-relinked ns closed (xs ++ ys) closed-IsRelinked,
            );
            counted = omega (arith, queue.counted, length-middle xs x ys);
          },
          closed-IsRelinked,
          refl,
        )
