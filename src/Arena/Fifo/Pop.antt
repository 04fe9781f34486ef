-- ===== src/Arena/Fifo/Pop.antt =====
-- `pop_order` takes the head of the queue.
use ultra_low_latency_order.Prelude.{
  ℕ, ◌-◌, ◌<◌, ◌≡◌, refl, List, [], ◌∷◌, ◌⊎◌, inl, inr, ◌==◌, if◌then◌else◌, eq→==, true, false,
  some, done, read-done, arith, sum, length,
}
use ultra_low_latency_order.Arena.Nodes.{null_idx, PriceLevelNode}
use ultra_low_latency_order.Arena.Queue.{OrderNodes, pop_order, is_empty}
use ultra_low_latency_order.Arena.Chain.Ends.{first-null, first-real, first-node, first-empty}
use ultra_low_latency_order.Arena.Fifo.{
  order_links, qty_at, IsQueue, IsRelinked, rung, sum-relinked,
}
use ultra_low_latency_order.Arena.Chain.Relink.{mend, mend-back}
use ultra_low_latency_order.Arena.Fifo.Relink.{mend-IsRelinked, mend-done}

-- `is_empty` tells whether the queue has an order.
pub is_empty-IsQueue_nil :
    (level : PriceLevelNode) (ns : OrderNodes) → IsQueue level ns [] → is_empty level ≡ true
unfolding is_empty
is_empty-IsQueue_nil level ns queue = eq→== _ _ (first-empty order_links ns _ _ _ _ queue.linked)

pub is_empty-IsQueue :
    (level : PriceLevelNode) (ns : OrderNodes) (x : ℕ) (xs : List ℕ)
    → IsQueue level ns (x ∷ xs)
    → (is_empty level ≡ false) × (level.head_order ≡ x) × (x < ns.len)
unfolding is_empty
is_empty-IsQueue level ns x xs queue =
    let (inside, fits, e) = first-real order_links ns _ _ x xs _ _ queue.linked in
    (ground arith, e, inside)

module _ (level : PriceLevelNode) (ns : OrderNodes) (xs : List ℕ) where
  abbrev x : ℕ
  x = level.head_order

  abbrev n : ℕ
  n = (ns.at x).next

  abbrev popped : PriceLevelNode
  popped = record level {
    head_order = n;
    tail_order = if n == null_idx then null_idx else level.tail_order;
    total_qty = level.total_qty - qty_at ns x;
    order_count = level.order_count - 1;
  }

  abbrev headless : OrderNodes
  headless = mend order_links ns n null_idx

  pop_order-done :
      x < ns.len
      → (x == null_idx) ≡ false
      → ((n == null_idx) ≡ true) ⊎ (n < ns.len)
      → pop_order level ns ≡ done (some x, popped, headless)
  unfolding pop_order
  pop_order-done inside real after =
      let relinked = mend-IsRelinked ns null_idx n in
      let still : x < headless.len = rw relinked.same_len inside in
      rw
        (
          real,
          read-done ns x inside,
          mend-done ns null_idx n after,
          read-done headless x still,
          relinked.same_order x,
        )
        refl

  -- On a level whose queue begins with `x`, `pop_order` returns `x`, the rest is then the queue, and
  -- nothing but links has changed in the nodes, nor the price or links of the level.
  pub pop_order-IsQueue :
      IsQueue level ns (x ∷ xs)
      → (level' : PriceLevelNode) × (ns' : OrderNodes) × (pop_order level ns
          ≡ done (some x, level', ns'))
        × IsQueue level' ns' xs
        × IsRelinked ns ns'
        × (rung level' ≡ rung level)
  unfolding sum length
  pop_order-IsQueue queue =
      let (inside, fits, e) = first-real order_links ns _ _ x xs _ _ queue.linked in
      let (back, rest) = first-node order_links ns _ _ x xs _ _ queue.linked in
      let relinked = mend-IsRelinked ns null_idx n in
      (
        popped,
        headless,
        pop_order-done inside (ground arith) (elim (first-null order_links ns _ _ xs _ _ rest) [
          | inl (_, e, _) ↦ inl (eq→== _ _ e)
          | inr (h, _) ↦ inr h
        ]),
        record {
          linked = mend-back order_links ns null_idx n x level.tail_order xs rest;
          totalled = omega (arith, queue.totalled, sum-relinked ns headless xs relinked);
          counted = omega (arith, queue.counted);
        },
        relinked,
        refl,
      )
