-- ===== src/Book/Matching/Round.antt =====
-- The rounds of `match_level` on a queue.
use ultra_low_latency_order.Prelude.{
  ℕ, ◌<◌, ◌≡◌, refl, sum, sym, ◌∙◌, List, ◌∷◌, u64_mod, done, none, if◌then◌else◌, arith,
}
use ultra_low_latency_order.Types.{Order}
use ultra_low_latency_order.Table
use ultra_low_latency_order.Table.Invariant.{IsValid}
use ultra_low_latency_order.Table.Remove.{lookup-remove}
use ultra_low_latency_order.Index.Orders
use ultra_low_latency_order.Index.Clients
use ultra_low_latency_order.Arena.Nodes.{OrderNode, PriceLevelNode}
use ultra_low_latency_order.Arena.Queue.{OrderNodes}
use ultra_low_latency_order.Arena.Chain.{Absent, with_node, Linked-outside}
use ultra_low_latency_order.Arena.Chain.Ends.{first-real, first-fresh}
use ultra_low_latency_order.Arena.Fifo.{
  order_links, IsQueue, rung, resting, sum-relinked, resting-relinked,
}
use ultra_low_latency_order.Arena.Fifo.Pop.{pop_order-IsQueue}
use ultra_low_latency_order.Arena.Fifo.Write.{sum-outside, resting-outside, deallocate-done}
use ultra_low_latency_order.Book.Matching.{MatchState, retire}

-- The nodes `xs` are the queue, the quantities are words and the indices are sound.
pub record IsReady (s : MatchState) (xs : List ℕ) : Type 0 where
  pub queue : IsQueue s.level s.order_arena.nodes xs
  pub total_fits : s.level.total_qty < u64_mod
  pub incoming_fits : s.incoming.qty < u64_mod
  pub orders_valid : IsValid Orders.layout s.order_index
  pub clients_valid : IsValid Clients.layout s.client_order_index

-- The order `o` at the head of the queue has left the queue and the indices; nothing else has.
pub record IsRetired (s t : MatchState) (o : Order) (xs : List ℕ) : Type 0 where
  pub ready : IsReady t xs
  pub same_orders : resting t.order_arena.nodes xs ≡ resting s.order_arena.nodes xs
  pub same_incoming : t.incoming ≡ s.incoming
  pub same_trades : t.trades ≡ s.trades
  pub same_counter : t.trade_id_counter ≡ s.trade_id_counter
  pub same_rung : rung t.level ≡ rung s.level
  pub orders_found :
      (j : ℕ)
      → Table.lookup Orders.layout t.order_index j ≡ (
          if Orders.layout.same o.id j
          then done none
          else Table.lookup Orders.layout s.order_index j)
  pub clients_found :
      (j : ℕ × ℕ)
      → Table.lookup Clients.layout t.client_order_index j ≡ (
          if Clients.layout.same (o.user_id, o.client_order_id) j
          then done none
          else Table.lookup Clients.layout s.client_order_index j)

-- A queue is still one after a write to a node outside it.
pub IsQueue-outside :
    (level : PriceLevelNode) (ns : OrderNodes) (x : ℕ) (v : OrderNode) (xs : List ℕ)
    → Absent x xs
    → IsQueue level ns xs
    → IsQueue level (with_node ns x v) xs
IsQueue-outside level ns x v xs fresh q = record {
  linked = Linked-outside order_links ns x v _ _ xs _ _ fresh q.linked;
  totalled = q.totalled ∙ sym (sum-outside ns x v xs fresh);
  counted = q.counted;
}

pub retire-IsRetired :
    (s : MatchState) (o : Order) (xs : List ℕ)
    → IsReady s (s.level.head_order ∷ xs)
    → (t : MatchState) × (retire s s.level.head_order o ≡ done t) × IsRetired s t o xs
unfolding retire Orders.remove Clients.remove sum
retire-IsRetired s o xs h =
    let x : ℕ = s.level.head_order in
    let ns : OrderNodes = s.order_arena.nodes in
    let (level', ns', popped, queue', relinked, same_rung) =
      pop_order-IsQueue s.level ns xs h.queue in
    let (inside, fits, _) = first-real order_links ns _ _ x xs _ _ h.queue.linked in
    let fresh : Absent x xs = first-fresh order_links ns _ _ x xs _ _ h.queue.linked in
    let (v, arena', freed, written) =
      deallocate-done (record s.order_arena { nodes = ns' }) x (rw relinked.same_len inside) fits in
    let (_, orders', removed, _, orders_valid, orders_found) =
      lookup-remove Orders.layout Orders.layout-IsLayout s.order_index h.orders_valid o.id in
    let (_, clients', removed', _, clients_valid, clients_found) =
      lookup-remove Clients.layout Clients.layout-IsLayout s.client_order_index h.clients_valid
        (o.user_id, o.client_order_id) in
    (
      record s {
        level = level';
        order_arena = arena';
        order_index = orders';
        client_order_index = clients';
      },
      rw (popped, freed, removed, removed') refl,
      record {
        ready = record {
          queue = rw written (IsQueue-outside level' ns' x v xs fresh queue');
          total_fits = omega (
            arith,
            h.total_fits,
            h.queue.totalled,
            queue'.totalled,
            sum-relinked ns ns' xs relinked,
          );
          incoming_fits = h.incoming_fits;
          orders_valid = orders_valid;
          clients_valid = clients_valid;
        };
        same_orders =
            rw written (resting-outside ns' x v xs fresh ∙ resting-relinked ns ns' xs relinked);
        same_incoming = refl;
        same_trades = refl;
        same_counter = refl;
        same_rung = same_rung;
        orders_found = orders_found;
        clients_found = clients_found;
      },
    )
