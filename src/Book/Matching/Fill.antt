-- ===== src/Book/Matching/Fill.antt =====
-- One round of `match_level`: the trade with the head of the queue.
use ultra_low_latency_order.Prelude.{
  ℕ, ◌-◌, ◌<◌, ◌≡◌, refl, List, [], ◌∷◌, ◌++◌, min, sum, u64_mod, add64, sub64, sub64-eq, sub64-lt,
  done, if◌then◌else◌, arith, ◌==◌, write-done,
}
use ultra_low_latency_order.Types.{Trade}
use ultra_low_latency_order.Arena.Nodes.{OrderNode}
use ultra_low_latency_order.Arena.Queue.{OrderNodes}
use ultra_low_latency_order.Arena.Chain.{Absent, with_node, Linked-keep}
use ultra_low_latency_order.Arena.Chain.Ends.{first-real, first-fresh}
use ultra_low_latency_order.Arena.Fifo.{order_links, qty_at, resting}
use ultra_low_latency_order.Arena.Fifo.Write.{sum-outside, resting-outside}
use ultra_low_latency_order.Book.Matching.{MatchState, take_qty, trade_of, match_round, retire}
use ultra_low_latency_order.Book.Matching.Serve.{less}
use ultra_low_latency_order.Book.Matching.Round.{IsReady}

module _ (c : ℕ) (s : MatchState) where
  abbrev pub head_node : OrderNode
  head_node = s.order_arena.nodes.at s.level.head_order

  abbrev pub fill_qty : ℕ
  fill_qty = min s.incoming.qty head_node.order.qty

  abbrev pub fill : Trade
  fill = trade_of s.incoming c (head_node.order, head_node.client_id) fill_qty s.trade_id_counter

  abbrev pub filled_node : OrderNode
  filled_node = record head_node { order = take_qty head_node.order fill_qty }

  abbrev pub filled_nodes : OrderNodes
  filled_nodes = with_node s.order_arena.nodes s.level.head_order filled_node

  -- The state after the trade, before a filled order is retired.
  abbrev pub traded : MatchState
  traded = record s {
    incoming = take_qty s.incoming fill_qty;
    level = record s.level { total_qty = sub64 s.level.total_qty fill_qty };
    order_arena = record s.order_arena { nodes = filled_nodes };
    trades = s.trades ++ fill ∷ [];
    trade_id_counter = add64 s.trade_id_counter 1;
  }

  module _ (xs : List ℕ) (h : IsReady s (s.level.head_order ∷ xs)) where
    head_inside : s.level.head_order < s.order_arena.nodes.len
    head_inside = (first-real order_links _ _ _ _ xs _ _ h.queue.linked).0

    head_fresh : Absent s.level.head_order xs
    head_fresh = first-fresh order_links _ _ _ _ xs _ _ h.queue.linked

    -- The head's quantity is a word, since the level's total is.
    pub head_fits : head_node.order.qty < u64_mod
    unfolding sum
    head_fits = omega (arith, h.total_fits, h.queue.totalled)

    pub match_round-traded : match_round c s s.level.head_order head_node ≡ (
        if sub64 head_node.order.qty fill_qty == 0
        then retire traded s.level.head_order (take_qty head_node.order fill_qty)
        else done traded)
    unfolding match_round
    match_round-traded =
        rw (write-done s.order_arena.nodes s.level.head_order filled_node head_inside) refl

    pub less-incoming : take_qty s.incoming fill_qty ≡ less s.incoming fill_qty
    less-incoming = rw (sub64-eq s.incoming.qty fill_qty h.incoming_fits (omega arith)) refl

    pub less-head : take_qty head_node.order fill_qty ≡ less head_node.order fill_qty
    less-head = rw (sub64-eq head_node.order.qty fill_qty head_fits (omega arith)) refl

    pub resting-traded :
        resting filled_nodes (s.level.head_order ∷ xs)
        ≡ (less head_node.order fill_qty, head_node.client_id) ∷ resting s.order_arena.nodes xs
    resting-traded =
        let here : filled_nodes.at s.level.head_order ≡ filled_node = ground arith in
        rw
          (
            here,
            resting-outside s.order_arena.nodes s.level.head_order filled_node xs head_fresh,
            less-head,
          )
          refl

    pub rest-traded : resting filled_nodes xs ≡ resting s.order_arena.nodes xs
    rest-traded = resting-outside s.order_arena.nodes s.level.head_order filled_node xs head_fresh

    pub traded-IsReady : IsReady traded (s.level.head_order ∷ xs)
    unfolding sum
    traded-IsReady =
        let here : filled_nodes.at s.level.head_order ≡ filled_node = ground arith in
        let total : sub64 s.level.total_qty fill_qty ≡ s.level.total_qty - fill_qty =
          sub64-eq s.level.total_qty fill_qty h.total_fits (omega (arith, h.queue.totalled)) in
        record {
          queue = record {
            linked =
                Linked-keep order_links s.order_arena.nodes s.level.head_order filled_node _ _
                  (s.level.head_order ∷ xs) _ _ refl refl h.queue.linked;
            totalled =
                rw (here, qty_at)
                  (omega (
                    arith,
                    total,
                    h.queue.totalled,
                    sub64-eq head_node.order.qty fill_qty head_fits (omega arith),
                    sum-outside s.order_arena.nodes s.level.head_order filled_node xs head_fresh,
                  ));
            counted = h.queue.counted;
          };
          total_fits = omega (arith, total, h.total_fits);
          incoming_fits = sub64-lt s.incoming.qty fill_qty;
          orders_valid = h.orders_valid;
          clients_valid = h.clients_valid;
        }
