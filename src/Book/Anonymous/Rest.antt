-- ===== src/Book/Anonymous/Rest.antt =====
-- The insertion of a resting order without its connection.
use ultra_low_latency_order.Prelude.{
  ℕ, ◌≡◌, refl, Bool, true, if◌then◌else◌, ◌==◌, done, read, write, ◌>>=◌,
}
use ultra_low_latency_order.Types.{Order, Result}
use ultra_low_latency_order.Arena.Nodes.{null_idx, OrderNode}
use ultra_low_latency_order.Arena.Orders.{OrderArena, allocate}
use ultra_low_latency_order.Arena.Levels
use ultra_low_latency_order.Index.Orders as OrderIndex
use ultra_low_latency_order.Index.Prices
use ultra_low_latency_order.Index.Clients
use ultra_low_latency_order.Book.State.{OrderBook}
use ultra_low_latency_order.Book.Ladder.{
  link_price_level, link_front, link_behind, walk, best, better,
}
use ultra_low_latency_order.Book.Process.{level_for, enqueue, rest_order}
use ultra_low_latency_order.Book.Anonymous.{
  mapx, bind-map, bind-same, if-map, option-map, result-map, bare, bares, bare_queue, read-bare,
  write-bare, push_order-bare,
}
use ultra_low_latency_order.Book.Anonymous.Match.{bare_arena}
use ultra_low_latency_order.Book.Anonymous.Cancels.{bare_book}

abbrev pub bare_allocated : Result ℕ × OrderArena → Result ℕ × OrderArena
bare_allocated (r, a) = (r, bare_arena a)

allocate-bare :
    (a : OrderArena) (o : Order) (c : ℕ)
    → allocate (bare_arena a) o 0 ≡ mapx bare_allocated (allocate a o c)
unfolding allocate
allocate-bare a o c =
    let v : OrderNode = record {
      order = o;
      prev = null_idx;
      next = null_idx;
      client_id = c;
      active = true;
    } in
    if-map bare_allocated (a.free_head == null_idx) _ _ refl (
      bind-map bare bare_allocated _ _ _ (read-bare a.nodes a.free_head) λ node.
        bind-map bares bare_allocated _ _ _ (write-bare a.nodes a.free_head v) λ nodes. refl)

link_price_level-bare :
    (b : OrderBook) (i : ℕ) (s : Bool)
    → link_price_level (bare_book b) i s ≡ mapx bare_book (link_price_level b i s)
unfolding link_price_level
link_price_level-bare b i s =
    let ns = b.level_arena.nodes in
    bind-same bare_book (read ns i) _ _ λ node.
      bind-same bare_book
        (if best s b == null_idx
          then done true
          else (read ns (best s b) >>= λ head. done (better s node.price head.price)))
        _ _
        λ in_front.
          if-map bare_book in_front _ _
            (bind-same bare_book (link_front ns i (best s b)) _ _ λ ns'. refl)
            (bind-same bare_book (walk ns.len s ns node.price (best s b)) _ _
              λ curr. bind-same bare_book (link_behind ns i curr) _ _ λ ns'. refl)

abbrev pub bare_level : Result ℕ × OrderBook → Result ℕ × OrderBook
bare_level (r, b) = (r, bare_book b)

level_for-bare :
    (b : OrderBook) (price : ℕ) (s : Bool)
    → level_for (bare_book b) price s ≡ mapx bare_level (level_for b price s)
unfolding level_for
level_for-bare b price s = bind-same bare_level (Prices.lookup b.price_index price) _ _ λ found.
    option-map bare_level found _ _ _ _
      (bind-same bare_level (Levels.allocate b.level_arena price) _ _ λ (new_level, level_arena).
        result-map bare_level new_level _ _ _ _ (λ why. refl)
          λ new_idx.
            bind-same bare_level (Prices.insert b.price_index price new_idx) _ _
              λ (inserted, price_index).
                result-map bare_level inserted _ _ _ _ (λ why. refl)
                  λ _.
                    bind-map bare_book bare_level _ _ _
                      (link_price_level-bare
                        (record b { level_arena = level_arena; price_index = price_index }) new_idx
                        s)
                      λ linked. refl)
      λ existing_idx. refl

abbrev pub bare_rested : Result (Unit {0}) × OrderBook → Result (Unit {0}) × OrderBook
bare_rested (r, b) = (r, bare_book b)

enqueue-bare :
    (b : OrderBook) (o : Order) (node_idx level_idx : ℕ)
    → enqueue (bare_book b) o node_idx level_idx ≡ mapx bare_rested (enqueue b o node_idx level_idx)
unfolding enqueue
enqueue-bare b o node_idx level_idx =
    bind-same bare_rested (read b.level_arena.nodes level_idx) _ _ λ level.
      bind-map bare_queue bare_rested _ _ _ (push_order-bare level node_idx b.order_arena.nodes)
        λ (level, order_nodes).
          bind-same bare_rested (write b.level_arena.nodes level_idx level) _ _ λ level_nodes.
            bind-same bare_rested
              (OrderIndex.insert b.order_index o.id o.client_order_id o.user_id o.price node_idx
                o.side)
              _ _
              λ (inserted, order_index).
                result-map bare_rested inserted _ _ _ _ (λ why. refl)
                  λ _.
                    bind-same bare_rested
                      (Clients.insert b.client_order_index o.user_id o.client_order_id o.id) _ _
                      λ (_, client_order_index). refl

pub rest_order-bare :
    (b : OrderBook) (o : Order) (c : ℕ) (s : Bool)
    → rest_order (bare_book b) o 0 s ≡ mapx bare_rested (rest_order b o c s)
unfolding rest_order
rest_order-bare b o c s =
    bind-map bare_allocated bare_rested _ _ _ (allocate-bare b.order_arena o c)
      λ (allocated, order_arena).
        result-map bare_rested allocated _ _ _ _ (λ why. refl)
          λ node_idx.
            bind-map bare_level bare_rested _ _ _
              (level_for-bare (record b { order_arena = order_arena }) o.price s)
              λ (level, b'').
                result-map bare_rested level _ _ _ _ (λ why. refl)
                  λ level_idx. enqueue-bare b'' o node_idx level_idx
