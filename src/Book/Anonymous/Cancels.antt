-- ===== src/Book/Anonymous/Cancels.antt =====
-- Cancels without connections.
use ultra_low_latency_order.Prelude.{
  ℕ, ◌≡◌, refl, Bool, not, ◌||◌, if◌then◌else◌, ◌==◌, done, read, write,
}
use ultra_low_latency_order.Types.{Order, Side, side_code, Result}
use ultra_low_latency_order.Arena.Nodes.{null_idx}
use ultra_low_latency_order.Arena.Levels
use ultra_low_latency_order.Arena.Queue.{is_empty}
use ultra_low_latency_order.Index.Orders as OrderIndex
use ultra_low_latency_order.Index.Orders.{FastIndexEntry}
use ultra_low_latency_order.Index.Prices
use ultra_low_latency_order.Index.Clients
use ultra_low_latency_order.Book.State.{OrderBook}
use ultra_low_latency_order.Book.Ladder.{
  unlink_price_level, set_next_level, set_prev_level, set_best, set_levels,
}
use ultra_low_latency_order.Book.Cancel.{
  find_entry, forget, drop_if_empty, unlink_from_level, cancel_entry, cancel_order,
}
use ultra_low_latency_order.Book.Anonymous.{
  mapx, bind-map, bind-same, if-map, if-done, option-map, bare, bare_queue, read-bare,
  unlink_order-bare,
}
use ultra_low_latency_order.Book.Anonymous.Match.{bare_arena, deallocate-bare}

abbrev pub bare_book : OrderBook → OrderBook
bare_book b = record b { order_arena = bare_arena b.order_arena }

unlink_price_level-bare :
    (b : OrderBook) (i : ℕ) (s : Bool)
    → unlink_price_level (bare_book b) i s ≡ mapx bare_book (unlink_price_level b i s)
unfolding unlink_price_level
unlink_price_level-bare b i s = bind-same bare_book (read b.level_arena.nodes i) _ _ λ node.
    bind-same bare_book
      (if node.prev_level == null_idx
        then done b.level_arena.nodes
        else set_next_level b.level_arena.nodes node.prev_level node.next_level)
      _ _
      λ ns.
        bind-same bare_book
          (if node.next_level == null_idx
            then done ns
            else set_prev_level ns node.next_level node.prev_level)
          _ _
          λ ns. bind-same bare_book (set_prev_level ns i null_idx) _ _ λ ns.
            bind-same bare_book (set_next_level ns i null_idx) _ _ λ ns.
              if-done bare_book (node.prev_level == null_idx)
                (set_best s node.next_level (set_levels ns b)) (set_levels ns b)

pub drop_if_empty-bare :
    (b : OrderBook) (i price : ℕ) (s : Bool)
    → drop_if_empty (bare_book b) i price s ≡ mapx bare_book (drop_if_empty b i price s)
unfolding drop_if_empty
drop_if_empty-bare b i price s = bind-same bare_book (read b.level_arena.nodes i) _ _ λ level.
    if-map bare_book (is_empty level) _ _
      (bind-map bare_book bare_book _ _ _ (unlink_price_level-bare b i s) λ b.
        bind-same bare_book (Prices.remove b.price_index price) _ _ λ (_, price_index).
          bind-same bare_book (Levels.deallocate b.level_arena i) _ _ λ level_arena. refl)
      refl

forget-bare :
    (b : OrderBook) (entry : FastIndexEntry)
    → forget (bare_book b) entry ≡ mapx bare_book (forget b entry)
unfolding forget
forget-bare b entry =
    bind-same bare_book (OrderIndex.remove b.order_index entry.order_id) _ _ λ (_, order_index).
      bind-same bare_book (Clients.remove b.client_order_index entry.user_id entry.client_order_id)
        _ _ λ (_, client_order_index). refl

unlink_from_level-bare :
    (b : OrderBook) (entry : FastIndexEntry) (i : ℕ)
    → unlink_from_level (bare_book b) entry i ≡ mapx bare_book (unlink_from_level b entry i)
unfolding unlink_from_level
unlink_from_level-bare b entry i = bind-same bare_book (read b.level_arena.nodes i) _ _ λ level.
    bind-map bare_queue bare_book _ _ _ (unlink_order-bare level entry.node_idx b.order_arena.nodes)
      λ (level, order_nodes).
        bind-same bare_book (write b.level_arena.nodes i level) _ _ λ level_nodes.
          drop_if_empty-bare
            (set_levels level_nodes
              (record b { order_arena = record b.order_arena { nodes = order_nodes } }))
            i entry.price (entry.side == side_code Side.sell)

abbrev pub bare_cancel : Result Order × OrderBook → Result Order × OrderBook
bare_cancel (r, b) = (r, bare_book b)

cancel_entry-bare :
    (b : OrderBook) (entry : FastIndexEntry)
    → cancel_entry (bare_book b) entry ≡ mapx bare_cancel (cancel_entry b entry)
unfolding cancel_entry
cancel_entry-bare b entry =
    bind-map bare bare_cancel _ _ _ (read-bare b.order_arena.nodes entry.node_idx) λ node.
      if-map bare_cancel (not node.active || not (node.order.id == entry.order_id)) _ _
        (bind-map bare_book bare_cancel _ _ _ (forget-bare b entry) λ b'. refl)
        (bind-same bare_cancel (Prices.lookup b.price_index entry.price) _ _ λ level.
          bind-map bare_book bare_cancel _ _ _
            (option-map bare_book level _ _ _ _ refl λ i. unlink_from_level-bare b entry i)
            λ b.
              bind-map bare_arena bare_cancel _ _ _ (deallocate-bare b.order_arena entry.node_idx)
                λ order_arena.
                  bind-map bare_book bare_cancel _ _ _
                    (forget-bare (record b { order_arena = order_arena }) entry) λ b. refl)

pub cancel_order-bare :
    (b : OrderBook) (user order_id : ℕ)
    → cancel_order (bare_book b) user order_id ≡ mapx bare_cancel (cancel_order b user order_id)
unfolding cancel_order find_entry
cancel_order-bare b user order_id = bind-same bare_cancel (find_entry b user order_id) _ _ λ found.
    option-map bare_cancel found _ _ _ _ refl
      λ entry. if-map bare_cancel (entry.user_id == user) _ _ (cancel_entry-bare b entry) refl
