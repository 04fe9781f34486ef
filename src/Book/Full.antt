-- ===== src/Book/Full.antt =====
-- `OrderBook::process` on a limit order that meets no level in reach, with no node left for it.
use ultra_low_latency_order.Prelude.{
  ℕ, ◌+◌, suc, ◌≡◌, inl, inr, refl, ap, Bool, true, false, not, Bool-cases, List, ltb, ◌==◌, done,
  read, arith, max, add64, ◌∙◌,
}
use ultra_low_latency_order.Types.{
  Order, Trade, Side, side_code, OrderType, type_or_limit, get_order_type, RejectReason, err,
}
use ultra_low_latency_order.Arena.Nodes.{null_idx, PriceLevelNode}
use ultra_low_latency_order.Arena.Orders.{allocate}
use ultra_low_latency_order.Book.State.{OrderBook}
use ultra_low_latency_order.Book.Ladder.{best, better}
use ultra_low_latency_order.Book.Process.{
  Progress, match_loop, out_of_reach, settle_remainder, rest_order, stamp, process,
}
use ultra_low_latency_order.Book.Anonymous.Trades.{run_stamped, process_trade-run}

abbrev sells : Order → Bool
sells o = o.side == side_code Side.sell

-- The other side of the book has no level, or its first one is behind the order's price.
pub data IsApart (b : OrderBook) (o : Order) : Type 0 where
  no_level : best (not (sells o)) b ≡ null_idx → IsApart b o
  behind :
      (level : PriceLevelNode)
      → read b.level_arena.nodes (best (not (sells o)) b) ≡ done level
      → better (sells o) level.price o.price ≡ true
      → IsApart b o

-- The order is a limit order of some quantity.
pub record IsResting (o : Order) : Type 0 where
  pub limit : type_or_limit o ≡ OrderType.limit
  pub quantity : (o.qty == 0) ≡ false

match_loop-apart :
    (fuel c : ℕ) (p : Progress)
    → IsResting p.order
    → IsApart p.book p.order
    → match_loop (suc fuel) (sells p.order) c p ≡ done (false, p)
unfolding match_loop out_of_reach
match_loop-apart fuel c p h (no_level none_there) =
    let hungry : ltb 0 p.order.qty ≡ true = ground (arith, h.quantity) in
    rw (hungry, none_there) refl
match_loop-apart fuel c p h (behind level found worse) =
    let hungry : ltb 0 p.order.qty ≡ true = ground (arith, h.quantity) in
    elim (Bool-cases (best (not (sells p.order)) p.book == null_idx)) [
      | inl none_there ↦ rw (hungry, none_there) refl
      | inr there ↦ rw (hungry, there, found, h.limit, worse) refl
    ]

settle_remainder-full :
    (qty c : ℕ) (is_sell : Bool) (p : Progress)
    → IsResting p.order
    → p.book.order_arena.free_head ≡ null_idx
    → settle_remainder qty c is_sell false p ≡ done (err RejectReason.engine_full, p.book, p.trades)
unfolding settle_remainder rest_order allocate
settle_remainder-full qty c is_sell p h full =
    let hungry : ltb 0 p.order.qty ≡ true = ground (arith, h.quantity) in
    rw (h.limit, hungry, full) refl

-- The counter of order ids is all that changes in the book.
abbrev pub counting : OrderBook → ℕ → OrderBook
counting b k = record b { order_id_counter = k }

run_stamped-full :
    (b : OrderBook) (o : Order) (c : ℕ) (trades : List Trade)
    → IsResting o
    → IsApart b o
    → b.order_arena.free_head ≡ null_idx
    → run_stamped c trades (o, b) ≡ done (err RejectReason.engine_full, b, trades)
run_stamped-full b o c trades h apart full =
    let p : Progress = record { order = o; book = b; trades = trades } in
    let some_fuel : b.level_arena.nodes.len + 2 ≡ suc (b.level_arena.nodes.len + 1) = omega arith in
    rw (some_fuel, match_loop-apart (b.level_arena.nodes.len + 1) c p h apart)
      (settle_remainder-full o.qty c (sells o) p h full)

pub IsResting-with_id : (o : Order) (i : ℕ) → IsResting o → IsResting (record o { id = i })
unfolding get_order_type
IsResting-with_id o i h = record { limit = h.limit; quantity = h.quantity }

pub IsApart-with_id :
    (b : OrderBook) (o : Order) (i : ℕ) → IsApart b o → IsApart b (record o { id = i })
IsApart-with_id b o i (no_level none_there) = no_level none_there
IsApart-with_id b o i (behind level found worse) = behind level found worse

apart-counting : (b : OrderBook) (o : Order) (k : ℕ) → IsApart b o → IsApart (counting b k) o
apart-counting b o k (no_level none_there) = no_level none_there
apart-counting b o k (behind level found worse) = behind level found worse

stamp-counting :
    (b : OrderBook) (o : Order)
    → (i : ℕ) × (k : ℕ) × (stamp b o ≡ (record o { id = i }, counting b k))
unfolding stamp
stamp-counting b o = elim (Bool-cases (o.id == 0)) [
  | inl fresh ↦ (b.order_id_counter, add64 b.order_id_counter 1, rw fresh refl)
  | inr own ↦ (o.id, max b.order_id_counter (add64 o.id 1), rw own refl)
]

-- The order is refused, without a trade, and only the counter of ids has changed.
pub process-full :
    (b : OrderBook) (o : Order) (c : ℕ) (trades : List Trade)
    → IsResting o
    → IsApart b o
    → b.order_arena.free_head ≡ null_idx
    → (k : ℕ) × (process b o c trades ≡ done (err RejectReason.engine_full, counting b k, trades))
unfolding process
process-full b o c trades h apart full =
    let (i, k, stamped) = stamp-counting b o in
    (
      k,
      rw h.limit (
          process_trade-run b o c trades
          ∙ ap (run_stamped c trades) stamped
          ∙ run_stamped-full (counting b k) (record o { id = i }) c trades (IsResting-with_id o i h)
              (IsApart-with_id (counting b k) o i (apart-counting b o k apart)) full),
    )
