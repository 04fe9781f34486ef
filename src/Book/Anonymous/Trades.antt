-- ===== src/Book/Anonymous/Trades.antt =====
-- `OrderBook::process` without connections.
use ultra_low_latency_order.Prelude.{
  ℕ, zero, suc, ◌+◌, ◌≡◌, refl, sym, ◌∙◌, ap, Bool, not, ◌&&◌, List, map, ltb, if◌then◌else◌, ◌==◌,
  Bool-cases, inl, inr, Exec, read, write, ◌>>=◌,
}
use ultra_low_latency_order.Types.{
  Order, Trade, Side, side_code, OrderType, is_type, type_or_limit, Result,
}
use ultra_low_latency_order.Arena.Nodes.{null_idx}
use ultra_low_latency_order.Book.State.{OrderBook, ExecutionReport}
use ultra_low_latency_order.Book.Ladder.{best}
use ultra_low_latency_order.Book.Process.{
  Progress, match_state, match_best, take_best, match_loop, out_of_reach, stamp, settle_remainder,
  process_cancel, process_trade, process,
}
use ultra_low_latency_order.Book.Anonymous.{mapx, bind-map, bind-same, if-map, result-map}
use ultra_low_latency_order.Book.Anonymous.Match.{bare_trade, bare_halt, match_level-bare}
use ultra_low_latency_order.Book.Anonymous.Cancels.{
  bare_book, bare_cancel, drop_if_empty-bare, cancel_order-bare,
}
use ultra_low_latency_order.Book.Anonymous.Rest.{bare_rested, rest_order-bare}

abbrev pub bare_progress : Progress → Progress
bare_progress p = record {
  order = p.order;
  book = bare_book p.book;
  trades = map bare_trade p.trades;
}

abbrev pub bare_step : Bool × Progress → Bool × Progress
bare_step (stp, p) = (stp, bare_progress p)

match_best-bare :
    (p : Progress) (c i : ℕ) → match_best (bare_progress p) 0 i ≡ mapx bare_step (match_best p c i)
unfolding match_best
match_best-bare p c i = bind-same bare_step (read p.book.level_arena.nodes i) _ _ λ level.
    bind-map bare_halt bare_step _ _ _
      (match_level-bare (p.book.order_arena.nodes.len + 2) c (match_state p level))
      λ (stp, s).
        bind-same bare_step (write p.book.level_arena.nodes i s.level) _ _ λ level_nodes. refl

take_best-bare :
    (s : Bool) (p : Progress) (c i price : ℕ)
    → take_best s (bare_progress p) 0 i price ≡ mapx bare_step (take_best s p c i price)
unfolding take_best
take_best-bare s p c i price =
    bind-map bare_step bare_step _ _ _ (match_best-bare p c i) λ (stp, p').
      bind-map bare_book bare_step _ _ _ (drop_if_empty-bare p'.book i price (not s)) λ book. refl

match_loop-bare :
    (fuel : ℕ) (s : Bool) (c : ℕ) (p : Progress)
    → match_loop fuel s 0 (bare_progress p) ≡ mapx bare_step (match_loop fuel s c p)
unfolding match_loop
match_loop-bare zero s c p = refl
match_loop-bare (suc fuel) s c p =
    let i = best (not s) p.book in
    if-map bare_step (ltb 0 p.order.qty && not (i == null_idx)) _ _
      (bind-same bare_step (read p.book.level_arena.nodes i) _ _ λ level.
        if-map bare_step (out_of_reach s p.order level.price) _ _ refl (
          bind-map bare_step bare_step _ _ _ (take_best-bare s p c i level.price)
            λ (stp, p'). if-map bare_step stp _ _ refl (match_loop-bare fuel s c p')))
      refl

abbrev pub bare_outcome :
    Result ExecutionReport × OrderBook × List Trade
    → Result ExecutionReport × OrderBook × List Trade
bare_outcome (r, b, trades) = (r, bare_book b, map bare_trade trades)

settle_remainder-bare :
    (qty c : ℕ) (s stp : Bool) (p : Progress)
    → settle_remainder qty 0 s stp (bare_progress p)
      ≡ mapx bare_outcome (settle_remainder qty c s stp p)
unfolding settle_remainder
settle_remainder-bare qty c s stp p = if-map bare_outcome stp _ _ refl (
    if-map bare_outcome (is_type (type_or_limit p.order) OrderType.market) _ _ refl (
      if-map bare_outcome (ltb 0 p.order.qty && is_type (type_or_limit p.order) OrderType.limit) _ _
        (bind-map bare_rested bare_outcome _ _ _ (rest_order-bare p.book p.order c s)
          λ (rested, b). result-map bare_outcome rested _ _ _ _ (λ why. refl) λ _. refl)
        refl))

abbrev bare_stamped : Order × OrderBook → Order × OrderBook
bare_stamped (o, b) = (o, bare_book b)

stamp-bare : (b : OrderBook) (o : Order) → stamp (bare_book b) o ≡ bare_stamped (stamp b o)
unfolding stamp
stamp-bare b o = elim (Bool-cases (o.id == 0)) [ inl e ↦ rw e refl | inr e ↦ rw e refl ]

-- The part of `process` behind the stamp.
abbrev pub run_stamped :
    ℕ → List Trade → Order × OrderBook → Exec (Result ExecutionReport × OrderBook × List Trade)
run_stamped c trades (o, b') =
    match_loop (b'.level_arena.nodes.len + 2) (o.side == side_code Side.sell) c
      (record { order = o; book = b'; trades = trades })
    >>= λ (stp, p). settle_remainder o.qty c (o.side == side_code Side.sell) stp p

run_stamped-bare :
    (c : ℕ) (trades : List Trade) (o : Order) (b : OrderBook)
    → run_stamped 0 (map bare_trade trades) (o, bare_book b)
      ≡ mapx bare_outcome (run_stamped c trades (o, b))
run_stamped-bare c trades o b =
    bind-map bare_step bare_outcome _ _ _
      (match_loop-bare (b.level_arena.nodes.len + 2) (o.side == side_code Side.sell) c
        (record { order = o; book = b; trades = trades }))
      λ (stp, p). settle_remainder-bare o.qty c (o.side == side_code Side.sell) stp p

pub process_trade-run :
    (b : OrderBook) (o : Order) (c : ℕ) (trades : List Trade)
    → process_trade b o c trades ≡ run_stamped c trades (stamp b o)
unfolding process_trade stamp
process_trade-run b o c trades = elim (Bool-cases (o.id == 0)) [
  | inl e ↦ rw (process_trade, e) refl
  | inr e ↦ rw (process_trade, e) refl
]

-- What `process` makes of the book, the trades and the report does not depend on connections: on the book
-- and the trades without them, for connection 0, it does what it does for any connection, less the
-- connections.
pub process-bare :
    (b : OrderBook) (o : Order) (c : ℕ) (trades : List Trade)
    → process (bare_book b) o 0 (map bare_trade trades) ≡ mapx bare_outcome (process b o c trades)
unfolding process process_cancel
process-bare b o c trades =
    if-map bare_outcome (is_type (type_or_limit o) OrderType.cancel) _ _
      (bind-map bare_cancel bare_outcome _ _ _
        (cancel_order-bare b o.user_id (if o.id == 0 then o.client_order_id else o.id))
        λ (cancelled, b'). result-map bare_outcome cancelled _ _ _ _ (λ why. refl) λ order. refl)
      (process_trade-run (bare_book b) o 0 (map bare_trade trades)
        ∙ ap (run_stamped 0 (map bare_trade trades)) (stamp-bare b o)
        ∙ run_stamped-bare c trades (stamp b o).0 (stamp b o).1
        ∙ ap (mapx bare_outcome) (sym (process_trade-run b o c trades)))
