-- ===== src/Book/Buffer.antt =====
-- The trades that `OrderBook::process` is given, in a vector that the caller may use again.
use ultra_low_latency_order.Prelude.{
  ℕ, zero, suc, ◌+◌, ◌≡◌, refl, ◌∙◌, ap, Bool, not, ◌&&◌, List, [], ◌∷◌, ◌++◌, min, ltb,
  if◌then◌else◌, ◌==◌, done, read, write, sub64, add64,
}
use mathlib.Core.List.{append_assoc}
use ultra_low_latency_order.Types.{
  Order, Trade, Side, side_code, OrderType, is_type, type_or_limit, Result,
}
use ultra_low_latency_order.Arena.Nodes.{null_idx, OrderNode}
use ultra_low_latency_order.Arena.Orders.{deallocate}
use ultra_low_latency_order.Arena.Queue.{is_empty, pop_order}
use ultra_low_latency_order.Index.Orders
use ultra_low_latency_order.Index.Clients
use ultra_low_latency_order.Book.State.{OrderBook, ExecutionReport}
use ultra_low_latency_order.Book.Ladder.{best}
use ultra_low_latency_order.Book.Cancel.{drop_if_empty, cancel_order}
use ultra_low_latency_order.Book.Matching.{
  MatchState, trade_of, take_qty, retire, match_round, match_level,
}
use ultra_low_latency_order.Book.Process.{
  Progress, match_state, match_best, take_best, match_loop, out_of_reach, stamp, settle_remainder,
  rest_order, process_cancel, process_trade, process,
}
use ultra_low_latency_order.Book.Anonymous.{mapx, bind-map, bind-same, if-map, result-map}

-- An outcome with the trades `pre` before its own.
abbrev pub behind :
    List Trade
    → Result ExecutionReport × OrderBook × List Trade
    → Result ExecutionReport × OrderBook × List Trade
behind pre (r, b, trades) = (r, b, pre ++ trades)

module _ (pre : List Trade) where
  abbrev state_behind : MatchState → MatchState
  state_behind s = record s { trades = pre ++ s.trades }

  retire-behind :
      (s : MatchState) (i : ℕ) (filled : Order)
      → retire (state_behind s) i filled ≡ mapx state_behind (retire s i filled)
  unfolding retire
  retire-behind s i filled =
      bind-same state_behind (pop_order s.level s.order_arena.nodes) _ _ λ (_, level, nodes).
        bind-same state_behind (deallocate (record s.order_arena { nodes = nodes }) i) _ _ λ arena.
          bind-same state_behind (Orders.remove s.order_index filled.id) _ _ λ (_, order_index).
            bind-same state_behind
              (Clients.remove s.client_order_index filled.user_id filled.client_order_id) _ _
              λ (_, client_order_index). refl

  match_round-behind :
      (c : ℕ) (s : MatchState) (i : ℕ) (resting : OrderNode)
      → match_round c (state_behind s) i resting ≡ mapx state_behind (match_round c s i resting)
  unfolding match_round
  match_round-behind c s i resting =
      let trade_qty = min s.incoming.qty resting.order.qty in
      let left = take_qty resting.order trade_qty in
      let trade =
        trade_of s.incoming c (resting.order, resting.client_id) trade_qty s.trade_id_counter in
      bind-same state_behind (write s.order_arena.nodes i (record resting { order = left })) _ _
        λ nodes.
          let s' : MatchState = record s {
            incoming = take_qty s.incoming trade_qty;
            level = record s.level { total_qty = sub64 s.level.total_qty trade_qty };
            order_arena = record s.order_arena { nodes = nodes };
            trades = s.trades ++ trade ∷ [];
            trade_id_counter = add64 s.trade_id_counter 1;
          } in
          ap
            (λ (ts : List Trade).
              let t : MatchState = record s' { trades = ts } in
              if left.qty == 0 then retire t i left else done t)
            (append_assoc pre s.trades (trade ∷ []))
          ∙ if-map state_behind (left.qty == 0) _ _ (retire-behind s' i left) refl

  abbrev halt_behind : Bool × MatchState → Bool × MatchState
  halt_behind (stp, s) = (stp, state_behind s)

  match_level-behind :
      (fuel c : ℕ) (s : MatchState)
      → match_level fuel c (state_behind s) ≡ mapx halt_behind (match_level fuel c s)
  unfolding match_level
  match_level-behind zero c s = refl
  match_level-behind (suc fuel) c s =
      if-map halt_behind (ltb 0 s.incoming.qty && not (is_empty s.level)) _ _
        (bind-same halt_behind (read s.order_arena.nodes s.level.head_order) _ _ λ resting.
          if-map halt_behind (resting.order.user_id == s.incoming.user_id) _ _ refl (
            bind-map state_behind halt_behind _ _ _
              (match_round-behind c s s.level.head_order resting)
              λ s'. match_level-behind fuel c s'))
        refl

  abbrev progress_behind : Progress → Progress
  progress_behind p = record p { trades = pre ++ p.trades }

  abbrev step_behind : Bool × Progress → Bool × Progress
  step_behind (stp, p) = (stp, progress_behind p)

  match_best-behind :
      (p : Progress) (c i : ℕ)
      → match_best (progress_behind p) c i ≡ mapx step_behind (match_best p c i)
  unfolding match_best
  match_best-behind p c i = bind-same step_behind (read p.book.level_arena.nodes i) _ _ λ level.
      bind-map halt_behind step_behind _ _ _
        (match_level-behind (p.book.order_arena.nodes.len + 2) c (match_state p level))
        λ (stp, s).
          bind-same step_behind (write p.book.level_arena.nodes i s.level) _ _ λ level_nodes. refl

  take_best-behind :
      (s : Bool) (p : Progress) (c i price : ℕ)
      → take_best s (progress_behind p) c i price ≡ mapx step_behind (take_best s p c i price)
  unfolding take_best
  take_best-behind s p c i price =
      bind-map step_behind step_behind _ _ _ (match_best-behind p c i)
        λ (stp, p'). bind-same step_behind (drop_if_empty p'.book i price (not s)) _ _ λ book. refl

  match_loop-behind :
      (fuel : ℕ) (s : Bool) (c : ℕ) (p : Progress)
      → match_loop fuel s c (progress_behind p) ≡ mapx step_behind (match_loop fuel s c p)
  unfolding match_loop
  match_loop-behind zero s c p = refl
  match_loop-behind (suc fuel) s c p =
      let i = best (not s) p.book in
      if-map step_behind (ltb 0 p.order.qty && not (i == null_idx)) _ _
        (bind-same step_behind (read p.book.level_arena.nodes i) _ _ λ level.
          if-map step_behind (out_of_reach s p.order level.price) _ _ refl (
            bind-map step_behind step_behind _ _ _ (take_best-behind s p c i level.price)
              λ (stp, p'). if-map step_behind stp _ _ refl (match_loop-behind fuel s c p')))
        refl

  settle_remainder-behind :
      (qty c : ℕ) (s stp : Bool) (p : Progress)
      → settle_remainder qty c s stp (progress_behind p)
        ≡ mapx (behind pre) (settle_remainder qty c s stp p)
  unfolding settle_remainder
  settle_remainder-behind qty c s stp p = if-map (behind pre) stp _ _ refl (
      if-map (behind pre) (is_type (type_or_limit p.order) OrderType.market) _ _ refl (
        if-map (behind pre) (ltb 0 p.order.qty && is_type (type_or_limit p.order) OrderType.limit) _
          _
          (bind-same (behind pre) (rest_order p.book p.order c s) _ _
            λ (rested, b). result-map (behind pre) rested _ _ _ _ (λ why. refl) λ _. refl)
          refl))

  process_trade-behind :
      (b : OrderBook) (o : Order) (c : ℕ) (trades : List Trade)
      → process_trade b o c (pre ++ trades) ≡ mapx (behind pre) (process_trade b o c trades)
  unfolding process_trade
  process_trade-behind b o c trades =
      let (o', b') = stamp b o in
      let is_sell = o'.side == side_code Side.sell in
      bind-map step_behind (behind pre) _ _ _
        (match_loop-behind (b'.level_arena.nodes.len + 2) is_sell c
          (record { order = o'; book = b'; trades = trades }))
        λ (stp, p). settle_remainder-behind o'.qty c is_sell stp p

  -- What `process` does, panics included, does not depend on the trades that its vector holds: with
  -- `pre` before them it makes the same book and the same report, and the vector that it makes
  -- has `pre` before what it would have held.
  pub process-behind :
      (b : OrderBook) (o : Order) (c : ℕ) (trades : List Trade)
      → process b o c (pre ++ trades) ≡ mapx (behind pre) (process b o c trades)
  unfolding process process_cancel
  process-behind b o c trades =
      if-map (behind pre) (is_type (type_or_limit o) OrderType.cancel) _ _
        (bind-same (behind pre)
          (cancel_order b o.user_id (if o.id == 0 then o.client_order_id else o.id)) _ _
          λ (cancelled, b'). result-map (behind pre) cancelled _ _ _ _ (λ why. refl) λ order. refl)
        (process_trade-behind b o c trades)
