-- ===== src/Engine/Anonymous.antt =====
-- The engine without connections: what it makes of the rest does not depend on them.
use ultra_low_latency_order.Prelude.{
  ℕ, ◌≡◌, refl, sym, ◌∙◌, ap, false, List, [], ◌∷◌, map, leb, if◌then◌else◌, ◌==◌, Bool-cases, inl,
  inr, update, fun_ext, add64, sat_mul64, ltb, not, ◌&&◌, Exec, done, ◌>>=◌,
}
use ultra_low_latency_order.Types.{
  num_symbols, OrderType, is_type, type_or_limit, side_or_buy, Order, Trade, Result,
}
use ultra_low_latency_order.Risk.{
  RiskEngine, settle_trade, unlock_cancelled_order_margin, refund_market_order_remainder,
}
use ultra_low_latency_order.Book.State.{OrderBook, ExecutionReport}
use ultra_low_latency_order.Book.Process as Books
use ultra_low_latency_order.Engine.{
  MultiAssetEngine, stamp, process, cancel_order, settle_trades, settle_report,
}
use ultra_low_latency_order.Book.Anonymous.{mapx, bind-map, if-map}
use ultra_low_latency_order.Book.Anonymous.Match.{bare_trade}
use ultra_low_latency_order.Book.Anonymous.Cancels.{bare_book, bare_cancel, cancel_order-bare}
use ultra_low_latency_order.Book.Anonymous.Trades.{bare_outcome, process-bare}

-- The engine without the connections of its resting orders.
abbrev pub bare_engine : MultiAssetEngine → MultiAssetEngine
bare_engine e = record e { books = λ i. bare_book (e.books i) }

bare_books-update :
    (books : ℕ → OrderBook) (i : ℕ) (b : OrderBook)
    → update (λ j. bare_book (books j)) i (bare_book b) ≡ (λ j. bare_book (update books i b j))
bare_books-update books i b =
    fun_ext λ j. elim (Bool-cases (i == j)) [ inl e ↦ rw e refl | inr e ↦ rw e refl ]

abbrev pub bare_cancelled : Result Order × MultiAssetEngine → Result Order × MultiAssetEngine
bare_cancelled (r, e) = (r, bare_engine e)

pub engine_cancel-bare :
    (e : MultiAssetEngine) (symbol user order_id : ℕ)
    → cancel_order (bare_engine e) symbol user order_id
      ≡ mapx bare_cancelled (cancel_order e symbol user order_id)
unfolding cancel_order
engine_cancel-bare e symbol user order_id =
    if-map bare_cancelled (leb num_symbols symbol) _ _ refl (
      bind-map bare_cancel bare_cancelled _ _ _ (cancel_order-bare (e.books symbol) user order_id)
        λ (result, book).
          ap (λ (books : ℕ → OrderBook). done (result, record e { books = books }))
            (bare_books-update e.books symbol book))

abbrev pub bare_run :
    Result ExecutionReport × MultiAssetEngine × List Trade
    → Result ExecutionReport × MultiAssetEngine × List Trade
bare_run (r, e, trades) = (r, bare_engine e, map bare_trade trades)

-- The part of `process` behind the stamp.
abbrev pub run_stamped :
    ℕ
    → ℕ
    → List Trade
    → Order × MultiAssetEngine
    → Exec (Result ExecutionReport × MultiAssetEngine × List Trade)
run_stamped symbol c trades (o, e) =
    Books.process (e.books symbol) o c trades >>= λ (result, book, trades').
    done (result, record e { books = update e.books symbol book }, trades')

pub process-run :
    (e : MultiAssetEngine) (o : Order) (c : ℕ) (trades : List Trade)
    → leb num_symbols o.symbol_id ≡ false
    → process e o c trades ≡ run_stamped o.symbol_id c trades (stamp e o)
unfolding process stamp
process-run e o c trades known = elim (Bool-cases (o.id == 0)) [
  | inl h ↦ rw (process, known, h) refl
  | inr h ↦ rw (process, known, h) refl
]

run_stamped-bare :
    (symbol c : ℕ) (trades : List Trade) (o : Order) (e : MultiAssetEngine)
    → run_stamped symbol 0 (map bare_trade trades) (o, bare_engine e)
      ≡ mapx bare_run (run_stamped symbol c trades (o, e))
run_stamped-bare symbol c trades o e =
    bind-map bare_outcome bare_run _ _ _ (process-bare (e.books symbol) o c trades)
      λ (result, book, trades').
        ap
          (λ (books : ℕ → OrderBook).
            done (result, record e { books = books }, map bare_trade trades'))
          (bare_books-update e.books symbol book)

stamp-bare :
    (e : MultiAssetEngine) (o : Order)
    → stamp (bare_engine e) o ≡ ((stamp e o).0, bare_engine (stamp e o).1)
unfolding stamp
stamp-bare e o = elim (Bool-cases (o.id == 0)) [ inl h ↦ rw h refl | inr h ↦ rw h refl ]

pub engine_process-bare :
    (e : MultiAssetEngine) (o : Order) (c : ℕ) (trades : List Trade)
    → leb num_symbols o.symbol_id ≡ false
    → process (bare_engine e) o 0 (map bare_trade trades) ≡ mapx bare_run (process e o c trades)
engine_process-bare e o c trades known =
    process-run (bare_engine e) o 0 (map bare_trade trades) known
    ∙ ap (run_stamped o.symbol_id 0 (map bare_trade trades)) (stamp-bare e o)
    ∙ run_stamped-bare o.symbol_id c trades (stamp e o).0 (stamp e o).1
    ∙ ap (mapx bare_run) (sym (process-run e o c trades known))

settle_trades-bare :
    (r : RiskEngine) (limit : ℕ) (trades : List Trade) (qty cost : ℕ)
    → settle_trades r limit (map bare_trade trades) qty cost ≡ settle_trades r limit trades qty cost
unfolding settle_trades
settle_trades-bare r limit [] qty cost = refl
settle_trades-bare r limit (t ∷ trades) qty cost =
    settle_trades-bare (settle_trade r t limit) limit trades (add64 qty t.qty)
      (add64 cost (sat_mul64 t.price t.qty))

-- The part of `settle_report` behind the loop over the trades.
abbrev give_back : Order → ExecutionReport → RiskEngine × ℕ × ℕ → RiskEngine
give_back order report (settled, total_executed_qty, total_executed_cost) =
    let unlocked =
      if report.stp_triggered && ltb 0 report.remaining_qty
      then unlock_cancelled_order_margin settled order report.remaining_qty
      else settled in
    if is_type (type_or_limit order) OrderType.market && not report.stp_triggered
    then refund_market_order_remainder unlocked order.user_id order.symbol_id (side_or_buy order)
        order.price order.qty total_executed_qty total_executed_cost
    else unlocked

-- Settlement does not look at the connections.
pub settle_report-bare :
    (r : RiskEngine) (o : Order) (report : ExecutionReport) (trades : List Trade)
    → settle_report r o report (map bare_trade trades) ≡ settle_report r o report trades
unfolding settle_report
settle_report-bare r o report trades =
    ap (give_back o report) (settle_trades-bare r o.price trades 0 0)
