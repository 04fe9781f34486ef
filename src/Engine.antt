-- ===== src/Engine.antt =====
-- `MultiAssetEngine` of src/book.rs: one book per symbol, and the replay of a journaled order.
pub mod Anonymous
pub mod Full
mod Tests
use ultra_low_latency_order.Prelude.{
  ℕ, ◌+◌, Bool, true, false, not, ◌&&◌, Option, none, some, List, [], ◌∷◌, ltb, leb, ◌==◌, max,
  if◌then◌else◌, add64, sat_mul64, update, Exec, done, ◌>>=◌,
}
use ultra_low_latency_order.Types.{
  num_symbols, Symbol, Side, OrderType, is_type, RejectReason, Order, type_or_limit, side_or_buy,
  Trade, Result, ok, err,
}
use ultra_low_latency_order.Risk.{
  RiskEngine, deposit, lock_order_funds, unlock_cancelled_order_margin,
  refund_market_order_remainder, settle_trade,
}
use ultra_low_latency_order.Book.State.{OrderBook, ExecutionReport, new_book}
use ultra_low_latency_order.Book.Process as Books
use ultra_low_latency_order.Book.Cancel as Cancels

pub record MultiAssetEngine : Type 0 where
  pub books : ℕ → OrderBook
  pub global_order_id_counter : ℕ

-- `MultiAssetEngine::new`. Only the indices below NUM_SYMBOLS are ever used.
unfoldable pub new_engine : MultiAssetEngine
unfolding new_book
new_engine = record {
  books = λ i.
      if i == 0
      then new_book Symbol.btc
      else if i == 1
      then new_book Symbol.eth
      else new_book Symbol.sol;
  global_order_id_counter = 1;
}

unfoldable pub next_order_id : MultiAssetEngine → ℕ × MultiAssetEngine
next_order_id e = (
  e.global_order_id_counter,
  record e { global_order_id_counter = add64 e.global_order_id_counter 1 },
)

-- The id that `process` gives the order, and the counter after it.
unfoldable pub stamp : MultiAssetEngine → Order → Order × MultiAssetEngine
stamp e o =
    if o.id == 0
    then (
      record o { id = e.global_order_id_counter },
      record e { global_order_id_counter = add64 e.global_order_id_counter 1 },
    )
    else (o, record e { global_order_id_counter = max e.global_order_id_counter (add64 o.id 1) })

unfoldable pub process :
    MultiAssetEngine
    → Order
    → ℕ
    → List Trade
    → Exec (Result ExecutionReport × MultiAssetEngine × List Trade)
process e order client_id trades =
    let (o, e') = stamp e order in
    let booked =
      Books.process (e'.books order.symbol_id) o client_id trades >>= λ (result, book, trades').
      done (result, record e' { books = update e'.books order.symbol_id book }, trades') in
    if leb num_symbols order.symbol_id
    then done (err RejectReason.invalid_order, e, trades)
    else booked

unfoldable pub cancel_order : MultiAssetEngine → ℕ → ℕ → ℕ → Exec (Result Order × MultiAssetEngine)
cancel_order e symbol_id user_id order_id =
    let booked = Cancels.cancel_order (e.books symbol_id) user_id order_id >>= λ (result, book).
    done (result, record e { books = update e.books symbol_id book }) in
    if leb num_symbols symbol_id then done (err RejectReason.invalid_order, e) else booked

unfoldable pub get_book : MultiAssetEngine → ℕ → Option OrderBook
get_book e symbol_id = if ltb symbol_id num_symbols then some (e.books symbol_id) else none

-- The loop over the trades of one order: settlement, with the executed quantity and cost.
unfoldable pub settle_trades : RiskEngine → ℕ → List Trade → ℕ → ℕ → RiskEngine × ℕ × ℕ
unfolding settle_trade
settle_trades r taker_limit_price [] qty cost = (r, qty, cost)
settle_trades r taker_limit_price (t ∷ ts) qty cost =
    settle_trades (settle_trade r t taker_limit_price) taker_limit_price ts (add64 qty t.qty)
      (add64 cost (sat_mul64 t.price t.qty))

-- The risk engine after the report of an accepted order: settlement, then what self-trade prevention
-- or the end of a market order gives back.
unfoldable pub settle_report : RiskEngine → Order → ExecutionReport → List Trade → RiskEngine
unfolding settle_trades unlock_cancelled_order_margin refund_market_order_remainder
settle_report r order report trades =
    let (settled, total_executed_qty, total_executed_cost) =
      settle_trades r order.price trades 0 0 in
    let unlocked =
      if report.stp_triggered && ltb 0 report.remaining_qty
      then unlock_cancelled_order_margin settled order report.remaining_qty
      else settled in
    if is_type (type_or_limit order) OrderType.market && not report.stp_triggered
    then refund_market_order_remainder unlocked order.user_id order.symbol_id (side_or_buy order)
        order.price order.qty total_executed_qty total_executed_cost
    else unlocked

-- `replay_order`, one journaled order. The trades are a scratch buffer that it clears.
unfoldable pub replay_order :
    MultiAssetEngine → RiskEngine → Order → Exec (Result (Unit {0}) × MultiAssetEngine × RiskEngine)
replay_order e r order =
    let cancelled = cancel_order e order.symbol_id order.user_id order.id >>= λ (result, e').
    elim result [
      | ok c ↦ done (ok tt, e', unlock_cancelled_order_margin r c c.qty)
      | err _ ↦ done (ok tt, e', r)
    ] in
    let (locked, r') = lock_order_funds r order in
    let processed = process e order 0 [] >>= λ (result, e', trades). elim result [
      | ok report ↦ done (ok tt, e', settle_report r' order report trades)
      | err _ ↦ done (ok tt, e', r')
    ] in
    if is_type (type_or_limit order) OrderType.deposit
    then done (ok tt, e, deposit r order.user_id order.price order.symbol_id order.qty)
    else if leb num_symbols order.symbol_id
    then done (err RejectReason.invalid_order, e, r)
    else if is_type (type_or_limit order) OrderType.cancel
    then cancelled
    else elim locked [ ok _ ↦ processed | err _ ↦ done (ok tt, e, r') ]
