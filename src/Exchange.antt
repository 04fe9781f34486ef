-- ===== src/Exchange.antt =====
-- src/bin/exchange.rs: one turn of the matching thread, from a message of the gateway to what it
-- sends to the journal and to the clients. The clock's reading is an argument.
pub mod Egress
pub mod Follow
pub mod Rejection
pub mod Startup
pub mod Recovery
pub mod Replay
mod Tests
mod RejectionTests
mod RecoveryTests
mod ReplayTests
use ultra_low_latency_order.Prelude.{
  ℕ, ◌%◌, true, false, List, [], ◌∷◌, ◌++◌, map, Option, none, some, ◌==◌, ◌&&◌, ltb, if◌then◌else◌,
  Exec, done, ◌>>=◌,
}
use ultra_low_latency_order.Types.{
  Order, OrderType, is_type, type_or_limit, Trade, RejectReason, ok, err,
}
use ultra_low_latency_order.Types.Message.{ServerMessage, ack, reject, fill, cancel_ok, bbo}
use ultra_low_latency_order.Risk.{RiskEngine, lock_order_funds, unlock_cancelled_order_margin}
use ultra_low_latency_order.Book.State.{ExecutionReport}
use ultra_low_latency_order.Book.View.{get_bbo}
use ultra_low_latency_order.Engine.{
  MultiAssetEngine, next_order_id, process, cancel_order, get_book, settle_report,
}

-- `OutboundEvent` of src/gateway.rs.
pub data OutboundEvent : Type 0 where
  client_ack : ℕ → ServerMessage → OutboundEvent
  client_reject : ℕ → ServerMessage → OutboundEvent
  client_cancel_ok : ℕ → ServerMessage → OutboundEvent
  trade_fill : ℕ → ℕ → ServerMessage → ServerMessage → OutboundEvent
  bbo_broadcast : ServerMessage → OutboundEvent

-- The state after a turn, what it has sent to the journal, and to the clients in its order.
pub record Turn : Type 0 where
  pub engine : MultiAssetEngine
  pub risk : RiskEngine
  pub journal : List (Order × ℕ)
  pub out : List OutboundEvent

-- `order.symbol_id as u8`
abbrev pub symbol_byte : ℕ → ℕ
symbol_byte symbol_id = symbol_id % 256

abbrev pub rejection : ℕ → Order → RejectReason → OutboundEvent
rejection client_id o reason =
    OutboundEvent.client_reject client_id
      (reject o.id o.client_order_id o.user_id (symbol_byte o.symbol_id) reason)

abbrev pub fills_of : Trade → OutboundEvent
fills_of t =
    OutboundEvent.trade_fill t.taker_client_id t.maker_client_id
      (fill t.taker_order_id t.taker_client_order_id t.taker_user_id (symbol_byte t.symbol_id)
        t.match_id t.price t.qty false)
      (fill t.maker_order_id t.maker_client_order_id t.maker_user_id (symbol_byte t.symbol_id)
        t.match_id t.price t.qty true)

-- `unwrap_or((0, 0))`
abbrev pub or_zeros : Option (ℕ × ℕ) → ℕ × ℕ
or_zeros none = (0, 0)
or_zeros (some q) = q

-- The broadcast of the best prices of a symbol.
unfoldable pub bbo_events : MultiAssetEngine → ℕ → Exec (List OutboundEvent)
unfolding get_book get_bbo
bbo_events e symbol_id = elim (get_book e symbol_id) [
  | none ↦ done []
  | some book ↦ get_bbo book >>= λ (best_bid, best_ask).
      let (bid_p, bid_q) = or_zeros best_bid in
      let (ask_p, ask_q) = or_zeros best_ask in
      done (OutboundEvent.bbo_broadcast (bbo (symbol_byte symbol_id) bid_p bid_q ask_p ask_q) ∷ [])
]

-- A cancel.
unfoldable pub cancel_turn : MultiAssetEngine → RiskEngine → ℕ → Order → ℕ → Exec Turn
cancel_turn e r client_id o now_ns = cancel_order e o.symbol_id o.user_id o.id >>= λ (result, e').
    elim result [
      | ok c ↦ done (record {
        engine = e';
        risk = unlock_cancelled_order_margin r c c.qty;
        journal = (o, now_ns) ∷ [];
        out =
            OutboundEvent.client_cancel_ok client_id
              (cancel_ok c.id c.client_order_id o.user_id (symbol_byte o.symbol_id) c.qty)
            ∷ [];
      })
      | err reason ↦
          done (record {
            engine = e';
            risk = r;
            journal = [];
            out = rejection client_id o reason ∷ [];
          })
    ]

-- The events of an accepted order's report, but for the broadcast.
abbrev pub report_events : ℕ → Order → ExecutionReport → List Trade → List OutboundEvent
report_events client_id o report trades =
    map fills_of trades
    ++ (if report.stp_triggered && ltb 0 report.remaining_qty
        then rejection client_id o RejectReason.self_trade_prevented ∷ []
        else [])

-- An order whose margin is reserved, with its exchange id.
unfoldable pub match_turn : MultiAssetEngine → RiskEngine → ℕ → Order → ℕ → Exec Turn
match_turn e r client_id o now_ns =
    let acked =
      OutboundEvent.client_ack client_id
        (ack o.id o.client_order_id o.user_id (symbol_byte o.symbol_id)) in
    process e o client_id [] >>= λ (result, e', trades). elim result [
      | ok report ↦ bbo_events e' o.symbol_id >>= λ broadcast. done (record {
        engine = e';
        risk = settle_report r o report trades;
        journal = (o, now_ns) ∷ [];
        out = acked ∷ (report_events client_id o report trades ++ broadcast);
      })
      | err reason ↦ done (record {
        engine = e';
        risk = unlock_cancelled_order_margin r o o.qty;
        journal = (o, now_ns) ∷ [];
        out = acked ∷ rejection client_id o reason ∷ [];
      })
    ]

-- The order that is matched: with a fresh id from the engine if it has none.
unfoldable pub assign_id : MultiAssetEngine → Order → Order × MultiAssetEngine
unfolding next_order_id
assign_id e o =
    let (fresh, e') = next_order_id e in if o.id == 0 then (record o { id = fresh }, e') else (o, e)

unfoldable pub order_turn : MultiAssetEngine → RiskEngine → ℕ → Order → ℕ → Exec Turn
order_turn e r client_id o now_ns =
    let (locked, r') = lock_order_funds r o in
    let (stamped, e') = assign_id e o in
    elim locked [
      | err reason ↦
          done (record {
            engine = e;
            risk = r';
            journal = [];
            out = rejection client_id o reason ∷ [];
          })
      | ok _ ↦ match_turn e' r' client_id stamped now_ns
    ]

unfoldable pub turn : MultiAssetEngine → RiskEngine → ℕ → Order → ℕ → Exec Turn
turn e r client_id o now_ns =
    if is_type (type_or_limit o) OrderType.cancel
    then cancel_turn e r client_id o now_ns
    else order_turn e r client_id o now_ns
