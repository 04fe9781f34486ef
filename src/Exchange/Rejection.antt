-- ===== src/Exchange/Rejection.antt =====
-- A turn whose order is rejected, by the risk engine or by the matching engine.
use ultra_low_latency_order.Prelude.{
  ℕ, ◌<◌, ◌≡◌, refl, ◌∙◌, ap, true, false, List, [], ◌∷◌, done, ◌==◌, Bool-cases, inl, inr, leb,
}
use ultra_low_latency_order.Types.{
  num_symbols, Order, OrderType, is_type, type_or_limit, get_side, Trade, RejectReason, ok, err,
}
use ultra_low_latency_order.Types.Message.{ack}
use ultra_low_latency_order.Risk.{RiskEngine, lock_order_funds, unlock_cancelled_order_margin}
use ultra_low_latency_order.Risk.Totals.{Fits}
use ultra_low_latency_order.Risk.Lock.{lock_order_funds-ok}
use ultra_low_latency_order.Risk.Unlock.{unlock-lock_order_funds}
use ultra_low_latency_order.Engine.{MultiAssetEngine, next_order_id, process}
use ultra_low_latency_order.Arena.Nodes.{null_idx}
use ultra_low_latency_order.Book.Full.{IsApart, IsResting, IsResting-with_id, IsApart-with_id}
use ultra_low_latency_order.Engine.Full.{SameBooks, engine_process-full}
use ultra_low_latency_order.Exchange.{
  OutboundEvent, symbol_byte, rejection, match_turn, assign_id, order_turn, turn,
}

abbrev pub stamped : MultiAssetEngine → Order → Order
stamped e o = (assign_id e o).0

abbrev pub counted : MultiAssetEngine → Order → MultiAssetEngine
counted e o = (assign_id e o).1

pub stamped-fresh :
    (e : MultiAssetEngine) (o : Order)
    → (o.id == 0) ≡ true
    → stamped e o ≡ record o { id = (next_order_id e).0 }
unfolding assign_id
stamped-fresh e o h = rw (stamped, assign_id, h) refl

pub stamped-own : (e : MultiAssetEngine) (o : Order) → (o.id == 0) ≡ false → stamped e o ≡ o
unfolding assign_id
stamped-own e o h = rw (stamped, assign_id, h) refl

-- The id makes no difference to what is unlocked.
unlock-with_id :
    (r : RiskEngine) (o : Order) (k : ℕ)
    → unlock_cancelled_order_margin r (record o { id = k }) o.qty
      ≡ unlock_cancelled_order_margin r o o.qty
unfolding unlock_cancelled_order_margin get_side
unlock-with_id r o k = refl

unlock-stamped :
    (e : MultiAssetEngine) (r : RiskEngine) (o : Order)
    → unlock_cancelled_order_margin r (stamped e o) (stamped e o).qty
      ≡ unlock_cancelled_order_margin r o o.qty
unlock-stamped e r o = elim (Bool-cases (o.id == 0)) [
  | inl h ↦
      let s : stamped e o ≡ record o { id = (next_order_id e).0 } = stamped-fresh e o h in
      ap (λ (p : Order). unlock_cancelled_order_margin r p p.qty) s
      ∙ unlock-with_id r o (next_order_id e).0
  | inr h ↦ ap (λ (p : Order). unlock_cancelled_order_margin r p p.qty) (stamped-own e o h)
]

-- A turn whose order is funded and comes back from the matching engine with an error.
turn-restored :
    (e : MultiAssetEngine) (r : RiskEngine) (client_id : ℕ) (o : Order) (now_ns : ℕ)
    (why : RejectReason) (e' : MultiAssetEngine) (trades : List Trade)
    → Fits r
    → o.side < 2
    → is_type (type_or_limit o) OrderType.cancel ≡ false
    → (lock_order_funds r o).0 ≡ ok tt
    → process (counted e o) (stamped e o) client_id [] ≡ done (err why, e', trades)
    → turn e r client_id o now_ns
      ≡ done (record {
        engine = e';
        risk = r;
        journal = (stamped e o, now_ns) ∷ [];
        out =
            OutboundEvent.client_ack client_id (
              ack
                (stamped e o).id
                (stamped e o).client_order_id
                (stamped e o).user_id
                (symbol_byte (stamped e o).symbol_id))
            ∷ rejection client_id (stamped e o) why
            ∷ [];
      })
unfolding turn order_turn match_turn
turn-restored e r client_id o now_ns why e' trades fits valid not_cancel locked failed =
    rw
      (
        not_cancel,
        order_turn,
        locked,
        match_turn,
        failed,
        unlock-stamped e (lock_order_funds r o).1 o,
        unlock-lock_order_funds r o fits valid not_cancel locked,
      )
      refl

-- `engine_process-full`, with the order and the engine as the turn has stamped them.
process-counted_full :
    (e : MultiAssetEngine) (o : Order) (c : ℕ)
    → leb num_symbols o.symbol_id ≡ false
    → IsResting o
    → IsApart (e.books o.symbol_id) o
    → (e.books o.symbol_id).order_arena.free_head ≡ null_idx
    → (e' : MultiAssetEngine) × (process (counted e o) (stamped e o) c []
        ≡ done (err RejectReason.engine_full, e', []))
      × SameBooks e e'
unfolding assign_id next_order_id
process-counted_full e o c known h apart full = elim (Bool-cases (o.id == 0)) [
  | inl fresh ↦
      let i : ℕ = e.global_order_id_counter in
      let o1 : Order = record o { id = i } in
      let e1 : MultiAssetEngine = (next_order_id e).1 in
      let (e', runs, same) =
        engine_process-full e1 o1 c known (IsResting-with_id o i h)
          (IsApart-with_id (e.books o.symbol_id) o i apart) full in
      (e', rw (stamped, counted, assign_id, fresh) runs, same)
  | inr own ↦
      let (e', runs, same) = engine_process-full e o c known h apart full in
      (e', rw (stamped, counted, assign_id, own) runs, same)
]

-- A limit order whose side byte is 0 or 1 and whose margin is reserved, and which no level of the other
-- side is in reach of, comes to a book without a free order node: the client is sent an acknowledgement and the rejection
-- `EngineFull`, the order is in the journal with its id, the risk engine is as it was before the order,
-- and in the books nothing but counters of order ids has changed. The totals of the risk engine are
-- to be words.
pub turn-full :
    (e : MultiAssetEngine) (r : RiskEngine) (client_id : ℕ) (o : Order) (now_ns : ℕ)
    → Fits r
    → o.side < 2
    → type_or_limit o ≡ OrderType.limit
    → (lock_order_funds r o).0 ≡ ok tt
    → IsApart (e.books o.symbol_id) o
    → (e.books o.symbol_id).order_arena.free_head ≡ null_idx
    → (e' : MultiAssetEngine) × (turn e r client_id o now_ns
        ≡ done (record {
          engine = e';
          risk = r;
          journal = (stamped e o, now_ns) ∷ [];
          out =
              OutboundEvent.client_ack client_id (
                ack
                  (stamped e o).id
                  (stamped e o).client_order_id
                  (stamped e o).user_id
                  (symbol_byte (stamped e o).symbol_id))
              ∷ rejection client_id (stamped e o) RejectReason.engine_full
              ∷ [];
        }))
      × SameBooks e e'
turn-full e r client_id o now_ns fits valid limit locked apart full =
    let not_cancel : is_type (type_or_limit o) OrderType.cancel ≡ false = rw limit refl in
    let (a, b, found, locks, stored, known, some_qty) = lock_order_funds-ok r o not_cancel locked in
    let (e', runs, same) =
      process-counted_full e o client_id known (record { limit = limit; quantity = some_qty }) apart
        full in
    (
      e',
      turn-restored e r client_id o now_ns RejectReason.engine_full e' [] fits valid not_cancel
          locked runs,
      same,
    )
