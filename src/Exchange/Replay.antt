-- ===== src/Exchange/Replay.antt =====
-- Replaying what a turn has journaled leaves the engines as the turn did.
use ultra_low_latency_order.Prelude.{
  ℕ, ◌+◌, ◌<◌, ◌≡◌, refl, sym, ◌∙◌, ap, false, List, [], ◌∷◌, ◌++◌, leb, ◌==◌, Bool-cases, inl, inr,
  u64_max, add64, add64-eq, Exec, done, panic, stalled, ◌>>=◌, arith,
}
use ultra_low_latency_order.Types.{
  num_symbols, Order, OrderType, is_type, type_or_limit, get_order_type, Trade, Result, ok,
}
use ultra_low_latency_order.Types.Message.{ack, cancel_ok}
use ultra_low_latency_order.Risk.{
  RiskEngine, unlock_cancelled_order_margin, lock_order_funds, lock_account, lock_usd, lock_asset,
}
use ultra_low_latency_order.Risk.Lock.{lock_order_funds-ok}
use ultra_low_latency_order.Book.State.{ExecutionReport}
use ultra_low_latency_order.Book.Anonymous.{mapx}
use ultra_low_latency_order.Engine.{
  MultiAssetEngine, stamp, next_order_id, process, cancel_order, settle_report, replay_order,
}
use ultra_low_latency_order.Engine.Anonymous.{
  bare_engine, bare_run, engine_cancel-bare, run_stamped, process-run, engine_process-bare,
  settle_report-bare,
}
use ultra_low_latency_order.Exchange.{
  OutboundEvent, Turn, symbol_byte, report_events, turn, order_turn, cancel_turn, match_turn,
  assign_id, bbo_events,
}
use ultra_low_latency_order.Exchange.Rejection.{stamped, counted, stamped-fresh, stamped-own}

-- What does not look at the id is the same of the order with its id.
stamped-same :
    {B : Type 0} (f : Order → B) (e : MultiAssetEngine) (o : Order)
    → ((k : ℕ) → f (record o { id = k }) ≡ f o)
    → f (stamped e o) ≡ f o
stamped-same f e o same = elim (Bool-cases (o.id == 0)) [
  | inl h ↦ ap f (stamped-fresh e o h) ∙ same (next_order_id e).0
  | inr h ↦ ap f (stamped-own e o h)
]

lock-with_id :
    (r : RiskEngine) (o : Order) (k : ℕ)
    → lock_order_funds r (record o { id = k }) ≡ lock_order_funds r o
unfolding lock_order_funds lock_account lock_usd lock_asset get_order_type
lock-with_id r o k = refl

type-with_id : (o : Order) (k : ℕ) → type_or_limit (record o { id = k }) ≡ type_or_limit o
unfolding get_order_type
type-with_id o k = refl

-- The engine gives an order that comes with its id the same stamp, whether it is the counter's or not
-- yet.
stamp-counted :
    (e : MultiAssetEngine) (o : Order)
    → 0 < e.global_order_id_counter
    → e.global_order_id_counter < u64_max
    → stamp (counted e o) (stamped e o) ≡ stamp e (stamped e o)
unfolding stamp assign_id next_order_id
stamp-counted e o positive small = elim (Bool-cases (o.id == 0)) [
  | inl h ↦
      let k = e.global_order_id_counter in
      let some : (k == 0) ≡ false = ground arith in
      let next : add64 k 1 ≡ k + 1 = add64-eq k 1 (omega arith) in
      rw (stamped, counted, assign_id, h, some, next)
        (ap (λ (n : ℕ). (record o { id = k }, record e { global_order_id_counter = n }))
          (omega arith))
  | inr h ↦ rw (stamped, counted, assign_id, h) refl
]

-- The turn's cancel or order is accepted: the order to cancel is found and is the user's, or the margin
-- is reserved and the matching engine returns a report. The turn leaves `after`.
pub data IsAccepted (e : MultiAssetEngine) (r : RiskEngine) (client_id : ℕ) (o : Order)
    : Type 0 where
  cancelled :
      (order : Order) (after : MultiAssetEngine)
      → type_or_limit o ≡ OrderType.cancel
      → leb num_symbols o.symbol_id ≡ false
      → cancel_order e o.symbol_id o.user_id o.id ≡ done (ok order, after)
      → IsAccepted e r client_id o
  matched :
      (report : ExecutionReport) (after : MultiAssetEngine) (trades : List Trade)
      → is_type (type_or_limit o) OrderType.cancel ≡ false
      → is_type (type_or_limit o) OrderType.deposit ≡ false
      → (lock_order_funds r o).0 ≡ ok tt
      → process (counted e o) (stamped e o) client_id [] ≡ done (ok report, after, trades)
      → IsAccepted e r client_id o

from_done : {A : Type 0} → A → Exec A → A
from_done a (done b) = b
from_done a panic = a
from_done a stalled = a

-- The turn that has returned after the broadcast.
returned :
    {A : Type 0} (x : Exec A) (f : A → Turn) (t : Turn)
    → (x >>= λ a. done (f a)) ≡ done t
    → (a : A) × (f a ≡ t)
unfolding from_done
returned (done a) f t h = (a, ap (from_done t) h)
returned panic f t h = absurd cc
returned stalled f t h = absurd cc

module _ (e : MultiAssetEngine) (r : RiskEngine) (c : ℕ) (o : Order) (now : ℕ) (t : Turn)
    (report : ExecutionReport) (after : MultiAssetEngine) (trades : List Trade)
    (no_cancel : is_type (type_or_limit o) OrderType.cancel ≡ false)
    (no_deposit : is_type (type_or_limit o) OrderType.deposit ≡ false)
    (locked : (lock_order_funds r o).0 ≡ ok tt)
    (ran_to : process (counted e o) (stamped e o) c [] ≡ done (ok report, after, trades)) where
  abbrev st : Order
  st = stamped e o

  same_type : type_or_limit st ≡ type_or_limit o
  same_type = stamped-same type_or_limit e o (type-with_id o)

  same_lock : lock_order_funds r st ≡ lock_order_funds r o
  same_lock = stamped-same (lock_order_funds r) e o (lock-with_id r o)

  known : leb num_symbols st.symbol_id ≡ false
  known =
      let (_, _, _, _, _, in_range, _) = lock_order_funds-ok r o no_cancel locked in
      stamped-same (λ (p : Order). leb num_symbols p.symbol_id) e o (λ k. refl) ∙ in_range

  abbrev leaves : List OutboundEvent → Turn
  leaves broadcast = record {
    engine = after;
    risk = settle_report (lock_order_funds r o).1 st report trades;
    journal = (st, now) ∷ [];
    out =
        OutboundEvent.client_ack c
          (ack st.id st.client_order_id st.user_id (symbol_byte st.symbol_id))
        ∷ (report_events c st report trades ++ broadcast);
  }

  turn-leaves :
      turn e r c o now ≡ (bbo_events after st.symbol_id >>= λ broadcast. done (leaves broadcast))
  unfolding turn order_turn match_turn
  turn-leaves = rw (turn, no_cancel, order_turn, locked, match_turn, ran_to) refl

  process-again :
      0 < e.global_order_id_counter
      → e.global_order_id_counter < u64_max
      → process (bare_engine e) st 0 [] ≡ done (bare_run (ok report, after, trades))
  process-again positive small =
      engine_process-bare e st c [] known
      ∙ ap (mapx bare_run) (
          process-run e st c [] known
          ∙ ap (run_stamped st.symbol_id c []) (sym (stamp-counted e o positive small))
          ∙ sym (process-run (counted e o) st c [] known)
          ∙ ran_to)

  replay-again :
      0 < e.global_order_id_counter
      → e.global_order_id_counter < u64_max
      → replay_order (bare_engine e) r st
        ≡ done (ok tt, bare_engine after, settle_report (lock_order_funds r o).1 st report trades)
  unfolding replay_order
  replay-again positive small =
      rw
        (
          replay_order,
          same_type,
          no_deposit,
          known,
          no_cancel,
          ap (λ (l : Result (Unit {0}) × RiskEngine). l.0) same_lock ∙ locked,
          process-again positive small,
        )
        (ap (λ (s : RiskEngine). done (ok tt, bare_engine after, s))
          (settle_report-bare (lock_order_funds r st).1 st report trades
            ∙ ap (λ (l : Result (Unit {0}) × RiskEngine). settle_report l.1 st report trades)
                same_lock))

  matched-turn :
      0 < e.global_order_id_counter
      → e.global_order_id_counter < u64_max
      → turn e r c o now ≡ done t
      → (t.journal ≡ (st, now) ∷ [])
        × (replay_order (bare_engine e) r st ≡ done (ok tt, bare_engine t.engine, t.risk))
  matched-turn positive small ran =
      let (b, same) = returned (bbo_events after st.symbol_id) leaves t (sym turn-leaves ∙ ran) in
      (
        ap (λ (u : Turn). u.journal) (sym same),
        replay-again positive small
            ∙ ap (λ (u : Turn). done (ok tt, bare_engine u.engine, u.risk)) same,
      )

-- A turn that accepts its order journals it, and `replay_order` on what it journaled, from the engines as
-- they were before the turn but without the connections of the resting orders, returns the engines as
-- the turn left them, again without connections. The id counter is to be positive and not the last
-- word, and a new order no deposit.
pub replay_order-turn :
    (e : MultiAssetEngine) (r : RiskEngine) (client_id : ℕ) (o : Order) (now_ns : ℕ) (t : Turn)
    → 0 < e.global_order_id_counter
    → e.global_order_id_counter < u64_max
    → IsAccepted e r client_id o
    → turn e r client_id o now_ns ≡ done t
    → (journaled : Order) × (t.journal ≡ (journaled, now_ns) ∷ [])
      × (replay_order (bare_engine e) r journaled ≡ done (ok tt, bare_engine t.engine, t.risk))
unfolding turn cancel_turn replay_order from_done
replay_order-turn e r c o now t positive small
      (IsAccepted.cancelled order after type in_range found) ran =
    let left : Turn = record {
      engine = after;
      risk = unlock_cancelled_order_margin r order order.qty;
      journal = (o, now) ∷ [];
      out =
          OutboundEvent.client_cancel_ok c
            (cancel_ok order.id order.client_order_id o.user_id (symbol_byte o.symbol_id) order.qty)
          ∷ [];
    } in
    let ended : turn e r c o now ≡ done left = rw (turn, type, cancel_turn, found) refl in
    let same : left ≡ t = ap (from_done t) (sym ended ∙ ran) in
    (
      o,
      ap (λ (u : Turn). u.journal) (sym same),
      rw (replay_order, type, in_range, engine_cancel-bare e o.symbol_id o.user_id o.id, found)
          (ap (λ (u : Turn). done (ok tt, bare_engine u.engine, u.risk)) same),
    )
replay_order-turn e r c o now t positive small
      (IsAccepted.matched report after trades no_cancel no_deposit locked ran_to) ran =
    let (same, again) =
      matched-turn e r c o now t report after trades no_cancel no_deposit locked ran_to positive
        small ran in
    (stamped e o, same, again)
