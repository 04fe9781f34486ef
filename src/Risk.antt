-- ===== src/Risk.antt =====
-- src/risk.rs: two-state margin accounts. A `HashMap` entry is reached by its key only, so the map
-- is an association list; an array of NUM_SYMBOLS words is a function of the index, which every
-- method checks against NUM_SYMBOLS before it reads or writes.
pub mod Totals
pub mod Lock
pub mod Refuse
pub mod Unlock
pub mod Settle
pub mod Refund
mod Tests
use ultra_low_latency_order.Prelude.{
  ℕ, ◌-◌, ◌*◌, Option, none, some, [], ltb, leb, ◌==◌, if◌then◌else◌, u64_mod, add64, sub64,
  sat_mul64, update, Map, find, put,
}
use ultra_low_latency_order.Types.{
  num_symbols, Side, side_code, is_buy_side, OrderType, is_type, RejectReason, Order, type_or_limit,
  side_or_buy, Trade, Result, ok, err,
}

pub record Account : Type 0 where
  pub user_id : ℕ
  pub usd_available : ℕ
  pub usd_locked : ℕ
  pub asset_available : ℕ → ℕ
  pub asset_locked : ℕ → ℕ

-- `Account::new`
unfoldable pub new_account : ℕ → ℕ → Account
new_account user_id initial_usd = record {
  user_id = user_id;
  usd_available = initial_usd;
  usd_locked = 0;
  asset_available = λ _. 0;
  asset_locked = λ _. 0;
}

pub record RiskEngine : Type 0 where
  pub accounts : Map Account

-- `RiskEngine::new`
abbrev pub new_risk_engine : RiskEngine
new_risk_engine = record { accounts = [] }

-- `get_account` and `get_account_mut`; a write through the latter is `set_account`.
unfoldable pub get_account : ℕ → RiskEngine → Option Account
get_account user_id r = find user_id r.accounts

unfoldable pub set_account : ℕ → Account → RiskEngine → RiskEngine
set_account user_id a r = record { accounts = put user_id a r.accounts }

-- `entry(user_id).or_insert_with(|| Account::new(user_id, 0))`
abbrev pub account_or_new : ℕ → Option Account → Account
account_or_new user_id none = new_account user_id 0
account_or_new user_id (some a) = a

abbrev pub credit : Account → ℕ → ℕ → ℕ → Account
credit a usd sym_idx asset_qty = record a {
  usd_available = add64 a.usd_available usd;
  asset_available = update a.asset_available sym_idx (add64 (a.asset_available sym_idx) asset_qty);
}

unfoldable pub deposit : RiskEngine → ℕ → ℕ → ℕ → ℕ → RiskEngine
unfolding get_account set_account new_account
deposit r user_id usd symbol_id asset_qty =
    if leb num_symbols symbol_id
    then r
    else set_account user_id
        (credit (account_or_new user_id (get_account user_id r)) usd symbol_id asset_qty) r

-- `price.checked_mul(qty)` on u64
unfoldable pub checked_mul64 : ℕ → ℕ → Option ℕ
checked_mul64 a b = if ltb (a * b) u64_mod then some (a * b) else none

-- The body of `lock_order_funds` on the account that it has found: the buy branch, then the sell
-- branch.
unfoldable pub lock_usd : Order → Account → Result Account
unfolding checked_mul64
lock_usd o a =
    if o.price == 0 then err RejectReason.invalid_order else elim (checked_mul64 o.price o.qty) [
      | none ↦ err RejectReason.invalid_order
      | some required_usd ↦
          if ltb a.usd_available required_usd
          then err RejectReason.insufficient_funds
          else ok (record a {
            usd_available = sub64 a.usd_available required_usd;
            usd_locked = add64 a.usd_locked required_usd;
          })
    ]

unfoldable pub lock_asset : Order → Account → Result Account
lock_asset o a =
    if ltb (a.asset_available o.symbol_id) o.qty
    then err RejectReason.insufficient_funds
    else ok (record a {
      asset_available =
          update a.asset_available o.symbol_id (sub64 (a.asset_available o.symbol_id) o.qty);
      asset_locked = update a.asset_locked o.symbol_id (add64 (a.asset_locked o.symbol_id) o.qty);
    })

unfoldable pub lock_account : Order → Account → Result Account
unfolding lock_usd lock_asset
lock_account o a = if o.side == side_code Side.buy then lock_usd o a else lock_asset o a

-- `lock_order_funds`: the result, and the engine that is left.
unfoldable pub lock_order_funds : RiskEngine → Order → Result (Unit {0}) × RiskEngine
unfolding get_account set_account lock_account
lock_order_funds r o =
    if is_type (type_or_limit o) OrderType.cancel
    then (ok tt, r)
    else if o.qty == 0
    then (err RejectReason.invalid_order, r)
    else if leb num_symbols o.symbol_id
    then (err RejectReason.invalid_order, r)
    else elim (get_account o.user_id r) [
      | none ↦ (err RejectReason.unauthorized, r)
      | some a ↦ elim (lock_account o a) [
        | err e ↦ (err e, r)
        | ok a' ↦ (ok tt, set_account o.user_id a' r)
      ]
    ]

-- The account after `unlock_order_funds`.
unfoldable pub unlock_account : Side → ℕ → ℕ → ℕ → Account → Account
unlock_account side symbol_id price unexecuted_qty a =
    let locked_usd = sat_mul64 price unexecuted_qty in
    if is_buy_side side
    then record a {
      usd_locked = a.usd_locked - locked_usd;
      usd_available = add64 a.usd_available locked_usd;
    }
    else record a {
      asset_locked = update a.asset_locked symbol_id (a.asset_locked symbol_id - unexecuted_qty);
      asset_available =
          update a.asset_available symbol_id (add64 (a.asset_available symbol_id) unexecuted_qty);
    }

unfoldable pub unlock_order_funds : RiskEngine → ℕ → ℕ → Side → ℕ → ℕ → RiskEngine
unfolding get_account set_account unlock_account
unlock_order_funds r user_id symbol_id side price unexecuted_qty =
    if unexecuted_qty == 0
    then r
    else if leb num_symbols symbol_id
    then r
    else elim (get_account user_id r) [
      | none ↦ r
      | some a ↦ set_account user_id (unlock_account side symbol_id price unexecuted_qty a) r
    ]

unfoldable pub unlock_cancelled_order_margin : RiskEngine → Order → ℕ → RiskEngine
unfolding unlock_order_funds
unlock_cancelled_order_margin r o unexecuted_qty =
    unlock_order_funds r o.user_id o.symbol_id (side_or_buy o) o.price unexecuted_qty

-- The account after `refund_market_order_remainder`.
unfoldable pub refund_account : Side → ℕ → ℕ → ℕ → ℕ → ℕ → Account → Account
refund_account side symbol_id budget_price total_requested_qty total_executed_qty
      total_executed_cost a =
    let locked_budget = sat_mul64 budget_price total_requested_qty in
    let surplus = locked_budget - total_executed_cost in
    let unexecuted_qty = total_requested_qty - total_executed_qty in
    if is_buy_side side
    then if ltb total_executed_cost locked_budget
      then record a {
        usd_locked = a.usd_locked - surplus;
        usd_available = add64 a.usd_available surplus;
      }
      else a
    else if ltb 0 unexecuted_qty
    then record a {
      asset_locked = update a.asset_locked symbol_id (a.asset_locked symbol_id - unexecuted_qty);
      asset_available =
          update a.asset_available symbol_id (add64 (a.asset_available symbol_id) unexecuted_qty);
    }
    else a

unfoldable pub refund_market_order_remainder :
    RiskEngine → ℕ → ℕ → Side → ℕ → ℕ → ℕ → ℕ → RiskEngine
unfolding get_account set_account refund_account
refund_market_order_remainder r user_id symbol_id side budget_price total_requested_qty
      total_executed_qty total_executed_cost =
    if leb num_symbols symbol_id then r else elim (get_account user_id r) [
      | none ↦ r
      | some a ↦
          set_account user_id
            (refund_account side symbol_id budget_price total_requested_qty total_executed_qty
              total_executed_cost a)
            r
    ]

-- The price at which the buyer of a trade had locked its dollars.
abbrev pub locked_price : Trade → ℕ → ℕ
locked_price t taker_limit_price =
    if t.buyer_id == t.maker_user_id then t.price else taker_limit_price

-- The two steps of `settle_trade`: the buyer's account, then the seller's.
unfoldable pub settle_buyer_account : Trade → ℕ → Account → Account
settle_buyer_account t taker_limit_price buyer =
    let total_cost = sat_mul64 t.price t.qty in
    let locked_usd = sat_mul64 (locked_price t taker_limit_price) t.qty in
    record buyer {
      usd_locked = buyer.usd_locked - locked_usd;
      usd_available =
          if ltb total_cost locked_usd
          then add64 buyer.usd_available (locked_usd - total_cost)
          else buyer.usd_available;
      asset_available =
          update buyer.asset_available t.symbol_id
            (add64 (buyer.asset_available t.symbol_id) t.qty);
    }

unfoldable pub settle_seller_account : Trade → Account → Account
settle_seller_account t seller = record seller {
  asset_locked = update seller.asset_locked t.symbol_id (seller.asset_locked t.symbol_id - t.qty);
  usd_available = add64 seller.usd_available (sat_mul64 t.price t.qty);
}

unfoldable pub settle_buyer : RiskEngine → Trade → ℕ → RiskEngine
unfolding get_account set_account settle_buyer_account
settle_buyer r t taker_limit_price = elim (get_account t.buyer_id r) [
  | none ↦ r
  | some buyer ↦ set_account t.buyer_id (settle_buyer_account t taker_limit_price buyer) r
]

unfoldable pub settle_seller : RiskEngine → Trade → RiskEngine
unfolding get_account set_account settle_seller_account
settle_seller r t = elim (get_account t.seller_id r) [
  | none ↦ r
  | some seller ↦ set_account t.seller_id (settle_seller_account t seller) r
]

unfoldable pub settle_trade : RiskEngine → Trade → ℕ → RiskEngine
unfolding settle_buyer settle_seller
settle_trade r t taker_limit_price =
    if leb num_symbols t.symbol_id then r else settle_seller (settle_buyer r t taker_limit_price) t
