-- ===== src/Risk/Tests.antt =====
-- Runs of the risk engine, and its theorems at concrete accounts and orders.
use ultra_low_latency_order.Prelude.{
  some, ℕ, ◌+◌, ◌-◌, ◌*◌, ◌≡◌, refl, [], ◌∷◌, arith, find, total, put, add64, sub64,
}
use ultra_low_latency_order.Types.{
  Order, Trade, Symbol, Side, new_limit, new_market, get_order_type,
}
use ultra_low_latency_order.Risk.{
  Account, RiskEngine, get_account, lock_order_funds, unlock_cancelled_order_margin, settle_trade,
  lock_usd,
}
use ultra_low_latency_order.Risk.Totals.{usd_total, asset_total, Fits}
use ultra_low_latency_order.Risk.Lock.{lock_order_funds-conserves}
use ultra_low_latency_order.Risk.Unlock.{unlock-lock_order_funds, invalid_side_mints}
use ultra_low_latency_order.Risk.Settle.{Covered, settle_trade-conserves, settle_trade-others}
use ultra_low_latency_order.Risk.Refund.{market_buy, market_buy_refunds_twice}

-- Account 1 has dollars, some of them locked; account 2 has locked lots of every asset.
abbrev buyer : Account
buyer = record {
  user_id = 1;
  usd_available = 1_000;
  usd_locked = 300;
  asset_available = λ _. 0;
  asset_locked = λ _. 0;
}

abbrev seller : Account
seller = record {
  user_id = 2;
  usd_available = 0;
  usd_locked = 0;
  asset_available = λ _. 9;
  asset_locked = λ _. 5;
}

abbrev engine : RiskEngine
engine = record { accounts = (1, buyer) ∷ (2, seller) ∷ [] }

engine-Fits : Fits engine
unfolding usd_total asset_total total
engine-Fits = record { usd_fits = omega arith; asset_fits = λ s. omega arith }

abbrev buy_2_at_100 : Order
buy_2_at_100 = new_limit 7 1 Symbol.eth Side.buy 100 2

lock_order_funds-conserves_example :
    (usd_total (lock_order_funds engine buy_2_at_100).1 ≡ usd_total engine)
    × ((s : ℕ) → asset_total s (lock_order_funds engine buy_2_at_100).1 ≡ asset_total s engine)
lock_order_funds-conserves_example = lock_order_funds-conserves engine buy_2_at_100 engine-Fits

unlock-lock_order_funds_example :
    unlock_cancelled_order_margin (lock_order_funds engine buy_2_at_100).1 buy_2_at_100 2 ≡ engine
unfolding lock_order_funds get_order_type find put
unlock-lock_order_funds_example =
    unlock-lock_order_funds engine buy_2_at_100 engine-Fits (omega arith) refl refl

-- A side byte that is neither 0 nor 1, from an account with lots and no locked dollars.
abbrev odd_side : Order
odd_side = record buy_2_at_100 { user_id = 2; side = 7 }

invalid_side_mints_example :
    let r' : RiskEngine =
      unlock_cancelled_order_margin (lock_order_funds engine odd_side).1 odd_side 2 in
    (usd_total r' ≡ usd_total engine + 100 * 2)
    × ((c : Account) × (get_account 2 r' ≡ some c)
        × (c.asset_available odd_side.symbol_id + 2 ≡ seller.asset_available odd_side.symbol_id)
        × (c.asset_locked odd_side.symbol_id ≡ seller.asset_locked odd_side.symbol_id + 2))
unfolding lock_order_funds get_order_type get_account find put usd_total total
invalid_side_mints_example =
    invalid_side_mints engine odd_side seller engine-Fits (omega arith) refl refl (omega arith) refl
      refl

-- Account 1 takes 2 lots from account 2 at 90 dollars, having locked 100 for each.
abbrev trade : Trade
trade = record {
  match_id = 1;
  maker_order_id = 5;
  taker_order_id = 7;
  maker_client_order_id = 5;
  taker_client_order_id = 7;
  maker_user_id = 2;
  taker_user_id = 1;
  maker_client_id = 0;
  taker_client_id = 0;
  buyer_id = 1;
  seller_id = 2;
  maker_side = 1;
  symbol_id = 1;
  price = 90;
  qty = 2;
}

trade-Covered : Covered engine trade 100
unfolding get_account find usd_total asset_total total
trade-Covered = record {
  buyer = buyer;
  seller = seller;
  buyer_found = refl;
  seller_found = refl;
  known_symbol = omega arith;
  price_covered = omega arith;
  usd_covered = omega arith;
  asset_covered = omega arith;
  usd_fits = omega arith;
  asset_fits = λ s. omega arith;
}

settle_trade-conserves_example :
    (usd_total (settle_trade engine trade 100) ≡ usd_total engine)
    × ((s : ℕ) → asset_total s (settle_trade engine trade 100) ≡ asset_total s engine)
settle_trade-conserves_example = settle_trade-conserves engine trade 100 trade-Covered

settle_trade-others_example : get_account 3 (settle_trade engine trade 100) ≡ get_account 3 engine
settle_trade-others_example = settle_trade-others engine trade 100 3 (omega arith) (omega arith)

-- A market buy of 2 lots with a cap of 100 that fills at 90: the account pays 160, not 180.
abbrev cap_100 : Order
cap_100 = new_market 7 1 Symbol.eth Side.buy 2 100

abbrev clean : Account
clean = record buyer { usd_locked = 0 }

abbrev clean_locked : Account
clean_locked = record buyer { usd_available = 800; usd_locked = 200 }

market_buy_refunds_twice_example :
    ((market_buy cap_100 trade clean_locked).usd_locked ≡ 0)
    × ((market_buy cap_100 trade clean_locked).usd_available + 90 * 2 ≡ 1_000 + (100 - 90) * 2)
unfolding lock_usd add64 sub64
market_buy_refunds_twice_example =
    market_buy_refunds_twice cap_100 trade clean clean_locked refl refl refl (omega arith)
      (omega arith) (omega arith)
