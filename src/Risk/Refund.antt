-- ===== src/Risk/Refund.antt =====
-- A market order's round trip through the risk engine: reservation, settlement of one fill and the
-- refund of the remainder.
use ultra_low_latency_order.Prelude.{
  ℕ, ◌+◌, ◌-◌, ◌*◌, ◌≤◌, ◌<◌, ◌≡◌, false, arith, u64_mod, add64, sub64, sat_mul64, ◌==◌,
}
use native.Mathlib.Nat.{mul-le-mul_left, mul-le-mul_right, mul_comm, mul-sub}
use ultra_low_latency_order.Types.{Side, Order, Trade, ok}
use ultra_low_latency_order.Risk.{Account, lock_usd, settle_buyer_account, refund_account}
use ultra_low_latency_order.Risk.Totals.{usd_of}

-- The dollars of an account after it has bought `t` with the market order `o`.
pub market_buy : Order → Trade → Account → Account
market_buy o t a =
    refund_account Side.buy o.symbol_id o.price o.qty t.qty (sat_mul64 t.price t.qty)
      (settle_buyer_account t o.price a)

lock_usd-ok :
    (o : Order) (a b : Account)
    → lock_usd o a ≡ ok b
    → (o.price * o.qty < u64_mod)
      × (o.price * o.qty ≤ a.usd_available)
      × (b.usd_available ≡ sub64 a.usd_available (o.price * o.qty))
      × (b.usd_locked ≡ add64 a.usd_locked (o.price * o.qty))
unfolding lock_usd
lock_usd-ok o a b h = ground arith

-- The products of a partial fill at a better price.
partial_products :
    (p q n e : ℕ)
    → e ≤ n
    → q ≤ p
    → (q * e ≤ p * e) × (p * e ≤ p * n) × ((p - q) * e ≡ p * e - q * e)
partial_products p q n e h k =
    (mul-le-mul_right e k, mul-le-mul_left p h, omega (arith, mul_comm (p - q) e, mul-sub e p q))

-- A market buy for which the account had nothing else locked ends with nothing locked. The buyer
-- is charged the cost of the fill less the price improvement, `(cap - price) * qty`: settlement has
-- credited the improvement before the refund credits it again.
pub market_buy_refunds_twice :
    (o : Order) (t : Trade) (a b : Account)
    → a.usd_locked ≡ 0
    → lock_usd o a ≡ ok b
    → (t.buyer_id == t.maker_user_id) ≡ false
    → t.qty ≤ o.qty
    → t.price ≤ o.price
    → usd_of a + (o.price - t.price) * t.qty < u64_mod
    → ((market_buy o t b).usd_locked ≡ 0)
      × ((market_buy o t b).usd_available + t.price * t.qty
          ≡ a.usd_available + (o.price - t.price) * t.qty)
unfolding market_buy settle_buyer_account refund_account add64 sub64 sat_mul64
market_buy_refunds_twice o t a b none_locked locked taker filled better room =
    ground
      (arith, lock_usd-ok o a b locked, partial_products o.price t.price o.qty t.qty filled better)
