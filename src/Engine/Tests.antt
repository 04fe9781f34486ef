-- ===== src/Engine/Tests.antt =====
-- A run of the engine: two resting buys at one price are matched by a sell in their order.
use ultra_low_latency_order.Prelude.{
  ℕ, ◌≡◌, refl, List, [], ◌∷◌, Exec, done, ◌>>=◌, Option, none, some, read, write, add64, sub64,
  wrapping_mul64,
}
use ultra_low_latency_order.Types.{get_order_type, new_limit, Symbol, Side, Trade}
use ultra_low_latency_order.Table
use ultra_low_latency_order.Index.Prices
use ultra_low_latency_order.Index.Orders
use ultra_low_latency_order.Index.Clients
use ultra_low_latency_order.Book.Ladder.{link_front}
use ultra_low_latency_order.Book.View.{get_bbo}
use ultra_low_latency_order.Engine.{new_engine, process, stamp}
use ultra_low_latency_order.Book.Process as Books

-- The maker, the quantity and the price of each trade.
abbrev fills : List Trade → List (ℕ × ℕ × ℕ)
fills [] = []
fills (t ∷ ts) = (t.maker_order_id, t.qty, t.price) ∷ fills ts

abbrev run : Exec (List (ℕ × ℕ × ℕ) × Option (ℕ × ℕ) × Option (ℕ × ℕ))
unfolding process get_bbo
run = process new_engine (new_limit 1 1 Symbol.btc Side.buy 10000 10) 1 [] >>= λ (_, e, ts).
    process e (new_limit 2 2 Symbol.btc Side.buy 10000 5) 2 ts >>= λ (_, e, ts).
    process e (new_limit 3 3 Symbol.btc Side.sell 10000 12) 2 ts >>= λ (_, e, ts).
    get_bbo (e.books 0) >>= λ (b, a). done (fills ts, b, a)

run_test : run ≡ done ((1, 10, 10000) ∷ (2, 2, 10000) ∷ [], some (10000, 3), none)
unfolding process Books.process stamp get_bbo get_order_type new_engine read write add64 sub64
    wrapping_mul64 Table.lookup Table.insert Table.remove Prices.hash Orders.hash Clients.hash
    link_front
run_test = refl
