-- ===== src/Exchange/ReplayTests.antt =====
-- A buy of 2 ETH at 100, by a user with 1000 dollars, that rests in an empty book.
use ultra_low_latency_order.Prelude.{
  ◌≡◌, refl, false, List, [], ◌∷◌, map, Exec, done, panic, stalled, arith, read, write, find, add64,
  sub64, wrapping_mul64,
}
use ultra_low_latency_order.Types.{
  Order, Symbol, Side, new_limit, get_order_type, Trade, Result, ok,
}
use ultra_low_latency_order.Table
use ultra_low_latency_order.Index.Prices
use ultra_low_latency_order.Index.Orders
use ultra_low_latency_order.Index.Clients
use ultra_low_latency_order.Book.Ladder.{link_front}
use ultra_low_latency_order.Book.State.{ExecutionReport, new_book}
use ultra_low_latency_order.Book.View.{get_bbo}
use ultra_low_latency_order.Book.Process as Books
use ultra_low_latency_order.Book.Anonymous.{mapx}
use ultra_low_latency_order.Book.Anonymous.Match.{bare_trade}
use ultra_low_latency_order.Book.Anonymous.Cancels.{bare_book}
use ultra_low_latency_order.Book.Anonymous.Trades.{bare_outcome, process-bare}
use ultra_low_latency_order.Risk.{Account, RiskEngine, lock_order_funds}
use ultra_low_latency_order.Engine.{
  MultiAssetEngine, new_engine, process, replay_order, get_book, settle_report, stamp,
}
use ultra_low_latency_order.Engine.Anonymous.{bare_engine}
use ultra_low_latency_order.Exchange.{Turn, turn, order_turn, match_turn, assign_id, bbo_events}
use ultra_low_latency_order.Exchange.Rejection.{stamped, counted}
use ultra_low_latency_order.Exchange.Replay.{IsAccepted, replay_order-turn}

abbrev buyer : Account
buyer = record {
  user_id = 1;
  usd_available = 1_000;
  usd_locked = 0;
  asset_available = λ _. 0;
  asset_locked = λ _. 0;
}

abbrev risk : RiskEngine
risk = record { accounts = (1, buyer) ∷ [] }

abbrev buy : Order
buy = record (new_limit 0 1 Symbol.eth Side.buy 100 2) { client_order_id = 5 }

abbrev engine : MultiAssetEngine
unfolding new_engine
engine = new_engine

abbrev left_by : Exec (Result ExecutionReport × MultiAssetEngine × List Trade) → MultiAssetEngine
left_by (done (_, e, _)) = e
left_by panic = engine
left_by stalled = engine

abbrev after : MultiAssetEngine
unfolding process assign_id
after = left_by (process (counted engine buy) (stamped engine buy) 3 [])

abbrev no_turn : Turn
no_turn = record { engine = engine; risk = risk; journal = []; out = [] }

abbrev turn_of : Exec Turn → Turn
turn_of (done t) = t
turn_of panic = no_turn
turn_of stalled = no_turn

abbrev ended : Turn
unfolding turn
ended = turn_of (turn engine risk 3 buy 50)

buy-IsAccepted : IsAccepted engine risk 3 buy
unfolding process after assign_id engine new_engine lock_order_funds get_order_type find read write
    add64 sub64 wrapping_mul64 Table.lookup Table.insert Table.remove Prices.hash Orders.hash
    Clients.hash link_front stamp Books.process
buy-IsAccepted =
    IsAccepted.matched (record { executed_qty = 0; remaining_qty = 2; stp_triggered = false }) after
      [] refl refl refl refl

ended-done : turn engine risk 3 buy 50 ≡ done ended
unfolding ended turn order_turn match_turn bbo_events get_book get_bbo settle_report process after
    assign_id engine new_engine lock_order_funds get_order_type find read write add64 sub64
    wrapping_mul64 Table.lookup Table.insert Table.remove Prices.hash Orders.hash Clients.hash
    link_front stamp Books.process
ended-done = refl

replay_order-turn_example :
    (journaled : Order) × (ended.journal ≡ (journaled, 50) ∷ [])
    × (replay_order (bare_engine engine) risk journaled
        ≡ done (ok tt, bare_engine ended.engine, ended.risk))
unfolding engine new_engine
replay_order-turn_example =
    replay_order-turn engine risk 3 buy 50 ended (omega arith) (omega arith) buy-IsAccepted
      ended-done

process-bare_example :
    Books.process (bare_book (new_book Symbol.eth)) buy 0 (map bare_trade [])
    ≡ mapx bare_outcome (Books.process (new_book Symbol.eth) buy 7 [])
process-bare_example = process-bare (new_book Symbol.eth) buy 7 []
