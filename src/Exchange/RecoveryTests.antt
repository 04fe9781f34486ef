-- ===== src/Exchange/RecoveryTests.antt =====
-- A log of two orders, synced behind the second, and a third that is cut off.
use ultra_low_latency_order.Prelude.{
  ℕ, ◌≡◌, Bool, true, false, some, List, [], ◌∷◌, ◌++◌, length, arith,
}
use ultra_low_latency_order.Types.{Order, new_limit, Symbol, Side}
use ultra_low_latency_order.Wal.Record.{IsWords}
use ultra_low_latency_order.Wal.Log.{fresh_writer}
use ultra_low_latency_order.Wal.Replay.{AllWords}
use ultra_low_latency_order.Exchange.Startup.{journal, start}
use ultra_low_latency_order.Exchange.Recovery.{received_of, restored, start-journal}

abbrev bid : Order
bid = new_limit 1 1 Symbol.btc Side.buy 10000 10

abbrev ask : Order
ask = new_limit 2 2 Symbol.btc Side.sell 10100 4

abbrev received : List ((Order × ℕ) × Bool)
received = ((bid, 17), false) ∷ ((ask, 19), true) ∷ []

received-AllWords : AllWords (received_of received)
unfolding AllWords received_of
received-AllWords =
    let bid_words : IsWords bid = record {
      id_fits = omega arith;
      price_fits = omega arith;
      qty_fits = omega arith;
      user_fits = omega arith;
      client_fits = omega arith;
      side_fits = omega arith;
      type_fits = omega arith;
      symbol_fits = omega arith;
      magic_fits = omega arith;
      padding_fits = omega arith;
    } in
    let ask_words : IsWords ask = record {
      id_fits = omega arith;
      price_fits = omega arith;
      qty_fits = omega arith;
      user_fits = omega arith;
      client_fits = omega arith;
      side_fits = omega arith;
      type_fits = omega arith;
      symbol_fits = omega arith;
      magic_fits = omega arith;
      padding_fits = omega arith;
    } in
    (bid_words, omega arith, (ask_words, omega arith, tt))

start-journal_example :
    start (some ((journal fresh_writer 0 received).file ++ (3 ∷ 0 ∷ 0 ∷ [])))
    ≡ restored (received_of received)
unfolding length
start-journal_example = start-journal received (3 ∷ 0 ∷ 0 ∷ []) received-AllWords (omega arith)
