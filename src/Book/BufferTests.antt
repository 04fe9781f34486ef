-- ===== src/Book/BufferTests.antt =====
-- A sell that meets a resting buy, with an earlier trade in the vector.
use ultra_low_latency_order.Prelude.{◌≡◌, List, [], ◌∷◌, ◌++◌, Exec, done, panic, stalled}
use ultra_low_latency_order.Types.{Order, Symbol, Side, new_limit, Trade, Result}
use ultra_low_latency_order.Book.State.{OrderBook, ExecutionReport, new_book}
use ultra_low_latency_order.Book.Process.{process}
use ultra_low_latency_order.Book.Anonymous.{mapx}
use ultra_low_latency_order.Book.Buffer.{behind, process-behind}

abbrev left_by : Exec (Result ExecutionReport × OrderBook × List Trade) → OrderBook
left_by (done (_, b, _)) = b
left_by panic = new_book Symbol.eth
left_by stalled = new_book Symbol.eth

abbrev book : OrderBook
unfolding process new_book
book = left_by (process (new_book Symbol.eth) (new_limit 1 1 Symbol.eth Side.buy 100 2) 7 [])

abbrev sell : Order
sell = new_limit 2 2 Symbol.eth Side.sell 100 5

abbrev earlier : Trade
earlier = record {
  match_id = 1;
  maker_order_id = 3;
  taker_order_id = 4;
  maker_client_order_id = 3;
  taker_client_order_id = 4;
  maker_user_id = 1;
  taker_user_id = 2;
  maker_client_id = 7;
  taker_client_id = 8;
  buyer_id = 1;
  seller_id = 2;
  maker_side = 0;
  symbol_id = 2;
  price = 100;
  qty = 1;
}

process-behind_example :
    process book sell 8 (earlier ∷ [] ++ []) ≡ mapx (behind (earlier ∷ [])) (process book sell 8 [])
process-behind_example = process-behind (earlier ∷ []) book sell 8 []
