-- ===== src/Wal/Tests.antt =====
-- A log of two orders, and a third that is cut off.
use ultra_low_latency_order.Prelude.{ℕ, ◌≡◌, ◌<◌, refl, List, [], ◌∷◌, ◌++◌, done, length, arith}
use ultra_low_latency_order.Types.{Order, new_limit, Symbol, Side}
use ultra_low_latency_order.Wal.Crc.{crc32}
use ultra_low_latency_order.Wal.Record.{IsWords}
use ultra_low_latency_order.Wal.Log.{flush, read_all, Recovered, fresh_writer, new_writer}
use ultra_low_latency_order.Wal.Replay.{entries, AllWords, write_orders, read_all-write_orders}
use ultra_low_latency_order.Wal.Resume.{new_writer-write_orders}

-- The check value of CRC-32, of the digits 1 to 9.
crc32_test : crc32 (49 ∷ 50 ∷ 51 ∷ 52 ∷ 53 ∷ 54 ∷ 55 ∷ 56 ∷ 57 ∷ []) ≡ 0xCBF43926
unfolding crc32
crc32_test = refl

abbrev bid : Order
bid = new_limit 1 1 Symbol.btc Side.buy 10000 10

abbrev ask : Order
ask = new_limit 2 2 Symbol.btc Side.sell 10100 4

bid-IsWords : IsWords bid
bid-IsWords = record {
  id_fits = omega arith;
  price_fits = omega arith;
  qty_fits = omega arith;
  user_fits = omega arith;
  client_fits = omega arith;
  side_fits = omega arith;
  type_fits = omega arith;
  symbol_fits = omega arith;
  magic_fits = omega arith;
  padding_fits = omega arith;
}

ask-IsWords : IsWords ask
ask-IsWords = record {
  id_fits = omega arith;
  price_fits = omega arith;
  qty_fits = omega arith;
  user_fits = omega arith;
  client_fits = omega arith;
  side_fits = omega arith;
  type_fits = omega arith;
  symbol_fits = omega arith;
  magic_fits = omega arith;
  padding_fits = omega arith;
}

abbrev sample : List (Order × ℕ)
sample = (bid, 17) ∷ (ask, 19) ∷ []

abbrev cut_off : List ℕ
cut_off = 3 ∷ 0 ∷ 0 ∷ []

sample-AllWords : AllWords sample
unfolding AllWords
sample-AllWords = (bid-IsWords, omega arith, (ask-IsWords, omega arith, tt))

cut_off_short : length cut_off < 72
unfolding length
cut_off_short = omega arith

read_all-write_orders_example :
    read_all ((flush (write_orders fresh_writer sample)).file ++ cut_off)
    ≡ done (Recovered.records (entries 1 sample))
read_all-write_orders_example = read_all-write_orders sample cut_off sample-AllWords cut_off_short

new_writer-write_orders_example :
    new_writer ((flush (write_orders fresh_writer sample)).file ++ cut_off)
    ≡ done (record {
      file = (flush (write_orders fresh_writer sample)).file ++ cut_off;
      buffer = [];
      seq_counter = (write_orders fresh_writer sample).seq_counter;
    })
new_writer-write_orders_example =
    new_writer-write_orders sample cut_off sample-AllWords cut_off_short
