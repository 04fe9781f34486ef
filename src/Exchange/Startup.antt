-- ===== src/Exchange/Startup.antt =====
-- The WAL thread of src/bin/exchange.rs, and the start of its matching thread: the accounts that it
-- funds, and the replay of the log.
use ultra_low_latency_order.Prelude.{
  ℕ, ◌%◌, Bool, ◌||◌, Option, none, some, List, [], ◌∷◌, ◌==◌, if◌then◌else◌, add64, Exec, done,
  ◌>>=◌,
}
use ultra_low_latency_order.Types.{Order, Symbol, symbol_code}
use ultra_low_latency_order.Risk.{RiskEngine, new_risk_engine, deposit}
use ultra_low_latency_order.Engine.{MultiAssetEngine, new_engine, next_order_id, replay_order}
use ultra_low_latency_order.Wal.Record.{WalRecordHeader}
use ultra_low_latency_order.Wal.Log.{WalWriter, write_order, flush, Recovered, read_all}

-- The loop of the WAL thread over what it receives, each with the answer whether the channel is then
-- empty; it ends when the channel is closed.
unfoldable pub journal : WalWriter → ℕ → List ((Order × ℕ) × Bool) → WalWriter
journal wal count [] = flush wal
journal wal count (((order, timestamp_ns), idle) ∷ received) =
    let written = (write_order wal order timestamp_ns).1 in
    let counted = add64 count 1 in
    journal (if counted % 1_000 == 0 || idle then flush written else written) counted received

-- The dollars, and 1000 BTC, 10000 ETH and 100000 SOL, of a test user.
abbrev pub fund : RiskEngine → ℕ → RiskEngine
fund risk user_id =
    deposit
      (deposit (deposit risk user_id 100_000_000_00 (symbol_code Symbol.btc) 1_000) user_id 0
        (symbol_code Symbol.eth) 10_000)
      user_id 0 (symbol_code Symbol.sol) 100_000

abbrev pub funded : RiskEngine
funded = fund (fund new_risk_engine 1) 2

-- The loop over the records. What `replay_order` answers is ignored.
unfoldable pub replay_records :
    MultiAssetEngine
    → RiskEngine
    → List (WalRecordHeader × Order)
    → Exec (MultiAssetEngine × RiskEngine)
replay_records engine risk [] = done (engine, risk)
replay_records engine risk ((_, order) ∷ records) =
    replay_order engine risk order >>= λ (_, engine', risk'). replay_records engine' risk' records

-- After some records the next id is printed, which takes it.
unfoldable pub replay_found : Recovered → Exec (MultiAssetEngine × RiskEngine)
replay_found (Recovered.records []) = done (new_engine, funded)
replay_found (Recovered.records (r ∷ records)) =
    replay_records new_engine funded (r ∷ records) >>= λ (engine, risk).
    done ((next_order_id engine).1, risk)
replay_found (Recovered.refused _) = done (new_engine, funded)

-- The engines before the first message, by the bytes of the log, none if there is no log.
unfoldable pub start : Option (List ℕ) → Exec (MultiAssetEngine × RiskEngine)
start none = done (new_engine, funded)
start (some wal) = read_all wal >>= replay_found
