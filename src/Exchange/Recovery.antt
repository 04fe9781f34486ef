-- ===== src/Exchange/Recovery.antt =====
-- What the WAL thread journals is what the next start replays.
use mathlib.Core.List.{append_assoc}
use ultra_low_latency_order.Prelude.{
  ℕ, ◌%◌, ◌<◌, ◌≡◌, refl, ◌∙◌, ap, Bool, ◌||◌, some, List, [], ◌∷◌, ◌++◌, Bool-cases, inl, inr,
  ◌==◌, add64, length, Exec, done, ◌>>=◌, fun_ext,
}
use ultra_low_latency_order.Types.{Order}
use ultra_low_latency_order.Risk.{RiskEngine}
use ultra_low_latency_order.Engine.{MultiAssetEngine, new_engine, next_order_id, replay_order}
use ultra_low_latency_order.Wal.Log.{WalWriter, fresh_writer, write_order, flush, Recovered}
use ultra_low_latency_order.Wal.Replay.{
  entries, encode, AllWords, write_orders, write_orders-buffer, read_all-write_orders,
}
use ultra_low_latency_order.Exchange.Startup.{journal, funded, replay_records, replay_found, start}

-- The orders with their timestamps, and the orders.
unfoldable pub received_of : List ((Order × ℕ) × Bool) → List (Order × ℕ)
received_of [] = []
received_of ((r, _) ∷ received) = r ∷ received_of received

unfoldable pub replay_orders :
    MultiAssetEngine → RiskEngine → List (Order × ℕ) → Exec (MultiAssetEngine × RiskEngine)
replay_orders engine risk [] = done (engine, risk)
replay_orders engine risk ((order, _) ∷ orders) =
    replay_order engine risk order >>= λ (_, engine', risk'). replay_orders engine' risk' orders

-- The reference: a new engine and the funded accounts, after all orders in their order. The start prints
-- the next id if there were any, and by that uses it up.
unfoldable pub restored : List (Order × ℕ) → Exec (MultiAssetEngine × RiskEngine)
restored [] = done (new_engine, funded)
restored (r ∷ orders) = replay_orders new_engine funded (r ∷ orders) >>= λ (engine, risk).
    done (record engine { global_order_id_counter = add64 engine.global_order_id_counter 1 }, risk)

-- It makes no difference to the file when it is flushed.
flush-early :
    (w : WalWriter) (rs : List (Order × ℕ))
    → (flush (write_orders (flush w) rs)).file ≡ (flush (write_orders w rs)).file
unfolding flush
flush-early w rs =
    let (f, b) = write_orders-buffer w rs in
    let (f', b') = write_orders-buffer (flush w) rs in
    rw (f, b, f', b') (append_assoc w.file w.buffer (encode (entries w.seq_counter rs)))

journal-write_orders :
    (w : WalWriter) (count : ℕ) (received : List ((Order × ℕ) × Bool))
    → (journal w count received).file ≡ (flush (write_orders w (received_of received))).file
unfolding journal received_of write_orders
journal-write_orders w count [] = refl
journal-write_orders w count (((o, ts), idle) ∷ received) =
    let written = (write_order w o ts).1 in
    elim (Bool-cases (add64 count 1 % 1_000 == 0 || idle)) [
      | inl e ↦
          rw (journal, e)
            (journal-write_orders (flush written) (add64 count 1) received
              ∙ flush-early written (received_of received))
      | inr e ↦ rw (journal, e) (journal-write_orders written (add64 count 1) received)
    ]

replay_records-entries :
    (engine : MultiAssetEngine) (risk : RiskEngine) (k : ℕ) (rs : List (Order × ℕ))
    → replay_records engine risk (entries k rs) ≡ replay_orders engine risk rs
unfolding replay_records replay_orders entries
replay_records-entries engine risk k [] = refl
replay_records-entries engine risk k ((o, ts) ∷ rs) =
    ap
      (λ (rest : MultiAssetEngine → RiskEngine → Exec (MultiAssetEngine × RiskEngine)).
        replay_order engine risk o >>= λ (_, engine', risk'). rest engine' risk')
      (fun_ext λ e. fun_ext λ r. replay_records-entries e r (add64 k 1) rs)

replay_found-entries :
    (rs : List (Order × ℕ)) → replay_found (Recovered.records (entries 1 rs)) ≡ restored rs
unfolding replay_found restored entries next_order_id
replay_found-entries [] = refl
replay_found-entries (r ∷ rs) =
    ap
      (λ (run : Exec (MultiAssetEngine × RiskEngine)).
        run >>= λ (engine, risk). done ((next_order_id engine).1, risk))
      (replay_records-entries new_engine funded 1 (r ∷ rs))

-- Let the orders that the WAL thread receives into a new log be words, with their timestamps, and let
-- `tail` be shorter than a record, as a crash in the middle of a write leaves it. The next start of the
-- matching thread returns what replaying exactly these orders, in their order, on the new engine and the
-- funded accounts returns, however the thread has synced; but where there is an order, the id counter
-- of the engine is one further than that replay leaves it.
pub start-journal :
    (received : List ((Order × ℕ) × Bool)) (tail : List ℕ)
    → AllWords (received_of received)
    → length tail < 72
    → start (some ((journal fresh_writer 0 received).file ++ tail))
      ≡ restored (received_of received)
unfolding start
start-journal received tail words torn =
    rw
      (
        journal-write_orders fresh_writer 0 received,
        read_all-write_orders (received_of received) tail words torn,
      )
      (replay_found-entries (received_of received))
