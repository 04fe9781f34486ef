-- ===== src/Exchange/RejectionTests.antt =====
-- A buy of 2 ETH at 100 by a user with 1000 dollars, on an engine whose books are empty and have no free
-- order node.
use ultra_low_latency_order.Prelude.{◌≡◌, refl, [], ◌∷◌, done, arith, find, total}
use ultra_low_latency_order.Types.{Order, Symbol, Side, new_limit, get_order_type, RejectReason}
use ultra_low_latency_order.Types.Message.{ack}
use ultra_low_latency_order.Arena.Nodes.{null_idx}
use ultra_low_latency_order.Arena.Orders.{new_order_arena}
use ultra_low_latency_order.Book.State.{OrderBook, new_book}
use ultra_low_latency_order.Risk.{Account, RiskEngine, lock_order_funds}
use ultra_low_latency_order.Risk.Totals.{Fits, usd_total, asset_total}
use ultra_low_latency_order.Engine.{MultiAssetEngine}
use ultra_low_latency_order.Exchange.{OutboundEvent, symbol_byte, rejection, turn}
use ultra_low_latency_order.Exchange.Rejection.{turn-full, stamped}
use ultra_low_latency_order.Book.Full.{IsApart}
use ultra_low_latency_order.Engine.Full.{SameBooks}

abbrev buyer : Account
buyer = record {
  user_id = 1;
  usd_available = 1_000;
  usd_locked = 0;
  asset_available = λ _. 0;
  asset_locked = λ _. 0;
}

abbrev risk : RiskEngine
risk = record { accounts = (1, buyer) ∷ [] }

risk-Fits : Fits risk
unfolding usd_total asset_total total
risk-Fits = record { usd_fits = omega arith; asset_fits = λ s. omega arith }

abbrev full_book : OrderBook
unfolding new_book
full_book = record (new_book Symbol.eth) {
  order_arena = record (new_order_arena 0) { free_head = null_idx };
}

abbrev engine : MultiAssetEngine
engine = record { books = λ _. full_book; global_order_id_counter = 7 }

abbrev buy : Order
buy = record (new_limit 0 1 Symbol.eth Side.buy 100 2) { client_order_id = 5 }

turn-full_example :
    (e' : MultiAssetEngine) × (turn engine risk 3 buy 50
      ≡ done (record {
        engine = e';
        risk = risk;
        journal = (stamped engine buy, 50) ∷ [];
        out =
            OutboundEvent.client_ack 3 (
              ack
                (stamped engine buy).id
                (stamped engine buy).client_order_id
                (stamped engine buy).user_id
                (symbol_byte (stamped engine buy).symbol_id))
            ∷ rejection 3 (stamped engine buy) RejectReason.engine_full
            ∷ [];
      }))
    × SameBooks engine e'
unfolding full_book get_order_type lock_order_funds find
turn-full_example =
    turn-full engine risk 3 buy 50 risk-Fits (omega arith) refl refl (IsApart.no_level refl) refl
