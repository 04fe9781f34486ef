-- ===== src/Book/Cancel/Tests.antt =====
-- A cancel on a book without orders.
use ultra_low_latency_order.Prelude.{◌≡◌, ◌≢◌, ◌⊎◌, done}
use ultra_low_latency_order.Types.{Symbol, RejectReason, err}
use ultra_low_latency_order.Index.Orders as OrderIndex
use ultra_low_latency_order.Index.Orders.{FastIndexEntry}
use ultra_low_latency_order.Index.Clients
use ultra_low_latency_order.Table.Invariant.{new_table-IsValid}
use ultra_low_latency_order.Book.State.{OrderBook, new_book}
use ultra_low_latency_order.Book.Cancel.{cancel_order, cancel_entry}
use ultra_low_latency_order.Book.Cancel.Refusal.{IsUnknown, IsTarget, cancel_order-IsTarget}

abbrev book : OrderBook
unfolding new_book
book = new_book Symbol.btc

cancel_order-IsTarget_example :
    ((cancel_order book 4 3 ≡ done (err RejectReason.order_not_found, book)) × IsUnknown book 4 3)
    ⊎ (((entry : FastIndexEntry) × IsTarget book 4 3 entry
          × (entry.user_id ≢ 4)
          × (cancel_order book 4 3 ≡ done (err RejectReason.unauthorized, book)))
        ⊎ ((entry : FastIndexEntry) × IsTarget book 4 3 entry
            × (entry.user_id ≡ 4)
            × (cancel_order book 4 3 ≡ cancel_entry book entry)))
unfolding book
cancel_order-IsTarget_example =
    cancel_order-IsTarget book 4 3 (new_table-IsValid OrderIndex.layout OrderIndex.layout-IsLayout)
      (new_table-IsValid Clients.layout Clients.layout-IsLayout)
