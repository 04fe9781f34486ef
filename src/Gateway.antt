-- ===== src/Gateway.antt =====
-- src/gateway.rs: what the reader of `handle_client` does with a frame. The frame is decoded by
-- `Order::from_le`, the identity on a little-endian target.
pub mod Words
pub mod Wire
pub mod Messages
pub mod Session
mod Tests
use ultra_low_latency_order.Prelude.{Option, none, some, ◌==◌, if◌then◌else◌}
use ultra_low_latency_order.Types.{Order, OrderType, is_type, type_or_limit, order_magic}

-- The client's id of an order is kept as its client order id, and the exchange's is reset.
unfoldable pub quarantine : Order → Order
quarantine o = record o {
  client_order_id = if o.client_order_id == 0 then o.id else o.client_order_id;
  id = 0;
}

-- The order that is passed on, or none where the connection is closed.
unfoldable pub admit : Order → Option Order
unfolding quarantine
admit o =
    if o.magic == order_magic
    then some (if is_type (type_or_limit o) OrderType.cancel then o else quarantine o)
    else none
