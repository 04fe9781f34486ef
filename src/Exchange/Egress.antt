-- ===== src/Exchange/Egress.antt =====
-- The egress dispatcher of src/bin/exchange.rs: its `select!` loop over the events of connections and
-- of the matching thread, in whatever order they come. A channel is a parameter: its state, that of a
-- new one, and what `try_send` makes of it. `client_senders` is a function of the client's id.
use ultra_low_latency_order.Prelude.{ℕ, List, [], ◌∷◌, Option, none, some, update}
use ultra_low_latency_order.Types.Message.{ServerMessage}
use ultra_low_latency_order.Exchange.{OutboundEvent}
use ultra_low_latency_order.Gateway.Session.{ConnectionEvent}

-- The results of `try_send`.
pub data Delivery (S : Type 0) : Type 0 where
  sent : S → Delivery S
  full : Delivery S
  closed : Delivery S

-- What the two branches of `select!` receive.
pub data EgressEvent : Type 0 where
  connection : ConnectionEvent → EgressEvent
  outbound : OutboundEvent → EgressEvent

module _ {S : Type 0} (new_channel : S) (try_send : S → ServerMessage → Delivery S) where
  -- One client's channel when a message is sent to it, none if the client is gone or is evicted.
  unfoldable pub offer : Option S → ServerMessage → Option S
  offer none msg = none
  offer (some tx) msg = elim (try_send tx msg) [ sent tx' ↦ some tx' | full ↦ none | closed ↦ none ]

  unfoldable pub deliver : (ℕ → Option S) → ℕ → ServerMessage → ℕ → Option S
  deliver client_senders client_id msg =
      update client_senders client_id (offer (client_senders client_id) msg)

  unfoldable pub on_connection : (ℕ → Option S) → ConnectionEvent → ℕ → Option S
  on_connection client_senders (ConnectionEvent.connected client_id) =
      update client_senders client_id (some new_channel)
  on_connection client_senders (ConnectionEvent.disconnected client_id) =
      update client_senders client_id none

  unfoldable pub on_outbound : (ℕ → Option S) → OutboundEvent → ℕ → Option S
  on_outbound client_senders (OutboundEvent.client_ack client_id msg) =
      deliver client_senders client_id msg
  on_outbound client_senders (OutboundEvent.client_reject client_id msg) =
      deliver client_senders client_id msg
  on_outbound client_senders (OutboundEvent.client_cancel_ok client_id msg) =
      deliver client_senders client_id msg
  on_outbound client_senders
        (OutboundEvent.trade_fill taker_client_id maker_client_id taker_msg maker_msg) =
      deliver (deliver client_senders taker_client_id taker_msg) maker_client_id maker_msg
  on_outbound client_senders (OutboundEvent.bbo_broadcast msg) =
      λ client_id. offer (client_senders client_id) msg

  unfoldable pub dispatch : (ℕ → Option S) → List EgressEvent → ℕ → Option S
  dispatch client_senders [] = client_senders
  dispatch client_senders (EgressEvent.connection event ∷ events) =
      dispatch (on_connection client_senders event) events
  dispatch client_senders (EgressEvent.outbound event ∷ events) =
      dispatch (on_outbound client_senders event) events
