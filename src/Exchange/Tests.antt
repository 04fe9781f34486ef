-- ===== src/Exchange/Tests.antt =====
-- Channels of two messages, with client 1 and client 2 connected: 2 is full at the second message.
use ultra_low_latency_order.Prelude.{
  ℕ, zero, suc, ◌≡◌, ◌⊎◌, refl, sym, ap, List, [], ◌∷◌, ◌++◌, Option, none, some, ◌==◌,
  if◌then◌else◌,
}
use ultra_low_latency_order.Types.Message.{ServerMessage, ack, bbo}
use ultra_low_latency_order.Gateway.Session.{ConnectionEvent}
use ultra_low_latency_order.Exchange.{OutboundEvent}
use ultra_low_latency_order.Exchange.Egress.{
  Delivery, EgressEvent, dispatch, deliver, on_outbound, on_connection, offer,
}
use ultra_low_latency_order.Exchange.Follow.{
  seen_by, seen_in, offers, follow, dispatch-follow, dispatch-contents,
}

-- What is in a channel, with the room that is left there.
abbrev Queue : Type 0
Queue = List ServerMessage × ℕ

try_send : Queue → ServerMessage → Delivery Queue
try_send (msgs, zero) msg = Delivery.full
try_send (msgs, suc room) msg = Delivery.sent (msgs ++ msg ∷ [], room)

try_send-queues :
    (tx tx' : Queue) (msg : ServerMessage)
    → try_send tx msg ≡ Delivery.sent tx'
    → tx'.0 ≡ tx.0 ++ msg ∷ []
unfolding try_send
try_send-queues (msgs, zero) tx' msg h = absurd cc
try_send-queues (msgs, suc room) tx' msg h = sym (ap state h)
  where
    state : Delivery Queue → List ServerMessage
    state (Delivery.sent q) = q.0
    state Delivery.full = []
    state Delivery.closed = []

abbrev connected : ℕ → Option Queue
connected i = if i == 1 then some ([], 2) else if i == 2 then some ([], 0) else none

abbrev first : ServerMessage
first = ack 9 9 1 0

abbrev second : ServerMessage
second = bbo 0 99 1 101 1

abbrev events : List EgressEvent
events =
    EgressEvent.outbound (OutboundEvent.client_ack 1 first)
    ∷ EgressEvent.connection (ConnectionEvent.disconnected 3)
    ∷ EgressEvent.outbound (OutboundEvent.bbo_broadcast second)
    ∷ []

dispatch-follow_example :
    dispatch ([], 2) try_send connected events 2
    ≡ follow ([], 2) try_send (connected 2) (seen_by 2 events)
dispatch-follow_example = dispatch-follow ([], 2) try_send connected events 2

slow_is_evicted : dispatch ([], 2) try_send connected events 2 ≡ none
unfolding dispatch deliver on_outbound offer try_send on_connection
slow_is_evicted = refl

dispatch-contents_example :
    (dispatch ([], 2) try_send connected events 1 ≡ none)
    ⊎ ((tx' : Queue) × (dispatch ([], 2) try_send connected events 1 ≡ some tx')
        × (tx'.0 ≡ [] ++ (first ∷ second ∷ [])))
unfolding seen_by seen_in offers
dispatch-contents_example =
    dispatch-contents ([], 2) try_send (λ q. q.0) try_send-queues connected events 1 ([], 2)
      (first ∷ second ∷ []) refl refl
