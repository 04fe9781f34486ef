-- ===== src/Gateway/Session.antt =====
-- `handle_client` and `run_gateway` (src/gateway.rs), given what the sockets deliver: the bytes that a
-- client sends until its connection ends, and the connections that are accepted. The channels take
-- what is sent.
use ultra_low_latency_order.Prelude.{
  ℕ, zero, suc, ◌≤◌, ◌<◌, ◌≡◌, refl, ap, List, [], ◌∷◌, ◌++◌, Option, none, some, length,
  length_append, add64, arith, ◌≢◌, subst, ◌==◌, inl, inr, Bool-cases, Option-cases, ==→ne, ==→eq,
}
use mathlib.Core.List.{append_assoc}
use ultra_low_latency_order.Types.{Order, get_order_type, order_magic}
use ultra_low_latency_order.Types.Message.{ServerMessage}
use ultra_low_latency_order.Wal.Bytes.{read_exact, read_exact_append, read_exact_short}
use ultra_low_latency_order.Wal.Record.{order_bytes, IsWords, length-order_bytes}
use ultra_low_latency_order.Gateway.{admit}
use ultra_low_latency_order.Gateway.Words.{Endian}
use ultra_low_latency_order.Gateway.Wire.{
  order_to_le, order_from_le, order_memory, order_from_memory, order_memory-order_to_le,
  order_from_le-order_bytes,
}
use ultra_low_latency_order.Gateway.Messages.{message_to_le, message_memory}

-- `InboundMessage`, without its instant.
pub record InboundMessage : Type 0 where
  pub order : Order
  pub client_id : ℕ

-- `ConnectionEvent`. The sender that `connected` carries is the channel of the client's id.
pub data ConnectionEvent : Type 0 where
  connected : ℕ → ConnectionEvent
  disconnected : ℕ → ConnectionEvent

-- The inbound reader loop: the orders that it passes on.
unfoldable pub read_orders : Endian → ℕ → List ℕ → List Order
read_orders e zero bs = []
read_orders e (suc fuel) bs = elim (read_exact 48 bs) [
  | none ↦ []
  | some (buffer, rest) ↦ elim (admit (order_from_le e (order_from_memory e buffer))) [
    | none ↦ []
    | some order ↦ order ∷ read_orders e fuel rest
  ]
]

-- The outbound writer task.
unfoldable pub write_messages : Endian → List ServerMessage → List ℕ
write_messages e [] = []
write_messages e (m ∷ ms) = message_memory e (message_to_le e m) ++ write_messages e ms

unfoldable pub inbound : ℕ → List Order → List InboundMessage
inbound client_id [] = []
inbound client_id (o ∷ os) = record { order = o; client_id = client_id } ∷ inbound client_id os

-- What a session of a client puts into the channel of orders and into that of connections.
unfoldable pub handle_client : Endian → ℕ → List ℕ → List InboundMessage × List ConnectionEvent
unfolding read_orders inbound length
handle_client e client_id bs = (
  inbound client_id (read_orders e (suc (length bs)) bs),
  ConnectionEvent.connected client_id ∷ ConnectionEvent.disconnected client_id ∷ [],
)

-- The accept loop of `run_gateway`: the ids of the accepted connections, none for a failed accept,
-- from the value of NEXT_CLIENT_ID on.
unfoldable pub accept_ids : ℕ → List (Option (List ℕ)) → List (ℕ × List ℕ)
accept_ids next [] = []
accept_ids next (none ∷ accepts) = accept_ids next accepts
accept_ids next (some bs ∷ accepts) = (next, bs) ∷ accept_ids (add64 next 1) accepts

-- The bytes that a client on a target sends for some orders.
unfoldable pub sent : Endian → List Order → List ℕ
sent c [] = []
sent c (o ∷ os) = order_memory c (order_to_le c o) ++ sent c os

-- What an order becomes at the ingress, by its type byte: a cancel stays as it is; another keeps the id that the client
-- gave it as its client order id, where it has none, and loses it.
pub data IsIngress (o p : Order) : Type 0 where
  as_is : o.order_type ≡ 2 → p ≡ o → IsIngress o p
  renamed :
      o.order_type ≢ 2
      → o.client_order_id ≡ 0
      → p ≡ record o { client_order_id = o.id; id = 0 }
      → IsIngress o p
  unnamed : o.order_type ≢ 2 → o.client_order_id ≢ 0 → p ≡ record o { id = 0 } → IsIngress o p

-- Of the orders of a client exactly those before the first without the magic are passed on, each as it
-- becomes at the ingress.
unfoldable pub ArePassed : List Order → List Order → Type 0
ArePassed [] ps = ps ≡ []
ArePassed (o ∷ os) [] = o.magic ≢ order_magic
ArePassed (o ∷ os) (p ∷ ps) = (o.magic ≡ order_magic) × IsIngress o p × ArePassed os ps

unfoldable pub AllWords : List Order → Type 0
AllWords [] = Unit
AllWords (o ∷ os) = IsWords o × AllWords os

length-sent : (c : Endian) (os : List Order) → length os ≤ length (sent c os)
unfolding length sent
length-sent c [] = omega arith
length-sent c (o ∷ os) = omega (
  arith,
  length_append (order_memory c (order_to_le c o)) (sent c os),
  ap (λ (bs : List ℕ). length bs) (order_memory-order_to_le c o),
  length-order_bytes o,
  length-sent c os,
)

-- The reader's outcome for the orders that it decodes.
abbrev passed : List Order → List Order
passed [] = []
passed (o ∷ os) = elim (admit o) [ none ↦ [] | some order ↦ order ∷ passed os ]

admit-IsIngress : (o p : Order) → admit o ≡ some p → (o.magic ≡ order_magic) × IsIngress o p
unfolding admit get_order_type
admit-IsIngress o p h = elim (Bool-cases (o.magic == order_magic)) [
  | inl ours ↦ (
    ==→eq _ _ ours,
    elim (Bool-cases (o.order_type == 2)) [
      | inl cancel ↦ as_is (==→eq _ _ cancel) (ground arith)
      | inr other ↦ elim (Bool-cases (o.client_order_id == 0)) [
        | inl bare ↦ renamed (==→ne _ _ other) (==→eq _ _ bare) (ground arith)
        | inr named ↦ unnamed (==→ne _ _ other) (==→ne _ _ named) (ground arith)
      ]
    ],
  )
  | inr foreign ↦ absurd (ground arith)
]

admit-refused : (o : Order) → admit o ≡ none → o.magic ≢ order_magic
unfolding admit
admit-refused o h = ground arith

passed-ArePassed : (os : List Order) → ArePassed os (passed os)
unfolding ArePassed
passed-ArePassed [] = refl
passed-ArePassed (o ∷ os) = elim (Option-cases (admit o)) [
  | inl refused ↦
      subst (ArePassed (o ∷ os)) {x = []} (rw (passed, refused) refl) (admit-refused o refused)
  | inr (p, h) ↦
      let (ours, ingress) = admit-IsIngress o p h in
      subst (ArePassed (o ∷ os)) {x = p ∷ passed os} (rw (passed, h) refl)
        (ours, ingress, passed-ArePassed os)
]

read_orders-fuel :
    (c e : Endian) (fuel : ℕ) (os : List Order) (tail : List ℕ)
    → AllWords os
    → length tail < 48
    → length os < fuel
    → read_orders e fuel (sent c os ++ tail) ≡ passed os
unfolding read_orders sent AllWords length
read_orders-fuel c e zero os tail w torn enough = absurd (omega arith)
read_orders-fuel c e (suc fuel) [] tail w torn enough =
    rw (read_orders, read_exact_short 48 tail torn) refl
read_orders-fuel c e (suc fuel) (o ∷ os) tail (h, w) torn enough =
    rw
      (
        order_memory-order_to_le c o,
        append_assoc (order_bytes o) (sent c os) tail,
        read_orders,
        read_exact_append 48 (order_bytes o) (sent c os ++ tail) (length-order_bytes o),
        order_from_le-order_bytes e o h,
      )
      (ap (λ (rest : List Order). elim (admit o) [ none ↦ [] | some order ↦ order ∷ rest ])
        (read_orders-fuel c e fuel os tail w torn (omega arith)))

-- A client on a target of either byte order sends orders whose fields are words of their widths, in
-- their wire form, and then at most a part of one. On a target of either byte order the session
-- passes on the orders before the first with another magic, with the client's id: a cancel as it is,
-- another without its id, which becomes its client order id where it has none.
pub handle_client-admitted :
    (c e : Endian) (client_id : ℕ) (os : List Order) (tail : List ℕ)
    → AllWords os
    → length tail < 48
    → (ps : List Order) × (handle_client e client_id (sent c os ++ tail) ≡ (
      inbound client_id ps,
      ConnectionEvent.connected client_id ∷ ConnectionEvent.disconnected client_id ∷ [],
    ))
      × ArePassed os ps
unfolding handle_client
handle_client-admitted c e client_id os tail words torn =
    let enough : length os < suc (length (sent c os ++ tail)) =
      omega (arith, length-sent c os, length_append (sent c os) tail) in
    (passed os, rw (read_orders-fuel c e _ os tail words torn enough) refl, passed-ArePassed os)
