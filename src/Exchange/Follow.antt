-- ===== src/Exchange/Follow.antt =====
-- The egress dispatcher keeps every client's channel as if the client were alone, and in order.
use ultra_low_latency_order.Prelude.{
  ℕ, ◌≡◌, ◌⊎◌, inl, inr, refl, sym, ◌∙◌, ap, List, [], ◌∷◌, ◌++◌, Option, none, some, ◌==◌,
  if◌then◌else◌, Bool-cases, ==→eq,
}
use mathlib.Core.List.{append_assoc, append-nil}
use ultra_low_latency_order.Types.Message.{ServerMessage}
use ultra_low_latency_order.Exchange.{OutboundEvent}
use ultra_low_latency_order.Gateway.Session.{ConnectionEvent}
use ultra_low_latency_order.Exchange.Egress.{
  Delivery, EgressEvent, offer, deliver, on_connection, on_outbound, dispatch,
}

-- What one client sees of the events.
pub data ClientEvent : Type 0 where
  joined : ClientEvent
  left : ClientEvent
  offered : ServerMessage → ClientEvent

abbrev pub when_own : ℕ → ℕ → ClientEvent → List ClientEvent
when_own c client_id event = if client_id == c then event ∷ [] else []

unfoldable pub seen_in : ℕ → EgressEvent → List ClientEvent
seen_in c (EgressEvent.connection (ConnectionEvent.connected i)) = when_own c i ClientEvent.joined
seen_in c (EgressEvent.connection (ConnectionEvent.disconnected i)) = when_own c i ClientEvent.left
seen_in c (EgressEvent.outbound (OutboundEvent.client_ack i msg)) =
    when_own c i (ClientEvent.offered msg)
seen_in c (EgressEvent.outbound (OutboundEvent.client_reject i msg)) =
    when_own c i (ClientEvent.offered msg)
seen_in c (EgressEvent.outbound (OutboundEvent.client_cancel_ok i msg)) =
    when_own c i (ClientEvent.offered msg)
seen_in c (EgressEvent.outbound (OutboundEvent.trade_fill i j taker maker)) =
    when_own c i (ClientEvent.offered taker) ++ when_own c j (ClientEvent.offered maker)
seen_in c (EgressEvent.outbound (OutboundEvent.bbo_broadcast msg)) = ClientEvent.offered msg ∷ []

unfoldable pub seen_by : ℕ → List EgressEvent → List ClientEvent
unfolding seen_in
seen_by c [] = []
seen_by c (event ∷ events) = seen_in c event ++ seen_by c events

unfoldable pub offers : List ServerMessage → List ClientEvent
offers [] = []
offers (msg ∷ msgs) = ClientEvent.offered msg ∷ offers msgs

module _ {S : Type 0} (new_channel : S) (try_send : S → ServerMessage → Delivery S) where
  -- The reference: one client's channel by itself.
  unfoldable pub follow : Option S → List ClientEvent → Option S
  unfolding offer
  follow tx [] = tx
  follow tx (ClientEvent.joined ∷ events) = follow (some new_channel) events
  follow tx (ClientEvent.left ∷ events) = follow none events
  follow tx (ClientEvent.offered msg ∷ events) = follow (offer new_channel try_send tx msg) events

  follow_append :
      (tx : Option S) (xs ys : List ClientEvent) → follow tx (xs ++ ys) ≡ follow (follow tx xs) ys
  unfolding follow
  follow_append tx [] ys = refl
  follow_append tx (ClientEvent.joined ∷ xs) ys = follow_append (some new_channel) xs ys
  follow_append tx (ClientEvent.left ∷ xs) ys = follow_append none xs ys
  follow_append tx (ClientEvent.offered msg ∷ xs) ys =
      follow_append (offer new_channel try_send tx msg) xs ys

  deliver-follow :
      (ss : ℕ → Option S) (i c : ℕ) (msg : ServerMessage)
      → deliver new_channel try_send ss i msg c
        ≡ follow (ss c) (when_own c i (ClientEvent.offered msg))
  unfolding deliver follow
  deliver-follow ss i c msg = elim (Bool-cases (i == c)) [
    | inl e ↦ let same : i ≡ c = ==→eq i c e in rw (e, same) refl
    | inr e ↦ rw e refl
  ]

  on_connection-follow :
      (ss : ℕ → Option S) (c : ℕ) (event : ConnectionEvent)
      → on_connection new_channel try_send ss event c
        ≡ follow (ss c) (seen_in c (EgressEvent.connection event))
  unfolding on_connection follow seen_in
  on_connection-follow ss c (ConnectionEvent.connected i) = elim (Bool-cases (i == c)) [
    | inl e ↦ rw e refl
    | inr e ↦ rw e refl
  ]
  on_connection-follow ss c (ConnectionEvent.disconnected i) = elim (Bool-cases (i == c)) [
    | inl e ↦ rw e refl
    | inr e ↦ rw e refl
  ]

  on_outbound-follow :
      (ss : ℕ → Option S) (c : ℕ) (event : OutboundEvent)
      → on_outbound new_channel try_send ss event c
        ≡ follow (ss c) (seen_in c (EgressEvent.outbound event))
  unfolding on_outbound follow seen_in
  on_outbound-follow ss c (OutboundEvent.client_ack i msg) = deliver-follow ss i c msg
  on_outbound-follow ss c (OutboundEvent.client_reject i msg) = deliver-follow ss i c msg
  on_outbound-follow ss c (OutboundEvent.client_cancel_ok i msg) = deliver-follow ss i c msg
  on_outbound-follow ss c (OutboundEvent.trade_fill i j taker maker) =
      deliver-follow (deliver new_channel try_send ss i taker) j c maker
      ∙ ap (λ tx. follow tx (when_own c j (ClientEvent.offered maker)))
          (deliver-follow ss i c taker)
      ∙ sym (
          follow_append (ss c) (when_own c i (ClientEvent.offered taker))
            (when_own c j (ClientEvent.offered maker)))
  on_outbound-follow ss c (OutboundEvent.bbo_broadcast msg) = refl

  -- The dispatcher keeps the channel of every client as the reference keeps that client's alone, by
  -- the events that it sees: what becomes of the other clients, a full or closed channel included,
  -- makes no difference to it.
  pub dispatch-follow :
      (ss : ℕ → Option S) (events : List EgressEvent) (c : ℕ)
      → dispatch new_channel try_send ss events c ≡ follow (ss c) (seen_by c events)
  unfolding dispatch seen_by follow
  dispatch-follow ss [] c = refl
  dispatch-follow ss (EgressEvent.connection event ∷ events) c =
      dispatch-follow (on_connection new_channel try_send ss event) events c
      ∙ ap (λ tx. follow tx (seen_by c events)) (on_connection-follow ss c event)
      ∙ sym (follow_append (ss c) (seen_in c (EgressEvent.connection event)) (seen_by c events))
  dispatch-follow ss (EgressEvent.outbound event ∷ events) c =
      dispatch-follow (on_outbound new_channel try_send ss event) events c
      ∙ ap (λ tx. follow tx (seen_by c events)) (on_outbound-follow ss c event)
      ∙ sym (follow_append (ss c) (seen_in c (EgressEvent.outbound event)) (seen_by c events))

  follow-none : (msgs : List ServerMessage) → follow none (offers msgs) ≡ none
  unfolding follow offers offer
  follow-none [] = refl
  follow-none (msg ∷ msgs) = follow-none msgs

  module _ (contents : S → List ServerMessage)
      (queues : (tx tx' : S) (msg : ServerMessage)
        → try_send tx msg ≡ Delivery.sent tx'
        → contents tx' ≡ contents tx ++ msg ∷ []) where
    offer-cases :
        (tx : S) (msg : ServerMessage)
        → (offer new_channel try_send (some tx) msg ≡ none)
          ⊎ ((tx' : S) × (offer new_channel try_send (some tx) msg ≡ some tx')
              × (contents tx' ≡ contents tx ++ msg ∷ []))
    unfolding offer
    offer-cases tx msg = go (try_send tx msg) refl
      where
        go :
            (d : Delivery S)
            → try_send tx msg ≡ d
            → (offer new_channel try_send (some tx) msg ≡ none)
              ⊎ ((tx' : S) × (offer new_channel try_send (some tx) msg ≡ some tx')
                  × (contents tx' ≡ contents tx ++ msg ∷ []))
        go (Delivery.sent tx') e = inr (tx', rw (offer, e) refl, queues tx tx' msg e)
        go Delivery.full e = inl (rw (offer, e) refl)
        go Delivery.closed e = inl (rw (offer, e) refl)

    follow-contents :
        (tx : S) (msgs : List ServerMessage)
        → (follow (some tx) (offers msgs) ≡ none)
          ⊎ ((tx' : S) × (follow (some tx) (offers msgs) ≡ some tx')
              × (contents tx' ≡ contents tx ++ msgs))
    unfolding follow offers
    follow-contents tx [] = inr (tx, refl, sym (append-nil (contents tx)))
    follow-contents tx (msg ∷ msgs) = elim (offer-cases tx msg) [
      | inl e ↦ inl (ap (λ t. follow t (offers msgs)) e ∙ follow-none msgs)
      | inr (tx', e, more) ↦ elim (follow-contents tx' msgs) [
        | inl f ↦ inl (ap (λ t. follow t (offers msgs)) e ∙ f)
        | inr (last, f, all) ↦ inr (
          last,
          ap (λ t. follow t (offers msgs)) e ∙ f,
          all
              ∙ ap (λ (ms : List ServerMessage). ms ++ msgs) more
              ∙ append_assoc (contents tx) (msg ∷ []) msgs,
        )
      ]
    ]

    -- With channels that queue what they take: a connected client that neither joins nor leaves has
    -- been evicted at the end, or its channel holds what it held and then every message that is its
    -- own, once and in the order of the events.
    pub dispatch-contents :
        (ss : ℕ → Option S) (events : List EgressEvent) (c : ℕ) (tx : S) (msgs : List ServerMessage)
        → ss c ≡ some tx
        → seen_by c events ≡ offers msgs
        → (dispatch new_channel try_send ss events c ≡ none)
          ⊎ ((tx' : S) × (dispatch new_channel try_send ss events c ≡ some tx')
              × (contents tx' ≡ contents tx ++ msgs))
    dispatch-contents ss events c tx msgs here seen =
        rw (dispatch-follow ss events c, here, seen) (follow-contents tx msgs)
