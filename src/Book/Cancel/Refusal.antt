-- ===== src/Book/Cancel/Refusal.antt =====
-- Whose orders `cancel_order` cancels, and what it does otherwise.

use ultra_low_latency_order.Prelude.{
  ℕ, ◌≡◌, ◌≢◌, ◌⊎◌, inl, inr, refl, ap, none, some, ◌==◌, Bool-cases, ==→eq, ==→ne, done,
}
use ultra_low_latency_order.Types.{RejectReason, err}
use ultra_low_latency_order.Index.Orders as OrderIndex
use ultra_low_latency_order.Index.Orders.{FastIndexEntry}
use ultra_low_latency_order.Index.Clients
use ultra_low_latency_order.Index.Clients.{ClientIndexEntry}
use ultra_low_latency_order.Table.Invariant.{IsValid, Holds, Lacks}
use ultra_low_latency_order.Table.Lookup.{lookup-cases}
use ultra_low_latency_order.Book.State.{OrderBook}
use ultra_low_latency_order.Book.Cancel.{find_entry, cancel_entry, cancel_order}

module _ (b : OrderBook) (requesting_user_id order_id : ℕ) where
  -- The user's own id of an order, as the index of clients has it.
  abbrev pub IsOwnId : ClientIndexEntry → Type 0
  IsOwnId mapped =
      Holds Clients.layout b.client_order_index mapped
      × (mapped.user_id ≡ requesting_user_id)
      × (mapped.client_order_id ≡ order_id)

  -- The book has no order of that exchange id, nor one that the user calls by that id.
  pub data IsUnknown : Type 0 where
    no_id :
        Lacks OrderIndex.layout b.order_index order_id
        → Lacks Clients.layout b.client_order_index (requesting_user_id, order_id)
        → IsUnknown
    stale_id :
        (mapped : ClientIndexEntry)
        → Lacks OrderIndex.layout b.order_index order_id
        → IsOwnId mapped
        → Lacks OrderIndex.layout b.order_index mapped.exchange_order_id
        → IsUnknown

  -- The entry of the order of that exchange id, or else of that which the user calls by it.
  pub data IsNamed (entry : FastIndexEntry) : Type 0 where
    by_id : entry.order_id ≡ order_id → IsNamed entry
    by_own_id :
        (mapped : ClientIndexEntry)
        → Lacks OrderIndex.layout b.order_index order_id
        → IsOwnId mapped
        → entry.order_id ≡ mapped.exchange_order_id
        → IsNamed entry

  pub record IsTarget (entry : FastIndexEntry) : Type 0 where
    pub held : Holds OrderIndex.layout b.order_index entry
    pub named : IsNamed entry

  found-cases :
      IsValid OrderIndex.layout b.order_index
      → IsValid Clients.layout b.client_order_index
      → ((find_entry b requesting_user_id order_id ≡ done none) × IsUnknown)
        ⊎ ((entry : FastIndexEntry) × (find_entry b requesting_user_id order_id ≡ done (some entry))
            × IsTarget entry)
  unfolding find_entry OrderIndex.lookup Clients.lookup
  found-cases orders clients =
      elim (lookup-cases OrderIndex.layout OrderIndex.layout-IsLayout b.order_index order_id
        orders) [
          | inl (entry, found, held, same) ↦
              inr (entry, rw found refl, record { held = held; named = IsNamed.by_id same })
          | inr (missing, lacks) ↦
              elim (lookup-cases Clients.layout Clients.layout-IsLayout b.client_order_index
                (requesting_user_id, order_id) clients) [
                  | inr (unmapped, lacks') ↦
                      inl (rw (missing, unmapped) refl, IsUnknown.no_id lacks lacks')
                  | inl (mapped, mapping, held, same) ↦
                      let own : IsOwnId mapped = (held, ap (λ k. k.0) same, ap (λ k. k.1) same) in
                      elim (lookup-cases OrderIndex.layout OrderIndex.layout-IsLayout b.order_index
                        mapped.exchange_order_id orders) [
                          | inl (entry, found, held', same') ↦ inr (
                            entry,
                            rw (missing, mapping, found) refl,
                            record {
                              held = held';
                              named = IsNamed.by_own_id mapped lacks own same';
                            },
                          )
                          | inr (gone, lacks') ↦ inl (
                            rw (missing, mapping, gone) refl,
                            IsUnknown.stale_id mapped lacks own lacks',
                          )
                        ]
                ]
        ]

  -- With valid indices, `cancel_order` rejects an unknown order as not found and an order of another
  -- user as unauthorized, the book unchanged in both cases; otherwise the order is the user's own, and
  -- its entry is cancelled.
  pub cancel_order-IsTarget :
      IsValid OrderIndex.layout b.order_index
      → IsValid Clients.layout b.client_order_index
      → ((cancel_order b requesting_user_id order_id ≡ done (err RejectReason.order_not_found, b))
          × IsUnknown)
        ⊎ (((entry : FastIndexEntry) × IsTarget entry
              × (entry.user_id ≢ requesting_user_id)
              × (cancel_order b requesting_user_id order_id
                  ≡ done (err RejectReason.unauthorized, b)))
            ⊎ ((entry : FastIndexEntry) × IsTarget entry
                × (entry.user_id ≡ requesting_user_id)
                × (cancel_order b requesting_user_id order_id ≡ cancel_entry b entry)))
  unfolding cancel_order
  cancel_order-IsTarget orders clients = elim (found-cases orders clients) [
    | inl (e, unknown) ↦ inl (rw e refl, unknown)
    | inr (entry, e, target) ↦ elim (Bool-cases (entry.user_id == requesting_user_id)) [
      | inl own ↦
          inr (inr (entry, target, ==→eq entry.user_id requesting_user_id own, rw (e, own) refl))
      | inr other ↦
          inr
            (inl (entry, target, ==→ne entry.user_id requesting_user_id other, rw (e, other) refl))
    ]
  ]
