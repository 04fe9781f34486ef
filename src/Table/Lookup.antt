-- ===== src/Table/Lookup.antt =====
-- `lookup` returns, and finds exactly the entry that the table holds.
use ultra_low_latency_order.Prelude.{
  ℕ, ◌≡◌, ◌⊎◌, inl, inr, none, some, Bool-cases, sym, ap, ◌∙◌, done, refl, if◌then◌else◌,
  or_stalled,
}
use ultra_low_latency_order.Table.{Layout, IsLayout, Table, probe, lookup}
use ultra_low_latency_order.Table.Invariant.{IsValid, Holds, Lacks}
use ultra_low_latency_order.Table.Probe.{probe-stops, Lacks-vacant, key-occupied}

module _ {K E : Type 0} (l : Layout K E) (laws : IsLayout l) where
  lookup-probed :
      (t : Table E) (k : K) (j : ℕ)
      → probe l l.capacity t.entries k (l.hash k) ≡ some j
      → lookup l t k ≡ done (if l.occupied (t.entries j) then some (t.entries j) else none)
  unfolding lookup
  lookup-probed t k j h = rw (h, or_stalled)

  -- What `lookup` says is so.
  pub lookup-cases :
      (t : Table E) (k : K)
      → IsValid l t
      → ((e : E) × (lookup l t k ≡ done (some e)) × (Holds l t e) × (l.key e ≡ k))
        ⊎ ((lookup l t k ≡ done none) × Lacks l t k)
  lookup-cases t k valid =
      let (j, found, p) = probe-stops l laws t k valid in
      elim (Bool-cases (l.occupied (t.entries j))) [
        | inl full ↦ inl (
          t.entries j,
          rw (lookup-probed t k j found, full),
          (j, p.inside, full, refl),
          key-occupied l laws t.entries k (l.hash k) j p full,
        )
        | inr free ↦
            inr
              (rw (lookup-probed t k j found, free), Lacks-vacant l laws t k j valid.linked p free)
      ]

  -- An entry that the table holds is found under its key.
  pub lookup-Holds :
      (t : Table E) (e : E) → IsValid l t → Holds l t e → lookup l t (l.key e) ≡ done (some e)
  lookup-Holds t e valid (i, hi, oi, at_i) = elim (lookup-cases t (l.key e) valid) [
    | inl (e', found, (j, hj, oj, at_j), same) ↦
        found
        ∙ ap (λ x. done (some x))
            (sym at_j
              ∙ ap t.entries
                  (valid.unique j i hj hi oj oi (ap l.key at_j ∙ same ∙ ap l.key (sym at_i)))
              ∙ at_i)
    | inr (_, lacks) ↦ absurd (lacks i hi oi (ap l.key at_i))
  ]

  -- A key that the table lacks is not found.
  pub lookup-Lacks : (t : Table E) (k : K) → IsValid l t → Lacks l t k → lookup l t k ≡ done none
  lookup-Lacks t k valid lacks = elim (lookup-cases t k valid) [
    | inl (e, found, (i, hi, oi, at_i), same) ↦ absurd (lacks i hi oi (ap l.key at_i ∙ same))
    | inr (missing, _) ↦ missing
  ]
