-- ===== src/Table/Probe.antt =====
-- The probe loop ends, and where it ends decides whether the key is there.
use ultra_low_latency_order.Prelude.{
  ℕ, zero, suc, ◌<◌, ◌≡◌, inl, inr, Bool, true, false, not, ◌||◌, some, arith, Bool-cases, subst,
  sym, ap,
}
use ultra_low_latency_order.Table.{Layout, IsLayout, Table, next_slot, probe}
use ultra_low_latency_order.Table.Cyclic.{
  OnWay, IsNext, steps_to, IsNext-mod, IsNext-lt, not-OnWay_self, OnWay-total, OnWay-step,
  steps_to-step, steps_to-lt,
}
use ultra_low_latency_order.Table.Count.{vacancy}
use ultra_low_latency_order.Table.Invariant.{IsLinked, IsValid, Lacks}

module _ {K E : Type 0} (l : Layout K E) (laws : IsLayout l) where
  -- Where the loop stops.
  abbrev stops : (ℕ → E) → K → ℕ → Bool
  stops es k j = not (l.occupied (es j)) || l.same (l.key (es j)) k

  pub next_slot-IsNext : (i : ℕ) → i < l.capacity → IsNext l.capacity i (next_slot l i)
  unfolding next_slot
  next_slot-IsNext i h = IsNext-mod l.capacity i h

  pub record Probed (es : ℕ → E) (k : K) (i j : ℕ) : Type 0 where
    pub inside : j < l.capacity
    pub stop : stops es k j ≡ true
    pub passed : (x : ℕ) → x < l.capacity → OnWay i x j → stops es k x ≡ false

  -- With a vacant slot ahead, fewer steps away than the fuel, the loop stops.
  pub probe_lem :
      (fuel : ℕ) (es : ℕ → E) (k : K) (i v : ℕ)
      → i < l.capacity
      → v < l.capacity
      → l.occupied (es v) ≡ false
      → steps_to l.capacity i v < fuel
      → (j : ℕ) × (probe l fuel es k i ≡ some j) × Probed es k i j
  unfolding probe
  probe_lem zero es k i v hi hv free h = elim h [ ]
  probe_lem (suc fuel) es k i v hi hv free h = elim (Bool-cases (stops es k i)) [
    | inl stop ↦ (
      i,
      rw stop,
      record { inside = hi; stop = stop; passed = λ x hx w. absurd (not-OnWay_self i x w) },
    )
    | inr on ↦
        let (j, found, p) =
          probe_lem fuel es k (next_slot l i) v
            (IsNext-lt l.capacity i _ hi (next_slot-IsNext i hi)) hv free
            (omega (
              arith,
              steps_to-step l.capacity i (next_slot l i) v hi hv
                  (λ e. ground (arith, ap (λ y. l.occupied (es y)) e)) (next_slot-IsNext i hi),
            )) in
        (
          j,
          rw on found,
          record {
            inside = p.inside;
            stop = p.stop;
            passed = λ x hx w.
                elim (OnWay-step l.capacity i (next_slot l i) x j hi hx p.inside
                  (next_slot-IsNext i hi) w) [
                    | inl e ↦ subst (λ y. stops es k y ≡ false) (sym e) on
                    | inr later ↦ p.passed x hx later
                  ];
          },
        )
  ]

  -- A valid table has a vacant slot.
  pub free_slot :
      (t : Table E) → IsValid l t → (v : ℕ) × (v < l.capacity) × (l.occupied (t.entries v) ≡ false)
  free_slot t valid =
      vacancy l.occupied l.capacity t.entries
        (omega (arith, valid.counted, valid.below_load, laws.capacity_pos))

  -- In a valid table the loop stops for every key, with the capacity for fuel.
  pub probe-stops :
      (t : Table E) (k : K)
      → IsValid l t
      → (j : ℕ) × (probe l l.capacity t.entries k (l.hash k) ≡ some j)
        × Probed t.entries k (l.hash k) j
  probe-stops t k valid =
      let (v, inside, free) = free_slot t valid in
      probe_lem l.capacity t.entries k (l.hash k) v (laws.hash_in k) inside free
        (steps_to-lt l.capacity (l.hash k) v (laws.hash_in k) inside)

  -- A stop at a vacant slot: no entry has the key.
  pub Lacks-vacant :
      (t : Table E) (k : K) (j : ℕ)
      → IsLinked l t.entries
      → Probed t.entries k (l.hash k) j
      → l.occupied (t.entries j) ≡ false
      → Lacks l t k
  Lacks-vacant t k j linked p free i hi oi e =
      elim (OnWay-total (l.hash k) i j
        (λ same. ground (arith, ap (λ y. l.occupied (t.entries y)) same))) [
          | inl before ↦
              ground (arith, p.passed i hi before, (laws.same_iff (l.key (t.entries i)) k).1 e)
          | inr after ↦
              let w : OnWay (l.hash (l.key (t.entries i))) j i =
                subst (λ m. OnWay (l.hash m) j i) (sym e) after in
              ground (arith, linked i j hi p.inside oi w)
        ]

  -- A stop at an occupied slot: it has the key.
  pub key-occupied :
      (es : ℕ → E) (k : K) (i j : ℕ) → Probed es k i j → l.occupied (es j) ≡ true → l.key (es j) ≡ k
  key-occupied es k i j p oj = (laws.same_iff (l.key (es j)) k).0 (ground (arith, p.stop))
