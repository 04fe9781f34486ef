-- ===== src/Table/Remove.antt =====
-- `remove` takes out the entry of its key and leaves every other key as it was.
use ultra_low_latency_order.Prelude.{
  ℕ, suc, ◌-◌, ◌<◌, ◌≡◌, ◌≢◌, inl, inr, true, false, Option, none, some, arith, Bool-cases, subst,
  sym, ap, ◌∙◌, refl, if◌then◌else◌, update, ◌==◌, ne→==, done, or_stalled,
}
use ultra_low_latency_order.Table.{
  Layout, IsLayout, Table, next_slot, shift_back, remove_found, remove, lookup, probe,
}
use ultra_low_latency_order.Table.Cyclic.{
  IsNext, IsNext-lt, steps_to, steps_to-step, steps_to-lt, OnWay-next,
}
use ultra_low_latency_order.Table.Count.{occupied_below-update}
use ultra_low_latency_order.Table.Invariant.{IsValid, Holds, Lacks}
use ultra_low_latency_order.Table.Probe.{
  probe-stops, free_slot, next_slot-IsNext, Lacks-vacant, key-occupied,
}
use ultra_low_latency_order.Table.Lookup.{lookup-cases, lookup-Holds, lookup-Lacks}
use ultra_low_latency_order.Table.Hole.{Hole}
use ultra_low_latency_order.Table.Shift.{Shifted, shift_back_lem}

module _ {K E : Type 0} (l : Layout K E) (laws : IsLayout l) (t : Table E)
    (valid : IsValid l t) where
  -- The invariant of the shifting loop holds when it starts at an occupied slot.
  module _ (i v : ℕ) (hi : i < l.capacity) (hv : v < l.capacity)
      (free : l.occupied (t.entries v) ≡ false) (full : l.occupied (t.entries i) ≡ true) where
    first-IsNext : IsNext l.capacity i (next_slot l i)
    first-IsNext = next_slot-IsNext l laws i hi

    first_nearer : steps_to l.capacity i v ≡ suc (steps_to l.capacity (next_slot l i) v)
    first_nearer =
        steps_to-step l.capacity i (next_slot l i) v hi hv
          (λ e. ground (arith, ap (λ y. l.occupied (t.entries y)) e)) first-IsNext

    first-Hole : Hole l laws t.entries i (next_slot l i) v
    first-Hole = record {
      hole_in = hi;
      here_in = IsNext-lt l.capacity i (next_slot l i) hi first-IsNext;
      free_in = hv;
      apart = λ e. omega (arith, ap (λ y. steps_to l.capacity y v) e, first_nearer);
      free = free;
      filled = full;
      ahead = omega (arith, first_nearer);
      unique = λ a b ha hb na nb oa ob same. valid.unique a b ha hb oa ob same;
      linked = λ a x ha hx na oa w. inr (valid.linked a x ha hx oa w);
      scanned =
          λ a ha na w oa way. na (OnWay-next l.capacity i (next_slot l i) a hi ha first-IsNext w);
    }

  module _ (i : ℕ) (hi : i < l.capacity) (full : l.occupied (t.entries i) ≡ true)
      (out : (ℕ → E) × ℕ) (s : Shifted l laws t.entries i out) where
    taken : Table E
    taken = record { entries = update out.0 out.1 l.vacant; count = t.count - 1 }

    not_hole :
        (a : ℕ)
        → l.occupied (update out.0 out.1 l.vacant a) ≡ true
        → (a ≢ out.1) × (l.occupied (out.0 a) ≡ true)
    not_hole a oa = (λ e. ground (arith, laws.vacant_free), ground (arith, laws.vacant_free))

    taken-IsValid : IsValid l taken
    unfolding taken
    taken-IsValid = record {
      unique = λ a b ha hb oa ob same.
          let (na, oa') = not_hole a oa in
          let (nb, ob') = not_hole b ob in
          s.closed.unique a b ha hb na nb oa' ob'
            (rw (ne→== out.1 a (λ e. na (sym e)), ne→== out.1 b (λ e. nb (sym e))) at same);
      linked = λ a x ha hx oa w.
          let (na, oa') = not_hole a oa in
          let (nx, ox) =
            s.closed.linked a x ha hx na oa' (rw (ne→== out.1 a (λ e. na (sym e))) at w) in
          rw (ne→== out.1 x (λ e. nx (sym e))) ox;
      counted = ground (
        arith,
        laws.vacant_free,
        s.closed.filled,
        s.same.number,
        valid.counted,
        occupied_below-update l.occupied l.capacity out.0 out.1 l.vacant s.closed.hole_in,
      );
      below_load = omega (arith, valid.below_load);
    }

    taken-Holds : (o : E) → Holds l t o → l.key o ≢ l.key (t.entries i) → Holds l taken o
    unfolding taken
    taken-Holds o (a, ha, oa, at_a) ne =
        let (b, hb, nb, at_b) =
          s.same.kept a ha (λ e. ne (ap l.key (sym at_a) ∙ ap (λ y. l.key (t.entries y)) e)) oa in
        let other : (out.1 == b) ≡ false = ne→== out.1 b (λ e. nb (sym e)) in
        (b, hb, rw other (ap l.occupied at_b ∙ oa), rw other (at_b ∙ at_a))

    taken-Lacks : (k : K) → Lacks l t k → Lacks l taken k
    unfolding taken
    taken-Lacks k lacks b hb ob same =
        let (nb, ob') = not_hole b ob in
        let (a, ha, na, at_a) = s.same.old b hb nb ob' in
        lacks a ha (ap l.occupied at_a ∙ ob')
          (ap l.key at_a ∙ (rw (ne→== out.1 b (λ e. nb (sym e))) at same))

    taken-Lacks_self : Lacks l taken (l.key (t.entries i))
    unfolding taken
    taken-Lacks_self b hb ob same =
        let (nb, ob') = not_hole b ob in
        let (a, ha, na, at_a) = s.same.old b hb nb ob' in
        na (
          valid.unique a i ha hi (ap l.occupied at_a ∙ ob') full
            (ap l.key at_a ∙ (rw (ne→== out.1 b (λ e. nb (sym e))) at same)))

    lookup-taken :
        (k : K)
        → lookup l taken k ≡ (if l.same (l.key (t.entries i)) k then done none else lookup l t k)
    lookup-taken k = elim (Bool-cases (l.same (l.key (t.entries i)) k)) [
      | inl gone ↦ rw gone (
          subst (λ m. lookup l taken m ≡ done none) ((laws.same_iff _ k).0 gone)
            (lookup-Lacks l laws taken (l.key (t.entries i)) taken-IsValid taken-Lacks_self))
      | inr other ↦ rw other (elim (lookup-cases l laws t k valid) [
        | inl (o, there, holds, same) ↦
            subst (λ m. lookup l taken m ≡ done (some o)) same
              (lookup-Holds l laws taken o taken-IsValid (
                taken-Holds o holds
                  (λ e. ground (arith, (laws.same_iff (l.key (t.entries i)) k).1 (sym e ∙ same)))))
            ∙ sym there
        | inr (missing, lacks) ↦
            lookup-Lacks l laws taken k taken-IsValid (taken-Lacks k lacks) ∙ sym missing
      ])
    ]

    remove-found :
        shift_back l l.capacity t.entries i (next_slot l i) ≡ some out
        → remove_found l t i ≡ done (some (t.entries i), taken)
    unfolding remove_found taken
    remove-found h = rw (full, h, or_stalled)

  remove-probed :
      (k : K) (i : ℕ)
      → probe l l.capacity t.entries k (l.hash k) ≡ some i
      → remove l t k ≡ remove_found l t i
  unfolding remove
  remove-probed k i h = rw (h, or_stalled)

  remove-vacant : (i : ℕ) → l.occupied (t.entries i) ≡ false → remove_found l t i ≡ done (none, t)
  unfolding remove_found
  remove-vacant i h = rw h

  -- `remove` returns what `lookup` finds, and a valid table in which the key is not found and every
  -- other key is found as before.
  pub lookup-remove :
      (k : K)
      → (o : Option E) × (t' : Table E) × (remove l t k ≡ done (o, t'))
        × (lookup l t k ≡ done o)
        × IsValid l t'
        × ((j : K) → lookup l t' j ≡ (if l.same k j then done none else lookup l t j))
  lookup-remove k =
      let (i, found, p) = probe-stops l laws t k valid in
      elim (Bool-cases (l.occupied (t.entries i))) [
        | inr free ↦
            let lacks : Lacks l t k = Lacks-vacant l laws t k i valid.linked p free in
            (
              none,
              t,
              remove-probed k i found ∙ remove-vacant i free,
              lookup-Lacks l laws t k valid lacks,
              valid,
              λ j. elim (Bool-cases (l.same k j)) [
                | inl gone ↦ rw gone (
                    subst (λ m. lookup l t m ≡ done none) ((laws.same_iff k j).0 gone)
                      (lookup-Lacks l laws t k valid lacks))
                | inr other ↦ rw other refl
              ],
            )
        | inl full ↦
            let (v, hv, free) = free_slot l laws t valid in
            let (out, shifted, s) =
              shift_back_lem l laws l.capacity t.entries i (next_slot l i) v
                (first-Hole i v p.inside hv free full)
                (steps_to-lt l.capacity _ v
                  (IsNext-lt l.capacity i _ p.inside (next_slot-IsNext l laws i p.inside)) hv) in
            let mine : l.key (t.entries i) ≡ k =
              key-occupied l laws t.entries k (l.hash k) i p full in
            (
              some (t.entries i),
              taken i p.inside full out s,
              remove-probed k i found ∙ remove-found i p.inside full out s shifted,
              subst (λ m. lookup l t m ≡ done (some (t.entries i))) mine
                  (lookup-Holds l laws t (t.entries i) valid (i, p.inside, full, refl)),
              taken-IsValid i p.inside full out s,
              subst
                  (λ m.
                    (j : K)
                    → lookup l (taken i p.inside full out s) j
                      ≡ (if l.same m j then done none else lookup l t j))
                  mine (lookup-taken i p.inside full out s),
            )
      ]
