-- ===== src/Table/Insert.antt =====
-- `insert` writes under its key and changes no other.
use ultra_low_latency_order.Prelude.{
  ℕ, ◌*◌, ◌/◌, ◌<◌, ◌≡◌, ◌≢◌, inl, inr, true, false, some, arith, Bool-cases, subst, sym, ap, ◌∙◌,
  done, if◌then◌else◌, or_stalled, update, add64, leb, ◌==◌, ==→eq,
}
use ultra_low_latency_order.Types.{RejectReason, ok, err}
use ultra_low_latency_order.Table.{Layout, IsLayout, Table, probe, lookup, write_at, insert}
use ultra_low_latency_order.Table.Cyclic.{OnWay}
use ultra_low_latency_order.Table.Count.{occupied_below-update}
use ultra_low_latency_order.Table.Invariant.{IsUnique, IsLinked, IsValid, Holds, Lacks}
use ultra_low_latency_order.Table.Probe.{Probed, probe-stops, Lacks-vacant, key-occupied}
use ultra_low_latency_order.Table.Lookup.{lookup-cases, lookup-Holds, lookup-Lacks}

module _ {K E : Type 0} (l : Layout K E) (laws : IsLayout l) (t : Table E) (valid : IsValid l t)
    (e : E) (used : l.occupied e ≡ true) where
  module _ (j : ℕ) (p : Probed l laws t.entries (l.key e) (l.hash (l.key e)) j) where
    -- The slot where the loop stops is the only one that can have the key.
    only_slot :
        (i : ℕ)
        → i < l.capacity
        → l.occupied (t.entries i) ≡ true
        → l.key (t.entries i) ≡ l.key e
        → i ≡ j
    only_slot i hi oi same = elim (Bool-cases (l.occupied (t.entries j))) [
      | inl full ↦
          valid.unique i j hi p.inside oi full
            (same ∙ sym (key-occupied l laws t.entries (l.key e) (l.hash (l.key e)) j p full))
      | inr free ↦ absurd (Lacks-vacant l laws t (l.key e) j valid.linked p free i hi oi same)
    ]

    stays_occupied :
        (x : ℕ) → l.occupied (t.entries x) ≡ true → l.occupied (update t.entries j e x) ≡ true
    stays_occupied x ox = ground arith

    write_at-IsUnique : IsUnique l (update t.entries j e)
    write_at-IsUnique a b ha hb oa ob same =
        ground (arith, only_slot a ha, only_slot b hb, valid.unique a b ha hb)

    write_at-IsLinked : IsLinked l (update t.entries j e)
    write_at-IsLinked a x ha hx oa w = elim (Bool-cases (j == a)) [
      | inl new ↦
          let w' : OnWay (l.hash (l.key e)) x j =
            subst (λ b. OnWay (l.hash (l.key e)) x b) (sym (==→eq j a new)) (rw new at w) in
          stays_occupied x (ground (arith, p.passed x hx w'))
      | inr old ↦ stays_occupied x (valid.linked a x ha hx (rw old at oa) (rw old at w))
    ]

    write_at-IsValid : leb (l.capacity * 8 / 10) t.count ≡ false → IsValid l (write_at l t e j)
    unfolding write_at add64
    write_at-IsValid room = record {
      unique = write_at-IsUnique;
      linked = write_at-IsLinked;
      counted = ground (
        arith,
        valid.counted,
        occupied_below-update l.occupied l.capacity t.entries j e p.inside,
        laws.capacity_fits,
      );
      below_load = ground (arith, valid.below_load, laws.capacity_fits);
    }

    -- The new entry is there.
    write_at-Holds : Holds l (write_at l t e j) e
    unfolding write_at
    write_at-Holds = (j, p.inside, ground arith, ground arith)

    -- An entry under another key is there as before.
    write_at-Holds_ne : (o : E) → Holds l t o → l.key o ≢ l.key e → Holds l (write_at l t e j) o
    unfolding write_at
    write_at-Holds_ne o (i, hi, oi, at_i) ne = elim (Bool-cases (j == i)) [
      | inl same ↦
          let e1 : i ≡ j = sym (==→eq j i same) in
          absurd (
            ne (
              ap l.key (sym at_i)
              ∙ ap (λ x. l.key (t.entries x)) e1
              ∙ key-occupied l laws t.entries (l.key e) (l.hash (l.key e)) j p
                  (subst (λ x. l.occupied (t.entries x) ≡ true) e1 oi)))
      | inr other ↦ (i, hi, ground arith, ground arith)
    ]

    write_at-Lacks : (k : K) → Lacks l t k → l.key e ≢ k → Lacks l (write_at l t e j) k
    unfolding write_at
    write_at-Lacks k lacks ne i hi oi same = elim (Bool-cases (j == i)) [
      | inl new ↦ ne (rw new at same)
      | inr other ↦ lacks i hi (rw other at oi) (rw other at same)
    ]

  lookup-write_at_ne :
      (j : ℕ) (p : Probed l laws t.entries (l.key e) (l.hash (l.key e)) j)
      → IsValid l (write_at l t e j)
      → (k : K) → l.key e ≢ k
      → lookup l (write_at l t e j) k ≡ lookup l t k
  lookup-write_at_ne j p valid' k ne = elim (lookup-cases l laws t k valid) [
    | inl (o, there, holds, same) ↦
        subst (λ m. lookup l (write_at l t e j) m ≡ done (some o)) same
          (lookup-Holds l laws (write_at l t e j) o valid'
            (write_at-Holds_ne j p o holds (λ c. ne (sym c ∙ same))))
        ∙ sym there
    | inr (missing, lacks) ↦
        lookup-Lacks l laws (write_at l t e j) k valid' (write_at-Lacks j p k lacks ne)
        ∙ sym missing
  ]

  insert-probed :
      (j : ℕ)
      → leb (l.capacity * 8 / 10) t.count ≡ false
      → probe l l.capacity t.entries (l.key e) (l.hash (l.key e)) ≡ some j
      → insert l t e ≡ done (ok tt, write_at l t e j)
  unfolding insert
  insert-probed j room h = rw (room, h, or_stalled)

  -- Below the load limit `insert` returns a valid table in which the entry's key is found with that
  -- entry, and every other key as before.
  pub lookup-insert :
      leb (l.capacity * 8 / 10) t.count ≡ false
      → (t' : Table E) × (insert l t e ≡ done (ok tt, t'))
        × IsValid l t'
        × ((k : K) → lookup l t' k ≡ (if l.same (l.key e) k then done (some e) else lookup l t k))
  lookup-insert room =
      let (j, found, p) = probe-stops l laws t (l.key e) valid in
      let valid' : IsValid l (write_at l t e j) = write_at-IsValid j p room in
      (
        write_at l t e j,
        insert-probed j room found,
        valid',
        λ k. elim (Bool-cases (l.same (l.key e) k)) [
          | inl new ↦ rw new (
              subst (λ m. lookup l (write_at l t e j) m ≡ done (some e))
                ((laws.same_iff (l.key e) k).0 new)
                (lookup-Holds l laws (write_at l t e j) e valid' (write_at-Holds j p)))
          | inr old ↦ rw old (
              lookup-write_at_ne j p valid' k
                (λ c. ground (arith, (laws.same_iff (l.key e) k).1 c)))
        ],
      )

  -- At the load limit `insert` refuses, also to replace an entry, and changes nothing.
  pub insert-full :
      leb (l.capacity * 8 / 10) t.count ≡ true
      → insert l t e ≡ done (err RejectReason.engine_full, t)
  unfolding insert
  insert-full full = rw full
