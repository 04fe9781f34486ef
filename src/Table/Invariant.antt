-- ===== src/Table/Invariant.antt =====
-- The representation invariant of an open-addressing table, and what a client sees of it.
use ultra_low_latency_order.Prelude.{ℕ, ◌*◌, ◌/◌, ◌<◌, ◌≤◌, ◌≡◌, ◌≢◌, true, arith}
use ultra_low_latency_order.Table.{Layout, IsLayout, Table, new_table}
use ultra_low_latency_order.Table.Cyclic.{OnWay}
use ultra_low_latency_order.Table.Count.{occupied_below, occupied_below-replicate}

module _ {K E : Type 0} (l : Layout K E) where
  -- No key stands in two slots.
  abbrev pub IsUnique : (ℕ → E) → Type 0
  IsUnique es =
      (i j : ℕ)
      → i < l.capacity
      → j < l.capacity
      → l.occupied (es i) ≡ true
      → l.occupied (es j) ≡ true
      → l.key (es i) ≡ l.key (es j)
      → i ≡ j

  -- No slot on the way from an entry's ideal slot to the entry is vacant.
  abbrev pub IsLinked : (ℕ → E) → Type 0
  IsLinked es =
      (i x : ℕ)
      → i < l.capacity
      → x < l.capacity
      → l.occupied (es i) ≡ true
      → OnWay (l.hash (l.key (es i))) x i
      → l.occupied (es x) ≡ true

  pub record IsValid (t : Table E) : Type 0 where
    pub unique : IsUnique t.entries
    pub linked : IsLinked t.entries
    pub counted : t.count ≡ occupied_below l.occupied l.capacity t.entries
    pub below_load : t.count ≤ l.capacity * 8 / 10

  -- The table holds the entry `e`.
  abbrev pub Holds : Table E → E → Type 0
  Holds t e = (i : ℕ) × (i < l.capacity) × (l.occupied (t.entries i) ≡ true) × (t.entries i ≡ e)

  -- No entry has the key.
  abbrev pub Lacks : Table E → K → Type 0
  Lacks t k = (i : ℕ) → i < l.capacity → l.occupied (t.entries i) ≡ true → l.key (t.entries i) ≢ k

  -- A new table is valid.
  pub new_table-IsValid : IsLayout l → IsValid (new_table l)
  new_table-IsValid h = record {
    unique = λ i j hi hj oi oj e. absurd (ground (arith, h.vacant_free));
    linked = λ i x hi hx oi w. absurd (ground (arith, h.vacant_free));
    counted = ground (arith, occupied_below-replicate l.occupied l.capacity l.vacant h.vacant_free);
    below_load = omega arith;
  }
