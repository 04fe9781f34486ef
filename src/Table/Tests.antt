-- ===== src/Table/Tests.antt =====
-- The table's theorems at a small table whose keys all collide.
use ultra_low_latency_order.Prelude.{
  ℕ, ◌≡◌, refl, Bool, true, false, Option, some, none, arith, ◌==◌, if◌then◌else◌, done,
}
use ultra_low_latency_order.Types.{ok}
use ultra_low_latency_order.Table.{Layout, IsLayout, Table, new_table, insert, lookup, remove}
use ultra_low_latency_order.Table.Invariant.{IsValid, new_table-IsValid}
use ultra_low_latency_order.Table.Insert.{lookup-insert}
use ultra_low_latency_order.Table.Remove.{lookup-remove}

abbrev Slot : Type 0
Slot = ℕ × Bool

-- Four slots, and every key but 9 belongs to the last one.
abbrev four : Layout ℕ Slot
four = record {
  capacity = 4;
  hash = λ k. if k == 9 then 0 else 3;
  key = λ e. e.0;
  occupied = λ e. e.1;
  vacant = (0, false);
  same = λ j k. j == k;
}

four-IsLayout : IsLayout four
four-IsLayout = record {
  capacity_pos = omega arith;
  capacity_fits = omega arith;
  hash_in = λ k. ground arith;
  vacant_free = refl;
  same_iff = λ j k. ground arith;
}

abbrev empty : Table Slot
empty = new_table four

empty-IsValid : IsValid four empty
empty-IsValid = new_table-IsValid four four-IsLayout

-- Keys 5 and 6 stand in slots 3 and 0.
abbrev with_5 : Table Slot
with_5 = (lookup-insert four four-IsLayout empty empty-IsValid (5, true) refl refl).0

with_5-IsValid : IsValid four with_5
with_5-IsValid = (lookup-insert four four-IsLayout empty empty-IsValid (5, true) refl refl).2

lookup-insert_example :
    (t' : Table Slot) × (insert four empty (5, true) ≡ done (ok tt, t'))
    × IsValid four t'
    × ((k : ℕ) → lookup four t' k ≡ (if 5 == k then done (some (5, true)) else lookup four empty k))
lookup-insert_example = lookup-insert four four-IsLayout empty empty-IsValid (5, true) refl refl

lookup-remove_example :
    (o : Option Slot) × (t' : Table Slot) × (remove four with_5 5 ≡ done (o, t'))
    × (lookup four with_5 5 ≡ done o)
    × IsValid four t'
    × ((j : ℕ) → lookup four t' j ≡ (if 5 == j then done none else lookup four with_5 j))
lookup-remove_example = lookup-remove four four-IsLayout with_5 with_5-IsValid 5
