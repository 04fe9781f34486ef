-- ===== src/Index/Prices.antt =====
-- `FastPriceIndex`: price -> price level.
use mathlib.Core.Option
use ultra_low_latency_order.Prelude.{
  ℕ, ◌%◌, Bool, true, false, Option, arith, ◌==◌, Exec, done, ◌>>=◌, refl,
}
use ultra_low_latency_order.Types.{Result}
use ultra_low_latency_order.Table
use ultra_low_latency_order.Table.{Layout, IsLayout, Table, new_table}
use ultra_low_latency_order.Index.Hash.{mix}
use ultra_low_latency_order.Arena.Nodes.{null_idx}

abbrev pub fast_price_capacity : ℕ
fast_price_capacity = 8_192

pub record PriceIndexEntry : Type 0 where
  pub price : ℕ
  pub level_idx : ℕ
  pub occupied : Bool

abbrev pub default_entry : PriceIndexEntry
default_entry = record { price = 0; level_idx = null_idx; occupied = false }

unfoldable pub hash : ℕ → ℕ
unfolding mix
hash price = mix price % fast_price_capacity

abbrev pub layout : Layout ℕ PriceIndexEntry
layout = record {
  capacity = fast_price_capacity;
  hash = hash;
  key = λ e. e.price;
  occupied = λ e. e.occupied;
  vacant = default_entry;
  same = λ j k. j == k;
}

pub layout-IsLayout : IsLayout layout
unfolding hash
layout-IsLayout = record {
  capacity_pos = omega arith;
  capacity_fits = omega arith;
  hash_in = λ k. omega arith;
  vacant_free = refl;
  same_iff = λ j k. ground arith;
}

abbrev pub FastPriceIndex : Type 0
FastPriceIndex = Table PriceIndexEntry

abbrev pub new_index : FastPriceIndex
new_index = new_table layout

unfoldable pub insert : FastPriceIndex → ℕ → ℕ → Exec (Result (Unit {0}) × FastPriceIndex)
insert t price level_idx =
    Table.insert layout t (record { price = price; level_idx = level_idx; occupied = true })

-- `lookup` and `remove` return the level of the entry.
unfoldable pub lookup : FastPriceIndex → ℕ → Exec (Option ℕ)
lookup t price = Table.lookup layout t price >>= λ found. done (Option.map (λ e. e.level_idx) found)

unfoldable pub remove : FastPriceIndex → ℕ → Exec (Option ℕ × FastPriceIndex)
remove t price =
    Table.remove layout t price >>= λ (found, t'). done (Option.map (λ e. e.level_idx) found, t')
