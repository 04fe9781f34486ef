-- ===== src/Index/Clients.antt =====
-- `FastClientIndex`: (user id, client order id) -> exchange order id.
use Prim.Native.Nat.{bit_xor}
use mathlib.Core.Option
use ultra_low_latency_order.Prelude.{
  ℕ, ◌%◌, Bool, true, false, ◌&&◌, Option, arith, ◌==◌, Exec, done, ◌>>=◌, refl,
}
use ultra_low_latency_order.Types.{Result}
use ultra_low_latency_order.Table
use ultra_low_latency_order.Table.{Layout, IsLayout, Table, new_table}
use ultra_low_latency_order.Index.Hash.{mix, rotate_left_32}

abbrev pub fast_client_capacity : ℕ
fast_client_capacity = 262_144

pub record ClientIndexEntry : Type 0 where
  pub user_id : ℕ
  pub client_order_id : ℕ
  pub exchange_order_id : ℕ
  pub occupied : Bool

abbrev pub default_entry : ClientIndexEntry
default_entry = record { user_id = 0; client_order_id = 0; exchange_order_id = 0; occupied = false }

unfoldable pub hash : ℕ × ℕ → ℕ
unfolding mix rotate_left_32
hash (user_id, client_order_id) =
    mix (bit_xor user_id (rotate_left_32 client_order_id)) % fast_client_capacity

abbrev pub layout : Layout (ℕ × ℕ) ClientIndexEntry
layout = record {
  capacity = fast_client_capacity;
  hash = hash;
  key = λ e. (e.user_id, e.client_order_id);
  occupied = λ e. e.occupied;
  vacant = default_entry;
  same = λ j k. j.0 == k.0 && j.1 == k.1;
}

pub layout-IsLayout : IsLayout layout
unfolding hash
layout-IsLayout = record {
  capacity_pos = omega arith;
  capacity_fits = omega arith;
  hash_in = λ k. omega arith;
  vacant_free = refl;
  same_iff = λ j k. ground arith;
}

abbrev pub FastClientIndex : Type 0
FastClientIndex = Table ClientIndexEntry

abbrev pub new_index : FastClientIndex
new_index = new_table layout

unfoldable pub insert : FastClientIndex → ℕ → ℕ → ℕ → Exec (Result (Unit {0}) × FastClientIndex)
insert t user_id client_order_id exchange_order_id = Table.insert layout t (record {
  user_id = user_id;
  client_order_id = client_order_id;
  exchange_order_id = exchange_order_id;
  occupied = true;
})

unfoldable pub lookup : FastClientIndex → ℕ → ℕ → Exec (Option ℕ)
lookup t user_id client_order_id = Table.lookup layout t (user_id, client_order_id) >>= λ found.
    done (Option.map (λ e. e.exchange_order_id) found)

unfoldable pub remove : FastClientIndex → ℕ → ℕ → Exec (Option ℕ × FastClientIndex)
remove t user_id client_order_id =
    Table.remove layout t (user_id, client_order_id) >>= λ (found, t').
    done (Option.map (λ e. e.exchange_order_id) found, t')
