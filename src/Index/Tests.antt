-- ===== src/Index/Tests.antt =====
-- Runs of the price index on concrete keys.
use ultra_low_latency_order.Prelude.{
  ℕ, ◌≡◌, refl, Option, none, some, Exec, done, ◌>>=◌, add64, wrapping_mul64,
}
use ultra_low_latency_order.Table
use ultra_low_latency_order.Index.Prices.{new_index, insert, lookup, remove, hash}

abbrev script : Exec (Option ℕ × Option ℕ × Option ℕ)
unfolding insert lookup remove
script = insert new_index 100 7 >>= λ (_, t). insert t 101 8 >>= λ (_, t).
    remove t 100 >>= λ (gone, t). lookup t 100 >>= λ a. lookup t 101 >>= λ b. done (gone, a, b)

script_test : script ≡ done (some 7, none, some 8)
unfolding insert lookup remove hash Table.insert Table.remove Table.lookup add64 wrapping_mul64
script_test = refl
