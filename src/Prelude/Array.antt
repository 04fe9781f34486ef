-- ===== src/Prelude/Array.antt =====
-- A `Vec` of fixed length: a read or a write out of bounds panics.
use ultra_low_latency_order.Prelude.Tests.{ltb, if◌then◌else◌}
use ultra_low_latency_order.Prelude.Assoc.{update}
use ultra_low_latency_order.Prelude.Running.{Exec, done, panic}
use Prim.Native.Nat.{ℕ, ◌<◌}
use mathlib.Core.Path.{◌≡◌}
use native.Mathlib.Omega.{arith}

pub record Vec {ℓ} (A : Type ℓ) : Type ℓ where
  pub len : ℕ
  pub at : ℕ → A

module _ {ℓ} {A : Type ℓ} where
  -- `v[i]`
  unfoldable pub read : Vec A → ℕ → Exec A
  read v i = if ltb i v.len then done (v.at i) else panic

  -- `v[i] = a`
  unfoldable pub write : Vec A → ℕ → A → Exec (Vec A)
  write v i a = if ltb i v.len then done (record v { at = update v.at i a }) else panic

  pub read-done : (v : Vec A) (i : ℕ) → i < v.len → read v i ≡ done (v.at i)
  unfolding read
  read-done v i h = ground arith

  pub write-done :
      (v : Vec A) (i : ℕ) (a : A)
      → i < v.len
      → write v i a ≡ done (record v { at = update v.at i a })
  unfolding write
  write-done v i a h = ground arith
