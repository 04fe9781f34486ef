-- ===== src/Prelude/Running.antt =====
-- What a call may do: return, panic (an index out of bounds), or stall (the fuel of a loop of the
-- model has run out). The theorems show which calls return.
use mathlib.Core.Option.{Option, none, some}

pub data Exec {ℓ} (A : Type ℓ) : Type ℓ where
  done : A → Exec A
  panic : Exec A
  stalled : Exec A

infixl 5 ◌>>=◌
abbrev pub ◌>>=◌ {ℓ κ} : {A : Type ℓ} {B : Type κ} → Exec A → (A → Exec B) → Exec B
done a >>= f = f a
panic >>= f = panic
stalled >>= f = stalled

-- A loop's result under its fuel.
abbrev pub or_stalled {ℓ} : {A : Type ℓ} → Option A → Exec A
or_stalled none = stalled
or_stalled (some a) = done a
