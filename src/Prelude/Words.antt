-- ===== src/Prelude/Words.antt =====
-- Machine words as native numbers. The release profile of the program is modelled: `+` and `-`
-- wrap there.
use Prim.Native.Nat.{ℕ, ◌+◌, ◌-◌, ◌*◌, ◌%◌, ◌^◌, ◌<◌, ◌≤◌, min}
use mathlib.Core.Path.{◌≡◌}
use native.Mathlib.Omega.{arith}

abbrev pub u64_mod : ℕ
u64_mod = 2 ^ 64

abbrev pub u64_max : ℕ
u64_max = 2 ^ 64 - 1

abbrev pub u32_mod : ℕ
u32_mod = 2 ^ 32

-- `a + b` and `a - b` on u64 (and on usize, which has 64 bits on the targets of the program).
unfoldable pub add64 : ℕ → ℕ → ℕ
add64 a b = (a + b) % u64_mod

unfoldable pub sub64 : ℕ → ℕ → ℕ
sub64 a b = (a + u64_mod - b) % u64_mod

unfoldable pub add32 : ℕ → ℕ → ℕ
add32 a b = (a + b) % u32_mod

-- `a.saturating_mul(b)` and `a.saturating_add(b)` on u64; `saturating_sub` is `-` on ℕ.
unfoldable pub sat_mul64 : ℕ → ℕ → ℕ
sat_mul64 a b = min (a * b) u64_max

unfoldable pub wrapping_mul64 : ℕ → ℕ → ℕ
wrapping_mul64 a b = (a * b) % u64_mod

pub add64-eq : (a b : ℕ) → a + b < u64_mod → add64 a b ≡ a + b
unfolding add64
add64-eq a b h = omega arith

pub add32-eq : (a b : ℕ) → a + b < u32_mod → add32 a b ≡ a + b
unfolding add32
add32-eq a b h = omega arith

pub sub64-eq : (a b : ℕ) → a < u64_mod → b ≤ a → sub64 a b ≡ a - b
unfolding sub64
sub64-eq a b h k = omega arith

pub sat_mul64-eq : (a b : ℕ) → a * b < u64_mod → sat_mul64 a b ≡ a * b
unfolding sat_mul64
sat_mul64-eq a b h = omega arith

pub sat_mul64-lt : (a b : ℕ) → sat_mul64 a b < u64_mod
unfolding sat_mul64
sat_mul64-lt a b = omega arith

pub add64-lt : (a b : ℕ) → add64 a b < u64_mod
unfolding add64
add64-lt a b = omega arith

pub sub64-lt : (a b : ℕ) → sub64 a b < u64_mod
unfolding sub64
sub64-lt a b = omega arith
