-- ===== src/Index/Hash.antt =====
-- The 64-bit mix that the three hashes share (`x ^= x >> 30` and so on, on u64).
use Prim.Native.Nat.{bit_xor}
use ultra_low_latency_order.Prelude.{ℕ, ◌+◌, ◌*◌, ◌/◌, ◌%◌, ◌^◌, wrapping_mul64, u64_mod}

unfoldable pub mix : ℕ → ℕ
mix key =
    let x = wrapping_mul64 key 0x9E3779B97F4A7C15 in
    let x = bit_xor x (x / 2 ^ 30) in
    let x = wrapping_mul64 x 0xBF58476D1CE4E5B9 in bit_xor x (x / 2 ^ 27)

-- `x.rotate_left(32)`
unfoldable pub rotate_left_32 : ℕ → ℕ
rotate_left_32 x = (x * 2 ^ 32) % u64_mod + x / 2 ^ 32
