-- ===== src/Metrics/Error.antt =====
-- How far the value that stands for a bucket is from the values that fall into it.
use native.Mathlib.Nat.{
  two-pow-succ, one-le-pow, div-lt_iff_lt-mul, add-mul, div-add-mod', mod-lt, pow-le-pow_right,
}
use ultra_low_latency_order.Prelude.{
  ℕ, zero, suc, ◌+◌, ◌-◌, ◌*◌, ◌/◌, ◌%◌, ◌^◌, ◌≤◌, ◌<◌, ◌≡◌, refl, ◌∙◌, ap, true, false, min, ltb,
  Bool-cases, le→ltb, inl, inr, arith,
}
use native.Mathlib.Decide.{dec_lt}
use ultra_low_latency_order.Metrics.{top_bit, octave_bucket, value_to_bucket, bucket_to_value}

double : (n : ℕ) → 2 ^ suc n ≡ 2 ^ n + 2 ^ n
double n = two-pow-succ n

-- `top_bit` is the position of the highest set bit.
pub top_bit-bounds :
    (fuel n : ℕ) → 1 ≤ n → n < 2 ^ fuel → (2 ^ top_bit fuel n ≤ n) × (n < 2 ^ suc (top_bit fuel n))
unfolding top_bit
top_bit-bounds zero n h k = absurd (omega (arith, h, k))
top_bit-bounds (suc fuel) n h k = elim (Bool-cases (ltb n 2)) [
  | inl small ↦ let one : n < 2 = ground arith in rw small (omega (arith, one), omega (arith, one))
  | inr large ↦
      let two : 2 ≤ n = ground arith in
      let (low, high) =
        top_bit-bounds fuel (n / 2) (omega (arith, two)) (omega (arith, k, double fuel)) in
      rw large (
        omega (arith, low, double (top_bit fuel (n / 2))),
        omega (arith, high, double (top_bit fuel (n / 2)), double (suc (top_bit fuel (n / 2)))),
      )
]

-- In octave `j`, of step `s`, a value of `16 + m` steps and a remainder is within a half step and a
-- 32nd of its value of the middle of its step.
octave-error :
    (s n : ℕ)
    → 1 ≤ s
    → 16 * s ≤ n
    → n < 32 * s
    → (32 * (16 * s + n / s % 16 * s + s / 2 - n) ≤ n)
      × (32 * (n - (16 * s + n / s % 16 * s + s / 2)) ≤ n)
octave-error s n pos low high =
    let q : ℕ = n / s in
    let below : q < 32 = (div-lt_iff_lt-mul pos).1 high in
    let above : 16 ≤ q = elim (dec_lt q 16) [
      | yes h ↦ absurd (omega (arith, low, (div-lt_iff_lt-mul pos).0 h))
      | no h ↦ omega (arith, h)
    ] in
    let split : q ≡ 16 + q % 16 = omega (arith, above, below) in
    let parts : q * s ≡ 16 * s + q % 16 * s = ap (λ y. y * s) split ∙ add-mul 16 (q % 16) s in
    let whole : q * s + n % s ≡ n = div-add-mod' n s in
    let less : n % s < s = mod-lt n pos in
    (omega (arith, parts, whole, less, low), omega (arith, parts, whole, less, low))

-- The highest set bit of a value in the histogram's range.
top_bit-range :
    (n : ℕ)
    → 16 ≤ n
    → n < 2 ^ 37
    → (j : ℕ) × (top_bit 64 n ≡ 4 + j) × (j ≤ 32) × (16 * 2 ^ j ≤ n) × (n < 32 * 2 ^ j)
top_bit-range n low high =
    let k : ℕ = top_bit 64 n in
    let (least, most) = top_bit-bounds 64 n (omega (arith, low)) (omega (arith, high)) in
    let at_least : 4 ≤ k = elim (dec_lt k 4) [
      | yes h ↦ absurd (
          omega (
            arith,
            low,
            most,
            pow-le-pow_right {n = 2} (omega arith) {i = suc k} {j = 4} (omega (arith, h)),
          ))
      | no h ↦ omega (arith, h)
    ] in
    let at_most : k ≤ 36 = elim (dec_lt 36 k) [
      | yes h ↦ absurd (
          omega (
            arith,
            high,
            least,
            pow-le-pow_right {n = 2} (omega arith) {i = 37} {j = k} (omega (arith, h)),
          ))
      | no h ↦ omega (arith, h)
    ] in
    let j : ℕ = k - 4 in
    let shape : k ≡ suc (suc (suc (suc j))) = omega (arith, at_least) in
    let size : 2 ^ k ≡ 16 * 2 ^ j =
      ap (λ y. 2 ^ y) shape
      ∙ omega (arith, double (suc (suc (suc j))), double (suc (suc j)), double (suc j), double j) in
    (
      j,
      omega (arith, at_least),
      omega (arith, at_most),
      omega (arith, least, size),
      omega (arith, most, size, double k),
    )

small-exact : (n : ℕ) → n < 16 → bucket_to_value (value_to_bucket n) ≡ n
unfolding value_to_bucket bucket_to_value
small-exact n h = let small : ltb n 16 ≡ true = ground arith in rw small (rw small refl)

min_left : (a b : ℕ) → a ≤ b → min a b ≡ a
min_left a b h = omega (arith, h)

bucket_to_value-index :
    (j m : ℕ) → m < 16 → bucket_to_value (16 + j * 16 + m) ≡ 16 * 2 ^ j + m * 2 ^ j + 2 ^ j / 2
unfolding bucket_to_value
bucket_to_value-index j m inside =
    let shift : j + 4 ≡ suc (suc (suc (suc j))) = omega arith in
    let octave : (16 + j * 16 + m - 16) / 16 ≡ j = omega (arith, inside) in
    let sub : (16 + j * 16 + m - 16) % 16 ≡ m = omega (arith, inside) in
    let large : ltb (16 + j * 16 + m) 16 ≡ false = le→ltb (16 + j * 16 + m) 16 (omega arith) in
    let base : 2 ^ (j + 4) ≡ 16 * 2 ^ j =
      ap (λ y. 2 ^ y) shift
      ∙ omega (arith, double (suc (suc (suc j))), double (suc (suc j)), double (suc j), double j) in
    rw (large, octave, sub, base) refl

-- The value that stands for the bucket of `n`.
octave-middle :
    (n j : ℕ)
    → 16 ≤ n
    → top_bit 64 n ≡ 4 + j
    → j ≤ 32
    → bucket_to_value (value_to_bucket n) ≡ 16 * 2 ^ j + n / 2 ^ j % 16 * 2 ^ j + 2 ^ j / 2
unfolding value_to_bucket octave_bucket
octave-middle n j low top range =
    let large : ltb n 16 ≡ false = le→ltb n 16 low in
    let high : ltb (4 + j) 4 ≡ false = le→ltb (4 + j) 4 (omega arith) in
    let octave : 4 + j - 4 ≡ j = omega arith in
    let inside : n / 2 ^ j % 16 < 16 = mod-lt (n / 2 ^ j) (omega arith) in
    let index : min (16 + j * 16 + n / 2 ^ j % 16) 543 ≡ 16 + j * 16 + n / 2 ^ j % 16 =
      min_left (16 + j * 16 + n / 2 ^ j % 16) 543 (omega (arith, range, inside)) in
    rw (large, top, high, octave, index) (bucket_to_value-index j (n / 2 ^ j % 16) inside)

-- A latency below 2 ^ 37 ns differs from the value that stands for its bucket by at most a 32nd of
-- itself, in either direction.
pub bucket_to_value-value_to_bucket :
    (n : ℕ)
    → n < 2 ^ 37
    → (32 * (bucket_to_value (value_to_bucket n) - n) ≤ n)
      × (32 * (n - bucket_to_value (value_to_bucket n)) ≤ n)
bucket_to_value-value_to_bucket n high = elim (dec_lt n 16) [
  | yes small ↦ rw (small-exact n small) (omega arith, omega arith)
  | no large ↦
      let low : 16 ≤ n = omega (arith, large) in
      let (j, top, range, least, most) = top_bit-range n low high in
      rw (octave-middle n j low top range)
        (octave-error (2 ^ j) n (one-le-pow j 2 (omega arith)) least most)
]
