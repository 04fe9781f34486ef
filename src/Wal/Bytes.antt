-- ===== src/Wal/Bytes.antt =====
-- Words as little-endian bytes: the memory of a `Pod` value on the little-endian targets of the
-- program, and `read_exact` on what is left of a file.
use ultra_low_latency_order.Prelude.{
  ℕ, zero, suc, ◌+◌, ◌*◌, ◌/◌, ◌%◌, ◌^◌, u64_mod, u32_mod, ◌<◌, ◌≡◌, ◌⊎◌, inl, inr, refl, ap, List,
  [], ◌∷◌, ◌++◌, Option, none, some, length, arith,
}
use mathlib.Core.Option

unfoldable pub le_bytes : ℕ → ℕ → List ℕ
le_bytes zero n = []
le_bytes (suc w) n = n % 256 ∷ le_bytes w (n / 256)

-- The word in the first `w` bytes, and the bytes behind it.
unfoldable pub read_word : ℕ → List ℕ → ℕ × List ℕ
read_word zero bs = (0, bs)
read_word (suc w) [] = (0, [])
read_word (suc w) (b ∷ bs) = let (n, rest) = read_word w bs in (b + 256 * n, rest)

-- The number of words of `w` bytes.
unfoldable pub words : ℕ → ℕ
words zero = 1
words (suc w) = 256 * words w

pub read_word-le_bytes :
    (w n : ℕ) (bs : List ℕ) → n < words w → read_word w (le_bytes w n ++ bs) ≡ (n, bs)
unfolding read_word le_bytes words
read_word-le_bytes zero n bs h = let e : 0 ≡ n = omega (arith, h) in ap (λ k. (k, bs)) e
read_word-le_bytes (suc w) n bs h =
    let rest = read_word-le_bytes w (n / 256) bs (omega (arith, h)) in
    let e : n % 256 + 256 * (n / 256) ≡ n = omega arith in rw rest (ap (λ k. (k, bs)) e)

pub length-le_bytes : (w n : ℕ) → length (le_bytes w n) ≡ w
unfolding length le_bytes
length-le_bytes zero n = refl
length-le_bytes (suc w) n = omega (arith, length-le_bytes w (n / 256))

-- `read_exact` with a buffer of `n` bytes: these and the rest, or an error at the end of the file.
unfoldable pub read_exact : ℕ → List ℕ → Option (List ℕ × List ℕ)
read_exact zero bs = some ([], bs)
read_exact (suc n) [] = none
read_exact (suc n) (b ∷ bs) = Option.map (λ r. (b ∷ r.0, r.1)) (read_exact n bs)

pub read_exact_append :
    (n : ℕ) (xs ys : List ℕ) → length xs ≡ n → read_exact n (xs ++ ys) ≡ some (xs, ys)
unfolding read_exact length
read_exact_append zero [] ys h = refl
read_exact_append zero (x ∷ xs) ys h = absurd (omega (arith, h))
read_exact_append (suc n) [] ys h = absurd (omega (arith, h))
read_exact_append (suc n) (x ∷ xs) ys h = rw (read_exact_append n xs ys (omega (arith, h))) refl

pub read_exact_short : (n : ℕ) (bs : List ℕ) → length bs < n → read_exact n bs ≡ none
unfolding read_exact length
read_exact_short zero bs h = absurd (omega (arith, h))
read_exact_short (suc n) [] h = refl
read_exact_short (suc n) (b ∷ bs) h = rw (read_exact_short n bs (omega (arith, h))) refl

pub read_word-u64 : (n : ℕ) (bs : List ℕ) → n < u64_mod → read_word 8 (le_bytes 8 n ++ bs) ≡ (n, bs)
unfolding words
read_word-u64 n bs h = read_word-le_bytes 8 n bs h

pub read_word-u32 : (n : ℕ) (bs : List ℕ) → n < u32_mod → read_word 4 (le_bytes 4 n ++ bs) ≡ (n, bs)
unfolding words
read_word-u32 n bs h = read_word-le_bytes 4 n bs h

pub read_word-u16 : (n : ℕ) (bs : List ℕ) → n < 2 ^ 16 → read_word 2 (le_bytes 2 n ++ bs) ≡ (n, bs)
unfolding words
read_word-u16 n bs h = read_word-le_bytes 2 n bs h

pub read_word-u8 : (n : ℕ) (bs : List ℕ) → n < 256 → read_word 1 (le_bytes 1 n ++ bs) ≡ (n, bs)
unfolding words
read_word-u8 n bs h = read_word-le_bytes 1 n bs h

-- `read_exact` fails or takes its bytes off.
pub read_exact-cases :
    (n : ℕ) (bs : List ℕ)
    → (read_exact n bs ≡ none)
      ⊎ ((buf rest : List ℕ) × (read_exact n bs ≡ some (buf, rest)) × (length bs ≡ n + length rest))
unfolding read_exact length
read_exact-cases zero bs = inr ([], bs, refl, omega arith)
read_exact-cases (suc n) [] = inl refl
read_exact-cases (suc n) (b ∷ bs) = elim (read_exact-cases n bs) [
  | inl e ↦ inl (rw e refl)
  | inr (buf, rest, e, size) ↦ inr (b ∷ buf, rest, rw e refl, omega (arith, size))
]
