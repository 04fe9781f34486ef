-- ===== src/Gateway/Words.antt =====
-- Words in the memory of a target of either byte order, and `to_le` and `from_le` on a word.
use ultra_low_latency_order.Prelude.{
  ℕ, zero, suc, ◌+◌, ◌*◌, ◌/◌, ◌%◌, ◌<◌, ◌≡◌, refl, sym, ◌∙◌, ap, List, [], ◌∷◌, ◌++◌, arith,
  length,
}
use mathlib.Core.List.{append_assoc, append-nil}
use ultra_low_latency_order.Wal.Bytes.{
  le_bytes, read_word, words, read_word-le_bytes, length-le_bytes,
}

-- `cfg(target_endian)`
pub data Endian : Type 0 where
  little : Endian
  big : Endian

-- The bytes of a word on a big-endian target, the most significant first.
unfoldable pub be_bytes : ℕ → ℕ → List ℕ
be_bytes zero n = []
be_bytes (suc w) n = be_bytes w (n / 256) ++ n % 256 ∷ []

-- The number that bytes stand for there, behind those of `acc`.
unfoldable pub be_value : ℕ → List ℕ → ℕ
be_value acc [] = acc
be_value acc (b ∷ bs) = be_value (acc * 256 + b) bs

unfoldable pub read_be : ℕ → ℕ → List ℕ → ℕ × List ℕ
read_be acc zero bs = (acc, bs)
read_be acc (suc w) [] = (acc, [])
read_be acc (suc w) (b ∷ bs) = read_be (acc * 256 + b) w bs

-- A word of `w` bytes with its bytes in the other order.
unfoldable pub swap_bytes : ℕ → ℕ → ℕ
unfolding be_value
swap_bytes w n = be_value 0 (le_bytes w n)

-- `n.to_le()` and `from_le(n)`, which are the same function.
unfoldable pub word_to_le : Endian → ℕ → ℕ → ℕ
unfolding swap_bytes
word_to_le Endian.little w n = n
word_to_le Endian.big w n = swap_bytes w n

-- The memory of a word, and a word from memory with the bytes behind it.
unfoldable pub word_memory : Endian → ℕ → ℕ → List ℕ
word_memory Endian.little w n = le_bytes w n
word_memory Endian.big w n = be_bytes w n

unfoldable pub read_memory : Endian → ℕ → List ℕ → ℕ × List ℕ
read_memory Endian.little w bs = read_word w bs
read_memory Endian.big w bs = read_be 0 w bs

unfoldable AllBytes : List ℕ → Type 0
AllBytes [] = Unit
AllBytes (b ∷ bs) = (b < 256) × AllBytes bs

le_bytes-AllBytes : (w n : ℕ) → AllBytes (le_bytes w n)
unfolding le_bytes AllBytes
le_bytes-AllBytes zero n = tt
le_bytes-AllBytes (suc w) n = (omega arith, le_bytes-AllBytes w (n / 256))

-- The bytes of a value are those that it was read from.
be_bytes-be_value :
    (k acc : ℕ) (bs : List ℕ)
    → AllBytes bs
    → be_bytes (length bs + k) (be_value acc bs) ≡ be_bytes k acc ++ bs
unfolding be_bytes be_value AllBytes length
be_bytes-be_value k acc [] h =
    let e : 0 + k ≡ k = omega arith in
    ap (λ n. be_bytes n acc) e ∙ sym (append-nil (be_bytes k acc))
be_bytes-be_value k acc (b ∷ bs) (h, rest) =
    let e : (1 + length bs) + k ≡ length bs + suc k = omega arith in
    let quotient : (acc * 256 + b) / 256 ≡ acc = omega (arith, h) in
    let byte : (acc * 256 + b) % 256 ≡ b = omega (arith, h) in
    ap (λ n. be_bytes n (be_value (acc * 256 + b) bs)) e
    ∙ be_bytes-be_value (suc k) (acc * 256 + b) bs rest
    ∙ rw (quotient, byte) (append_assoc (be_bytes k acc) (b ∷ []) bs)

-- Swapped bytes in one order are the bytes in the other.
pub be_bytes-swap_bytes : (w n : ℕ) → be_bytes w (swap_bytes w n) ≡ le_bytes w n
unfolding swap_bytes be_bytes
be_bytes-swap_bytes w n =
    let e : length (le_bytes w n) + 0 ≡ w = omega (arith, length-le_bytes w n) in
    sym (ap (λ k. be_bytes k (be_value 0 (le_bytes w n))) e)
    ∙ be_bytes-be_value 0 0 (le_bytes w n) (le_bytes-AllBytes w n)

rev : List ℕ → List ℕ
rev [] = []
rev (b ∷ bs) = rev bs ++ b ∷ []

rev_snoc : (bs : List ℕ) (b : ℕ) → rev (bs ++ b ∷ []) ≡ b ∷ rev bs
unfolding rev
rev_snoc [] b = refl
rev_snoc (c ∷ bs) b = ap (λ l. l ++ c ∷ []) (rev_snoc bs b)

rev-be_bytes : (w n : ℕ) → rev (be_bytes w n) ≡ le_bytes w n
unfolding rev be_bytes le_bytes
rev-be_bytes zero n = refl
rev-be_bytes (suc w) n =
    rev_snoc (be_bytes w (n / 256)) (n % 256) ∙ ap (λ l. n % 256 ∷ l) (rev-be_bytes w (n / 256))

be_value_snoc :
    (acc : ℕ) (bs : List ℕ) (b : ℕ) → be_value acc (bs ++ b ∷ []) ≡ be_value acc bs * 256 + b
unfolding be_value
be_value_snoc acc [] b = refl
be_value_snoc acc (c ∷ bs) b = be_value_snoc (acc * 256 + c) bs b

be_value-rev : (w n : ℕ) → n < words w → be_value 0 (rev (le_bytes w n)) ≡ n
unfolding be_value rev le_bytes words
be_value-rev zero n h = omega (arith, h)
be_value-rev (suc w) n h = omega (
  arith,
  be_value_snoc 0 (rev (le_bytes w (n / 256))) (n % 256),
  be_value-rev w (n / 256) (omega (arith, h)),
)

pub swap_bytes-swap_bytes : (w n : ℕ) → n < words w → swap_bytes w (swap_bytes w n) ≡ n
unfolding swap_bytes
swap_bytes-swap_bytes w n h =
    let e : le_bytes w (swap_bytes w n) ≡ rev (le_bytes w n) =
      sym (rev-be_bytes w (swap_bytes w n)) ∙ ap rev (be_bytes-swap_bytes w n) in
    ap (be_value 0) e ∙ be_value-rev w n h

read_be-be_value :
    (acc : ℕ) (bs rest : List ℕ) → read_be acc (length bs) (bs ++ rest) ≡ (be_value acc bs, rest)
unfolding read_be be_value length
read_be-be_value acc [] rest = refl
read_be-be_value acc (b ∷ bs) rest =
    let e : 1 + length bs ≡ suc (length bs) = omega arith in
    ap (λ n. read_be acc n (b ∷ (bs ++ rest))) e ∙ read_be-be_value (acc * 256 + b) bs rest

read_be-le_bytes :
    (w n : ℕ) (rest : List ℕ) → read_be 0 w (le_bytes w n ++ rest) ≡ (swap_bytes w n, rest)
unfolding swap_bytes
read_be-le_bytes w n rest =
    sym (ap (λ k. read_be 0 k (le_bytes w n ++ rest)) (length-le_bytes w n))
    ∙ read_be-be_value 0 (le_bytes w n) rest

pub word_to_le-word_to_le :
    (e : Endian) (w n : ℕ) → n < words w → word_to_le e w (word_to_le e w n) ≡ n
unfolding word_to_le
word_to_le-word_to_le Endian.little w n h = refl
word_to_le-word_to_le Endian.big w n h = swap_bytes-swap_bytes w n h

-- `to_le` makes the memory of either target little-endian,
pub word_memory-word_to_le :
    (e : Endian) (w n : ℕ) → word_memory e w (word_to_le e w n) ≡ le_bytes w n
unfolding word_memory word_to_le
word_memory-word_to_le Endian.little w n = refl
word_memory-word_to_le Endian.big w n = be_bytes-swap_bytes w n

-- and little-endian memory is read there as the word that `from_le` takes.
pub read_memory-le_bytes :
    (e : Endian) (w n : ℕ) (rest : List ℕ)
    → n < words w
    → read_memory e w (le_bytes w n ++ rest) ≡ (word_to_le e w n, rest)
unfolding read_memory word_to_le
read_memory-le_bytes Endian.little w n rest h = read_word-le_bytes w n rest h
read_memory-le_bytes Endian.big w n rest h = read_be-le_bytes w n rest
