-- ===== src/Prelude/Sizes.antt =====
-- The length and the sum of a list, on the native numbers.
use Prim.Native.Nat.{ℕ, ◌+◌}
use mathlib.Core.Path.{◌≡◌}
use mathlib.Core.List.{List, [], ◌∷◌, ◌++◌}
use native.Mathlib.Omega.{arith}

module _ {ℓ} {A : Type ℓ} where
  unfoldable pub length : List A → ℕ
  length [] = 0
  length (x ∷ xs) = 1 + length xs

  pub length_append : (xs ys : List A) → length (xs ++ ys) ≡ length xs + length ys
  unfolding length
  length_append [] ys = omega arith
  length_append (x ∷ xs) ys = omega (arith, length_append xs ys)

  pub length_one : (x : A) → length (x ∷ []) ≡ 1
  unfolding length
  length_one x = omega arith

  pub length-middle :
      (xs : List A) (x : A) (ys : List A) → length (xs ++ x ∷ ys) ≡ 1 + length (xs ++ ys)
  unfolding length
  length-middle [] x ys = omega arith
  length-middle (y ∷ xs) x ys = omega (arith, length-middle xs x ys)

  -- The sum of `f` over a list.
  unfoldable pub sum : (A → ℕ) → List A → ℕ
  sum f [] = 0
  sum f (x ∷ xs) = f x + sum f xs

  pub sum_append : (f : A → ℕ) (xs ys : List A) → sum f (xs ++ ys) ≡ sum f xs + sum f ys
  unfolding sum
  sum_append f [] ys = omega arith
  sum_append f (x ∷ xs) ys = omega (arith, sum_append f xs ys)

  pub sum_one : (f : A → ℕ) (x : A) → sum f (x ∷ []) ≡ f x
  unfolding sum
  sum_one f x = omega arith
