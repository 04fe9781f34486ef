-- ===== src/Book/Ladder/Sorted.antt =====
-- The order of a ladder: better prices first.
use ultra_low_latency_order.Prelude.{
  ℕ, ◌≡◌, ◌≢◌, ap, Bool, true, false, List, [], ◌∷◌, ◌++◌, if◌then◌else◌, Bool-cases, inl, inr,
  arith, fun_ext,
}
use ultra_low_latency_order.Arena.Nodes.{PriceLevelNode}
use ultra_low_latency_order.Book.Ladder.{LevelNodes, better}
use ultra_low_latency_order.Book.Ladder.Rungs.{IsRehung}

abbrev pub price_at : LevelNodes → ℕ → ℕ
price_at ns x = (ns.at x).price

pub better_trans :
    (s : Bool) (p q r : ℕ) → better s p q ≡ true → better s q r ≡ true → better s p r ≡ true
better_trans true p q r h k = ground arith
better_trans false p q r h k = ground arith

pub better_total : (s : Bool) (p q : ℕ) → better s p q ≡ false → q ≢ p → better s q p ≡ true
better_total true p q h k = ground arith
better_total false p q h k = ground arith

pub better_asym : (s : Bool) (p q : ℕ) → better s p q ≡ true → better s q p ≡ false
better_asym true p q h = ground arith
better_asym false p q h = ground arith

module _ (s : Bool) (price : ℕ → ℕ) where
  -- The price of `x` is better than that of each of the levels.
  unfoldable pub Ahead : ℕ → List ℕ → Type 0
  Ahead x [] = Unit
  Ahead x (y ∷ ys) = (better s (price x) (price y) ≡ true) × Ahead x ys

  unfoldable pub IsSorted : List ℕ → Type 0
  unfolding Ahead
  IsSorted [] = Unit
  IsSorted (x ∷ xs) = Ahead x xs × IsSorted xs

  -- The levels with `n` at the place of its price: the reference for `link_price_level`.
  unfoldable pub place : ℕ → List ℕ → List ℕ
  place n [] = n ∷ []
  place n (x ∷ xs) = if better s (price n) (price x) then n ∷ x ∷ xs else x ∷ place n xs

  -- No level has the price of `n`.
  unfoldable pub IsNewPrice : ℕ → List ℕ → Type 0
  IsNewPrice n [] = Unit
  IsNewPrice n (y ∷ ys) = (price y ≢ price n) × IsNewPrice n ys

  Ahead-trans :
      (x y : ℕ) (zs : List ℕ) → better s (price x) (price y) ≡ true → Ahead y zs → Ahead x zs
  unfolding Ahead
  Ahead-trans x y [] h a = tt
  Ahead-trans x y (z ∷ zs) h (k, a) =
      (better_trans s (price x) (price y) (price z) h k, Ahead-trans x y zs h a)

  Ahead-place :
      (x n : ℕ) (ys : List ℕ)
      → better s (price x) (price n) ≡ true
      → Ahead x ys
      → Ahead x (place n ys)
  unfolding Ahead place
  Ahead-place x n [] h a = (h, tt)
  Ahead-place x n (y ∷ ys) h (k, a) = elim (Bool-cases (better s (price n) (price y))) [
    | inl e ↦ rw e (h, (k, a))
    | inr e ↦ rw e (k, Ahead-place x n ys h a)
  ]

  -- A level of a new price is put where the order stays strict.
  pub place-IsSorted : (n : ℕ) (xs : List ℕ) → IsNewPrice n xs → IsSorted xs → IsSorted (place n xs)
  unfolding IsSorted Ahead place IsNewPrice
  place-IsSorted n [] new sorted = (tt, tt)
  place-IsSorted n (x ∷ xs) (d, new) (a, sorted) =
      elim (Bool-cases (better s (price n) (price x))) [
        | inl e ↦ rw e ((e, Ahead-trans n x xs e a), (a, sorted))
        | inr e ↦ rw e (
          Ahead-place x n xs (better_total s (price n) (price x) e d) a,
          place-IsSorted n xs new sorted,
        )
      ]

  Ahead-remove : (y x : ℕ) (xs ys : List ℕ) → Ahead y (xs ++ x ∷ ys) → Ahead y (xs ++ ys)
  unfolding Ahead
  Ahead-remove y x [] ys (h, a) = a
  Ahead-remove y x (z ∷ xs) ys (h, a) = (h, Ahead-remove y x xs ys a)

  pub IsSorted-remove :
      (xs : List ℕ) (x : ℕ) (ys : List ℕ) → IsSorted (xs ++ x ∷ ys) → IsSorted (xs ++ ys)
  unfolding IsSorted
  IsSorted-remove [] x ys (a, h) = h
  IsSorted-remove (z ∷ xs) x ys (a, h) = (Ahead-remove z x xs ys a, IsSorted-remove xs x ys h)

-- Prices are the same when nothing but pointers differs.
pub price-rehung : (ns ns' : LevelNodes) → IsRehung ns ns' → price_at ns' ≡ price_at ns
price-rehung ns ns' h = fun_ext λ x. ap (λ (node : PriceLevelNode). node.price) (h.same x)
