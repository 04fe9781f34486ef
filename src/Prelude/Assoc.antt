-- ===== src/Prelude/Assoc.antt =====
-- A `HashMap` keyed by u64 as an association list, an array as a function of its index, and the
-- sum of a quantity over a map's values.
use ultra_low_latency_order.Prelude.Tests.{◌==◌, if◌then◌else◌}
use Prim.Native.Nat.{ℕ, ◌+◌, ◌≤◌}
use mathlib.Core.Path.{◌≡◌, refl, fun_ext}
use mathlib.Core.Option.{Option, none, some}
use mathlib.Core.List.{List, [], ◌∷◌}
use native.Mathlib.Omega.{arith}

-- `a[i] = v`
abbrev pub update {ℓ} : {A : Type ℓ} → (ℕ → A) → ℕ → A → ℕ → A
update f i v j = if i == j then v else f j

pub update_self {ℓ} : {A : Type ℓ} (f : ℕ → A) (i : ℕ) → update f i (f i) ≡ f
update_self f i = fun_ext λ j. ground arith

pub update-update {ℓ} :
    {A : Type ℓ} (f : ℕ → A) (i : ℕ) (v w : A) → update (update f i v) i w ≡ update f i w
update-update f i v w = fun_ext λ j. ground arith

abbrev pub Map {ℓ} : Type ℓ → Type ℓ
Map V = List (ℕ × V)

module _ {ℓ} {V : Type ℓ} where
  -- `m.get(&k)`
  unfoldable pub find : ℕ → Map V → Option V
  find k [] = none
  find k ((j, v) ∷ m) = if j == k then some v else find k m

  -- The write through `m.get_mut(&k)`, and `m.insert(k, v)`.
  unfoldable pub put : ℕ → V → Map V → Map V
  put k v [] = (k, v) ∷ []
  put k v ((j, w) ∷ m) = if j == k then (j, v) ∷ m else (j, w) ∷ put k v m

  pub find-put :
      (j k : ℕ) (v : V) (m : Map V) → find j (put k v m) ≡ (if k == j then some v else find j m)
  unfolding find put
  find-put j k v [] = refl
  find-put j k v ((i, w) ∷ m) = ground (arith, find-put j k v m)

  pub put-put : (k : ℕ) (v w : V) (m : Map V) → put k w (put k v m) ≡ put k w m
  unfolding put
  put-put k v w [] = ground arith
  put-put k v w ((j, u) ∷ m) = ground (arith, put-put k v w m)

  pub put-find : (k : ℕ) (v : V) (m : Map V) → find k m ≡ some v → put k v m ≡ m
  unfolding find put
  put-find k v [] h = cc
  put-find k v ((j, w) ∷ m) h = ground (arith, put-find k v m)

  -- The sum of `f` over the values.
  unfoldable pub total : (V → ℕ) → Map V → ℕ
  total f [] = 0
  total f ((j, v) ∷ m) = f v + total f m

  pub total-put :
      (f : V → ℕ) (k : ℕ) (v w : V) (m : Map V)
      → find k m ≡ some w
      → total f (put k v m) + f w ≡ total f m + f v
  unfolding find put total
  total-put f k v w [] h = cc
  total-put f k v w ((j, u) ∷ m) h = ground (arith, total-put f k v w m)

  pub total-put_new :
      (f : V → ℕ) (k : ℕ) (v : V) (m : Map V)
      → find k m ≡ none
      → total f (put k v m) ≡ total f m + f v
  unfolding find put total
  total-put_new f k v [] h = omega arith
  total-put_new f k v ((j, u) ∷ m) h = ground (arith, total-put_new f k v m)

  pub le-total : (f : V → ℕ) (k : ℕ) (w : V) (m : Map V) → find k m ≡ some w → f w ≤ total f m
  unfolding find total
  le-total f k w [] h = cc
  le-total f k w ((j, u) ∷ m) h = ground (arith, le-total f k w m)
