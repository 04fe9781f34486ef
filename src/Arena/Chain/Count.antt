-- ===== src/Arena/Chain/Count.antt =====
-- A list of linked nodes is no longer than the arena.
use ultra_low_latency_order.Prelude.{
  ℕ, zero, suc, subst, ◌+◌, ◌≤◌, ◌<◌, ◌≡◌, refl, List, [], ◌∷◌, if◌then◌else◌, Bool-cases, inl, inr,
  ◌==◌, arith, length, Vec,
}
use ultra_low_latency_order.Arena.Chain.{Links, Absent, Linked}

-- The indices other than `m`.
drop : ℕ → List ℕ → List ℕ
drop m [] = []
drop m (x ∷ xs) = if x == m then drop m xs else x ∷ drop m xs

unfoldable AllBelow : ℕ → List ℕ → Type 0
AllBelow m [] = Unit
AllBelow m (x ∷ xs) = (x < m) × AllBelow m xs

unfoldable IsDistinct : List ℕ → Type 0
IsDistinct [] = Unit
IsDistinct (x ∷ xs) = Absent x xs × IsDistinct xs

drop-Absent : (x m : ℕ) (xs : List ℕ) → Absent x xs → Absent x (drop m xs)
unfolding drop Absent
drop-Absent x m [] a = tt
drop-Absent x m (y ∷ xs) (d, a) = elim (Bool-cases (y == m)) [
  | inl e ↦ rw e (drop-Absent x m xs a)
  | inr e ↦ rw e (d, drop-Absent x m xs a)
]

drop-IsDistinct : (m : ℕ) (xs : List ℕ) → IsDistinct xs → IsDistinct (drop m xs)
unfolding drop IsDistinct
drop-IsDistinct m [] d = tt
drop-IsDistinct m (x ∷ xs) (a, d) = elim (Bool-cases (x == m)) [
  | inl e ↦ rw e (drop-IsDistinct m xs d)
  | inr e ↦ rw e (drop-Absent x m xs a, drop-IsDistinct m xs d)
]

drop-AllBelow : (m : ℕ) (xs : List ℕ) → AllBelow (suc m) xs → AllBelow m (drop m xs)
unfolding drop AllBelow
drop-AllBelow m [] b = tt
drop-AllBelow m (x ∷ xs) (h, b) = elim (Bool-cases (x == m)) [
  | inl e ↦ rw e (drop-AllBelow m xs b)
  | inr e ↦ rw e (ground arith, drop-AllBelow m xs b)
]

length-drop_other : (m : ℕ) (xs : List ℕ) → Absent m xs → length (drop m xs) ≡ length xs
unfolding drop Absent length
length-drop_other m [] a = refl
length-drop_other m (x ∷ xs) (d, a) = elim (Bool-cases (x == m)) [
  | inl e ↦ absurd (d (ground arith))
  | inr e ↦ rw e (omega (arith, length-drop_other m xs a))
]

length-drop : (m : ℕ) (xs : List ℕ) → IsDistinct xs → length xs ≤ 1 + length (drop m xs)
unfolding drop IsDistinct length
length-drop m [] d = omega arith
length-drop m (x ∷ xs) (a, d) = elim (Bool-cases (x == m)) [
  | inl e ↦
      let same : x ≡ m = ground arith in
      rw e (omega (arith, length-drop_other m xs (subst (λ y. Absent y xs) same a)))
  | inr e ↦ rw e (omega (arith, length-drop m xs d))
]

-- Distinct numbers below a bound are no more than it.
length-bound : (m : ℕ) (xs : List ℕ) → IsDistinct xs → AllBelow m xs → length xs ≤ m
unfolding AllBelow length
length-bound zero [] d b = omega arith
length-bound zero (x ∷ xs) d (h, b) = absurd (omega arith)
length-bound (suc m) xs d b = omega (
  arith,
  length-drop m xs d,
  length-bound m (drop m xs) (drop-IsDistinct m xs d) (drop-AllBelow m xs b),
)

module _ {A : Type 0} (links : Links A) where
  Linked-IsDistinct :
      (ns : Vec A) (p i : ℕ) (xs : List ℕ) (q j : ℕ)
      → Linked links ns p i xs q j
      → IsDistinct xs × AllBelow ns.len xs
  unfolding Linked IsDistinct AllBelow
  Linked-IsDistinct ns p i [] q j l = (tt, tt)
  Linked-IsDistinct ns p i (x ∷ xs) q j (h, inside, fits, back, fresh, rest) =
      let (d, b) = Linked-IsDistinct ns x (links.next (ns.at x)) xs q j rest in
      ((fresh, d), (inside, b))

  pub Linked-length :
      (ns : Vec A) (p i : ℕ) (xs : List ℕ) (q j : ℕ)
      → Linked links ns p i xs q j
      → length xs ≤ ns.len
  Linked-length ns p i xs q j l =
      let (d, b) = Linked-IsDistinct ns p i xs q j l in length-bound ns.len xs d b
