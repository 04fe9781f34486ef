-- ===== src/Arena/Chain/Insert.antt =====
-- A node is put into a list, wherever its place is.
use ultra_low_latency_order.Prelude.{
  ℕ, ◌<◌, ◌≡◌, refl, ap, List, [], ◌∷◌, ◌++◌, ◌==◌, if◌then◌else◌, Vec,
}
use ultra_low_latency_order.Arena.Nodes.{null_idx}
use ultra_low_latency_order.Arena.Chain.{Links, Absent, Apart, Linked, Apart-cons, Apart-single}
use ultra_low_latency_order.Arena.Chain.Ends.{Linked-join, Linked-one}
use ultra_low_latency_order.Arena.Chain.Relink.{mend, mend-back, mend-front}

pub append-snoc : (xs : List ℕ) (x : ℕ) (ys : List ℕ) → xs ++ x ∷ ys ≡ (xs ++ x ∷ []) ++ ys
append-snoc [] x ys = refl
append-snoc (y ∷ xs) x ys = ap (λ zs. y ∷ zs) (append-snoc xs x ys)

module _ {A : Type 0} (links : Links A) where
  -- The last node of a list, and what follows it.
  pub last-node :
      (ns : Vec A) (p i : ℕ) (xs : List ℕ) (x q j : ℕ)
      → Linked links ns p i (xs ++ x ∷ []) q j
      → (q ≡ x) × (links.next (ns.at x) ≡ j)
  unfolding Linked
  last-node ns p i [] x q j (h, inside, fits, back, fresh, (on, e)) = (e, on)
  last-node ns p i (y ∷ xs) x q j (h, inside, fits, back, fresh, rest) =
      last-node ns y (links.next (ns.at y)) xs x q j rest

  -- A node that points to both sides of a gap, to which the nodes before the gap lead, is in the
  -- list when the node behind the gap points back to it.
  pub spliced :
      (ns : Vec A) (n h : ℕ) (xs : List ℕ) (q j p : ℕ) (ys : List ℕ) (r : ℕ)
      → n < ns.len
      → n < null_idx
      → (links.prev (ns.at n)) ≡ q
      → (links.next (ns.at n)) ≡ j
      → Absent n xs
      → Absent n ys
      → Apart xs ys
      → Linked links ns null_idx h xs q n
      → Linked links ns p j ys r null_idx
      → Linked links
          (mend links ns j n)
          null_idx
          h
          (xs ++ n ∷ ys)
          (if j == null_idx then n else r)
          null_idx
  spliced ns n h xs q j p ys r inside fits back on before after apart l m =
      let one : Linked links ns q n (n ∷ []) n j = Linked-one links ns q n j inside fits back on in
      let apart' : Apart (n ∷ []) ys = Apart-single n ys after in
      Linked-join links _ _ _ xs q n (n ∷ ys) _ _ (Apart-cons xs n ys before apart)
        (mend-front links ns n j p r ys _ _ xs _ _ apart m l)
        (Linked-join links _ _ _ (n ∷ []) n j ys _ _ apart'
          (mend-front links ns n j p r ys _ _ (n ∷ []) _ _ apart' m one)
          (mend-back links ns n j p r ys m))
