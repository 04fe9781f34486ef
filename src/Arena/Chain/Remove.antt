-- ===== src/Arena/Chain/Remove.antt =====
-- A node is taken out of a list, wherever it stands.
use ultra_low_latency_order.Prelude.{
  ℕ, ◌<◌, ◌≡◌, sym, List, ◌∷◌, ◌++◌, subst, ◌⊎◌, inl, inr, ◌==◌, if◌then◌else◌, eq→==, true, Vec,
}
use ultra_low_latency_order.Arena.Nodes.{null_idx}
use ultra_low_latency_order.Arena.Chain.{
  Links, Absent, Apart, Linked, Apart-head, Apart-tail, Absent-append,
}
use ultra_low_latency_order.Arena.Chain.Ends.{
  last-null, first-null, first-real, first-node, first-fresh, Linked-join, Linked-split,
}
use ultra_low_latency_order.Arena.Chain.Relink.{
  cut, mend, cut-front, cut-back, mend-back, mend-front,
}

module _ {A : Type 0} (links : Links A) (ns : Vec A) (x : ℕ) where
  -- The nodes with the two neighbours of `x` linked to one another.
  abbrev pub closed : Vec A
  closed =
      mend links (cut links ns (links.prev (ns.at x)) (links.next (ns.at x))) (links.next (ns.at x))
        (links.prev (ns.at x))

  module _ (h t : ℕ) (xs ys : List ℕ)
      (whole : Linked links ns null_idx h (xs ++ x ∷ ys) t null_idx) where
    abbrev q : ℕ
    q = links.prev (ns.at x)

    abbrev n : ℕ
    n = links.next (ns.at x)

    -- The list before the node, the node, and the list behind it.
    pub around :
        Apart xs (x ∷ ys)
        × (x < ns.len)
        × Linked links ns null_idx h xs q x
        × Linked links ns x n ys t null_idx
    around =
        let (p, j, apart, l, m) = Linked-split links ns _ _ xs (x ∷ ys) _ _ whole in
        let (back, rest) = first-node links ns p j x ys _ _ m in
        let (inside, fits, e) = first-real links ns p j x ys _ _ m in
        (
          apart,
          inside,
          subst (λ k. Linked links ns null_idx h xs k x) (sym back)
              (subst (λ k. Linked links ns null_idx h xs p k) e l),
          rest,
        )

    -- A neighbour is null or a node.
    pub neighbours :
        (((q == null_idx) ≡ true) ⊎ (q < ns.len)) × (((n == null_idx) ≡ true) ⊎ (n < ns.len))
    neighbours =
        let (apart, inside, l, m) = around in
        (
          elim (last-null links ns _ _ xs _ _ l) [
            | inl (_, _, e) ↦ inl (eq→== _ _ e)
            | inr (k, _) ↦ inr k
          ],
          elim (first-null links ns _ _ ys _ _ m) [
            | inl (_, e, _) ↦ inl (eq→== _ _ e)
            | inr (k, _) ↦ inr k
          ],
        )

    pub closed-Linked :
        Linked links closed null_idx
          (if q == null_idx then n else h)
          (xs ++ ys)
          (if n == null_idx then q else t)
          null_idx
    closed-Linked =
        let (apart, inside, l, m) = around in
        let apart' : Apart xs ys = Apart-tail xs x ys apart in
        let m' : Linked links (cut links ns q n) x n ys t null_idx =
          cut-back links ns q n _ _ xs _ _ ys _ _ apart' l m in
        Linked-join links closed _ _ xs q n ys _ _ apart'
          (mend-front links (cut links ns q n) q n _ _ ys _ _ xs _ _ apart' m'
            (cut-front links ns q n _ _ xs l))
          (mend-back links (cut links ns q n) q n _ _ ys m')

    -- The node is in the list no more.
    pub removed-Absent : Absent x (xs ++ ys)
    removed-Absent =
        let (p, j, apart, l, m) = Linked-split links ns _ _ xs (x ∷ ys) _ _ whole in
        Absent-append x xs ys (Apart-head xs x ys apart) (first-fresh links ns p j x ys _ _ m)
