-- ===== src/Arena/Chain/Ends.antt =====
-- Linked nodes at their two ends: the first and the last index, a change of the pointer that leaves
-- the list there, and the joint of two lists.
use ultra_low_latency_order.Prelude.{
  ℕ, ◌<◌, ◌≡◌, ◌≢◌, refl, sym, ◌∙◌, ap, subst, List, [], ◌∷◌, ◌++◌, ◌⊎◌, inl, inr, arith, update,
  Vec,
}
use ultra_low_latency_order.Arena.Nodes.{null_idx}
use ultra_low_latency_order.Arena.Chain.{
  Links, Absent-parts, Absent, Apart, Linked, with_node, Absent-append, Linked-outside,
}

module _ {A : Type 0} (links : Links A) where
  -- The last of some nodes is one of them.
  pub last-in :
      (ns : Vec A) (p i x : ℕ) (xs : List ℕ) (q j : ℕ)
      → Linked links ns p i (x ∷ xs) q j
      → ¬ (Absent q (x ∷ xs))
  unfolding Linked Absent
  last-in ns p i x [] q j (h, inside, fits, back, fresh, (_, e)) (d, a) = d (sym e)
  last-in ns p i x (y ∷ ys) q j (h, inside, fits, back, fresh, rest) (d, a) =
      last-in ns x (links.next (ns.at x)) y ys q j rest a

  -- A list that ends in the null index is empty, and so is one that begins with it.
  pub last-null :
      (ns : Vec A) (p i : ℕ) (xs : List ℕ) (q j : ℕ)
      → Linked links ns p i xs q j
      → ((xs ≡ []) × (i ≡ j) × (q ≡ p)) ⊎ ((q < ns.len) × (q < null_idx))
  unfolding Linked
  last-null ns p i [] q j (a, b) = inl (refl, a, b)
  last-null ns p i (x ∷ xs) q j (h, inside, fits, back, fresh, rest) =
      elim (last-null ns x (links.next (ns.at x)) xs q j rest) [
        | inl (e, f, g) ↦
            inr (subst (λ y. y < ns.len) (sym g) inside, subst (λ y. y < null_idx) (sym g) fits)
        | inr b ↦ inr b
      ]

  pub first-null :
      (ns : Vec A) (p i : ℕ) (xs : List ℕ) (q j : ℕ)
      → Linked links ns p i xs q j
      → ((xs ≡ []) × (i ≡ j) × (q ≡ p)) ⊎ ((i < ns.len) × (i < null_idx))
  unfolding Linked
  first-null ns p i [] q j (a, b) = inl (refl, a, b)
  first-null ns p i (x ∷ xs) q j (h, inside, fits, back, fresh, rest) =
      inr (subst (λ y. y < ns.len) (sym h) inside, subst (λ y. y < null_idx) (sym h) fits)

  -- `next` of the last node is set.
  pub Linked-set_next :
      (ns : Vec A) (p i x : ℕ) (xs : List ℕ) (q j k : ℕ)
      → Linked links ns p i (x ∷ xs) q j
      → Linked links (with_node ns q (links.set_next (ns.at q) k)) p i (x ∷ xs) q k
  unfolding Linked Absent
  Linked-set_next ns p i x [] q j k (h, inside, fits, back, fresh, (_, e)) =
      let here : update ns.at q (links.set_next (ns.at q) k) x ≡ links.set_next (ns.at q) k =
        ground arith in
      (
        h,
        inside,
        fits,
        ap links.prev here
            ∙ links.prev-set_next (ns.at q) k
            ∙ ap (λ y. links.prev (ns.at y)) e
            ∙ back,
        fresh,
        (ap links.next here ∙ links.next-set_next (ns.at q) k, e),
      )
  Linked-set_next ns p i x (y ∷ ys) q j k (h, inside, fits, back, fresh, rest) =
      let other : q ≢ x = λ e.
        last-in ns x (links.next (ns.at x)) y ys q j rest
          (subst (λ z. Absent z (y ∷ ys)) (sym e) fresh) in
      let same : update ns.at q (links.set_next (ns.at q) k) x ≡ ns.at x = ground arith in
      (
        h,
        inside,
        fits,
        ap (λ (m : A). links.prev m) same ∙ back,
        fresh,
        rw same (Linked-set_next ns x (links.next (ns.at x)) y ys q j k rest),
      )

  -- `prev` of the first node is set.
  pub Linked-set_prev :
      (ns : Vec A) (p i x : ℕ) (xs : List ℕ) (q j k : ℕ)
      → Linked links ns p i (x ∷ xs) q j
      → Linked links (with_node ns x (links.set_prev (ns.at x) k)) k i (x ∷ xs) q j
  unfolding Linked
  Linked-set_prev ns p i x xs q j k (h, inside, fits, back, fresh, rest) =
      let v : A = links.set_prev (ns.at x) k in
      let here : update ns.at x v x ≡ v = ground arith in
      (
        h,
        inside,
        fits,
        ap links.prev here ∙ links.prev-set_prev (ns.at x) k,
        fresh,
        rw (here, links.next-set_prev (ns.at x) k)
            (Linked-outside links ns x v x (links.next (ns.at x)) xs q j fresh rest),
      )

  -- Two lists of which the second goes on where the first stops are one.
  pub Linked-join :
      (ns : Vec A) (p i : ℕ) (xs : List ℕ) (q j : ℕ) (ys : List ℕ) (r k : ℕ)
      → Apart xs ys
      → Linked links ns p i xs q j
      → Linked links ns q j ys r k
      → Linked links ns p i (xs ++ ys) r k
  unfolding Linked Apart
  Linked-join ns p i [] q j ys r k apart (a, b) m =
      subst (λ y. Linked links ns p y ys r k) (sym a) (subst (λ y. Linked links ns y j ys r k) b m)
  Linked-join ns p i (x ∷ xs) q j ys r k (d, apart) (h, inside, fits, back, fresh, rest) m = (
    h,
    inside,
    fits,
    back,
    Absent-append x xs ys fresh d,
    Linked-join ns x (links.next (ns.at x)) xs q j ys r k apart rest m,
  )

  -- And a list is split anywhere.
  pub Linked-split :
      (ns : Vec A) (p i : ℕ) (xs ys : List ℕ) (r k : ℕ)
      → Linked links ns p i (xs ++ ys) r k
      → (q j : ℕ) × Apart xs ys × Linked links ns p i xs q j × Linked links ns q j ys r k
  unfolding Linked Apart
  Linked-split ns p i [] ys r k m = (p, i, tt, (refl, refl), m)
  Linked-split ns p i (x ∷ xs) ys r k (h, inside, fits, back, fresh, rest) =
      let (q, j, apart, l, m) = Linked-split ns x (links.next (ns.at x)) xs ys r k rest in
      let (clear, d) = Absent-parts x xs ys fresh in
      (q, j, (d, apart), (h, inside, fits, back, clear, l), m)

  -- One node by itself.
  pub Linked-one :
      (ns : Vec A) (p n j : ℕ)
      → n < ns.len
      → n < null_idx
      → (links.prev (ns.at n)) ≡ p
      → (links.next (ns.at n)) ≡ j
      → Linked links ns p n (n ∷ []) n j
  unfolding Linked Absent
  Linked-one ns p n j inside fits back on = (refl, inside, fits, back, tt, (on, refl))

  -- The last of some nodes is an index of the arena, and so is the first.
  pub last-real :
      (ns : Vec A) (p i x : ℕ) (xs : List ℕ) (q j : ℕ)
      → Linked links ns p i (x ∷ xs) q j
      → (q < ns.len) × (q < null_idx)
  last-real ns p i x xs q j l = elim (last-null ns p i (x ∷ xs) q j l) [
    | inl (e, _, _) ↦ absurd cc
    | inr b ↦ b
  ]

  pub first-real :
      (ns : Vec A) (p i x : ℕ) (xs : List ℕ) (q j : ℕ)
      → Linked links ns p i (x ∷ xs) q j
      → (x < ns.len) × (x < null_idx) × (i ≡ x)
  unfolding Linked
  first-real ns p i x xs q j (h, inside, fits, back, fresh, rest) = (inside, fits, h)

  pub empty-last : (ns : Vec A) (p i q j : ℕ) → Linked links ns p i [] q j → q ≡ p
  unfolding Linked
  empty-last ns p i q j (a, b) = b

  pub first-empty : (ns : Vec A) (p i q j : ℕ) → Linked links ns p i [] q j → i ≡ j
  unfolding Linked
  first-empty ns p i q j (a, b) = a

  pub Linked-nil : (ns : Vec A) (p i j : ℕ) → i ≡ j → Linked links ns p i [] p j
  unfolding Linked
  Linked-nil ns p i j e = (e, refl)

  -- The last of some nodes is in no list that is apart from them.
  pub last-Apart :
      (ns : Vec A) (p i x : ℕ) (xs : List ℕ) (q j : ℕ) (zs : List ℕ)
      → Linked links ns p i (x ∷ xs) q j
      → Apart (x ∷ xs) zs
      → Absent q zs
  unfolding Linked Apart
  last-Apart ns p i x [] q j zs (h, inside, fits, back, fresh, (_, e)) (d, a) =
      subst (λ y. Absent y zs) (sym e) d
  last-Apart ns p i x (y ∷ ys) q j zs (h, inside, fits, back, fresh, rest) (d, a) =
      last-Apart ns x (links.next (ns.at x)) y ys q j zs rest a

  pub first-fresh :
      (ns : Vec A) (p i x : ℕ) (xs : List ℕ) (q j : ℕ)
      → Linked links ns p i (x ∷ xs) q j
      → Absent x xs
  unfolding Linked
  first-fresh ns p i x xs q j (h, inside, fits, back, fresh, rest) = fresh

  pub first-node :
      (ns : Vec A) (p i x : ℕ) (xs : List ℕ) (q j : ℕ)
      → Linked links ns p i (x ∷ xs) q j
      → (links.prev (ns.at x) ≡ p) × Linked links ns x (links.next (ns.at x)) xs q j
  unfolding Linked
  first-node ns p i x xs q j (h, inside, fits, back, fresh, rest) = (back, rest)
