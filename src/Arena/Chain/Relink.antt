-- ===== src/Arena/Chain/Relink.antt =====
-- The two conditional writes by which nodes are taken out of a list or put into it: to the `next` of
-- the node before the gap and to the `prev` of the node behind it.
use ultra_low_latency_order.Prelude.{
  ℕ, ◌<◌, ◌≡◌, refl, sym, List, [], ◌∷◌, subst, Bool-cases, ◌⊎◌, inl, inr, ◌==◌, if◌then◌else◌,
  eq→==, true, false, Exec, done, arith, Vec,
}
use ultra_low_latency_order.Arena.Nodes.{null_idx}
use ultra_low_latency_order.Arena.Chain.{
  Links, with_node, Absent, Apart, Linked, Linked-outside, Apart-head,
}
use ultra_low_latency_order.Arena.Chain.Ends.{
  Linked-set_next, Linked-set_prev, last-real, first-real, empty-last, first-empty, Linked-nil,
  last-Apart,
}

module _ {A : Type 0} (links : Links A) where
  pub cut : Vec A → ℕ → ℕ → Vec A
  cut ns q n = if q == null_idx then ns else with_node ns q (links.set_next (ns.at q) n)

  pub mend : Vec A → ℕ → ℕ → Vec A
  mend ns n q = if n == null_idx then ns else with_node ns n (links.set_prev (ns.at n) q)

  module _ (ns : Vec A) (q n : ℕ) where
    pub cut-null : (q == null_idx) ≡ true → cut ns q n ≡ ns
    unfolding cut
    cut-null e = rw e refl

    pub cut-real :
        (q == null_idx) ≡ false → cut ns q n ≡ with_node ns q (links.set_next (ns.at q) n)
    unfolding cut
    cut-real e = rw e refl

    pub mend-null : (n == null_idx) ≡ true → mend ns n q ≡ ns
    unfolding mend
    mend-null e = rw e refl

    pub mend-real :
        (n == null_idx) ≡ false → mend ns n q ≡ with_node ns n (links.set_prev (ns.at n) q)
    unfolding mend
    mend-real e = rw e refl

    -- The write returns, whatever the operation that makes it is called.
    pub cut-done :
        (set_next : Vec A → ℕ → ℕ → Exec (Vec A))
        → (q < ns.len → set_next ns q n ≡ done (with_node ns q (links.set_next (ns.at q) n)))
        → ((q == null_idx) ≡ true) ⊎ (q < ns.len)
        → (if q == null_idx then done ns else set_next ns q n) ≡ done (cut ns q n)
    unfolding cut
    cut-done set_next sets (inl e) = rw e refl
    cut-done set_next sets (inr h) = elim (Bool-cases (q == null_idx)) [
      | inl e ↦ rw e refl
      | inr e ↦ rw e (sets h)
    ]

    pub mend-done :
        (set_prev : Vec A → ℕ → ℕ → Exec (Vec A))
        → (n < ns.len → set_prev ns n q ≡ done (with_node ns n (links.set_prev (ns.at n) q)))
        → ((n == null_idx) ≡ true) ⊎ (n < ns.len)
        → (if n == null_idx then done ns else set_prev ns n q) ≡ done (mend ns n q)
    unfolding mend
    mend-done set_prev sets (inl e) = rw e refl
    mend-done set_prev sets (inr h) = elim (Bool-cases (n == null_idx)) [
      | inl e ↦ rw e refl
      | inr e ↦ rw e (sets h)
    ]

    -- The list up to `q` goes on at `n`.
    pub cut-front :
        (h j : ℕ) (xs : List ℕ)
        → Linked links ns null_idx h xs q j
        → Linked links (cut ns q n) null_idx (if q == null_idx then n else h) xs q n
    cut-front h j [] l =
        let nil : (q == null_idx) ≡ true = eq→== _ _ (empty-last links ns _ _ _ _ l) in
        rw nil (
          subst (λ k. Linked links (cut ns q n) k n [] q n) (empty-last links ns _ _ _ _ l)
            (Linked-nil links (cut ns q n) q n n refl))
    cut-front h j (x ∷ xs) l =
        let (inside, fits) = last-real links ns _ _ x xs _ _ l in
        let some : (q == null_idx) ≡ false = ground arith in
        rw (cut-real some, some) (Linked-set_next links ns _ _ x xs _ _ n l)

    -- A list apart from it stays as it was.
    pub cut-back :
        (h j : ℕ) (xs : List ℕ) (p i : ℕ) (zs : List ℕ) (r k : ℕ)
        → Apart xs zs
        → Linked links ns null_idx h xs q j
        → Linked links ns p i zs r k
        → Linked links (cut ns q n) p i zs r k
    cut-back h j [] p i zs r k apart l m =
        let nil : (q == null_idx) ≡ true = eq→== _ _ (empty-last links ns _ _ _ _ l) in
        rw (cut-null nil) m
    cut-back h j (x ∷ xs) p i zs r k apart l m =
        let (inside, fits) = last-real links ns _ _ x xs _ _ l in
        let some : (q == null_idx) ≡ false = ground arith in
        rw (cut-real some)
          (Linked-outside links ns q _ p i zs r k (last-Apart links ns _ _ x xs _ _ zs l apart) m)

    -- The list from `n` on begins behind `q`.
    pub mend-back :
        (p r : ℕ) (ys : List ℕ)
        → Linked links ns p n ys r null_idx
        → Linked links (mend ns n q) q n ys (if n == null_idx then q else r) null_idx
    mend-back p r [] l =
        let e : n ≡ null_idx = first-empty links ns _ _ _ _ l in
        let nil : (n == null_idx) ≡ true = eq→== _ _ e in
        rw nil (Linked-nil links (mend ns n q) q n null_idx e)
    mend-back p r (y ∷ ys) l =
        let (inside, fits, e) = first-real links ns _ _ y ys _ _ l in
        let some : (n == null_idx) ≡ false = ground arith in
        let m : Linked links (with_node ns y (links.set_prev (ns.at y) q)) q n (y ∷ ys) r null_idx =
          Linked-set_prev links ns _ _ y ys _ _ q l in
        rw (mend-real some, some)
          (subst
            (λ z.
              Linked links (with_node ns z (links.set_prev (ns.at z) q)) q n (y ∷ ys) r null_idx)
            (sym e) m)

    pub mend-front :
        (h r : ℕ) (ys : List ℕ) (p i : ℕ) (xs : List ℕ) (t j : ℕ)
        → Apart xs ys
        → Linked links ns h n ys r null_idx
        → Linked links ns p i xs t j
        → Linked links (mend ns n q) p i xs t j
    mend-front h r [] p i xs t j apart l m =
        let nil : (n == null_idx) ≡ true = eq→== _ _ (first-empty links ns _ _ _ _ l) in
        rw (mend-null nil) m
    mend-front h r (y ∷ ys) p i xs t j apart l m =
        let (inside, fits, e) = first-real links ns _ _ y ys _ _ l in
        let some : (n == null_idx) ≡ false = ground arith in
        rw (mend-real some) (
          Linked-outside links ns n _ p i xs t j
            (subst (λ z. Absent z xs) (sym e) (Apart-head xs y ys apart)) m)
