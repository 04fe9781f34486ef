-- ===== src/Book/Ladder/Insert.antt =====
-- The writes of `link_price_level`: a level is put in before the others or behind one of them.
use ultra_low_latency_order.Prelude.{
  ℕ, ◌<◌, ◌≡◌, refl, sym, List, [], ◌∷◌, ◌++◌, subst, ◌⊎◌, inl, inr, ◌==◌, if◌then◌else◌, eq→==,
  true, false, done, read-done, arith,
}
use ultra_low_latency_order.Arena.Nodes.{null_idx}
use ultra_low_latency_order.Arena.Chain.{
  Absent, Apart, Linked, Linked-outside, Apart-sym, Apart-at, Absent-parts,
}
use ultra_low_latency_order.Arena.Chain.Ends.{Linked-split, Linked-nil, first-null, first-real}
use ultra_low_latency_order.Arena.Chain.Relink.{
  cut, mend, cut-real, cut-front, mend-done, mend-front,
}
use ultra_low_latency_order.Arena.Chain.Insert.{append-snoc, last-node, spliced}
use ultra_low_latency_order.Book.Ladder.{LevelNodes, set_prev_level, link_front, link_behind}
use ultra_low_latency_order.Book.Ladder.Rungs.{
  level_links, with_next, with_prev, set_next_level-done, set_prev_level-done, IsRehung,
  IsRehung-trans, IsRehung-with_next, IsRehung-with_prev, mend-IsRehung,
}

last-Absent : (c : ℕ) (xs ys : List ℕ) → Apart (xs ++ c ∷ []) ys → Absent c ys
last-Absent c xs ys apart = let (a, _) = Apart-at xs c [] ys apart in a

-- The levels `xs` are linked from `h`, and the last of them has none behind it.
abbrev pub Hangs : LevelNodes → ℕ → List ℕ → Type 0
Hangs ns h xs = (t : ℕ) × Linked level_links ns null_idx h xs t null_idx

module _ (ns : LevelNodes) (n h : ℕ) where
  abbrev pointed : LevelNodes
  pointed = with_prev (with_next ns n h) n null_idx

  abbrev pub fronted : LevelNodes
  fronted = mend level_links pointed h n

  pub fronted-IsRehung : IsRehung ns fronted
  fronted-IsRehung =
      IsRehung-trans ns pointed fronted
        (IsRehung-trans ns _ pointed (IsRehung-with_next ns n h) (IsRehung-with_prev _ n null_idx))
        (mend-IsRehung pointed n h)

  pub link_front-done :
      n < ns.len → ((h == null_idx) ≡ true) ⊎ (h < ns.len) → link_front ns n h ≡ done fronted
  unfolding link_front
  link_front-done inside head =
      rw
        (
          set_next_level-done ns n h inside,
          set_prev_level-done (with_next ns n h) n null_idx inside,
        )
        (mend-done level_links pointed n h set_prev_level (set_prev_level-done pointed h n) head)

  module _ (xs : List ℕ) (t : ℕ) (l : Linked level_links ns null_idx h xs t null_idx)
      (fresh : Absent n xs) where
    pub head-inside : ((h == null_idx) ≡ true) ⊎ (h < ns.len)
    head-inside = elim (first-null level_links ns _ _ xs _ _ l) [
      | inl (_, e, _) ↦ inl (eq→== _ _ e)
      | inr (k, _) ↦ inr k
    ]

    pointed-Linked :
        (zs : List ℕ) (p i r k : ℕ)
        → Absent n zs
        → Linked level_links ns p i zs r k
        → Linked level_links pointed p i zs r k
    pointed-Linked zs p i r k a m =
        Linked-outside level_links _ n _ _ _ zs _ _ a
          (Linked-outside level_links ns n _ _ _ zs _ _ a m)

    pub fronted-Hangs : n < ns.len → n < null_idx → Hangs fronted n (n ∷ xs)
    unfolding Apart Absent
    fronted-Hangs inside fits = (
      if h == null_idx then n else t,
      spliced level_links pointed n n [] null_idx h null_idx xs t inside fits (ground arith)
          (ground arith) tt fresh tt (Linked-nil level_links pointed null_idx n n refl)
          (pointed-Linked xs null_idx h t null_idx fresh l),
    )

    pub fronted-others :
        (zs : List ℕ) (p i r k : ℕ)
        → Absent n zs
        → Apart xs zs
        → Linked level_links ns p i zs r k
        → Linked level_links fronted p i zs r k
    fronted-others zs p i r k a apart m =
        mend-front level_links pointed n h _ _ xs _ _ zs _ _ (Apart-sym xs zs apart)
          (pointed-Linked xs null_idx h t null_idx fresh l) (pointed-Linked zs p i r k a m)

module _ (ns : LevelNodes) (n c : ℕ) where
  abbrev j : ℕ
  j = (ns.at c).next_level

  abbrev led : LevelNodes
  led = with_next ns c n

  abbrev placed : LevelNodes
  placed = with_next (with_prev led n c) n j

  abbrev pub followed : LevelNodes
  followed = mend level_links placed j n

  pub followed-IsRehung : IsRehung ns followed
  followed-IsRehung =
      IsRehung-trans ns placed followed
        (IsRehung-trans ns _ placed
          (IsRehung-trans ns led _ (IsRehung-with_next ns c n) (IsRehung-with_prev led n c))
          (IsRehung-with_next _ n j))
        (mend-IsRehung placed n j)

  pub link_behind-done :
      n < ns.len
      → c < ns.len
      → ((j == null_idx) ≡ true) ⊎ (j < ns.len)
      → link_behind ns n c ≡ done followed
  unfolding link_behind
  link_behind-done inside within behind =
      rw
        (
          set_next_level-done ns c n within,
          read-done ns c within,
          set_prev_level-done led n c inside,
          set_next_level-done (with_prev led n c) n j inside,
        )
        (mend-done level_links placed n j set_prev_level (set_prev_level-done placed j n) behind)

  module _ (h : ℕ) (xs ys : List ℕ) (t : ℕ)
      (l : Linked level_links ns null_idx h (xs ++ c ∷ ys) t null_idx)
      (fresh : Absent n (xs ++ c ∷ ys)) where
    -- The list up to `c`, and the list behind it.
    halves :
        Apart (xs ++ c ∷ []) ys
        × (c < ns.len)
        × (c < null_idx)
        × Linked level_links ns null_idx h (xs ++ c ∷ []) c j
        × Linked level_links ns c j ys t null_idx
    halves =
        let l' =
          subst (λ zs. Linked level_links ns null_idx h zs t null_idx) (append-snoc xs c ys) l in
        let (q, k, apart, a, b) = Linked-split level_links ns _ _ (xs ++ c ∷ []) ys _ _ l' in
        let (e, f) = last-node level_links ns _ _ xs c q k a in
        let (q', k', _, a', b') = Linked-split level_links ns _ _ xs (c ∷ ys) _ _ l in
        let (inside, fits, _) = first-real level_links ns _ _ c ys _ _ b' in
        (
          apart,
          inside,
          fits,
          subst (λ m. Linked level_links ns null_idx h (xs ++ c ∷ []) c m) (sym f)
              (subst (λ m. Linked level_links ns null_idx h (xs ++ c ∷ []) m k) e a),
          subst (λ m. Linked level_links ns c m ys t null_idx) (sym f)
              (subst (λ m. Linked level_links ns m k ys t null_idx) e b),
        )

    pub behind-inside : (c < ns.len) × (((j == null_idx) ≡ true) ⊎ (j < ns.len))
    behind-inside =
        let (apart, inside, fits, a, b) = halves in
        (
          inside,
          elim (first-null level_links ns _ _ ys _ _ b) [
            | inl (_, e, _) ↦ inl (eq→== _ _ e)
            | inr (k, _) ↦ inr k
          ],
        )

    placed-Linked :
        (zs : List ℕ) (p i r k : ℕ)
        → Absent n zs
        → Linked level_links led p i zs r k
        → Linked level_links placed p i zs r k
    placed-Linked zs p i r k a m =
        Linked-outside level_links _ n _ _ _ zs _ _ a
          (Linked-outside level_links led n _ _ _ zs _ _ a m)

    led-Linked :
        (zs : List ℕ) (p i r k : ℕ)
        → Absent c zs
        → Linked level_links ns p i zs r k
        → Linked level_links led p i zs r k
    led-Linked zs p i r k a m = Linked-outside level_links ns c _ _ _ zs _ _ a m

    pub followed-Hangs : n < ns.len → n < null_idx → Hangs followed h (xs ++ c ∷ n ∷ ys)
    followed-Hangs inside fits =
        let (apart, _, fits_c, a, b) = halves in
        let some : (c == null_idx) ≡ false = ground arith in
        let (before, after) =
          Absent-parts n (xs ++ c ∷ []) ys
            (subst (λ zs. Absent n zs) (append-snoc xs c ys) fresh) in
        let front : Linked level_links led null_idx h (xs ++ c ∷ []) c n =
          subst (λ ms. Linked level_links ms null_idx h (xs ++ c ∷ []) c n)
            (cut-real level_links ns c n some)
            (subst (λ k. Linked level_links (cut level_links ns c n) null_idx k (xs ++ c ∷ []) c n)
              (rw some refl) (cut-front level_links ns c n h j (xs ++ c ∷ []) a)) in
        let rest : Linked level_links led c j ys t null_idx =
          led-Linked ys c j t null_idx (last-Absent c xs ys apart) b in
        (
          if j == null_idx then n else t,
          subst
              (λ zs.
                Linked level_links followed null_idx h zs (if j == null_idx then n else t) null_idx)
              (sym (append-snoc xs c (n ∷ ys)))
              (spliced level_links placed n h (xs ++ c ∷ []) c j c ys t inside fits (ground arith)
                (ground arith) before after apart
                (placed-Linked (xs ++ c ∷ []) null_idx h c n before front)
                (placed-Linked ys c j t null_idx after rest)),
        )

    pub followed-others :
        (zs : List ℕ) (p i r k : ℕ)
        → Absent n zs
        → Apart (xs ++ c ∷ ys) zs
        → Linked level_links ns p i zs r k
        → Linked level_links followed p i zs r k
    followed-others zs p i r k a apart m =
        let (halved, _, _, _, b) = halves in
        let (before, after) =
          Absent-parts n (xs ++ c ∷ []) ys
            (subst (λ zs. Absent n zs) (append-snoc xs c ys) fresh) in
        let (clear, others) = Apart-at xs c ys zs apart in
        mend-front level_links placed n j _ _ ys _ _ zs _ _ (Apart-sym ys zs others)
          (placed-Linked ys c j t null_idx after
            (led-Linked ys c j t null_idx (last-Absent c xs ys halved) b))
          (placed-Linked zs p i r k a (led-Linked zs p i r k clear m))
