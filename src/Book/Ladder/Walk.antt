-- ===== src/Book/Ladder/Walk.antt =====
-- The `while` loop of `link_price_level`: it ends, behind the levels of better prices.
use ultra_low_latency_order.Prelude.{
  ℕ, zero, suc, ◌<◌, ◌≡◌, refl, ap, Bool, true, false, List, [], ◌∷◌, ◌++◌, Bool-cases, inl, inr,
  ◌==◌, eq→==, done, read-done, arith, length,
}
use ultra_low_latency_order.Arena.Nodes.{null_idx}
use ultra_low_latency_order.Arena.Chain.{Linked}
use ultra_low_latency_order.Arena.Chain.Ends.{first-empty, first-real, first-node}
use ultra_low_latency_order.Book.Ladder.{LevelNodes, better, walk}
use ultra_low_latency_order.Book.Ladder.Rungs.{level_links}
use ultra_low_latency_order.Book.Ladder.Sorted.{
  price_at, better_asym, better_total, place, IsNewPrice,
}

module _ (s : Bool) (ns : LevelNodes) (n : ℕ) where
  abbrev placed : List ℕ → List ℕ
  placed = place s (price_at ns) n

  -- The loop stops at `c`, behind which the reference puts the new level.
  pub record IsStop (curr : ℕ) (ys : List ℕ) (fuel : ℕ) : Type 0 where
    pub before : List ℕ
    pub at : ℕ
    pub after : List ℕ
    pub stops : walk fuel s ns (price_at ns n) curr ≡ done at
    pub old : curr ∷ ys ≡ before ++ at ∷ after
    pub new : curr ∷ placed ys ≡ before ++ at ∷ n ∷ after

  pub walk-IsStop :
      (fuel curr : ℕ) (ys : List ℕ) (t : ℕ)
      → curr < ns.len
      → IsNewPrice s (price_at ns) n ys
      → Linked level_links ns curr (ns.at curr).next_level ys t null_idx
      → length ys < fuel
      → IsStop curr ys fuel
  unfolding walk place IsNewPrice length
  walk-IsStop zero curr ys t inside fresh l enough = absurd (omega arith)
  walk-IsStop (suc fuel) curr [] t inside fresh l enough =
      let e : ((ns.at curr).next_level == null_idx) ≡ true =
        eq→== _ _ (first-empty level_links ns _ _ _ _ l) in
      record {
        before = [];
        at = curr;
        after = [];
        stops = rw (read-done ns curr inside, e) refl;
        old = refl;
        new = refl;
      }
  walk-IsStop (suc fuel) curr (y ∷ ys) t inside (differs, fresh) l enough =
      let (within, fits, h) = first-real level_links ns _ _ y ys _ _ l in
      let (_, rest) = first-node level_links ns _ _ y ys _ _ l in
      let some : (y == null_idx) ≡ false = ground arith in
      elim (Bool-cases (better s (price_at ns n) (price_at ns y))) [
        | inl e ↦ record {
          before = [];
          at = curr;
          after = y ∷ ys;
          stops =
              rw (read-done ns curr inside, h, some, read-done ns y within, better_asym s _ _ e)
                refl;
          old = refl;
          new = rw e refl;
        }
        | inr e ↦
            let stop = walk-IsStop fuel y ys t within fresh rest (omega arith) in
            record {
              before = curr ∷ stop.before;
              at = stop.at;
              after = stop.after;
              stops =
                  rw
                    (
                      read-done ns curr inside,
                      h,
                      some,
                      read-done ns y within,
                      better_total s _ _ e differs,
                    )
                    stop.stops;
              old = ap (λ zs. curr ∷ zs) stop.old;
              new = rw e (ap (λ zs. curr ∷ zs) stop.new);
            }
      ]
