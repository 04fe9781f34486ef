-- ===== src/Book/Ladder/Unlink.antt =====
-- `unlink_price_level` takes a level out of its ladder.
use ultra_low_latency_order.Prelude.{
  ℕ, ◌<◌, ◌≡◌, ◌∙◌, refl, sym, Bool, true, not, List, ◌∷◌, ◌++◌, subst, ◌⊎◌, inl, inr, Bool-cases,
  ◌==◌, if◌then◌else◌, done, read-done,
}
use ultra_low_latency_order.Arena.Nodes.{null_idx}
use ultra_low_latency_order.Arena.Chain.{
  Absent, Apart, Linked, Linked-outside, Apart-at, Apart-sym, Apart-tail, Apart-remove,
}
use ultra_low_latency_order.Arena.Chain.Relink.{cut, cut-done, mend-done, cut-back, mend-front}
use ultra_low_latency_order.Arena.Chain.Remove
use ultra_low_latency_order.Arena.Chain.Remove.{around, neighbours, closed-Linked, removed-Absent}
use ultra_low_latency_order.Book.State.{OrderBook}
use ultra_low_latency_order.Book.Ladder.{
  LevelNodes, best, set_best, set_levels, unlink_price_level, set_next_level, set_prev_level,
}
use ultra_low_latency_order.Book.Ladder.Rungs.{
  level_links, with_next, with_prev, set_next_level-done, set_prev_level-done, IsRehung,
  IsRehung-trans, IsRehung-with_next, IsRehung-with_prev, cut-IsRehung, mend-IsRehung,
}
use ultra_low_latency_order.Book.Ladder.Insert.{Hangs}
use ultra_low_latency_order.Book.Ladder.Sides.{
  IsLadders, unladdered, best-set_best, best-set_best_other, IsSorted-rehung,
}
use ultra_low_latency_order.Book.Ladder.Sorted.{price_at, IsSorted-remove}

module _ (ns : LevelNodes) (n : ℕ) where
  abbrev q : ℕ
  q = (ns.at n).prev_level

  abbrev j : ℕ
  j = (ns.at n).next_level

  abbrev closed : LevelNodes
  closed = Remove.closed level_links ns n

  abbrev loose : LevelNodes
  loose = with_next (with_prev closed n null_idx) n null_idx

  closed-IsRehung : IsRehung ns closed
  closed-IsRehung =
      IsRehung-trans ns _ closed (cut-IsRehung ns q j) (mend-IsRehung (cut level_links ns q j) q j)

  loose-IsRehung : IsRehung ns loose
  loose-IsRehung = IsRehung-trans ns closed loose closed-IsRehung (
      IsRehung-trans closed _ loose (IsRehung-with_prev closed n null_idx)
        (IsRehung-with_next _ n null_idx))

  loose-Linked :
      (zs : List ℕ) (p i r k : ℕ)
      → Absent n zs
      → Linked level_links closed p i zs r k
      → Linked level_links loose p i zs r k
  loose-Linked zs p i r k a m =
      Linked-outside level_links _ n _ _ _ zs _ _ a
        (Linked-outside level_links closed n _ _ _ zs _ _ a m)

module _ (b : OrderBook) (n : ℕ) (s : Bool) where
  abbrev ns : LevelNodes
  ns = b.level_arena.nodes

  abbrev unlinked : OrderBook
  unlinked =
      if q ns n == null_idx
      then set_best s (j ns n) (set_levels (loose ns n) b)
      else set_levels (loose ns n) b

  unlink_price_level-done :
      n < ns.len
      → ((q ns n == null_idx) ≡ true) ⊎ (q ns n < ns.len)
      → ((j ns n == null_idx) ≡ true) ⊎ (j ns n < ns.len)
      → unlink_price_level b n s ≡ done unlinked
  unfolding unlink_price_level
  unlink_price_level-done inside before after =
      let still : n < (closed ns n).len = rw (closed-IsRehung ns n).same_len inside in
      let half = cut level_links ns (q ns n) (j ns n) in
      let after' : ((j ns n == null_idx) ≡ true) ⊎ (j ns n < half.len) =
        rw (cut-IsRehung ns (q ns n) (j ns n)).same_len after in
      rw
        (
          read-done ns n inside,
          cut-done level_links ns (q ns n) (j ns n) set_next_level
              (set_next_level-done ns (q ns n) (j ns n)) before,
          mend-done level_links half (q ns n) (j ns n) set_prev_level
              (set_prev_level-done half (j ns n) (q ns n)) after',
          set_prev_level-done (closed ns n) n null_idx still,
          set_next_level-done (with_prev (closed ns n) n null_idx) n null_idx still,
        )
        refl

  module _ (xs ys zs : List ℕ) (ladders : IsLadders s b (xs ++ n ∷ ys) zs) where
    others :
        (p i r k : ℕ)
        → Linked level_links ns p i zs r k
        → Linked level_links (closed ns n) p i zs r k
    others p i r k m =
        let (t, l) = ladders.own.hangs in
        let (split, inside, front, rest) = around level_links ns n _ _ xs ys l in
        let (_, clear) = Apart-at xs n ys zs ladders.apart in
        let (before, _) = Apart-remove xs n ys zs ladders.apart in
        let split' : Apart xs ys = Apart-tail xs n ys split in
        mend-front level_links (cut level_links ns (q ns n) (j ns n)) (q ns n) (j ns n) n t ys _ _
          zs _ _ (Apart-sym ys zs clear)
          (cut-back level_links ns (q ns n) (j ns n) _ _ xs _ _ ys _ _ split' front rest)
          (cut-back level_links ns (q ns n) (j ns n) _ _ xs _ _ zs _ _ before front m)

    -- The ladder without the level, from the index that the book has then.
    remaining : Hangs (loose ns n) (if q ns n == null_idx then j ns n else best s b) (xs ++ ys)
    remaining =
        let (t, l) = ladders.own.hangs in
        (
          if j ns n == null_idx then q ns n else t,
          loose-Linked ns n (xs ++ ys) _ _ _ _ (removed-Absent level_links ns n _ _ xs ys l)
              (closed-Linked level_links ns n _ _ xs ys l),
        )

    other : Hangs (loose ns n) (best (not s) b) zs
    other =
        let (r, m) = ladders.other.hangs in
        let (absent, _) = Apart-at xs n ys zs ladders.apart in
        (r, loose-Linked ns n zs _ _ _ _ absent (others _ _ _ _ m))

    unlinked-IsLadders :
        (b' : OrderBook)
        → IsRehung ns b'.level_arena.nodes
        → Hangs b'.level_arena.nodes (best s b') (xs ++ ys)
        → Hangs b'.level_arena.nodes (best (not s) b') zs
        → IsLadders s b' (xs ++ ys) zs
    unlinked-IsLadders b' same hangs rest =
        let (_, apart) = Apart-remove xs n ys zs ladders.apart in
        record {
          own = record {
            hangs = hangs;
            sorted =
                IsSorted-rehung s ns _ (xs ++ ys) same
                  (IsSorted-remove s (price_at ns) xs n ys ladders.own.sorted);
          };
          other = record {
            hangs = rest;
            sorted = IsSorted-rehung (not s) ns _ zs same ladders.other.sorted;
          };
          apart = apart;
        }

    -- With the two ladders of a book, `unlink_price_level` on a level anywhere in the ladder of its
    -- side returns: that ladder is then the levels before it and those behind it, both ladders are
    -- linked both ways and sorted strictly, and nothing but pointers of levels and the best index has
    -- changed.
    pub unlink_price_level-remove :
        (b' : OrderBook) × (unlink_price_level b n s ≡ done b')
        × IsLadders s b' (xs ++ ys) zs
        × IsRehung ns b'.level_arena.nodes
        × (unladdered b' ≡ unladdered b)
    unlink_price_level-remove =
        let (t, l) = ladders.own.hangs in
        let (_, inside, _, _) = around level_links ns n _ _ xs ys l in
        let (before, after) = neighbours level_links ns n _ _ xs ys l in
        let ran = unlink_price_level-done inside before after in
        let raised = set_best s (j ns n) (set_levels (loose ns n) b) in
        let kept = set_levels (loose ns n) b in
        elim (Bool-cases (q ns n == null_idx)) [
          | inl e ↦ (
            raised,
            ran ∙ rw e refl,
            unlinked-IsLadders raised (loose-IsRehung ns n)
                (subst (λ h. Hangs (loose ns n) h (xs ++ ys)) (sym (best-set_best s (j ns n) kept))
                  (subst (λ c. Hangs (loose ns n) (if c then j ns n else best s b) (xs ++ ys)) e
                    remaining))
                (subst (λ h. Hangs (loose ns n) h zs) (sym (best-set_best_other s (j ns n) kept))
                  other),
            loose-IsRehung ns n,
            refl,
          )
          | inr e ↦ (
            kept,
            ran ∙ rw e refl,
            unlinked-IsLadders kept (loose-IsRehung ns n)
                (subst (λ c. Hangs (loose ns n) (if c then j ns n else best s b) (xs ++ ys)) e
                  remaining)
                other,
            loose-IsRehung ns n,
            refl,
          )
        ]
