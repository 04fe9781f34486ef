-- ===== src/Book/Ladder/Link.antt =====
-- `link_price_level` puts a level at the place of its price.
use ultra_low_latency_order.Prelude.{
  ℕ, ◌<◌, ◌≡◌, refl, sym, Bool, true, false, not, List, [], ◌∷◌, ◌++◌, subst, Bool-cases, inl, inr,
  ◌==◌, eq→==, done, read-done, arith, length,
}
use ultra_low_latency_order.Arena.Nodes.{null_idx}
use ultra_low_latency_order.Arena.Chain.{Absent, Apart, Linked}
use ultra_low_latency_order.Arena.Chain.Ends.{first-empty, first-real, first-node}
use ultra_low_latency_order.Arena.Chain.Count.{Linked-length}
use ultra_low_latency_order.Book.State.{OrderBook}
use ultra_low_latency_order.Book.Ladder.{
  LevelNodes, best, set_best, better, set_levels, walk, link_behind, link_price_level,
}
use ultra_low_latency_order.Book.Ladder.Rungs.{level_links, IsRehung}
use ultra_low_latency_order.Book.Ladder.Sides.{
  IsLadders, unladdered, best-set_best, best-set_best_other, IsSorted-rehung,
}
use ultra_low_latency_order.Book.Ladder.Insert.{
  Hangs, fronted, fronted-IsRehung, link_front-done, fronted-Hangs, fronted-others, followed,
  followed-IsRehung, link_behind-done, behind-inside, followed-Hangs, followed-others,
}
use ultra_low_latency_order.Book.Ladder.Sorted.{price_at, place, place-IsSorted, IsNewPrice}
use ultra_low_latency_order.Book.Ladder.Walk.{walk-IsStop}

Apart-place :
    (s : Bool) (price : ℕ → ℕ) (n : ℕ) (xs zs : List ℕ)
    → Absent n zs
    → Apart xs zs
    → Apart (place s price n xs) zs
unfolding Apart place
Apart-place s price n [] zs a apart = (a, tt)
Apart-place s price n (x ∷ xs) zs a (b, apart) = elim (Bool-cases (better s (price n) (price x))) [
  | inl e ↦ rw e (a, (b, apart))
  | inr e ↦ rw e (b, Apart-place s price n xs zs a apart)
]

module _ (b : OrderBook) (n : ℕ) (s : Bool) where
  abbrev ns : LevelNodes
  ns = b.level_arena.nodes

  abbrev at_front : OrderBook
  at_front = set_best s n (set_levels (fronted ns n (best s b)) b)

  abbrev behind : ℕ → OrderBook
  behind c = set_levels (followed ns n c) b

  -- What the function does on a side that has no level.
  link-empty : n < ns.len → best s b ≡ null_idx → link_price_level b n s ≡ done at_front
  unfolding link_price_level
  link-empty inside e =
      let nil : (best s b == null_idx) ≡ true = eq→== _ _ e in
      rw (read-done ns n inside, nil, link_front-done ns n (best s b) inside (inl nil)) refl

  link-front :
      n < ns.len
      → best s b < ns.len
      → (best s b == null_idx) ≡ false
      → better s (price_at ns n) (price_at ns (best s b)) ≡ true
      → link_price_level b n s ≡ done at_front
  unfolding link_price_level
  link-front inside within some first =
      rw
        (
          read-done ns n inside,
          some,
          read-done ns (best s b) within,
          first,
          link_front-done ns n (best s b) inside (inr within),
        )
        refl

  link-behind :
      (c : ℕ)
      → n < ns.len
      → best s b < ns.len
      → (best s b == null_idx) ≡ false
      → better s (price_at ns n) (price_at ns (best s b)) ≡ false
      → walk ns.len s ns (price_at ns n) (best s b) ≡ done c
      → link_behind ns n c ≡ done (followed ns n c)
      → link_price_level b n s ≡ done (behind c)
  unfolding link_price_level
  link-behind c inside within some later stops links =
      rw (read-done ns n inside, some, read-done ns (best s b) within, later, stops, links) refl

  module _ (xs zs : List ℕ) (ladders : IsLadders s b xs zs) (fresh : Absent n xs)
      (apart_n : Absent n zs) (new : IsNewPrice s (price_at ns) n xs) where
    abbrev placed : List ℕ
    placed = place s (price_at ns) n xs

    -- What the levels are when the writes are done.
    assembled :
        (b' : OrderBook)
        → IsRehung ns b'.level_arena.nodes
        → Hangs b'.level_arena.nodes (best s b') placed
        → Hangs b'.level_arena.nodes (best (not s) b') zs
        → IsLadders s b' placed zs
    assembled b' same hangs others = record {
      own = record {
        hangs = hangs;
        sorted =
            IsSorted-rehung s ns _ placed same
              (place-IsSorted s (price_at ns) n xs new ladders.own.sorted);
      };
      other = record {
        hangs = others;
        sorted = IsSorted-rehung (not s) ns _ zs same ladders.other.sorted;
      };
      apart = Apart-place s (price_at ns) n xs zs apart_n ladders.apart;
    }

    front-IsLadders : n < ns.len → n < null_idx → placed ≡ n ∷ xs → IsLadders s at_front placed zs
    front-IsLadders inside fits order =
        let (t, l) = ladders.own.hangs in
        let (r, m) = ladders.other.hangs in
        let new_ns = fronted ns n (best s b) in
        assembled at_front (fronted-IsRehung ns n (best s b))
          (subst (λ ys. Hangs new_ns (best s at_front) ys) (sym order)
            (subst (λ h. Hangs new_ns h (n ∷ xs)) (sym (best-set_best s n (set_levels new_ns b)))
              (fronted-Hangs ns n (best s b) xs t l fresh inside fits)))
          (subst (λ h. Hangs new_ns h zs) (sym (best-set_best_other s n (set_levels new_ns b)))
            (
              r,
              fronted-others ns n (best s b) xs t l fresh zs null_idx (best (not s) b) r null_idx
                  apart_n ladders.apart m,
            ))

    behind-IsLadders :
        (ys : List ℕ) (c : ℕ) (cs : List ℕ)
        → n < ns.len
        → n < null_idx
        → xs ≡ ys ++ c ∷ cs
        → placed ≡ ys ++ c ∷ n ∷ cs
        → (link_behind ns n c ≡ done (followed ns n c)) × IsLadders s (behind c) placed zs
    behind-IsLadders ys c cs inside fits old order =
        let (t, l) = ladders.own.hangs in
        let (r, m) = ladders.other.hangs in
        let h = best s b in
        let l' : Linked level_links ns null_idx h (ys ++ c ∷ cs) t null_idx =
          subst (λ ws. Linked level_links ns null_idx h ws t null_idx) old l in
        let fresh' : Absent n (ys ++ c ∷ cs) = subst (λ ws. Absent n ws) old fresh in
        let (within, next) = behind-inside ns n c h ys cs t l' fresh' in
        (
          link_behind-done ns n c inside within next,
          assembled (behind c) (followed-IsRehung ns n c)
              (subst (λ ws. Hangs (followed ns n c) h ws) (sym order)
                (followed-Hangs ns n c h ys cs t l' fresh' inside fits))
              (
                r,
                followed-others ns n c h ys cs t l' fresh' zs null_idx (best (not s) b) r null_idx
                    apart_n (subst (λ ws. Apart ws zs) old ladders.apart) m,
              ),
        )

-- With the two ladders of a book, `link_price_level` on a new level of a price that its side does not
-- have returns: the level is in the ladder of its side at the place of its price, both ladders are
-- linked both ways and sorted strictly, and nothing but pointers of levels and the best index has
-- changed.
pub link_price_level-place :
    (b : OrderBook) (n : ℕ) (s : Bool) (xs zs : List ℕ)
    → IsLadders s b xs zs
    → n < b.level_arena.nodes.len
    → n < null_idx
    → Absent n xs
    → Absent n zs
    → IsNewPrice s (price_at b.level_arena.nodes) n xs
    → (b' : OrderBook) × (link_price_level b n s ≡ done b')
      × IsLadders s b' (place s (price_at b.level_arena.nodes) n xs) zs
      × IsRehung b.level_arena.nodes b'.level_arena.nodes
      × (unladdered b' ≡ unladdered b)
unfolding place IsNewPrice length
link_price_level-place b n s [] zs ladders inside fits fresh apart new =
    let (t, l) = ladders.own.hangs in
    (
      at_front b n s,
      link-empty b n s inside (first-empty level_links _ _ _ _ _ l),
      front-IsLadders b n s [] zs ladders fresh apart new inside fits refl,
      fronted-IsRehung _ n (best s b),
      refl,
    )
link_price_level-place b n s (x ∷ ys) zs ladders inside fits fresh apart (differs, new) =
    let ns = b.level_arena.nodes in
    let (t, l) = ladders.own.hangs in
    let (within, fits_x, e) = first-real level_links ns _ _ x ys _ _ l in
    let (_, rest) = first-node level_links ns _ _ x ys _ _ l in
    let within' : best s b < ns.len = subst (λ h. h < ns.len) (sym e) within in
    let some : (best s b == null_idx) ≡ false = rw e (ground arith) in
    elim (Bool-cases (better s (price_at ns n) (price_at ns x))) [
      | inl first ↦ (
        at_front b n s,
        link-front b n s inside within' some (rw e first),
        front-IsLadders b n s (x ∷ ys) zs ladders fresh apart (differs, new) inside fits
            (rw first refl),
        fronted-IsRehung ns n (best s b),
        refl,
      )
      | inr later ↦
          let stop =
            walk-IsStop s ns n ns.len x ys t within new rest
              (omega (arith, Linked-length level_links ns _ _ (x ∷ ys) _ _ l)) in
          let (links, after) =
            behind-IsLadders b n s (x ∷ ys) zs ladders fresh apart (differs, new) stop.before
              stop.at stop.after inside fits stop.old (rw later stop.new) in
          (
            behind b n s stop.at,
            link-behind b n s stop.at inside within' some (rw e later)
                (subst (λ h. walk ns.len s ns (price_at ns n) h ≡ done stop.at) (sym e) stop.stops)
                links,
            after,
            followed-IsRehung ns n stop.at,
            refl,
          )
    ]
