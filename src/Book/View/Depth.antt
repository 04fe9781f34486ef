-- ===== src/Book/View/Depth.antt =====
-- What `get_bbo` and `get_depth` return, by the levels of the two ladders.
use ultra_low_latency_order.Prelude.{
  ℕ, zero, suc, ◌≡◌, refl, Bool, true, false, Option, none, some, List, [], ◌∷◌, map, if◌then◌else◌,
  ◌==◌, eq→==, done, read-done, arith,
}
use ultra_low_latency_order.Types.{MarketDepthLevel}
use ultra_low_latency_order.Arena.Nodes.{null_idx}
use ultra_low_latency_order.Arena.Chain.{Linked}
use ultra_low_latency_order.Arena.Chain.Ends.{first-empty, first-real, first-node}
use ultra_low_latency_order.Book.State.{OrderBook}
use ultra_low_latency_order.Book.Ladder.{LevelNodes, better}
use ultra_low_latency_order.Book.Ladder.Rungs.{level_links}
use ultra_low_latency_order.Book.Ladder.Insert.{Hangs}
use ultra_low_latency_order.Book.Ladder.Sides.{IsLadders}
use ultra_low_latency_order.Book.Ladder.Sorted.{price_at, Ahead, IsSorted, better_asym}
use ultra_low_latency_order.Book.View.{top_of, get_bbo, depth_from, get_depth}

unfoldable pub take : {A : Type 0} → ℕ → List A → List A
take zero xs = []
take (suc n) [] = []
take (suc n) (x ∷ xs) = x ∷ take n xs

-- A level as the depth shows it.
abbrev pub shown : LevelNodes → ℕ → MarketDepthLevel
shown ns x = record {
  price = (ns.at x).price;
  total_qty = (ns.at x).total_qty;
  order_count = (ns.at x).order_count;
}

-- The first of some levels, by its price and quantity.
unfoldable pub top : LevelNodes → List ℕ → Option (ℕ × ℕ)
top ns [] = none
top ns (x ∷ xs) = some ((ns.at x).price, (ns.at x).total_qty)

-- The better of two prices, and the best of a list of levels in any order.
abbrev pub pick : Bool → ℕ → ℕ → ℕ
pick s p q = if better s q p then q else p

unfoldable pub best_from : Bool → (ℕ → ℕ) → ℕ → List ℕ → ℕ
best_from s price p [] = p
best_from s price p (x ∷ xs) = best_from s price (pick s p (price x)) xs

unfoldable pub best_price : Bool → (ℕ → ℕ) → List ℕ → Option ℕ
unfolding best_from
best_price s price [] = none
best_price s price (x ∷ xs) = some (best_from s price (price x) xs)

abbrev pub price_of : Option (ℕ × ℕ) → Option ℕ
price_of none = none
price_of (some (p, _)) = some p

depth_from-take :
    (k : ℕ) (ns : LevelNodes) (p i : ℕ) (xs : List ℕ) (t : ℕ)
    → Linked level_links ns p i xs t null_idx
    → depth_from k ns i ≡ done (map (shown ns) (take k xs))
unfolding depth_from take
depth_from-take zero ns p i xs t l = refl
depth_from-take (suc k) ns p i [] t l =
    let e : (i == null_idx) ≡ true = eq→== _ _ (first-empty level_links ns _ _ _ _ l) in rw e refl
depth_from-take (suc k) ns p i (x ∷ xs) t l =
    let (inside, fits, e) = first-real level_links ns _ _ x xs _ _ l in
    let (_, rest) = first-node level_links ns _ _ x xs _ _ l in
    let some : (x == null_idx) ≡ false = ground arith in
    rw (e, some, read-done ns x inside, depth_from-take k ns x _ xs t rest) refl

top_of-top :
    (ns : LevelNodes) (h : ℕ) (xs : List ℕ) → Hangs ns h xs → top_of ns h ≡ done (top ns xs)
unfolding top_of top
top_of-top ns h [] (t, l) =
    let e : (h == null_idx) ≡ true = eq→== _ _ (first-empty level_links ns _ _ _ _ l) in rw e refl
top_of-top ns h (x ∷ xs) (t, l) =
    let (inside, fits, e) = first-real level_links ns _ _ x xs _ _ l in
    let some : (x == null_idx) ≡ false = ground arith in rw (e, some, read-done ns x inside) refl

best_from-Ahead :
    (s : Bool) (price : ℕ → ℕ) (x : ℕ) (ys : List ℕ)
    → Ahead s price x ys
    → best_from s price (price x) ys ≡ price x
unfolding best_from Ahead
best_from-Ahead s price x [] a = refl
best_from-Ahead s price x (y ∷ ys) (h, a) =
    rw (better_asym s (price x) (price y) h) (best_from-Ahead s price x ys a)

top-best :
    (s : Bool) (ns : LevelNodes) (xs : List ℕ)
    → IsSorted s (price_at ns) xs
    → price_of (top ns xs) ≡ best_price s (price_at ns) xs
unfolding top best_price IsSorted
top-best s ns [] sorted = refl
top-best s ns (x ∷ xs) (a, sorted) = rw (best_from-Ahead s (price_at ns) x xs a) refl

module _ (b : OrderBook) (asks bids : List ℕ) (ladders : IsLadders true b asks bids) where
  abbrev ns : LevelNodes
  ns = b.level_arena.nodes

  -- With the two ladders of a book, `get_bbo` returns the price and quantity of the first level of
  -- each side, none on a side without levels, and the two prices are the highest of all bids and the
  -- lowest of all asks.
  pub get_bbo-best :
      (get_bbo b ≡ done (top ns bids, top ns asks))
      × (price_of (top ns bids) ≡ best_price false (price_at ns) bids)
      × (price_of (top ns asks) ≡ best_price true (price_at ns) asks)
  unfolding get_bbo
  get_bbo-best = (
    rw
        (
          top_of-top ns b.best_bid bids ladders.other.hangs,
          top_of-top ns b.best_ask asks ladders.own.hangs,
        )
        refl,
    top-best false ns bids ladders.other.sorted,
    top-best true ns asks ladders.own.sorted,
  )

  -- With the two ladders of a book, `get_depth` returns the first levels of each side in their order,
  -- as many as it is asked for or there are.
  pub get_depth-take :
      (max_levels : ℕ)
      → get_depth b max_levels
        ≡ done (map (shown ns) (take max_levels bids), map (shown ns) (take max_levels asks))
  unfolding get_depth
  get_depth-take max_levels =
      let (t, l) = ladders.other.hangs in
      let (r, m) = ladders.own.hangs in
      rw
        (
          depth_from-take max_levels ns null_idx b.best_bid bids t l,
          depth_from-take max_levels ns null_idx b.best_ask asks r m,
        )
        refl
