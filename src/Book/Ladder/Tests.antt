-- ===== src/Book/Ladder/Tests.antt =====
-- A book with asks at 99 and 101 in levels 1 and 0, a bid at 90 in level 2, and a level 3 of the
-- price 100 that is in no ladder.
use ultra_low_latency_order.Prelude.{
  ℕ, ◌≡◌, refl, true, false, List, [], ◌∷◌, ◌==◌, if◌then◌else◌, done, arith, map,
}
use ultra_low_latency_order.Types.{Symbol}
use ultra_low_latency_order.Arena.Nodes.{null_idx, PriceLevelNode, default_level_node}
use ultra_low_latency_order.Arena.Chain.{Linked, Absent, Apart}
use ultra_low_latency_order.Book.State.{OrderBook, new_book}
use ultra_low_latency_order.Book.Ladder.{
  LevelNodes, set_levels, link_price_level, unlink_price_level,
}
use ultra_low_latency_order.Book.Ladder.Rungs.{IsRehung}
use ultra_low_latency_order.Book.Ladder.Sorted.{price_at, Ahead, IsSorted, IsNewPrice, place}
use ultra_low_latency_order.Book.Ladder.Sides.{IsLadders, unladdered}
use ultra_low_latency_order.Book.Ladder.Link.{link_price_level-place}
use ultra_low_latency_order.Book.Ladder.Unlink.{unlink_price_level-remove}
use ultra_low_latency_order.Book.View.{get_bbo, get_depth}
use ultra_low_latency_order.Book.View.Depth.{
  top, price_of, best_price, shown, take, get_bbo-best, get_depth-take,
}

abbrev level : ℕ → ℕ → ℕ → PriceLevelNode
level price prev next = record default_level_node {
  price = price;
  prev_level = prev;
  next_level = next;
  total_qty = 8;
  order_count = 1;
  active = true;
}

abbrev levels : LevelNodes
levels = record {
  len = 4;
  at = λ i.
      if i == 0
      then level 101 1 null_idx
      else if i == 1
      then level 99 null_idx 0
      else if i == 2
      then level 90 null_idx null_idx
      else level 100 null_idx null_idx;
}

abbrev book : OrderBook
unfolding new_book
book = set_levels levels (record (new_book Symbol.btc) { best_ask = 1; best_bid = 2 })

abbrev asks : List ℕ
asks = 1 ∷ 0 ∷ []

abbrev bids : List ℕ
bids = 2 ∷ []

book-IsLadders : IsLadders true book asks bids
unfolding Linked Absent Apart IsSorted Ahead book
book-IsLadders = record {
  own = record {
    hangs = (
      0,
      (
        refl,
        omega arith,
        omega arith,
        refl,
        (omega arith, tt),
        (refl, omega arith, omega arith, refl, tt, (refl, refl)),
      ),
    );
    sorted = ((refl, tt), (tt, tt));
  };
  other = record {
    hangs = (2, (refl, omega arith, omega arith, refl, tt, (refl, refl)));
    sorted = (tt, tt);
  };
  apart = ((omega arith, tt), ((omega arith, tt), tt));
}

place-middle : place true (price_at levels) 3 asks ≡ 1 ∷ 3 ∷ 0 ∷ []
unfolding place
place-middle = refl

link_price_level-place_example :
    (b' : OrderBook) × (link_price_level book 3 true ≡ done b')
    × IsLadders true b' (place true (price_at levels) 3 asks) bids
    × IsRehung levels b'.level_arena.nodes
    × (unladdered b' ≡ unladdered book)
unfolding Absent IsNewPrice book
link_price_level-place_example =
    link_price_level-place book 3 true asks bids book-IsLadders (omega arith) (omega arith)
      (omega arith, (omega arith, tt)) (omega arith, tt) (omega arith, (omega arith, tt))

unlink_price_level-remove_example :
    (b' : OrderBook) × (unlink_price_level book 1 true ≡ done b')
    × IsLadders true b' (0 ∷ []) bids
    × IsRehung levels b'.level_arena.nodes
    × (unladdered b' ≡ unladdered book)
unfolding book
unlink_price_level-remove_example =
    unlink_price_level-remove book 1 true [] (0 ∷ []) bids book-IsLadders

get_bbo-best_example :
    (get_bbo book ≡ done (top levels bids, top levels asks))
    × (price_of (top levels bids) ≡ best_price false (price_at levels) bids)
    × (price_of (top levels asks) ≡ best_price true (price_at levels) asks)
unfolding book
get_bbo-best_example = get_bbo-best book asks bids book-IsLadders

get_depth-take_example :
    get_depth book 1 ≡ done (map (shown levels) (take 1 bids), map (shown levels) (take 1 asks))
unfolding book
get_depth-take_example = get_depth-take book asks bids book-IsLadders 1
