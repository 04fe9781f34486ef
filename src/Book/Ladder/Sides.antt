-- ===== src/Book/Ladder/Sides.antt =====
-- The two ladders of a book, seen from one side: its own ladder, the other one, and that no level is
-- in both.
use ultra_low_latency_order.Prelude.{ℕ, ◌≡◌, refl, Bool, true, false, not, List, subst, sym}
use ultra_low_latency_order.Arena.Chain.{Apart}
use ultra_low_latency_order.Arena.Nodes.{default_level_node}
use ultra_low_latency_order.Book.State.{OrderBook}
use ultra_low_latency_order.Book.Ladder.{LevelNodes, best, set_best}
use ultra_low_latency_order.Book.Ladder.Rungs.{IsRehung}
use ultra_low_latency_order.Book.Ladder.Insert.{Hangs}
use ultra_low_latency_order.Book.Ladder.Sorted.{price_at, IsSorted, price-rehung}

-- The levels of one side, linked from its best index, better prices first.
pub record IsLadder (s : Bool) (b : OrderBook) (xs : List ℕ) : Type 0 where
  pub hangs : Hangs b.level_arena.nodes (best s b) xs
  pub sorted : IsSorted s (price_at b.level_arena.nodes) xs

pub record IsLadders (s : Bool) (b : OrderBook) (xs zs : List ℕ) : Type 0 where
  pub own : IsLadder s b xs
  pub other : IsLadder (not s) b zs
  pub apart : Apart xs zs

-- The book without the pointers of its levels and without its best indices.
abbrev pub unladdered : OrderBook → OrderBook
unladdered b = record b {
  best_bid = 0;
  best_ask = 0;
  level_arena = record b.level_arena { nodes = record { len = 0; at = λ x. default_level_node } };
}

pub best-set_best : (s : Bool) (p : ℕ) (b : OrderBook) → best s (set_best s p b) ≡ p
best-set_best true p b = refl
best-set_best false p b = refl

pub best-set_best_other :
    (s : Bool) (p : ℕ) (b : OrderBook) → best (not s) (set_best s p b) ≡ best (not s) b
best-set_best_other true p b = refl
best-set_best_other false p b = refl

pub IsSorted-rehung :
    (s : Bool) (ns ns' : LevelNodes) (xs : List ℕ)
    → IsRehung ns ns'
    → IsSorted s (price_at ns) xs
    → IsSorted s (price_at ns') xs
IsSorted-rehung s ns ns' xs h = subst (λ price. IsSorted s price xs) (sym (price-rehung ns ns' h))
