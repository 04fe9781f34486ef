-- ===== src/Arena/Pool/Levels.antt =====
-- The free list of `PriceLevelArena`.
use ultra_low_latency_order.Prelude.{
  ℕ, zero, suc, ◌+◌, ◌≤◌, ◌≡◌, ◌%◌, subst, refl, Bool, true, false, List, [], ◌∷◌, ◌++◌, ◌==◌,
  eq→==, leb, done, read-done, write-done, arith, length, u32_mod, ltb,
}
use ultra_low_latency_order.Types.{RejectReason, Result, ok, err}
use ultra_low_latency_order.Arena.Nodes.{null_idx, PriceLevelNode}
use ultra_low_latency_order.Arena.Chain.{with_node, Absent}
use ultra_low_latency_order.Arena.Levels.{
  PriceLevelArena, allocate, deallocate, initial_level, new_level_arena,
}
use ultra_low_latency_order.Arena.Pool.{
  IsPool, AllFree, AllActive, taken, given_back, used-inside, free-head, free-end, range,
  Absent-range, length-range,
}

abbrev pub next_of : PriceLevelNode → ℕ
next_of node = node.next_free

abbrev pub active_of : PriceLevelNode → Bool
active_of node = node.active

-- The free levels of the arena, and those in use.
pub record IsLevelPool (a : PriceLevelArena) (free used : List ℕ) : Type 0 where
  pub pool : IsPool next_of active_of a.nodes a.free_head free used
  pub bounded : a.nodes.len ≤ null_idx

-- An empty level at a price.
abbrev pub opened : ℕ → PriceLevelNode
opened price = record {
  price = price;
  head_order = null_idx;
  tail_order = null_idx;
  prev_level = null_idx;
  next_level = null_idx;
  total_qty = 0;
  order_count = 0;
  next_free = null_idx;
  active = true;
}

-- The reference of `allocate`: the first free level, empty at the price, or `EngineFull`.
unfoldable pub IsAllocated :
    PriceLevelArena → ℕ → List ℕ → List ℕ → Result ℕ × PriceLevelArena → Type 0
IsAllocated a price [] used (r, a') =
    (r ≡ err RejectReason.engine_full) × (a' ≡ a) × (length used ≡ a.nodes.len)
IsAllocated a price (x ∷ free) used (r, a') =
    (r ≡ ok x) × (a'.nodes ≡ with_node a.nodes x (opened price)) × IsLevelPool a' free (x ∷ used)

-- On an arena whose levels are free or in use, `allocate` returns. With a free level, it hands out the
-- first, which is empty at the price from then on, changes no other, and the level is in use; without,
-- all levels are in use, the answer is `EngineFull`, and nothing is changed.
pub allocate_level-IsAllocated :
    (a : PriceLevelArena) (price : ℕ) (free used : List ℕ)
    → IsLevelPool a free used
    → (result : Result ℕ × PriceLevelArena) × (allocate a price ≡ done result)
      × IsAllocated a price free used result
unfolding allocate IsAllocated length
allocate_level-IsAllocated a price [] used pool =
    let e : (a.free_head == null_idx) ≡ true =
      eq→== _ _ (free-end next_of active_of a.nodes a.free_head pool.pool.all_free) in
    ((err RejectReason.engine_full, a), rw e refl, (refl, refl, omega (arith, pool.pool.whole)))
allocate_level-IsAllocated a price (x ∷ free) used pool =
    let (h, inside, fits) =
      free-head next_of active_of a.nodes a.free_head x free pool.pool.all_free in
    let some : (x == null_idx) ≡ false = ground arith in
    let v : PriceLevelNode = opened price in
    let start = subst (λ i. IsPool next_of active_of a.nodes i (x ∷ free) used) h pool.pool in
    let a' : PriceLevelArena = record {
      nodes = with_node a.nodes x v;
      free_head = (a.nodes.at x).next_free;
    } in
    (
      (ok x, a'),
      rw (h, some, read-done a.nodes x inside, write-done a.nodes x v inside) refl,
      (
        refl,
        refl,
        record {
          pool = taken next_of active_of a.nodes x free used v refl start;
          bounded = pool.bounded;
        },
      ),
    )

-- What `deallocate` leaves of a level.
abbrev pub vacated : PriceLevelArena → ℕ → PriceLevelNode
vacated a x = record (opened (a.nodes.at x).price) { next_free = a.free_head; active = false }

-- `deallocate` on a level in use returns: the level is empty and the first free one from then on, and no
-- other has changed.
pub deallocate-IsLevelPool :
    (a : PriceLevelArena) (x : ℕ) (free us vs : List ℕ)
    → IsLevelPool a free (us ++ x ∷ vs)
    → (a' : PriceLevelArena) × (deallocate a x ≡ done a')
      × IsLevelPool a' (x ∷ free) (us ++ vs)
      × (a'.nodes ≡ with_node a.nodes x (vacated a x))
unfolding deallocate
deallocate-IsLevelPool a x free us vs pool =
    let inside = used-inside next_of active_of a.nodes us x vs pool.pool.all_active in
    let some : (x == null_idx) ≡ false = ground (arith, pool.bounded) in
    let within : leb a.nodes.len x ≡ false = ground arith in
    let v : PriceLevelNode = vacated a x in
    (
      record { nodes = with_node a.nodes x v; free_head = x },
      rw (some, within, read-done a.nodes x inside, write-done a.nodes x v inside) refl,
      record {
        pool =
            given_back next_of active_of a.nodes a.free_head x free us vs v
              (omega (arith, pool.bounded)) refl refl pool.pool;
        bounded = pool.bounded;
      },
      refl,
    )

initial-AllFree :
    (capacity k i : ℕ)
    → i + suc k ≡ capacity
    → capacity ≤ null_idx
    → AllFree next_of active_of
        (record { len = capacity; at = initial_level capacity })
        i
        (range i (suc k))
unfolding AllFree range Absent
initial-AllFree capacity zero i size small =
    let last : ltb (i + 1) capacity ≡ false = ground arith in
    (refl, omega arith, omega arith, refl, tt, rw last refl)
initial-AllFree capacity (suc k) i size small =
    let more : ltb (i + 1) capacity ≡ true = ground arith in
    let word : (i + 1) % u32_mod ≡ i + 1 = omega arith in
    (
      refl,
      omega arith,
      omega arith,
      refl,
      Absent-range i (i + 1) (suc k) (omega arith),
      rw (more, word) (initial-AllFree capacity k (i + 1) (omega arith) small),
    )

-- A new arena of at least one level, whose indices are below the null index, has all its levels free, in
-- their order.
pub new_level_arena-IsLevelPool :
    (k : ℕ) → suc k ≤ null_idx → IsLevelPool (new_level_arena (suc k)) (range 0 (suc k)) []
unfolding new_level_arena AllActive length
new_level_arena-IsLevelPool k small = record {
  pool = record {
    all_free = initial-AllFree (suc k) k 0 (omega arith) small;
    all_active = tt;
    whole = omega (arith, length-range 0 (suc k));
  };
  bounded = small;
}
