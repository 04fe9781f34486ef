-- ===== src/Arena/Pool/Orders.antt =====
-- The free list of `OrderArena`.
use ultra_low_latency_order.Prelude.{
  length-middle, ℕ, zero, suc, ◌+◌, ◌-◌, ◌≤◌, ◌<◌, ◌≡◌, ◌%◌, subst, refl, ◌∙◌, Bool, true, false,
  List, [], ◌∷◌, ◌++◌, ◌==◌, eq→==, leb, done, read-done, write-done, arith, length, u64_mod,
  u32_mod, add64, add64-eq, ltb,
}
use ultra_low_latency_order.Types.{Order, RejectReason, Result, ok, err}
use ultra_low_latency_order.Arena.Nodes.{null_idx, OrderNode}
use ultra_low_latency_order.Arena.Chain.{with_node, Absent}
use ultra_low_latency_order.Arena.Orders.{
  OrderArena, allocate, deallocate, initial_node, new_order_arena,
}
use ultra_low_latency_order.Arena.Pool.{
  IsPool, AllFree, AllActive, taken, given_back, used-inside, free-head, free-end, range,
  Absent-range, length-range,
}

abbrev pub next_of : OrderNode → ℕ
next_of node = node.next

abbrev pub active_of : OrderNode → Bool
active_of node = node.active

-- The free nodes of the arena, those in use, and their number.
pub record IsOrderPool (a : OrderArena) (free used : List ℕ) : Type 0 where
  pub pool : IsPool next_of active_of a.nodes a.free_head free used
  pub counted : a.active_count ≡ length used
  pub bounded : a.nodes.len ≤ null_idx

-- What `allocate` writes into the node that it hands out.
abbrev pub occupied : Order → ℕ → OrderNode
occupied order client_id = record {
  order = order;
  prev = null_idx;
  next = null_idx;
  client_id = client_id;
  active = true;
}

-- The reference of `allocate`: the first free node with the order, or `EngineFull`.
unfoldable pub IsAllocated :
    OrderArena → Order → ℕ → List ℕ → List ℕ → Result ℕ × OrderArena → Type 0
IsAllocated a order client_id [] used (r, a') =
    (r ≡ err RejectReason.engine_full) × (a' ≡ a) × (length used ≡ a.nodes.len)
IsAllocated a order client_id (x ∷ free) used (r, a') =
    (r ≡ ok x)
    × (a'.nodes ≡ with_node a.nodes x (occupied order client_id))
    × IsOrderPool a' free (x ∷ used)

-- On an arena whose nodes are free or in use, `allocate` returns. With a free node, it hands out the
-- first, which holds the order from then on, changes no other, and the node is in use and counted;
-- without, all nodes are in use, the answer is `EngineFull`, and nothing is changed.
pub allocate-IsAllocated :
    (a : OrderArena) (order : Order) (client_id : ℕ) (free used : List ℕ)
    → IsOrderPool a free used
    → (result : Result ℕ × OrderArena) × (allocate a order client_id ≡ done result)
      × IsAllocated a order client_id free used result
unfolding allocate IsAllocated length
allocate-IsAllocated a order client_id [] used pool =
    let e : (a.free_head == null_idx) ≡ true =
      eq→== _ _ (free-end next_of active_of a.nodes a.free_head pool.pool.all_free) in
    ((err RejectReason.engine_full, a), rw e refl, (refl, refl, omega (arith, pool.pool.whole)))
allocate-IsAllocated a order client_id (x ∷ free) used pool =
    let (h, inside, fits) =
      free-head next_of active_of a.nodes a.free_head x free pool.pool.all_free in
    let some : (x == null_idx) ≡ false = ground arith in
    let v : OrderNode = occupied order client_id in
    let small : length used + 1 < u64_mod = omega (arith, pool.pool.whole, pool.bounded) in
    let start = subst (λ i. IsPool next_of active_of a.nodes i (x ∷ free) used) h pool.pool in
    let a' : OrderArena = record a {
      nodes = with_node a.nodes x v;
      free_head = (a.nodes.at x).next;
      active_count = add64 a.active_count 1;
    } in
    (
      (ok x, a'),
      rw (h, some, read-done a.nodes x inside, write-done a.nodes x v inside) refl,
      (
        refl,
        refl,
        record {
          pool = taken next_of active_of a.nodes x free used v refl start;
          counted = rw pool.counted (add64-eq (length used) 1 small ∙ omega arith);
          bounded = pool.bounded;
        },
      ),
    )

-- What `deallocate` leaves of a node.
abbrev pub vacated : OrderArena → ℕ → OrderNode
vacated a x = record (a.nodes.at x) { active = false; next = a.free_head; prev = null_idx }

-- `deallocate` on a node in use returns: the node is the first free one from then on, inactive, without a
-- predecessor, and no longer counted; nothing else in it and no other node has changed.
pub deallocate-IsOrderPool :
    (a : OrderArena) (x : ℕ) (free us vs : List ℕ)
    → IsOrderPool a free (us ++ x ∷ vs)
    → (a' : OrderArena) × (deallocate a x ≡ done a')
      × IsOrderPool a' (x ∷ free) (us ++ vs)
      × (a'.nodes ≡ with_node a.nodes x (vacated a x))
unfolding deallocate
deallocate-IsOrderPool a x free us vs pool =
    let inside = used-inside next_of active_of a.nodes us x vs pool.pool.all_active in
    let some : (x == null_idx) ≡ false = ground (arith, pool.bounded) in
    let within : leb a.nodes.len x ≡ false = ground arith in
    let v : OrderNode = vacated a x in
    (
      record a { nodes = with_node a.nodes x v; free_head = x; active_count = a.active_count - 1 },
      rw (some, within, read-done a.nodes x inside, write-done a.nodes x v inside) refl,
      record {
        pool =
            given_back next_of active_of a.nodes a.free_head x free us vs v
              (omega (arith, pool.bounded)) refl refl pool.pool;
        counted = omega (arith, pool.counted, length-middle us x vs);
        bounded = pool.bounded;
      },
      refl,
    )

initial-AllFree :
    (capacity k i : ℕ)
    → i + suc k ≡ capacity
    → capacity ≤ null_idx
    → AllFree next_of active_of
        (record { len = capacity; at = initial_node capacity })
        i
        (range i (suc k))
unfolding AllFree range Absent
initial-AllFree capacity zero i size small =
    let last : ltb (i + 1) capacity ≡ false = ground arith in
    (refl, omega arith, omega arith, refl, tt, rw last refl)
initial-AllFree capacity (suc k) i size small =
    let more : ltb (i + 1) capacity ≡ true = ground arith in
    let word : (i + 1) % u32_mod ≡ i + 1 = omega arith in
    (
      refl,
      omega arith,
      omega arith,
      refl,
      Absent-range i (i + 1) (suc k) (omega arith),
      rw (more, word) (initial-AllFree capacity k (i + 1) (omega arith) small),
    )

-- A new arena of at least one node, whose indices are below the null index, has all its nodes free, in
-- their order.
pub new_order_arena-IsOrderPool :
    (k : ℕ) → suc k ≤ null_idx → IsOrderPool (new_order_arena (suc k)) (range 0 (suc k)) []
unfolding new_order_arena AllActive length
new_order_arena-IsOrderPool k small = record {
  pool = record {
    all_free = initial-AllFree (suc k) k 0 (omega arith) small;
    all_active = tt;
    whole = omega (arith, length-range 0 (suc k));
  };
  counted = refl;
  bounded = small;
}
