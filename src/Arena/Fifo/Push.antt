-- ===== src/Arena/Fifo/Push.antt =====
-- `push_order` appends to the queue.
use ultra_low_latency_order.Prelude.{
  ℕ, ◌+◌, ◌<◌, ◌≡◌, ◌≢◌, refl, sym, ◌∙◌, ap, subst, List, [], ◌∷◌, ◌++◌, ◌⊎◌, inl, inr, Bool-cases,
  ◌==◌, if◌then◌else◌, eq→==, true, false, u64_mod, u32_mod, add64, add64-eq, add32, done,
  read-done, arith, sum_append, length_append, length_one, sum_one, add32-eq,
}
use ultra_low_latency_order.Arena.Nodes.{null_idx, OrderNode, PriceLevelNode}
use ultra_low_latency_order.Arena.Queue.{set_next, OrderNodes, push_order}
use ultra_low_latency_order.Arena.Chain.{Absent, Linked, Linked-outside, Apart-one}
use ultra_low_latency_order.Arena.Chain.Ends.{
  last-in, last-null, Linked-set_next, Linked-one, last-real, empty-last, Linked-join,
}
use ultra_low_latency_order.Arena.Fifo.{
  order_links, qty_at, IsQueue, IsRelinked, rung, sum-relinked, IsRelinked-trans, with_next,
  with_prev, set_next-done, set_prev-done, IsRelinked-with_next, IsRelinked-with_prev,
}

module _ (level : PriceLevelNode) (ns : OrderNodes) (n : ℕ) where
  -- The nodes with the new one behind the tail.
  abbrev behind : OrderNodes
  behind = with_next (with_prev ns n level.tail_order) n null_idx

  attached : OrderNodes
  attached = if level.tail_order == null_idx then behind else with_next behind level.tail_order n

  abbrev pushed_level : PriceLevelNode
  pushed_level = record level {
    head_order = if level.tail_order == null_idx then n else level.head_order;
    tail_order = n;
    total_qty = add64 level.total_qty (qty_at ns n);
    order_count = add32 level.order_count 1;
  }

  behind-IsRelinked : IsRelinked ns behind
  behind-IsRelinked =
      IsRelinked-trans ns _ _ (IsRelinked-with_prev ns n level.tail_order)
        (IsRelinked-with_next _ n null_idx)

  attached-IsRelinked : IsRelinked ns attached
  unfolding attached
  attached-IsRelinked = elim (Bool-cases (level.tail_order == null_idx)) [
    | inl none ↦ rw none behind-IsRelinked
    | inr some ↦
        rw some (
          IsRelinked-trans ns _ _ behind-IsRelinked
            (IsRelinked-with_next behind level.tail_order n))
  ]

  behind-node : (behind.at n).prev ≡ level.tail_order × ((behind.at n).next ≡ null_idx)
  behind-node = (ground arith, ground arith)

  behind-Linked :
      (xs : List ℕ)
      → Absent n xs
      → Linked order_links ns null_idx level.head_order xs level.tail_order null_idx
      → Linked order_links behind null_idx level.head_order xs level.tail_order null_idx
  behind-Linked xs fresh l =
      Linked-outside order_links _ n _ _ _ xs _ _ fresh
        (Linked-outside order_links ns n _ _ _ xs _ _ fresh l)

  attached-empty : (level.tail_order == null_idx) ≡ true → attached ≡ behind
  unfolding attached
  attached-empty e = rw e refl

  attached-full :
      (level.tail_order == null_idx) ≡ false → attached ≡ with_next behind level.tail_order n
  unfolding attached
  attached-full e = rw e refl

  attached-Linked :
      (xs : List ℕ)
      → n < ns.len
      → n < null_idx
      → Absent n xs
      → Linked order_links ns null_idx level.head_order xs level.tail_order null_idx
      → Linked order_links attached null_idx pushed_level.head_order (xs ++ n ∷ []) n null_idx
  attached-Linked [] inside fits fresh l =
      let (back, on) = behind-node in
      let b : level.tail_order ≡ null_idx = empty-last order_links ns _ _ _ _ l in
      let none : (level.tail_order == null_idx) ≡ true = eq→== _ _ b in
      rw (attached-empty none, none)
        (Linked-one order_links behind null_idx n null_idx (rw behind-IsRelinked.same_len inside)
          fits (back ∙ b) on)
  attached-Linked (x ∷ ys) inside fits fresh l =
      let (back, on) = behind-node in
      let (real, short) = last-real order_links ns _ _ x ys _ _ l in
      let some : (level.tail_order == null_idx) ≡ false = ground arith in
      let apart : level.tail_order ≢ n =
        λ e. last-in order_links ns _ _ x ys _ _ l (subst (λ k. Absent k (x ∷ ys)) (sym e) fresh) in
      let old : Linked order_links behind null_idx level.head_order (x ∷ ys) level.tail_order
          null_idx =
        behind-Linked (x ∷ ys) fresh l in
      let now : OrderNodes = with_next behind level.tail_order n in
      let same : now.at n ≡ behind.at n = ground arith in
      rw (attached-full some, some)
        (Linked-join order_links now _ _ (x ∷ ys) _ _ (n ∷ []) _ _ (Apart-one n (x ∷ ys) fresh)
          (Linked-set_next order_links behind _ _ x ys _ _ n old)
          (Linked-one order_links now level.tail_order n null_idx
            (rw behind-IsRelinked.same_len inside) fits (ap (λ (m : OrderNode). m.prev) same ∙ back)
            (ap (λ (m : OrderNode). m.next) same ∙ on)))

  -- The write to the old tail, where there is one.
  attach-done :
      ((level.tail_order == null_idx) ≡ true) ⊎ (level.tail_order < ns.len)
      → (if level.tail_order == null_idx then done behind else set_next behind level.tail_order n)
        ≡ done attached
  unfolding attached
  attach-done (inl e) = rw e refl
  attach-done (inr h) = elim (Bool-cases (level.tail_order == null_idx)) [
    | inl e ↦ rw e refl
    | inr e ↦ rw e (set_next-done behind level.tail_order n h)
  ]

  push_order-done :
      n < ns.len
      → ((level.tail_order == null_idx) ≡ true) ⊎ (level.tail_order < ns.len)
      → push_order level n ns ≡ done (pushed_level, attached)
  unfolding push_order
  push_order-done inside tail =
      let still : n < attached.len = rw attached-IsRelinked.same_len inside in
      rw
        (
          set_prev-done ns n level.tail_order inside,
          set_next-done (with_prev ns n level.tail_order) n null_idx inside,
          attach-done tail,
          read-done attached n still,
          attached-IsRelinked.same_order n,
        )
        refl

  -- On a level whose queue is `xs`, with `n` an index of the arena outside the queue and the level's
  -- new total and count within their words, `push_order` returns, the queue is then `xs` with `n`
  -- behind, and nothing but links has changed in the nodes, nor the price or links of the level.
  pub push_order-IsQueue :
      (xs : List ℕ)
      → IsQueue level ns xs
      → n < ns.len
      → n < null_idx
      → Absent n xs
      → level.total_qty + qty_at ns n < u64_mod
      → level.order_count + 1 < u32_mod
      → (level' : PriceLevelNode) × (ns' : OrderNodes) × (push_order level n ns
          ≡ done (level', ns'))
        × IsQueue level' ns' (xs ++ n ∷ [])
        × IsRelinked ns ns'
        × (rung level' ≡ rung level)
  push_order-IsQueue xs queue inside fits fresh total_fits count_fits = (
    pushed_level,
    attached,
    push_order-done inside (elim (last-null order_links ns _ _ xs _ _ queue.linked) [
      | inl (_, _, e) ↦ inl (eq→== _ _ e)
      | inr (h, _) ↦ inr h
    ]),
    record {
      linked = attached-Linked xs inside fits fresh queue.linked;
      totalled = omega (
        arith,
        add64-eq level.total_qty (qty_at ns n) total_fits,
        queue.totalled,
        sum-relinked ns attached (xs ++ n ∷ []) attached-IsRelinked,
        sum_append (qty_at ns) xs (n ∷ []),
        sum_one (qty_at ns) n,
      );
      counted = omega (
        arith,
        add32-eq level.order_count 1 count_fits,
        queue.counted,
        length_append xs (n ∷ []),
        length_one n,
      );
    },
    attached-IsRelinked,
    refl,
  )
