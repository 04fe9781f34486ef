-- ===== src/Book/Matching/Sums.antt =====
-- What serving a queue does with quantities and users.
use ultra_low_latency_order.Prelude.{
  ℕ, ◌+◌, ◌<◌, ◌≤◌, ◌≡◌, ◌≢◌, ◌⊎◌, inl, inr, refl, sym, ◌∙◌, ap, true, List, [], ◌∷◌, ◌++◌, min,
  sum, length, add64, arith, ltb, ◌==◌, Bool-cases, ==→ne, Bool, done, subst,
}
use ultra_low_latency_order.Types.{Order, Trade}
use ultra_low_latency_order.Arena.Queue.{OrderNodes, is_empty}
use ultra_low_latency_order.Arena.Fifo.{qty_at, resting}
use ultra_low_latency_order.Arena.Fifo.Pop.{is_empty-IsQueue_nil}
use ultra_low_latency_order.Book.Matching.{MatchState, match_level}
use ultra_low_latency_order.Book.Matching.Serve.{
  Served, less, serve, serve_nil, serve-sated, serve-own, serve-partial, serve-filled,
}
use ultra_low_latency_order.Book.Matching.Round.{IsReady}
use ultra_low_latency_order.Book.Matching.Fifo.{match_level-serve}

abbrev pub trade_qty : Trade → ℕ
trade_qty t = t.qty

abbrev resting_qty : Order × ℕ → ℕ
resting_qty r = r.0.qty

-- No maker of the trades is the user `u`, who is the taker of all of them.
unfoldable pub IsForeign : ℕ → List Trade → Type 0
IsForeign u [] = Unit
IsForeign u (t ∷ ts) = (t.maker_user_id ≢ u) × (t.taker_user_id ≡ u) × IsForeign u ts

-- The trades carry the match ids from `k` on, and `m` comes next.
unfoldable pub IsNumbered : ℕ → List Trade → ℕ → Type 0
IsNumbered k [] m = m ≡ k
IsNumbered k (t ∷ ts) m = (t.match_id ≡ k) × IsNumbered (add64 k 1) ts m

-- What holds of the outcome `v` of serving `rs` to `o`, with `k` the next match id.
record IsFair (k : ℕ) (o : Order) (rs : List (Order × ℕ)) (v : Served) : Type 0 where
  taken : o.qty ≡ v.incoming.qty + sum trade_qty v.trades
  given : sum resting_qty rs ≡ sum resting_qty v.queue + sum trade_qty v.trades
  foreign : IsForeign o.user_id v.trades
  numbered : IsNumbered k v.trades v.next_match_id
  exhausted : (v.incoming.qty ≡ 0) ⊎ (v.queue ≡ []) ⊎ (v.stopped ≡ true)

serve-IsFair : (c k : ℕ) (o : Order) (rs : List (Order × ℕ)) → IsFair k o rs (serve c k o rs)
unfolding IsForeign IsNumbered sum
serve-IsFair c k o [] = rw (serve_nil c k o) (record {
  taken = omega arith;
  given = refl;
  foreign = tt;
  numbered = refl;
  exhausted = inr (inl refl);
})
serve-IsFair c k o (r ∷ rs) =
    let q : ℕ = min o.qty r.0.qty in
    let rest = serve-IsFair c (add64 k 1) (less o q) rs in
    elim (Bool-cases (o.qty == 0)) [
      | inl sated ↦ subst (IsFair k o (r ∷ rs)) (sym (serve-sated c k o r rs sated)) (record {
        taken = omega arith;
        given = omega arith;
        foreign = tt;
        numbered = refl;
        exhausted = inl (ground arith);
      })
      | inr hungry ↦ elim (Bool-cases (r.0.user_id == o.user_id)) [
        | inl own ↦ subst (IsFair k o (r ∷ rs)) (sym (serve-own c k o r rs hungry own)) (record {
          taken = omega arith;
          given = omega arith;
          foreign = tt;
          numbered = refl;
          exhausted = inr (inr refl);
        })
        | inr foreign ↦ elim (Bool-cases (ltb o.qty r.0.qty)) [
          | inl small ↦
              let lt : o.qty < r.0.qty = ground arith in
              subst (IsFair k o (r ∷ rs)) (sym (serve-partial c k o r rs hungry foreign small))
                (record {
                  taken = omega arith;
                  given = omega arith;
                  foreign = (==→ne _ _ foreign, refl, tt);
                  numbered = (refl, refl);
                  exhausted = inl (omega (arith, lt));
                })
          | inr large ↦
              let le : r.0.qty ≤ o.qty = ground arith in
              subst (IsFair k o (r ∷ rs)) (sym (serve-filled c k o r rs hungry foreign large))
                (record {
                  taken = omega (arith, rest.taken);
                  given = omega (arith, rest.given);
                  foreign = (==→ne _ _ foreign, refl, rest.foreign);
                  numbered = (refl, rest.numbered);
                  exhausted = rest.exhausted;
                })
        ]
      ]
    ]

sum-resting : (ns : OrderNodes) (xs : List ℕ) → sum (qty_at ns) xs ≡ sum resting_qty (resting ns xs)
unfolding sum
sum-resting ns [] = refl
sum-resting ns (x ∷ xs) = omega (arith, sum-resting ns xs)

-- A level whose orders are none is empty.
empty-resting :
    (s : MatchState) (xs : List ℕ)
    → IsReady s xs
    → resting s.order_arena.nodes xs ≡ []
    → is_empty s.level ≡ true
empty-resting s [] h e = is_empty-IsQueue_nil s.level s.order_arena.nodes h.queue
empty-resting s (x ∷ xs) h e = absurd cc

-- Let the nodes `xs` be the queue of the level, the level's total and the incoming quantity be words
-- and the two indices be valid. With more fuel than the queue is long, `match_level` returns, and the trades that it adds take from the incoming
-- order and from the level's total exactly their quantities, none is between orders of one user, and
-- their match ids count on from the book's counter. It stops only when the incoming order is filled,
-- the level is empty or it answers that it was halted.
pub match_level-IsFair :
    (fuel c : ℕ) (s : MatchState) (xs : List ℕ)
    → length xs < fuel
    → IsReady s xs
    → (stopped : Bool) × (s' : MatchState) × (ts : List Trade) × (match_level fuel c s
        ≡ done (stopped, s'))
      × (s'.trades ≡ s.trades ++ ts)
      × (s.incoming.qty ≡ s'.incoming.qty + sum trade_qty ts)
      × (s.level.total_qty ≡ s'.level.total_qty + sum trade_qty ts)
      × IsForeign s.incoming.user_id ts
      × IsNumbered s.trade_id_counter ts s'.trade_id_counter
      × ((s'.incoming.qty ≡ 0) ⊎ (is_empty s'.level ≡ true) ⊎ (stopped ≡ true))
match_level-IsFair fuel c s xs enough h =
    let orders : List (Order × ℕ) = resting s.order_arena.nodes xs in
    let v : Served = serve c s.trade_id_counter s.incoming orders in
    let (s', ys, runs, out) = match_level-serve c fuel s xs enough h in
    let fair : IsFair s.trade_id_counter s.incoming orders v =
      serve-IsFair c s.trade_id_counter s.incoming orders in
    let left : s'.incoming.qty ≡ v.incoming.qty = ap (λ (o : Order). o.qty) out.left in
    (
      v.stopped,
      s',
      v.trades,
      runs,
      out.traded,
      fair.taken ∙ ap (λ n. n + sum trade_qty v.trades) (sym left),
      omega (
        arith,
        h.queue.totalled,
        sum-resting s.order_arena.nodes xs,
        fair.given,
        out.ready.queue.totalled,
        sum-resting s'.order_arena.nodes ys,
        ap (sum resting_qty) out.remaining,
      ),
      fair.foreign,
      subst (IsNumbered s.trade_id_counter v.trades) (sym out.numbered) fair.numbered,
      elim fair.exhausted [
        | inl e ↦ inl (left ∙ e)
        | inr (inl e) ↦ inr (inl (empty-resting s' ys out.ready (out.remaining ∙ e)))
        | inr (inr e) ↦ inr (inr e)
      ],
    )
