-- ===== src/Book/Matching/Loop.antt =====
-- The loop of `match_level` on a queue of orders.
use ultra_low_latency_order.Prelude.{
  ℕ, suc, ◌≡◌, refl, sym, ◌∙◌, ap, subst, Bool, true, false, List, [], ◌∷◌, ◌++◌, map, add64, sub64,
  sub64-eq, done, ◌>>=◌, if◌then◌else◌, arith, ltb, ◌==◌, Bool-cases, inl, inr, read-done,
}
use mathlib.Core.List.{append_assoc, append-nil}
use ultra_low_latency_order.Types.{Order}
use ultra_low_latency_order.Table.Without.{IsWithout, IsWithout-nil, IsWithout-remove}
use ultra_low_latency_order.Index.Orders
use ultra_low_latency_order.Index.Clients
use ultra_low_latency_order.Arena.Fifo.{resting, rung}
use ultra_low_latency_order.Arena.Fifo.Pop.{is_empty-IsQueue, is_empty-IsQueue_nil}
use ultra_low_latency_order.Book.Matching.{MatchState, take_qty, retire, match_round, match_level}
use ultra_low_latency_order.Book.Matching.Serve.{
  Served, nothing, less, serve, serve-own, serve-partial, serve-filled,
}
use ultra_low_latency_order.Book.Matching.Round.{IsReady, retire-IsRetired}
use ultra_low_latency_order.Book.Matching.Fill.{
  head_node, fill_qty, fill, traded, match_round-traded, traded-IsReady, resting-traded,
  less-incoming, rest-traded, head_fits,
}

abbrev pub order_key : Order → ℕ
order_key o = o.id

abbrev pub client_key : Order → ℕ × ℕ
client_key o = (o.user_id, o.client_order_id)

-- The state `s'` is what the outcome `v` says of the state `s`, with the queue `ys`.
pub record IsServed (s s' : MatchState) (v : Served) (ys : List ℕ) : Type 0 where
  pub ready : IsReady s' ys
  pub left : s'.incoming ≡ v.incoming
  pub remaining : resting s'.order_arena.nodes ys ≡ v.queue
  pub traded : s'.trades ≡ s.trades ++ v.trades
  pub numbered : s'.trade_id_counter ≡ v.next_match_id
  pub same_rung : rung s'.level ≡ rung s.level
  pub unindexed : IsWithout Orders.layout s.order_index s'.order_index (map order_key v.filled)
  pub forgotten :
      IsWithout Clients.layout s.client_order_index s'.client_order_index (map client_key v.filled)

-- The outcome for a state with the queue `xs`.
abbrev pub served : ℕ → MatchState → List ℕ → Served
served c s xs = serve c s.trade_id_counter s.incoming (resting s.order_arena.nodes xs)

-- The loop returns what `v` says.
abbrev pub Serves : ℕ → ℕ → MatchState → Served → Type 0
Serves fuel c s v =
    (s' : MatchState) × (ys : List ℕ) × (match_level fuel c s ≡ done (v.stopped, s'))
    × IsServed s s' v ys

-- The loop ends at once when the incoming order is filled.
pub match_level-sated :
    (c : ℕ) (s : MatchState) (fuel : ℕ)
    → (s.incoming.qty == 0) ≡ true
    → match_level (suc fuel) c s ≡ done (false, s)
unfolding match_level
match_level-sated c s fuel e = let no : ltb 0 s.incoming.qty ≡ false = ground arith in rw no refl

module _ (c : ℕ) (s : MatchState) where
  -- The loop leaves the state as it is.
  pub Serves-nothing :
      (fuel : ℕ) (xs : List ℕ) (stopped : Bool)
      → IsReady s xs
      → match_level fuel c s ≡ done (stopped, s)
      → Serves fuel c s
          (nothing s.incoming (resting s.order_arena.nodes xs) s.trade_id_counter stopped)
  Serves-nothing fuel xs stopped h stops = (
    s,
    xs,
    stops,
    record {
      ready = h;
      left = refl;
      remaining = refl;
      traded = sym (append-nil s.trades);
      numbered = refl;
      same_rung = refl;
      unindexed = IsWithout-nil Orders.layout s.order_index h.orders_valid;
      forgotten = IsWithout-nil Clients.layout s.client_order_index h.clients_valid;
    },
  )

  pub match_level-empty : (fuel : ℕ) → IsReady s [] → match_level (suc fuel) c s ≡ done (false, s)
  unfolding match_level
  match_level-empty fuel h =
      let empty = is_empty-IsQueue_nil s.level s.order_arena.nodes h.queue in ground (arith, empty)

  module _ (xs : List ℕ) (h : IsReady s (s.level.head_order ∷ xs))
      (hungry : (s.incoming.qty == 0) ≡ false) where
    -- The body of the loop, on the head of the queue.
    match_level-body :
        (fuel : ℕ)
        → match_level (suc fuel) c s ≡ (
            if (head_node c s).order.user_id == s.incoming.user_id
            then done (true, s)
            else (match_round c s s.level.head_order (head_node c s) >>= match_level fuel c))
    unfolding match_level
    match_level-body fuel =
        let (full, _, inside) = is_empty-IsQueue s.level s.order_arena.nodes _ xs h.queue in
        let yes : ltb 0 s.incoming.qty ≡ true = ground arith in
        rw (yes, full, read-done s.order_arena.nodes s.level.head_order inside) refl

    abbrev first : Order × ℕ
    first = ((head_node c s).order, (head_node c s).client_id)

    abbrev others : List (Order × ℕ)
    others = resting s.order_arena.nodes xs

    Serves-own :
        (fuel : ℕ)
        → ((head_node c s).order.user_id == s.incoming.user_id) ≡ true
        → Serves (suc fuel) c s (served c s (s.level.head_order ∷ xs))
    Serves-own fuel own =
        subst (Serves (suc fuel) c s)
          (sym (serve-own c s.trade_id_counter s.incoming first others hungry own))
          (Serves-nothing (suc fuel) (s.level.head_order ∷ xs) true h
            (match_level-body fuel ∙ rw own refl))

    module _ (foreign : ((head_node c s).order.user_id == s.incoming.user_id) ≡ false) where
      match_level-foreign :
          (fuel : ℕ)
          → match_level (suc fuel) c s ≡ (
              (if sub64 (head_node c s).order.qty (fill_qty c s) == 0
                then retire
                    (traded c s)
                    s.level.head_order
                    (take_qty (head_node c s).order (fill_qty c s))
                else done (traded c s))
              >>= match_level fuel c)
      match_level-foreign fuel =
          match_level-body fuel ∙ rw (foreign, match_round-traded c s xs h) refl

      -- The head is larger: the incoming order is filled and the loop ends in the next round.
      Serves-partial :
          (fuel : ℕ)
          → ltb s.incoming.qty (head_node c s).order.qty ≡ true
          → Serves (suc (suc fuel)) c s (served c s (s.level.head_order ∷ xs))
      Serves-partial fuel small =
          let leaves : (sub64 (head_node c s).order.qty (fill_qty c s) == 0) ≡ false = ground (
            arith,
            sub64-eq (head_node c s).order.qty (fill_qty c s) (head_fits c s xs h) (omega arith),
          ) in
          let sated : ((traded c s).incoming.qty == 0) ≡ true =
            ground (arith, sub64-eq s.incoming.qty (fill_qty c s) h.incoming_fits (omega arith)) in
          subst (Serves (suc (suc fuel)) c s)
            (sym (serve-partial c s.trade_id_counter s.incoming first others hungry foreign small))
            (
              traded c s,
              s.level.head_order ∷ xs,
              match_level-foreign (suc fuel)
                  ∙ rw leaves (match_level-sated c (traded c s) fuel sated),
              record {
                ready = traded-IsReady c s xs h;
                left = less-incoming c s xs h;
                remaining = resting-traded c s xs h;
                traded = refl;
                numbered = refl;
                same_rung = refl;
                unindexed = IsWithout-nil Orders.layout s.order_index h.orders_valid;
                forgotten = IsWithout-nil Clients.layout s.client_order_index h.clients_valid;
              },
            )

      -- The head is filled and retired; the loop goes on with the rest.
      Serves-filled :
          (fuel : ℕ)
          → ltb s.incoming.qty (head_node c s).order.qty ≡ false
          → ((t : MatchState) → IsReady t xs → Serves fuel c t (served c t xs))
          → Serves (suc fuel) c s (served c s (s.level.head_order ∷ xs))
      Serves-filled fuel large rest =
          let empties : (sub64 (head_node c s).order.qty (fill_qty c s) == 0) ≡ true = ground (
            arith,
            sub64-eq (head_node c s).order.qty (fill_qty c s) (head_fits c s xs h) (omega arith),
          ) in
          let (t, retires, r) =
            retire-IsRetired (traded c s) (take_qty (head_node c s).order (fill_qty c s)) xs
              (traded-IsReady c s xs h) in
          let v : Served =
            serve c (add64 s.trade_id_counter 1) (less s.incoming (fill_qty c s)) others in
          let same : served c t xs ≡ v =
            rw
              (
                r.same_counter,
                r.same_incoming,
                r.same_orders,
                less-incoming c s xs h,
                rest-traded c s xs h,
              )
              refl in
          let (s', ys, runs, out) = subst (Serves fuel c t) same (rest t r.ready) in
          subst (Serves (suc fuel) c s)
            (sym (serve-filled c s.trade_id_counter s.incoming first others hungry foreign large))
            (
              s',
              ys,
              match_level-foreign fuel ∙ rw (empties, retires) runs,
              record {
                ready = out.ready;
                left = out.left;
                remaining = out.remaining;
                traded =
                    out.traded
                    ∙ ap (λ ts. ts ++ v.trades) r.same_trades
                    ∙ append_assoc s.trades (fill c s ∷ []) v.trades;
                numbered = out.numbered;
                same_rung = out.same_rung ∙ r.same_rung;
                unindexed = IsWithout-remove Orders.layout _ _ _ _ _ r.orders_found out.unindexed;
                forgotten = IsWithout-remove Clients.layout _ _ _ _ _ r.clients_found out.forgotten;
              },
            )

    pub Serves-head :
        (fuel : ℕ)
        → ((t : MatchState) → IsReady t xs → Serves (suc fuel) c t (served c t xs))
        → Serves (suc (suc fuel)) c s (served c s (s.level.head_order ∷ xs))
    Serves-head fuel rest =
        elim (Bool-cases ((head_node c s).order.user_id == s.incoming.user_id)) [
          | inl own ↦ Serves-own (suc fuel) own
          | inr foreign ↦ elim (Bool-cases (ltb s.incoming.qty (head_node c s).order.qty)) [
            | inl small ↦ Serves-partial foreign fuel small
            | inr large ↦ Serves-filled foreign (suc fuel) large rest
          ]
        ]
