-- ===== src/Book/Matching/Fifo.antt =====
-- The loop of `match_level` on a whole queue.
use ultra_low_latency_order.Prelude.{
  ℕ, zero, suc, ◌<◌, sym, false, List, [], ◌∷◌, length, subst, arith, ◌==◌, Bool-cases, inl, inr,
}
use ultra_low_latency_order.Arena.Fifo.Pop.{is_empty-IsQueue}
use ultra_low_latency_order.Book.Matching.{MatchState}
use ultra_low_latency_order.Book.Matching.Serve.{serve_nil, serve-sated}
use ultra_low_latency_order.Book.Matching.Round.{IsReady}
use ultra_low_latency_order.Book.Matching.Loop.{
  Serves, served, Serves-nothing, Serves-head, match_level-sated, match_level-empty,
}

module _ (c : ℕ) where
  Serves-cons :
      (fuel : ℕ) (s : MatchState) (x : ℕ) (xs : List ℕ)
      → IsReady s (x ∷ xs)
      → ((t : MatchState) → IsReady t xs → Serves (suc fuel) c t (served c t xs))
      → Serves (suc (suc fuel)) c s (served c s (x ∷ xs))
  Serves-cons fuel s x xs h rest = elim (Bool-cases (s.incoming.qty == 0)) [
    | inl sated ↦
        subst (Serves (suc (suc fuel)) c s)
          (sym (serve-sated c s.trade_id_counter s.incoming _ _ sated))
          (Serves-nothing c s (suc (suc fuel)) (x ∷ xs) false h
            (match_level-sated c s (suc fuel) sated))
    | inr hungry ↦
        let (_, e, _) = is_empty-IsQueue s.level s.order_arena.nodes x xs h.queue in
        subst (λ y. Serves (suc (suc fuel)) c s (served c s (y ∷ xs))) e
          (Serves-head c s xs (subst (λ y. IsReady s (y ∷ xs)) (sym e) h) hungry fuel rest)
  ]

  -- Let the nodes `xs` be the queue of the level, the level's total and the incoming quantity be
  -- words and the two indices be valid. With more fuel than the queue is long, `match_level` returns,
  -- and what it returns is what serving the queue's orders first come, first served says: the trades
  -- with their match ids, what is left of the incoming order and of the queue, and whether an order
  -- of the same user has stopped it. The nodes left are a queue again, the price and links of the
  -- level are as before, and of the orders the filled ones, and no others, are gone from both
  -- indices.
  pub match_level-serve :
      (fuel : ℕ) (s : MatchState) (xs : List ℕ)
      → length xs < fuel
      → IsReady s xs
      → Serves fuel c s (served c s xs)
  unfolding length
  match_level-serve zero s xs enough h = absurd (omega (arith, enough))
  match_level-serve (suc fuel) s [] enough h =
      subst (Serves (suc fuel) c s) (sym (serve_nil c s.trade_id_counter s.incoming))
        (Serves-nothing c s (suc fuel) [] false h (match_level-empty c s fuel h))
  match_level-serve (suc zero) s (x ∷ xs) enough h = absurd (omega (arith, enough))
  match_level-serve (suc (suc fuel)) s (x ∷ xs) enough h =
      Serves-cons fuel s x xs h λ t k. match_level-serve (suc fuel) t xs (omega (arith, enough)) k
