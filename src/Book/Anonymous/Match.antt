-- ===== src/Book/Anonymous/Match.antt =====
-- Matching without connections.
use ultra_low_latency_order.Prelude.{
  ℕ, zero, suc, ◌≡◌, refl, sym, ◌∙◌, ap, Bool, false, not, ◌&&◌, ◌||◌, List, [], ◌∷◌, ◌++◌, map,
  min, ltb, leb, if◌then◌else◌, ◌==◌, done, sub64, add64,
}
use ultra_low_latency_order.Types.{Order, Trade}
use ultra_low_latency_order.Arena.Nodes.{null_idx, OrderNode}
use ultra_low_latency_order.Arena.Orders.{OrderArena, deallocate}
use ultra_low_latency_order.Arena.Queue.{is_empty}
use ultra_low_latency_order.Index.Orders
use ultra_low_latency_order.Index.Clients
use ultra_low_latency_order.Book.Matching.{
  MatchState, trade_of, take_qty, retire, match_round, match_level,
}
use ultra_low_latency_order.Book.Anonymous.{
  mapx, bind-map, bind-same, if-map, bare, bares, read-bare, write-bare, bare_pop, pop_order-bare,
}

-- A trade without the connections of its parties.
abbrev pub bare_trade : Trade → Trade
bare_trade t = record t { maker_client_id = 0; taker_client_id = 0 }

abbrev pub bare_arena : OrderArena → OrderArena
bare_arena a = record a { nodes = bares a.nodes }

abbrev pub bare_state : MatchState → MatchState
bare_state s = record s { order_arena = bare_arena s.order_arena; trades = map bare_trade s.trades }

pub map-snoc :
    (ts : List Trade) (t : Trade)
    → map bare_trade (ts ++ t ∷ []) ≡ map bare_trade ts ++ bare_trade t ∷ []
map-snoc [] t = refl
map-snoc (u ∷ ts) t = ap (λ (us : List Trade). bare_trade u ∷ us) (map-snoc ts t)

pub deallocate-bare :
    (a : OrderArena) (i : ℕ) → deallocate (bare_arena a) i ≡ mapx bare_arena (deallocate a i)
unfolding deallocate
deallocate-bare a i = if-map bare_arena (i == null_idx || leb a.nodes.len i) _ _ refl (
    bind-map bare bare_arena _ _ _ (read-bare a.nodes i) λ node.
      bind-map bares bare_arena _ _ _
        (write-bare a.nodes i (record node { active = false; next = a.free_head; prev = null_idx }))
        λ nodes. refl)

retire-bare :
    (s : MatchState) (i : ℕ) (filled : Order)
    → retire (bare_state s) i filled ≡ mapx bare_state (retire s i filled)
unfolding retire
retire-bare s i filled =
    bind-map bare_pop bare_state _ _ _ (pop_order-bare s.level s.order_arena.nodes)
      λ (popped, level, nodes).
        bind-map bare_arena bare_state _ _ _
          (deallocate-bare (record s.order_arena { nodes = nodes }) i)
          λ arena.
            bind-same bare_state (Orders.remove s.order_index filled.id) _ _ λ (_, order_index).
              bind-same bare_state
                (Clients.remove s.client_order_index filled.user_id filled.client_order_id) _ _
                λ (_, client_order_index). refl

match_round-bare :
    (c : ℕ) (s : MatchState) (i : ℕ) (resting : OrderNode)
    → match_round 0 (bare_state s) i (bare resting) ≡ mapx bare_state (match_round c s i resting)
unfolding match_round
match_round-bare c s i resting =
    let trade_qty = min s.incoming.qty resting.order.qty in
    let left = take_qty resting.order trade_qty in
    let trade =
      trade_of s.incoming c (resting.order, resting.client_id) trade_qty s.trade_id_counter in
    bind-map bares bare_state _ _ _
      (write-bare s.order_arena.nodes i (record resting { order = left }))
      λ nodes.
        let s' : MatchState = record s {
          incoming = take_qty s.incoming trade_qty;
          level = record s.level { total_qty = sub64 s.level.total_qty trade_qty };
          order_arena = record s.order_arena { nodes = nodes };
          trades = s.trades ++ trade ∷ [];
          trade_id_counter = add64 s.trade_id_counter 1;
        } in
        ap
          (λ (ts : List Trade).
            let t : MatchState = record (bare_state s') { trades = ts } in
            if left.qty == 0 then retire t i left else done t)
          (sym (map-snoc s.trades trade))
        ∙ if-map bare_state (left.qty == 0) _ _ (retire-bare s' i left) refl

abbrev pub bare_halt : Bool × MatchState → Bool × MatchState
bare_halt (stp, s) = (stp, bare_state s)

pub match_level-bare :
    (fuel c : ℕ) (s : MatchState)
    → match_level fuel 0 (bare_state s) ≡ mapx bare_halt (match_level fuel c s)
unfolding match_level
match_level-bare zero c s = refl
match_level-bare (suc fuel) c s =
    if-map bare_halt (ltb 0 s.incoming.qty && not (is_empty s.level)) _ _
      (bind-map bare bare_halt _ _ _ (read-bare s.order_arena.nodes s.level.head_order) λ resting.
        if-map bare_halt (resting.order.user_id == s.incoming.user_id) _ _ refl (
          bind-map bare_state bare_halt _ _ _ (match_round-bare c s s.level.head_order resting)
            λ s'. match_level-bare fuel c s'))
      refl
