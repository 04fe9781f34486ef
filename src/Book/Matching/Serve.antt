-- ===== src/Book/Matching/Serve.antt =====
-- What `match_level` promises, over a plain list of resting orders: first come, first served.
use ultra_low_latency_order.Prelude.{
  ℕ, ◌-◌, ◌≡◌, refl, Bool, true, false, List, [], ◌∷◌, min, ltb, ◌==◌, if◌then◌else◌, add64,
}
use ultra_low_latency_order.Types.{Order, Trade}
use ultra_low_latency_order.Book.Matching.{trade_of}

-- The outcome: what is left of the incoming order, the queue that is left, the trades, the orders
-- filled, the next match id, and whether an order of the same user has stopped it.
pub record Served : Type 0 where
  pub incoming : Order
  pub queue : List (Order × ℕ)
  pub trades : List Trade
  pub filled : List Order
  pub next_match_id : ℕ
  pub stopped : Bool

abbrev pub nothing : Order → List (Order × ℕ) → ℕ → Bool → Served
nothing o rs k stopped = record {
  incoming = o;
  queue = rs;
  trades = [];
  filled = [];
  next_match_id = k;
  stopped = stopped;
}

abbrev pub less : Order → ℕ → Order
less o q = record o { qty = o.qty - q }

abbrev pub after_fill : Trade → Order → Served → Served
after_fill t filled rest = record rest { trades = t ∷ rest.trades; filled = filled ∷ rest.filled }

-- The incoming order `o` of connection `c`, with `k` the next match id.
unfoldable pub serve : ℕ → ℕ → Order → List (Order × ℕ) → Served
serve c k o [] = nothing o [] k false
serve c k o (r ∷ rs) =
    let q = min o.qty r.0.qty in
    let t = trade_of o c r q k in
    let rest = serve c (add64 k 1) (less o q) rs in
    if o.qty == 0
    then nothing o (r ∷ rs) k false
    else if r.0.user_id == o.user_id
    then nothing o (r ∷ rs) k true
    else if ltb o.qty r.0.qty
    then record (nothing (less o q) ((less r.0 q, r.1) ∷ rs) (add64 k 1) false) { trades = t ∷ [] }
    else after_fill t r.0 rest

pub serve_nil : (c k : ℕ) (o : Order) → serve c k o [] ≡ nothing o [] k false
unfolding serve
serve_nil c k o = refl

module _ (c k : ℕ) (o : Order) (r : Order × ℕ) (rs : List (Order × ℕ)) where
  pub serve-sated : (o.qty == 0) ≡ true → serve c k o (r ∷ rs) ≡ nothing o (r ∷ rs) k false
  unfolding serve
  serve-sated e = rw e refl

  module _ (hungry : (o.qty == 0) ≡ false) where
    pub serve-own :
        (r.0.user_id == o.user_id) ≡ true → serve c k o (r ∷ rs) ≡ nothing o (r ∷ rs) k true
    unfolding serve
    serve-own e = rw (hungry, e) refl

    module _ (foreign : (r.0.user_id == o.user_id) ≡ false) where
      pub serve-partial :
          ltb o.qty r.0.qty ≡ true
          → serve c k o (r ∷ rs)
            ≡ record (nothing
                (less o (min o.qty r.0.qty))
                ((less r.0 (min o.qty r.0.qty), r.1) ∷ rs)
                (add64 k 1)
                false) { trades = trade_of o c r (min o.qty r.0.qty) k ∷ [] }
      unfolding serve
      serve-partial e = rw (hungry, foreign, e) refl

      pub serve-filled :
          ltb o.qty r.0.qty ≡ false
          → serve c k o (r ∷ rs)
            ≡ after_fill
                (trade_of o c r (min o.qty r.0.qty) k)
                r.0
                (serve c (add64 k 1) (less o (min o.qty r.0.qty)) rs)
      unfolding serve
      serve-filled e = rw (hungry, foreign, e) refl
