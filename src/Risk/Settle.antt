-- ===== src/Risk/Settle.antt =====
-- `settle_trade`: the buyer pays from locked dollars what the seller receives, the seller hands over
-- from locked assets what the buyer receives, and no other account changes.
use ultra_low_latency_order.Prelude.{
  ℕ, ◌+◌, ◌*◌, ◌≤◌, ◌<◌, ◌≡◌, ◌≢◌, inl, inr, some, arith, Bool-cases, u64_mod, add64, sat_mul64,
  find-put, ◌==◌, subst, some_unique, ap, ◌∙◌, ==→eq, if◌then◌else◌,
}
use ultra_low_latency_order.Types.{num_symbols, Trade}
use ultra_low_latency_order.Risk.{
  Account, RiskEngine, get_account, set_account, locked_price, settle_buyer_account,
  settle_seller_account, settle_buyer, settle_seller, settle_trade,
}
use ultra_low_latency_order.Risk.Totals.{
  usd_of, asset_of, usd_total, asset_total, usd_total-set_account, asset_total-set_account,
  usd_of-le, asset_of-le,
}

-- What a matched trade may rely on: both accounts exist, the buyer has locked the trade's quantity
-- at a price no lower than the trade's, the seller has locked the quantity, and the products and
-- sums fit a machine word.
pub record Covered (r : RiskEngine) (t : Trade) (taker_limit_price : ℕ) : Type 0 where
  pub buyer : Account
  pub seller : Account
  pub buyer_found : get_account t.buyer_id r ≡ some buyer
  pub seller_found : get_account t.seller_id r ≡ some seller
  pub known_symbol : t.symbol_id < num_symbols
  pub price_covered : t.price ≤ locked_price t taker_limit_price
  pub usd_covered : locked_price t taker_limit_price * t.qty ≤ buyer.usd_locked
  pub asset_covered : t.qty ≤ seller.asset_locked t.symbol_id
  pub usd_fits : usd_total r < u64_mod
  pub asset_fits : (s : ℕ) → asset_total s r + t.qty < u64_mod

-- The account under key `j` after a write under key `k`.
pub get_account-set_account :
    (j k : ℕ) (b : Account) (r : RiskEngine)
    → get_account j (set_account k b r) ≡ (if k == j then some b else get_account j r)
unfolding get_account set_account
get_account-set_account j k b r = find-put j k b r.accounts

-- The buyer's dollars fall by the cost of the trade.
settle_buyer_account-usd_of :
    (t : Trade) (p : ℕ) (a : Account)
    → usd_of a < u64_mod
    → t.price ≤ locked_price t p
    → locked_price t p * t.qty ≤ a.usd_locked
    → usd_of (settle_buyer_account t p a) + t.price * t.qty ≡ usd_of a
unfolding settle_buyer_account sat_mul64 add64
settle_buyer_account-usd_of t p a fits better covered = grind arith

-- The buyer gains the quantity of the traded asset, and of no other.
settle_buyer_account-asset_of :
    (s : ℕ) (t : Trade) (p : ℕ) (a : Account)
    → asset_of s a + t.qty < u64_mod
    → asset_of s (settle_buyer_account t p a)
      ≡ asset_of s a + (if t.symbol_id == s then t.qty else 0)
unfolding settle_buyer_account add64
settle_buyer_account-asset_of s t p a fits = ground arith

-- The seller's dollars grow by the cost of the trade.
settle_seller_account-usd_of :
    (t : Trade) (a : Account)
    → usd_of a + t.price * t.qty < u64_mod
    → usd_of (settle_seller_account t a) ≡ usd_of a + t.price * t.qty
unfolding settle_seller_account sat_mul64 add64
settle_seller_account-usd_of t a fits = ground arith

-- The seller gives up the quantity of the traded asset, and of no other.
settle_seller_account-asset_of :
    (s : ℕ) (t : Trade) (a : Account)
    → t.qty ≤ a.asset_locked t.symbol_id
    → asset_of s (settle_seller_account t a) + (if t.symbol_id == s then t.qty else 0)
      ≡ asset_of s a
unfolding settle_seller_account
settle_seller_account-asset_of s t a covered = ground arith

settle_buyer-found :
    (r : RiskEngine) (t : Trade) (p : ℕ) (a : Account)
    → get_account t.buyer_id r ≡ some a
    → settle_buyer r t p ≡ set_account t.buyer_id (settle_buyer_account t p a) r
unfolding settle_buyer
settle_buyer-found r t p a h = ground arith

settle_seller-found :
    (r : RiskEngine) (t : Trade) (a : Account)
    → get_account t.seller_id r ≡ some a
    → settle_seller r t ≡ set_account t.seller_id (settle_seller_account t a) r
unfolding settle_seller
settle_seller-found r t a h = ground arith

settle_trade-known :
    (r : RiskEngine) (t : Trade) (p : ℕ)
    → t.symbol_id < num_symbols
    → settle_trade r t p ≡ settle_seller (settle_buyer r t p) t
unfolding settle_trade
settle_trade-known r t p h = ground arith

module _ (r : RiskEngine) (t : Trade) (p : ℕ) (c : Covered r t p) where
  -- The engine after the buyer's step, and the seller's account there: the buyer's step leaves
  -- locked assets alone, also where buyer and seller are one.
  middle : RiskEngine
  middle = set_account t.buyer_id (settle_buyer_account t p c.buyer) r

  seller_after : Account
  seller_after = if t.buyer_id == t.seller_id then settle_buyer_account t p c.buyer else c.seller

  seller_after-found : get_account t.seller_id middle ≡ some seller_after
  unfolding middle seller_after
  seller_after-found = ground (
    arith,
    get_account-set_account t.seller_id t.buyer_id (settle_buyer_account t p c.buyer) r,
    c.seller_found,
  )

  seller_after-covered : t.qty ≤ seller_after.asset_locked t.symbol_id
  unfolding seller_after settle_buyer_account
  seller_after-covered = elim (Bool-cases (t.buyer_id == t.seller_id)) [
    | inl same ↦
        let found : get_account t.seller_id r ≡ some c.buyer =
          subst (λ k. get_account k r ≡ some c.buyer) (==→eq t.buyer_id t.seller_id same)
            c.buyer_found in
        let one : c.seller ≡ c.buyer = some_unique c.seller_found found in
        rw same (subst (λ (x : Account). t.qty ≤ x.asset_locked t.symbol_id) one c.asset_covered)
    | inr other ↦ rw other c.asset_covered
  ]

  usd_total-middle : usd_total middle + t.price * t.qty ≡ usd_total r
  unfolding middle
  usd_total-middle = omega (
    arith,
    usd_total-set_account t.buyer_id c.buyer (settle_buyer_account t p c.buyer) r c.buyer_found,
    settle_buyer_account-usd_of t p c.buyer
        (omega (arith, usd_of-le t.buyer_id c.buyer r c.buyer_found, c.usd_fits)) c.price_covered
        c.usd_covered,
  )

  asset_total-middle :
      (s : ℕ) → asset_total s middle ≡ asset_total s r + (if t.symbol_id == s then t.qty else 0)
  unfolding middle
  asset_total-middle s = omega (
    arith,
    asset_total-set_account s t.buyer_id c.buyer (settle_buyer_account t p c.buyer) r c.buyer_found,
    settle_buyer_account-asset_of s t p c.buyer
        (omega (arith, asset_of-le s t.buyer_id c.buyer r c.buyer_found, c.asset_fits s)),
  )

  settled :
      settle_trade r t p ≡ set_account t.seller_id (settle_seller_account t seller_after) middle
  unfolding middle
  settled =
      settle_trade-known r t p c.known_symbol
      ∙ ap (λ x. settle_seller x t) (settle_buyer-found r t p c.buyer c.buyer_found)
      ∙ settle_seller-found middle t seller_after seller_after-found

  settle_trade-usd_total : usd_total (settle_trade r t p) ≡ usd_total r
  settle_trade-usd_total = rw settled (
      omega (
        arith,
        usd_total-middle,
        usd_total-set_account t.seller_id seller_after (settle_seller_account t seller_after) middle
            seller_after-found,
        settle_seller_account-usd_of t seller_after (
            omega (
              arith,
              usd_total-middle,
              usd_of-le t.seller_id seller_after middle seller_after-found,
              c.usd_fits,
            )),
      ))

  settle_trade-asset_total : (s : ℕ) → asset_total s (settle_trade r t p) ≡ asset_total s r
  settle_trade-asset_total s = rw settled (
      omega (
        arith,
        asset_total-middle s,
        asset_total-set_account s t.seller_id seller_after (settle_seller_account t seller_after)
            middle seller_after-found,
        settle_seller_account-asset_of s t seller_after seller_after-covered,
      ))

  -- Settling a covered trade conserves the dollars and each asset of the engine, also where buyer
  -- and seller are one account.
  pub settle_trade-conserves :
      (usd_total (settle_trade r t p) ≡ usd_total r)
      × ((s : ℕ) → asset_total s (settle_trade r t p) ≡ asset_total s r)
  settle_trade-conserves = (settle_trade-usd_total, settle_trade-asset_total)

-- A trade changes no account but the buyer's and the seller's.
pub settle_trade-others :
    (r : RiskEngine) (t : Trade) (p u : ℕ)
    → u ≢ t.buyer_id
    → u ≢ t.seller_id
    → get_account u (settle_trade r t p) ≡ get_account u r
unfolding settle_trade
settle_trade-others r t p u not_buyer not_seller = grind (arith, get_account-set_account)
