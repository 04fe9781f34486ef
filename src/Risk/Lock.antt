-- ===== src/Risk/Lock.antt =====
-- `lock_order_funds` and `unlock_order_funds`: reservation moves money between the two states of
-- one account, and unlocking what was locked restores the engine.
use ultra_low_latency_order.Prelude.{
  ℕ, ◌<◌, ◌≡◌, inl, inr, some, arith, Option-cases, Bool-cases, u64_mod, add64, sub64, leb, ◌==◌,
  ◌⊎◌, Bool, ◌||◌, false,
}
use ultra_low_latency_order.Types.{
  num_symbols, OrderType, type_or_limit, Order, is_type, ok, Result-cases,
}
use ultra_low_latency_order.Risk.{
  Account, RiskEngine, get_account, set_account, lock_account, lock_order_funds,
}
use ultra_low_latency_order.Risk.Totals.{
  usd_of, asset_of, usd_total, asset_total, Fits, usd_total-set_account, asset_total-set_account,
  usd_of-le, asset_of-le,
}

-- The three checks before the account is looked up.
abbrev refused : Order → Bool
refused o = is_type (type_or_limit o) OrderType.cancel || o.qty == 0 || leb num_symbols o.symbol_id

lock_account-usd_of :
    (o : Order) (a b : Account) → lock_account o a ≡ ok b → usd_of a < u64_mod → usd_of b ≡ usd_of a
unfolding lock_account add64 sub64
lock_account-usd_of o a b h f = ground arith

lock_account-asset_of :
    (s : ℕ) (o : Order) (a b : Account)
    → lock_account o a ≡ ok b
    → asset_of s a < u64_mod
    → asset_of s b ≡ asset_of s a
unfolding lock_account add64 sub64
lock_account-asset_of s o a b h f = ground arith

-- The engine keeps its accounts, or one of them was found and is replaced by its locked form.
lock_order_funds-cases :
    (r : RiskEngine) (o : Order)
    → ((lock_order_funds r o).1 ≡ r)
      ⊎ ((a : Account) × (b : Account) × (get_account o.user_id r ≡ some a)
          × (lock_account o a ≡ ok b)
          × (lock_order_funds r o ≡ (ok tt, set_account o.user_id b r)))
unfolding lock_order_funds
lock_order_funds-cases r o = elim (Option-cases (get_account o.user_id r)) [
  | inl missing ↦ inl (ground arith)
  | inr (a, found) ↦ elim (Result-cases (lock_account o a)) [
    | inl (b, locked) ↦ elim (Bool-cases (refused o)) [
      | inl no_lock ↦ inl (ground arith)
      | inr checked ↦ inr (a, b, found, locked, ground arith)
    ]
    | inr (e, failed) ↦ inl (ground arith)
  ]
]

-- A reservation conserves the dollars and each asset of an engine whose totals of these are words.
pub lock_order_funds-conserves :
    (r : RiskEngine) (o : Order)
    → Fits r
    → (usd_total (lock_order_funds r o).1 ≡ usd_total r)
      × ((s : ℕ) → asset_total s (lock_order_funds r o).1 ≡ asset_total s r)
lock_order_funds-conserves r o fits = elim (lock_order_funds-cases r o) [
  | inl same ↦ (rw same, λ s. rw same)
  | inr (a, b, found, locked, e) ↦ (
    rw e (
        omega (
          arith,
          usd_total-set_account o.user_id a b r found,
          lock_account-usd_of o a b locked,
          usd_of-le o.user_id a r found,
          fits.usd_fits,
        )),
    λ s. rw e (
        omega (
          arith,
          asset_total-set_account s o.user_id a b r found,
          lock_account-asset_of s o a b locked,
          asset_of-le s o.user_id a r found,
          fits.asset_fits s,
        )),
  )
]

-- What a successful reservation for an order other than a cancel has found and done.
pub lock_order_funds-ok :
    (r : RiskEngine) (o : Order)
    → is_type (type_or_limit o) OrderType.cancel ≡ false
    → (lock_order_funds r o).0 ≡ ok tt
    → (a : Account) × (b : Account) × (get_account o.user_id r ≡ some a)
      × (lock_account o a ≡ ok b)
      × ((lock_order_funds r o).1 ≡ set_account o.user_id b r)
      × (leb num_symbols o.symbol_id ≡ false)
      × ((o.qty == 0) ≡ false)
unfolding lock_order_funds
lock_order_funds-ok r o h e = elim (Option-cases (get_account o.user_id r)) [
  | inl missing ↦ absurd (ground arith)
  | inr (a, found) ↦ elim (Result-cases (lock_account o a)) [
    | inl (b, locked) ↦ (a, b, found, locked, ground arith, ground arith, ground arith)
    | inr (why, failed) ↦ absurd (ground arith)
  ]
]
