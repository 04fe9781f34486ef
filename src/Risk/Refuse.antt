-- ===== src/Risk/Refuse.antt =====
-- Which orders `lock_order_funds` refuses, and why.
use ultra_low_latency_order.Prelude.{
  ◌*◌, add64, sub64, update, ◌≤◌, ◌<◌, ◌≡◌, ◌≢◌, ◌⊎◌, inl, inr, none, some, arith, Option-cases,
  Bool-cases, u64_mod, leb, ltb, ◌==◌, ==→eq, ==→ne, false, refl,
}
use ultra_low_latency_order.Types.{
  num_symbols, OrderType, type_or_limit, Order, is_type, ok, err, RejectReason,
}
use ultra_low_latency_order.Risk.{
  Account, RiskEngine, get_account, lock_usd, lock_asset, lock_account, lock_order_funds,
  checked_mul64,
}

-- What an account lacks for an order of a quantity, and the reason that is given. The side byte 0 is a
-- buy, any other a sell.
pub data Lacks (a : Account) (o : Order) (why : RejectReason) : Type 0 where
  no_price : o.side ≡ 0 → o.price ≡ 0 → why ≡ RejectReason.invalid_order → Lacks a o why
  too_large :
      o.side ≡ 0 → u64_mod ≤ o.price * o.qty → why ≡ RejectReason.invalid_order → Lacks a o why
  no_dollars :
      o.side ≡ 0
      → o.price ≢ 0
      → a.usd_available < o.price * o.qty
      → o.price * o.qty < u64_mod
      → why ≡ RejectReason.insufficient_funds
      → Lacks a o why
  no_assets :
      o.side ≢ 0
      → a.asset_available o.symbol_id < o.qty
      → why ≡ RejectReason.insufficient_funds
      → Lacks a o why

-- An account that can pay for an order.
pub data Pays (a : Account) (o : Order) : Type 0 where
  dollars :
      o.side ≡ 0
      → o.price ≢ 0
      → o.price * o.qty ≤ a.usd_available
      → o.price * o.qty < u64_mod
      → Pays a o
  assets : o.side ≢ 0 → o.qty ≤ a.asset_available o.symbol_id → Pays a o

pub data IsRefused (r : RiskEngine) (o : Order) (why : RejectReason) : Type 0 where
  no_quantity : o.qty ≡ 0 → why ≡ RejectReason.invalid_order → IsRefused r o why
  no_symbol : num_symbols ≤ o.symbol_id → why ≡ RejectReason.invalid_order → IsRefused r o why
  no_account :
      o.qty ≢ 0
      → o.symbol_id < num_symbols
      → get_account o.user_id r ≡ none
      → why ≡ RejectReason.unauthorized
      → IsRefused r o why
  lacking :
      (a : Account)
      → o.qty ≢ 0
      → o.symbol_id < num_symbols
      → get_account o.user_id r ≡ some a
      → Lacks a o why
      → IsRefused r o why

pub record IsFunded (r : RiskEngine) (o : Order) : Type 0 where
  pub account : Account
  pub quantity : o.qty ≢ 0
  pub symbol : o.symbol_id < num_symbols
  pub found : get_account o.user_id r ≡ some account
  pub pays : Pays account o

lock_account-cases :
    (o : Order) (a : Account)
    → ((why : RejectReason) × Lacks a o why × (lock_account o a ≡ err why))
      ⊎ ((b : Account) × Pays a o × (lock_account o a ≡ ok b))
unfolding lock_account lock_usd lock_asset checked_mul64
lock_account-cases o a = elim (Bool-cases (o.side == 0)) [
  | inl buy ↦ elim (Bool-cases (o.price == 0)) [
    | inl free ↦ inl (_, no_price (==→eq _ _ buy) (==→eq _ _ free) refl, ground arith)
    | inr priced ↦ elim (Bool-cases (ltb (o.price * o.qty) u64_mod)) [
      | inl fits ↦ elim (Bool-cases (ltb a.usd_available (o.price * o.qty))) [
        | inl short ↦ inl (
          _,
          no_dollars (==→eq _ _ buy) (==→ne _ _ priced) (ground arith) (ground arith) refl,
          ground arith,
        )
        | inr enough ↦ inr (
          record a {
            usd_available = sub64 a.usd_available (o.price * o.qty);
            usd_locked = add64 a.usd_locked (o.price * o.qty);
          },
          dollars (==→eq _ _ buy) (==→ne _ _ priced) (ground arith) (ground arith),
          rw (buy, priced, fits, enough) refl,
        )
      ]
      | inr large ↦ inl (_, too_large (==→eq _ _ buy) (ground arith) refl, ground arith)
    ]
  ]
  | inr sell ↦ elim (Bool-cases (ltb (a.asset_available o.symbol_id) o.qty)) [
    | inl short ↦ inl (_, no_assets (==→ne _ _ sell) (ground arith) refl, ground arith)
    | inr enough ↦ inr (
      record a {
        asset_available =
            update a.asset_available o.symbol_id (sub64 (a.asset_available o.symbol_id) o.qty);
        asset_locked = update a.asset_locked o.symbol_id (add64 (a.asset_locked o.symbol_id) o.qty);
      },
      assets (==→ne _ _ sell) (ground arith),
      rw (sell, enough) refl,
    )
  ]
]

-- `lock_order_funds` either refuses an order or reserves for it.
pub lock_order_funds-IsRefused :
    (r : RiskEngine) (o : Order)
    → is_type (type_or_limit o) OrderType.cancel ≡ false
    → ((why : RejectReason) × IsRefused r o why × (lock_order_funds r o ≡ (err why, r)))
      ⊎ (IsFunded r o × ((lock_order_funds r o).0 ≡ ok tt))
unfolding lock_order_funds
lock_order_funds-IsRefused r o not_cancel = elim (Bool-cases (o.qty == 0)) [
  | inl nothing ↦ inl (_, no_quantity (==→eq _ _ nothing) refl, rw (not_cancel, nothing) refl)
  | inr some_qty ↦ elim (Bool-cases (leb num_symbols o.symbol_id)) [
    | inl unknown ↦ inl (_, no_symbol (ground arith) refl, rw (not_cancel, some_qty, unknown) refl)
    | inr known ↦ elim (Option-cases (get_account o.user_id r)) [
      | inl missing ↦ inl (
        _,
        no_account (==→ne _ _ some_qty) (ground arith) missing refl,
        rw (not_cancel, some_qty, known, missing) refl,
      )
      | inr (a, found) ↦ elim (lock_account-cases o a) [
        | inl (why, lacks, failed) ↦ inl (
          why,
          lacking a (==→ne _ _ some_qty) (ground arith) found lacks,
          rw (not_cancel, some_qty, known, found, failed) refl,
        )
        | inr (b, pays, locked) ↦ inr (
          record {
            account = a;
            quantity = ==→ne _ _ some_qty;
            symbol = ground arith;
            found = found;
            pays = pays;
          },
          rw (not_cancel, some_qty, known, found, locked) refl,
        )
      ]
    ]
  ]
]
