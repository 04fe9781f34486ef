-- ===== src/Risk/Unlock.antt =====
-- Unlocking undoes a reservation, except for a side byte that names no side.
use ultra_low_latency_order.Prelude.{
  ℕ, ◌+◌, ◌*◌, ◌≤◌, ◌<◌, ◌≡◌, refl, some, arith, ap, some_unique, ◌∙◌, fun_ext, u64_mod, add64,
  sub64, sat_mul64, update, put-put, put-find, find-put, leb, ◌==◌, eq→==, false,
}
use ultra_low_latency_order.Types.{
  num_symbols, Side, side_or_buy, get_side, OrderType, type_or_limit, Order, ok, is_type,
}
use ultra_low_latency_order.Risk.{
  Account, RiskEngine, get_account, set_account, lock_usd, lock_asset, lock_account,
  lock_order_funds, unlock_account, unlock_cancelled_order_margin,
}
use ultra_low_latency_order.Risk.Totals.{
  usd_of, asset_of, usd_total, Fits, usd_total-set_account, usd_of-le, asset_of-le,
}
use ultra_low_latency_order.Risk.Lock.{lock_order_funds-ok}

-- The account fits a machine word in each kind of money.
abbrev AccountFits : Account → ℕ → Type 0
AccountFits a s = (usd_of a < u64_mod) × (asset_of s a < u64_mod)

unlock-lock_usd :
    (o : Order) (a b : Account)
    → usd_of a < u64_mod
    → lock_usd o a ≡ ok b
    → unlock_account Side.buy o.symbol_id o.price o.qty b ≡ a
unfolding lock_usd unlock_account add64 sub64 sat_mul64
unlock-lock_usd o a b fits h = ground arith

relock : (f : ℕ → ℕ) (s x y : ℕ) → y ≡ f s → update (update f s x) s y ≡ f
relock f s x y h = fun_ext λ j. ground arith

lock_asset-ok :
    (o : Order) (a b : Account)
    → lock_asset o a ≡ ok b
    → (o.qty ≤ a.asset_available o.symbol_id)
      × (b ≡ record a {
        asset_available =
            update a.asset_available o.symbol_id (sub64 (a.asset_available o.symbol_id) o.qty);
        asset_locked = update a.asset_locked o.symbol_id (add64 (a.asset_locked o.symbol_id) o.qty);
      })
unfolding lock_asset
lock_asset-ok o a b h = ground arith

asset_path :
    (a : Account) (f g : ℕ → ℕ)
    → f ≡ a.asset_available
    → g ≡ a.asset_locked
    → ◌≡◌ {A = Account} (record a { asset_available = f; asset_locked = g }) a
asset_path a f g p q = λ i. record a { asset_available = p i; asset_locked = q i }

unlock-lock_asset :
    (o : Order) (a b : Account)
    → asset_of o.symbol_id a < u64_mod
    → lock_asset o a ≡ ok b
    → unlock_account Side.sell o.symbol_id o.price o.qty b ≡ a
unfolding unlock_account add64 sub64
unlock-lock_asset o a b fits h =
    let (enough, e) = lock_asset-ok o a b h in
    rw e (
      asset_path a _ _ (relock a.asset_available o.symbol_id _ _ (ground arith))
        (relock a.asset_locked o.symbol_id _ _ (ground arith)))

-- `lock_account` on a side byte that the code reads as a side, and its inverse.
unlock-lock_account :
    (o : Order) (a b : Account)
    → usd_of a < u64_mod
    → asset_of o.symbol_id a < u64_mod
    → o.side < 2
    → lock_account o a ≡ ok b
    → unlock_account (side_or_buy o) o.symbol_id o.price o.qty b ≡ a
unfolding lock_account get_side
unlock-lock_account o a b usd_fits asset_fits valid h =
    ground (arith, unlock-lock_usd o a b usd_fits, unlock-lock_asset o a b asset_fits)

set_account-set_account :
    (k : ℕ) (a b : Account) (r : RiskEngine)
    → get_account k r ≡ some a
    → set_account k a (set_account k b r) ≡ r
unfolding set_account get_account
set_account-set_account k a b r h =
    ap (λ m. record { accounts = m }) (put-put k b a r.accounts ∙ put-find k a r.accounts h)

get_account-set_account :
    (k : ℕ) (b : Account) (r : RiskEngine) → get_account k (set_account k b r) ≡ some b
unfolding get_account set_account
get_account-set_account k b r = rw find-put (rw (eq→== k k refl))

-- With the guards passed and the account found, the unlocked account is stored.
pub unlock_cancelled_order_margin-found :
    (r : RiskEngine) (o : Order) (q : ℕ) (a : Account)
    → get_account o.user_id r ≡ some a
    → leb num_symbols o.symbol_id ≡ false
    → (q == 0) ≡ false
    → unlock_cancelled_order_margin r o q
      ≡ set_account o.user_id (unlock_account (side_or_buy o) o.symbol_id o.price q a) r
unfolding unlock_cancelled_order_margin
unlock_cancelled_order_margin-found r o q a found in_range some_qty = ground arith

-- Of an order other than a cancel, whose side byte is 0 or 1 and whose margin has been reserved,
-- unlocking the whole quantity restores the engine as it was before the reservation: every account,
-- also those of other users. The engine's totals of dollars and of each asset are to be words.
pub unlock-lock_order_funds :
    (r : RiskEngine) (o : Order)
    → Fits r
    → o.side < 2
    → is_type (type_or_limit o) OrderType.cancel ≡ false
    → (lock_order_funds r o).0 ≡ ok tt
    → unlock_cancelled_order_margin (lock_order_funds r o).1 o o.qty ≡ r
unlock-lock_order_funds r o fits valid not_cancel h =
    let (a, b, found, locked, stored, in_range, some_qty) = lock_order_funds-ok r o not_cancel h in
    let same : unlock_account (side_or_buy o) o.symbol_id o.price o.qty b ≡ a =
      unlock-lock_account o a b (omega (arith, usd_of-le o.user_id a r found, fits.usd_fits))
        (omega (arith, asset_of-le o.symbol_id o.user_id a r found, fits.asset_fits o.symbol_id))
        valid locked in
    rw
      (
        stored,
        unlock_cancelled_order_margin-found (set_account o.user_id b r) o o.qty b
            (get_account-set_account o.user_id b r) in_range some_qty,
        same,
      )
      (set_account-set_account o.user_id a b r found)

unlock-lock_invalid_side :
    (o : Order) (a b : Account)
    → 2 ≤ o.side
    → a.usd_locked ≡ 0
    → usd_of a + o.price * o.qty < u64_mod
    → lock_account o a ≡ ok b
    → usd_of (unlock_account (side_or_buy o) o.symbol_id o.price o.qty b)
      ≡ usd_of a + o.price * o.qty
unfolding lock_account get_side unlock_account add64 sub64 sat_mul64
unlock-lock_invalid_side o a b invalid none_locked room h = ground arith

-- The assets that such an order has locked stay locked.
unlock-keeps_assets :
    (o : Order) (a b : Account)
    → 2 ≤ o.side
    → asset_of o.symbol_id a < u64_mod
    → lock_account o a ≡ ok b
    → let c : Account = unlock_account (side_or_buy o) o.symbol_id o.price o.qty b in
      (c.asset_available o.symbol_id + o.qty ≡ a.asset_available o.symbol_id)
      × (c.asset_locked o.symbol_id ≡ a.asset_locked o.symbol_id + o.qty)
unfolding lock_account get_side unlock_account add64 sub64
unlock-keeps_assets o a b invalid fits h = ground arith

-- An order whose side byte is neither 0 nor 1 is reserved as a sell and unlocked as a buy: where its
-- owner has no locked dollars, the engine gains the order's whole dollar value, and the assets that
-- the order has reserved stay locked. The totals of the engine, with that value, are to be words.
pub invalid_side_mints :
    (r : RiskEngine) (o : Order) (a : Account)
    → Fits r
    → 2 ≤ o.side
    → get_account o.user_id r ≡ some a
    → a.usd_locked ≡ 0
    → usd_total r + o.price * o.qty < u64_mod
    → is_type (type_or_limit o) OrderType.cancel ≡ false
    → (lock_order_funds r o).0 ≡ ok tt
    → let r' : RiskEngine = unlock_cancelled_order_margin (lock_order_funds r o).1 o o.qty in
      (usd_total r' ≡ usd_total r + o.price * o.qty)
      × ((c : Account) × (get_account o.user_id r' ≡ some c)
          × (c.asset_available o.symbol_id + o.qty ≡ a.asset_available o.symbol_id)
          × (c.asset_locked o.symbol_id ≡ a.asset_locked o.symbol_id + o.qty))
invalid_side_mints r o a fits invalid found none_locked room not_cancel h =
    let (a', b, found', locked, stored, in_range, some_qty) =
      lock_order_funds-ok r o not_cancel h in
    let same : a' ≡ a = some_unique found' found in
    let locks : lock_account o a ≡ ok b = rw same at locked in
    let r' : RiskEngine = set_account o.user_id b r in
    let c : Account = unlock_account (side_or_buy o) o.symbol_id o.price o.qty b in
    let found_b : get_account o.user_id r' ≡ some b = get_account-set_account o.user_id b r in
    let (available, still_locked) =
      unlock-keeps_assets o a b invalid
        (omega (arith, asset_of-le o.symbol_id o.user_id a r found, fits.asset_fits o.symbol_id))
        locks in
    rw (stored, unlock_cancelled_order_margin-found r' o o.qty b found_b in_range some_qty)
      (
        omega (
          arith,
          usd_total-set_account o.user_id b c r' found_b,
          usd_total-set_account o.user_id a b r found,
          usd_of-le o.user_id a r found,
          unlock-lock_invalid_side o a b invalid none_locked
              (omega (arith, usd_of-le o.user_id a r found)) locks,
        ),
        (c, get_account-set_account o.user_id c r', available, still_locked),
      )
