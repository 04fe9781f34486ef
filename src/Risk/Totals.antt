-- ===== src/Risk/Totals.antt =====
-- The money that a risk engine holds: dollars and assets, available and locked together.
use ultra_low_latency_order.Prelude.{
  ℕ, ◌+◌, ◌≤◌, ◌<◌, ◌≡◌, some, u64_mod, total, total-put, le-total,
}
use ultra_low_latency_order.Risk.{Account, RiskEngine, get_account, set_account}

abbrev pub usd_of : Account → ℕ
usd_of a = a.usd_available + a.usd_locked

abbrev pub asset_of : ℕ → Account → ℕ
asset_of s a = a.asset_available s + a.asset_locked s

unfoldable pub usd_total : RiskEngine → ℕ
usd_total r = total usd_of r.accounts

unfoldable pub asset_total : ℕ → RiskEngine → ℕ
asset_total s r = total (asset_of s) r.accounts

-- No sum of one kind of money exceeds a machine word.
pub record Fits (r : RiskEngine) : Type 0 where
  pub usd_fits : usd_total r < u64_mod
  pub asset_fits : (s : ℕ) → asset_total s r < u64_mod

pub usd_total-set_account :
    (k : ℕ) (a b : Account) (r : RiskEngine)
    → get_account k r ≡ some a
    → usd_total (set_account k b r) + usd_of a ≡ usd_total r + usd_of b
unfolding usd_total get_account set_account
usd_total-set_account k a b r h = total-put usd_of k b a r.accounts h

pub asset_total-set_account :
    (s k : ℕ) (a b : Account) (r : RiskEngine)
    → get_account k r ≡ some a
    → asset_total s (set_account k b r) + asset_of s a ≡ asset_total s r + asset_of s b
unfolding asset_total get_account set_account
asset_total-set_account s k a b r h = total-put (asset_of s) k b a r.accounts h

pub usd_of-le :
    (k : ℕ) (a : Account) (r : RiskEngine) → get_account k r ≡ some a → usd_of a ≤ usd_total r
unfolding usd_total get_account
usd_of-le k a r h = le-total usd_of k a r.accounts h

pub asset_of-le :
    (s k : ℕ) (a : Account) (r : RiskEngine)
    → get_account k r ≡ some a
    → asset_of s a ≤ asset_total s r
unfolding asset_total get_account
asset_of-le s k a r h = le-total (asset_of s) k a r.accounts h
