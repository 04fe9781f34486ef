-- ===== src/Types/Outcome.antt =====
-- `Result<T, RejectReason>`.
use ultra_low_latency_order.Prelude.{◌≡◌, refl, ◌⊎◌, inl, inr}
use ultra_low_latency_order.Types.Enums.{RejectReason}

pub data Result {ℓ} (A : Type ℓ) : Type ℓ where
  ok : A → Result A
  err : RejectReason → Result A

pub Result-cases {ℓ} :
    {A : Type ℓ} (r : Result A) → ((a : A) × (r ≡ ok a)) ⊎ ((e : RejectReason) × (r ≡ err e))
Result-cases (ok a) = inl (a, refl)
Result-cases (err e) = inr (e, refl)
