-- ===== src/Table/Count.antt =====
-- The number of occupied slots below a bound.
use ultra_low_latency_order.Prelude.{
  ℕ, zero, suc, ◌+◌, ◌<◌, ◌≤◌, ◌≡◌, Bool, false, arith, if◌then◌else◌, update, ◌==◌, Bool-cases,
  inl, inr, refl,
}

module _ {E : Type 0} (occupied : E → Bool) where
  pub occupied_below : ℕ → (ℕ → E) → ℕ
  occupied_below zero es = 0
  occupied_below (suc n) es = (if occupied (es n) then 1 else 0) + occupied_below n es

  pub occupied_below-le : (n : ℕ) (es : ℕ → E) → occupied_below n es ≤ n
  unfolding occupied_below
  occupied_below-le zero es = omega arith
  occupied_below-le (suc n) es = ground (arith, occupied_below-le n es)

  -- Where not every slot is occupied, one is vacant.
  pub vacancy :
      (n : ℕ) (es : ℕ → E) → occupied_below n es < n → (v : ℕ) × (v < n) × (occupied (es v) ≡ false)
  unfolding occupied_below
  vacancy zero es h = absurd (omega arith)
  vacancy (suc n) es h = elim (Bool-cases (occupied (es n))) [
    | inl full ↦ let (v, below, free) = vacancy n es (ground arith) in (v, omega arith, free)
    | inr free ↦ (n, omega arith, free)
  ]

  occupied_below-update_above :
      (n : ℕ) (es : ℕ → E) (i : ℕ) (e : E)
      → n ≤ i
      → occupied_below n (update es i e) ≡ occupied_below n es
  unfolding occupied_below
  occupied_below-update_above zero es i e h = refl
  occupied_below-update_above (suc n) es i e h =
      ground (arith, occupied_below-update_above n es i e)

  -- A write at a slot below the bound.
  pub occupied_below-update :
      (n : ℕ) (es : ℕ → E) (i : ℕ) (e : E)
      → i < n
      → occupied_below n (update es i e) + (if occupied (es i) then 1 else 0)
        ≡ occupied_below n es + (if occupied e then 1 else 0)
  unfolding occupied_below
  occupied_below-update zero es i e h = absurd (omega arith)
  occupied_below-update (suc n) es i e h = elim (Bool-cases (i == n)) [
    | inl last ↦ ground (arith, occupied_below-update_above n es i e)
    | inr inside ↦ ground (arith, occupied_below-update n es i e)
  ]

  pub occupied_below-replicate :
      (n : ℕ) (e : E) → occupied e ≡ false → occupied_below n (λ _. e) ≡ 0
  unfolding occupied_below
  occupied_below-replicate zero e h = refl
  occupied_below-replicate (suc n) e h = ground (arith, occupied_below-replicate n e h)
