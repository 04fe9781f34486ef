-- ===== src/Arena/Fifo/Relink.antt =====
-- The conditional writes of pointers leave the orders as they are.
use ultra_low_latency_order.Prelude.{
  ℕ, ◌<◌, ◌≡◌, Bool-cases, ◌⊎◌, inl, inr, ◌==◌, if◌then◌else◌, true, done,
}
use ultra_low_latency_order.Arena.Nodes.{null_idx}
use ultra_low_latency_order.Arena.Queue.{OrderNodes, set_next, set_prev}
use ultra_low_latency_order.Arena.Chain.Relink.{cut, mend, cut-null, cut-real, mend-null, mend-real}
use ultra_low_latency_order.Arena.Chain.Relink
use ultra_low_latency_order.Arena.Fifo.{
  order_links, IsRelinked, IsRelinked-refl, set_next-done, set_prev-done, IsRelinked-with_next,
  IsRelinked-with_prev,
}

module _ (ns : OrderNodes) (q n : ℕ) where
  pub cut-IsRelinked : IsRelinked ns (cut order_links ns q n)
  cut-IsRelinked = elim (Bool-cases (q == null_idx)) [
    | inl e ↦ rw (cut-null order_links ns q n e) (IsRelinked-refl ns)
    | inr e ↦ rw (cut-real order_links ns q n e) (IsRelinked-with_next ns q n)
  ]

  pub mend-IsRelinked : IsRelinked ns (mend order_links ns n q)
  mend-IsRelinked = elim (Bool-cases (n == null_idx)) [
    | inl e ↦ rw (mend-null order_links ns q n e) (IsRelinked-refl ns)
    | inr e ↦ rw (mend-real order_links ns q n e) (IsRelinked-with_prev ns n q)
  ]

  pub cut-done :
      ((q == null_idx) ≡ true) ⊎ (q < ns.len)
      → (if q == null_idx then done ns else set_next ns q n) ≡ done (cut order_links ns q n)
  cut-done = Relink.cut-done order_links ns q n set_next (set_next-done ns q n)

  pub mend-done :
      ((n == null_idx) ≡ true) ⊎ (n < ns.len)
      → (if n == null_idx then done ns else set_prev ns n q) ≡ done (mend order_links ns n q)
  mend-done = Relink.mend-done order_links ns q n set_prev (set_prev-done ns n q)
