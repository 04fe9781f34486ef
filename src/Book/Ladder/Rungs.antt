-- ===== src/Book/Ladder/Rungs.antt =====
-- The price levels as linked nodes: their pointers, and the operations that set them.
use ultra_low_latency_order.Prelude.{
  ℕ, ◌<◌, ◌≡◌, refl, ◌∙◌, Bool-cases, inl, inr, ◌==◌, done, arith, read-done, write-done,
}
use ultra_low_latency_order.Arena.Nodes.{null_idx, PriceLevelNode}
use ultra_low_latency_order.Arena.Chain.{Links, with_node}
use ultra_low_latency_order.Arena.Chain.Relink.{cut, mend, cut-null, cut-real, mend-null, mend-real}
use ultra_low_latency_order.Book.Ladder.{LevelNodes, set_next_level, set_prev_level}

abbrev pub level_links : Links PriceLevelNode
level_links = record {
  prev = λ node. node.prev_level;
  next = λ node. node.next_level;
  set_prev = λ node p. record node { prev_level = p };
  set_next = λ node p. record node { next_level = p };
  prev-set_prev = λ node p. refl;
  next-set_prev = λ node p. refl;
  prev-set_next = λ node p. refl;
  next-set_next = λ node p. refl;
}

abbrev pub with_next : LevelNodes → ℕ → ℕ → LevelNodes
with_next ns i p = with_node ns i (record (ns.at i) { next_level = p })

abbrev pub with_prev : LevelNodes → ℕ → ℕ → LevelNodes
with_prev ns i p = with_node ns i (record (ns.at i) { prev_level = p })

pub set_next_level-done :
    (ns : LevelNodes) (i p : ℕ) → i < ns.len → set_next_level ns i p ≡ done (with_next ns i p)
unfolding set_next_level
set_next_level-done ns i p h =
    rw (read-done ns i h) (write-done ns i (record (ns.at i) { next_level = p }) h)

pub set_prev_level-done :
    (ns : LevelNodes) (i p : ℕ) → i < ns.len → set_prev_level ns i p ≡ done (with_prev ns i p)
unfolding set_prev_level
set_prev_level-done ns i p h =
    rw (read-done ns i h) (write-done ns i (record (ns.at i) { prev_level = p }) h)

-- A level without its pointers.
abbrev pub unhung : PriceLevelNode → PriceLevelNode
unhung node = record node { prev_level = 0; next_level = 0 }

-- Nothing but pointers differs between two states of the levels.
pub record IsRehung (ns ns' : LevelNodes) : Type 0 where
  pub same_len : ns'.len ≡ ns.len
  pub same : (x : ℕ) → unhung (ns'.at x) ≡ unhung (ns.at x)

pub IsRehung-refl : (ns : LevelNodes) → IsRehung ns ns
IsRehung-refl ns = record { same_len = refl; same = λ x. refl }

pub IsRehung-trans : (ns ms ks : LevelNodes) → IsRehung ns ms → IsRehung ms ks → IsRehung ns ks
IsRehung-trans ns ms ks h k = record {
  same_len = k.same_len ∙ h.same_len;
  same = λ x. k.same x ∙ h.same x;
}

pub IsRehung-with_next : (ns : LevelNodes) (i p : ℕ) → IsRehung ns (with_next ns i p)
IsRehung-with_next ns i p = record { same_len = refl; same = λ x. ground arith }

pub IsRehung-with_prev : (ns : LevelNodes) (i p : ℕ) → IsRehung ns (with_prev ns i p)
IsRehung-with_prev ns i p = record { same_len = refl; same = λ x. ground arith }

module _ (ns : LevelNodes) (q n : ℕ) where
  pub cut-IsRehung : IsRehung ns (cut level_links ns q n)
  cut-IsRehung = elim (Bool-cases (q == null_idx)) [
    | inl e ↦ rw (cut-null level_links ns q n e) (IsRehung-refl ns)
    | inr e ↦ rw (cut-real level_links ns q n e) (IsRehung-with_next ns q n)
  ]

  pub mend-IsRehung : IsRehung ns (mend level_links ns n q)
  mend-IsRehung = elim (Bool-cases (n == null_idx)) [
    | inl e ↦ rw (mend-null level_links ns q n e) (IsRehung-refl ns)
    | inr e ↦ rw (mend-real level_links ns q n e) (IsRehung-with_prev ns n q)
  ]
