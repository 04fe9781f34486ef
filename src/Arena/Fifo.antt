-- ===== src/Arena/Fifo.antt =====
-- The queue of a price level: what its head, tail, total and count say of the nodes.
pub mod Push
pub mod Relink
pub mod Unlink
pub mod Pop
pub mod Write
use ultra_low_latency_order.Prelude.{
  ℕ, ◌<◌, ◌≡◌, ◌≢◌, refl, ◌∙◌, ap, fun_ext, Bool, List, map, Exec, done, arith, sum, length, update,
  write, read, ◌>>=◌, read-done, write-done,
}
use ultra_low_latency_order.Types.{Order}
use ultra_low_latency_order.Arena.Nodes.{null_idx, OrderNode, PriceLevelNode}
use ultra_low_latency_order.Arena.Queue.{OrderNodes, set_next, set_prev}
use ultra_low_latency_order.Arena.Chain.{Links, Linked, with_node}

-- The pointers of an order's node.
abbrev pub order_links : Links OrderNode
order_links = record {
  prev = λ node. node.prev;
  next = λ node. node.next;
  set_prev = λ node p. record node { prev = p };
  set_next = λ node p. record node { next = p };
  prev-set_prev = λ node p. refl;
  next-set_prev = λ node p. refl;
  prev-set_next = λ node p. refl;
  next-set_next = λ node p. refl;
}

abbrev pub qty_at : OrderNodes → ℕ → ℕ
qty_at ns x = (ns.at x).order.qty

-- The nodes `xs` are the queue of the level, in their order.
pub record IsQueue (level : PriceLevelNode) (ns : OrderNodes) (xs : List ℕ) : Type 0 where
  pub linked : Linked order_links ns null_idx level.head_order xs level.tail_order null_idx
  pub totalled : level.total_qty ≡ sum (qty_at ns) xs
  pub counted : level.order_count ≡ length xs

-- Nothing but links differs between two states of the nodes.
pub record IsRelinked (ns ns' : OrderNodes) : Type 0 where
  pub same_len : ns'.len ≡ ns.len
  pub same_order : (x : ℕ) → (ns'.at x).order ≡ (ns.at x).order
  pub same_client : (x : ℕ) → (ns'.at x).client_id ≡ (ns.at x).client_id
  pub same_active : (x : ℕ) → (ns'.at x).active ≡ (ns.at x).active

-- What the queue's methods leave alone in a level.
abbrev pub rung : PriceLevelNode → ℕ × ℕ × ℕ × ℕ × Bool
rung level = (level.price, level.prev_level, level.next_level, level.next_free, level.active)

-- The orders of a queue and the connections they came from.
abbrev pub resting : OrderNodes → List ℕ → List (Order × ℕ)
resting ns xs = map (λ x. ((ns.at x).order, (ns.at x).client_id)) xs

pub sum-relinked :
    (ns ns' : OrderNodes) (xs : List ℕ)
    → IsRelinked ns ns'
    → sum (qty_at ns') xs ≡ sum (qty_at ns) xs
sum-relinked ns ns' xs h =
    ap (λ (f : ℕ → ℕ). sum f xs) (fun_ext λ x. ap (λ (o : Order). o.qty) (h.same_order x))

pub resting-relinked :
    (ns ns' : OrderNodes) (xs : List ℕ) → IsRelinked ns ns' → resting ns' xs ≡ resting ns xs
resting-relinked ns ns' xs h =
    ap (λ (f : ℕ → Order × ℕ). map f xs) (fun_ext λ x. rw (h.same_order x, h.same_client x) refl)

pub IsRelinked-refl : (ns : OrderNodes) → IsRelinked ns ns
IsRelinked-refl ns = record {
  same_len = refl;
  same_order = λ x. refl;
  same_client = λ x. refl;
  same_active = λ x. refl;
}

pub IsRelinked-trans :
    (ns ms ks : OrderNodes) → IsRelinked ns ms → IsRelinked ms ks → IsRelinked ns ks
IsRelinked-trans ns ms ks h k = record {
  same_len = k.same_len ∙ h.same_len;
  same_order = λ x. k.same_order x ∙ h.same_order x;
  same_client = λ x. k.same_client x ∙ h.same_client x;
  same_active = λ x. k.same_active x ∙ h.same_active x;
}

abbrev pub with_next : OrderNodes → ℕ → ℕ → OrderNodes
with_next ns i p = with_node ns i (record (ns.at i) { next = p })

abbrev pub with_prev : OrderNodes → ℕ → ℕ → OrderNodes
with_prev ns i p = with_node ns i (record (ns.at i) { prev = p })

pub IsRelinked-with_next : (ns : OrderNodes) (i p : ℕ) → IsRelinked ns (with_next ns i p)
IsRelinked-with_next ns i p = record {
  same_len = refl;
  same_order = λ x. ground arith;
  same_client = λ x. ground arith;
  same_active = λ x. ground arith;
}

pub IsRelinked-with_prev : (ns : OrderNodes) (i p : ℕ) → IsRelinked ns (with_prev ns i p)
IsRelinked-with_prev ns i p = record {
  same_len = refl;
  same_order = λ x. ground arith;
  same_client = λ x. ground arith;
  same_active = λ x. ground arith;
}

pub set_next-done :
    (ns : OrderNodes) (i p : ℕ) → i < ns.len → set_next ns i p ≡ done (with_next ns i p)
unfolding set_next
set_next-done ns i p h = rw (read-done ns i h) (write-done ns i (record (ns.at i) { next = p }) h)

pub set_prev-done :
    (ns : OrderNodes) (i p : ℕ) → i < ns.len → set_prev ns i p ≡ done (with_prev ns i p)
unfolding set_prev
set_prev-done ns i p h = rw (read-done ns i h) (write-done ns i (record (ns.at i) { prev = p }) h)
