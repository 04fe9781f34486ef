-- ===== src/Book/Anonymous.antt =====
-- The order nodes and trades without the connections that they came from: what the operations of the
-- book make of the rest does not depend on these.
pub mod Match
pub mod Cancels
pub mod Rest
pub mod Trades
use ultra_low_latency_order.Prelude.{
  ℕ, ◌≡◌, refl, ap, Bool, true, false, List, Option, none, some, if◌then◌else◌, ltb, ◌==◌,
  Bool-cases, inl, inr, Exec, done, panic, stalled, ◌>>=◌, Vec, read, write, update, fun_ext, arith,
}
use ultra_low_latency_order.Types.{RejectReason, Result, ok, err}
use ultra_low_latency_order.Arena.Nodes.{null_idx, OrderNode, PriceLevelNode}
use ultra_low_latency_order.Arena.Queue.{
  OrderNodes, set_next, set_prev, push_order, pop_order, unlink_order,
}

abbrev pub mapx {ℓ κ} : {A : Type ℓ} {B : Type κ} → (A → B) → Exec A → Exec B
mapx h (done a) = done (h a)
mapx h panic = panic
mapx h stalled = stalled

bind-done :
    {A A' B B' : Type 0} (h : A → A') (k : B → B') (x : Exec A) (f : A → Exec B) (f' : A' → Exec B')
    → ((a : A) → f' (h a) ≡ mapx k (f a))
    → (mapx h x >>= f') ≡ mapx k (x >>= f)
bind-done h k (done a) f f' step = step a
bind-done h k panic f f' step = refl
bind-done h k stalled f f' step = refl

pub bind-map :
    {A A' B B' : Type 0} (h : A → A') (k : B → B') (x : Exec A) {x' : Exec A'} (f : A → Exec B)
    (f' : A' → Exec B')
    → x' ≡ mapx h x
    → ((a : A) → f' (h a) ≡ mapx k (f a))
    → (x' >>= f') ≡ mapx k (x >>= f)
bind-map h k x f f' e step = rw e (bind-done h k x f f' step)

pub if-map :
    {B B' : Type 0} (k : B → B') (c : Bool) (t e : Exec B) {t' e' : Exec B'}
    → t' ≡ mapx k t
    → e' ≡ mapx k e
    → (if c then t' else e') ≡ mapx k (if c then t else e)
if-map k true t e h g = h
if-map k false t e h g = g

pub bind-same :
    {A B B' : Type 0} (k : B → B') (x : Exec A) (f : A → Exec B) (f' : A → Exec B')
    → ((a : A) → f' a ≡ mapx k (f a))
    → (x >>= f') ≡ mapx k (x >>= f)
bind-same k (done a) f f' step = step a
bind-same k panic f f' step = refl
bind-same k stalled f f' step = refl

pub if-done :
    {B B' : Type 0} (k : B → B') (c : Bool) (t e : B)
    → done (if c then k t else k e) ≡ mapx k (done (if c then t else e))
if-done k true t e = refl
if-done k false t e = refl

pub option-map :
    {A B B' : Type 0} (k : B → B') (o : Option A) (n : Exec B) (f : A → Exec B) (n' : Exec B')
    (f' : A → Exec B')
    → n' ≡ mapx k n
    → ((a : A) → f' a ≡ mapx k (f a))
    → elim o [ none ↦ n' | some a ↦ f' a ] ≡ mapx k (elim o [ none ↦ n | some a ↦ f a ])
option-map k none n f n' f' h g = h
option-map k (some a) n f n' f' h g = g a

pub result-map :
    {A B B' : Type 0} (k : B → B') (r : Result A) (n : RejectReason → Exec B) (f : A → Exec B)
    (n' : RejectReason → Exec B') (f' : A → Exec B')
    → ((why : RejectReason) → n' why ≡ mapx k (n why))
    → ((a : A) → f' a ≡ mapx k (f a))
    → elim r [ err why ↦ n' why | ok a ↦ f' a ] ≡ mapx k (elim r [ err why ↦ n why | ok a ↦ f a ])
result-map k (err why) n f n' f' h g = h why
result-map k (ok a) n f n' f' h g = g a

-- A node without its connection.
abbrev pub bare : OrderNode → OrderNode
bare node = record node { client_id = 0 }

abbrev pub bares : OrderNodes → OrderNodes
bares ns = record { len = ns.len; at = λ i. bare (ns.at i) }

pub read-bare : (ns : OrderNodes) (i : ℕ) → read (bares ns) i ≡ mapx bare (read ns i)
unfolding read
read-bare ns i = if-map bare (ltb i ns.len) _ _ refl refl

pub write-bare :
    (ns : OrderNodes) (i : ℕ) (n : OrderNode)
    → write (bares ns) i (bare n) ≡ mapx bares (write ns i n)
unfolding write
write-bare ns i n =
    if-map bares (ltb i ns.len) _ _
      (ap (λ (at : ℕ → OrderNode). done (record { len = ns.len; at = at }))
        (fun_ext λ j. elim (Bool-cases (i == j)) [ inl e ↦ rw e refl | inr e ↦ rw e refl ]))
      refl

pub set_next-bare :
    (ns : OrderNodes) (i p : ℕ) → set_next (bares ns) i p ≡ mapx bares (set_next ns i p)
unfolding set_next
set_next-bare ns i p =
    bind-map bare bares _ _ _ (read-bare ns i) λ node. write-bare ns i (record node { next = p })

pub set_prev-bare :
    (ns : OrderNodes) (i p : ℕ) → set_prev (bares ns) i p ≡ mapx bares (set_prev ns i p)
unfolding set_prev
set_prev-bare ns i p =
    bind-map bare bares _ _ _ (read-bare ns i) λ node. write-bare ns i (record node { prev = p })

abbrev pub bare_queue : PriceLevelNode × OrderNodes → PriceLevelNode × OrderNodes
bare_queue (level, ns) = (level, bares ns)

pub push_order-bare :
    (level : PriceLevelNode) (i : ℕ) (ns : OrderNodes)
    → push_order level i (bares ns) ≡ mapx bare_queue (push_order level i ns)
unfolding push_order
push_order-bare level i ns =
    bind-map bares bare_queue _ _ _ (set_prev-bare ns i level.tail_order) λ ns.
      bind-map bares bare_queue _ _ _ (set_next-bare ns i null_idx) λ ns.
        bind-map bares bare_queue _ _ _
          (if-map bares (level.tail_order == null_idx) _ _ refl
            (set_next-bare ns level.tail_order i))
          λ ns. bind-map bare bare_queue _ _ _ (read-bare ns i) λ node. refl

pub unlink_order-bare :
    (level : PriceLevelNode) (i : ℕ) (ns : OrderNodes)
    → unlink_order level i (bares ns) ≡ mapx bare_queue (unlink_order level i ns)
unfolding unlink_order
unlink_order-bare level i ns = bind-map bare bare_queue _ _ _ (read-bare ns i) λ node.
    bind-map bares bare_queue _ _ _
      (if-map bares (node.prev == null_idx) _ _ refl (set_next-bare ns node.prev node.next))
      λ ns.
        bind-map bares bare_queue _ _ _
          (if-map bares (node.next == null_idx) _ _ refl (set_prev-bare ns node.next node.prev))
          λ ns. bind-map bare bare_queue _ _ _ (read-bare ns i) λ node'. refl

abbrev pub bare_pop :
    Option ℕ × PriceLevelNode × OrderNodes → Option ℕ × PriceLevelNode × OrderNodes
bare_pop (popped, level, ns) = (popped, level, bares ns)

pub pop_order-bare :
    (level : PriceLevelNode) (ns : OrderNodes)
    → pop_order level (bares ns) ≡ mapx bare_pop (pop_order level ns)
unfolding pop_order
pop_order-bare level ns = if-map bare_pop (level.head_order == null_idx) _ _ refl (
    bind-map bare bare_pop _ _ _ (read-bare ns level.head_order) λ node.
      bind-map bares bare_pop _ _ _
        (if-map bares (node.next == null_idx) _ _ refl (set_prev-bare ns node.next null_idx))
        λ ns. bind-map bare bare_pop _ _ _ (read-bare ns level.head_order) λ node'. refl)
