-- ===== src/Arena/Chain.antt =====
-- Doubly linked lists in the nodes of an arena, the queues of orders and the ladders of price levels
-- alike: the pointers are those that the accessors `Links` name.
pub mod Ends
pub mod Relink
pub mod Remove
pub mod Insert
pub mod Count
use ultra_low_latency_order.Prelude.{
  ℕ, ◌<◌, ◌≡◌, ◌≢◌, refl, sym, ◌∙◌, ap, subst, List, [], ◌∷◌, ◌++◌, Bool-cases, inl, inr, ◌==◌,
  arith, update, Vec, ==→eq, ==→ne,
}
use ultra_low_latency_order.Arena.Nodes.{null_idx}

-- `x` is not in the list.
unfoldable pub Absent : ℕ → List ℕ → Type 0
Absent x [] = Unit
Absent x (y ∷ ys) = (y ≢ x) × Absent x ys

unfoldable pub Apart : List ℕ → List ℕ → Type 0
unfolding Absent
Apart [] ys = Unit
Apart (x ∷ xs) ys = Absent x ys × Apart xs ys

pub Absent-append : (x : ℕ) (xs ys : List ℕ) → Absent x xs → Absent x ys → Absent x (xs ++ ys)
unfolding Absent
Absent-append x [] ys a b = b
Absent-append x (y ∷ xs) ys (n, a) b = (n, Absent-append x xs ys a b)

pub Absent-one : (x y : ℕ) → y ≢ x → Absent x (y ∷ [])
unfolding Absent
Absent-one x y n = (n, tt)

pub Apart-one : (n : ℕ) (xs : List ℕ) → Absent n xs → Apart xs (n ∷ [])
unfolding Apart Absent
Apart-one n [] a = tt
Apart-one n (x ∷ xs) (d, a) = ((λ e. d (sym e), tt), Apart-one n xs a)

pub Apart-tail : (xs : List ℕ) (y : ℕ) (ys : List ℕ) → Apart xs (y ∷ ys) → Apart xs ys
unfolding Apart Absent
Apart-tail [] y ys a = tt
Apart-tail (x ∷ xs) y ys ((d, b), a) = (b, Apart-tail xs y ys a)

pub Apart-head : (xs : List ℕ) (y : ℕ) (ys : List ℕ) → Apart xs (y ∷ ys) → Absent y xs
unfolding Apart Absent
Apart-head [] y ys a = tt
Apart-head (x ∷ xs) y ys ((d, b), a) = (λ e. d (sym e), Apart-head xs y ys a)

pub Absent-parts : (n : ℕ) (xs ys : List ℕ) → Absent n (xs ++ ys) → Absent n xs × Absent n ys
unfolding Absent
Absent-parts n [] ys a = (tt, a)
Absent-parts n (x ∷ xs) ys (d, a) = let (b, c) = Absent-parts n xs ys a in ((d, b), c)

pub Apart-cons : (xs : List ℕ) (y : ℕ) (ys : List ℕ) → Absent y xs → Apart xs ys → Apart xs (y ∷ ys)
unfolding Apart Absent
Apart-cons [] y ys a b = tt
Apart-cons (x ∷ xs) y ys (d, a) (c, b) = ((λ e. d (sym e), c), Apart-cons xs y ys a b)

Apart-nil : (xs : List ℕ) → Apart xs []
unfolding Apart Absent
Apart-nil [] = tt
Apart-nil (x ∷ xs) = (tt, Apart-nil xs)

pub Apart-sym : (xs ys : List ℕ) → Apart xs ys → Apart ys xs
unfolding Apart
Apart-sym [] ys a = Apart-nil ys
Apart-sym (x ∷ xs) ys (a, b) = Apart-cons ys x xs a (Apart-sym xs ys b)

pub Apart-at :
    (xs : List ℕ) (x : ℕ) (ys zs : List ℕ) → Apart (xs ++ x ∷ ys) zs → Absent x zs × Apart ys zs
unfolding Apart
Apart-at [] x ys zs a = a
Apart-at (y ∷ xs) x ys zs (a, b) = Apart-at xs x ys zs b

pub Apart-remove :
    (xs : List ℕ) (x : ℕ) (ys zs : List ℕ)
    → Apart (xs ++ x ∷ ys) zs
    → Apart xs zs × Apart (xs ++ ys) zs
unfolding Apart
Apart-remove [] x ys zs (a, b) = (tt, b)
Apart-remove (y ∷ xs) x ys zs (a, b) = let (c, d) = Apart-remove xs x ys zs b in ((a, c), (a, d))

pub Absent-remove :
    (u : ℕ) (us : List ℕ) (x : ℕ) (vs : List ℕ)
    → Absent u (us ++ x ∷ vs)
    → Absent u (us ++ vs) × (x ≢ u)
unfolding Absent
Absent-remove u [] x vs (d, a) = (a, d)
Absent-remove u (w ∷ us) x vs (d, a) = let (b, c) = Absent-remove u us x vs a in ((d, b), c)

pub Apart-single : (x : ℕ) (ys : List ℕ) → Absent x ys → Apart (x ∷ []) ys
unfolding Apart
Apart-single x ys a = (a, tt)

-- The two pointers of a node.
pub record Links (A : Type 0) : Type 0 where
  pub prev : A → ℕ
  pub next : A → ℕ
  pub set_prev : A → ℕ → A
  pub set_next : A → ℕ → A
  pub prev-set_prev : (a : A) (p : ℕ) → prev (set_prev a p) ≡ p
  pub next-set_prev : (a : A) (p : ℕ) → next (set_prev a p) ≡ next a
  pub prev-set_next : (a : A) (p : ℕ) → prev (set_next a p) ≡ prev a
  pub next-set_next : (a : A) (p : ℕ) → next (set_next a p) ≡ p

-- The nodes with one of them replaced.
abbrev pub with_node : {A : Type 0} → Vec A → ℕ → A → Vec A
with_node ns n v = record ns { at = update ns.at n v }

module _ {A : Type 0} (links : Links A) where
  -- From index `i`, behind `p`, the nodes `xs` are linked both ways; `q` is the last of them and `j`
  -- follows it.
  unfoldable pub Linked : Vec A → ℕ → ℕ → List ℕ → ℕ → ℕ → Type 0
  unfolding Absent
  Linked ns p i [] q j = (i ≡ j) × (q ≡ p)
  Linked ns p i (x ∷ xs) q j =
      (i ≡ x)
      × (x < ns.len)
      × (x < null_idx)
      × ((links.prev (ns.at x)) ≡ p)
      × Absent x xs
      × Linked ns x (links.next (ns.at x)) xs q j

  -- A write outside the list leaves its links as they are.
  pub Linked-outside :
      (ns : Vec A) (n : ℕ) (v : A) (p i : ℕ) (xs : List ℕ) (q j : ℕ)
      → Absent n xs
      → Linked ns p i xs q j
      → Linked (with_node ns n v) p i xs q j
  unfolding Linked Absent
  Linked-outside ns n v p i [] q j a l = l
  Linked-outside ns n v p i (x ∷ xs) q j (d, a) (h, inside, fits, back, fresh, rest) =
      let same : update ns.at n v x ≡ ns.at x = ground arith in
      (
        h,
        inside,
        fits,
        ap (λ (m : A). links.prev m) same ∙ back,
        fresh,
        Linked-outside ns n v x (links.next (update ns.at n v x)) xs q j a (rw same rest),
      )

  -- Neither does a write that keeps the links of the node.
  pub Linked-keep :
      (ns : Vec A) (n : ℕ) (v : A) (p i : ℕ) (xs : List ℕ) (q j : ℕ)
      → links.prev v ≡ (links.prev (ns.at n))
      → links.next v ≡ (links.next (ns.at n))
      → Linked ns p i xs q j
      → Linked (with_node ns n v) p i xs q j
  unfolding Linked
  Linked-keep ns n v p i [] q j back on l = l
  Linked-keep ns n v p i (x ∷ xs) q j back on (h, inside, fits, b, fresh, rest) =
      let same_prev : (links.prev (update ns.at n v x)) ≡ (links.prev (ns.at x)) = ground arith in
      let same_next : (links.next (update ns.at n v x)) ≡ (links.next (ns.at x)) = ground arith in
      (
        h,
        inside,
        fits,
        same_prev ∙ b,
        fresh,
        Linked-keep ns n v x (links.next (update ns.at n v x)) xs q j back on (rw same_next rest),
      )
