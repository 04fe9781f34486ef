-- ===== src/Arena/Pool.antt =====
-- The free list of an arena of either kind of node: every node is free or in use.
pub mod Orders
pub mod Levels
mod Tests
use ultra_low_latency_order.Prelude.{
  length-middle, ℕ, zero, suc, ◌+◌, ◌≤◌, ◌<◌, ◌≡◌, ◌≢◌, refl, sym, ◌∙◌, ap, Bool, true, false, List,
  [], ◌∷◌, ◌++◌, subst, ◌==◌, arith, length, update, Vec,
}
use ultra_low_latency_order.Arena.Nodes.{null_idx}
use ultra_low_latency_order.Arena.Chain.{Absent, Absent-remove, with_node}

-- `k` indices from `i` on.
unfoldable pub range : ℕ → ℕ → List ℕ
range i zero = []
range i (suc k) = i ∷ range (i + 1) k

pub Absent-range : (x i k : ℕ) → x < i → Absent x (range i k)
unfolding Absent range
Absent-range x i zero h = tt
Absent-range x i (suc k) h = (omega (arith, h), Absent-range x (i + 1) k (omega (arith, h)))

pub length-range : (i k : ℕ) → length (range i k) ≡ k
unfolding length range
length-range i zero = refl
length-range i (suc k) = omega (arith, length-range (i + 1) k)

module _ {A : Type 0} (next_free : A → ℕ) (active : A → Bool) where
  -- From index `i` the nodes `xs` are linked by the free list, which ends there; none is active.
  unfoldable pub AllFree : Vec A → ℕ → List ℕ → Type 0
  unfolding Absent
  AllFree ns i [] = i ≡ null_idx
  AllFree ns i (x ∷ xs) =
      (i ≡ x)
      × (x < ns.len)
      × (x < null_idx)
      × (active (ns.at x) ≡ false)
      × Absent x xs
      × AllFree ns (next_free (ns.at x)) xs

  -- The nodes are different and active.
  unfoldable pub AllActive : Vec A → List ℕ → Type 0
  unfolding Absent
  AllActive ns [] = Unit
  AllActive ns (x ∷ xs) = (x < ns.len) × (active (ns.at x) ≡ true) × Absent x xs × AllActive ns xs

  -- Every node is free, in the order of the free list, or in use.
  pub record IsPool (ns : Vec A) (head : ℕ) (free used : List ℕ) : Type 0 where
    pub all_free : AllFree ns head free
    pub all_active : AllActive ns used
    pub whole : length free + length used ≡ ns.len

  pub AllFree-outside :
      (ns : Vec A) (n : ℕ) (v : A) (i : ℕ) (xs : List ℕ)
      → Absent n xs
      → AllFree ns i xs
      → AllFree (with_node ns n v) i xs
  unfolding AllFree Absent
  AllFree-outside ns n v i [] a l = l
  AllFree-outside ns n v i (x ∷ xs) (d, a) (h, inside, fits, idle, fresh, rest) =
      let same : update ns.at n v x ≡ ns.at x = ground arith in
      (
        h,
        inside,
        fits,
        ap active same ∙ idle,
        fresh,
        AllFree-outside ns n v (next_free (update ns.at n v x)) xs a (rw same rest),
      )

  pub AllActive-outside :
      (ns : Vec A) (n : ℕ) (v : A) (xs : List ℕ)
      → Absent n xs
      → AllActive ns xs
      → AllActive (with_node ns n v) xs
  unfolding AllActive Absent
  AllActive-outside ns n v [] a l = tt
  AllActive-outside ns n v (x ∷ xs) (d, a) (inside, busy, fresh, rest) =
      let same : update ns.at n v x ≡ ns.at x = ground arith in
      (inside, ap active same ∙ busy, fresh, AllActive-outside ns n v xs a rest)

  -- The two lists have no node in common.
  pub free-Absent :
      (ns : Vec A) (x : ℕ) (used : List ℕ)
      → active (ns.at x) ≡ false
      → AllActive ns used
      → Absent x used
  unfolding AllActive Absent
  free-Absent ns x [] idle l = tt
  free-Absent ns x (y ∷ ys) idle (inside, busy, fresh, rest) = (
    λ e. absurd (false≢true (sym idle ∙ ap (λ z. active (ns.at z)) (sym e) ∙ busy)),
    free-Absent ns x ys idle rest,
  )
    where
      false≢true : false ≢ true
      false≢true h = cc

  pub used-Absent :
      (ns : Vec A) (x i : ℕ) (free : List ℕ)
      → active (ns.at x) ≡ true
      → AllFree ns i free
      → Absent x free
  unfolding AllFree Absent
  used-Absent ns x i [] busy l = tt
  used-Absent ns x i (y ∷ ys) busy (h, inside, fits, idle, fresh, rest) = (
    λ e. absurd (true≢false (sym busy ∙ ap (λ z. active (ns.at z)) (sym e) ∙ idle)),
    used-Absent ns x (next_free (ns.at y)) ys busy rest,
  )
    where
      true≢false : true ≢ false
      true≢false h = cc

  -- The first free node is put to use.
  pub taken :
      (ns : Vec A) (x : ℕ) (free used : List ℕ) (v : A)
      → active v ≡ true
      → IsPool ns x (x ∷ free) used
      → IsPool (with_node ns x v) (next_free (ns.at x)) free (x ∷ used)
  unfolding AllFree AllActive length
  taken ns x free used v busy pool =
      let (h, inside, fits, idle, fresh, rest) = pool.all_free in
      let absent = free-Absent ns x used idle pool.all_active in
      let here : update ns.at x v x ≡ v = ground arith in
      record {
        all_free = AllFree-outside ns x v _ free fresh rest;
        all_active = (
          inside,
          ap active here ∙ busy,
          absent,
          AllActive-outside ns x v used absent pool.all_active,
        );
        whole = omega (arith, pool.whole);
      }

  AllActive-at :
      (ns : Vec A) (us : List ℕ) (x : ℕ) (vs : List ℕ)
      → AllActive ns (us ++ x ∷ vs)
      → (x < ns.len) × (active (ns.at x) ≡ true) × Absent x (us ++ vs) × AllActive ns (us ++ vs)
  unfolding AllActive Absent
  AllActive-at ns [] x vs (inside, busy, fresh, rest) = (inside, busy, fresh, rest)
  AllActive-at ns (u ∷ us) x vs (inside, busy, fresh, rest) =
      let (within, on, absent, others) = AllActive-at ns us x vs rest in
      let (clear, differs) = Absent-remove u us x vs fresh in
      (within, on, (λ e. differs (sym e), absent), (inside, busy, clear, others))

  -- A node in use is given back.
  pub given_back :
      (ns : Vec A) (head x : ℕ) (free us vs : List ℕ) (v : A)
      → x < null_idx
      → active v ≡ false
      → next_free v ≡ head
      → IsPool ns head free (us ++ x ∷ vs)
      → IsPool (with_node ns x v) x (x ∷ free) (us ++ vs)
  unfolding AllFree length
  given_back ns head x free us vs v fits idle on pool =
      let (inside, busy, absent, others) = AllActive-at ns us x vs pool.all_active in
      let clear = used-Absent ns x head free busy pool.all_free in
      let here : update ns.at x v x ≡ v = ground arith in
      record {
        all_free = (
          refl,
          inside,
          fits,
          ap active here ∙ idle,
          clear,
          subst (λ i. AllFree (with_node ns x v) i free) (sym (ap next_free here ∙ on))
              (AllFree-outside ns x v head free clear pool.all_free),
        );
        all_active = AllActive-outside ns x v (us ++ vs) absent others;
        whole = omega (arith, pool.whole, length-middle us x vs);
      }

  pub used-inside :
      (ns : Vec A) (us : List ℕ) (x : ℕ) (vs : List ℕ) → AllActive ns (us ++ x ∷ vs) → x < ns.len
  used-inside ns us x vs l = let (inside, _, _, _) = AllActive-at ns us x vs l in inside

  pub free-head :
      (ns : Vec A) (i x : ℕ) (xs : List ℕ)
      → AllFree ns i (x ∷ xs)
      → (i ≡ x) × (x < ns.len) × (x < null_idx)
  unfolding AllFree
  free-head ns i x xs (h, inside, fits, idle, fresh, rest) = (h, inside, fits)

  pub free-end : (ns : Vec A) (i : ℕ) → AllFree ns i [] → i ≡ null_idx
  unfolding AllFree
  free-end ns i h = h
