-- ===== src/Table/Cyclic.antt =====
-- The cyclic order of the slots, in linear arithmetic.
use native.Mathlib.Decide.{dec_lt}
use native.Mathlib.Nat.{mod-eq_of_lt, mod_self}
use ultra_low_latency_order.Prelude.{
  ℕ, suc, ◌+◌, ◌-◌, ◌%◌, ◌<◌, ◌≡◌, ◌≢◌, ◌⊎◌, inl, inr, Bool, true, arith, ltb, leb, ◌&&◌, ◌||◌,
  if◌then◌else◌,
}

-- Slot `x` is met on the way from `h` to `i`, going up and round, before `i` itself.
abbrev pub on_way : ℕ → ℕ → ℕ → Bool
on_way h x i = if leb h i then leb h x && ltb x i else leb h x || ltb x i

abbrev pub OnWay : ℕ → ℕ → ℕ → Type 0
OnWay h x i = on_way h x i ≡ true

-- The number of steps from `i` to `v` in a ring of `n` slots.
abbrev pub steps_to : ℕ → ℕ → ℕ → ℕ
steps_to n i v = if leb i v then v - i else v + n - i

-- One step on in a ring of `n` slots.
pub IsNext : ℕ → ℕ → ℕ → Type 0
IsNext n i j = ((i + 1 < n) × (j ≡ i + 1)) ⊎ ((i + 1 ≡ n) × (j ≡ 0))

pub IsNext-mod : (n i : ℕ) → i < n → IsNext n i ((i + 1) % n)
unfolding IsNext
IsNext-mod n i h = elim (dec_lt (i + 1) n) [
  | yes p ↦ inl (p, mod-eq_of_lt p)
  | no p ↦ inr (omega arith, let e : i + 1 ≡ n = omega arith in rw e (mod_self n))
]

pub IsNext-lt : (n i j : ℕ) → i < n → IsNext n i j → j < n
unfolding IsNext
IsNext-lt n i j h s = ground arith

pub not-OnWay_self : (h x : ℕ) → ¬ (OnWay h x h)
not-OnWay_self h x w = ground arith

-- Seen from `h`, of two different slots one comes before the other.
pub OnWay-total : (h i j : ℕ) → i ≢ j → OnWay h i j ⊎ OnWay h j i
OnWay-total h i j ne = ground arith

-- What lies on the way from `i` is `i` itself or lies on the way from the next slot.
pub OnWay-step :
    (n i i' x j : ℕ) → i < n → x < n → j < n → IsNext n i i' → OnWay i x j → (x ≡ i) ⊎ OnWay i' x j
unfolding IsNext
OnWay-step n i i' x j hi hx hj s w = ground arith

pub steps_to-step :
    (n i i' v : ℕ) → i < n → v < n → i ≢ v → IsNext n i i' → steps_to n i v ≡ suc (steps_to n i' v)
unfolding IsNext
steps_to-step n i i' v hi hv ne s = ground arith

pub steps_to-lt : (n i v : ℕ) → i < n → v < n → steps_to n i v < n
steps_to-lt n i v hi hv = ground arith

pub steps_to_inj : (n i j v : ℕ) → i < n → j < n → v < n → steps_to n i v ≡ steps_to n j v → i ≡ j
steps_to_inj n i j v hi hj hv e = ground arith

-- The code's test for a shift: the hole lies on the way from the ideal slot.
pub can_shift_lem :
    (curr next ideal : ℕ)
    → curr ≢ next
    → (if ltb curr next then leb ideal curr || ltb next ideal else leb ideal curr && ltb next ideal)
      ≡ on_way ideal curr next
can_shift_lem curr next ideal ne = ground arith

-- A way through `c` to `i` that does not end before `m` goes through `m`, or ends there.
pub OnWay-through : (h c i m : ℕ) → OnWay h c i → ¬ (OnWay c i m) → c ≢ m → (i ≡ m) ⊎ OnWay h m i
OnWay-through h c i m w out ne = ground arith

pub OnWay-trans : (h x c i : ℕ) → OnWay h x c → OnWay h c i → OnWay h x i
OnWay-trans h x c i w v = ground arith

-- The slots up to the next one are those so far and the slot passed.
pub OnWay-extend :
    (n c m m' i : ℕ)
    → c < n
    → m < n
    → i < n
    → c ≢ m'
    → c ≢ m
    → IsNext n m m'
    → OnWay c i m'
    → OnWay c i m ⊎ (i ≡ m)
unfolding IsNext
OnWay-extend n c m m' i hc hm hi ne ne' s w = ground arith

pub OnWay-next : (n m m' i : ℕ) → m < n → i < n → IsNext n m m' → OnWay m i m' → i ≡ m
unfolding IsNext
OnWay-next n m m' i hm hi s w = ground arith
