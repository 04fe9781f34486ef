-- ===== src/Table/Hole.antt =====
-- The hole that the backward-shift deletion moves: the invariant of its loop, and what holds when the
-- loop stops.
use ultra_low_latency_order.Prelude.{
  ℕ, ◌<◌, ◌≡◌, ◌≢◌, ◌⊎◌, inl, inr, true, false, arith, Bool-cases, subst, sym, ap,
}
use ultra_low_latency_order.Table.{Layout, IsLayout}
use ultra_low_latency_order.Table.Cyclic.{OnWay, on_way, steps_to, OnWay-through}
use ultra_low_latency_order.Table.Count.{occupied_below}

module _ {K E : Type 0} (l : Layout K E) (laws : IsLayout l) where
  -- The entries but for the one at the hole: each key once, and each entry reached from its ideal
  -- slot by occupied slots, the hole counting as occupied.
  abbrev pub IsUniqueBut : (ℕ → E) → ℕ → Type 0
  IsUniqueBut es c =
      (i j : ℕ)
      → i < l.capacity
      → j < l.capacity
      → i ≢ c
      → j ≢ c
      → l.occupied (es i) ≡ true
      → l.occupied (es j) ≡ true
      → l.key (es i) ≡ l.key (es j)
      → i ≡ j

  abbrev pub IsLinkedBut : (ℕ → E) → ℕ → Type 0
  IsLinkedBut es c =
      (i x : ℕ)
      → i < l.capacity
      → x < l.capacity
      → i ≢ c
      → l.occupied (es i) ≡ true
      → OnWay (l.hash (l.key (es i))) x i
      → (x ≡ c) ⊎ (l.occupied (es x) ≡ true)

  -- The loop's invariant at the hole `c` and the slot `m`; `v` is a vacant slot still ahead.
  pub record Hole (es : ℕ → E) (c m v : ℕ) : Type 0 where
    pub hole_in : c < l.capacity
    pub here_in : m < l.capacity
    pub free_in : v < l.capacity
    pub apart : c ≢ m
    pub free : l.occupied (es v) ≡ false
    pub filled : l.occupied (es c) ≡ true
    pub ahead : steps_to l.capacity m v < steps_to l.capacity c v
    pub unique : IsUniqueBut es c
    pub linked : IsLinkedBut es c
    pub scanned :
        (i : ℕ)
        → i < l.capacity
        → i ≢ c
        → OnWay c i m
        → l.occupied (es i) ≡ true
        → ¬ (OnWay (l.hash (l.key (es i))) c i)

  -- The entries but for the hole stay the same, as a set and in number.
  pub record SameBut (es : ℕ → E) (c : ℕ) (es' : ℕ → E) (c' : ℕ) : Type 0 where
    pub kept :
        (i : ℕ)
        → i < l.capacity
        → i ≢ c
        → l.occupied (es i) ≡ true
        → (j : ℕ) × (j < l.capacity) × (j ≢ c') × (es' j ≡ es i)
    pub old :
        (j : ℕ)
        → j < l.capacity
        → j ≢ c'
        → l.occupied (es' j) ≡ true
        → (i : ℕ) × (i < l.capacity) × (i ≢ c) × (es i ≡ es' j)
    pub number : occupied_below l.occupied l.capacity es ≡ occupied_below l.occupied l.capacity es'

  -- The loop's end: no way to an entry leads through the hole.
  pub record Closed (es : ℕ → E) (c : ℕ) : Type 0 where
    pub hole_in : c < l.capacity
    pub filled : l.occupied (es c) ≡ true
    pub unique : IsUniqueBut es c
    pub linked :
        (i x : ℕ)
        → i < l.capacity
        → x < l.capacity
        → i ≢ c
        → l.occupied (es i) ≡ true
        → OnWay (l.hash (l.key (es i))) x i
        → (x ≢ c) × (l.occupied (es x) ≡ true)

  -- The loop stops at a vacant slot.
  module _ (es : ℕ → E) (c m v : ℕ) (h : Hole es c m v) where
    stop-apart :
        (i x : ℕ)
        → i < l.capacity
        → x < l.capacity
        → i ≢ c
        → l.occupied (es m) ≡ false
        → l.occupied (es i) ≡ true
        → OnWay (l.hash (l.key (es i))) x i
        → x ≢ c
    stop-apart i x hi hx ne vacant oi w e =
        let way : OnWay (l.hash (l.key (es i))) c i =
          subst (λ y. OnWay (l.hash (l.key (es i))) y i) e w in
        elim (Bool-cases (on_way c i m)) [
          | inl seen ↦ h.scanned i hi ne seen oi way
          | inr later ↦ elim (OnWay-through (l.hash (l.key (es i))) c i m way (λ q. cc) h.apart) [
            | inl here ↦ ground (arith, ap (λ y. l.occupied (es y)) here)
            | inr through ↦ elim (h.linked i m hi h.here_in ne oi through) [
              | inl hole ↦ h.apart (sym hole)
              | inr full ↦ cc
            ]
          ]
        ]

    pub stop-Closed : l.occupied (es m) ≡ false → Closed es c
    stop-Closed vacant = record {
      hole_in = h.hole_in;
      filled = h.filled;
      unique = h.unique;
      linked = λ i x hi hx ne oi w.
          let away : x ≢ c = stop-apart i x hi hx ne vacant oi w in
          (
            away,
            elim (h.linked i x hi hx ne oi w) [ inl hole ↦ absurd (away hole) | inr full ↦ full ],
          );
    }
