-- ===== src/Table.antt =====
-- The open-addressing tables of src/book.rs. `FastOrderIndex`, `FastPriceIndex` and
-- `FastClientIndex` are the same code at three entry types; it is written once, over the entry.
pub mod Cyclic
pub mod Count
pub mod Invariant
pub mod Probe
pub mod Lookup
pub mod Insert
pub mod Hole
pub mod Shift
pub mod Remove
pub mod Without
mod Tests
use ultra_low_latency_order.Prelude.{
  ℕ, zero, suc, ◌+◌, ◌-◌, ◌*◌, ◌/◌, ◌%◌, ◌<◌, ◌≤◌, ◌≡◌, ◌↔◌, Bool, true, false, not, ◌&&◌, ◌||◌,
  Option, none, some, ltb, leb, if◌then◌else◌, add64, u64_mod, update, Exec, done, stalled, ◌>>=◌,
  or_stalled,
}
use ultra_low_latency_order.Types.{RejectReason, Result, ok, err}

-- What tells the three tables apart: the number of slots, the hash, the entry's key and flag, the
-- default entry and the comparison of keys.
pub record Layout (K E : Type 0) : Type 0 where
  pub capacity : ℕ
  pub hash : K → ℕ
  pub key : E → K
  pub occupied : E → Bool
  pub vacant : E
  pub same : K → K → Bool

-- What the code relies on; each of the three layouts is shown to have it.
pub record IsLayout {K E : Type 0} (l : Layout K E) : Type 0 where
  pub capacity_pos : 0 < l.capacity
  pub capacity_fits : l.capacity < u64_mod
  pub hash_in : (k : K) → l.hash k < l.capacity
  pub vacant_free : l.occupied l.vacant ≡ false
  pub same_iff : (j k : K) → (l.same j k ≡ true) ↔ (j ≡ k)

-- The slots are a function of the index: every index that the code forms is below the capacity,
-- which is the length of the vector.
pub record Table (E : Type 0) : Type 0 where
  pub entries : ℕ → E
  pub count : ℕ

module _ {K E : Type 0} (l : Layout K E) where
  -- `new`
  abbrev pub new_table : Table E
  new_table = record { entries = λ _. l.vacant; count = 0 }

  -- `(idx + 1) & MASK`: the capacity is a power of two and MASK is one less.
  unfoldable pub next_slot : ℕ → ℕ
  next_slot i = (i + 1) % l.capacity

  -- The loop that `insert`, `lookup` and `remove` share: from slot `i` on, the first one that is
  -- vacant or holds the key.
  unfoldable pub probe : ℕ → (ℕ → E) → K → ℕ → Option ℕ
  unfolding next_slot
  probe zero es k i = none
  probe (suc fuel) es k i =
      let rest = probe fuel es k (next_slot i) in
      if not (l.occupied (es i)) || l.same (l.key (es i)) k then some i else rest

  -- `insert`, up to the write at the slot that the loop has found.
  unfoldable pub write_at : Table E → E → ℕ → Table E
  write_at t e i = record {
    entries = update t.entries i e;
    count = if l.occupied (t.entries i) then t.count else add64 t.count 1;
  }

  unfoldable pub insert : Table E → E → Exec (Result (Unit {0}) × Table E)
  unfolding probe write_at
  insert t e =
      if leb (l.capacity * 8 / 10) t.count
      then done (err RejectReason.engine_full, t)
      else or_stalled (probe l.capacity t.entries (l.key e) (l.hash (l.key e))) >>= λ i.
          done (ok tt, write_at t e i)

  unfoldable pub lookup : Table E → K → Exec (Option E)
  unfolding probe
  lookup t k = or_stalled (probe l.capacity t.entries k (l.hash k)) >>= λ i.
      done (if l.occupied (t.entries i) then some (t.entries i) else none)

  abbrev pub can_shift : ℕ → ℕ → ℕ → Bool
  can_shift curr next ideal =
      if ltb curr next then leb ideal curr || ltb next ideal else leb ideal curr && ltb next ideal

  -- The `while` loop of the deletion: the entries and the hole at its end.
  unfoldable pub shift_back : ℕ → (ℕ → E) → ℕ → ℕ → Option ((ℕ → E) × ℕ)
  unfolding next_slot
  shift_back zero es curr next = none
  shift_back (suc fuel) es curr next =
      let moved = shift_back fuel (update es curr (es next)) next (next_slot next) in
      let kept = shift_back fuel es curr (next_slot next) in
      if l.occupied (es next)
      then if can_shift curr next (l.hash (l.key (es next))) then moved else kept
      else some (es, curr)

  -- `remove` at the slot `i` that holds the key.
  unfoldable pub remove_at : Table E → ℕ → Exec (Table E)
  unfolding shift_back next_slot
  remove_at t i = or_stalled (shift_back l.capacity t.entries i (next_slot i)) >>= λ (es, hole).
      done (record { entries = update es hole l.vacant; count = t.count - 1 })

  -- The rest of `remove` once its loop has stopped at slot `i`.
  unfoldable pub remove_found : Table E → ℕ → Exec (Option E × Table E)
  unfolding remove_at
  remove_found t i =
      if l.occupied (t.entries i)
      then (remove_at t i >>= λ t'. done (some (t.entries i), t'))
      else done (none, t)

  unfoldable pub remove : Table E → K → Exec (Option E × Table E)
  unfolding probe remove_found
  remove t k = or_stalled (probe l.capacity t.entries k (l.hash k)) >>= remove_found t
