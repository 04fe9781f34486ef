-- ===== src/Table/Without.antt =====
-- A table after some keys have been removed.
use ultra_low_latency_order.Prelude.{
  ◌≡◌, refl, ◌∙◌, Bool, true, false, List, [], ◌∷◌, done, if◌then◌else◌, Bool-cases, inl, inr, none,
}
use ultra_low_latency_order.Table.{Layout, Table, lookup}
use ultra_low_latency_order.Table.Invariant.{IsValid}

module _ {K E : Type 0} (l : Layout K E) where
  unfoldable pub has : List K → K → Bool
  has [] j = false
  has (k ∷ ks) j = if l.same k j then true else has ks j

  -- `t'` is a valid table that finds what `t` finds, the keys `ks` apart, which it does not find.
  pub record IsWithout (t t' : Table E) (ks : List K) : Type 0 where
    pub valid : IsValid l t'
    pub found : (j : K) → lookup l t' j ≡ (if has ks j then done none else lookup l t j)

  pub IsWithout-nil : (t : Table E) → IsValid l t → IsWithout t t []
  unfolding has
  IsWithout-nil t h = record { valid = h; found = λ j. refl }

  pub IsWithout-remove :
      (t t' t'' : Table E) (k : K) (ks : List K)
      → ((j : K) → lookup l t' j ≡ (if l.same k j then done none else lookup l t j))
      → IsWithout t' t'' ks
      → IsWithout t t'' (k ∷ ks)
  unfolding has
  IsWithout-remove t t' t'' k ks removed h = record {
    valid = h.valid;
    found = λ j. h.found j ∙ elim (Bool-cases (l.same k j)) [
      | inl e ↦ elim (Bool-cases (has ks j)) [
        | inl f ↦ rw (e, f) refl
        | inr f ↦ rw (e, f) (removed j ∙ rw e refl)
      ]
      | inr e ↦ elim (Bool-cases (has ks j)) [
        | inl f ↦ rw (e, f) refl
        | inr f ↦ rw (e, f) (removed j ∙ rw e refl)
      ]
    ];
  }
