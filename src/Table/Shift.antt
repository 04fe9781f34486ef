-- ===== src/Table/Shift.antt =====
-- The loop of the backward-shift deletion: it ends, and the hole that it leaves breaks no probe chain.
use ultra_low_latency_order.Prelude.{
  ℕ, zero, suc, ◌<◌, ◌≡◌, ◌≢◌, ◌⊎◌, inl, inr, true, false, some, arith, Bool-cases, subst, sym, ap,
  ◌∙◌, refl, update, ◌==◌, ==→eq, ==→ne, eq→==, ne→==,
}
use ultra_low_latency_order.Table.{Layout, IsLayout, next_slot, can_shift, shift_back}
use ultra_low_latency_order.Table.Cyclic.{
  OnWay, IsNext, IsNext-lt, steps_to, steps_to-step, can_shift_lem, OnWay-trans, OnWay-extend,
  OnWay-next,
}
use ultra_low_latency_order.Table.Count.{occupied_below-update}
use ultra_low_latency_order.Table.Probe.{next_slot-IsNext}
use ultra_low_latency_order.Table.Hole.{IsLinkedBut, Hole, SameBut, Closed, stop-Closed}

module _ {K E : Type 0} (l : Layout K E) (laws : IsLayout l) where
  module _ (es : ℕ → E) (c m v : ℕ) (h : Hole l laws es c m v) where
    module _ (full : l.occupied (es m) ≡ true) where
      after-IsNext : IsNext l.capacity m (next_slot l m)
      after-IsNext = next_slot-IsNext l laws m h.here_in

      not_free : m ≢ v
      not_free e = ground (arith, ap (λ y. l.occupied (es y)) e, h.free)

      nearer : steps_to l.capacity m v ≡ suc (steps_to l.capacity (next_slot l m) v)
      nearer =
          steps_to-step l.capacity m (next_slot l m) v h.here_in h.free_in not_free after-IsNext

      apart_from_next : c ≢ next_slot l m
      apart_from_next e = omega (arith, ap (λ y. steps_to l.capacity y v) e, nearer, h.ahead)

      -- The slot is left where it is.
      keep-Hole :
          can_shift l c m (l.hash (l.key (es m))) ≡ false → Hole l laws es c (next_slot l m) v
      keep-Hole stays = record {
        hole_in = h.hole_in;
        here_in = IsNext-lt l.capacity m (next_slot l m) h.here_in after-IsNext;
        free_in = h.free_in;
        apart = apart_from_next;
        free = h.free;
        filled = h.filled;
        ahead = omega (arith, nearer, h.ahead);
        unique = h.unique;
        linked = h.linked;
        scanned = λ i hi ne w oi way.
            elim (OnWay-extend l.capacity c m (next_slot l m) i h.hole_in h.here_in hi
              apart_from_next h.apart after-IsNext w) [
                | inl seen ↦ h.scanned i hi ne seen oi way
                | inr here ↦
                    let way' : OnWay (l.hash (l.key (es m))) c m =
                      subst (λ y. OnWay (l.hash (l.key (es y))) c y) here way in
                    ground (arith, can_shift_lem c m (l.hash (l.key (es m))) h.apart)
              ];
      }

      module _ (goes : can_shift l c m (l.hash (l.key (es m))) ≡ true) where
        moved : ℕ → E
        moved = update es c (es m)

        way_to_hole : OnWay (l.hash (l.key (es m))) c m
        way_to_hole = sym (can_shift_lem c m (l.hash (l.key (es m))) h.apart) ∙ goes

        moved-stays : (x : ℕ) → (x ≡ c) ⊎ (l.occupied (es x) ≡ true) → l.occupied (moved x) ≡ true
        unfolding moved
        moved-stays x (inl hole) = ground arith
        moved-stays x (inr there) = ground arith

        moved-linked : IsLinkedBut l laws moved m
        unfolding moved
        moved-linked i x hi hx ne oi w = elim (Bool-cases (c == i)) [
          | inl new ↦
              let way : OnWay (l.hash (l.key (es m))) x c =
                subst (λ y. OnWay (l.hash (l.key (es m))) x y) (sym (==→eq c i new))
                  (rw new at w) in
              inr (
                moved-stays x (
                  h.linked m x h.here_in hx (λ e. h.apart (sym e)) full
                    (OnWay-trans (l.hash (l.key (es m))) x c m way way_to_hole)))
          | inr other ↦ inr (
              moved-stays x (
                h.linked i x hi hx (λ e. ==→ne c i other (sym e)) (rw other at oi) (rw other at w)))
        ]

        -- The slot's entry moves to the hole, and the slot is the new hole.
        move-Hole : Hole l laws moved m (next_slot l m) v
        unfolding moved
        move-Hole = record {
          hole_in = h.here_in;
          here_in = IsNext-lt l.capacity m (next_slot l m) h.here_in after-IsNext;
          free_in = h.free_in;
          apart = λ e. omega (arith, ap (λ y. steps_to l.capacity y v) e, nearer);
          free = ground (arith, h.free, h.filled);
          filled = ground (arith, h.apart);
          ahead = omega (arith, nearer);
          unique = λ i j hi hj ni nj oi oj same. ground (
            arith,
            h.unique i j hi hj,
            h.unique m j h.here_in hj (λ e. h.apart (sym e)),
            h.unique i m hi h.here_in,
          );
          linked = moved-linked;
          scanned = λ i hi ne w oi way.
              ne (OnWay-next l.capacity m (next_slot l m) i h.here_in hi after-IsNext w);
        }

        move-SameBut : SameBut l laws es c moved m
        unfolding moved
        move-SameBut = record {
          kept = λ i hi ne oi. elim (Bool-cases (m == i)) [
            | inl here ↦ (c, h.hole_in, h.apart, rw (eq→== c c refl) (ap es (==→eq m i here)))
            | inr other ↦
                let ne' : (c == i) ≡ false = ne→== c i (λ e. ne (sym e)) in
                (i, hi, λ e. ==→ne m i other (sym e), rw ne')
          ];
          old = λ j hj ne oj. elim (Bool-cases (c == j)) [
            | inl new ↦ (m, h.here_in, λ e. h.apart (sym e), rw new)
            | inr other ↦ (j, hj, λ e. ==→ne c j other (sym e), rw other)
          ];
          number =
              ground (
                arith,
                occupied_below-update l.occupied l.capacity es c (es m) h.hole_in,
                h.filled,
              );
        }

  SameBut-refl : (es : ℕ → E) (c : ℕ) → SameBut l laws es c es c
  SameBut-refl es c = record {
    kept = λ i hi ne oi. (i, hi, ne, refl);
    old = λ j hj ne oj. (j, hj, ne, refl);
    number = refl;
  }

  SameBut-trans :
      (es es' es'' : ℕ → E) (c c' c'' : ℕ)
      → SameBut l laws es c es' c'
      → SameBut l laws es' c' es'' c''
      → SameBut l laws es c es'' c''
  SameBut-trans es es' es'' c c' c'' p q = record {
    kept = λ i hi ne oi.
        let (j, hj, nj, at_j) = p.kept i hi ne oi in
        let (k, hk, nk, at_k) = q.kept j hj nj (ap l.occupied at_j ∙ oi) in
        (k, hk, nk, at_k ∙ at_j);
    old = λ k hk nk ok_.
        let (j, hj, nj, at_j) = q.old k hk nk ok_ in
        let (i, hi, ni, at_i) = p.old j hj nj (ap l.occupied at_j ∙ ok_) in
        (i, hi, ni, at_i ∙ at_j);
    number = p.number ∙ q.number;
  }

  -- What the loop returns.
  pub record Shifted (es : ℕ → E) (c : ℕ) (out : (ℕ → E) × ℕ) : Type 0 where
    pub closed : Closed l laws out.0 out.1
    pub same : SameBut l laws es c out.0 out.1

  pub shift_back_lem :
      (fuel : ℕ) (es : ℕ → E) (c m v : ℕ)
      → Hole l laws es c m v
      → steps_to l.capacity m v < fuel
      → (out : (ℕ → E) × ℕ) × (shift_back l fuel es c m ≡ some out) × Shifted es c out
  unfolding shift_back
  shift_back_lem zero es c m v h enough = elim enough [ ]
  shift_back_lem (suc fuel) es c m v h enough = elim (Bool-cases (l.occupied (es m))) [
    | inr vacant ↦ (
      (es, c),
      rw vacant,
      record { closed = stop-Closed l laws es c m v h vacant; same = SameBut-refl es c },
    )
    | inl full ↦
        let less : steps_to l.capacity (next_slot l m) v < fuel =
          omega (arith, nearer es c m v h full) in
        elim (Bool-cases (can_shift l c m (l.hash (l.key (es m))))) [
          | inl goes ↦
              let (out, found, s) =
                shift_back_lem fuel (update es c (es m)) m (next_slot l m) v
                  (unfold moved in move-Hole es c m v h full goes) less in
              (
                out,
                rw (full, goes) found,
                record {
                  closed = s.closed;
                  same =
                      SameBut-trans es (update es c (es m)) out.0 c m out.1
                        (unfold moved in move-SameBut es c m v h full goes) s.same;
                },
              )
          | inr stays ↦
              let (out, found, s) =
                shift_back_lem fuel es c (next_slot l m) v (keep-Hole es c m v h full stays) less in
              (out, rw (full, stays) found, s)
        ]
  ]
