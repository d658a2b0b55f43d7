-- ===== src/Interval/Equality.antt =====
-- interval.hpp: `equals`, and the join as the least interval above its operands.
use knight.Prelude.{
  ◌≡◌, refl, ◌↔◌, inl, inr, true, arith, Bool-cases, ◌&&◌, ap, sym, ◌∙◌, if◌then◌else◌,
}
use knight.Prelude.Int.{ℤ}
use knight.Bound.{eqb}
use knight.Bound.Order.{le_antisymm, eqb_iff, le-min, max-le}
use knight.Interval.{Interval, is_bottom, contains, leq, equals, join_with}
use knight.Interval.Members.{IsValid, lb-IsNormal, ub-IsNormal}
use knight.Interval.Lattice.{
  join_with-eq, hull-IsValid, contains_of_bottom, contains-leq, bounds_of_leq, leq_of_bounds,
  bottom_of_leq,
}

-- The value of `equals`, with the tests on bounds left shut.
equals-eq :
    (x y : Interval)
    → equals x y ≡ (if is_bottom x && is_bottom y then true else eqb x.lb y.lb && eqb x.ub y.ub)
unfolding equals
equals-eq x y = refl

module _ {x y : Interval} (v : IsValid x) (w : IsValid y) where
  equals-contains : equals x y ≡ true → (n : ℤ) → contains x n ≡ contains y n
  equals-contains h n = elim (Bool-cases (is_bottom x && is_bottom y)) [
    | inl e ↦ rw (contains_of_bottom x n (ground arith), contains_of_bottom y n (ground arith)) refl
    | inr e ↦
        let both : (eqb x.lb y.lb && eqb x.ub y.ub) ≡ true = ground (arith, equals-eq x y) in
        let low = (eqb_iff (lb-IsNormal v) (lb-IsNormal w)).0 (ground arith) in
        let high = (eqb_iff (ub-IsNormal v) (ub-IsNormal w)).0 (ground arith) in
        ap (λ r. contains r n) (λ i. record { lb = low i; ub = high i })
  ]

module _ {x y : Interval} (v : IsValid x) (w : IsValid y) where
  contains-equals : ((n : ℤ) → contains x n ≡ contains y n) → equals x y ≡ true
  contains-equals same =
      let xy = contains-leq v w (λ n h. sym (same n) ∙ h) in
      let yx = contains-leq w v (λ n h. same n ∙ h) in
      elim (Bool-cases (is_bottom x)) [
        | inl e ↦ ground (arith, equals-eq x y, bottom_of_leq y x yx e)
        | inr e ↦ elim (Bool-cases (is_bottom y)) [
          | inl d ↦ ground (arith, bottom_of_leq x y xy d)
          | inr d ↦
              let (a, b) = bounds_of_leq v w xy e in
              let (c, f) = bounds_of_leq w v yx d in
              let low =
                (eqb_iff (lb-IsNormal v) (lb-IsNormal w)).1
                  (le_antisymm (lb-IsNormal v) (lb-IsNormal w) c a) in
              let high =
                (eqb_iff (ub-IsNormal v) (ub-IsNormal w)).1
                  (le_antisymm (ub-IsNormal v) (ub-IsNormal w) b f) in
              rw (equals-eq, e, low, high) refl
        ]
      ]

  -- For two valid intervals, `equals` is true exactly when they contain the same integers.
  pub equals_iff : (equals x y ≡ true) ↔ ((n : ℤ) → contains x n ≡ contains y n)
  equals_iff = (equals-contains v w, contains-equals)

module _ {x y z : Interval} (v : IsValid x) (w : IsValid y) (u : IsValid z) where
  -- For three valid intervals, the third above the first two in the order of `leq`, the third is
  -- above their join.
  pub join_with-least : leq x z ≡ true → leq y z ≡ true → leq (join_with x y) z ≡ true
  join_with-least h k = elim (Bool-cases (is_bottom x)) [
    | inl e ↦ unfold join_with in rw e k
    | inr e ↦ elim (Bool-cases (is_bottom y)) [
      | inl d ↦ unfold join_with in rw (e, d) h
      | inr d ↦
          let (lx, ux) = bounds_of_leq v u h e in
          let (ly, uy) = bounds_of_leq w u k d in
          rw (join_with-eq x y e d) (
            leq_of_bounds (hull-IsValid v w) u
              (le-min (lb-IsNormal v) (lb-IsNormal w) (lb-IsNormal u) lx ly)
              (max-le (ub-IsNormal v) (ub-IsNormal w) (ub-IsNormal u) ux uy))
    ]
  ]
