-- ===== src/Interval/Settling.antt =====
-- interval.hpp: widenings that change nothing, and narrowings by any interval.
use knight.Prelude.{◌≡◌, refl, ◌<◌, inl, inr, Bool, true, false, Bool-cases, if◌then◌else◌}
use knight.Prelude.Int.{ℤ}
use knight.Bound.{ltb}
use knight.Bound.Order.{Le, geb-leb, gtb_of_le}
use knight.Bound.Sides.{IsLower, IsUpper, Above, Below}
use knight.Interval.{Interval, is_bottom, contains, leq, widen_with, narrow_with}
use knight.Interval.Members.{
  IsValid, bottom-IsValid, lb-IsNormal, Above-of_contains, Below-of_contains, contains_of_between,
  not_bottom_of_contains,
}
use knight.Interval.Lattice.{bounds_of_leq}
use knight.Interval.Widening.{leq_refl, widen_with-eq}
use knight.Interval.Growth.{rank, rank-widen_with-lt}

module _ {x y : Interval} (v : IsValid x) (w : IsValid y) where
  ltb_of_le : Le x.lb y.lb → ltb y.lb x.lb ≡ false
  unfolding ltb
  ltb_of_le h = rw (geb-leb (lb-IsNormal w) (lb-IsNormal v), h) refl

  -- A widening by an interval below changes nothing.
  widen_stable : leq y x ≡ true → leq (widen_with x y) x ≡ true
  widen_stable h = elim (Bool-cases (is_bottom x)) [
    | inl e ↦ rw (widen_with-eq, e) h
    | inr e ↦ elim (Bool-cases (is_bottom y)) [
      | inl d ↦ rw (widen_with-eq, e, d) (leq_refl v)
      | inr d ↦
          let b = bounds_of_leq w v h d in
          rw (widen_with-eq, e, d, ltb_of_le b.0, gtb_of_le y.ub x.ub b.1) (leq_refl v)
    ]
  ]

  -- A widening that goes beyond the interval has a lower rank.
  pub rank-settles : leq (widen_with x y) x ≡ false → rank (widen_with x y) < rank x
  rank-settles h = elim (Bool-cases (leq y x)) [
    | inl e ↦ (let k = widen_stable e in cc (h, k))
    | inr e ↦ rank-widen_with-lt v w e
  ]

  pub narrow_with-IsValid : IsValid (narrow_with x y)
  unfolding narrow_with
  narrow_with-IsValid = elim (Bool-cases (is_bottom x)) [
    | inl e ↦ rw e v
    | inr e ↦ elim (Bool-cases (is_bottom y)) [
      | inl d ↦ rw (e, d) bottom-IsValid
      | inr d ↦
          rw (e, d) (record { lower = chosen_lower x.lb.is_inf; upper = chosen_upper x.ub.is_inf })
    ]
  ]
    where
      chosen_lower : (b : Bool) → IsLower (if b then y.lb else x.lb)
      chosen_lower true = w.lower
      chosen_lower false = v.lower

      chosen_upper : (b : Bool) → IsUpper (if b then y.ub else x.ub)
      chosen_upper true = w.upper
      chosen_upper false = v.upper

  -- A narrowing has what both intervals have.
  pub narrow_with-contains :
      (n : ℤ) → contains x n ≡ true → contains y n ≡ true → contains (narrow_with x y) n ≡ true
  narrow_with-contains n p q =
      let e = not_bottom_of_contains v n p in
      let d = not_bottom_of_contains w n q in
      contains_of_between narrow_with-IsValid n
        (unfold narrow_with in rw (e, d) (above x.lb.is_inf))
        (unfold narrow_with in rw (e, d) (below x.ub.is_inf))
    where
      above : (b : Bool) → Above (if b then y.lb else x.lb) n
      above true = Above-of_contains w n q
      above false = Above-of_contains v n p

      below : (b : Bool) → Below (if b then y.ub else x.ub) n
      below true = Below-of_contains w n q
      below false = Below-of_contains v n p
