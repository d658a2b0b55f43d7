-- ===== src/Interval/Divide.antt =====
-- interval.hpp: `operator/` ends and covers the quotients.
use knight.Prelude.{
  ℕ, suc, ◌≡◌, refl, ◌≢◌, inl, inr, Bool-cases, true, false, ◌||◌, arith, Returns, Returns-imp,
}
use knight.Prelude.Int.{ℤ, pos, negsuc}
use knight.Num.{Gmp, Truncates, trunc}
use knight.Bound.{Bound, finite, make, leb, geb, min_of_four, max_of_four}
use knight.Bound.Order.{IsNormal, Le, le_trans}
use knight.Bound.Sides.{IsLower, IsUpper}
use knight.Interval.{Interval, construct, contains, is_bottom}
use knight.Interval.Ops.{divide_fuel}
use knight.Interval.Members.{
  IsValid, IsRange, construct-IsRange, lb-IsNormal, ub-IsNormal, le_of_not_bottom, bottom-IsValid,
  Above-of_contains, Below-of_contains, finite-IsNormal,
}
use knight.Interval.Lattice.{contains_of_bottom}
use knight.Interval.Times.{
  min_of_four-IsNormal, min_of_four-le, max_of_four-IsNormal, le-max_of_four, lower_of_le,
  upper_of_le, between,
}
use knight.Interval.Quotients.{
  quot, quot-IsNormal, div-quot, HasSign, quotient_above, quotient_below,
}

-- The interval `r` covers the truncated quotients by the divisors that are not zero.
pub record Divides (x y r : Interval) : Type 0 where
  pub valid : IsValid r
  pub holds :
      (m n : ℤ)
      → contains x m ≡ true
      → contains y n ≡ true
      → n ≢ pos 0
      → contains r (trunc m n) ≡ true

HasSign-of_bounds :
    (l u : Bound)
    → IsLower l
    → IsUpper u
    → Le l u
    → contains (record { lb = l; ub = u }) (pos 0) ≡ false
    → HasSign l u
unfolding contains is_bottom leb geb finite make
HasSign-of_bounds l u (IsLower.fin a) (IsUpper.fin b) h e = ground arith
HasSign-of_bounds l u IsLower.minus (IsUpper.fin b) h e = ground arith
HasSign-of_bounds l u (IsLower.fin a) IsUpper.plus h e = ground arith
HasSign-of_bounds l u IsLower.minus IsUpper.plus h e = ground arith

module _ {gmp : Gmp} (law : Truncates gmp) where
  module _ {x y : Interval} (v : IsValid x) (w : IsValid y) where
    low : Bound
    low = min_of_four (quot x.lb y.lb) (quot x.lb y.ub) (quot x.ub y.lb) (quot x.ub y.ub)

    high : Bound
    high = max_of_four (quot x.lb y.lb) (quot x.lb y.ub) (quot x.ub y.lb) (quot x.ub y.ub)

    ll : IsNormal (quot x.lb y.lb)
    ll = quot-IsNormal (lb-IsNormal v) (lb-IsNormal w)

    lu : IsNormal (quot x.lb y.ub)
    lu = quot-IsNormal (lb-IsNormal v) (ub-IsNormal w)

    ul : IsNormal (quot x.ub y.lb)
    ul = quot-IsNormal (ub-IsNormal v) (lb-IsNormal w)

    uu : IsNormal (quot x.ub y.ub)
    uu = quot-IsNormal (ub-IsNormal v) (ub-IsNormal w)

    low-IsNormal : IsNormal low
    unfolding low
    low-IsNormal = min_of_four-IsNormal ll lu ul uu

    high-IsNormal : IsNormal high
    unfolding high
    high-IsNormal = max_of_four-IsNormal ll lu ul uu

    module _ (full : (is_bottom x || is_bottom y) ≡ false)
        (outside : contains y (pos 0) ≡ false) where
      y_range : Le y.lb y.ub
      y_range = le_of_not_bottom w (ground (arith, full))

      sign : HasSign y.lb y.ub
      sign = HasSign-of_bounds y.lb y.ub w.lower w.upper y_range outside

      sign_lb : HasSign y.lb y.lb
      sign_lb = elim sign [
        | inl z ↦ inl z
        | inr z ↦
            inr (le_trans (lb-IsNormal w) (ub-IsNormal w) (finite-IsNormal (negsuc 0)) y_range z)
      ]

      sign_ub : HasSign y.ub y.ub
      sign_ub = elim sign [
        | inl z ↦ inl (le_trans (finite-IsNormal (pos 1)) (lb-IsNormal w) (ub-IsNormal w) z y_range)
        | inr z ↦ inr z
      ]

      divide-corners :
          (fuel : ℕ)
          → contains x (pos 0) ≡ false
          → divide_fuel gmp (suc fuel) x y ≡ construct low high
      unfolding divide_fuel low high
      divide-corners fuel g =
          rw
            (
              full,
              outside,
              g,
              div-quot law (lb-IsNormal v) (lb-IsNormal w) sign_lb,
              div-quot law (lb-IsNormal v) (ub-IsNormal w) sign_ub,
              div-quot law (ub-IsNormal v) (lb-IsNormal w) sign_lb,
              div-quot law (ub-IsNormal v) (ub-IsNormal w) sign_ub,
            )
            refl

      module _ (m n : ℤ) (p : Le x.lb (finite m)) (q : Le (finite m) x.ub) (r : Le y.lb (finite n))
          (s : Le (finite n) y.ub) where
        low-le : Le low (finite (trunc m n))
        unfolding low
        low-le =
            let (a, (b, (c, d))) = min_of_four-le ll lu ul uu in
            quotient_above (lb-IsNormal v) (ub-IsNormal v) (lb-IsNormal w) (ub-IsNormal w) m n p q r
              s sign low-IsNormal a b c d

        le-high : Le (finite (trunc m n)) high
        unfolding high
        le-high =
            let (a, (b, (c, d))) = le-max_of_four ll lu ul uu in
            quotient_below (lb-IsNormal v) (ub-IsNormal v) (lb-IsNormal w) (ub-IsNormal w) m n p q r
              s sign high-IsNormal a b c d

      corners_cover : Returns (Divides x y) (construct low high)
      corners_cover =
          let (m, (p, q)) = between v.lower v.upper (le_of_not_bottom v (ground (arith, full))) in
          let (n, (r, s)) = between w.lower w.upper y_range in
          Returns-imp (IsRange low high) (Divides x y) (construct low high)
            (λ i range. record {
              valid = range.valid;
              holds = λ j k h g nz.
                  range.holds (trunc j k)
                    (low-le j k (Above-of_contains v j h) (Below-of_contains v j h)
                      (Above-of_contains w k g) (Below-of_contains w k g))
                    (le-high j k (Above-of_contains v j h) (Below-of_contains v j h)
                      (Above-of_contains w k g) (Below-of_contains w k g));
            })
            (construct-IsRange (lower_of_le (trunc m n) low-IsNormal (low-le m n p q r s))
              (upper_of_le (trunc m n) high-IsNormal (le-high m n p q r s)))

    pub divide_of_bottom :
        (fuel : ℕ)
        → (is_bottom x || is_bottom y) ≡ true
        → Returns (Divides x y) (divide_fuel gmp (suc fuel) x y)
    unfolding divide_fuel
    divide_of_bottom fuel e = rw e (record {
      valid = bottom-IsValid;
      holds = λ m n h k nz. absurd (elim (Bool-cases (is_bottom x)) [
        | inl b ↦ ground (arith, contains_of_bottom x m b)
        | inr b ↦ ground (arith, contains_of_bottom y n, e)
      ]);
    })

    pub divide_apart :
        (fuel : ℕ)
        → contains y (pos 0) ≡ false
        → contains x (pos 0) ≡ false
        → Returns (Divides x y) (divide_fuel gmp (suc fuel) x y)
    divide_apart fuel f g = elim (Bool-cases (is_bottom x || is_bottom y)) [
      | inl e ↦ divide_of_bottom fuel e
      | inr e ↦ rw (divide-corners e f fuel g) (corners_cover e f)
    ]
