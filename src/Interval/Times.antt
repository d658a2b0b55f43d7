-- ===== src/Interval/Times.antt =====
-- interval.hpp: `operator*` ends and covers the products.
use knight.Prelude.{
  ◌≡◌, refl, inl, inr, Bool-cases, ◌||◌, arith, if◌then◌else◌, Returns, Returns-imp, some,
}
use knight.Prelude.Int.{ℤ, pos, ◌*ℤ◌}
use knight.Bound.{Bound, finite, make, leb, mul, min_of_four, max_of_four}
use knight.Bound.Order.{
  IsNormal, Le, le_refl, le_trans, min-IsNormal, max-IsNormal, min-le_left, min-le_right,
  le-max_left, le-max_right,
}
use knight.Bound.Sides.{IsLower, IsUpper}
use knight.Interval.{Interval, bottom, construct, is_bottom}
use knight.Interval.Ops.{times}
use knight.Interval.Members.{
  IsValid, IsRange, construct-IsRange, lb-IsNormal, ub-IsNormal, le_of_not_bottom,
  Above-of_contains, Below-of_contains,
}
use knight.Interval.Products.{mul-IsNormal, product_above, product_below}
use knight.Interval.Sums.{Covers, Covers-of_bottom}

module _ {a b c d : Bound} (p : IsNormal a) (q : IsNormal b) (r : IsNormal c) (s : IsNormal d) where
  pub min_of_four-IsNormal : IsNormal (min_of_four a b c d)
  unfolding min_of_four
  min_of_four-IsNormal = min-IsNormal (min-IsNormal (min-IsNormal p q) r) s

  pub min_of_four-le :
      Le (min_of_four a b c d) a
      × (Le (min_of_four a b c d) b × (Le (min_of_four a b c d) c × Le (min_of_four a b c d) d))
  unfolding min_of_four
  min_of_four-le =
      let pq = min-IsNormal p q in
      let pqr = min-IsNormal pq r in
      let all = min-IsNormal pqr s in
      let low = min-le_left pqr s in
      let lower = le_trans all pqr pq low (min-le_left pq r) in
      (
        le_trans all pq p lower (min-le_left p q),
        (
          le_trans all pq q lower (min-le_right p q),
          (le_trans all pqr r low (min-le_right pq r), min-le_right pqr s),
        ),
      )

  pub max_of_four-IsNormal : IsNormal (max_of_four a b c d)
  unfolding max_of_four
  max_of_four-IsNormal = max-IsNormal (max-IsNormal (max-IsNormal p q) r) s

  pub le-max_of_four :
      Le a (max_of_four a b c d)
      × (Le b (max_of_four a b c d) × (Le c (max_of_four a b c d) × Le d (max_of_four a b c d)))
  unfolding max_of_four
  le-max_of_four =
      let pq = max-IsNormal p q in
      let pqr = max-IsNormal pq r in
      let all = max-IsNormal pqr s in
      let high = le-max_left pqr s in
      let higher = le_trans pq pqr all (le-max_left pq r) high in
      (
        le_trans p pq all (le-max_left p q) higher,
        (
          le_trans q pq all (le-max_right p q) higher,
          (le_trans r pqr all (le-max_right pq r) high, le-max_right pqr s),
        ),
      )

-- What is below an integer is a lower bound, and what is above one is an upper bound.
pub lower_of_le : {a : Bound} (v : ℤ) → IsNormal a → Le a (finite v) → IsLower a
unfolding finite make leb
lower_of_le v IsNormal.minus h = IsLower.minus
lower_of_le v (IsNormal.fin n) h = IsLower.fin n
lower_of_le v IsNormal.plus h = ground arith

pub upper_of_le : {a : Bound} (v : ℤ) → IsNormal a → Le (finite v) a → IsUpper a
unfolding finite make leb
upper_of_le v IsNormal.minus h = ground arith
upper_of_le v (IsNormal.fin n) h = IsUpper.fin n
upper_of_le v IsNormal.plus h = IsUpper.plus

-- An integer between the bounds of an interval that is not bottom.
pub between :
    {l u : Bound} → IsLower l → IsUpper u → Le l u → (n : ℤ) × (Le l (finite n) × Le (finite n) u)
unfolding finite make leb
between (IsLower.fin a) q h = (a, (le_refl (IsNormal.fin a), h))
between IsLower.minus (IsUpper.fin b) h = (b, (h, le_refl (IsNormal.fin b)))
between IsLower.minus IsUpper.plus h = (pos 0, (refl, refl))

module _ {x y : Interval} (v : IsValid x) (w : IsValid y) where
  low : Bound
  low = min_of_four (mul x.lb y.lb) (mul x.lb y.ub) (mul x.ub y.lb) (mul x.ub y.ub)

  high : Bound
  high = max_of_four (mul x.lb y.lb) (mul x.lb y.ub) (mul x.ub y.lb) (mul x.ub y.ub)

  low-IsNormal : IsNormal low
  unfolding low
  low-IsNormal =
      min_of_four-IsNormal (mul-IsNormal _ _) (mul-IsNormal _ _) (mul-IsNormal _ _)
        (mul-IsNormal _ _)

  high-IsNormal : IsNormal high
  unfolding high
  high-IsNormal =
      max_of_four-IsNormal (mul-IsNormal _ _) (mul-IsNormal _ _) (mul-IsNormal _ _)
        (mul-IsNormal _ _)

  module _ (m n : ℤ) (p : Le x.lb (finite m)) (q : Le (finite m) x.ub) (r : Le y.lb (finite n))
      (s : Le (finite n) y.ub) where
    low-le : Le low (finite (m *ℤ n))
    unfolding low
    low-le =
        let (ll, (lu, (ul, uu))) =
          min_of_four-le (mul-IsNormal x.lb y.lb) (mul-IsNormal x.lb y.ub) (mul-IsNormal x.ub y.lb)
            (mul-IsNormal x.ub y.ub) in
        product_above (lb-IsNormal v) (ub-IsNormal v) (lb-IsNormal w) (ub-IsNormal w) m n p q r s
          low-IsNormal ll lu ul uu

    le-high : Le (finite (m *ℤ n)) high
    unfolding high
    le-high =
        let (ll, (lu, (ul, uu))) =
          le-max_of_four (mul-IsNormal x.lb y.lb) (mul-IsNormal x.lb y.ub) (mul-IsNormal x.ub y.lb)
            (mul-IsNormal x.ub y.ub) in
        product_below (lb-IsNormal v) (ub-IsNormal v) (lb-IsNormal w) (ub-IsNormal w) m n p q r s
          high-IsNormal ll lu ul uu

  times-eq : times x y ≡ (if is_bottom x || is_bottom y then some bottom else construct low high)
  unfolding times low high
  times-eq = refl

  -- For two valid intervals, bounded or not, `operator*` ends with a valid interval that contains
  -- the product of each integer of the first and each of the second.
  pub times_sound : Returns (Covers ◌*ℤ◌ x y) (times x y)
  times_sound = rw times-eq (elim (Bool-cases (is_bottom x || is_bottom y)) [
    | inl e ↦ rw e (Covers-of_bottom v w ◌*ℤ◌ e)
    | inr e ↦
        let (m, (p, q)) = between v.lower v.upper (le_of_not_bottom v (ground arith)) in
        let (n, (r, s)) = between w.lower w.upper (le_of_not_bottom w (ground arith)) in
        rw e (
          Returns-imp (IsRange low high) (Covers ◌*ℤ◌ x y) (construct low high)
            (λ i range. record {
              valid = range.valid;
              holds = λ j k h g.
                  range.holds (j *ℤ k)
                    (low-le j k (Above-of_contains v j h) (Below-of_contains v j h)
                      (Above-of_contains w k g) (Below-of_contains w k g))
                    (le-high j k (Above-of_contains v j h) (Below-of_contains v j h)
                      (Above-of_contains w k g) (Below-of_contains w k g));
            })
            (construct-IsRange (lower_of_le (m *ℤ n) low-IsNormal (low-le m n p q r s))
              (upper_of_le (m *ℤ n) high-IsNormal (le-high m n p q r s))))
  ])
