-- ===== src/Interval/Members.antt =====
-- interval.hpp: the integers that an interval holds, as `contains` says, and the class invariant.
use knight.Prelude.{
  ◌≡◌, refl, ◌⊎◌, inl, inr, true, false, some, arith, Bool-cases, if◌then◌else◌, Returns,
}
use knight.Prelude.Int.{ℤ}
use knight.Bound.{Bound, finite, make, gtb}
use knight.Bound.Order.{IsNormal, Le, le_trans, geb-leb, gtb_false, gtb_of_le}
use knight.Bound.Sides.{IsLower, IsUpper, normal_of_lower, normal_of_upper, Above, Below}
use knight.Interval.{Interval, bottom, top, construct, singleton, is_bottom, contains}

-- The lower bound is not +oo and the upper bound is not -oo.
pub record IsValid (x : Interval) : Type 0 where
  pub lower : IsLower x.lb
  pub upper : IsUpper x.ub

pub finite-IsNormal : (n : ℤ) → IsNormal (finite n)
unfolding finite make
finite-IsNormal n = IsNormal.fin n

-- The class invariant, as the two facts that the lemmas on bounds take.
module _ {x : Interval} (v : IsValid x) where
  pub lb-IsNormal : IsNormal x.lb
  lb-IsNormal = normal_of_lower v.lower

  pub ub-IsNormal : IsNormal x.ub
  ub-IsNormal = normal_of_upper v.upper

  pub le_of_not_bottom : is_bottom x ≡ false → Le x.lb x.ub
  unfolding is_bottom
  le_of_not_bottom h = gtb_false lb-IsNormal ub-IsNormal h

  pub not_bottom_of_le : Le x.lb x.ub → is_bottom x ≡ false
  unfolding is_bottom gtb
  not_bottom_of_le h = rw h refl

  pub Above-of_contains : (n : ℤ) → contains x n ≡ true → Above x.lb n
  unfolding contains
  Above-of_contains n h = ground arith

  pub Below-of_contains : (n : ℤ) → contains x n ≡ true → Below x.ub n
  unfolding contains
  Below-of_contains n h = ground (arith, geb-leb ub-IsNormal (finite-IsNormal n))

  pub not_bottom_of_contains : (n : ℤ) → contains x n ≡ true → is_bottom x ≡ false
  unfolding contains
  not_bottom_of_contains n h = ground arith

  -- What lies between the bounds is in the interval.
  pub contains_of_between : (n : ℤ) → Above x.lb n → Below x.ub n → contains x n ≡ true
  unfolding contains
  contains_of_between n p q =
      let low = le_trans lb-IsNormal (finite-IsNormal n) ub-IsNormal p q in
      ground (arith, geb-leb ub-IsNormal (finite-IsNormal n), not_bottom_of_le low)

pub bottom-IsValid : IsValid bottom
unfolding bottom
bottom-IsValid = record { lower = IsLower.fin _; upper = IsUpper.fin _ }

pub top-IsValid : IsValid top
unfolding top
top-IsValid = record { lower = IsLower.minus; upper = IsUpper.plus }

pub singleton-IsValid : (n : ℤ) → IsValid (singleton n)
unfolding singleton
singleton-IsValid n = record { lower = IsLower.fin _; upper = IsUpper.fin _ }

-- The constructor's assertion holds of a lower and an upper bound.
construct-eq :
    {l u : Bound}
    → IsLower l
    → IsUpper u
    → construct l u ≡ some (if gtb l u then bottom else record { lb = l; ub = u })
unfolding construct
construct-eq (IsLower.fin a) q = refl
construct-eq IsLower.minus (IsUpper.fin b) = refl
construct-eq IsLower.minus IsUpper.plus = refl

pub bottom_empty : (n : ℤ) → contains bottom n ≡ false
unfolding contains bottom
bottom_empty n = refl

-- The integers of `r` are those between the bounds.
pub record IsRange (l u : Bound) (r : Interval) : Type 0 where
  pub valid : IsValid r
  pub holds : (n : ℤ) → Above l n → Below u n → contains r n ≡ true
  pub only : (n : ℤ) → contains r n ≡ true → Above l n × Below u n

-- For a lower bound that is not +oo and an upper bound that is not -oo, the constructor ends with
-- a valid interval that contains exactly the integers between the bounds.
pub construct-IsRange :
    {l u : Bound} → IsLower l → IsUpper u → Returns (IsRange l u) (construct l u)
construct-IsRange {l} {u} p q = rw (construct-eq p q) (by_test (Bool-cases (gtb l u)))
  where
    nl : IsNormal l
    nl = normal_of_lower p

    nu : IsNormal u
    nu = normal_of_upper q

    by_test :
        (gtb l u ≡ true) ⊎ (gtb l u ≡ false)
        → IsRange l u (if gtb l u then bottom else record { lb = l; ub = u })
    by_test (inl e) = rw e (record {
      valid = bottom-IsValid;
      holds = λ n a b. cc (e, gtb_of_le l u (le_trans nl (finite-IsNormal n) nu a b));
      only = λ n h. ground (arith, bottom_empty n);
    })
    by_test (inr e) = rw e (record {
      valid = v;
      holds = λ n a b. contains_of_between v n a b;
      only = λ n h. (Above-of_contains v n h, Below-of_contains v n h);
    })
      where
        v : IsValid (record { lb = l; ub = u })
        v = record { lower = p; upper = q }
