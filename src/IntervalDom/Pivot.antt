-- ===== src/IntervalDom/Pivot.antt =====
-- interval_dom.tpp: what a constraint says of one of its variables, and the quotient that `propagate`
-- takes of the residual.
use knight.Prelude.{◌≡◌, ◌≢◌, refl, ap, ◌⊎◌, true, some, arith, Returns, Returns-imp}
use knight.Prelude.Int.{
  ℤ, pos, negsuc, ◌+ℤ◌, ◌-ℤ◌, ◌*ℤ◌, ◌≤ℤ◌, ◌<ℤ◌, neg_ℤ, int_laws, pos_part, neg_part, -ℤ_parts,
  eq_of_parts, eqb_ℤ→eq,
}
use knight.Prelude.Assoc.{find, IsMap}
use knight.Num.{trunc}
use knight.Num.Quotient.{trunc_times, times_trunc_unit, trunc_mono, trunc_anti}
use knight.Bound.{Bound, finite, make, leb, pinf, ninf, eqb, get_num_opt, gtb, geb}
use knight.Bound.Order.{le_trans, Le}
use knight.Bound.Sides.{IsLower, IsUpper, Above, Below}
use knight.Interval.{Interval, contains, get_singleton_opt, construct, is_bottom}
use knight.Interval.Members.{
  IsValid, IsRange, construct-IsRange, Above-of_contains, Below-of_contains, lb-IsNormal,
  ub-IsNormal, finite-IsNormal,
}
use knight.Linear.{Var}
use knight.Linear.Meaning.{Env, eval}
use knight.Linear.Constraint.{LinearConstraint, disequation, get_constant_term}
use knight.IntervalDom.Residual.{others, eval_terms-others}

-- Each variable has one coefficient, which is not zero.
pub record IsProper (c : LinearConstraint) : Type 0 where
  pub map : IsMap c.expr.terms
  pub nonzero : (x : Var) (a : ℤ) → find x c.expr.terms ≡ some a → a ≢ pos 0
  -- A quotient that is rounded says nothing of a value that a variable does not have.
  pub unit :
      c.kind ≡ disequation
      → (x : Var) (a : ℤ) → find x c.expr.terms ≡ some a
      → (a ≡ pos 1) ⊎ (a ≡ negsuc 0)

abbrev pub rest_value : LinearConstraint → Env → Var → ℤ
rest_value c env pivot = get_constant_term c -ℤ others env pivot c.expr.terms

-- The value of the constraint's expression is the pivot's term less the value of the rest.
pub eval-pivot :
    (c : LinearConstraint) (env : Env) (pivot : Var) (a : ℤ)
    → IsProper c
    → find pivot c.expr.terms ≡ some a
    → eval env c.expr ≡ a *ℤ env pivot -ℤ rest_value c env pivot
unfolding eval get_constant_term
eval-pivot c env pivot a p f =
    rw (eval_terms-others env pivot a c.expr.terms p.map f)
      (regroup c.expr.constant (a *ℤ env pivot) (others env pivot c.expr.terms))
  where
    regroup : (k m n : ℤ) → k +ℤ (m +ℤ n) ≡ m -ℤ (neg_ℤ k -ℤ n)
    regroup k m n = omega int_laws

module _ (a r x : ℤ) where
  same_of_zero : a *ℤ x -ℤ r ≡ pos 0 → r ≡ a *ℤ x
  same_of_zero h =
      eq_of_parts _ _ (omega (arith, -ℤ_parts (a *ℤ x) r, ap pos_part h, ap neg_part h))

  pub trunc-equal : a ≢ pos 0 → a *ℤ x -ℤ r ≡ pos 0 → trunc r a ≡ x
  trunc-equal n h = rw (same_of_zero h) (trunc_times a x n)

  nonzero_of_pos : pos 0 <ℤ a → a ≢ pos 0
  nonzero_of_pos n e = omega (arith, ap pos_part e, ap neg_part e)

  nonzero_of_neg : a <ℤ pos 0 → a ≢ pos 0
  nonzero_of_neg n e = omega (arith, ap pos_part e, ap neg_part e)

  pub le-trunc : pos 0 <ℤ a → a *ℤ x -ℤ r ≤ℤ pos 0 → x ≤ℤ trunc r a
  le-trunc n h =
      rw (trunc_times a x (nonzero_of_pos n)) at
        (trunc_mono (a *ℤ x) r a n (omega (arith, -ℤ_parts (a *ℤ x) r)))

  pub trunc-le : a <ℤ pos 0 → a *ℤ x -ℤ r ≤ℤ pos 0 → trunc r a ≤ℤ x
  trunc-le n h =
      rw (trunc_times a x (nonzero_of_neg n)) at
        (trunc_anti (a *ℤ x) r a n (omega (arith, -ℤ_parts (a *ℤ x) r)))

  pub trunc-unequal : (a ≡ pos 1) ⊎ (a ≡ negsuc 0) → a *ℤ x -ℤ r ≢ pos 0 → x ≢ trunc r a
  trunc-unequal u h e = h (rw (e, times_trunc_unit r a u) (omega int_laws))

le_finite : (m n : ℤ) → m ≤ℤ n → Le (finite m) (finite n)
unfolding leb finite make
le_finite m n h = ground arith

ninf-IsLower : IsLower ninf
unfolding ninf
ninf-IsLower = IsLower.minus

pinf-IsUpper : IsUpper pinf
unfolding pinf
pinf-IsUpper = IsUpper.plus

Above-ninf : (n : ℤ) → Above ninf n
unfolding leb finite make ninf
Above-ninf n = refl

Below-pinf : (n : ℤ) → Below pinf n
unfolding leb finite make pinf
Below-pinf n = refl

only_of_bounds :
    (l u : Bound) (k n : ℤ)
    → IsLower l
    → IsUpper u
    → get_singleton_opt (record { lb = l; ub = u }) ≡ some k
    → contains (record { lb = l; ub = u }) n ≡ true
    → n ≡ k
unfolding get_singleton_opt eqb get_num_opt contains is_bottom gtb leb geb finite make
only_of_bounds l u k n (IsLower.fin a) (IsUpper.fin b) h p = ground (arith, eqb_ℤ→eq a b)
only_of_bounds l u k n (IsLower.fin a) IsUpper.plus h p = ground arith
only_of_bounds l u k n IsLower.minus q h p = ground arith

-- `IntervalT(BoundT::ninf(), rhs.get_ub())` and `IntervalT(rhs.get_lb(), BoundT::pinf())`.
module _ {rhs : Interval} (v : IsValid rhs) where
  pub upper_part :
      Returns
        (λ r. IsValid r × ((m n : ℤ) → contains rhs m ≡ true → n ≤ℤ m → contains r n ≡ true))
        (construct ninf rhs.ub)
  upper_part =
      Returns-imp (IsRange ninf rhs.ub) _ (construct ninf rhs.ub)
        (λ r range. (
          range.valid,
          λ m n h p. range.holds n (Above-ninf n) (
              le_trans (finite-IsNormal n) (finite-IsNormal m) (ub-IsNormal v) (le_finite n m p)
                (Below-of_contains v m h)),
        ))
        (construct-IsRange ninf-IsLower v.upper)

  pub lower_part :
      Returns
        (λ r. IsValid r × ((m n : ℤ) → contains rhs m ≡ true → m ≤ℤ n → contains r n ≡ true))
        (construct rhs.lb pinf)
  lower_part =
      Returns-imp (IsRange rhs.lb pinf) _ (construct rhs.lb pinf)
        (λ r range. (
          range.valid,
          λ m n h p.
              range.holds n
                (le_trans (lb-IsNormal v) (finite-IsNormal m) (finite-IsNormal n)
                  (Above-of_contains v m h) (le_finite m n p))
                (Below-pinf n),
        ))
        (construct-IsRange v.lower pinf-IsUpper)

  pub only_of_singleton : (k n : ℤ) → get_singleton_opt rhs ≡ some k → contains rhs n ≡ true → n ≡ k
  only_of_singleton k n h p = only_of_bounds rhs.lb rhs.ub k n v.lower v.upper h p
