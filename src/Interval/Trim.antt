-- ===== src/Interval/Trim.antt =====
-- interval.hpp: the opposite of an interval, and `trim_bound`, which removes a bound.
use knight.Prelude.{
  ◌+◌, ◌≡◌, refl, inl, inr, true, false, arith, Bool-cases, if◌then◌else◌, Returns, Returns-imp,
  ◌≢◌, some, none, ◌||◌,
}
use knight.Prelude.Int.{
  ℤ, pos, pos_part, neg_part, ◌+ℤ◌, ◌-ℤ◌, neg_ℤ, +ℤ_parts, -ℤ_parts, eq_of_parts,
}
use knight.Bound.{finite, leb, eqb, neg}
use knight.Bound.Order.{eqb_iff}
use knight.Bound.Sides.{Above, Below, neg-IsLower, neg-IsUpper, neg-Below, neg-Above}
use knight.Interval.{Interval, bottom, is_bottom, contains, construct, neg_interval, trim_bound}
use knight.Interval.Members.{
  IsValid, bottom-IsValid, finite-IsNormal, IsRange, construct-IsRange, Above-of_contains,
  Below-of_contains, contains_of_between, not_bottom_of_contains, lb-IsNormal, ub-IsNormal,
}
use knight.Interval.Narrowing.{finite-IsLower, finite-IsUpper}

-- `r` is valid and holds the opposites of the integers of `x`.
pub record Opposes (x r : Interval) : Type 0 where
  pub valid : IsValid r
  pub holds : (n : ℤ) → contains x n ≡ true → contains r (neg_ℤ n) ≡ true

neg_interval-eq :
    (x : Interval)
    → neg_interval x ≡ (if is_bottom x then some bottom else construct (neg x.ub) (neg x.lb))
unfolding neg_interval
neg_interval-eq x = refl

-- For a valid interval, the unary `operator-` ends with a valid interval that contains the
-- opposite of each of its integers.
pub neg_interval_sound : {x : Interval} → IsValid x → Returns (Opposes x) (neg_interval x)
neg_interval_sound {x} v = rw neg_interval-eq (elim (Bool-cases (is_bottom x)) [
  | inl e ↦
      rw e (record { valid = bottom-IsValid; holds = λ n h. cc (e, not_bottom_of_contains v n h) })
  | inr e ↦ rw e (
      Returns-imp (IsRange (neg x.ub) (neg x.lb)) (Opposes x) (construct (neg x.ub) (neg x.lb))
        (λ r range. record {
          valid = range.valid;
          holds = λ n h.
              range.holds (neg_ℤ n) (neg-Above n v.upper (Below-of_contains v n h))
                (neg-Below n v.lower (Above-of_contains v n h));
        })
        (construct-IsRange (neg-IsLower v.upper) (neg-IsUpper v.lower)))
])

-- `r` is `x` without `k`, where `k` is a bound of `x`, and `x` where it is not.
pub record Trims (x : Interval) (k : ℤ) (r : Interval) : Type 0 where
  pub valid : IsValid r
  pub keeps : (n : ℤ) → contains x n ≡ true → n ≢ k → contains r n ≡ true
  pub only : (n : ℤ) → contains r n ≡ true → contains x n ≡ true
  pub removes : (eqb x.lb (finite k) || eqb x.ub (finite k)) ≡ true → contains r k ≡ false

trim_bound-eq :
    (x : Interval) (k : ℤ)
    → trim_bound x (finite k) ≡ (
        if is_bottom x
        then none
        else (if eqb x.lb (finite k)
            then construct (finite (k +ℤ pos 1)) x.ub
            else (if eqb x.ub (finite k) then construct x.lb (finite (k -ℤ pos 1)) else some x)))
unfolding trim_bound
trim_bound-eq x k = refl

not_contains : (r : Interval) (k : ℤ) → ¬ (contains r k ≡ true) → contains r k ≡ false
not_contains r k h = elim (Bool-cases (contains r k)) [ inl e ↦ absurd (h e) | inr e ↦ e ]

Above-next : (k n : ℤ) → Above (finite k) n → n ≢ k → Above (finite (k +ℤ pos 1)) n
unfolding leb finite
Above-next k n h d = ground (
  arith,
  +ℤ_parts k (pos 1),
  λ (e : pos_part n + neg_part k ≡ pos_part k + neg_part n). d (eq_of_parts n k e),
)

Above-of_next : (k n : ℤ) → Above (finite (k +ℤ pos 1)) n → Above (finite k) n × (n ≢ k)
unfolding leb finite
Above-of_next k n h =
    (ground (arith, +ℤ_parts k (pos 1)), λ e. absurd (ground (arith, +ℤ_parts k (pos 1))))

Below-prev : (k n : ℤ) → Below (finite k) n → n ≢ k → Below (finite (k -ℤ pos 1)) n
unfolding leb finite
Below-prev k n h d = ground (
  arith,
  -ℤ_parts k (pos 1),
  λ (e : pos_part n + neg_part k ≡ pos_part k + neg_part n). d (eq_of_parts n k e),
)

Below-of_prev : (k n : ℤ) → Below (finite (k -ℤ pos 1)) n → Below (finite k) n × (n ≢ k)
unfolding leb finite
Below-of_prev k n h =
    (ground (arith, -ℤ_parts k (pos 1)), λ e. absurd (ground (arith, -ℤ_parts k (pos 1))))

module _ {x : Interval} (v : IsValid x) (k : ℤ) where
  Trims-lb : eqb x.lb (finite k) ≡ true → Returns (Trims x k) (construct (finite (k +ℤ pos 1)) x.ub)
  Trims-lb e =
      let same = (eqb_iff (lb-IsNormal v) (finite-IsNormal k)).0 e in
      Returns-imp (IsRange (finite (k +ℤ pos 1)) x.ub) (Trims x k)
        (construct (finite (k +ℤ pos 1)) x.ub)
        (λ r range. record {
          valid = range.valid;
          keeps = λ n h d.
              range.holds n (Above-next k n (rw same at (Above-of_contains v n h)) d)
                (Below-of_contains v n h);
          only = λ n h.
              let (a, b) = range.only n h in
              contains_of_between v n (rw same (Above-of_next k n a).0) b;
          removes = λ _. not_contains r k (λ h. (Above-of_next k k (range.only k h).0).1 refl);
        })
        (construct-IsRange (finite-IsLower (k +ℤ pos 1)) v.upper)

  Trims-ub : eqb x.ub (finite k) ≡ true → Returns (Trims x k) (construct x.lb (finite (k -ℤ pos 1)))
  Trims-ub e =
      let same = (eqb_iff (ub-IsNormal v) (finite-IsNormal k)).0 e in
      Returns-imp (IsRange x.lb (finite (k -ℤ pos 1))) (Trims x k)
        (construct x.lb (finite (k -ℤ pos 1)))
        (λ r range. record {
          valid = range.valid;
          keeps = λ n h d.
              range.holds n (Above-of_contains v n h)
                (Below-prev k n (rw same at (Below-of_contains v n h)) d);
          only = λ n h.
              let (a, b) = range.only n h in
              contains_of_between v n a (rw same (Below-of_prev k n b).0);
          removes = λ _. not_contains r k (λ h. (Below-of_prev k k (range.only k h).1).1 refl);
        })
        (construct-IsRange v.lower (finite-IsUpper (k -ℤ pos 1)))

  -- For a valid interval that is not bottom and any integer k, `trim_bound` ends with a valid
  -- interval that holds nothing new and all the old integers other than k, and not k if k was a
  -- bound.
  pub trim_bound_exact : is_bottom x ≡ false → Returns (Trims x k) (trim_bound x (finite k))
  trim_bound_exact full =
      rw (trim_bound-eq, full)
        (elim (Bool-cases (eqb x.lb (finite k))) [
          | inl e ↦ rw e (Trims-lb e)
          | inr e ↦ elim (Bool-cases (eqb x.ub (finite k))) [
            | inl d ↦ rw (e, d) (Trims-ub d)
            | inr d ↦
                rw (e, d)
                  (record {
                    valid = v;
                    keeps = λ n h _. h;
                    only = λ n h. h;
                    removes = λ s. ground arith;
                  })
          ]
        ])
