-- ===== src/Interval/Sums.antt =====
-- interval.hpp: the opposite, sum and difference of intervals, and `trim_bound`.
use knight.Prelude.{
  ◌≡◌, refl, inl, inr, true, arith, Bool-cases, if◌then◌else◌, Returns, Returns-bind, Returns-imp,
  ◌>>=◌, some, ◌||◌,
}
use knight.Prelude.Int.{ℤ, ◌+ℤ◌, ◌-ℤ◌}
use knight.Bound.{Bound, add, sub, add_assign, sub_assign}
use knight.Bound.Sides.{
  normal_of_lower, normal_of_upper, Above, Below, IsLowerFor, IsUpperFor, add_lower, add_upper,
  sub_lower, sub_upper, add_assign-eq-add, sub_assign-eq-sub,
}
use knight.Interval.{
  Interval, bottom, is_bottom, contains, construct, plus, minus, plus_assign, minus_assign,
}
use knight.Interval.Members.{
  IsValid, bottom-IsValid, IsRange, construct-IsRange, Above-of_contains, Below-of_contains,
  contains_of_between, not_bottom_of_contains,
}

plus-eq :
    (x y : Interval)
    → plus x y ≡ (
        if is_bottom x || is_bottom y
        then some bottom
        else (do l ← add x.lb y.lb; u ← add x.ub y.ub; construct l u))
unfolding plus
plus-eq x y = refl

minus-eq :
    (x y : Interval)
    → minus x y ≡ (
        if is_bottom x || is_bottom y
        then some bottom
        else (do l ← sub x.lb y.ub; u ← sub x.ub y.lb; construct l u))
unfolding minus
minus-eq x y = refl

plus_assign-eq :
    (x y : Interval)
    → plus_assign x y ≡ (
        if is_bottom x
        then some x
        else (if is_bottom y then some bottom else (do
          l ← add_assign x.lb y.lb
          u ← add_assign x.ub y.ub
          some (record { lb = l; ub = u }))))
unfolding plus_assign
plus_assign-eq x y = refl

minus_assign-eq :
    (x y : Interval)
    → minus_assign x y ≡ (
        if is_bottom x
        then some x
        else (if is_bottom y then some bottom else (do
          l ← sub_assign x.lb y.ub
          u ← sub_assign x.ub y.lb
          some (record { lb = l; ub = u }))))
unfolding minus_assign
minus_assign-eq x y = refl

-- `r` is valid and holds `f m n` for all `m` of `x` and `n` of `y`.
pub record Covers (f : ℤ → ℤ → ℤ) (x y r : Interval) : Type 0 where
  pub valid : IsValid r
  pub holds : (m n : ℤ) → contains x m ≡ true → contains y n ≡ true → contains r (f m n) ≡ true

module _ {x y : Interval} (v : IsValid x) (w : IsValid y) (f : ℤ → ℤ → ℤ) where
  pub Covers-of_bottom : (is_bottom x || is_bottom y) ≡ true → Covers f x y bottom
  Covers-of_bottom e = record {
    valid = bottom-IsValid;
    holds = λ m n h k. ground (arith, not_bottom_of_contains v m h, not_bottom_of_contains w n k);
  }

  Covers-left : is_bottom x ≡ true → Covers f x y x
  Covers-left e = record { valid = v; holds = λ m n h k. cc (e, not_bottom_of_contains v m h) }

  -- Bounds for the values of `f` on what lies between the operands' bounds make such an interval.
  module _ (P Q R S : ℤ → Type 0)
      (low : (m n : ℤ) → contains x m ≡ true → contains y n ≡ true → P m × Q n)
      (high : (m n : ℤ) → contains x m ≡ true → contains y n ≡ true → R m × S n) where
    Covers-of_bounds :
        {l u : Bound}
        → IsLowerFor f P Q l
        → IsUpperFor f R S u
        → Covers f x y (record { lb = l; ub = u })
    Covers-of_bounds {l} {u} a b =
        let valid : IsValid (record { lb = l; ub = u }) = record { lower = a.0; upper = b.0 } in
        record {
          valid = valid;
          holds = λ m n h k.
              let (p, q) = low m n h k in
              let (r, s) = high m n h k in
              contains_of_between valid (f m n) (a.1 m n p q) (b.1 m n r s);
        }

    construct-Covers :
        {l u : Bound}
        → IsLowerFor f P Q l
        → IsUpperFor f R S u
        → Returns (Covers f x y) (construct l u)
    construct-Covers {l} {u} a b =
        Returns-imp (IsRange l u) (Covers f x y) (construct l u)
          (λ r range. record {
            valid = range.valid;
            holds = λ m n h k.
                let (p, q) = low m n h k in
                let (r, s) = high m n h k in range.holds (f m n) (a.1 m n p q) (b.1 m n r s);
          })
          (construct-IsRange a.0 b.0)

module _ {x y : Interval} (v : IsValid x) (w : IsValid y) where
  pub plus_sound : Returns (Covers ◌+ℤ◌ x y) (plus x y)
  plus_sound = rw plus-eq (elim (Bool-cases (is_bottom x || is_bottom y)) [
    | inl e ↦ rw e (Covers-of_bottom v w ◌+ℤ◌ e)
    | inr e ↦ rw e (
        Returns-bind (IsLowerFor ◌+ℤ◌ (Above x.lb) (Above y.lb)) (Covers ◌+ℤ◌ x y) (add x.lb y.lb) _
          (add_lower v.lower w.lower)
          λ l low.
            Returns-bind (IsUpperFor ◌+ℤ◌ (Below x.ub) (Below y.ub)) (Covers ◌+ℤ◌ x y)
              (add x.ub y.ub) _ (add_upper v.upper w.upper)
              λ u high.
                construct-Covers v w ◌+ℤ◌ (Above x.lb) (Above y.lb) (Below x.ub) (Below y.ub)
                  (λ m n h k. (Above-of_contains v m h, Above-of_contains w n k))
                  (λ m n h k. (Below-of_contains v m h, Below-of_contains w n k)) low high)
  ])

  pub minus_sound : Returns (Covers ◌-ℤ◌ x y) (minus x y)
  minus_sound = rw minus-eq (elim (Bool-cases (is_bottom x || is_bottom y)) [
    | inl e ↦ rw e (Covers-of_bottom v w ◌-ℤ◌ e)
    | inr e ↦ rw e (
        Returns-bind (IsLowerFor ◌-ℤ◌ (Above x.lb) (Below y.ub)) (Covers ◌-ℤ◌ x y) (sub x.lb y.ub) _
          (sub_lower v.lower w.upper)
          λ l low.
            Returns-bind (IsUpperFor ◌-ℤ◌ (Below x.ub) (Above y.lb)) (Covers ◌-ℤ◌ x y)
              (sub x.ub y.lb) _ (sub_upper v.upper w.lower)
              λ u high.
                construct-Covers v w ◌-ℤ◌ (Above x.lb) (Below y.ub) (Below x.ub) (Above y.lb)
                  (λ m n h k. (Above-of_contains v m h, Below-of_contains w n k))
                  (λ m n h k. (Below-of_contains v m h, Above-of_contains w n k)) low high)
  ])

  pub plus_assign_sound : Returns (Covers ◌+ℤ◌ x y) (plus_assign x y)
  plus_assign_sound = rw plus_assign-eq (elim (Bool-cases (is_bottom x)) [
    | inl e ↦ rw e (Covers-left v w ◌+ℤ◌ e)
    | inr e ↦ elim (Bool-cases (is_bottom y)) [
      | inl d ↦ rw (e, d) (Covers-of_bottom v w ◌+ℤ◌ (rw (e, d) refl))
      | inr d ↦
          rw
            (
              e,
              d,
              add_assign-eq-add (normal_of_lower v.lower) (normal_of_lower w.lower),
              add_assign-eq-add (normal_of_upper v.upper) (normal_of_upper w.upper),
            )
            (Returns-bind (IsLowerFor ◌+ℤ◌ (Above x.lb) (Above y.lb)) (Covers ◌+ℤ◌ x y)
              (add x.lb y.lb) _ (add_lower v.lower w.lower)
              λ l low.
                Returns-bind (IsUpperFor ◌+ℤ◌ (Below x.ub) (Below y.ub)) (Covers ◌+ℤ◌ x y)
                  (add x.ub y.ub) _ (add_upper v.upper w.upper)
                  λ u high.
                    Covers-of_bounds v w ◌+ℤ◌ (Above x.lb) (Above y.lb) (Below x.ub) (Below y.ub)
                      (λ m n h k. (Above-of_contains v m h, Above-of_contains w n k))
                      (λ m n h k. (Below-of_contains v m h, Below-of_contains w n k)) low high)
    ]
  ])

  pub minus_assign_sound : Returns (Covers ◌-ℤ◌ x y) (minus_assign x y)
  minus_assign_sound = rw minus_assign-eq (elim (Bool-cases (is_bottom x)) [
    | inl e ↦ rw e (Covers-left v w ◌-ℤ◌ e)
    | inr e ↦ elim (Bool-cases (is_bottom y)) [
      | inl d ↦ rw (e, d) (Covers-of_bottom v w ◌-ℤ◌ (rw (e, d) refl))
      | inr d ↦
          rw
            (
              e,
              d,
              sub_assign-eq-sub (normal_of_lower v.lower) (normal_of_upper w.upper),
              sub_assign-eq-sub (normal_of_upper v.upper) (normal_of_lower w.lower),
            )
            (Returns-bind (IsLowerFor ◌-ℤ◌ (Above x.lb) (Below y.ub)) (Covers ◌-ℤ◌ x y)
              (sub x.lb y.ub) _ (sub_lower v.lower w.upper)
              λ l low.
                Returns-bind (IsUpperFor ◌-ℤ◌ (Below x.ub) (Above y.lb)) (Covers ◌-ℤ◌ x y)
                  (sub x.ub y.lb) _ (sub_upper v.upper w.lower)
                  λ u high.
                    Covers-of_bounds v w ◌-ℤ◌ (Above x.lb) (Below y.ub) (Below x.ub) (Above y.lb)
                      (λ m n h k. (Above-of_contains v m h, Below-of_contains w n k))
                      (λ m n h k. (Below-of_contains v m h, Above-of_contains w n k)) low high)
    ]
  ])

  -- For two valid intervals, `operator+` and `operator+=` end with a valid interval that contains the sum
  -- of each integer of the first and each of the second, and `operator-` and `operator-=` with one that
  -- contains the difference.
  pub sums_sound :
      Returns (Covers ◌+ℤ◌ x y) (plus x y)
      × Returns (Covers ◌+ℤ◌ x y) (plus_assign x y)
      × Returns (Covers ◌-ℤ◌ x y) (minus x y)
      × Returns (Covers ◌-ℤ◌ x y) (minus_assign x y)
  sums_sound = (plus_sound, plus_assign_sound, minus_sound, minus_assign_sound)
