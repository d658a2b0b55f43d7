-- ===== src/Interval/Meet.antt =====
-- interval.hpp: `meet_with` against the sets of integers that the intervals hold.
use knight.Prelude.{◌≡◌, ◌↔◌, inl, inr, true, Bool-cases}
use knight.Prelude.Int.{ℤ}
use knight.Bound.{min, max}
use knight.Bound.Order.{
  le_trans, min-le_left, min-le_right, le-max_left, le-max_right, le-min, max-le,
}
use knight.Bound.Sides.{max-IsLower, min-IsUpper}
use knight.Interval.{Interval, is_bottom, contains, meet_with}
use knight.Interval.Members.{
  IsValid, bottom-IsValid, finite-IsNormal, lb-IsNormal, ub-IsNormal, Above-of_contains,
  Below-of_contains, not_bottom_of_contains, contains_of_between, bottom_empty,
}

module _ {x y : Interval} (v : IsValid x) (w : IsValid y) where
  core-IsValid : IsValid (record { lb = max x.lb y.lb; ub = min x.ub y.ub })
  core-IsValid = record { lower = max-IsLower v.lower w.lower; upper = min-IsUpper v.upper w.upper }

  meet_with-IsValid : IsValid (meet_with x y)
  unfolding meet_with
  meet_with-IsValid = elim (Bool-cases (is_bottom x)) [
    | inl e ↦ rw e v
    | inr e ↦ elim (Bool-cases (is_bottom y)) [
      | inl d ↦ rw (e, d) bottom-IsValid
      | inr d ↦ rw (e, d) core-IsValid
    ]
  ]

  meet_with-only :
      (n : ℤ) → contains (meet_with x y) n ≡ true → (contains x n ≡ true) × (contains y n ≡ true)
  unfolding meet_with
  meet_with-only n = elim (Bool-cases (is_bottom x)) [
    | inl e ↦ rw e (λ h. cc (e, not_bottom_of_contains v n h))
    | inr e ↦ elim (Bool-cases (is_bottom y)) [
      | inl d ↦ rw (e, d) (λ h. cc (h, bottom_empty n))
      | inr d ↦
          rw (e, d)
            (λ h.
              let above = Above-of_contains core-IsValid n h in
              let below = Below-of_contains core-IsValid n h in
              (
                contains_of_between v n
                    (le_trans (lb-IsNormal v) (lb-IsNormal core-IsValid) (finite-IsNormal n)
                      (le-max_left (lb-IsNormal v) (lb-IsNormal w)) above)
                    (le_trans (finite-IsNormal n) (ub-IsNormal core-IsValid) (ub-IsNormal v) below
                      (min-le_left (ub-IsNormal v) (ub-IsNormal w))),
                contains_of_between w n
                    (le_trans (lb-IsNormal w) (lb-IsNormal core-IsValid) (finite-IsNormal n)
                      (le-max_right (lb-IsNormal v) (lb-IsNormal w)) above)
                    (le_trans (finite-IsNormal n) (ub-IsNormal core-IsValid) (ub-IsNormal w) below
                      (min-le_right (ub-IsNormal v) (ub-IsNormal w))),
              ))
    ]
  ]

  meet_with-holds :
      (n : ℤ) → contains x n ≡ true → contains y n ≡ true → contains (meet_with x y) n ≡ true
  unfolding meet_with
  meet_with-holds n h k =
      rw (not_bottom_of_contains v n h, not_bottom_of_contains w n k)
        (contains_of_between core-IsValid n
          (max-le (lb-IsNormal v) (lb-IsNormal w) (finite-IsNormal n) (Above-of_contains v n h)
            (Above-of_contains w n k))
          (le-min (ub-IsNormal v) (ub-IsNormal w) (finite-IsNormal n) (Below-of_contains v n h)
            (Below-of_contains w n k)))

  -- For two valid intervals, `meet_with` gives a valid interval that contains an integer exactly
  -- when both contain it.
  pub meet_with_exact :
      IsValid (meet_with x y)
      × ((n : ℤ)
          → (contains (meet_with x y) n ≡ true) ↔ ((contains x n ≡ true) × (contains y n ≡ true)))
  meet_with_exact = (meet_with-IsValid, λ n. (meet_with-only n, λ h. meet_with-holds n h.0 h.1))
