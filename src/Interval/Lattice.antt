-- ===== src/Interval/Lattice.antt =====
-- interval.hpp: `leq` and `join_with` against the sets of integers that the
-- intervals hold.
use knight.Prelude.{
  ◌≡◌, refl, ◌↔◌, ◌⊎◌, inl, inr, true, false, arith, Bool-cases, ◌&&◌, if◌then◌else◌,
}
use knight.Prelude.Int.{ℤ, pos, negsuc, ◌+ℤ◌, ◌-ℤ◌, -ℤ_parts, +ℤ_parts, leb_ℤ}
use knight.Bound.{Bound, finite, leb, geb, min, max}
use knight.Bound.Order.{Le, le_trans, geb-leb, min-le_left, min-le_right, le-max_left, le-max_right}
use knight.Bound.Sides.{IsLower, IsUpper, Above, Below, min-IsLower, max-IsUpper}
use knight.Interval.{Interval, is_bottom, contains, leq, join_with}
use knight.Interval.Members.{
  IsValid, finite-IsNormal, lb-IsNormal, ub-IsNormal, le_of_not_bottom, not_bottom_of_le,
  Above-of_contains, Below-of_contains, not_bottom_of_contains, contains_of_between,
}

-- Where a range is not empty and all of it is above a bound, its lower bound is.
lower_reflects :
    {a u c : Bound}
    → IsLower a
    → IsUpper u
    → IsLower c
    → Le a u
    → ((n : ℤ) → Above a n → Below u n → Above c n)
    → Le c a
unfolding leb finite
lower_reflects p q IsLower.minus h all = lower_le p
  where
    lower_le : {a : Bound} → IsLower a → leb (record { is_inf = true; val = negsuc 0 }) a ≡ true
    lower_le IsLower.minus = refl
    lower_le (IsLower.fin n) = refl
lower_reflects (IsLower.fin m) q (IsLower.fin k) h all = all m (ground arith) h
lower_reflects IsLower.minus IsUpper.plus (IsLower.fin k) h all =
    ground (arith, all (k -ℤ pos 1) refl refl, -ℤ_parts k (pos 1))
lower_reflects IsLower.minus (IsUpper.fin j) (IsLower.fin k) h all = elim (Bool-cases (leb_ℤ k j)) [
  | inl e ↦
      ground (arith, all (k -ℤ pos 1) refl (ground (arith, -ℤ_parts k (pos 1))), -ℤ_parts k (pos 1))
  | inr e ↦ ground (arith, all j refl (ground arith))
]

upper_reflects :
    {l a c : Bound}
    → IsLower l
    → IsUpper a
    → IsUpper c
    → Le l a
    → ((n : ℤ) → Above l n → Below a n → Below c n)
    → Le a c
unfolding leb finite
upper_reflects p q IsUpper.plus h all = le_upper q
  where
    le_upper : {a : Bound} → IsUpper a → leb a (record { is_inf = true; val = pos 1 }) ≡ true
    le_upper IsUpper.plus = refl
    le_upper (IsUpper.fin n) = refl
upper_reflects p (IsUpper.fin m) (IsUpper.fin k) h all = all m h (ground arith)
upper_reflects IsLower.minus IsUpper.plus (IsUpper.fin k) h all =
    ground (arith, all (k +ℤ pos 1) refl refl, +ℤ_parts k (pos 1))
upper_reflects (IsLower.fin j) IsUpper.plus (IsUpper.fin k) h all = elim (Bool-cases (leb_ℤ j k)) [
  | inl e ↦
      ground (arith, all (k +ℤ pos 1) (ground (arith, +ℤ_parts k (pos 1))) refl, +ℤ_parts k (pos 1))
  | inr e ↦ ground (arith, all j (ground arith) refl)
]

pub leq-eq :
    (x y : Interval)
    → leq x y ≡ (
        if is_bottom x
        then true
        else (if is_bottom y then false else geb x.lb y.lb && leb x.ub y.ub))
unfolding leq
leq-eq x y = refl

pub contains_of_bottom : (x : Interval) (n : ℤ) → is_bottom x ≡ true → contains x n ≡ false
unfolding contains
contains_of_bottom x n e = rw e refl

pub join_with-eq :
    (x y : Interval)
    → is_bottom x ≡ false
    → is_bottom y ≡ false
    → join_with x y ≡ record { lb = min x.lb y.lb; ub = max x.ub y.ub }
unfolding join_with
join_with-eq x y e d = rw (e, d) refl

module _ {x y : Interval} (v : IsValid x) (w : IsValid y) where
  pub hull-IsValid : IsValid (record { lb = min x.lb y.lb; ub = max x.ub y.ub })
  hull-IsValid = record { lower = min-IsLower v.lower w.lower; upper = max-IsUpper v.upper w.upper }

  join_with-IsValid : IsValid (join_with x y)
  unfolding join_with
  join_with-IsValid = elim (Bool-cases (is_bottom x)) [
    | inl e ↦ rw e w
    | inr e ↦ elim (Bool-cases (is_bottom y)) [
      | inl d ↦ rw (e, d) v
      | inr d ↦ rw (e, d) hull-IsValid
    ]
  ]

  join_with-left : (n : ℤ) → contains x n ≡ true → contains (join_with x y) n ≡ true
  unfolding join_with
  join_with-left n h = rw (not_bottom_of_contains v n h) (elim (Bool-cases (is_bottom y)) [
    | inl d ↦ rw d h
    | inr d ↦ rw d (
        contains_of_between hull-IsValid n
          (le_trans (lb-IsNormal hull-IsValid) (lb-IsNormal v) (finite-IsNormal n)
            (min-le_left (lb-IsNormal v) (lb-IsNormal w)) (Above-of_contains v n h))
          (le_trans (finite-IsNormal n) (ub-IsNormal v) (ub-IsNormal hull-IsValid)
            (Below-of_contains v n h) (le-max_left (ub-IsNormal v) (ub-IsNormal w))))
  ])

  join_with-right : (n : ℤ) → contains y n ≡ true → contains (join_with x y) n ≡ true
  unfolding join_with
  join_with-right n h = rw (not_bottom_of_contains w n h) (elim (Bool-cases (is_bottom x)) [
    | inl d ↦ rw d h
    | inr d ↦ rw d (
        contains_of_between hull-IsValid n
          (le_trans (lb-IsNormal hull-IsValid) (lb-IsNormal w) (finite-IsNormal n)
            (min-le_right (lb-IsNormal v) (lb-IsNormal w)) (Above-of_contains w n h))
          (le_trans (finite-IsNormal n) (ub-IsNormal w) (ub-IsNormal hull-IsValid)
            (Below-of_contains w n h) (le-max_right (ub-IsNormal v) (ub-IsNormal w))))
  ])

  -- For two valid intervals, `join_with` gives a valid interval that contains each integer that
  -- one of them contains.
  pub join_with_sound :
      IsValid (join_with x y)
      × ((n : ℤ)
          → (contains x n ≡ true) ⊎ (contains y n ≡ true)
          → contains (join_with x y) n ≡ true)
  join_with_sound =
      (join_with-IsValid, λ n. elim [ inl h ↦ join_with-left n h | inr h ↦ join_with-right n h ])

  pub bounds_of_leq : leq x y ≡ true → is_bottom x ≡ false → Le y.lb x.lb × Le x.ub y.ub
  unfolding leq
  bounds_of_leq h e = elim (Bool-cases (is_bottom y)) [
    | inl d ↦ ground arith
    | inr d ↦ (ground (arith, geb-leb (lb-IsNormal v) (lb-IsNormal w)), ground arith)
  ]

  pub leq_of_bounds : Le y.lb x.lb → Le x.ub y.ub → leq x y ≡ true
  unfolding leq
  leq_of_bounds low high = elim (Bool-cases (is_bottom x)) [
    | inl e ↦ rw e refl
    | inr e ↦
        let full =
          le_trans (lb-IsNormal v) (ub-IsNormal v) (ub-IsNormal w) (le_of_not_bottom v e) high in
        let d =
          not_bottom_of_le w (le_trans (lb-IsNormal w) (lb-IsNormal v) (ub-IsNormal w) low full) in
        rw (e, d, geb-leb (lb-IsNormal v) (lb-IsNormal w), low) high
  ]

  pub leq-contains : leq x y ≡ true → (n : ℤ) → contains x n ≡ true → contains y n ≡ true
  leq-contains h n m =
      let (low, high) = bounds_of_leq h (not_bottom_of_contains v n m) in
      contains_of_between w n
        (le_trans (lb-IsNormal w) (lb-IsNormal v) (finite-IsNormal n) low (Above-of_contains v n m))
        (le_trans (finite-IsNormal n) (ub-IsNormal v) (ub-IsNormal w) (Below-of_contains v n m)
          high)

  pub contains-leq : ((n : ℤ) → contains x n ≡ true → contains y n ≡ true) → leq x y ≡ true
  unfolding leq
  contains-leq all = elim (Bool-cases (is_bottom x)) [
    | inl e ↦ rw e refl
    | inr e ↦
        let full = le_of_not_bottom v e in
        let low =
          lower_reflects v.lower v.upper w.lower full
            (λ n a b. Above-of_contains w n (all n (contains_of_between v n a b))) in
        let high =
          upper_reflects v.lower v.upper w.upper full
            (λ n a b. Below-of_contains w n (all n (contains_of_between v n a b))) in
        leq_of_bounds low high
  ]

  -- For two valid intervals, `leq` is true exactly when each integer of the first is in the
  -- second.
  pub leq_iff : (leq x y ≡ true) ↔ ((n : ℤ) → contains x n ≡ true → contains y n ≡ true)
  leq_iff = (leq-contains, contains-leq)

pub bottom_of_leq : (x y : Interval) → leq x y ≡ true → is_bottom y ≡ true → is_bottom x ≡ true
bottom_of_leq x y h e = ground (arith, leq-eq x y)
