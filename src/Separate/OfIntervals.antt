-- ===== src/Separate/OfIntervals.antt =====
-- interval_dom.hpp: `IntervalDom`, the class `SeparateNumericalDom` with intervals for values.
use knight.Prelude.{◌≡◌, refl, inl, inr, true, arith, Returns, Returns-imp}
use knight.Prelude.Int.{ℤ, ◌+ℤ◌, ◌*ℤ◌}
use knight.Num.{Gmp}
use knight.Bound.{Bound}
use knight.Bound.Order.{le_refl}
use knight.Bound.Sides.{IsLower, IsUpper}
use knight.Interval
use knight.Interval.{Interval, contains, is_bottom, is_top, bottom, top, singleton}
use knight.Interval.Ops
use knight.Interval.Members.{
  IsValid, bottom-IsValid, top-IsValid, singleton-IsValid, bottom_empty, contains_of_between,
  finite-IsNormal,
}
use knight.Interval.Meet.{meet_with_exact}
use knight.Interval.Lattice.{join_with_sound, leq_iff}
use knight.Interval.Widening.{widen_with_sound}
use knight.Interval.Sums.{Covers, plus_assign_sound}
use knight.Interval.Times.{times_sound}
use knight.Separate.{Values}
use knight.Separate.Laws.{IsNumerical}

-- The operations of `Interval`. `join_with_at_loop_head` and `join_consecutive_iter_with` are the base
-- class's, which join.
unfoldable pub interval_values : Gmp → Values Interval
interval_values gmp = record {
  bottom_val = bottom;
  default_val = top;
  is_bottom_val = is_bottom;
  is_top_val = is_top;
  join_val = Interval.join_with;
  join_at_loop_head_val = Interval.join_with;
  join_consecutive_iter_val = Interval.join_with;
  widen_val = Interval.widen_with;
  meet_val = Interval.meet_with;
  narrow_val = Interval.narrow_with;
  widen_threshold_val = Interval.widen_with_threshold;
  narrow_threshold_val = Interval.narrow_with_threshold;
  leq_val = Interval.leq;
  equals_val = Interval.equals;
  of_num = singleton;
  add_assign_val = Interval.plus_assign;
  add_val = Interval.plus;
  sub_val = Interval.minus;
  mul_val = Ops.times;
  div_val = Ops.divide gmp;
  rem_val = Ops.remainder gmp;
  shl_val = Ops.shift_left gmp;
  shr_val = Ops.shift_right gmp;
  and_val = Ops.bit_and gmp;
  or_val = Ops.bit_or gmp;
  xor_val = Ops.bit_xor gmp;
}

abbrev pub Holds : Interval → ℤ → Type 0
Holds x n = contains x n ≡ true

full_of_bounds :
    (l u : Bound) (n : ℤ)
    → IsLower l
    → IsUpper u
    → is_top (record { lb = l; ub = u }) ≡ true
    → Holds (record { lb = l; ub = u }) n
unfolding is_top contains is_bottom
full_of_bounds l u n (IsLower.fin a) q h = ground arith
full_of_bounds l u n IsLower.minus (IsUpper.fin b) h = ground arith
full_of_bounds l u n IsLower.minus IsUpper.plus h = refl

pub full_of_top : (x : Interval) (n : ℤ) → IsValid x → is_top x ≡ true → Holds x n
full_of_top x n v h = full_of_bounds x.lb x.ub n v.lower v.upper h

pub top-contains : (n : ℤ) → Holds top n
unfolding top contains
top-contains n = refl

pub singleton-contains : (n : ℤ) → Holds (singleton n) n
unfolding singleton
singleton-contains n =
    contains_of_between (singleton-IsValid n) n (le_refl (finite-IsNormal n))
      (le_refl (finite-IsNormal n))

pub plus_assign-covers :
    (x y : Interval)
    → IsValid x
    → IsValid y
    → Returns
        (λ w. IsValid w × ((m n : ℤ) → Holds x m → Holds y n → Holds w (m +ℤ n)))
        (Interval.plus_assign x y)
plus_assign-covers x y p q =
    Returns-imp (Covers ◌+ℤ◌ x y)
      (λ w. IsValid w × ((m n : ℤ) → Holds x m → Holds y n → Holds w (m +ℤ n)))
      (Interval.plus_assign x y) (λ w c. (c.valid, c.holds)) (plus_assign_sound p q)

pub empty_of_bottom : (x : Interval) (n : ℤ) → is_bottom x ≡ true → ¬ Holds x n
unfolding contains
empty_of_bottom x n e h = ground arith

pub times-covers :
    (x y : Interval)
    → IsValid x
    → IsValid y
    → Returns
        (λ w. IsValid w × ((m n : ℤ) → Holds x m → Holds y n → Holds w (m *ℤ n)))
        (Ops.times x y)
times-covers x y p q =
    Returns-imp (Covers ◌*ℤ◌ x y)
      (λ w. IsValid w × ((m n : ℤ) → Holds x m → Holds y n → Holds w (m *ℤ n))) (Ops.times x y)
      (λ w c. (c.valid, c.holds)) (times_sound p q)

pub bottom_contains_none : (n : ℤ) → ¬ Holds bottom n
bottom_contains_none n h = ground (arith, bottom_empty n)

-- Intervals meet the laws that the class relies on.
unfoldable pub interval_laws : (gmp : Gmp) → IsNumerical Interval (interval_values gmp)
unfolding interval_values
interval_laws gmp = record {
  Has = Holds;
  IsGood = IsValid;
  bottom-good = bottom-IsValid;
  default-good = top-IsValid;
  of_num-good = singleton-IsValid;
  bottom_empty = empty_of_bottom;
  bottom-empty = bottom_contains_none;
  default-full = top-contains;
  of_num-has = singleton-contains;
  top_full = full_of_top;
  join-good = λ u v p q. (join_with_sound p q).0;
  join-has = λ u v n p q. (join_with_sound p q).1 n;
  widen-good = λ u v p q. (widen_with_sound p q).valid;
  widen-has = λ u v n p q h. elim h [
    | inl a ↦ (leq_iff p (widen_with_sound p q).valid).0 (widen_with_sound p q).left n a
    | inr a ↦ (leq_iff q (widen_with_sound p q).valid).0 (widen_with_sound p q).right n a
  ];
  meet-good = λ u v p q. (meet_with_exact p q).0;
  meet-has = λ u v n p q. (meet_with_exact p q).1 n;
  leq-has = λ u v n p q h. (leq_iff p q).0 h n;
  add_assign-has = plus_assign-covers;
  mul-has = times-covers;
}
