-- ===== src/Interval/Widening.antt =====
-- interval.hpp: `widen_with`, whose result is above both operands.
use knight.Prelude.{ℕ, ◌≤◌, ◌<◌, ◌≡◌, refl, inl, inr, true, false, arith, Bool-cases, if◌then◌else◌}
use knight.Bound.{Bound, pinf, ninf, leb, geb, ltb, gtb}
use knight.Bound.Order.{Le, le_refl, ltb_false, gtb_false}
use knight.Bound.Sides.{IsLower, IsUpper, normal_of_lower, normal_of_upper}
use knight.Interval.{Interval, is_bottom, leq, widen_with}
use knight.Interval.Members.{IsValid}
use knight.Interval.Lattice.{leq_of_bounds, leq-eq, bottom_of_leq}

abbrev pub finite_count : Bound → ℕ
finite_count b = if b.is_inf then 0 else 1

-- A new lower bound below both, with no more finite bounds, and fewer where the second is lower.
pub record LowersTo (a b r : Bound) : Type 0 where
  pub lower : IsLower r
  pub left : Le r a
  pub right : Le r b
  pub fewer : finite_count r ≤ finite_count a
  pub strict : ltb b a ≡ true → finite_count r < finite_count a

pub record RaisesTo (a b r : Bound) : Type 0 where
  pub upper : IsUpper r
  pub left : Le a r
  pub right : Le b r
  pub fewer : finite_count r ≤ finite_count a
  pub strict : gtb b a ≡ true → finite_count r < finite_count a

pub ninf-Le : {b : Bound} → IsLower b → Le ninf b
unfolding leb ninf
ninf-Le IsLower.minus = refl
ninf-Le (IsLower.fin n) = refl

pub Le-pinf : {b : Bound} → IsUpper b → Le b pinf
unfolding leb pinf
Le-pinf IsUpper.plus = refl
Le-pinf (IsUpper.fin n) = refl

finite_of_ltb : {a b : Bound} → IsLower a → IsLower b → ltb b a ≡ true → finite_count a ≡ 1
unfolding ltb geb
finite_of_ltb (IsLower.fin n) q h = refl
finite_of_ltb IsLower.minus IsLower.minus h = ground arith
finite_of_ltb IsLower.minus (IsLower.fin n) h = ground arith

finite_of_gtb : {a b : Bound} → IsUpper a → IsUpper b → gtb b a ≡ true → finite_count a ≡ 1
unfolding gtb leb
finite_of_gtb (IsUpper.fin n) q h = refl
finite_of_gtb IsUpper.plus IsUpper.plus h = ground arith
finite_of_gtb IsUpper.plus (IsUpper.fin n) h = ground arith

pub widen_lb : {a b : Bound} → IsLower a → IsLower b → LowersTo a b (if ltb b a then ninf else a)
widen_lb {a} {b} p q = elim (Bool-cases (ltb b a)) [
  | inl e ↦ rw e (record {
    lower = unfold ninf in IsLower.minus;
    left = ninf-Le p;
    right = ninf-Le q;
    fewer = unfold ninf in omega arith;
    strict = λ h. unfold ninf in omega (arith, finite_of_ltb p q h);
  })
  | inr e ↦ rw e (record {
    lower = p;
    left = le_refl (normal_of_lower p);
    right = ltb_false (normal_of_lower q) (normal_of_lower p) e;
    fewer = omega arith;
    strict = λ h. cc;
  })
]

pub widen_ub : {a b : Bound} → IsUpper a → IsUpper b → RaisesTo a b (if gtb b a then pinf else a)
widen_ub {a} {b} p q = elim (Bool-cases (gtb b a)) [
  | inl e ↦ rw e (record {
    upper = unfold pinf in IsUpper.plus;
    left = Le-pinf p;
    right = Le-pinf q;
    fewer = unfold pinf in omega arith;
    strict = λ h. unfold pinf in omega (arith, finite_of_gtb p q h);
  })
  | inr e ↦ rw e (record {
    upper = p;
    left = le_refl (normal_of_upper p);
    right = gtb_false (normal_of_upper q) (normal_of_upper p) e;
    fewer = omega arith;
    strict = λ h. cc;
  })
]

pub widen_with-eq :
    (x y : Interval)
    → widen_with x y ≡ (
        if is_bottom x
        then y
        else (if is_bottom y then x else record {
          lb = if ltb y.lb x.lb then ninf else x.lb;
          ub = if gtb y.ub x.ub then pinf else x.ub;
        }))
unfolding widen_with
widen_with-eq x y = refl

-- What a widening by `y` promises of its result `r`.
pub record Widens (x y r : Interval) : Type 0 where
  pub valid : IsValid r
  pub left : leq x r ≡ true
  pub right : leq y r ≡ true

pub leq_refl : {x : Interval} → IsValid x → leq x x ≡ true
leq_refl v =
    leq_of_bounds v v (le_refl (normal_of_lower v.lower)) (le_refl (normal_of_upper v.upper))

pub leq_bottom : (x y : Interval) → is_bottom x ≡ true → leq x y ≡ true
leq_bottom x y e = ground (arith, leq-eq x y)

pub not_bottom_of_leq :
    (x y : Interval) → leq x y ≡ true → is_bottom x ≡ false → is_bottom y ≡ false
not_bottom_of_leq x y h e = ground (arith, bottom_of_leq x y h)

module _ {x y : Interval} (v : IsValid x) (w : IsValid y) where
  -- The widening where neither operand is bottom.
  widened_at :
      {l u : Bound}
      → LowersTo x.lb y.lb l
      → RaisesTo x.ub y.ub u
      → Widens x y (record { lb = l; ub = u })
  widened_at {l} {u} a b =
      let valid : IsValid (record { lb = l; ub = u }) = record {
        lower = a.lower;
        upper = b.upper;
      } in
      record {
        valid = valid;
        left = leq_of_bounds v valid a.left b.left;
        right = leq_of_bounds w valid a.right b.right;
      }

  -- For two valid intervals, `widen_with` gives a valid interval above both of them in the order
  -- of `leq`.
  pub widen_with_sound : Widens x y (widen_with x y)
  widen_with_sound = rw widen_with-eq (elim (Bool-cases (is_bottom x)) [
    | inl e ↦ rw e (record { valid = w; left = leq_bottom x y e; right = leq_refl w })
    | inr e ↦ elim (Bool-cases (is_bottom y)) [
      | inl d ↦ rw (e, d) (record { valid = v; left = leq_refl v; right = leq_bottom y x d })
      | inr d ↦ rw (e, d) (widened_at (widen_lb v.lower w.lower) (widen_ub v.upper w.upper))
    ]
  ])
