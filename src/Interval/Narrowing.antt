-- ===== src/Interval/Narrowing.antt =====
-- interval.hpp: `widen_with_threshold`, `narrow_with` and `narrow_with_threshold`.
use knight.Prelude.{
  ◌≡◌, refl, inl, inr, Bool, true, false, Bool-cases, if◌then◌else◌, Returns, ◌||◌,
}
use knight.Prelude.Int.{ℤ, pos, ◌+ℤ◌, ◌-ℤ◌}
use knight.Bound.{Bound, finite, pinf, ninf, leb, geb, ltb, gtb, eqb, make}
use knight.Bound.Order.{
  Le, le_refl, le_trans, ltb_false, ltb_true, gtb_false, gtb_true, geb-leb, eqb_iff,
}
use knight.Bound.Sides.{IsLower, IsUpper, normal_of_lower, normal_of_upper}
use knight.Interval.{
  Interval, bottom, is_bottom, leq, threshold_lb, threshold_ub, widen_with, widen_with_threshold,
  narrow_with, narrow_with_threshold,
}
use knight.Interval.Members.{IsValid, bottom-IsValid, finite-IsNormal}
use knight.Interval.Lattice.{bounds_of_leq, leq_of_bounds}
use knight.Interval.Widening.{Widens, leq_refl, leq_bottom, ninf-Le, Le-pinf, widen_with_sound}

pub finite-IsLower : (n : ℤ) → IsLower (finite n)
unfolding finite make
finite-IsLower n = IsLower.fin n

pub finite-IsUpper : (n : ℤ) → IsUpper (finite n)
unfolding finite make
finite-IsUpper n = IsUpper.fin n

ninf-IsLower : IsLower ninf
unfolding ninf make
ninf-IsLower = IsLower.minus

pinf-IsUpper : IsUpper pinf
unfolding pinf make
pinf-IsUpper = IsUpper.plus

-- The bounds that the threshold chooses lie beyond both old bounds.
threshold_lb_lower :
    (t m : ℤ) {a b : Bound}
    → IsLower a
    → IsLower b
    → IsLower (threshold_lb (finite t) (finite m) a b)
      × Le (threshold_lb (finite t) (finite m) a b) a
      × Le (threshold_lb (finite t) (finite m) a b) b
unfolding threshold_lb
threshold_lb_lower t m {a} {b} p q =
    let np = normal_of_lower p in
    let nq = normal_of_lower q in
    elim (Bool-cases (gtb a b)) [
      | inr e ↦ rw e (p, le_refl np, gtb_false np nq e)
      | inl e ↦ elim (Bool-cases (geb b (finite t))) [
        | inl d ↦
            let low : Le (finite t) b = rw (← geb-leb nq (finite-IsNormal t)) d in
            rw (e, d)
              (finite-IsLower t, le_trans (finite-IsNormal t) nq np low (gtb_true np nq e), low)
        | inr d ↦ elim (Bool-cases (eqb b (finite m))) [
          | inl s ↦
              let same = (eqb_iff nq (finite-IsNormal m)).0 s in
              rw (e, d, s, ← same) (q, gtb_true np nq e, le_refl nq)
          | inr s ↦ rw (e, d, s) (ninf-IsLower, ninf-Le p, ninf-Le q)
        ]
      ]
    ]

threshold_ub_upper :
    (t m : ℤ) {a b : Bound}
    → IsUpper a
    → IsUpper b
    → IsUpper (threshold_ub (finite t) (finite m) a b)
      × Le a (threshold_ub (finite t) (finite m) a b)
      × Le b (threshold_ub (finite t) (finite m) a b)
unfolding threshold_ub
threshold_ub_upper t m {a} {b} p q =
    let np = normal_of_upper p in
    let nq = normal_of_upper q in
    elim (Bool-cases (ltb a b)) [
      | inr e ↦ rw e (p, le_refl np, ltb_false np nq e)
      | inl e ↦ elim (Bool-cases (leb b (finite t))) [
        | inl d ↦
            rw (e, d) (finite-IsUpper t, le_trans np nq (finite-IsNormal t) (ltb_true np nq e) d, d)
        | inr d ↦ elim (Bool-cases (eqb b (finite m))) [
          | inl s ↦
              let same = (eqb_iff nq (finite-IsNormal m)).0 s in
              rw (e, d, s, ← same) (q, ltb_true np nq e, le_refl nq)
          | inr s ↦ rw (e, d, s) (pinf-IsUpper, Le-pinf p, Le-pinf q)
        ]
      ]
    ]

module _ {x y : Interval} (v : IsValid x) (w : IsValid y) where
  pub widen_with_threshold_sound : (t : ℤ) → Returns (Widens x y) (widen_with_threshold x y t)
  unfolding widen_with_threshold
  widen_with_threshold_sound t = elim (Bool-cases (is_bottom x)) [
    | inl e ↦ rw e (record { valid = w; left = leq_bottom x y e; right = leq_refl w })
    | inr e ↦ elim (Bool-cases (is_bottom y)) [
      | inl d ↦ rw (e, d) (record { valid = v; left = leq_refl v; right = leq_bottom y x d })
      | inr d ↦
          rw (e, d)
            (let (l, lx, ly) = threshold_lb_lower t (t -ℤ pos 1) v.lower w.lower in
              let (u, ux, uy) = threshold_ub_upper t (t +ℤ pos 1) v.upper w.upper in
              let valid : IsValid (record {
                lb = threshold_lb (finite t) (finite (t -ℤ pos 1)) x.lb y.lb;
                ub = threshold_ub (finite t) (finite (t +ℤ pos 1)) x.ub y.ub;
              }) =
                record { lower = l; upper = u } in
              record {
                valid = valid;
                left = leq_of_bounds v valid lx ux;
                right = leq_of_bounds w valid ly uy;
              })
    ]
  ]

  -- For two valid intervals, `widen_with` and, with any threshold, `widen_with_threshold` end with a
  -- valid interval above both of them in the order of `leq`.
  pub widenings_sound :
      Widens x y (widen_with x y) × ((t : ℤ) → Returns (Widens x y) (widen_with_threshold x y t))
  widenings_sound = (widen_with_sound v w, widen_with_threshold_sound)

-- What narrowing `x` by a smaller `y` promises of its result `r`.
pub record Narrows (x y r : Interval) : Type 0 where
  pub valid : IsValid r
  pub above : leq y r ≡ true
  pub below : leq r x ≡ true

chosen_lb :
    (take : Bool) {a b : Bound}
    → IsLower a
    → IsLower b
    → Le a b
    → IsLower (if take then b else a) × Le (if take then b else a) b × Le a (if take then b else a)
chosen_lb true p q h = (q, le_refl (normal_of_lower q), h)
chosen_lb false p q h = (p, h, le_refl (normal_of_lower p))

chosen_ub :
    (take : Bool) {a b : Bound}
    → IsUpper a
    → IsUpper b
    → Le b a
    → IsUpper (if take then b else a) × Le b (if take then b else a) × Le (if take then b else a) a
chosen_ub true p q h = (q, le_refl (normal_of_upper q), h)
chosen_ub false p q h = (p, h, le_refl (normal_of_upper p))

if_or :
    (a b : Bool) (p q : Bound) → (if a then p else (if b then p else q)) ≡ (if a || b then p else q)
if_or true b p q = refl
if_or false b p q = refl

-- Each bound of the result is the old bound or the new one.
module _ {x y : Interval} (v : IsValid x) (w : IsValid y) (h : leq y x ≡ true) where
  narrowed_bottom : is_bottom y ≡ true → Narrows x y bottom
  narrowed_bottom e = record {
    valid = bottom-IsValid;
    above = leq_bottom y bottom e;
    below = leq_bottom bottom x (unfold is_bottom bottom in refl);
  }

  narrowed_at :
      (take_lb take_ub : Bool)
      → is_bottom y ≡ false
      → Narrows x y
          (record { lb = if take_lb then y.lb else x.lb; ub = if take_ub then y.ub else x.ub })
  narrowed_at take_lb take_ub d =
      let (low, high) = bounds_of_leq w v h d in
      let l = chosen_lb take_lb v.lower w.lower low in
      let u = chosen_ub take_ub v.upper w.upper high in
      let valid : IsValid
          (record { lb = if take_lb then y.lb else x.lb; ub = if take_ub then y.ub else x.ub }) =
        record { lower = l.0; upper = u.0 } in
      record {
        valid = valid;
        above = leq_of_bounds w valid l.1 u.1;
        below = leq_of_bounds valid v l.2 u.2;
      }

  narrowed_of_bottom : Narrows x y x
  narrowed_of_bottom = record { valid = v; above = h; below = leq_refl v }

  pub narrow_with_sound : Narrows x y (narrow_with x y)
  unfolding narrow_with
  narrow_with_sound = elim (Bool-cases (is_bottom x)) [
    | inl e ↦ rw e narrowed_of_bottom
    | inr e ↦ elim (Bool-cases (is_bottom y)) [
      | inl d ↦ rw (e, d) (narrowed_bottom d)
      | inr d ↦ rw (e, d) (narrowed_at x.lb.is_inf x.ub.is_inf d)
    ]
  ]

  narrow_with_threshold_sound : (t : ℤ) → Narrows x y (narrow_with_threshold x y t)
  unfolding narrow_with_threshold
  narrow_with_threshold_sound t = elim (Bool-cases (is_bottom x)) [
    | inl e ↦ rw e narrowed_of_bottom
    | inr e ↦ elim (Bool-cases (is_bottom y)) [
      | inl d ↦ rw (e, d) (narrowed_bottom d)
      | inr d ↦
          rw (e, d, if_or x.lb.is_inf, if_or x.ub.is_inf)
            (narrowed_at (x.lb.is_inf || eqb x.lb (finite t)) (x.ub.is_inf || eqb x.ub (finite t))
              d)
    ]
  ]

  -- For two valid intervals, the second below the first, `narrow_with` and, with any threshold,
  -- `narrow_with_threshold` give a valid interval above the second and below the first.
  pub narrowings_sound :
      Narrows x y (narrow_with x y) × ((t : ℤ) → Narrows x y (narrow_with_threshold x y t))
  narrowings_sound = (narrow_with_sound, narrow_with_threshold_sound)
