-- ===== src/Interval/Growth.antt =====
-- interval.hpp: a sequence of widenings grows an interval at most three times.
use knight.Prelude.{
  ℕ, ◌+◌, ◌≤◌, ◌<◌, ◌≡◌, refl, inl, inr, true, false, arith, Bool-cases, if◌then◌else◌, List, [],
  ◌∷◌, All, ◌∙◌,
}
use knight.Bound.{Bound, pinf, ninf, leb, geb, ltb, gtb}
use knight.Interval.{Interval, is_bottom, leq, widen_with}
use knight.Interval.Members.{IsValid}
use knight.Interval.Lattice.{leq-eq}
use knight.Interval.Widening.{
  finite_count, widen_lb, widen_ub, widen_with-eq, leq_bottom, not_bottom_of_leq, widen_with_sound,
}

-- How often a widening can still grow the interval.
pub rank : Interval → ℕ
rank x = if is_bottom x then 3 else finite_count x.lb + finite_count x.ub

rank_le : (x : Interval) → is_bottom x ≡ false → rank x ≤ 2
unfolding rank
rank_le x e = ground arith

pub rank_le_three : (x : Interval) → rank x ≤ 3
unfolding rank
rank_le_three x = ground arith

geb_of_ltb : (a b : Bound) → ltb a b ≡ false → geb a b ≡ true
unfolding ltb
geb_of_ltb a b e = ground arith

leb_of_gtb : (a b : Bound) → gtb a b ≡ false → leb a b ≡ true
unfolding gtb
leb_of_gtb a b e = ground arith

rank_of_bottom : (x : Interval) → is_bottom x ≡ true → rank x ≡ 3
unfolding rank
rank_of_bottom x e = rw e refl

rank_of_bounds :
    (x : Interval) → is_bottom x ≡ false → rank x ≡ finite_count x.lb + finite_count x.ub
unfolding rank
rank_of_bounds x e = rw e refl

module _ {x y : Interval} (v : IsValid x) (w : IsValid y) where
  -- The rank of a widening where neither operand is bottom.
  rank-widened :
      is_bottom x ≡ false
      → is_bottom y ≡ false
      → rank (widen_with x y)
        ≡ finite_count (if ltb y.lb x.lb then ninf else x.lb)
          + finite_count (if gtb y.ub x.ub then pinf else x.ub)
  rank-widened e d =
      let full = not_bottom_of_leq x (widen_with x y) (widen_with_sound v w).left e in
      rank_of_bounds (widen_with x y) full ∙ rw (widen_with-eq, e, d) refl

  -- A widening has no higher rank.
  rank-widen_with-le : rank (widen_with x y) ≤ rank x
  rank-widen_with-le = elim (Bool-cases (is_bottom x)) [
    | inl e ↦ omega (arith, rank_of_bottom x e, rank_le_three (widen_with x y))
    | inr e ↦ elim (Bool-cases (is_bottom y)) [
      | inl d ↦ rw (widen_with-eq, e, d) (omega arith)
      | inr d ↦ omega (
        arith,
        rank-widened e d,
        rank_of_bounds x e,
        (widen_lb v.lower w.lower).fewer,
        (widen_ub v.upper w.upper).fewer,
      )
    ]
  ]

  -- Where a widening changes the interval, its rank falls.
  pub rank-widen_with-lt : leq y x ≡ false → rank (widen_with x y) < rank x
  rank-widen_with-lt h = elim (Bool-cases (is_bottom x)) [
    | inl e ↦
        rw (widen_with-eq, e)
          (elim (Bool-cases (is_bottom y)) [
            | inl d ↦ cc (h, leq_bottom y x d)
            | inr d ↦ omega (arith, rank_of_bottom x e, rank_le y d)
          ])
    | inr e ↦ elim (Bool-cases (is_bottom y)) [
      | inl d ↦ cc (h, leq_bottom y x d)
      | inr d ↦ elim (Bool-cases (ltb y.lb x.lb)) [
        | inl s ↦ omega (
          arith,
          rank-widened e d,
          rank_of_bounds x e,
          (widen_lb v.lower w.lower).strict s,
          (widen_ub v.upper w.upper).fewer,
        )
        | inr s ↦ elim (Bool-cases (gtb y.ub x.ub)) [
          | inl q ↦ omega (
            arith,
            rank-widened e d,
            rank_of_bounds x e,
            (widen_lb v.lower w.lower).fewer,
            (widen_ub v.upper w.upper).strict q,
          )
          | inr q ↦ ground (arith, leq-eq y x, geb_of_ltb y.lb x.lb s, leb_of_gtb y.ub x.ub q)
        ]
      ]
    ]
  ]

-- How many of the widenings by the intervals of a list change the value.
pub growth : Interval → List Interval → ℕ
growth x [] = 0
growth x (y ∷ ys) = (if leq y x then 0 else 1) + growth (widen_with x y) ys

growth-le-rank :
    (x : Interval) (ys : List Interval) → IsValid x → All IsValid ys → growth x ys ≤ rank x
unfolding growth
growth-le-rank x [] v vs = omega arith
growth-le-rank x (y ∷ ys) v (w, vs) =
    let rest = growth-le-rank (widen_with x y) ys (widen_with_sound v w).valid vs in
    elim (Bool-cases (leq y x)) [
      | inl e ↦ rw e (omega (arith, rank-widen_with-le v w))
      | inr e ↦ rw e (omega (arith, rank-widen_with-lt v w e))
    ]

-- In a sequence of widenings of a valid interval by valid intervals, at most three of the right
-- operands lie outside the value that they widen.
pub growth-le-three :
    (x : Interval) (ys : List Interval) → IsValid x → All IsValid ys → growth x ys ≤ 3
growth-le-three x ys v vs = omega (arith, growth-le-rank x ys v vs, rank_le_three x)
