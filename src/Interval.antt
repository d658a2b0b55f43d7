-- ===== src/Interval.antt =====
-- analyzer/include/analyzer/core/domain/interval.hpp: the class `Interval` over `ZNum`: construction,
-- tests, the lattice operations, sums. The other operators are in the child `Ops`.
--
-- A failed `knight_assert` gives `none`. An operation that changes `*this` returns the new value.
pub mod Ops
pub mod Members
pub mod Lattice
pub mod Meet
pub mod Equality
pub mod Widening
pub mod Growth
pub mod Settling
pub mod Narrowing
pub mod Sums
pub mod Products
pub mod Times
pub mod Quotients
pub mod Divide
pub mod Division
pub mod Trim
mod Tests
use knight.Prelude.{Bool, true, false, not, ◌&&◌, ◌||◌, Option, none, some, if◌then◌else◌, ◌>>=◌}
use knight.Prelude.Int.{pos}
use knight.Num.{ZNum}
use knight.Bound.{
  Bound, finite, pinf, ninf, is_finite, is_pinf, is_ninf, get_num_opt, leb, geb, ltb, gtb, eqb, neg,
  add, sub, add_assign, sub_assign, min, max,
}

pub record Interval : Type 0 where
  pub lb : Bound
  pub ub : Bound

unfoldable pub bottom : Interval
unfolding finite
bottom = record { lb = finite (pos 1); ub = finite (pos 0) }

unfoldable pub top : Interval
unfolding pinf ninf
top = record { lb = ninf; ub = pinf }

-- The constructor `Interval(BoundT lb, BoundT ub)`.
unfoldable pub construct : Bound → Bound → Option Interval
unfolding bottom gtb eqb
construct lb ub =
    if is_finite lb || is_finite ub || not (eqb lb ub)
    then some (if gtb lb ub then bottom else record { lb = lb; ub = ub })
    else none

-- `Interval(Num n)`, whose assertion holds.
unfoldable pub singleton : ZNum → Interval
unfolding finite
singleton n = record { lb = finite n; ub = finite n }

unfoldable pub unknown_bool : Interval
unfolding finite
unknown_bool = record { lb = finite (pos 0); ub = finite (pos 1) }

unfoldable pub true_val : Interval
unfolding singleton
true_val = singleton (pos 1)

unfoldable pub false_val : Interval
unfolding singleton
false_val = singleton (pos 0)

unfoldable pub is_bottom : Interval → Bool
unfolding gtb
is_bottom x = gtb x.lb x.ub

unfoldable pub is_top : Interval → Bool
unfolding is_ninf is_pinf
is_top x = is_ninf x.lb && is_pinf x.ub

unfoldable pub get_singleton_opt : Interval → Option ZNum
unfolding eqb get_num_opt
get_singleton_opt x = if is_finite x.lb && eqb x.lb x.ub then get_num_opt x.lb else none

unfoldable pub contains : Interval → ZNum → Bool
unfolding is_bottom leb geb finite
contains x n = not (is_bottom x) && leb x.lb (finite n) && geb x.ub (finite n)

unfoldable pub leq : Interval → Interval → Bool
unfolding is_bottom leb geb
leq x y =
    if is_bottom x then true else (if is_bottom y then false else geb x.lb y.lb && leb x.ub y.ub)

unfoldable pub equals : Interval → Interval → Bool
unfolding is_bottom eqb
equals x y = if is_bottom x && is_bottom y then true else eqb x.lb y.lb && eqb x.ub y.ub

unfoldable pub join_with : Interval → Interval → Interval
unfolding is_bottom min max
join_with x y =
    if is_bottom x
    then y
    else (if is_bottom y then x else record { lb = min x.lb y.lb; ub = max x.ub y.ub })

unfoldable pub widen_with : Interval → Interval → Interval
unfolding is_bottom ltb gtb pinf ninf
widen_with x y =
    if is_bottom x
    then y
    else (if is_bottom y then x else record {
      lb = if ltb y.lb x.lb then ninf else x.lb;
      ub = if gtb y.ub x.ub then pinf else x.ub;
    })

-- The new lower bound of `widen_with_threshold`, for the bounds `thr` and `thr - one`.
unfoldable pub threshold_lb : Bound → Bound → Bound → Bound → Bound
unfolding gtb geb eqb ninf
threshold_lb thr below x y =
    if gtb x y then (if geb y thr then thr else (if eqb y below then below else ninf)) else x

-- The new upper bound, for the bounds `thr` and `thr + one`.
unfoldable pub threshold_ub : Bound → Bound → Bound → Bound → Bound
unfolding ltb leb eqb pinf
threshold_ub thr above x y =
    if ltb x y then (if leb y thr then thr else (if eqb y above then above else pinf)) else x

unfoldable pub widen_with_threshold : Interval → Interval → ZNum → Option Interval
unfolding is_bottom finite sub add threshold_lb threshold_ub
widen_with_threshold x y threshold =
    if is_bottom x
    then some y
    else (if is_bottom y then some x else (do
      below ← sub (finite threshold) (finite (pos 1))
      above ← add (finite threshold) (finite (pos 1))
      some (record {
        lb = threshold_lb (finite threshold) below x.lb y.lb;
        ub = threshold_ub (finite threshold) above x.ub y.ub;
      })))

unfoldable pub meet_with : Interval → Interval → Interval
unfolding is_bottom min max bottom
meet_with x y =
    if is_bottom x
    then x
    else (if is_bottom y then bottom else record { lb = max x.lb y.lb; ub = min x.ub y.ub })

unfoldable pub narrow_with : Interval → Interval → Interval
unfolding is_bottom bottom
narrow_with x y =
    if is_bottom x
    then x
    else (if is_bottom y then bottom else record {
      lb = if x.lb.is_inf then y.lb else x.lb;
      ub = if x.ub.is_inf then y.ub else x.ub;
    })

unfoldable pub narrow_with_threshold : Interval → Interval → ZNum → Interval
unfolding is_bottom bottom eqb finite
narrow_with_threshold x y threshold =
    if is_bottom x
    then x
    else (if is_bottom y then bottom else record {
      lb = if x.lb.is_inf then y.lb else (if eqb x.lb (finite threshold) then y.lb else x.lb);
      ub = if x.ub.is_inf then y.ub else (if eqb x.ub (finite threshold) then y.ub else x.ub);
    })

-- Unary `operator-`.
unfoldable pub neg_interval : Interval → Option Interval
unfolding is_bottom bottom neg construct
neg_interval x = if is_bottom x then some bottom else construct (neg x.ub) (neg x.lb)

-- `operator+=`.
unfoldable pub plus_assign : Interval → Interval → Option Interval
unfolding is_bottom bottom add_assign
plus_assign x y =
    if is_bottom x
    then some x
    else (if is_bottom y then some bottom else (do
      l ← add_assign x.lb y.lb
      u ← add_assign x.ub y.ub
      some (record { lb = l; ub = u })))

-- `operator-=`.
unfoldable pub minus_assign : Interval → Interval → Option Interval
unfolding is_bottom bottom sub_assign
minus_assign x y =
    if is_bottom x
    then some x
    else (if is_bottom y then some bottom else (do
      l ← sub_assign x.lb y.ub
      u ← sub_assign x.ub y.lb
      some (record { lb = l; ub = u })))

-- The free `operator+`.
unfoldable pub plus : Interval → Interval → Option Interval
unfolding is_bottom bottom add construct
plus x y =
    if is_bottom x || is_bottom y
    then some bottom
    else (do l ← add x.lb y.lb; u ← add x.ub y.ub; construct l u)

-- The free `operator-`.
unfoldable pub minus : Interval → Interval → Option Interval
unfolding is_bottom bottom sub construct
minus x y =
    if is_bottom x || is_bottom y
    then some bottom
    else (do l ← sub x.lb y.ub; u ← sub x.ub y.lb; construct l u)

unfoldable pub trim_bound : Interval → Bound → Option Interval
unfolding is_bottom eqb add sub construct finite
trim_bound x b =
    if is_bottom x
    then none
    else (if eqb x.lb b
        then (do l ← add b (finite (pos 1)); construct l x.ub)
        else (if eqb x.ub b then (do u ← sub b (finite (pos 1)); construct x.lb u) else some x))
