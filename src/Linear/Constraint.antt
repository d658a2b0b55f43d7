-- ===== src/Linear/Constraint.antt =====
-- linear.hpp: linear constraints, their negation and tests, and systems of constraints.
pub mod Relations
pub mod Holds
use knight.Prelude.{Bool, true, false, not, ◌&&◌, ◌||◌, List, [], ◌∷◌, ◌++◌, if◌then◌else◌, any}
use knight.Prelude.Int.{pos, neg_ℤ, leb_ℤ, eqb_ℤ}
use knight.Num.{ZNum}
use knight.Linear.{LinearExpr, empty_expr, is_constant, equals_expr}
use knight.Linear.Build.{num_minus_expr}

pub data LinearConstraintKind : Type 0 where
  equality disequation inequality : LinearConstraintKind

-- `expr == 0`, `expr != 0` or `expr <= 0`.
pub record LinearConstraint : Type 0 where
  pub expr : LinearExpr
  pub kind : LinearConstraintKind

unfoldable pub tautology : LinearConstraint
unfolding empty_expr
tautology = record { expr = empty_expr; kind = equality }

unfoldable pub contradiction : LinearConstraint
unfolding empty_expr
contradiction = record { expr = empty_expr; kind = disequation }

unfoldable pub negate : LinearConstraint → LinearConstraint
unfolding num_minus_expr
negate c = elim c.kind [
  | equality ↦ record { expr = c.expr; kind = disequation }
  | disequation ↦ record { expr = c.expr; kind = equality }
  | inequality ↦ record { expr = num_minus_expr (pos 1) c.expr; kind = inequality }
]

unfoldable pub is_tautology : LinearConstraint → Bool
unfolding is_constant
is_tautology c = if not (is_constant c.expr) then false else (elim c.kind [
  | equality ↦ eqb_ℤ c.expr.constant (pos 0)
  | disequation ↦ not (eqb_ℤ c.expr.constant (pos 0))
  | inequality ↦ leb_ℤ c.expr.constant (pos 0)
])

unfoldable pub is_contradiction : LinearConstraint → Bool
unfolding is_constant
is_contradiction c = if not (is_constant c.expr) then false else (elim c.kind [
  | equality ↦ not (eqb_ℤ c.expr.constant (pos 0))
  | disequation ↦ eqb_ℤ c.expr.constant (pos 0)
  | inequality ↦ not (leb_ℤ c.expr.constant (pos 0))
])

unfoldable pub is_equality : LinearConstraint → Bool
is_equality c = elim c.kind [ equality ↦ true | _ ↦ false ]

unfoldable pub is_inequality : LinearConstraint → Bool
is_inequality c = elim c.kind [ inequality ↦ true | _ ↦ false ]

-- The constant of the right side: the opposite of the expression's.
unfoldable pub get_constant_term : LinearConstraint → ZNum
get_constant_term c = neg_ℤ c.expr.constant

abbrev same_kind : LinearConstraintKind → LinearConstraintKind → Bool
same_kind equality equality = true
same_kind disequation disequation = true
same_kind inequality inequality = true
same_kind _ _ = false

unfoldable pub equals_constraint : LinearConstraint → LinearConstraint → Bool
unfolding equals_expr
equals_constraint c d = equals_expr c.expr d.expr && same_kind c.kind d.kind

pub record LinearConstraintSystem : Type 0 where
  pub csts : List LinearConstraint

unfoldable pub add_linear_constraint :
    LinearConstraintSystem → LinearConstraint → LinearConstraintSystem
add_linear_constraint s c = record { csts = s.csts ++ c ∷ [] }

unfoldable pub merge_linear_constraint_system :
    LinearConstraintSystem → LinearConstraintSystem → LinearConstraintSystem
merge_linear_constraint_system s t = record { csts = s.csts ++ t.csts }

-- The loop of `retain_common_linear_constraint_system`.
unfoldable pub drop_common : List LinearConstraint → List LinearConstraint → List LinearConstraint
unfolding equals_constraint
drop_common [] other = []
drop_common (c ∷ cs) other =
    let rest = drop_common cs other in
    if any (λ d. equals_constraint d c) other then rest else c ∷ rest

unfoldable pub retain_common_linear_constraint_system :
    LinearConstraintSystem → LinearConstraintSystem → LinearConstraintSystem
unfolding drop_common
retain_common_linear_constraint_system s t = record { csts = drop_common s.csts t.csts }
