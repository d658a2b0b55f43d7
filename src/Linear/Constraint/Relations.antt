-- ===== src/Linear/Constraint/Relations.antt =====
-- linear.hpp: the overloaded comparisons that build linear constraints.
use knight.Num.{ZNum}
use knight.Linear.{Var, LinearExpr}
use knight.Linear.Build.{
  var_minus_num, num_minus_var, var_minus_var, expr_minus_num, expr_minus_var, num_minus_expr,
  var_minus_expr, expr_minus_expr,
}
use knight.Linear.Constraint.{LinearConstraint, equality, disequation, inequality}

unfoldable pub expr_le_num : LinearExpr → ZNum → LinearConstraint
unfolding expr_minus_num
expr_le_num a b = record { expr = expr_minus_num a b; kind = inequality }

unfoldable pub expr_le_var : LinearExpr → Var → LinearConstraint
unfolding expr_minus_var
expr_le_var a b = record { expr = expr_minus_var a b; kind = inequality }

unfoldable pub var_le_num : Var → ZNum → LinearConstraint
unfolding var_minus_num
var_le_num a b = record { expr = var_minus_num a b; kind = inequality }

unfoldable pub var_le_var : Var → Var → LinearConstraint
unfolding var_minus_var
var_le_var a b = record { expr = var_minus_var a b; kind = inequality }

unfoldable pub var_le_expr : Var → LinearExpr → LinearConstraint
unfolding var_minus_expr
var_le_expr a b = record { expr = var_minus_expr a b; kind = inequality }

unfoldable pub expr_le_expr : LinearExpr → LinearExpr → LinearConstraint
unfolding expr_minus_expr
expr_le_expr a b = record { expr = expr_minus_expr a b; kind = inequality }

unfoldable pub expr_ge_num : LinearExpr → ZNum → LinearConstraint
unfolding num_minus_expr
expr_ge_num a b = record { expr = num_minus_expr b a; kind = inequality }

unfoldable pub expr_ge_var : LinearExpr → Var → LinearConstraint
unfolding var_minus_expr
expr_ge_var a b = record { expr = var_minus_expr b a; kind = inequality }

unfoldable pub var_ge_num : Var → ZNum → LinearConstraint
unfolding num_minus_var
var_ge_num a b = record { expr = num_minus_var b a; kind = inequality }

unfoldable pub var_ge_var : Var → Var → LinearConstraint
unfolding var_minus_var
var_ge_var a b = record { expr = var_minus_var b a; kind = inequality }

unfoldable pub var_ge_expr : Var → LinearExpr → LinearConstraint
unfolding expr_minus_var
var_ge_expr a b = record { expr = expr_minus_var b a; kind = inequality }

unfoldable pub expr_ge_expr : LinearExpr → LinearExpr → LinearConstraint
unfolding expr_minus_expr
expr_ge_expr a b = record { expr = expr_minus_expr b a; kind = inequality }

unfoldable pub expr_eq_num : LinearExpr → ZNum → LinearConstraint
unfolding expr_minus_num
expr_eq_num a b = record { expr = expr_minus_num a b; kind = equality }

unfoldable pub expr_eq_var : LinearExpr → Var → LinearConstraint
unfolding expr_minus_var
expr_eq_var a b = record { expr = expr_minus_var a b; kind = equality }

unfoldable pub var_eq_num : Var → ZNum → LinearConstraint
unfolding var_minus_num
var_eq_num a b = record { expr = var_minus_num a b; kind = equality }

unfoldable pub var_eq_var : Var → Var → LinearConstraint
unfolding var_minus_var
var_eq_var a b = record { expr = var_minus_var a b; kind = equality }

unfoldable pub var_eq_expr : Var → LinearExpr → LinearConstraint
unfolding expr_minus_var
var_eq_expr a b = record { expr = expr_minus_var b a; kind = equality }

unfoldable pub expr_eq_expr : LinearExpr → LinearExpr → LinearConstraint
unfolding expr_minus_expr
expr_eq_expr a b = record { expr = expr_minus_expr a b; kind = equality }

unfoldable pub expr_ne_num : LinearExpr → ZNum → LinearConstraint
unfolding expr_minus_num
expr_ne_num a b = record { expr = expr_minus_num a b; kind = disequation }

unfoldable pub expr_ne_var : LinearExpr → Var → LinearConstraint
unfolding expr_minus_var
expr_ne_var a b = record { expr = expr_minus_var a b; kind = disequation }

unfoldable pub var_ne_num : Var → ZNum → LinearConstraint
unfolding var_minus_num
var_ne_num a b = record { expr = var_minus_num a b; kind = disequation }

unfoldable pub var_ne_var : Var → Var → LinearConstraint
unfolding var_minus_var
var_ne_var a b = record { expr = var_minus_var a b; kind = disequation }

unfoldable pub var_ne_expr : Var → LinearExpr → LinearConstraint
unfolding expr_minus_var
var_ne_expr a b = record { expr = expr_minus_var b a; kind = disequation }

unfoldable pub expr_ne_expr : LinearExpr → LinearExpr → LinearConstraint
unfolding expr_minus_expr
expr_ne_expr a b = record { expr = expr_minus_expr a b; kind = disequation }
