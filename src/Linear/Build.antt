-- ===== src/Linear/Build.antt =====
-- linear.hpp: the overloaded operators that build linear expressions.
-- The sum of a variable and an expression, in this order, is left out: it returns the variable where an
-- expression is due, and does not compile.
use knight.Prelude.Int.{negsuc}
use knight.Num.{ZNum}
use knight.Linear.{
  Var, LinearExpr, expr_of_var, expr_of_term, plus_num, plus_var, plus_expr, minus_num, minus_var,
  minus_expr, scale,
}

unfoldable pub var_times_num : Var → ZNum → LinearExpr
unfolding expr_of_term
var_times_num x k = expr_of_term k x

unfoldable pub num_times_var : ZNum → Var → LinearExpr
unfolding expr_of_term
num_times_var k x = expr_of_term k x

unfoldable pub expr_times_num : LinearExpr → ZNum → LinearExpr
unfolding scale
expr_times_num e k = scale e k

unfoldable pub num_times_expr : ZNum → LinearExpr → LinearExpr
unfolding scale
num_times_expr k e = scale e k

unfoldable pub var_plus_num : Var → ZNum → LinearExpr
unfolding plus_num expr_of_var
var_plus_num x n = plus_num (expr_of_var x) n

unfoldable pub num_plus_var : ZNum → Var → LinearExpr
unfolding plus_num expr_of_var
num_plus_var n x = plus_num (expr_of_var x) n

unfoldable pub var_plus_var : Var → Var → LinearExpr
unfolding plus_var expr_of_var
var_plus_var x y = plus_var (expr_of_var x) y

unfoldable pub expr_plus_num : LinearExpr → ZNum → LinearExpr
unfolding plus_num
expr_plus_num e n = plus_num e n

unfoldable pub num_plus_expr : ZNum → LinearExpr → LinearExpr
unfolding plus_num
num_plus_expr n e = plus_num e n

unfoldable pub expr_plus_var : LinearExpr → Var → LinearExpr
unfolding plus_var
expr_plus_var e x = plus_var e x

unfoldable pub expr_plus_expr : LinearExpr → LinearExpr → LinearExpr
unfolding plus_expr
expr_plus_expr e f = plus_expr e f

unfoldable pub var_minus_num : Var → ZNum → LinearExpr
unfolding minus_num expr_of_var
var_minus_num x n = minus_num (expr_of_var x) n

unfoldable pub num_minus_var : ZNum → Var → LinearExpr
unfolding plus_num expr_of_term
num_minus_var n x = plus_num (expr_of_term (negsuc 0) x) n

unfoldable pub var_minus_var : Var → Var → LinearExpr
unfolding minus_var expr_of_var
var_minus_var x y = minus_var (expr_of_var x) y

unfoldable pub expr_minus_num : LinearExpr → ZNum → LinearExpr
unfolding minus_num
expr_minus_num e n = minus_num e n

unfoldable pub expr_minus_var : LinearExpr → Var → LinearExpr
unfolding minus_var
expr_minus_var e x = minus_var e x

unfoldable pub num_minus_expr : ZNum → LinearExpr → LinearExpr
unfolding plus_num scale
num_minus_expr n e = plus_num (scale e (negsuc 0)) n

unfoldable pub var_minus_expr : Var → LinearExpr → LinearExpr
unfolding plus_var scale
var_minus_expr x e = plus_var (scale e (negsuc 0)) x

unfoldable pub expr_minus_expr : LinearExpr → LinearExpr → LinearExpr
unfolding minus_expr
expr_minus_expr e f = minus_expr e f
