-- ===== src/Linear/Tests.antt =====
-- The theorems on linear expressions and constraints at `3 + 2 x0 - x1` and `1 + x1`.
use knight.Prelude.{◌≡◌, refl, ◌↔◌, ◌≢◌, true, [], ◌∷◌}
use knight.Prelude.Int.{pos, negsuc, ◌+ℤ◌, ◌-ℤ◌, ◌*ℤ◌, ◌≤ℤ◌}
use knight.Linear.{LinearExpr, plus_expr, minus_expr, scale}
use knight.Linear.Meaning.{Env, eval, eval_arithmetic}
use knight.Linear.Constraint.{LinearConstraint, inequality, negate, is_tautology, is_contradiction}
use knight.Linear.Constraint.Relations.{
  expr_le_num, expr_le_var, var_le_num, var_le_var, var_le_expr, expr_le_expr, expr_ge_num,
  expr_ge_var, var_ge_num, var_ge_var, var_ge_expr, expr_ge_expr, expr_eq_num, expr_eq_var,
  var_eq_num, var_eq_var, var_eq_expr, expr_eq_expr, expr_ne_num, expr_ne_var, var_ne_num,
  var_ne_var, var_ne_expr, expr_ne_expr,
}
use knight.Linear.Constraint.Holds.{Holds, negate_iff, constant_tests_iff, comparisons-Holds}

abbrev env : Env
env x = pos x

abbrev left : LinearExpr
left = record { constant = pos 3; terms = (0, pos 2) ∷ (1, negsuc 0) ∷ [] }

abbrev right : LinearExpr
right = record { constant = pos 1; terms = (1, pos 1) ∷ [] }

abbrev bounded : LinearConstraint
bounded = record { expr = left; kind = inequality }

eval_arithmetic_example :
    (eval env (plus_expr left right) ≡ eval env left +ℤ eval env right)
    × (eval env (minus_expr left right) ≡ eval env left -ℤ eval env right)
    × (eval env (scale left (negsuc 2)) ≡ eval env left *ℤ negsuc 2)
eval_arithmetic_example = eval_arithmetic env left right (negsuc 2)

negate_iff_example : Holds env (negate bounded) ↔ (¬ Holds env bounded)
negate_iff_example = negate_iff env bounded

-- `0 <= 0`, which holds, and has no variables.
abbrev boundary : LinearConstraint
boundary = record { expr = record { constant = pos 0; terms = [] }; kind = inequality }

boundary_accepted : is_tautology boundary ≡ true
unfolding is_tautology
boundary_accepted = refl

constant_tests_iff_example :
    ((is_tautology boundary ≡ true) ↔ ((boundary.expr.terms ≡ []) × Holds env boundary))
    × ((is_contradiction boundary ≡ true) ↔ ((boundary.expr.terms ≡ []) × (¬ Holds env boundary)))
constant_tests_iff_example = constant_tests_iff env boundary

comparisons-Holds_example :
    ((Holds env (expr_le_num left (pos 4)) ↔ (eval env left ≤ℤ pos 4))
      × (Holds env (expr_le_var left 0) ↔ (eval env left ≤ℤ env 0))
      × (Holds env (var_le_num 0 (pos 4)) ↔ (env 0 ≤ℤ pos 4))
      × (Holds env (var_le_var 0 1) ↔ (env 0 ≤ℤ env 1))
      × (Holds env (var_le_expr 0 left) ↔ (env 0 ≤ℤ eval env left))
      × (Holds env (expr_le_expr left right) ↔ (eval env left ≤ℤ eval env right)))
    × ((Holds env (expr_ge_num left (pos 4)) ↔ (pos 4 ≤ℤ eval env left))
        × (Holds env (expr_ge_var left 0) ↔ (env 0 ≤ℤ eval env left))
        × (Holds env (var_ge_num 0 (pos 4)) ↔ (pos 4 ≤ℤ env 0))
        × (Holds env (var_ge_var 0 1) ↔ (env 1 ≤ℤ env 0))
        × (Holds env (var_ge_expr 0 left) ↔ (eval env left ≤ℤ env 0))
        × (Holds env (expr_ge_expr left right) ↔ (eval env right ≤ℤ eval env left)))
    × ((Holds env (expr_eq_num left (pos 4)) ↔ (eval env left ≡ pos 4))
        × (Holds env (expr_eq_var left 0) ↔ (eval env left ≡ env 0))
        × (Holds env (var_eq_num 0 (pos 4)) ↔ (env 0 ≡ pos 4))
        × (Holds env (var_eq_var 0 1) ↔ (env 0 ≡ env 1))
        × (Holds env (var_eq_expr 0 left) ↔ (eval env left ≡ env 0))
        × (Holds env (expr_eq_expr left right) ↔ (eval env left ≡ eval env right)))
    × ((Holds env (expr_ne_num left (pos 4)) ↔ (eval env left ≢ pos 4))
        × (Holds env (expr_ne_var left 0) ↔ (eval env left ≢ env 0))
        × (Holds env (var_ne_num 0 (pos 4)) ↔ (env 0 ≢ pos 4))
        × (Holds env (var_ne_var 0 1) ↔ (env 0 ≢ env 1))
        × (Holds env (var_ne_expr 0 left) ↔ (eval env left ≢ env 0))
        × (Holds env (expr_ne_expr left right) ↔ (eval env left ≢ eval env right)))
comparisons-Holds_example = comparisons-Holds env left right 0 1 (pos 4)
