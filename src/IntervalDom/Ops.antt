-- ===== src/IntervalDom/Ops.antt =====
-- interval_dom.tpp and numerical_base.hpp: the members of `IntervalDom` that use linear constraints, and the
-- constraints of a comparison.
--
-- `knight_unreachable` and failed assertions give `none`.
use knight.Prelude.{not, ◌&&◌, Option, none, some, List, [], ◌∷◌, if◌then◌else◌, ◌>>=◌}
use knight.Prelude.Int.{pos, ◌+ℤ◌, ◌-ℤ◌, eqb_ℤ}
use knight.Num.{ZNum, Gmp}
use knight.Bound.{get_num_opt}
use knight.Interval.{Interval, is_bottom, true_val, false_val, unknown_bool}
use knight.Linear.{Var, LinearExpr, expr_of_var}
use knight.Linear.Build.{var_minus_num, var_plus_num}
use knight.Linear.Constraint.{
  LinearConstraint, LinearConstraintSystem, contradiction, negate, add_linear_constraint,
  merge_linear_constraint_system,
}
use knight.Linear.Constraint.Relations.{
  var_eq_num, var_ne_num, var_le_num, var_ge_num, var_eq_var, var_ne_var, var_le_var, var_ge_var,
  var_le_expr, var_ge_expr, expr_eq_num, expr_ge_num, expr_le_num,
}
use knight.Separate.{Dom, set_value}
use knight.Separate.Transfer.{
  BinaryOp, assign_binary_var_var_for_non_assign_rel_op,
  assign_binary_var_num_for_non_assign_rel_op,
}
use knight.Separate.OfIntervals.{interval_values}
use knight.IntervalDom.Solver.{empty_solver, add, add_system, run}

-- The kinds of `clang::BinaryOperatorKind` that are comparisons.
pub data ComparisonOp : Type 0 where
  bo_eq bo_ne bo_lt bo_gt bo_le bo_ge bo_cmp : ComparisonOp

-- All kinds, as `isAssignmentOp` and `isComparisonOp` tell them apart.
pub data BinaryOperatorKind : Type 0 where
  comparison : ComparisonOp → BinaryOperatorKind
  assignment : BinaryOperatorKind
  arithmetic : BinaryOp → BinaryOperatorKind

unfoldable pub construct_constraint_num : ComparisonOp → Var → ZNum → Option LinearConstraint
unfolding var_eq_num var_ne_num var_le_num var_ge_num
construct_constraint_num bo_eq lhs rhs = some (var_eq_num lhs rhs)
construct_constraint_num bo_ne lhs rhs = some (var_ne_num lhs rhs)
construct_constraint_num bo_lt lhs rhs = some (var_le_num lhs (rhs -ℤ pos 1))
construct_constraint_num bo_gt lhs rhs = some (var_ge_num lhs (rhs +ℤ pos 1))
construct_constraint_num bo_le lhs rhs = some (var_le_num lhs rhs)
construct_constraint_num bo_ge lhs rhs = some (var_ge_num lhs rhs)
construct_constraint_num bo_cmp lhs rhs = none

unfoldable pub construct_constraint_var : ComparisonOp → Var → Var → Option LinearConstraint
unfolding var_eq_var var_ne_var var_le_var var_ge_var var_le_expr var_ge_expr var_minus_num
    var_plus_num
construct_constraint_var bo_eq lhs rhs = some (var_eq_var lhs rhs)
construct_constraint_var bo_ne lhs rhs = some (var_ne_var lhs rhs)
construct_constraint_var bo_lt lhs rhs = some (var_le_expr lhs (var_minus_num rhs (pos 1)))
construct_constraint_var bo_gt lhs rhs = some (var_ge_expr lhs (var_plus_num rhs (pos 1)))
construct_constraint_var bo_le lhs rhs = some (var_le_var lhs rhs)
construct_constraint_var bo_ge lhs rhs = some (var_ge_var lhs rhs)
construct_constraint_var bo_cmp lhs rhs = none

unfoldable pub within_interval : LinearExpr → Interval → LinearConstraintSystem
unfolding is_bottom contradiction add_linear_constraint expr_eq_num expr_ge_num expr_le_num
    get_num_opt
within_interval expr itv =
    let empty : LinearConstraintSystem = record { csts = [] } in
    let below : LinearConstraintSystem → LinearConstraintSystem = λ csts.
      elim (get_num_opt itv.ub) [
        | none ↦ csts
        | some ub ↦ add_linear_constraint csts (expr_le_num expr ub)
      ] in
    if is_bottom itv
    then add_linear_constraint empty contradiction
    else (elim (get_num_opt itv.lb) [
      | none ↦ below empty
      | some lb ↦
          let above = below (add_linear_constraint empty (expr_ge_num expr lb)) in
          elim (get_num_opt itv.ub) [
            | none ↦ above
            | some ub ↦
                if eqb_ℤ lb ub then add_linear_constraint empty (expr_eq_num expr ub) else above
          ]
    ])

-- The loop of `to_linear_constraint_system` over the table.
unfoldable pub table_constraints :
    LinearConstraintSystem → List (Var × Interval) → LinearConstraintSystem
unfolding merge_linear_constraint_system within_interval expr_of_var
table_constraints csts [] = csts
table_constraints csts ((x, itv) ∷ table) =
    table_constraints (merge_linear_constraint_system csts (within_interval (expr_of_var x) itv))
      table

unfoldable pub to_linear_constraint_system : Dom Interval → LinearConstraintSystem
unfolding table_constraints contradiction
to_linear_constraint_system d =
    if d.bottom_flag
    then record { csts = contradiction ∷ [] }
    else table_constraints (record { csts = [] }) d.table

module _ (gmp : Gmp) (order : List Var → List Var) where
  unfoldable pub apply_linear_constraint : Dom Interval → LinearConstraint → Option (Dom Interval)
  unfolding empty_solver add run
  apply_linear_constraint d c = run gmp order (add empty_solver c) d

  unfoldable pub merge_with_linear_constraint_system :
      Dom Interval → LinearConstraintSystem → Option (Dom Interval)
  unfolding empty_solver add_system run
  merge_with_linear_constraint_system d csts = run gmp order (add_system empty_solver csts) d

  unfoldable pub assume_predicate_var_num :
      Dom Interval → ComparisonOp → Var → ZNum → Option (Dom Interval)
  unfolding construct_constraint_num apply_linear_constraint
  assume_predicate_var_num d op x y = do
    cstr ← construct_constraint_num op x y
    apply_linear_constraint d cstr

  unfoldable pub assume_predicate_var_var :
      Dom Interval → ComparisonOp → Var → Var → Option (Dom Interval)
  unfolding construct_constraint_var apply_linear_constraint
  assume_predicate_var_var d op x y = do
    cstr ← construct_constraint_var op x y
    apply_linear_constraint d cstr

  unfoldable pub assign_binary_var_var :
      Dom Interval → BinaryOperatorKind → Var → Var → Var → Option (Dom Interval)
  unfolding construct_constraint_var apply_linear_constraint negate set_value true_val false_val
      unknown_bool assign_binary_var_var_for_non_assign_rel_op
  assign_binary_var_var d assignment x y z = none
  assign_binary_var_var d (comparison op) x y z = do
    cstr ← construct_constraint_var op y z
    dom_pos ← apply_linear_constraint d cstr
    dom_neg ← apply_linear_constraint d (negate cstr)
    some (
        set_value (interval_values gmp) d x (
          if dom_pos.bottom_flag && not dom_neg.bottom_flag
          then true_val
          else (if not dom_pos.bottom_flag && dom_neg.bottom_flag
              then false_val
              else unknown_bool)))
  assign_binary_var_var d (arithmetic op) x y z =
      assign_binary_var_var_for_non_assign_rel_op (interval_values gmp) d op x y z

  unfoldable pub assign_binary_var_num :
      Dom Interval → BinaryOperatorKind → Var → Var → ZNum → Option (Dom Interval)
  unfolding construct_constraint_num apply_linear_constraint negate set_value true_val false_val
      unknown_bool assign_binary_var_num_for_non_assign_rel_op
  assign_binary_var_num d assignment x y z = none
  assign_binary_var_num d (comparison op) x y z = do
    cstr ← construct_constraint_num op y z
    dom_pos ← apply_linear_constraint d cstr
    dom_neg ← apply_linear_constraint d (negate cstr)
    some (
        set_value (interval_values gmp) d x (
          if dom_pos.bottom_flag && not dom_neg.bottom_flag
          then false_val
          else (if not dom_pos.bottom_flag && dom_neg.bottom_flag then true_val else unknown_bool)))
  assign_binary_var_num d (arithmetic op) x y z =
      assign_binary_var_num_for_non_assign_rel_op (interval_values gmp) d op x y z
