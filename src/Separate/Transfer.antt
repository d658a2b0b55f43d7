-- ===== src/Separate/Transfer.antt =====
-- separate_numerical_domain.hpp: the assignments of `SeparateNumericalDom`.
use knight.Prelude.{Option, none, some, [], ◌∷◌, if◌then◌else◌, ◌>>=◌}
use knight.Num.{ZNum}
use knight.Linear.{Var, Terms, LinearExpr}
use knight.Separate.{Values, Dom, get_value, set_value}

-- The kinds of `clang::BinaryOperatorKind` that `compute_binary` has a case for, and the rest.
pub data BinaryOp : Type 0 where
  bo_add bo_sub bo_mul bo_div bo_rem bo_shl bo_shr bo_and bo_or bo_xor bo_other : BinaryOp

module _ {V : Type 0} (ops : Values V) where
  unfoldable pub project_terms : Dom V → V → Terms → Option V
  unfolding get_value
  project_terms d val [] = some val
  project_terms d val ((x, coeff) ∷ rest) = (do
    product ← ops.mul_val (ops.of_num coeff) (get_value ops d x)
    sum ← ops.add_assign_val val product
    project_terms d sum rest)

  unfoldable pub project : Dom V → LinearExpr → Option V
  unfolding project_terms
  project d e =
      if d.bottom_flag then some ops.bottom_val else project_terms d (ops.of_num e.constant) e.terms

  unfoldable pub assign_num : Dom V → Var → ZNum → Dom V
  unfolding set_value
  assign_num d x n = set_value ops d x (ops.of_num n)

  unfoldable pub assign_var : Dom V → Var → Var → Dom V
  unfolding set_value get_value
  assign_var d x y = set_value ops d x (get_value ops d y)

  unfoldable pub assign_linear_expr : Dom V → Var → LinearExpr → Option (Dom V)
  unfolding set_value project
  assign_linear_expr d x e = (do v ← project d e; some (set_value ops d x v))

  unfoldable pub compute_binary : BinaryOp → V → V → Option V
  compute_binary bo_add y z = ops.add_val y z
  compute_binary bo_sub y z = ops.sub_val y z
  compute_binary bo_mul y z = ops.mul_val y z
  compute_binary bo_div y z = ops.div_val y z
  compute_binary bo_rem y z = ops.rem_val y z
  compute_binary bo_shl y z = ops.shl_val y z
  compute_binary bo_shr y z = ops.shr_val y z
  compute_binary bo_and y z = ops.and_val y z
  compute_binary bo_or y z = ops.or_val y z
  compute_binary bo_xor y z = ops.xor_val y z
  compute_binary bo_other y z = none

  unfoldable pub assign_binary_var_var_for_non_assign_rel_op :
      Dom V → BinaryOp → Var → Var → Var → Option (Dom V)
  unfolding set_value get_value compute_binary
  assign_binary_var_var_for_non_assign_rel_op d op x y z = (do
    v ← compute_binary op (get_value ops d y) (get_value ops d z)
    some (set_value ops d x v))

  unfoldable pub assign_binary_var_num_for_non_assign_rel_op :
      Dom V → BinaryOp → Var → Var → ZNum → Option (Dom V)
  unfolding set_value get_value compute_binary
  assign_binary_var_num_for_non_assign_rel_op d op x y z = (do
    v ← compute_binary op (get_value ops d y) (ops.of_num z)
    some (set_value ops d x v))
