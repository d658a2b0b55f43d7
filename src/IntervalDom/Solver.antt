-- ===== src/IntervalDom/Solver.antt =====
-- analyzer/include/analyzer/core/domain/numerical/interval_dom.tpp: the class `IntervalSolver`, which
-- narrows the intervals of the variables by linear constraints.
--
-- `order` is the order in which a loop over an `llvm::DenseSet` meets the members. The counters of
-- accesses count work that is done, so `op_cnt` does not wrap; the sum and the product that bound them
-- do.
use knight.Prelude.{
  ℕ, zero, suc, ◌+◌, ◌*◌, ◌%◌, ◌^◌, Bool, true, false, not, ◌&&◌, ◌||◌, Option, none, some, List,
  [], ◌∷◌, ◌++◌, if◌then◌else◌, any, length, ◌==◌, ltb, leb, ◌>>=◌,
}
use knight.Prelude.Int.{pos, leb_ℤ}
use knight.Prelude.Assoc.{find, put}
use knight.Num.{ZNum, Gmp}
use knight.Bound.{finite, pinf, ninf}
use knight.Interval
use knight.Interval.{
  Interval, construct, singleton, is_bottom, get_singleton_opt, minus_assign, trim_bound,
}
use knight.Interval.Ops.{times, divide}
use knight.Linear.{Var, Terms, num_variable_terms}
use knight.Linear.Constraint.{
  LinearConstraint, LinearConstraintSystem, is_contradiction, is_tautology, is_equality,
  is_inequality, get_constant_term,
}
use knight.Separate.{Dom, get_value, meet_value, set_to_bottom}
use knight.Separate.OfIntervals.{interval_values}

-- `MaxCycles`, `LargeSystemCstThreshold` and `LargeSystemOpThreshold`.
abbrev pub max_cycles : ℕ
max_cycles = 10

abbrev pub large_system_cst_threshold : ℕ
large_system_cst_threshold = 3

abbrev pub large_system_op_threshold : ℕ
large_system_op_threshold = 27

abbrev pub TriggerTable : Type 0
TriggerTable = List (Var × List LinearConstraint)

pub record IntervalSolver : Type 0 where
  pub refined_vars : List Var
  pub csts : List LinearConstraint
  pub trigger_table : TriggerTable
  pub op_cnt : ℕ
  pub op_per_cycle : ℕ
  pub max_op : ℕ
  pub contradiction_flag : Bool
  pub large_system_flag : Bool

unfoldable pub empty_solver : IntervalSolver
empty_solver = record {
  refined_vars = [];
  csts = [];
  trigger_table = [];
  op_cnt = 0;
  op_per_cycle = 0;
  max_op = 0;
  contradiction_flag = false;
  large_system_flag = false;
}

-- What the members that narrow return, with the solver and the domain after the call.
pub record Step : Type 0 where
  pub stop : Bool
  pub solver : IntervalSolver
  pub dom : Dom Interval

-- `push_back` and the cost of one step.
unfoldable pub push_constraint : IntervalSolver → LinearConstraint → IntervalSolver
unfolding num_variable_terms
push_constraint s c = record s {
  csts = s.csts ++ c ∷ [];
  op_per_cycle = (s.op_per_cycle + num_variable_terms c.expr * num_variable_terms c.expr) % 2 ^ 64;
}

unfoldable pub add : IntervalSolver → LinearConstraint → IntervalSolver
unfolding is_contradiction is_tautology push_constraint
add s c =
    if is_contradiction c
    then record s { contradiction_flag = true }
    else (if is_tautology c then s else push_constraint s c)

-- `add` of a system: the loop ends at a contradiction.
unfoldable pub add_all : IntervalSolver → List LinearConstraint → IntervalSolver
unfolding is_contradiction is_tautology push_constraint
add_all s [] = s
add_all s (c ∷ cs) =
    let pushed = add_all (push_constraint s c) cs in
    let skipped = add_all s cs in
    if is_contradiction c
    then record s { contradiction_flag = true }
    else (if is_tautology c then skipped else pushed)

unfoldable pub add_system : IntervalSolver → LinearConstraintSystem → IntervalSolver
unfolding add_all
add_system s system = add_all s system.csts

-- `m_refined_vars.insert`.
unfoldable pub insert_var : List Var → Var → List Var
insert_var xs x = if any (λ y. y == x) xs then xs else x ∷ xs

module _ (gmp : Gmp) where
  unfoldable pub to_interval : Dom Interval → Var → Interval
  unfolding get_value
  to_interval d x = get_value (interval_values gmp) d x

  unfoldable pub refine_to_numerical : Var → Interval → IntervalSolver → Dom Interval → Step
  unfolding to_interval meet_value insert_var is_bottom
  refine_to_numerical x itv s d =
      let old_itv = to_interval d x in
      let new_itv = Interval.meet_with old_itv itv in
      if is_bottom new_itv
      then record { stop = true; solver = s; dom = d }
      else (if not (Interval.equals old_itv new_itv)
          then record {
            stop = false;
            solver = record s { refined_vars = insert_var s.refined_vars x; op_cnt = suc s.op_cnt };
            dom = meet_value (interval_values gmp) d x new_itv;
          }
          else record { stop = false; solver = s; dom = d })

  -- The loop of `compute_residual` over the terms.
  unfoldable pub subtract_terms :
      Var → Dom Interval → Interval → IntervalSolver → Terms → Option (Interval × IntervalSolver)
  unfolding to_interval times minus_assign singleton
  subtract_terms pivot d residual s [] = some (residual, s)
  subtract_terms pivot d residual s ((x, coeff) ∷ rest) = elim (x == pivot) [
    | true ↦ subtract_terms pivot d residual s rest
    | false ↦ (do
      product ← times (singleton coeff) (to_interval d x)
      difference ← minus_assign residual product
      subtract_terms pivot d difference (record s { op_cnt = suc s.op_cnt }) rest)
  ]

  unfoldable pub compute_residual :
      LinearConstraint → Var → IntervalSolver → Dom Interval → Option (Interval × IntervalSolver)
  unfolding subtract_terms singleton get_constant_term
  compute_residual c pivot s d =
      subtract_terms pivot d (singleton (get_constant_term c)) s c.expr.terms

  -- The end of the body of `propagate`'s loop, for a disequation and a single value `k` of the right side.
  unfoldable pub trim_pivot : Var → ZNum → IntervalSolver → Dom Interval → Option Step
  unfolding to_interval trim_bound finite is_bottom meet_value insert_var
  trim_pivot pivot k s d = do
    let old_itv = to_interval d pivot
    new_itv ← trim_bound old_itv (finite k)
    let refined : Step =
        if not (Interval.equals old_itv new_itv)
        then record {
          stop = false;
          solver = record s {
            refined_vars = insert_var s.refined_vars pivot;
            op_cnt = suc s.op_cnt;
          };
          dom = meet_value (interval_values gmp) d pivot new_itv;
        }
        else record { stop = false; solver = record s { op_cnt = suc s.op_cnt }; dom = d }
    some (if is_bottom new_itv then record { stop = true; solver = s; dom = d } else refined)

  -- The part of the loop's body that depends on the kind of the constraint: `none` for a disequation.
  unfoldable pub refine_pivot :
      LinearConstraint → Var → ZNum → Interval → IntervalSolver → Dom Interval → Option Step
  unfolding refine_to_numerical construct pinf ninf
  refine_pivot c pivot coeff rhs s d =
      if is_equality c
      then some (refine_to_numerical pivot rhs s d)
      else (if not (leb_ℤ coeff (pos 0))
          then (do itv ← construct ninf rhs.ub; some (refine_to_numerical pivot itv s d))
          else (do itv ← construct rhs.lb pinf; some (refine_to_numerical pivot itv s d)))

  -- The loop of `propagate`.
  unfoldable pub propagate_terms :
      LinearConstraint → Terms → IntervalSolver → Dom Interval → Option Step
  unfolding compute_residual divide singleton is_equality is_inequality refine_pivot
      get_singleton_opt trim_pivot
  propagate_terms c [] s d = some (record { stop = false; solver = s; dom = d })
  propagate_terms c ((pivot, coeff) ∷ rest) s d = do
    residual ← compute_residual c pivot s d
    rhs ← divide gmp residual.0 (singleton coeff)
    elim (is_equality c || is_inequality c) [
      | true ↦ refine_pivot c pivot coeff rhs residual.1 d
      | false ↦ elim (get_singleton_opt rhs) [
        | none ↦ propagate_terms c rest residual.1 d
        | some k ↦ (do
          step ← trim_pivot pivot k residual.1 d
          elim step.stop [ true ↦ some step | false ↦ propagate_terms c rest step.solver step.dom ])
      ]
    ]

  unfoldable pub propagate : LinearConstraint → IntervalSolver → Dom Interval → Option Step
  unfolding propagate_terms
  propagate c s d = propagate_terms c c.expr.terms s d

  -- A loop over constraints that propagates each.
  unfoldable pub propagate_all : List LinearConstraint → IntervalSolver → Dom Interval → Option Step
  unfolding propagate
  propagate_all [] s d = some (record { stop = false; solver = s; dom = d })
  propagate_all (c ∷ cs) s d = do
    step ← propagate c s d
    elim step.stop [ true ↦ some step | false ↦ propagate_all cs step.solver step.dom ]

-- `m_trigger_table[var]`.
unfoldable pub triggered : TriggerTable → Var → List LinearConstraint
triggered table x = elim (find x table) [ none ↦ [] | some cs ↦ cs ]

-- The inner loop of `build_trigger_table`.
unfoldable pub trigger_terms : TriggerTable → LinearConstraint → Terms → TriggerTable
unfolding triggered
trigger_terms table c [] = table
trigger_terms table c ((x, coeff) ∷ rest) =
    trigger_terms (put x (triggered table x ++ c ∷ []) table) c rest

unfoldable pub trigger_csts : TriggerTable → List LinearConstraint → TriggerTable
unfolding trigger_terms
trigger_csts table [] = table
trigger_csts table (c ∷ cs) = trigger_csts (trigger_terms table c c.expr.terms) cs

unfoldable pub build_trigger_table : IntervalSolver → IntervalSolver
unfolding trigger_csts
build_trigger_table s = record s { trigger_table = trigger_csts s.trigger_table s.csts }

-- The condition of the loop of `solve_large_system`.
unfoldable pub is_unsettled : IntervalSolver → Bool
is_unsettled s = not (length s.refined_vars == 0) && leb s.op_cnt s.max_op

module _ (gmp : Gmp) (order : List Var → List Var) where
  -- The loop of `solve_large_system` over the variables to process.
  unfoldable pub process_vars : List Var → IntervalSolver → Dom Interval → Option Step
  unfolding propagate_all triggered
  process_vars [] s d = some (record { stop = false; solver = s; dom = d })
  process_vars (x ∷ xs) s d = do
    step ← propagate_all gmp (triggered s.trigger_table x) s d
    elim step.stop [ true ↦ some step | false ↦ process_vars xs step.solver step.dom ]

  -- The do-while loop of `solve_large_system`.
  unfoldable pub large_cycles : ℕ → IntervalSolver → Dom Interval → Option Step
  unfolding process_vars is_unsettled
  large_cycles zero s d = none
  large_cycles (suc fuel) s d = do
    step ← process_vars (order s.refined_vars) (record s { refined_vars = [] }) d
    elim (step.stop || not (is_unsettled step.solver)) [
      | true ↦ some step
      | false ↦ large_cycles fuel step.solver step.dom
    ]

  unfoldable pub solve_large_system : IntervalSolver → Dom Interval → Option Step
  unfolding propagate_all large_cycles
  solve_large_system s d = do
    step ← propagate_all gmp s.csts (record s { op_cnt = 0; refined_vars = [] }) d
    elim step.stop [
      | true ↦ some step
      | false ↦ large_cycles (suc step.solver.max_op) step.solver step.dom
    ]

module _ (gmp : Gmp) where
  -- The do-while loop of `solve_small_system`: another cycle follows while `cycle <= MaxCycles`, so the
  -- fuel is the number of cycles left.
  unfoldable pub small_cycles : ℕ → ℕ → IntervalSolver → Dom Interval → Option Step
  unfolding propagate_all
  small_cycles zero cycle s d = none
  small_cycles (suc fuel) cycle s d = do
    step ← propagate_all gmp s.csts (record s { refined_vars = [] }) d
    elim (step.stop || length step.solver.refined_vars == 0 || not (leb (suc cycle) max_cycles)) [
      | true ↦ some step
      | false ↦ small_cycles fuel (suc cycle) step.solver step.dom
    ]

  unfoldable pub solve_small_system : IntervalSolver → Dom Interval → Option Step
  unfolding small_cycles
  solve_small_system s d = small_cycles (suc max_cycles) 0 s d

  unfoldable pub is_large : IntervalSolver → Bool
  is_large s =
      ltb large_system_cst_threshold (length s.csts) || ltb large_system_op_threshold s.op_per_cycle

  unfoldable pub run : (List Var → List Var) → IntervalSolver → Dom Interval → Option (Dom Interval)
  unfolding set_to_bottom solve_large_system solve_small_system build_trigger_table is_large
  run order s d =
      let ready = record s {
        max_op = (s.op_per_cycle * max_cycles) % 2 ^ 64;
        large_system_flag = is_large s;
      } in
      let solved : Option Step = elim (is_large s) [
        | true ↦ solve_large_system gmp order (build_trigger_table ready) d
        | false ↦ solve_small_system ready d
      ] in
      if s.contradiction_flag
      then some (set_to_bottom d)
      else (if length s.csts == 0
          then some d
          else (do step ← solved; some (if step.stop then set_to_bottom step.dom else step.dom)))
