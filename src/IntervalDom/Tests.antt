-- ===== src/IntervalDom/Tests.antt =====
-- The theorems on the interval domain and its solver at a domain of one variable.
use knight.Prelude.{
  ◌≡◌, ◌≢◌, refl, ap, ◌↔◌, inl, inr, true, false, List, [], ◌∷◌, ◌==◌, Bool-cases, Returns, All,
}
use knight.Prelude.Int.{pos, negsuc}
use knight.Num.{Gmp, Truncates, trunc}
use knight.Interval.{Interval, contains, is_bottom, top}
use knight.Interval.Members.{IsValid}
use knight.Interval.Ops.{divide}
use knight.Interval.Divide.{Divides}
use knight.Interval.Division.{divide_sound}
use knight.Bound.Sides.{IsLower, IsUpper}
use knight.Linear.{Var, minus_num, expr_of_var}
use knight.Linear.Build.{var_minus_num}
use knight.Linear.Meaning.{Env}
use knight.Linear.Constraint.{LinearConstraint, LinearConstraintSystem}
use knight.Linear.Constraint.Holds.{Holds}
use knight.Linear.Constraint.Relations.{var_le_num}
use knight.Separate.{Dom, get_value, meet_value}
use knight.Separate.Lookup.{none-some}
use knight.Separate.Concrete.{IsWellFormed, entry_value, Describes}
use knight.Separate.MeetValue.{meet_value-Describes}
use knight.Separate.OfIntervals.{interval_values, interval_laws}
use knight.IntervalDom.Solver.{to_interval}
use knight.IntervalDom.Ops.{
  bo_lt, bo_cmp, comparison, assume_predicate_var_num, assign_binary_var_num,
  apply_linear_constraint, merge_with_linear_constraint_system,
}
use knight.IntervalDom.Live.{Allows, IsLive}
use knight.IntervalDom.Pivot.{IsProper}
use knight.IntervalDom.Run.{Solved}
use knight.IntervalDom.Constrain.{
  apply_linear_constraint_sound, merge_with_linear_constraint_system_sound,
}
use knight.IntervalDom.Compare.{
  compares, IsProper-single, IsSingle-of, assume_predicate_var_num_sound,
}
use knight.IntervalDom.Assign.{Assigned, assign_binary_var_num_sound}

-- A library that truncates quotients; the other operations are not used.
abbrev gmp : Gmp
gmp = record {
  tdiv_q = trunc;
  tdiv_r = λ a b. a;
  mpz_mod = λ a b. a;
  mpz_and = λ a b. pos 0;
  mpz_ior = λ a b. a;
  mpz_xor = λ a b. a;
  mul_2exp = λ a n. a;
  fdiv_q_2exp = λ a n. a;
}

gmp-Truncates : Truncates gmp
gmp-Truncates = record { tdiv_q_law = λ n d h. refl }

abbrev one_to_five : Interval
one_to_five = record {
  lb = record { is_inf = false; val = pos 1 };
  ub = record { is_inf = false; val = pos 5 };
}

abbrev minus_two_to_three : Interval
minus_two_to_three = record {
  lb = record { is_inf = false; val = negsuc 1 };
  ub = record { is_inf = false; val = pos 3 };
}

one_to_five-IsValid : IsValid one_to_five
one_to_five-IsValid = record { lower = IsLower.fin (pos 1); upper = IsUpper.fin (pos 5) }

minus_two_to_three-IsValid : IsValid minus_two_to_three
minus_two_to_three-IsValid = record { lower = IsLower.fin (negsuc 1); upper = IsUpper.fin (pos 3) }

-- `{x0: [1, 5]}`, and every variable at 4.
abbrev small : Dom Interval
small = record { table = (0, one_to_five) ∷ []; bottom_flag = false }

abbrev fours : Env
fours x = pos 4

same_order : List Var → List Var
same_order xs = xs

small-IsWellFormed : IsWellFormed (interval_laws gmp) small.table
unfolding interval_laws
small-IsWellFormed = record {
  map = (refl, tt);
  good = λ k v h. elim (Bool-cases (0 == k)) [
    | inl s ↦ rw (← ap (entry_value (interval_laws gmp)) (rw s at h)) one_to_five-IsValid
    | inr s ↦ absurd (none-some v (rw s at h))
  ];
}

small-IsLive : IsLive gmp small
unfolding to_interval get_value interval_laws interval_values top is_bottom
small-IsLive = record {
  alive = refl;
  formed = small-IsWellFormed;
  full = λ k. elim (Bool-cases (0 == k)) [ inl s ↦ rw s refl | inr s ↦ rw s refl ];
}

small-Allows : Allows gmp small fours
unfolding Allows get_value interval_laws interval_values contains top
small-Allows k = elim (Bool-cases (0 == k)) [ inl s ↦ rw s refl | inr s ↦ rw s refl ]

-- `x0 <= 3`.
abbrev at_most_three : LinearConstraint
at_most_three = var_le_num 0 (pos 3)

at_most_three-IsProper : IsProper at_most_three
unfolding var_le_num var_minus_num minus_num expr_of_var
at_most_three-IsProper =
    IsProper-single at_most_three (IsSingle-of at_most_three 0 (pos 1) refl (inl refl))

minus_two-good : (interval_laws gmp).IsGood minus_two_to_three
unfolding interval_laws
minus_two-good = minus_two_to_three-IsValid

divide_sound_example :
    Returns
      (Divides minus_two_to_three minus_two_to_three)
      (divide gmp minus_two_to_three minus_two_to_three)
divide_sound_example =
    divide_sound gmp-Truncates minus_two_to_three-IsValid minus_two_to_three-IsValid

meet_value-Describes_example :
    IsWellFormed
      (interval_laws gmp)
      (meet_value (interval_values gmp) small 0 minus_two_to_three).table
    × ((env : Env)
        → Describes
            (interval_laws gmp)
            (meet_value (interval_values gmp) small 0 minus_two_to_three)
            env
          ↔ (Describes (interval_laws gmp) small env
              × (interval_laws gmp).Has minus_two_to_three (env 0)))
meet_value-Describes_example =
    meet_value-Describes (interval_laws gmp) small 0 minus_two_to_three small-IsWellFormed
      minus_two-good

apply_linear_constraint_sound_example :
    Returns
      (Solved gmp (λ env. Holds env at_most_three) small)
      (apply_linear_constraint gmp same_order small at_most_three)
apply_linear_constraint_sound_example =
    apply_linear_constraint_sound gmp-Truncates same_order small at_most_three small-IsLive
      at_most_three-IsProper

abbrev two_constraints : LinearConstraintSystem
two_constraints = record { csts = at_most_three ∷ at_most_three ∷ [] }

merge_with_linear_constraint_system_sound_example :
    Returns
      (Solved gmp (λ env. All (Holds env) two_constraints.csts) small)
      (merge_with_linear_constraint_system gmp same_order small two_constraints)
merge_with_linear_constraint_system_sound_example =
    merge_with_linear_constraint_system_sound gmp-Truncates same_order small two_constraints
      small-IsLive (at_most_three-IsProper, (at_most_three-IsProper, tt))

lt-ne-cmp : bo_lt ≢ bo_cmp
lt-ne-cmp e = cc (e)

assume_predicate_var_num_sound_example :
    Returns
      (Solved gmp (λ env. compares bo_lt (env 0) (pos 3) ≡ true) small)
      (assume_predicate_var_num gmp same_order small bo_lt 0 (pos 3))
assume_predicate_var_num_sound_example =
    assume_predicate_var_num_sound gmp-Truncates same_order small small-IsLive bo_lt 0 (pos 3)
      lt-ne-cmp

assign_binary_var_num_sound_example :
    Returns
      (Assigned gmp-Truncates same_order small small-IsLive 1
        (compares bo_lt (fours 0) (pos 9))
        fours)
      (assign_binary_var_num gmp same_order small (comparison bo_lt) 1 0 (pos 9))
assign_binary_var_num_sound_example =
    assign_binary_var_num_sound gmp-Truncates same_order small small-IsLive bo_lt 1 0 (pos 9) fours
      lt-ne-cmp small-Allows
