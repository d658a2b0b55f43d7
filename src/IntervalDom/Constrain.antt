-- ===== src/IntervalDom/Constrain.antt =====
-- interval_dom.tpp: a live domain after `apply_linear_constraint` and `merge_with_linear_constraint_system`.
use knight.Prelude.{◌≡◌, refl, inl, inr, true, List, [], ◌∷◌, Bool-cases, All, Returns}
use knight.Num.{Gmp, Truncates}
use knight.Interval.{Interval}
use knight.Linear.{Var}
use knight.Linear.Meaning.{Env}
use knight.Linear.Constraint.{
  LinearConstraint, LinearConstraintSystem, is_contradiction, is_tautology,
}
use knight.Linear.Constraint.Holds.{Holds, constant_tests_iff}
use knight.Separate.{Dom}
use knight.IntervalDom.Solver.{
  IntervalSolver, empty_solver, push_constraint, add, add_all, add_system,
}
use knight.IntervalDom.Ops.{apply_linear_constraint, merge_with_linear_constraint_system}
use knight.IntervalDom.Live.{IsLive}
use knight.IntervalDom.Pivot.{IsProper}
use knight.IntervalDom.Loops.{Known}
use knight.IntervalDom.Triggers.{All-push}
use knight.IntervalDom.Run.{Solved, IsReady, run-Solved}

module _ (facts : Env → Type 0) where
  empty_solver-IsReady : IsReady facts empty_solver
  unfolding empty_solver
  empty_solver-IsReady = record { known = tt; untriggered = refl; contradicted = λ e env f. cc e }

  push-IsReady :
      (s : IntervalSolver) (c : LinearConstraint)
      → IsReady facts s
      → Known facts c
      → IsReady facts (push_constraint s c)
  unfolding push_constraint
  push-IsReady s c h k = record {
    known = All-push (Known facts) s.csts c h.known k;
    untriggered = h.untriggered;
    contradicted = h.contradicted;
  }

  contradicted-IsReady :
      (s : IntervalSolver) (c : LinearConstraint)
      → IsReady facts s
      → Known facts c
      → is_contradiction c ≡ true
      → IsReady facts (record s { contradiction_flag = true })
  contradicted-IsReady s c h k e = record {
    known = h.known;
    untriggered = h.untriggered;
    contradicted = λ _ env f. ((constant_tests_iff env c).1.0 e).1 (k.holds env f);
  }

  add-IsReady :
      (s : IntervalSolver) (c : LinearConstraint)
      → IsReady facts s
      → Known facts c
      → IsReady facts (add s c)
  unfolding add
  add-IsReady s c h k = elim (Bool-cases (is_contradiction c)) [
    | inl e ↦ rw e (contradicted-IsReady s c h k e)
    | inr e ↦ elim (Bool-cases (is_tautology c)) [
      | inl t ↦ rw (e, t) h
      | inr t ↦ rw (e, t) (push-IsReady s c h k)
    ]
  ]

  add_all-IsReady :
      (s : IntervalSolver) (cs : List LinearConstraint)
      → IsReady facts s
      → All (Known facts) cs
      → IsReady facts (add_all s cs)
  unfolding add_all
  add_all-IsReady s [] h k = h
  add_all-IsReady s (c ∷ cs) h (k, ks) = elim (Bool-cases (is_contradiction c)) [
    | inl e ↦ rw e (contradicted-IsReady s c h k e)
    | inr e ↦ elim (Bool-cases (is_tautology c)) [
      | inl t ↦ rw (e, t, add_all) (add_all-IsReady s cs h ks)
      | inr t ↦
          rw (e, t, add_all) (add_all-IsReady (push_constraint s c) cs (push-IsReady s c h k) ks)
    ]
  ]

-- Each constraint of a list, from the list as a fact.
All-Known :
    (facts : Env → Type 0) (cs : List LinearConstraint)
    → All IsProper cs
    → ((env : Env) → facts env → All (Holds env) cs)
    → All (Known facts) cs
All-Known facts [] p h = tt
All-Known facts (c ∷ cs) (p, ps) h = (
  record { proper = p; holds = λ env f. (h env f).0 },
  All-Known facts cs ps (λ env f. (h env f).1),
)

module _ {gmp : Gmp} (law : Truncates gmp) (order : List Var → List Var) where
  -- For a library that truncates quotients, any order of the loops over sets, a live domain and a
  -- constraint whose coefficients are not zero, and 1 or -1 in a disequation, `apply_linear_constraint`
  -- ends. The result is bottom or live, allows each environment of the domain that meets the constraint,
  -- and allows no new environment.
  pub apply_linear_constraint_sound :
      (d : Dom Interval) (c : LinearConstraint)
      → IsLive gmp d
      → IsProper c
      → Returns (Solved gmp (λ env. Holds env c) d) (apply_linear_constraint gmp order d c)
  unfolding apply_linear_constraint
  apply_linear_constraint_sound d c w p =
      run-Solved law order (λ env. Holds env c) (add empty_solver c) d
        (add-IsReady (λ env. Holds env c) empty_solver c (empty_solver-IsReady (λ env. Holds env c))
          (record { proper = p; holds = λ env h. h }))
        w

  -- The same of `merge_with_linear_constraint_system`, for the environments that meet all constraints of
  -- the system.
  pub merge_with_linear_constraint_system_sound :
      (d : Dom Interval) (csts : LinearConstraintSystem)
      → IsLive gmp d
      → All IsProper csts.csts
      → Returns
          (Solved gmp (λ env. All (Holds env) csts.csts) d)
          (merge_with_linear_constraint_system gmp order d csts)
  unfolding merge_with_linear_constraint_system add_system
  merge_with_linear_constraint_system_sound d csts w p =
      let facts : Env → Type 0 = λ env. All (Holds env) csts.csts in
      run-Solved law order facts (add_all empty_solver csts.csts) d
        (add_all-IsReady facts empty_solver csts.csts (empty_solver-IsReady facts)
          (All-Known facts csts.csts p (λ env h. h)))
        w
