-- ===== src/IntervalDom/Run.antt =====
-- interval_dom.tpp: `run` of the solver, and the members that add constraints to it.
use knight.Prelude.{
  ◌≡◌, refl, sym, subst, ◌⊎◌, inl, inr, Bool, true, false, ◌*◌, ◌%◌, ◌^◌, List, [], Option, some,
  Bool-cases, All, length, ◌==◌, if◌then◌else◌, Returns, Returns-bind, Returns-imp, ◌>>=◌,
}
use knight.Num.{Gmp, Truncates}
use knight.Interval.{Interval}
use knight.Linear.{Var}
use knight.Linear.Meaning.{Env}
use knight.Linear.Constraint.{LinearConstraint}
use knight.Separate.{Dom, set_to_bottom}
use knight.IntervalDom.Solver.{
  IntervalSolver, Step, build_trigger_table, max_cycles, solve_large_system, solve_small_system,
  is_large, run, triggered,
}
use knight.IntervalDom.Live.{Allows, IsLive, bottom-Allows}
use knight.IntervalDom.Narrow.{Solves}
use knight.IntervalDom.Loops.{Known, solve_small_system-Solves}
use knight.IntervalDom.Triggers.{AllTriggered, trigger_csts-All, solve_large_system-Solves}

-- The result `r` of solving on `d`: it keeps the environments that meet the facts and has no new one. It
-- is bottom or live.
pub record Solved (gmp : Gmp) (facts : Env → Type 0) (d r : Dom Interval) : Type 0 where
  pub shape : (r.bottom_flag ≡ true) ⊎ IsLive gmp r
  pub keeps : (env : Env) → Allows gmp d env → facts env → Allows gmp r env
  pub only : (env : Env) → Allows gmp r env → Allows gmp d env

-- The constraints added to the solver are known, and a contradiction among them is a false fact.
pub record IsReady (facts : Env → Type 0) (s : IntervalSolver) : Type 0 where
  pub known : All (Known facts) s.csts
  pub untriggered : s.trigger_table ≡ []
  pub contradicted : s.contradiction_flag ≡ true → (env : Env) → ¬ facts env

bottomed-flag : (d : Dom Interval) → (set_to_bottom d).bottom_flag ≡ true
unfolding set_to_bottom
bottomed-flag d = refl

module _ {gmp : Gmp} (facts : Env → Type 0) (d : Dom Interval) where
  Solved-bottom :
      (e : Dom Interval)
      → ((env : Env) → Allows gmp d env → ¬ facts env)
      → Solved gmp facts d (set_to_bottom e)
  Solved-bottom e h = record {
    shape = inl (bottomed-flag e);
    keeps = λ env a f. absurd (h env a f);
    only = λ env a. absurd (bottom-Allows gmp (set_to_bottom e) env (bottomed-flag e) a);
  }

  Solved-same : IsLive gmp d → Solved gmp facts d d
  Solved-same w = record { shape = inr w; keeps = λ env a f. a; only = λ env a. a }

  -- The end of `run`.
  Solved-of_step :
      (s : IntervalSolver) (q : Step)
      → Solves gmp facts s d q
      → Solved gmp facts d (if q.stop then set_to_bottom q.dom else q.dom)
  Solved-of_step s q b = elim (Bool-cases q.stop) [
    | inl e ↦ rw e (Solved-bottom q.dom (λ env a f. cc (e, (b.sound env a f).0)))
    | inr e ↦
        rw e
          (record { shape = inr (b.live e); keeps = λ env a f. (b.sound env a f).1; only = b.only })
  ]

no_triggers : (P : LinearConstraint → Type 0) → AllTriggered P []
unfolding AllTriggered triggered
no_triggers P x = tt

module _ {gmp : Gmp} (law : Truncates gmp) (order : List Var → List Var)
    (facts : Env → Type 0) where
  -- The solver as `run` leaves it for the loops.
  abbrev ready : IntervalSolver → IntervalSolver
  ready s = record s {
    max_op = (s.op_per_cycle * max_cycles) % 2 ^ 64;
    large_system_flag = is_large gmp s;
  }

  abbrev solved : Bool → IntervalSolver → Dom Interval → Option Step
  solved large s d = elim large [
    | true ↦ solve_large_system gmp order (build_trigger_table (ready s)) d
    | false ↦ solve_small_system gmp (ready s) d
  ]

  abbrev finish : Bool → Bool → Option Step → Dom Interval → Option (Dom Interval)
  finish contradicted empty step d =
      if contradicted
      then some (set_to_bottom d)
      else (if empty
          then some d
          else step >>= (λ q. some (if q.stop then set_to_bottom q.dom else q.dom)))

  run-eq :
      (s : IntervalSolver) (d : Dom Interval)
      → run gmp order s d
        ≡ finish s.contradiction_flag (length s.csts == 0) (solved (is_large gmp s) s d) d
  unfolding run
  run-eq s d = refl

  solved-Solves :
      (large : Bool) (s : IntervalSolver) (d : Dom Interval)
      → IsReady facts s
      → IsLive gmp d
      → Returns (λ q. (t : IntervalSolver) × Solves gmp facts t d q) (solved large s d)
  unfolding build_trigger_table
  solved-Solves true s d h w =
      Returns-imp (Solves gmp facts _ d) _
        (solve_large_system gmp order (build_trigger_table (ready s)) d) (λ q b. (_, b))
        (solve_large_system-Solves law order facts (build_trigger_table (ready s)) d h.known
          (trigger_csts-All (Known facts) s.trigger_table s.csts
            (subst (AllTriggered (Known facts)) (sym h.untriggered) (no_triggers (Known facts)))
            h.known)
          w)
  solved-Solves false s d h w =
      Returns-imp (Solves gmp facts (ready s) d) _ (solve_small_system gmp (ready s) d)
        (λ q b. (ready s, b)) (solve_small_system-Solves law facts (ready s) d h.known w)

  finish-Solved :
      (contradicted empty : Bool) (step : Option Step) (d : Dom Interval)
      → IsLive gmp d
      → (contradicted ≡ true → (env : Env) → ¬ facts env)
      → Returns (λ q. (t : IntervalSolver) × Solves gmp facts t d q) step
      → Returns (Solved gmp facts d) (finish contradicted empty step d)
  finish-Solved true empty step d w h b = Solved-bottom facts d d (λ env a. h refl env)
  finish-Solved false true step d w h b = Solved-same facts d w
  finish-Solved false false step d w h b =
      Returns-bind (λ q. (t : IntervalSolver) × Solves gmp facts t d q) (Solved gmp facts d) step _
        b (λ q b. Solved-of_step facts d b.0 q b.1)

  -- For a library that truncates quotients, a solver with known constraints and a live domain, `run`
  -- ends.
  pub run-Solved :
      (s : IntervalSolver) (d : Dom Interval)
      → IsReady facts s
      → IsLive gmp d
      → Returns (Solved gmp facts d) (run gmp order s d)
  run-Solved s d h w = rw (run-eq s d) (
      finish-Solved s.contradiction_flag (length s.csts == 0) (solved (is_large gmp s) s d) d w
        h.contradicted (solved-Solves (is_large gmp s) s d h w))
