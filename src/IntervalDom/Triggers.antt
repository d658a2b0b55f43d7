-- ===== src/IntervalDom/Triggers.antt =====
-- interval_dom.tpp: the trigger table of `IntervalSolver` and the loop of `solve_large_system`.
use knight.Prelude.{
  ℕ, zero, suc, ◌+◌, ◌≤◌, ◌<◌, ◌≡◌, refl, sym, subst, inl, inr, true, false, not, ◌||◌, List, [],
  ◌∷◌, ◌++◌, arith, Bool-cases, All, length, ◌==◌, if◌then◌else◌, Returns, Returns-bind,
}
use knight.Prelude.Assoc.{put, find-put}
use knight.Num.{Gmp, Truncates}
use knight.Interval.{Interval}
use knight.Linear.{Var, Terms}
use knight.Linear.Meaning.{Env}
use knight.Linear.Constraint.{LinearConstraint}
use knight.Separate.{Dom}
use knight.IntervalDom.Solver.{
  IntervalSolver, TriggerTable, propagate_all, triggered, trigger_terms, trigger_csts, process_vars,
  is_unsettled, large_cycles, solve_large_system,
}
use knight.IntervalDom.Live.{IsLive}
use knight.IntervalDom.Narrow.{Solves, Solves-idle}
use knight.IntervalDom.Propagate.{Solves-next}
use knight.IntervalDom.Loops.{Known, propagate_all-Solves, repeated}

module _ (P : LinearConstraint → Type 0) where
  -- The constraints that each variable triggers.
  unfoldable pub AllTriggered : TriggerTable → Type 0
  unfolding triggered
  AllTriggered table = (x : Var) → All P (triggered table x)

  pub All-push :
      (cs : List LinearConstraint) (c : LinearConstraint) → All P cs → P c → All P (cs ++ c ∷ [])
  All-push [] c h p = (p, tt)
  All-push (b ∷ cs) c (h, hs) p = (h, All-push cs c hs p)

  triggered-put :
      (table : TriggerTable) (x y : Var) (cs : List LinearConstraint)
      → triggered (put x cs table) y ≡ (if x == y then cs else triggered table y)
  unfolding triggered
  triggered-put table x y cs =
      rw (find-put x y cs table, triggered)
        (elim (Bool-cases (x == y)) [ inl e ↦ rw e refl | inr e ↦ rw e refl ])

  trigger_terms-All :
      (table : TriggerTable) (c : LinearConstraint) (ts : Terms)
      → AllTriggered table
      → P c
      → AllTriggered (trigger_terms table c ts)
  unfolding AllTriggered trigger_terms
  trigger_terms-All table c [] h p = h
  trigger_terms-All table c ((x, a) ∷ ts) h p =
      trigger_terms-All (put x (triggered table x ++ c ∷ []) table) c ts
        (λ y.
          rw (triggered-put table x y (triggered table x ++ c ∷ [])) (elim (Bool-cases (x == y)) [
            | inl e ↦ rw e (All-push (triggered table x) c (h x) p)
            | inr e ↦ rw e (h y)
          ]))
        p

  pub trigger_csts-All :
      (table : TriggerTable) (cs : List LinearConstraint)
      → AllTriggered table
      → All P cs
      → AllTriggered (trigger_csts table cs)
  unfolding trigger_csts
  trigger_csts-All table [] h p = h
  trigger_csts-All table (c ∷ cs) h (p, ps) =
      trigger_csts-All (trigger_terms table c c.expr.terms) cs
        (trigger_terms-All table c c.expr.terms h p) ps

unsettled :
    (s : IntervalSolver)
    → is_unsettled s ≡ true
    → (0 < length s.refined_vars) × (s.op_cnt ≤ s.max_op)
unfolding is_unsettled
unsettled s h = (ground arith, ground arith)

module _ {gmp : Gmp} (law : Truncates gmp) (order : List Var → List Var)
    (facts : Env → Type 0) where
  process_vars-Solves :
      (xs : List Var) (s : IntervalSolver) (d : Dom Interval)
      → AllTriggered (Known facts) s.trigger_table
      → IsLive gmp d
      → Returns (Solves gmp facts s d) (process_vars gmp order xs s d)
  unfolding process_vars AllTriggered
  process_vars-Solves [] s d k w = Solves-idle s.op_cnt (omega arith) w
  process_vars-Solves (x ∷ xs) s d k w =
      Returns-bind (Solves gmp facts s d) _ (propagate_all gmp (triggered s.trigger_table x) s d) _
        (propagate_all-Solves law facts (triggered s.trigger_table x) s d (k x) w)
        (λ step b. Solves-next step (process_vars gmp order xs step.solver step.dom) b (λ e.
          process_vars-Solves xs step.solver step.dom
            (subst (AllTriggered (Known facts)) (sym b.same_triggers) k) (b.live e)))

  -- Each round that another follows has refined a variable, so it has counted an access.
  large_cycles-Solves :
      (fuel : ℕ) (s : IntervalSolver) (d : Dom Interval)
      → 0 < fuel
      → s.max_op < s.op_cnt + fuel
      → AllTriggered (Known facts) s.trigger_table
      → IsLive gmp d
      → Returns (Solves gmp facts s d) (large_cycles gmp order fuel s d)
  unfolding large_cycles
  large_cycles-Solves zero s d n m k w = absurd (omega (arith, n))
  large_cycles-Solves (suc fuel) s d n m k w =
      Returns-bind (Solves gmp facts (record s { refined_vars = [] }) d) _
        (process_vars gmp order (order s.refined_vars) (record s { refined_vars = [] }) d) _
        (process_vars-Solves (order s.refined_vars) (record s { refined_vars = [] }) d k w)
        (λ step b.
          repeated law facts (step.stop || not (is_unsettled step.solver)) s d step
            (large_cycles gmp order fuel step.solver step.dom) b
            (λ e.
              let running : step.stop ≡ false = ground arith in
              let (refined, within) = unsettled step.solver (ground arith) in
              (
                running,
                large_cycles-Solves fuel step.solver step.dom
                    (omega (arith, b.progress, b.same_max, m, refined, within))
                    (omega (arith, b.progress, b.same_max, m, refined, within))
                    (subst (AllTriggered (Known facts)) (sym b.same_triggers) k) (b.live running),
              )))

  -- The loop of `solve_large_system` ends: one more round than the bound on the accesses is enough.
  pub solve_large_system-Solves :
      (s : IntervalSolver) (d : Dom Interval)
      → All (Known facts) s.csts
      → AllTriggered (Known facts) s.trigger_table
      → IsLive gmp d
      → Returns
          (Solves gmp facts (record s { op_cnt = 0; refined_vars = [] }) d)
          (solve_large_system gmp order s d)
  unfolding solve_large_system
  solve_large_system-Solves s d k t w =
      let start : IntervalSolver = record s { op_cnt = 0; refined_vars = [] } in
      Returns-bind (Solves gmp facts start d) _ (propagate_all gmp s.csts start d) _
        (propagate_all-Solves law facts s.csts start d k w)
        (λ step b.
          Solves-next step (large_cycles gmp order (suc step.solver.max_op) step.solver step.dom) b
            (λ e.
              large_cycles-Solves (suc step.solver.max_op) step.solver step.dom (omega arith)
                (omega arith) (subst (AllTriggered (Known facts)) (sym b.same_triggers) t)
                (b.live e)))
