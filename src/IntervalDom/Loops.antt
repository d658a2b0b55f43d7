-- ===== src/IntervalDom/Loops.antt =====
-- interval_dom.tpp: the loops of `IntervalSolver` over constraints and variables.
use knight.Prelude.{
  ℕ, zero, suc, ◌+◌, ◌≤◌, ◌≡◌, refl, sym, subst, inl, inr, Bool, true, false, not, ◌||◌, List, [],
  ◌∷◌, Option, none, some, arith, Bool-cases, All, length, ◌==◌, ==_iff, Returns, Returns-bind,
  Returns-imp, leb,
}
use knight.Prelude.Int.{ℤ}
use knight.Prelude.Assoc.{find, IsMap}
use knight.Num.{Gmp, Truncates}
use knight.Interval.{Interval}
use knight.Linear.{Var, Terms}
use knight.Linear.Meaning.{Env}
use knight.Linear.Constraint.{LinearConstraint}
use knight.Linear.Constraint.Holds.{Holds}
use knight.Separate.{Dom}
use knight.IntervalDom.Solver.{
  IntervalSolver, Step, propagate, propagate_all, small_cycles, solve_small_system, max_cycles,
}
use knight.IntervalDom.Live.{IsLive}
use knight.IntervalDom.Narrow.{Solves, Solves-idle}
use knight.IntervalDom.Pivot.{IsProper}
use knight.IntervalDom.Propagate.{Solves-imp, Solves-next, Solves-then, propagate_terms-Solves}

-- The facts say that the constraint holds.
pub record Known (facts : Env → Type 0) (c : LinearConstraint) : Type 0 where
  pub proper : IsProper c
  pub holds : (env : Env) → facts env → Holds env c

abbrev pub Entries : Terms → Terms → Type 0
Entries m ts = All (λ (t : Var × ℤ). find t.0 m ≡ some t.1) ts

Entries-cons :
    (j : Var) (v : ℤ) (m ts : Terms) → find j m ≡ none → Entries m ts → Entries ((j, v) ∷ m) ts
Entries-cons j v m [] h w = tt
Entries-cons j v m ((k, a) ∷ ts) h (f, w) = (
  elim (Bool-cases (j == k)) [ inl e ↦ absurd (ground (arith, (==_iff j k).0 e)) | inr e ↦ rw e f ],
  Entries-cons j v m ts h w,
)

Entries-self : (m : Terms) → IsMap m → Entries m m
Entries-self [] w = tt
Entries-self ((j, v) ∷ m) w =
    (rw ((==_iff j j).1 refl) refl, Entries-cons j v m m w.0 (Entries-self m w.1))

module _ {gmp : Gmp} (law : Truncates gmp) (facts : Env → Type 0) where
  pub propagate-Solves :
      (c : LinearConstraint) (s : IntervalSolver) (d : Dom Interval)
      → Known facts c
      → IsLive gmp d
      → Returns (Solves gmp facts s d) (propagate gmp c s d)
  unfolding propagate
  propagate-Solves c s d k w =
      Returns-imp (Solves gmp (λ env. Holds env c) s d) (Solves gmp facts s d) _
        (λ r. Solves-imp r k.holds)
        (propagate_terms-Solves law k.proper c.expr.terms s d
          (Entries-self c.expr.terms k.proper.map) w)

  pub propagate_all-Solves :
      (cs : List LinearConstraint) (s : IntervalSolver) (d : Dom Interval)
      → All (Known facts) cs
      → IsLive gmp d
      → Returns (Solves gmp facts s d) (propagate_all gmp cs s d)
  unfolding propagate_all
  propagate_all-Solves [] s d k w = Solves-idle s.op_cnt (omega arith) w
  propagate_all-Solves (c ∷ cs) s d (k, ks) w =
      Returns-bind (Solves gmp facts s d) _ (propagate gmp c s d) _ (propagate-Solves c s d k w)
        (λ step b.
          Solves-next step (propagate_all gmp cs step.solver step.dom) b
            (λ e. propagate_all-Solves cs step.solver step.dom ks (b.live e)))

  -- The set of refined variables is cleared first.
  pub Solves-cleared :
      (s : IntervalSolver) (d : Dom Interval) (r : Step)
      → Solves gmp facts (record s { refined_vars = [] }) d r
      → Solves gmp facts s d r
  Solves-cleared s d r a = record {
    same_csts = a.same_csts;
    same_triggers = a.same_triggers;
    same_max = a.same_max;
    counted = a.counted;
    progress = omega (arith, a.progress);
    live = a.live;
    sound = a.sound;
    only = a.only;
  }

  -- A loop that ends after the step where the test holds.
  pub repeated :
      (ends : Bool) (s : IntervalSolver) (d : Dom Interval) (q : Step) (next : Option Step)
      → Solves gmp facts (record s { refined_vars = [] }) d q
      → (ends ≡ false → (q.stop ≡ false) × Returns (Solves gmp facts q.solver q.dom) next)
      → Returns (Solves gmp facts s d) (elim ends [ true ↦ some q | false ↦ next ])
  repeated ends s d q next a h = elim (Bool-cases ends) [
    | inl e ↦ rw e (Solves-cleared s d q a)
    | inr e ↦ rw e (
        Returns-imp (Solves gmp facts q.solver q.dom) (Solves gmp facts s d) next
          (λ r b. Solves-then q r (Solves-cleared s d q a) ((h e).0) b) ((h e).1))
  ]

  -- The loop of `solve_small_system` ends: a cycle follows another at most ten times.
  small_cycles-Solves :
      (fuel cycle : ℕ) (s : IntervalSolver) (d : Dom Interval)
      → fuel + cycle ≡ suc max_cycles
      → cycle ≤ max_cycles
      → All (Known facts) s.csts
      → IsLive gmp d
      → Returns (Solves gmp facts s d) (small_cycles gmp fuel cycle s d)
  unfolding small_cycles
  small_cycles-Solves zero cycle s d m l k w = absurd (omega (arith, m, l))
  small_cycles-Solves (suc fuel) cycle s d m l k w =
      Returns-bind (Solves gmp facts (record s { refined_vars = [] }) d) _
        (propagate_all gmp s.csts (record s { refined_vars = [] }) d) _
        (propagate_all-Solves s.csts (record s { refined_vars = [] }) d k w)
        (λ step b.
          repeated
            (step.stop || length step.solver.refined_vars == 0 || not (leb (suc cycle) max_cycles))
            s d step (small_cycles gmp fuel (suc cycle) step.solver step.dom) b
            (λ e.
              let running : step.stop ≡ false = ground arith in
              let more : leb (suc cycle) max_cycles ≡ true = ground arith in
              (
                running,
                small_cycles-Solves fuel (suc cycle) step.solver step.dom (omega (arith, m))
                    (ground arith) (subst (All (Known facts)) (sym b.same_csts) k) (b.live running),
              )))

  pub solve_small_system-Solves :
      (s : IntervalSolver) (d : Dom Interval)
      → All (Known facts) s.csts
      → IsLive gmp d
      → Returns (Solves gmp facts s d) (solve_small_system gmp s d)
  unfolding solve_small_system
  solve_small_system-Solves s d k w =
      small_cycles-Solves (suc max_cycles) 0 s d refl (omega arith) k w
