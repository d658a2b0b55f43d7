-- ===== src/IntervalDom/Propagate.antt =====
-- interval_dom.tpp: `propagate` keeps the environments that meet the constraint.
use knight.Prelude.{
  ℕ, ◌≤◌, ◌≡◌, ◌≢◌, refl, ◌∙◌, sym, subst, ◌⊎◌, inl, inr, true, false, not, ◌||◌, [], ◌∷◌, Option,
  some, arith, Bool-cases, Option-cases, All, if◌then◌else◌, Returns, Returns-bind, Returns-imp,
  ◌>>=◌,
}
use knight.Prelude.Int.{ℤ, pos, leb_ℤ, ◌<ℤ◌, eq_of_parts}
use knight.Prelude.Assoc.{find}
use knight.Num.{Gmp, Truncates, trunc}
use knight.Bound.{pinf, ninf}
use knight.Interval.{Interval, singleton, contains, get_singleton_opt, construct}
use knight.Interval.Ops.{divide}
use knight.Interval.Divide.{Divides}
use knight.Interval.Division.{divide_sound}
use knight.Interval.Members.{IsValid, singleton-IsValid}
use knight.Linear.{Var, Terms}
use knight.Linear.Meaning.{Env, eval}
use knight.Linear.Constraint.{
  LinearConstraint, LinearConstraintKind, equality, disequation, inequality, is_equality,
  is_inequality,
}
use knight.Linear.Constraint.Holds.{Holds, Says}
use knight.Separate.{Dom}
use knight.Separate.OfIntervals.{singleton-contains}
use knight.IntervalDom.Solver.{
  IntervalSolver, Step, compute_residual, refine_to_numerical, refine_pivot, trim_pivot,
  propagate_terms,
}
use knight.IntervalDom.Live.{Allows, IsLive}
use knight.IntervalDom.Narrow.{Solves, Solves-idle, refine_to_numerical-Solves, trim_pivot-Solves}
use knight.IntervalDom.Residual.{HasValue, compute_residual-HasValue}
use knight.IntervalDom.Pivot.{
  IsProper, rest_value, eval-pivot, trunc-equal, le-trunc, trunc-le, trunc-unequal, upper_part,
  lower_part, only_of_singleton,
}

-- Two steps, the second from where the first ends.
pub Solves-then :
    {gmp : Gmp} {facts : Env → Type 0} {s : IntervalSolver} {d : Dom Interval} (q r : Step)
    → Solves gmp facts s d q
    → q.stop ≡ false
    → Solves gmp facts q.solver q.dom r
    → Solves gmp facts s d r
Solves-then q r a e b = record {
  same_csts = b.same_csts ∙ a.same_csts;
  same_triggers = b.same_triggers ∙ a.same_triggers;
  same_max = b.same_max ∙ a.same_max;
  counted = omega (arith, a.counted, b.counted);
  progress = omega (arith, a.progress, b.progress);
  live = b.live;
  sound = λ env h f. b.sound env ((a.sound env h f).1) f;
  only = λ env h. a.only env (b.only env h);
}

-- A step after the accesses of `compute_residual`.
pub Solves-counted :
    {gmp : Gmp} {facts : Env → Type 0} {d : Dom Interval} (s t : IntervalSolver) (n : ℕ) (r : Step)
    → IsLive gmp d
    → s.op_cnt ≤ n
    → t ≡ record s { op_cnt = n }
    → Solves gmp facts t d r
    → Solves gmp facts s d r
Solves-counted {gmp} {facts} {d} s t n r w h e b =
    Solves-then (record { stop = false; solver = record s { op_cnt = n }; dom = d }) r
      (Solves-idle n h w) refl (subst (λ u. Solves gmp facts u d r) e b)

-- A step that the rest of a loop follows unless it stops.
pub Solves-next :
    {gmp : Gmp} {facts : Env → Type 0} {s : IntervalSolver} {d : Dom Interval} (q : Step)
    (next : Option Step)
    → Solves gmp facts s d q
    → (q.stop ≡ false → Returns (Solves gmp facts q.solver q.dom) next)
    → Returns (Solves gmp facts s d) (elim q.stop [ true ↦ some q | false ↦ next ])
Solves-next {gmp} {facts} {s} {d} q next a h = elim (Bool-cases q.stop) [
  | inl e ↦ rw e a
  | inr e ↦ rw e (
      Returns-imp (Solves gmp facts q.solver q.dom) (Solves gmp facts s d) next
        (λ r b. Solves-then q r a e b) (h e))
]

pub Solves-imp :
    {gmp : Gmp} {facts more : Env → Type 0} {s : IntervalSolver} {d : Dom Interval} (r : Step)
    → ((env : Env) → more env → facts env)
    → Solves gmp facts s d r
    → Solves gmp more s d r
Solves-imp r h a = record {
  same_csts = a.same_csts;
  same_triggers = a.same_triggers;
  same_max = a.same_max;
  counted = a.counted;
  progress = a.progress;
  live = a.live;
  sound = λ env p f. a.sound env p (h env f);
  only = a.only;
}

-- The tests that `propagate` makes of the kind.
record KindTests (c : LinearConstraint) : Type 0 where
  equal : c.kind ≡ equality → is_equality c ≡ true
  not_equal : c.kind ≡ inequality → is_equality c ≡ false
  refines : (c.kind ≡ equality) ⊎ (c.kind ≡ inequality) → (is_equality c || is_inequality c) ≡ true
  trims : c.kind ≡ disequation → (is_equality c || is_inequality c) ≡ false

kind_tests : (c : LinearConstraint) → KindTests c
unfolding is_equality is_inequality
kind_tests c = record {
  equal = λ e. rw e refl;
  not_equal = λ e. rw e refl;
  refines = λ h. elim h [ inl e ↦ rw e refl | inr e ↦ rw e refl ];
  trims = λ e. rw e refl;
}

kind_cases : (k : LinearConstraintKind) → ((k ≡ equality) ⊎ (k ≡ inequality)) ⊎ (k ≡ disequation)
kind_cases equality = inl (inl refl)
kind_cases inequality = inl (inr refl)
kind_cases disequation = inr refl

-- What holds of the right side of a pivot.
pub record Divided (gmp : Gmp) (c : LinearConstraint) (pivot : Var) (a : ℤ) (d : Dom Interval)
    (rhs : Interval) : Type 0 where
  pub valid : IsValid rhs
  pub holds :
      (env : Env) → Allows gmp d env → contains rhs (trunc (rest_value c env pivot) a) ≡ true

module _ {gmp : Gmp} {c : LinearConstraint} (p : IsProper c) {d : Dom Interval} (w : IsLive gmp d)
    (pivot : Var) (a : ℤ) (f : find pivot c.expr.terms ≡ some a) (rhs : Interval)
    (v : Divided gmp c pivot a d rhs) where
  says :
      (env : Env) (k : LinearConstraintKind) → c.kind ≡ k → Holds env c → Says k (eval env c.expr)
  says env k e h = subst (λ j. Says j (eval env c.expr)) e h

  equality-Solves :
      (s : IntervalSolver)
      → c.kind ≡ equality
      → Solves gmp (λ env. Holds env c) s d (refine_to_numerical gmp pivot rhs s d)
  equality-Solves s e = refine_to_numerical-Solves pivot rhs w v.valid (λ env h facts.
      rw
        (trunc-equal a (rest_value c env pivot) (env pivot) (p.nonzero pivot a f)
          (rw (eval-pivot c env pivot a p f) at (says env equality e facts)))
        at (v.holds env h))

  upper-Solves :
      (s : IntervalSolver)
      → c.kind ≡ inequality
      → pos 0 <ℤ a
      → Returns
          (Solves gmp (λ env. Holds env c) s d)
          (construct ninf rhs.ub >>= (λ itv. some (refine_to_numerical gmp pivot itv s d)))
  upper-Solves s e n =
      Returns-bind _ (Solves gmp (λ env. Holds env c) s d) (construct ninf rhs.ub)
        (λ itv. some (refine_to_numerical gmp pivot itv s d)) (upper_part v.valid)
        (λ itv part. refine_to_numerical-Solves pivot itv w part.0 (λ env h facts.
          part.1 _ (env pivot) (v.holds env h) (
            le-trunc a (rest_value c env pivot) (env pivot) n
              (rw (eval-pivot c env pivot a p f) at (says env inequality e facts)))))

  lower-Solves :
      (s : IntervalSolver)
      → c.kind ≡ inequality
      → a <ℤ pos 0
      → Returns
          (Solves gmp (λ env. Holds env c) s d)
          (construct rhs.lb pinf >>= (λ itv. some (refine_to_numerical gmp pivot itv s d)))
  lower-Solves s e n =
      Returns-bind _ (Solves gmp (λ env. Holds env c) s d) (construct rhs.lb pinf)
        (λ itv. some (refine_to_numerical gmp pivot itv s d)) (lower_part v.valid)
        (λ itv part. refine_to_numerical-Solves pivot itv w part.0 (λ env h facts.
          part.1 _ (env pivot) (v.holds env h) (
            trunc-le a (rest_value c env pivot) (env pivot) n
              (rw (eval-pivot c env pivot a p f) at (says env inequality e facts)))))

  refine_pivot-eq :
      (s : IntervalSolver)
      → refine_pivot gmp c pivot a rhs s d ≡ (
          if is_equality c
          then some (refine_to_numerical gmp pivot rhs s d)
          else (if not (leb_ℤ a (pos 0))
              then construct ninf rhs.ub >>= (λ itv. some (refine_to_numerical gmp pivot itv s d))
              else construct rhs.lb pinf >>= (λ itv. some (refine_to_numerical gmp pivot itv s d))))
  unfolding refine_pivot
  refine_pivot-eq s = refl

  refine_pivot-Solves :
      (s : IntervalSolver)
      → (c.kind ≡ equality) ⊎ (c.kind ≡ inequality)
      → Returns (Solves gmp (λ env. Holds env c) s d) (refine_pivot gmp c pivot a rhs s d)
  refine_pivot-Solves s (inl e) =
      rw (refine_pivot-eq s, (kind_tests c).equal e) (equality-Solves s e)
  refine_pivot-Solves s (inr e) =
      rw (refine_pivot-eq s, (kind_tests c).not_equal e)
        (elim (Bool-cases (leb_ℤ a (pos 0))) [
          | inl n ↦ rw n (lower-Solves s e (negative n (p.nonzero pivot a f)))
          | inr n ↦ rw n (upper-Solves s e (ground arith))
        ])
    where
      negative : leb_ℤ a (pos 0) ≡ true → a ≢ pos 0 → a <ℤ pos 0
      negative n z = ground (arith, eq_of_parts a (pos 0))

  trim-Solves :
      (s : IntervalSolver) (k : ℤ)
      → c.kind ≡ disequation
      → get_singleton_opt rhs ≡ some k
      → Returns (Solves gmp (λ env. Holds env c) s d) (trim_pivot gmp pivot k s d)
  trim-Solves s k e g = trim_pivot-Solves s d pivot k w (λ env h facts same.
      trunc-unequal a (rest_value c env pivot) (env pivot) (p.unit e pivot a f)
        (rw (eval-pivot c env pivot a p f) at (says env disequation e facts))
        (same ∙ sym (only_of_singleton v.valid k _ g (v.holds env h))))

module _ {gmp : Gmp} (law : Truncates gmp) {c : LinearConstraint} (p : IsProper c) where
  divided :
      (s : IntervalSolver) (d : Dom Interval) (pivot : Var) (a : ℤ)
      (residual : Interval × IntervalSolver)
      → find pivot c.expr.terms ≡ some a
      → HasValue gmp d s (λ env. rest_value c env pivot) residual
      → Returns (Divided gmp c pivot a d) (divide gmp residual.0 (singleton a))
  divided s d pivot a residual f r =
      Returns-imp (Divides residual.0 (singleton a)) (Divided gmp c pivot a d)
        (divide gmp residual.0 (singleton a))
        (λ rhs q. record {
          valid = q.valid;
          holds = λ env h.
              q.holds (rest_value c env pivot) a (r.holds env h) (singleton-contains a)
                (p.nonzero pivot a f);
        })
        (divide_sound law r.valid (singleton-IsValid a))

  pub propagate_terms-Solves :
      (ts : Terms) (s : IntervalSolver) (d : Dom Interval)
      → All (λ (t : Var × ℤ). find t.0 c.expr.terms ≡ some t.1) ts
      → IsLive gmp d
      → Returns (Solves gmp (λ env. Holds env c) s d) (propagate_terms gmp c ts s d)
  unfolding propagate_terms
  propagate_terms-Solves [] s d _ w = Solves-idle s.op_cnt (omega arith) w
  propagate_terms-Solves ((pivot, a) ∷ rest) s d (f, fs) w =
      Returns-bind (HasValue gmp d s (λ env. rest_value c env pivot)) _
        (compute_residual gmp c pivot s d) _ (compute_residual-HasValue w pivot c s)
        (λ residual r.
          Returns-bind (Divided gmp c pivot a d) _ (divide gmp residual.0 (singleton a)) _
            (divided s d pivot a residual f r)
            (λ rhs v. elim (kind_cases c.kind) [
              | inl k ↦ rw ((kind_tests c).refines k) (
                  Returns-imp _ _ _
                    (λ step. Solves-counted s residual.1 r.count step w r.grown r.solver)
                    (refine_pivot-Solves p w pivot a f rhs v residual.1 k))
              | inr k ↦ rw ((kind_tests c).trims k) (elim (Option-cases (get_singleton_opt rhs)) [
                | inl g ↦
                    rw (g, propagate_terms)
                      (Returns-imp _ _ _
                        (λ step. Solves-counted s residual.1 r.count step w r.grown r.solver)
                        (propagate_terms-Solves rest residual.1 d fs w))
                | inr (n, g) ↦
                    rw (g, propagate_terms)
                      (Returns-imp _ _ _
                        (λ step. Solves-counted s residual.1 r.count step w r.grown r.solver)
                        (Returns-bind (Solves gmp (λ env. Holds env c) residual.1 d) _
                          (trim_pivot gmp pivot n residual.1 d) _
                          (trim-Solves p w pivot a f rhs v residual.1 n k g)
                          (λ step b.
                            Solves-next step (propagate_terms gmp c rest step.solver step.dom) b
                              (λ e.
                                propagate_terms-Solves rest step.solver step.dom fs (b.live e)))))
              ])
            ]))
