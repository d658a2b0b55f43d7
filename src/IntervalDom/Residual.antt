-- ===== src/IntervalDom/Residual.antt =====
-- interval_dom.tpp: `compute_residual` covers the constraint's constant term less the terms of the other
-- variables.
use knight.Prelude.{
  ℕ, suc, ◌≤◌, ◌≡◌, refl, ap, inl, inr, true, [], ◌∷◌, none, some, arith, Bool-cases, ◌==◌, ==_iff,
  if◌then◌else◌, Returns, Returns-bind, Returns-imp,
}
use knight.Prelude.Int.{ℤ, pos, ◌+ℤ◌, ◌-ℤ◌, ◌*ℤ◌, int_laws}
use knight.Prelude.Assoc.{find, IsMap}
use knight.Num.{Gmp}
use knight.Interval.{Interval, singleton, contains, minus_assign}
use knight.Interval.Ops.{times}
use knight.Interval.Members.{IsValid, singleton-IsValid}
use knight.Interval.Sums.{Covers, minus_assign_sound}
use knight.Interval.Times.{times_sound}
use knight.Linear.{Var, Terms}
use knight.Linear.Meaning.{Env, eval_terms}
use knight.Linear.Constraint.{LinearConstraint, get_constant_term}
use knight.Separate.{Dom}
use knight.Separate.OfIntervals.{singleton-contains}
use knight.IntervalDom.Solver.{IntervalSolver, to_interval, subtract_terms, compute_residual}
use knight.IntervalDom.Live.{Allows, IsLive, to_interval-IsValid, Allows-contains}

-- The value of the terms of the variables other than the pivot.
abbrev pub others : Env → Var → Terms → ℤ
others env pivot [] = pos 0
others env pivot ((x, coeff) ∷ rest) =
    if x == pivot then others env pivot rest else coeff *ℤ env x +ℤ others env pivot rest

others_absent :
    (env : Env) (pivot : Var) (ts : Terms)
    → find pivot ts ≡ none
    → others env pivot ts ≡ eval_terms env ts
unfolding eval_terms
others_absent env pivot [] h = refl
others_absent env pivot ((x, coeff) ∷ rest) h = elim (Bool-cases (x == pivot)) [
  | inl e ↦ absurd (ground arith)
  | inr e ↦ rw e (ap (λ t. coeff *ℤ env x +ℤ t) (others_absent env pivot rest (ground arith)))
]

-- The pivot's term counts apart.
pub eval_terms-others :
    (env : Env) (pivot : Var) (a : ℤ) (ts : Terms)
    → IsMap ts
    → find pivot ts ≡ some a
    → eval_terms env ts ≡ a *ℤ env pivot +ℤ others env pivot ts
unfolding eval_terms
eval_terms-others env pivot a [] w h = cc
eval_terms-others env pivot a ((x, coeff) ∷ rest) w h = elim (Bool-cases (x == pivot)) [
  | inl e ↦
      let same : x ≡ pivot = (==_iff x pivot).0 e in
      let value : coeff ≡ a = ground arith in
      rw (e, same, value, others_absent env pivot rest (rw same at w.0)) refl
  | inr e ↦ rw e (rw (eval_terms-others env pivot a rest w.1 (ground arith)) (omega int_laws))
]

-- A valid interval that holds a value in each environment of the domain; only the count has grown.
pub record HasValue (gmp : Gmp) (d : Dom Interval) (s : IntervalSolver) (value : Env → ℤ)
    (r : Interval × IntervalSolver) : Type 0 where
  pub valid : IsValid r.0
  pub holds : (env : Env) → Allows gmp d env → contains r.0 (value env) ≡ true
  pub count : ℕ
  pub grown : s.op_cnt ≤ count
  pub solver : r.1 ≡ record s { op_cnt = count }

-- The count of an access comes first, and the terms are regrouped.
after_count :
    {gmp : Gmp} {d : Dom Interval} (s : IntervalSolver) (a b c : Env → ℤ)
    (r : Interval × IntervalSolver)
    → HasValue gmp d (record s { op_cnt = suc s.op_cnt }) (λ env. a env -ℤ b env -ℤ c env) r
    → HasValue gmp d s (λ env. a env -ℤ (b env +ℤ c env)) r
after_count s a b c r k = record {
  valid = k.valid;
  holds = λ env h. rw (regroup (a env) (b env) (c env)) at (k.holds env h);
  count = k.count;
  grown = omega (arith, k.grown);
  solver = k.solver;
}
  where
    regroup : (l m n : ℤ) → l -ℤ m -ℤ n ≡ l -ℤ (m +ℤ n)
    regroup l m n = omega int_laws

module _ {gmp : Gmp} {d : Dom Interval} (w : IsLive gmp d) (pivot : Var) where
  subtract_terms-HasValue :
      (s : IntervalSolver) (residual : Interval) (value : Env → ℤ) (ts : Terms)
      → IsValid residual
      → ((env : Env) → Allows gmp d env → contains residual (value env) ≡ true)
      → Returns
          (HasValue gmp d s (λ env. value env -ℤ others env pivot ts))
          (subtract_terms gmp pivot d residual s ts)
  unfolding subtract_terms
  subtract_terms-HasValue s residual value [] v h = record {
    valid = v;
    holds = λ env a. rw (same_value (value env)) (h env a);
    count = s.op_cnt;
    grown = omega arith;
    solver = refl;
  }
    where
      same_value : (n : ℤ) → n -ℤ pos 0 ≡ n
      same_value n = omega int_laws
  subtract_terms-HasValue s residual value ((x, coeff) ∷ rest) v h =
      elim (Bool-cases (x == pivot)) [
        | inl e ↦ rw (e, subtract_terms) (subtract_terms-HasValue s residual value rest v h)
        | inr e ↦
            rw (e, subtract_terms)
              (Returns-bind (Covers ◌*ℤ◌ (singleton coeff) (to_interval gmp d x)) _
                (times (singleton coeff) (to_interval gmp d x)) _
                (times_sound (singleton-IsValid coeff) (to_interval-IsValid gmp d x w))
                (λ product p.
                  Returns-bind (Covers ◌-ℤ◌ residual product) _ (minus_assign residual product) _
                    (minus_assign_sound v p.valid)
                    (λ difference q.
                      Returns-imp
                        (HasValue gmp d (record s { op_cnt = suc s.op_cnt })
                          (λ env. value env -ℤ coeff *ℤ env x -ℤ others env pivot rest))
                        (HasValue gmp d s
                          (λ env. value env -ℤ (coeff *ℤ env x +ℤ others env pivot rest)))
                        _
                        (after_count s value (λ env. coeff *ℤ env x) (λ env. others env pivot rest))
                        (subtract_terms-HasValue (record s { op_cnt = suc s.op_cnt }) difference
                          (λ env. value env -ℤ coeff *ℤ env x) rest q.valid
                          (λ env a. q.holds (value env) (coeff *ℤ env x) (h env a) (
                            p.holds coeff (env x) (singleton-contains coeff)
                              (Allows-contains gmp d env x a)))))))
      ]

  -- `compute_residual` ends, and holds the constant term less the other terms.
  pub compute_residual-HasValue :
      (c : LinearConstraint) (s : IntervalSolver)
      → Returns
          (HasValue gmp d s (λ env. get_constant_term c -ℤ others env pivot c.expr.terms))
          (compute_residual gmp c pivot s d)
  unfolding compute_residual
  compute_residual-HasValue c s =
      subtract_terms-HasValue s (singleton (get_constant_term c)) (λ env. get_constant_term c)
        c.expr.terms (singleton-IsValid (get_constant_term c))
        (λ env a. singleton-contains (get_constant_term c))
