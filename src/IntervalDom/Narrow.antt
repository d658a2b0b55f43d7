-- ===== src/IntervalDom/Narrow.antt =====
-- interval_dom.tpp: what one step of `IntervalSolver` may do, and the steps that narrow one variable.
use knight.Prelude.{
  ℕ, suc, ◌+◌, ◌≤◌, ◌≡◌, ◌≢◌, refl, inl, inr, true, false, not, List, some, arith, Bool-cases, ◌==◌,
  if◌then◌else◌, any, length, Returns, Returns-bind, ◌>>=◌,
}
use knight.Prelude.Int.{ℤ}
use knight.Num.{Gmp}
use knight.Bound.{finite}
use knight.Interval
use knight.Interval.{Interval, is_bottom, contains, trim_bound}
use knight.Interval.Members.{IsValid, not_bottom_of_contains}
use knight.Interval.Meet.{meet_with_exact}
use knight.Interval.Trim.{Trims, trim_bound_exact}
use knight.Linear.{Var}
use knight.Linear.Meaning.{Env}
use knight.Separate.{Dom, meet_value}
use knight.Separate.OfIntervals.{interval_values}
use knight.IntervalDom.Solver.{
  IntervalSolver, Step, insert_var, to_interval, refine_to_numerical, trim_pivot,
}
use knight.IntervalDom.Live.{
  Allows, IsLive, inhabited, to_interval-IsValid, Allows-contains, meet_value-IsLive,
  meet_value-Allows,
}

-- A step from a solver and a live domain. It changes the work of the solver only; a variable that is new
-- among the refined ones is an access; the domain stays live unless the step stops; the environments of
-- the domain that meet the facts stay, and no environment comes.
pub record Solves (gmp : Gmp) (facts : Env → Type 0) (s : IntervalSolver) (d : Dom Interval)
    (r : Step) : Type 0 where
  pub same_csts : r.solver.csts ≡ s.csts
  pub same_triggers : r.solver.trigger_table ≡ s.trigger_table
  pub same_max : r.solver.max_op ≡ s.max_op
  pub counted : s.op_cnt ≤ r.solver.op_cnt
  pub progress : length r.solver.refined_vars + s.op_cnt ≤ r.solver.op_cnt + length s.refined_vars
  pub live : r.stop ≡ false → IsLive gmp r.dom
  pub sound : (env : Env) → Allows gmp d env → facts env → (r.stop ≡ false) × Allows gmp r.dom env
  pub only : (env : Env) → Allows gmp r.dom env → Allows gmp d env

length-insert_var : (xs : List Var) (x : Var) → length (insert_var xs x) ≤ suc (length xs)
unfolding insert_var
length-insert_var xs x = elim (Bool-cases (any (λ y. y == x) xs)) [
  | inl e ↦ rw e (omega arith)
  | inr e ↦ rw e (omega arith)
]

abbrev trimmed : Gmp → Var → IntervalSolver → Dom Interval → Interval → Step
trimmed gmp x s d v =
    if is_bottom v
    then record { stop = true; solver = s; dom = d }
    else (if not (Interval.equals (to_interval gmp d x) v)
        then record {
          stop = false;
          solver = record s { refined_vars = insert_var s.refined_vars x; op_cnt = suc s.op_cnt };
          dom = meet_value (interval_values gmp) d x v;
        }
        else record { stop = false; solver = record s { op_cnt = suc s.op_cnt }; dom = d })

refine-eq :
    (gmp : Gmp) (s : IntervalSolver) (d : Dom Interval) (x : Var) (itv : Interval)
    → refine_to_numerical gmp x itv s d ≡ (
        let new_itv = Interval.meet_with (to_interval gmp d x) itv in
        if is_bottom new_itv
        then record { stop = true; solver = s; dom = d }
        else (if not (Interval.equals (to_interval gmp d x) new_itv)
            then record {
              stop = false;
              solver = record s {
                refined_vars = insert_var s.refined_vars x;
                op_cnt = suc s.op_cnt;
              };
              dom = meet_value (interval_values gmp) d x new_itv;
            }
            else record { stop = false; solver = s; dom = d }))
unfolding refine_to_numerical
refine-eq gmp s d x itv = refl

trim-eq :
    (gmp : Gmp) (s : IntervalSolver) (d : Dom Interval) (x : Var) (k : ℤ)
    → trim_pivot gmp x k s d
      ≡ (trim_bound (to_interval gmp d x) (finite k) >>= (λ v. some (trimmed gmp x s d v)))
unfolding trim_pivot
trim-eq gmp s d x k = refl

module _ {gmp : Gmp} {facts : Env → Type 0} {s : IntervalSolver} {d : Dom Interval} where
  -- The step that changes nothing but the count.
  pub Solves-idle :
      (n : ℕ)
      → s.op_cnt ≤ n
      → IsLive gmp d
      → Solves gmp facts s d (record { stop = false; solver = record s { op_cnt = n }; dom = d })
  Solves-idle n h w = record {
    same_csts = refl;
    same_triggers = refl;
    same_max = refl;
    counted = h;
    progress = omega (arith, h);
    live = λ _. w;
    sound = λ env h _. (refl, h);
    only = λ env h. h;
  }

  -- The step that stops since no environment of the domain meets the facts.
  pub Solves-stop :
      ((env : Env) → Allows gmp d env → ¬ facts env)
      → Solves gmp facts s d (record { stop = true; solver = s; dom = d })
  Solves-stop h = record {
    same_csts = refl;
    same_triggers = refl;
    same_max = refl;
    counted = omega arith;
    progress = omega arith;
    live = λ e. absurd (cc e);
    sound = λ env a f. absurd (h env a f);
    only = λ env h. h;
  }

  -- The step that meets the interval of a variable with a part of it that is not bottom.
  pub Solves-meet :
      {v : Interval} (x : Var)
      → IsLive gmp d
      → IsValid v
      → is_bottom v ≡ false
      → ((n : ℤ) → contains v n ≡ true → contains (to_interval gmp d x) n ≡ true)
      → ((env : Env) → Allows gmp d env → facts env → contains v (env x) ≡ true)
      → Solves gmp facts s d (record {
        stop = false;
        solver = record s { refined_vars = insert_var s.refined_vars x; op_cnt = suc s.op_cnt };
        dom = meet_value (interval_values gmp) d x v;
      })
  Solves-meet {v} x w g e part h = record {
    same_csts = refl;
    same_triggers = refl;
    same_max = refl;
    counted = omega arith;
    progress = omega (arith, length-insert_var s.refined_vars x);
    live = λ _. let (n, p) = inhabited g e in meet_value-IsLive gmp d x v n w g (part n p) p;
    sound = λ env a f. (refl, (meet_value-Allows gmp d x v env w g).1 (a, h env a f));
    only = λ env a. ((meet_value-Allows gmp d x v env w g).0 a).0;
  }

  -- `refine_to_numerical` by an interval that has the variable's integer in the environments that meet
  -- the facts.
  pub refine_to_numerical-Solves :
      (x : Var) (itv : Interval)
      → IsLive gmp d
      → IsValid itv
      → ((env : Env) → Allows gmp d env → facts env → contains itv (env x) ≡ true)
      → Solves gmp facts s d (refine_to_numerical gmp x itv s d)
  refine_to_numerical-Solves x itv w v h =
      let old = to_interval-IsValid gmp d x w in
      let (good, iff) = meet_with_exact old v in
      let held : (env : Env)
          → Allows gmp d env
          → facts env
          → contains (Interval.meet_with (to_interval gmp d x) itv) (env x) ≡ true =
        λ env a f. (iff (env x)).1 (Allows-contains gmp d env x a, h env a f) in
      rw (refine-eq gmp s d x itv)
        (elim (Bool-cases (is_bottom (Interval.meet_with (to_interval gmp d x) itv))) [
          | inl e ↦
              rw e (
                Solves-stop (λ env a f. cc (e, not_bottom_of_contains good (env x) (held env a f))))
          | inr e ↦
              elim (Bool-cases (
                Interval.equals (to_interval gmp d x)
                  (Interval.meet_with (to_interval gmp d x) itv))) [
                    | inl q ↦ rw (e, q) (Solves-idle s.op_cnt (omega arith) w)
                    | inr q ↦ rw (e, q) (Solves-meet x w good e (λ n p. ((iff n).0 p).0) held)
                  ]
        ])

module _ {gmp : Gmp} {facts : Env → Type 0} where
  -- `trim_pivot` for a value that the variable does not have in the environments that meet the facts.
  pub trim_pivot-Solves :
      (s : IntervalSolver) (d : Dom Interval) (x : Var) (k : ℤ)
      → IsLive gmp d
      → ((env : Env) → Allows gmp d env → facts env → env x ≢ k)
      → Returns (Solves gmp facts s d) (trim_pivot gmp x k s d)
  trim_pivot-Solves s d x k w h = rw (trim-eq gmp s d x k) (
      Returns-bind (Trims (to_interval gmp d x) k) (Solves gmp facts s d)
        (trim_bound (to_interval gmp d x) (finite k)) (λ v. some (trimmed gmp x s d v))
        (trim_bound_exact (to_interval-IsValid gmp d x w) k (w.full x))
        (λ v t.
          let held : (env : Env) → Allows gmp d env → facts env → contains v (env x) ≡ true =
            λ env a f. t.keeps (env x) (Allows-contains gmp d env x a) (h env a f) in
          elim (Bool-cases (is_bottom v)) [
            | inl e ↦ rw e (
                Solves-stop
                  (λ env a f. cc (e, not_bottom_of_contains t.valid (env x) (held env a f))))
            | inr e ↦ elim (Bool-cases (Interval.equals (to_interval gmp d x) v)) [
              | inl q ↦ rw (e, q) (Solves-idle (suc s.op_cnt) (omega arith) w)
              | inr q ↦ rw (e, q) (Solves-meet x w t.valid e t.only held)
            ]
          ]))
