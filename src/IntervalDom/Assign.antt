-- ===== src/IntervalDom/Assign.antt =====
-- interval_dom.tpp: the assignment of a comparison of a variable and a number.
use knight.Prelude.{
  ◌≡◌, ◌≢◌, refl, List, inl, inr, Bool, true, false, not, ◌&&◌, Bool-cases, if◌then◌else◌, Returns,
  Returns-bind,
}
use knight.Prelude.Int.{ℤ, pos}
use knight.Num.{Gmp, Truncates}
use knight.Interval.{Interval, contains, true_val, false_val, unknown_bool}
use knight.Interval.Members.{IsValid, singleton-IsValid}
use knight.Bound.{finite, make}
use knight.Bound.Sides.{IsLower, IsUpper}
use knight.Linear.{Var}
use knight.Linear.Meaning.{Env}
use knight.Linear.Constraint.{negate}
use knight.Linear.Constraint.Holds.{Holds, negate_iff}
use knight.Separate.{Dom, set_value}
use knight.Separate.OfIntervals.{interval_values, interval_laws, singleton-contains}
use knight.Separate.Concrete.{IsWellFormed}
use knight.Separate.Assign.{update, set_value-Describes}
use knight.IntervalDom.Ops.{
  ComparisonOp, bo_cmp, comparison, construct_constraint_num, apply_linear_constraint,
  assign_binary_var_num,
}
use knight.IntervalDom.Live.{Allows, IsLive, bottom-Allows}
use knight.IntervalDom.Run.{Solved}
use knight.IntervalDom.Constrain.{apply_linear_constraint_sound}
use knight.IntervalDom.Compare.{
  compares, Compares, IsProper-single, negate-IsSingle, construct_constraint_num-Compares,
}

-- The value of a comparison in the program that is analysed.
abbrev pub truth : Bool → ℤ
truth b = if b then pos 1 else pos 0

-- The interval that the flags of the two refined domains choose.
abbrev verdict : Bool → Bool → Interval
verdict p n = if p && not n then false_val else (if not p && n then true_val else unknown_bool)

unknown_bool-IsValid : IsValid unknown_bool
unfolding unknown_bool finite make
unknown_bool-IsValid = record { lower = IsLower.fin (pos 0); upper = IsUpper.fin (pos 1) }

unknown_bool-truth : (b : Bool) → contains unknown_bool (truth b) ≡ true
unfolding unknown_bool contains
unknown_bool-truth true = refl
unknown_bool-truth false = refl

verdict-truth :
    (b p n : Bool)
    → (b ≡ true → p ≡ false)
    → (b ≡ false → n ≡ false)
    → IsValid (verdict p n) × (contains (verdict p n) (truth b) ≡ true)
unfolding true_val false_val
verdict-truth b true true h k = (unknown_bool-IsValid, unknown_bool-truth b)
verdict-truth b false false h k = (unknown_bool-IsValid, unknown_bool-truth b)
verdict-truth true true false h k = cc (h refl)
verdict-truth false true false h k = (singleton-IsValid (pos 0), singleton-contains (pos 0))
verdict-truth true false true h k = (singleton-IsValid (pos 1), singleton-contains (pos 1))
verdict-truth false false true h k = cc (k refl)

module _ {gmp : Gmp} (law : Truncates gmp) (order : List Var → List Var) (d : Dom Interval)
    (w : IsLive gmp d) where
  alive_of_allowed : (r : Dom Interval) (env : Env) → Allows gmp r env → r.bottom_flag ≡ false
  alive_of_allowed r env a = elim (Bool-cases r.bottom_flag) [
    | inl e ↦ absurd (bottom-Allows gmp r env e a)
    | inr e ↦ e
  ]

  -- The result describes the environment with the truth value of the comparison for the variable.
  abbrev pub Assigned : Var → Bool → Env → Dom Interval → Type 0
  Assigned x b env r =
      IsWellFormed (interval_laws gmp) r.table
      × Allows gmp r (update (interval_laws gmp) env x (truth b))

  set_verdict :
      (x : Var) (b : Bool) (env : Env) (p n : Dom Interval)
      → Allows gmp d env
      → (b ≡ true → Allows gmp p env)
      → (b ≡ false → Allows gmp n env)
      → Assigned x b env (set_value (interval_values gmp) d x (verdict p.bottom_flag n.bottom_flag))
  unfolding Allows interval_laws
  set_verdict x b env p n a f g =
      let v =
        verdict-truth b p.bottom_flag n.bottom_flag (λ e. alive_of_allowed p env (f e))
          (λ e. alive_of_allowed n env (g e)) in
      set_value-Describes (interval_laws gmp) d env x (verdict p.bottom_flag n.bottom_flag)
        (truth b) w.formed v.0 a v.1

  -- For a library that truncates quotients, any order of the loops over sets, a live domain that describes
  -- an environment and a comparison other than `<=>`, `assign_binary_var_num` of the comparison of y with n
  -- to x ends with a well-formed domain that describes the environment with 1 for x if the comparison is
  -- true there, and with 0 for x if it is not.
  pub assign_binary_var_num_sound :
      (op : ComparisonOp) (x y : Var) (n : ℤ) (env : Env)
      → op ≢ bo_cmp
      → Allows gmp d env
      → Returns
          (Assigned x (compares op (env y) n) env)
          (assign_binary_var_num gmp order d (comparison op) x y n)
  unfolding assign_binary_var_num
  assign_binary_var_num_sound op x y n env h a =
      Returns-bind (Compares op y n) _ (construct_constraint_num op y n) _
        (construct_constraint_num-Compares op y n h)
        (λ c k.
          Returns-bind (Solved gmp (λ e. Holds e c) d) _ (apply_linear_constraint gmp order d c) _
            (apply_linear_constraint_sound law order d c w (IsProper-single c k.single))
            (λ p s.
              Returns-bind (Solved gmp (λ e. Holds e (negate c)) d) _
                (apply_linear_constraint gmp order d (negate c)) _
                (apply_linear_constraint_sound law order d (negate c) w
                  (IsProper-single (negate c) (negate-IsSingle c k.single)))
                (λ q t.
                  set_verdict x (compares op (env y) n) env p q a
                    (λ e. s.keeps env a ((k.means env).1 e))
                    (λ e.
                      t.keeps env a
                        ((negate_iff env c).1 (λ m. (let r = (k.means env).0 m in cc (e, r))))))))
