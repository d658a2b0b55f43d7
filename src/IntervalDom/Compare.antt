-- ===== src/IntervalDom/Compare.antt =====
-- interval_dom.tpp and numerical_base.hpp: the comparisons of a variable and a number, as assumptions and as
-- assignments.
use knight.Prelude.{
  ◌≡◌, ◌≢◌, refl, ◌∙◌, sym, ◌↔◌, ◌⊎◌, inl, inr, Bool, true, false, not, List, [], ◌∷◌, some, arith,
  Bool-cases, Returns, Returns-bind, Returns-imp,
}
use knight.Prelude.Int.{
  ℤ, pos, negsuc, ◌+ℤ◌, ◌-ℤ◌, ◌≤ℤ◌, eqb_ℤ, leb_ℤ, ltb_ℤ, +ℤ_parts, -ℤ_parts, eqb_ℤ→eq, ◌*ℤ◌,
  eqb_ℤ_refl, leb_ℤ→≤ℤ, ≤ℤ→leb_ℤ,
}
use knight.Prelude.Assoc.{find}
use knight.Num.{Gmp, Truncates}
use knight.Interval.{Interval}
use knight.Linear.{
  Var, LinearExpr, empty_expr, plus_num, minus_num, scale, scale_terms, expr_of_var, expr_of_term,
}
use knight.Linear.Meaning.{Env}
use knight.Linear.Build.{var_minus_num, num_minus_var, num_minus_expr}
use knight.Linear.Constraint.{
  LinearConstraint, LinearConstraintKind, equality, disequation, inequality, negate,
}
use knight.Linear.Constraint.Holds.{Holds, le-Holds, ge-Holds, eq-Holds, ne-Holds}
use knight.Linear.Constraint.Relations.{var_eq_num, var_ne_num, var_le_num, var_ge_num}
use knight.Separate.{Dom}
use knight.IntervalDom.Ops.{
  ComparisonOp, bo_eq, bo_ne, bo_lt, bo_gt, bo_le, bo_ge, bo_cmp, construct_constraint_num,
  apply_linear_constraint, assume_predicate_var_num,
}
use knight.IntervalDom.Live.{IsLive}
use knight.IntervalDom.Pivot.{IsProper}
use knight.IntervalDom.Run.{Solved}
use knight.IntervalDom.Constrain.{apply_linear_constraint_sound}

-- What the operator computes in the program that is analysed.
abbrev pub compares : ComparisonOp → ℤ → ℤ → Bool
compares bo_eq m n = eqb_ℤ m n
compares bo_ne m n = not (eqb_ℤ m n)
compares bo_lt m n = ltb_ℤ m n
compares bo_gt m n = ltb_ℤ n m
compares bo_le m n = leb_ℤ m n
compares bo_ge m n = leb_ℤ n m
compares bo_cmp m n = false

-- One term, whose coefficient is 1 or -1.
pub record IsSingle (c : LinearConstraint) : Type 0 where
  pub variable : Var
  pub factor : ℤ
  pub only : c.expr.terms ≡ (variable, factor) ∷ []
  pub unit : (factor ≡ pos 1) ⊎ (factor ≡ negsuc 0)

nonzero_unit : (a : ℤ) → (a ≡ pos 1) ⊎ (a ≡ negsuc 0) → a ≢ pos 0
nonzero_unit a h e = ground arith

single_coefficient : (x y : Var) (a b : ℤ) → find y ((x, a) ∷ []) ≡ some b → b ≡ a
single_coefficient x y a b h = ground arith

pub IsProper-single : (c : LinearConstraint) → IsSingle c → IsProper c
IsProper-single c s =
    let same : (y : Var) (b : ℤ) → find y c.expr.terms ≡ some b → b ≡ s.factor =
      λ y b h. single_coefficient s.variable y s.factor b (rw s.only at h) in
    record {
      map = rw s.only (refl, tt);
      nonzero = λ y b h e. nonzero_unit s.factor s.unit (sym (same y b h) ∙ e);
      unit = λ _ y b h. rw (same y b h) s.unit;
    }

negated_unit :
    (a : ℤ) → (a ≡ pos 1) ⊎ (a ≡ negsuc 0) → (a *ℤ negsuc 0 ≡ pos 1) ⊎ (a *ℤ negsuc 0 ≡ negsuc 0)
unfolding ◌*ℤ◌
negated_unit a (inl e) = inr (rw e refl)
negated_unit a (inr e) = inl (rw e refl)

pub IsSingle-of :
    (c : LinearConstraint) (x : Var) (a : ℤ)
    → c.expr.terms ≡ (x, a) ∷ []
    → (a ≡ pos 1) ⊎ (a ≡ negsuc 0)
    → IsSingle c
IsSingle-of c x a e u = record { variable = x; factor = a; only = e; unit = u }

negate_kind-IsSingle :
    (e : LinearExpr) (k : LinearConstraintKind) (x : Var) (a : ℤ)
    → e.terms ≡ (x, a) ∷ []
    → (a ≡ pos 1) ⊎ (a ≡ negsuc 0)
    → IsSingle (negate (record { expr = e; kind = k }))
unfolding negate num_minus_expr plus_num scale scale_terms
negate_kind-IsSingle e equality x a o u = IsSingle-of _ x a o u
negate_kind-IsSingle e disequation x a o u = IsSingle-of _ x a o u
negate_kind-IsSingle e inequality x a o u =
    IsSingle-of _ x (a *ℤ negsuc 0) (rw o refl) (negated_unit a u)

pub negate-IsSingle : (c : LinearConstraint) → IsSingle c → IsSingle (negate c)
negate-IsSingle c s = negate_kind-IsSingle c.expr c.kind s.variable s.factor s.only s.unit

-- What the constraint of a comparison is.
pub record Compares (op : ComparisonOp) (x : Var) (n : ℤ) (c : LinearConstraint) : Type 0 where
  pub single : IsSingle c
  pub means : (env : Env) → Holds env c ↔ (compares op (env x) n ≡ true)

-- The test of a comparison decides what the constraint says.
module _ (m n : ℤ) {H : Type 0} where
  equal_test : H ↔ (m ≡ n) → H ↔ (eqb_ℤ m n ≡ true)
  equal_test h = (λ p. rw (h.0 p) (eqb_ℤ_refl n), λ e. h.1 (eqb_ℤ→eq m n e))

  unequal_test : H ↔ (m ≢ n) → H ↔ (not (eqb_ℤ m n) ≡ true)
  unequal_test h = (
    λ p. elim (Bool-cases (eqb_ℤ m n)) [
      | inl e ↦ absurd (h.0 p (eqb_ℤ→eq m n e))
      | inr e ↦ rw e refl
    ],
    λ e. h.1 (λ q. let r : eqb_ℤ m n ≡ true = rw q (eqb_ℤ_refl n) in cc (e, r)),
  )

  below_test : H ↔ (m ≤ℤ n -ℤ pos 1) → H ↔ (ltb_ℤ m n ≡ true)
  below_test h = (
    λ p. (let q = h.0 p in ground (arith, -ℤ_parts n (pos 1))),
    λ e. h.1 (ground (arith, -ℤ_parts n (pos 1))),
  )

  above_test : H ↔ (n +ℤ pos 1 ≤ℤ m) → H ↔ (ltb_ℤ n m ≡ true)
  above_test h = (
    λ p. (let q = h.0 p in ground (arith, +ℤ_parts n (pos 1))),
    λ e. h.1 (ground (arith, +ℤ_parts n (pos 1))),
  )

  le_test : H ↔ (m ≤ℤ n) → H ↔ (leb_ℤ m n ≡ true)
  le_test h = (λ p. ≤ℤ→leb_ℤ m n (h.0 p), λ e. h.1 (leb_ℤ→≤ℤ m n e))

  ge_test : H ↔ (n ≤ℤ m) → H ↔ (leb_ℤ n m ≡ true)
  ge_test h = (λ p. ≤ℤ→leb_ℤ n m (h.0 p), λ e. h.1 (leb_ℤ→≤ℤ n m e))

unit_one : (pos 1 ≡ pos 1) ⊎ (pos 1 ≡ negsuc 0)
unit_one = inl refl

unit_minus_one : (negsuc 0 ≡ pos 1) ⊎ (negsuc 0 ≡ negsuc 0)
unit_minus_one = inr refl

pub construct_constraint_num-Compares :
    (op : ComparisonOp) (x : Var) (n : ℤ)
    → op ≢ bo_cmp
    → Returns (Compares op x n) (construct_constraint_num op x n)
unfolding construct_constraint_num var_eq_num var_ne_num var_le_num var_ge_num var_minus_num
    num_minus_var minus_num plus_num expr_of_var expr_of_term
construct_constraint_num-Compares bo_eq x n h = record {
  single = IsSingle-of _ x (pos 1) refl unit_one;
  means = λ env. equal_test (env x) n ((eq-Holds env empty_expr empty_expr x x n).2);
}
construct_constraint_num-Compares bo_ne x n h = record {
  single = IsSingle-of _ x (pos 1) refl unit_one;
  means = λ env. unequal_test (env x) n ((ne-Holds env empty_expr empty_expr x x n).2);
}
construct_constraint_num-Compares bo_lt x n h = record {
  single = IsSingle-of _ x (pos 1) refl unit_one;
  means = λ env. below_test (env x) n ((le-Holds env empty_expr empty_expr x x (n -ℤ pos 1)).2);
}
construct_constraint_num-Compares bo_gt x n h = record {
  single = IsSingle-of _ x (negsuc 0) refl unit_minus_one;
  means = λ env. above_test (env x) n ((ge-Holds env empty_expr empty_expr x x (n +ℤ pos 1)).2);
}
construct_constraint_num-Compares bo_le x n h = record {
  single = IsSingle-of _ x (pos 1) refl unit_one;
  means = λ env. le_test (env x) n ((le-Holds env empty_expr empty_expr x x n).2);
}
construct_constraint_num-Compares bo_ge x n h = record {
  single = IsSingle-of _ x (negsuc 0) refl unit_minus_one;
  means = λ env. ge_test (env x) n ((ge-Holds env empty_expr empty_expr x x n).2);
}
construct_constraint_num-Compares bo_cmp x n h = absurd (h refl)

module _ {gmp : Gmp} (law : Truncates gmp) (order : List Var → List Var) (d : Dom Interval)
    (w : IsLive gmp d) where
  -- For a library that truncates quotients, any order of the loops over sets, a live domain and a
  -- comparison other than `<=>`, `assume_predicate_var_num` ends. The result is bottom or live, allows
  -- each environment of the domain in which the comparison is true, and allows no new environment.
  pub assume_predicate_var_num_sound :
      (op : ComparisonOp) (x : Var) (n : ℤ)
      → op ≢ bo_cmp
      → Returns
          (Solved gmp (λ env. compares op (env x) n ≡ true) d)
          (assume_predicate_var_num gmp order d op x n)
  unfolding assume_predicate_var_num
  assume_predicate_var_num_sound op x n h =
      Returns-bind (Compares op x n) _ (construct_constraint_num op x n)
        (apply_linear_constraint gmp order d) (construct_constraint_num-Compares op x n h)
        (λ c k.
          Returns-imp (Solved gmp (λ env. Holds env c) d) _ (apply_linear_constraint gmp order d c)
            (λ r s. record {
              shape = s.shape;
              keeps = λ env a t. s.keeps env a ((k.means env).1 t);
              only = s.only;
            })
            (apply_linear_constraint_sound law order d c w (IsProper-single c k.single)))
