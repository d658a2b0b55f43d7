-- ===== src/Linear/Constraint/Holds.antt =====
-- linear.hpp: when a linear constraint holds, its negation and its tests, and what the comparison
-- operators and the operations on systems mean.
use knight.Prelude.{
  ◌≡◌, refl, ◌≢◌, ap, ◌↔◌, inl, inr, Bool-cases, arith, Bool, true, false, not, if◌then◌else◌, [],
  ◌∷◌,
}
use knight.Prelude.Int.{
  ℤ, pos, pos_part, neg_part, ◌-ℤ◌, ◌≤ℤ◌, eqb_ℤ, leb_ℤ, int_laws, eq_of_parts, eqb_ℤ→eq, -ℤ_parts,
}
use knight.Linear.{Var, Terms, LinearExpr, is_constant}
use knight.Linear.Build.{
  var_minus_num, num_minus_var, var_minus_var, expr_minus_num, expr_minus_var, num_minus_expr,
  var_minus_expr, expr_minus_expr,
}
use knight.Linear.Meaning.{
  Env, eval, constant_value, eval-plus_num, eval-minus_num, eval-plus_var, eval-minus_var,
  eval-minus_expr, eval-scale, eval-expr_of_var, eval-expr_of_term, times_minus_one,
  minus_one_times,
}
use knight.Linear.Constraint.{
  LinearConstraint, LinearConstraintKind, equality, disequation, inequality, negate, is_tautology,
  is_contradiction,
}
use knight.Linear.Constraint.Relations.{
  expr_le_num, expr_le_var, var_le_num, var_le_var, var_le_expr, expr_le_expr, expr_ge_num,
  expr_ge_var, var_ge_num, var_ge_var, var_ge_expr, expr_ge_expr, expr_eq_num, expr_eq_var,
  var_eq_num, var_eq_var, var_eq_expr, expr_eq_expr, expr_ne_num, expr_ne_var, var_ne_num,
  var_ne_var, var_ne_expr, expr_ne_expr,
}

-- What a kind of constraint says of the value of its expression.
abbrev pub Says : LinearConstraintKind → ℤ → Type 0
Says equality v = v ≡ pos 0
Says disequation v = v ≢ pos 0
Says inequality v = v ≤ℤ pos 0

abbrev pub Holds : Env → LinearConstraint → Type 0
Holds env c = Says c.kind (eval env c.expr)

module _ (env : Env) where
  eval-num_minus_expr : (n : ℤ) (e : LinearExpr) → eval env (num_minus_expr n e) ≡ n -ℤ eval env e
  unfolding num_minus_expr
  eval-num_minus_expr n e = rw (eval-plus_num env, eval-scale env, times_minus_one) (omega int_laws)

  eval-expr_minus_num : (e : LinearExpr) (n : ℤ) → eval env (expr_minus_num e n) ≡ eval env e -ℤ n
  unfolding expr_minus_num
  eval-expr_minus_num e n = eval-minus_num env e n

  eval-expr_minus_var :
      (e : LinearExpr) (x : Var) → eval env (expr_minus_var e x) ≡ eval env e -ℤ env x
  unfolding expr_minus_var
  eval-expr_minus_var e x = eval-minus_var env e x

  eval-expr_minus_expr :
      (e f : LinearExpr) → eval env (expr_minus_expr e f) ≡ eval env e -ℤ eval env f
  unfolding expr_minus_expr
  eval-expr_minus_expr e f = eval-minus_expr env e f

  eval-var_minus_num : (x : Var) (n : ℤ) → eval env (var_minus_num x n) ≡ env x -ℤ n
  unfolding var_minus_num
  eval-var_minus_num x n = rw (eval-minus_num env, eval-expr_of_var env) refl

  eval-var_minus_var : (x y : Var) → eval env (var_minus_var x y) ≡ env x -ℤ env y
  unfolding var_minus_var
  eval-var_minus_var x y = rw (eval-minus_var env, eval-expr_of_var env) refl

  eval-var_minus_expr :
      (x : Var) (e : LinearExpr) → eval env (var_minus_expr x e) ≡ env x -ℤ eval env e
  unfolding var_minus_expr
  eval-var_minus_expr x e = rw (eval-plus_var env, eval-scale env, times_minus_one) (omega int_laws)

  eval-num_minus_var : (n : ℤ) (x : Var) → eval env (num_minus_var n x) ≡ n -ℤ env x
  unfolding num_minus_var
  eval-num_minus_var n x =
      rw (eval-plus_num env, eval-expr_of_term env, minus_one_times) (omega int_laws)

-- A difference against zero says what a comparison says.
module _ {v : ℤ} (a b : ℤ) (diff : v ≡ a -ℤ b) where
  Says-eq : Says equality v ↔ (a ≡ b)
  Says-eq = rw diff (
    λ e. eq_of_parts a b (omega (arith, -ℤ_parts a b, ap pos_part e, ap neg_part e)),
    λ e. eq_of_parts _ _ (omega (arith, -ℤ_parts a b, ap pos_part e, ap neg_part e)),
  )

  Says-ne : Says disequation v ↔ (a ≢ b)
  Says-ne = (λ d e. d (Says-eq.1 e), λ d e. d (Says-eq.0 e))

  Says-le : Says inequality v ↔ (a ≤ℤ b)
  Says-le = rw diff (λ h. omega (arith, -ℤ_parts a b), λ h. omega (arith, -ℤ_parts a b))

unequal_of_not : (v : ℤ) → not (eqb_ℤ v (pos 0)) ≡ true → v ≢ pos 0
unequal_of_not v h d = ground arith

le_of_test : (v : ℤ) → leb_ℤ v (pos 0) ≡ true → v ≤ℤ pos 0
le_of_test v h = ground arith

not_le_of_test : (v : ℤ) → not (leb_ℤ v (pos 0)) ≡ true → ¬ (v ≤ℤ pos 0)
not_le_of_test v h d = ground arith

module _ (env : Env) where
  negate-Says :
      (e : LinearExpr) (k : LinearConstraintKind)
      → Holds env (negate (record { expr = e; kind = k })) ↔ (¬ Says k (eval env e))
  unfolding negate
  negate-Says e equality = (λ h. h, λ h. h)
  negate-Says e disequation = (
    λ h d. d h,
    λ h. elim (Bool-cases (eqb_ℤ (eval env e) (pos 0))) [
      | inl z ↦ eqb_ℤ→eq _ _ z
      | inr z ↦ absurd (h (λ d. unequal (eval env e) z d))
    ],
  )
    where
      unequal : (v : ℤ) → eqb_ℤ v (pos 0) ≡ false → v ≢ pos 0
      unequal v z d = ground arith
  negate-Says e inequality = rw (eval-num_minus_expr env (pos 1) e) (
    λ h d. omega (arith, -ℤ_parts (pos 1) (eval env e)),
    λ h. omega (arith, -ℤ_parts (pos 1) (eval env e)),
  )

  -- In every environment, the negation of a linear constraint holds exactly when the constraint
  -- does not.
  pub negate_iff : (c : LinearConstraint) → Holds env (negate c) ↔ (¬ Holds env c)
  negate_iff c = negate-Says c.expr c.kind

  -- `operator<=`.
  pub le-Holds :
      (e f : LinearExpr) (x y : Var) (n : ℤ)
      → (Holds env (expr_le_num e n) ↔ (eval env e ≤ℤ n))
        × (Holds env (expr_le_var e x) ↔ (eval env e ≤ℤ env x))
        × (Holds env (var_le_num x n) ↔ (env x ≤ℤ n))
        × (Holds env (var_le_var x y) ↔ (env x ≤ℤ env y))
        × (Holds env (var_le_expr x e) ↔ (env x ≤ℤ eval env e))
        × (Holds env (expr_le_expr e f) ↔ (eval env e ≤ℤ eval env f))
  unfolding expr_le_num expr_le_var var_le_num var_le_var var_le_expr expr_le_expr
  le-Holds e f x y n = (
    Says-le (eval env e) n (eval-expr_minus_num env e n),
    Says-le (eval env e) (env x) (eval-expr_minus_var env e x),
    Says-le (env x) n (eval-var_minus_num env x n),
    Says-le (env x) (env y) (eval-var_minus_var env x y),
    Says-le (env x) (eval env e) (eval-var_minus_expr env x e),
    Says-le (eval env e) (eval env f) (eval-expr_minus_expr env e f),
  )

  -- `operator>=`.
  pub ge-Holds :
      (e f : LinearExpr) (x y : Var) (n : ℤ)
      → (Holds env (expr_ge_num e n) ↔ (n ≤ℤ eval env e))
        × (Holds env (expr_ge_var e x) ↔ (env x ≤ℤ eval env e))
        × (Holds env (var_ge_num x n) ↔ (n ≤ℤ env x))
        × (Holds env (var_ge_var x y) ↔ (env y ≤ℤ env x))
        × (Holds env (var_ge_expr x e) ↔ (eval env e ≤ℤ env x))
        × (Holds env (expr_ge_expr e f) ↔ (eval env f ≤ℤ eval env e))
  unfolding expr_ge_num expr_ge_var var_ge_num var_ge_var var_ge_expr expr_ge_expr
  ge-Holds e f x y n = (
    Says-le n (eval env e) (eval-num_minus_expr env n e),
    Says-le (env x) (eval env e) (eval-var_minus_expr env x e),
    Says-le n (env x) (eval-num_minus_var env n x),
    Says-le (env y) (env x) (eval-var_minus_var env y x),
    Says-le (eval env e) (env x) (eval-expr_minus_var env e x),
    Says-le (eval env f) (eval env e) (eval-expr_minus_expr env f e),
  )

  -- `operator==`.
  pub eq-Holds :
      (e f : LinearExpr) (x y : Var) (n : ℤ)
      → (Holds env (expr_eq_num e n) ↔ (eval env e ≡ n))
        × (Holds env (expr_eq_var e x) ↔ (eval env e ≡ env x))
        × (Holds env (var_eq_num x n) ↔ (env x ≡ n))
        × (Holds env (var_eq_var x y) ↔ (env x ≡ env y))
        × (Holds env (var_eq_expr x e) ↔ (eval env e ≡ env x))
        × (Holds env (expr_eq_expr e f) ↔ (eval env e ≡ eval env f))
  unfolding expr_eq_num expr_eq_var var_eq_num var_eq_var var_eq_expr expr_eq_expr
  eq-Holds e f x y n = (
    Says-eq (eval env e) n (eval-expr_minus_num env e n),
    Says-eq (eval env e) (env x) (eval-expr_minus_var env e x),
    Says-eq (env x) n (eval-var_minus_num env x n),
    Says-eq (env x) (env y) (eval-var_minus_var env x y),
    Says-eq (eval env e) (env x) (eval-expr_minus_var env e x),
    Says-eq (eval env e) (eval env f) (eval-expr_minus_expr env e f),
  )

  -- `operator!=`.
  pub ne-Holds :
      (e f : LinearExpr) (x y : Var) (n : ℤ)
      → (Holds env (expr_ne_num e n) ↔ (eval env e ≢ n))
        × (Holds env (expr_ne_var e x) ↔ (eval env e ≢ env x))
        × (Holds env (var_ne_num x n) ↔ (env x ≢ n))
        × (Holds env (var_ne_var x y) ↔ (env x ≢ env y))
        × (Holds env (var_ne_expr x e) ↔ (eval env e ≢ env x))
        × (Holds env (expr_ne_expr e f) ↔ (eval env e ≢ eval env f))
  unfolding expr_ne_num expr_ne_var var_ne_num var_ne_var var_ne_expr expr_ne_expr
  ne-Holds e f x y n = (
    Says-ne (eval env e) n (eval-expr_minus_num env e n),
    Says-ne (eval env e) (env x) (eval-expr_minus_var env e x),
    Says-ne (env x) n (eval-var_minus_num env x n),
    Says-ne (env x) (env y) (eval-var_minus_var env x y),
    Says-ne (eval env e) (env x) (eval-expr_minus_var env e x),
    Says-ne (eval env e) (eval env f) (eval-expr_minus_expr env e f),
  )

  -- In every environment, the constraint that each of the six overloads of each of the operators `<=`,
  -- `>=`, `==` and `!=` makes holds exactly when the values of the two operands are in that relation.
  pub comparisons-Holds :
      (e f : LinearExpr) (x y : Var) (n : ℤ)
      → ((Holds env (expr_le_num e n) ↔ (eval env e ≤ℤ n))
          × (Holds env (expr_le_var e x) ↔ (eval env e ≤ℤ env x))
          × (Holds env (var_le_num x n) ↔ (env x ≤ℤ n))
          × (Holds env (var_le_var x y) ↔ (env x ≤ℤ env y))
          × (Holds env (var_le_expr x e) ↔ (env x ≤ℤ eval env e))
          × (Holds env (expr_le_expr e f) ↔ (eval env e ≤ℤ eval env f)))
        × ((Holds env (expr_ge_num e n) ↔ (n ≤ℤ eval env e))
            × (Holds env (expr_ge_var e x) ↔ (env x ≤ℤ eval env e))
            × (Holds env (var_ge_num x n) ↔ (n ≤ℤ env x))
            × (Holds env (var_ge_var x y) ↔ (env y ≤ℤ env x))
            × (Holds env (var_ge_expr x e) ↔ (eval env e ≤ℤ env x))
            × (Holds env (expr_ge_expr e f) ↔ (eval env f ≤ℤ eval env e)))
        × ((Holds env (expr_eq_num e n) ↔ (eval env e ≡ n))
            × (Holds env (expr_eq_var e x) ↔ (eval env e ≡ env x))
            × (Holds env (var_eq_num x n) ↔ (env x ≡ n))
            × (Holds env (var_eq_var x y) ↔ (env x ≡ env y))
            × (Holds env (var_eq_expr x e) ↔ (eval env e ≡ env x))
            × (Holds env (expr_eq_expr e f) ↔ (eval env e ≡ eval env f)))
        × ((Holds env (expr_ne_num e n) ↔ (eval env e ≢ n))
            × (Holds env (expr_ne_var e x) ↔ (eval env e ≢ env x))
            × (Holds env (var_ne_num x n) ↔ (env x ≢ n))
            × (Holds env (var_ne_var x y) ↔ (env x ≢ env y))
            × (Holds env (var_ne_expr x e) ↔ (eval env e ≢ env x))
            × (Holds env (expr_ne_expr e f) ↔ (eval env e ≢ eval env f)))
  comparisons-Holds e f x y n =
      (le-Holds e f x y n, ge-Holds e f x y n, eq-Holds e f x y n, ne-Holds e f x y n)

  guarded : (b g : Bool) → (if not b then false else g) ≡ true → (b ≡ true) × (g ≡ true)
  guarded true g h = (refl, h)
  guarded false g h = ground arith

  tautology-Says :
      (e : LinearExpr) (k : LinearConstraintKind)
      → is_tautology (record { expr = e; kind = k }) ≡ true
      → (is_constant e ≡ true) × Says k e.constant
  unfolding is_tautology
  tautology-Says e equality h =
      let g = guarded (is_constant e) (eqb_ℤ e.constant (pos 0)) h in (g.0, eqb_ℤ→eq _ _ g.1)
  tautology-Says e disequation h =
      let g = guarded (is_constant e) (not (eqb_ℤ e.constant (pos 0))) h in
      (g.0, unequal_of_not e.constant g.1)
  tautology-Says e inequality h =
      let g = guarded (is_constant e) (leb_ℤ e.constant (pos 0)) h in
      (g.0, le_of_test e.constant g.1)

  contradiction-Says :
      (e : LinearExpr) (k : LinearConstraintKind)
      → is_contradiction (record { expr = e; kind = k }) ≡ true
      → (is_constant e ≡ true) × (¬ Says k e.constant)
  unfolding is_contradiction
  contradiction-Says e equality h =
      let g = guarded (is_constant e) (not (eqb_ℤ e.constant (pos 0))) h in
      (g.0, unequal_of_not e.constant g.1)
  contradiction-Says e disequation h =
      let g = guarded (is_constant e) (eqb_ℤ e.constant (pos 0)) h in
      (g.0, λ d. d (eqb_ℤ→eq _ _ g.1))
  contradiction-Says e inequality h =
      let g = guarded (is_constant e) (not (leb_ℤ e.constant (pos 0))) h in
      (g.0, not_le_of_test e.constant g.1)

  eqb_zero : (v : ℤ) → v ≡ pos 0 → eqb_ℤ v (pos 0) ≡ true
  eqb_zero v h = rw h refl

  not_eqb_zero : (v : ℤ) → v ≢ pos 0 → not (eqb_ℤ v (pos 0)) ≡ true
  not_eqb_zero v h = elim (Bool-cases (eqb_ℤ v (pos 0))) [
    | inl e ↦ absurd (h (eqb_ℤ→eq _ _ e))
    | inr e ↦ rw e refl
  ]

  test_of_le : (v : ℤ) → v ≤ℤ pos 0 → leb_ℤ v (pos 0) ≡ true
  test_of_le v h = ground arith

  test_of_not_le : (v : ℤ) → ¬ (v ≤ℤ pos 0) → not (leb_ℤ v (pos 0)) ≡ true
  test_of_not_le v h = elim (Bool-cases (leb_ℤ v (pos 0))) [
    | inl e ↦ absurd (h (le_of_test v e))
    | inr e ↦ rw e refl
  ]

  eq_of_not_ne : (v : ℤ) → ¬ (v ≢ pos 0) → v ≡ pos 0
  eq_of_not_ne v h = elim (Bool-cases (eqb_ℤ v (pos 0))) [
    | inl e ↦ eqb_ℤ→eq _ _ e
    | inr e ↦ absurd (h (unequal_of_not v (rw e refl)))
  ]

  Says-tautology :
      (e : LinearExpr) (k : LinearConstraintKind)
      → is_constant e ≡ true
      → Says k e.constant
      → is_tautology (record { expr = e; kind = k }) ≡ true
  unfolding is_tautology
  Says-tautology e equality c h = rw c (eqb_zero e.constant h)
  Says-tautology e disequation c h = rw c (not_eqb_zero e.constant h)
  Says-tautology e inequality c h = rw c (test_of_le e.constant h)

  Says-contradiction :
      (e : LinearExpr) (k : LinearConstraintKind)
      → is_constant e ≡ true
      → ¬ Says k e.constant
      → is_contradiction (record { expr = e; kind = k }) ≡ true
  unfolding is_contradiction
  Says-contradiction e equality c h = rw c (not_eqb_zero e.constant h)
  Says-contradiction e disequation c h = rw c (eqb_zero e.constant (eq_of_not_ne e.constant h))
  Says-contradiction e inequality c h = rw c (test_of_not_le e.constant h)

  no_terms_iff : (ts : Terms) → ((elim ts [ [] ↦ true | _ ↦ false ]) ≡ true) ↔ (ts ≡ [])
  no_terms_iff [] = (λ h. refl, λ h. refl)
  no_terms_iff (t ∷ ts) = (λ h. ground arith, λ h. ground arith)

  is_constant_iff : (e : LinearExpr) → (is_constant e ≡ true) ↔ (e.terms ≡ [])
  unfolding is_constant
  is_constant_iff e = no_terms_iff e.terms

  -- In every environment, `is_tautology` accepts a constraint exactly when it has no variables and
  -- holds, and `is_contradiction` exactly when it has no variables and does not hold.
  pub constant_tests_iff :
      (c : LinearConstraint)
      → ((is_tautology c ≡ true) ↔ ((c.expr.terms ≡ []) × Holds env c))
        × ((is_contradiction c ≡ true) ↔ ((c.expr.terms ≡ []) × (¬ Holds env c)))
  constant_tests_iff c = (
    (
      λ h.
          let s = tautology-Says c.expr c.kind h in
          ((is_constant_iff c.expr).0 s.0, rw (constant_value env c.expr s.0) s.1),
      λ h.
          let k = (is_constant_iff c.expr).1 h.0 in
          Says-tautology c.expr c.kind k (rw⁻¹ (constant_value env c.expr k) h.1),
    ),
    (
      λ h.
          let s = contradiction-Says c.expr c.kind h in
          ((is_constant_iff c.expr).0 s.0, rw (constant_value env c.expr s.0) s.1),
      λ h.
          let k = (is_constant_iff c.expr).1 h.0 in
          Says-contradiction c.expr c.kind k (rw⁻¹ (constant_value env c.expr k) h.1),
    ),
  )
