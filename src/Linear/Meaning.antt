-- ===== src/Linear/Meaning.antt =====
-- linear.hpp: the value of a linear expression for given values of the variables, and what the operators
-- do to it.
use knight.Prelude.{
  ℕ, ◌*◌, ◌≡◌, refl, ap, ◌∙◌, sym, inl, inr, Bool-cases, Option-cases, none, some, [], ◌∷◌, arith,
  true, false, if◌then◌else◌, not, ◌==◌, ==_iff,
}
use knight.Prelude.Assoc.{find, put, erase}
use knight.Prelude.Int.{
  ℤ, pos, negsuc, pos_part, neg_part, ◌+ℤ◌, ◌-ℤ◌, ◌*ℤ◌, neg_ℤ, eqb_ℤ, int_laws, eq_of_parts,
  eqb_ℤ→eq, *ℤ_distrib_right, neg_ℤ-*ℤ, *ℤ_parts,
}
use knight.Linear.{
  Var, Terms, LinearExpr, empty_expr, expr_of_var, expr_of_term, plus_num, plus_terms, is_constant,
  plus_term, plus_var, add_terms, plus_expr, minus_num, minus_var, sub_terms, minus_expr,
  scale_terms, scale, negated,
}

abbrev pub Env : Type 0
Env = Var → ℤ

unfoldable pub eval_terms : Env → Terms → ℤ
eval_terms env [] = pos 0
eval_terms env ((x, c) ∷ rest) = c *ℤ env x +ℤ eval_terms env rest

unfoldable pub eval : Env → LinearExpr → ℤ
unfolding eval_terms
eval env e = e.constant +ℤ eval_terms env e.terms

zero_times : (v : ℤ) → pos 0 *ℤ v ≡ pos 0
unfolding ◌*ℤ◌
zero_times v = ground arith

one_times : (v : ℤ) → pos 1 *ℤ v ≡ v
unfolding ◌*ℤ◌
one_times v = ground arith

pub minus_one_times : (v : ℤ) → negsuc 0 *ℤ v ≡ neg_ℤ v
unfolding ◌*ℤ◌ neg_ℤ
minus_one_times v = ground arith

pub times_minus_one : (v : ℤ) → v *ℤ negsuc 0 ≡ neg_ℤ v
unfolding ◌*ℤ◌ neg_ℤ
times_minus_one v = ground arith

times_zero : (v : ℤ) → v *ℤ pos 0 ≡ pos 0
unfolding ◌*ℤ◌
times_zero v = ground arith

*ℤ_swap : (c n v : ℤ) → c *ℤ n *ℤ v ≡ c *ℤ v *ℤ n
*ℤ_swap c n v = eq_of_parts _ _ (
    omega (
      int_laws,
      ap (λ (t : ℕ). t * pos_part v) (*ℤ_parts c n),
      ap (λ (t : ℕ). t * neg_part v) (*ℤ_parts c n),
      ap (λ (t : ℕ). t * pos_part n) (*ℤ_parts c v),
      ap (λ (t : ℕ). t * neg_part n) (*ℤ_parts c v),
    ))

scale_zero : (e : LinearExpr) (n : ℤ) → eqb_ℤ n (pos 0) ≡ true → scale e n ≡ empty_expr
unfolding scale empty_expr
scale_zero e n z = rw z refl

scale_nonzero :
    (e : LinearExpr) (n : ℤ)
    → eqb_ℤ n (pos 0) ≡ false
    → scale e n ≡ record { terms = scale_terms e.terms n; constant = e.constant *ℤ n }
unfolding scale
scale_nonzero e n z = rw z refl

sum_zero : (c k v r : ℤ) → eqb_ℤ (c +ℤ k) (pos 0) ≡ true → r ≡ c *ℤ v +ℤ r +ℤ k *ℤ v
sum_zero c k v r z =
    let none_left : c *ℤ v +ℤ k *ℤ v ≡ pos 0 =
      sym (*ℤ_distrib_right c k v) ∙ ap (λ t. t *ℤ v) (eqb_ℤ→eq _ _ z) ∙ zero_times v in
    omega (int_laws, ap pos_part none_left, ap neg_part none_left)

plus_terms_absent :
    (m : Terms) (k : ℤ) (x : Var)
    → find x m ≡ none
    → plus_terms m k x ≡ (if not (eqb_ℤ k (pos 0)) then put x k m else m)
unfolding plus_terms
plus_terms_absent m k x e = rw (e, plus_terms) refl

plus_terms_present :
    (m : Terms) (k : ℤ) (x : Var) (c : ℤ)
    → find x m ≡ some c
    → plus_terms m k x ≡ (if eqb_ℤ (c +ℤ k) (pos 0) then erase x m else put x (c +ℤ k) m)
unfolding plus_terms
plus_terms_present m k x c e = rw (e, plus_terms) refl

module _ (env : Env) where
  eval_terms-put_new :
      (x : Var) (k : ℤ) (m : Terms)
      → find x m ≡ none
      → eval_terms env (put x k m) ≡ eval_terms env m +ℤ k *ℤ env x
  unfolding eval_terms
  eval_terms-put_new x k [] h = omega int_laws
  eval_terms-put_new x k ((y, c) ∷ m) h = elim (Bool-cases (y == x)) [
    | inl e ↦ ground arith
    | inr e ↦ rw e (rw (eval_terms-put_new x k m (ground arith)) (omega int_laws))
  ]

  -- An entry that is there counts apart.
  eval_terms-erase :
      (x : Var) (c : ℤ) (m : Terms)
      → find x m ≡ some c
      → eval_terms env m ≡ c *ℤ env x +ℤ eval_terms env (erase x m)
  unfolding eval_terms
  eval_terms-erase x c [] h = cc
  eval_terms-erase x c ((y, d) ∷ m) h = elim (Bool-cases (y == x)) [
    | inl e ↦
        let same : y ≡ x = (==_iff y x).0 e in
        let value : d ≡ c = ground arith in rw (e, same, value) refl
    | inr e ↦ rw e (rw (eval_terms-erase x c m (ground arith)) (omega int_laws))
  ]

  eval_terms-put :
      (x : Var) (c k : ℤ) (m : Terms)
      → find x m ≡ some c
      → eval_terms env (put x k m) ≡ k *ℤ env x +ℤ eval_terms env (erase x m)
  unfolding eval_terms
  eval_terms-put x c k [] h = cc
  eval_terms-put x c k ((y, d) ∷ m) h = elim (Bool-cases (y == x)) [
    | inl e ↦ let same : y ≡ x = (==_iff y x).0 e in rw (e, same) refl
    | inr e ↦ rw e (rw (eval_terms-put x c k m (ground arith)) (omega int_laws))
  ]

  -- `plus` adds the term, whether the variable is there or not.
  eval-plus_terms :
      (k : ℤ) (x : Var) (m : Terms)
      → eval_terms env (plus_terms m k x) ≡ eval_terms env m +ℤ k *ℤ env x
  eval-plus_terms k x m = elim (Option-cases (find x m)) [
    | inl e ↦ rw (plus_terms_absent m k x e) (elim (Bool-cases (eqb_ℤ k (pos 0))) [
      | inl z ↦ rw (z, eqb_ℤ→eq k (pos 0) z) (rw (zero_times (env x)) (omega int_laws))
      | inr z ↦ rw z (eval_terms-put_new x k m e)
    ])
    | inr (c, e) ↦
        rw (plus_terms_present m k x c e, eval_terms-erase x c m e)
          (elim (Bool-cases (eqb_ℤ (c +ℤ k) (pos 0))) [
            | inl z ↦ rw z (sum_zero c k (env x) (eval_terms env (erase x m)) z)
            | inr z ↦ rw (z, eval_terms-put x c (c +ℤ k) m e, *ℤ_distrib_right) (omega int_laws)
          ])
  ]

  eval_terms-add_terms :
      (m l : Terms) → eval_terms env (add_terms m l) ≡ eval_terms env m +ℤ eval_terms env l
  unfolding add_terms eval_terms
  eval_terms-add_terms m [] = omega int_laws
  eval_terms-add_terms m ((x, c) ∷ l) =
      eval_terms-add_terms (plus_terms m c x) l ∙ rw (eval-plus_terms c x m) (omega int_laws)

  eval_terms-sub_terms :
      (m l : Terms) → eval_terms env (sub_terms m l) ≡ eval_terms env m -ℤ eval_terms env l
  unfolding sub_terms eval_terms
  eval_terms-sub_terms m [] = omega int_laws
  eval_terms-sub_terms m ((x, c) ∷ l) =
      eval_terms-sub_terms (plus_terms m (neg_ℤ c) x) l
      ∙ rw (eval-plus_terms (neg_ℤ c) x m, neg_ℤ-*ℤ) (omega int_laws)

  eval_terms-scale_terms :
      (m : Terms) (n : ℤ) → eval_terms env (scale_terms m n) ≡ eval_terms env m *ℤ n
  unfolding scale_terms eval_terms
  eval_terms-scale_terms [] n = sym (zero_times n)
  eval_terms-scale_terms ((x, c) ∷ m) n =
      rw (eval_terms-scale_terms m n, *ℤ_distrib_right)
        (ap (λ t. t +ℤ eval_terms env m *ℤ n) (*ℤ_swap c n (env x)))

  pub eval-plus_expr : (e f : LinearExpr) → eval env (plus_expr e f) ≡ eval env e +ℤ eval env f
  unfolding eval plus_expr
  eval-plus_expr e f = rw (eval_terms-add_terms e.terms f.terms) (omega int_laws)

  pub eval-minus_expr : (e f : LinearExpr) → eval env (minus_expr e f) ≡ eval env e -ℤ eval env f
  unfolding eval minus_expr
  eval-minus_expr e f = rw (eval_terms-sub_terms e.terms f.terms) (omega int_laws)

  pub eval-scale : (e : LinearExpr) (n : ℤ) → eval env (scale e n) ≡ eval env e *ℤ n
  unfolding eval empty_expr eval_terms
  eval-scale e n = elim (Bool-cases (eqb_ℤ n (pos 0))) [
    | inl z ↦ rw (scale_zero e n z, eqb_ℤ→eq n (pos 0) z, times_zero) (omega int_laws)
    | inr z ↦ rw (scale_nonzero e n z, *ℤ_distrib_right, eval_terms-scale_terms e.terms n) refl
  ]

  -- In every environment, the sum that `operator+=` makes of two linear expressions has the sum of their
  -- values, the difference that `operator-=` makes has their difference, and an expression after
  -- `operator*=` by n has its value times n, for n zero too.
  pub eval_arithmetic :
      (e f : LinearExpr) (n : ℤ)
      → (eval env (plus_expr e f) ≡ eval env e +ℤ eval env f)
        × (eval env (minus_expr e f) ≡ eval env e -ℤ eval env f)
        × (eval env (scale e n) ≡ eval env e *ℤ n)
  eval_arithmetic e f n = (eval-plus_expr e f, eval-minus_expr e f, eval-scale e n)

  pub eval-negated : (e : LinearExpr) → eval env (negated e) ≡ neg_ℤ (eval env e)
  unfolding negated
  eval-negated e = eval-scale e (negsuc 0) ∙ times_minus_one (eval env e)

  pub eval-plus_num : (e : LinearExpr) (n : ℤ) → eval env (plus_num e n) ≡ eval env e +ℤ n
  unfolding eval plus_num
  eval-plus_num e n = omega int_laws

  pub eval-minus_num : (e : LinearExpr) (n : ℤ) → eval env (minus_num e n) ≡ eval env e -ℤ n
  unfolding eval minus_num
  eval-minus_num e n = omega int_laws

  pub eval-plus_term :
      (e : LinearExpr) (k : ℤ) (x : Var) → eval env (plus_term e k x) ≡ eval env e +ℤ k *ℤ env x
  unfolding eval plus_term
  eval-plus_term e k x = rw (eval-plus_terms k x e.terms) (omega int_laws)

  pub eval-plus_var : (e : LinearExpr) (x : Var) → eval env (plus_var e x) ≡ eval env e +ℤ env x
  unfolding plus_var
  eval-plus_var e x = eval-plus_term e (pos 1) x ∙ rw (one_times (env x)) refl

  pub eval-minus_var : (e : LinearExpr) (x : Var) → eval env (minus_var e x) ≡ eval env e -ℤ env x
  unfolding minus_var
  eval-minus_var e x = eval-plus_term e (negsuc 0) x ∙ rw (minus_one_times (env x)) (omega int_laws)

  pub eval-expr_of_var : (x : Var) → eval env (expr_of_var x) ≡ env x
  unfolding eval expr_of_var eval_terms
  eval-expr_of_var x = rw (one_times (env x)) (omega int_laws)

  pub eval-expr_of_term : (k : ℤ) (x : Var) → eval env (expr_of_term k x) ≡ k *ℤ env x
  unfolding eval expr_of_term eval_terms
  eval-expr_of_term k x = elim (Bool-cases (eqb_ℤ k (pos 0))) [
    | inl z ↦ rw (z, eqb_ℤ→eq k (pos 0) z) (rw (zero_times (env x)) (omega int_laws))
    | inr z ↦ rw z (omega int_laws)
  ]

-- The value of a constant expression is its constant.
eval-no_terms : (env : Env) (n : ℤ) → eval env (record { constant = n; terms = [] }) ≡ n
unfolding eval eval_terms
eval-no_terms env n = omega int_laws

constant_terms :
    (n : ℤ) (ts : Terms) → is_constant (record { constant = n; terms = ts }) ≡ true → ts ≡ []
unfolding is_constant
constant_terms n [] h = refl
constant_terms n (t ∷ ts) h = ground arith

pub constant_value : (env : Env) (e : LinearExpr) → is_constant e ≡ true → eval env e ≡ e.constant
constant_value env e h =
    ap (λ ts. eval env (record { constant = e.constant; terms = ts }))
      (constant_terms e.constant e.terms h)
    ∙ eval-no_terms env e.constant
