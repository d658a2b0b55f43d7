-- ===== src/Separate/Assign.antt =====
-- separate_numerical_domain.hpp: the updates and assignments on the environments that a domain describes.
use knight.Prelude.{
  ◌≡◌, refl, ◌∙◌, sym, ap, inl, inr, Bool-cases, true, false, none, some, List, [], ◌∷◌, ◌==◌,
  ==_iff, if◌then◌else◌, arith, Returns, Returns-bind, ◌>>=◌,
}
use knight.Prelude.Int.{ℤ, pos, ◌+ℤ◌, ◌*ℤ◌, int_laws}
use knight.Prelude.Assoc.{
  find, put, erase, find-put, find-erase_ne, find-erase_self, IsMap, put-IsMap, erase-IsMap,
}
use knight.Linear.{Var, Terms, LinearExpr}
use knight.Linear.Meaning.{Env, eval, eval_terms}
use knight.Separate.{Values, Dom, get_value, set_value, forget}
use knight.Separate.Transfer.{project_terms, project, assign_linear_expr}
use knight.Separate.Lookup.{none-some}
use knight.Separate.Laws.{IsNumerical}
use knight.Separate.Concrete.{
  Describes, IsWellFormed, entry_value, get_value-of, bottom-Describes, Describes-iff, entry_good,
}

plus_zero : (n : ℤ) → n +ℤ pos 0 ≡ n
plus_zero n = omega int_laws

plus_assoc : (a b c : ℤ) → a +ℤ (b +ℤ c) ≡ a +ℤ b +ℤ c
plus_assoc a b c = omega int_laws

module _ {V : Type 0} {ops : Values V} (laws : IsNumerical V ops) where
  abbrev pub update : Env → Var → ℤ → Env
  update env x n k = if x == k then n else env k

  -- A table that has the value for the variable and the old entries for the others.
  updated :
      (m l : List (Var × V)) (env : Env) (x : Var) (v : V) (n : ℤ)
      → ((k : Var) → laws.Has (entry_value laws (find k m)) (env k))
      → laws.Has v n
      → ((k : Var)
          → entry_value laws (find k l) ≡ (if x == k then v else entry_value laws (find k m)))
      → (k : Var) → laws.Has (entry_value laws (find k l)) (update env x n k)
  updated m l env x v n h p same k =
      rw (same k) (elim (Bool-cases (x == k)) [ inl s ↦ rw s p | inr s ↦ rw s (h k) ])

  find-erase :
      (k x : Var) (m : List (Var × V))
      → IsMap m
      → find k (erase x m) ≡ (if x == k then none else find k m)
  find-erase k x m w = elim (Bool-cases (x == k)) [
    | inl s ↦ rw (s, ← (==_iff x k).0 s) (find-erase_self x m w)
    | inr s ↦ rw s (find-erase_ne x k m (ground arith))
  ]

  erase_table :
      (m : List (Var × V)) (x : Var)
      → IsWellFormed laws m
      → IsWellFormed laws (erase x m)
        × ((k : Var)
            → entry_value laws (find k (erase x m))
              ≡ (if x == k then ops.default_val else entry_value laws (find k m)))
  erase_table m x w = (
    record {
      map = erase-IsMap x m w.map;
      good = λ k v h. elim (Bool-cases (x == k)) [
        | inl s ↦ absurd (none-some v (sym (find-erase k x m w.map ∙ rw s refl) ∙ h))
        | inr s ↦ w.good k v (sym (find-erase k x m w.map ∙ rw s refl) ∙ h)
      ];
    },
    λ k.
        rw (find-erase k x m w.map)
          (elim (Bool-cases (x == k)) [ inl s ↦ rw s refl | inr s ↦ rw s refl ]),
  )

  same_good : (u v : V) → laws.IsGood u → some u ≡ some v → laws.IsGood v
  same_good u v g h = let same : u ≡ v = ap (entry_value laws) h in rw (← same) g

  put_table :
      (m : List (Var × V)) (x : Var) (u : V)
      → IsWellFormed laws m
      → laws.IsGood u
      → IsWellFormed laws (put x u m)
        × ((k : Var)
            → entry_value laws (find k (put x u m))
              ≡ (if x == k then u else entry_value laws (find k m)))
  put_table m x u w g = (
    record {
      map = put-IsMap x u m w.map;
      good = λ k v h. elim (Bool-cases (x == k)) [
        | inl s ↦ same_good u v g (sym (find-put x k u m ∙ rw s refl) ∙ h)
        | inr s ↦ w.good k v (sym (find-put x k u m ∙ rw s refl) ∙ h)
      ];
    },
    λ k.
        rw (find-put x k u m)
          (elim (Bool-cases (x == k)) [ inl s ↦ rw s refl | inr s ↦ rw s refl ]),
  )

  module _ (d : Dom V) (x : Var) where
    forget_live :
        d.bottom_flag ≡ false → forget d x ≡ record { table = erase x d.table; bottom_flag = false }
    unfolding forget
    forget_live b = rw b refl

    set_value_top :
        (v : V)
        → d.bottom_flag ≡ false
        → ops.is_bottom_val v ≡ false
        → ops.is_top_val v ≡ true
        → set_value ops d x v ≡ forget d x
    unfolding set_value
    set_value_top v b c t = rw (b, c, t) refl

    set_value-put :
        (v : V)
        → d.bottom_flag ≡ false
        → ops.is_bottom_val v ≡ false
        → ops.is_top_val v ≡ false
        → set_value ops d x v ≡ record { table = put x v d.table; bottom_flag = false }
    unfolding set_value
    set_value-put v b c t = rw (b, c, t) refl

  -- For a well-formed domain that describes an environment, `forget` of x gives a well-formed
  -- domain that describes the environment with any integer for x.
  pub forget-Describes :
      (d : Dom V) (env : Env) (x : Var) (n : ℤ)
      → IsWellFormed laws d.table
      → Describes laws d env
      → IsWellFormed laws (forget d x).table × Describes laws (forget d x) (update env x n)
  forget-Describes d env x n w h = elim (Bool-cases d.bottom_flag) [
    | inl b ↦ absurd (bottom-Describes laws d env b h)
    | inr b ↦
        let (good, entries) = erase_table d.table x w in
        rw (forget_live d x b) (
          good,
          (Describes-iff laws _ (update env x n) refl).1 (
              updated d.table (erase x d.table) env x ops.default_val n
                ((Describes-iff laws d env b).0 h) (laws.default-full n) entries),
        )
  ]

  -- For a well-formed domain that describes an environment and a valid value that has the integer
  -- n, `set_value` gives a well-formed domain that describes the environment with x set to n.
  pub set_value-Describes :
      (d : Dom V) (env : Env) (x : Var) (v : V) (n : ℤ)
      → IsWellFormed laws d.table
      → laws.IsGood v
      → Describes laws d env
      → laws.Has v n
      → IsWellFormed laws (set_value ops d x v).table
        × Describes laws (set_value ops d x v) (update env x n)
  set_value-Describes d env x v n w g h p = elim (Bool-cases d.bottom_flag) [
    | inl b ↦ absurd (bottom-Describes laws d env b h)
    | inr b ↦ elim (Bool-cases (ops.is_bottom_val v)) [
      | inl c ↦ absurd (laws.bottom_empty v n c p)
      | inr c ↦ elim (Bool-cases (ops.is_top_val v)) [
        | inl t ↦ rw (set_value_top d x v b c t) (forget-Describes d env x n w h)
        | inr t ↦
            let (good, entries) = put_table d.table x v w g in
            rw (set_value-put d x v b c t) (
              good,
              (Describes-iff laws _ (update env x n) refl).1 (
                  updated d.table (put x v d.table) env x v n ((Describes-iff laws d env b).0 h) p
                    entries),
            )
      ]
    ]
  ]

  pub get_value-good :
      (d : Dom V) (k : Var) → IsWellFormed laws d.table → laws.IsGood (get_value ops d k)
  get_value-good d k w = elim (Bool-cases d.bottom_flag) [
    | inl b ↦ unfold get_value in rw b laws.bottom-good
    | inr b ↦ rw (get_value-of laws d k b) (entry_good laws d.table k w)
  ]

  -- The loop of `project` covers the value of the terms, added to what it starts with.
  project_terms_covers :
      (d : Dom V) (env : Env) (val : V) (n : ℤ) (ts : Terms)
      → IsWellFormed laws d.table
      → Describes laws d env
      → laws.IsGood val
      → laws.Has val n
      → Returns
          (λ v. laws.IsGood v × laws.Has v (n +ℤ eval_terms env ts))
          (project_terms ops d val ts)
  unfolding project_terms eval_terms
  project_terms_covers d env val n [] w h g p = (g, rw (plus_zero n) p)
  project_terms_covers d env val n ((x, coeff) ∷ rest) w h g p =
      let Q : V → Type 0 =
        λ v. laws.IsGood v × laws.Has v (n +ℤ (coeff *ℤ env x +ℤ eval_terms env rest)) in
      Returns-bind
        (λ u.
          laws.IsGood u
          × ((i j : ℤ)
              → laws.Has (ops.of_num coeff) i
              → laws.Has (get_value ops d x) j
              → laws.Has u (i *ℤ j)))
        Q (ops.mul_val (ops.of_num coeff) (get_value ops d x))
        (λ product. ops.add_assign_val val product >>= (λ sum. project_terms ops d sum rest))
        (laws.mul-has (ops.of_num coeff) (get_value ops d x) (laws.of_num-good coeff)
          (get_value-good d x w))
        (λ product pg.
          Returns-bind
            (λ u.
              laws.IsGood u
              × ((i j : ℤ) → laws.Has val i → laws.Has product j → laws.Has u (i +ℤ j)))
            Q (ops.add_assign_val val product) (λ sum. project_terms ops d sum rest)
            (laws.add_assign-has val product g pg.0)
            (λ sum sg. rw (plus_assoc n (coeff *ℤ env x) (eval_terms env rest)) (
              project_terms_covers d env sum (n +ℤ coeff *ℤ env x) rest w h sg.0
                (sg.1 n (coeff *ℤ env x) p (pg.1 coeff (env x) (laws.of_num-has coeff) (h x))))))

  project_live :
      (d : Dom V) (e : LinearExpr)
      → d.bottom_flag ≡ false
      → project ops d e ≡ project_terms ops d (ops.of_num e.constant) e.terms
  unfolding project
  project_live d e b = rw b refl

  project_covers :
      (d : Dom V) (env : Env) (e : LinearExpr)
      → IsWellFormed laws d.table
      → Describes laws d env
      → Returns (λ v. laws.IsGood v × laws.Has v (eval env e)) (project ops d e)
  unfolding eval
  project_covers d env e w h = elim (Bool-cases d.bottom_flag) [
    | inl b ↦ absurd (bottom-Describes laws d env b h)
    | inr b ↦ rw (project_live d e b) (
        project_terms_covers d env (ops.of_num e.constant) e.constant e.terms w h
          (laws.of_num-good e.constant) (laws.of_num-has e.constant))
  ]

  -- For a well-formed domain that describes an environment, assigning a linear expression to x
  -- ends with a well-formed domain that describes the environment with x set to the value of the
  -- expression, for any class of values that meets the laws, as intervals do.
  pub assign_linear_expr-Describes :
      (d : Dom V) (env : Env) (x : Var) (e : LinearExpr)
      → IsWellFormed laws d.table
      → Describes laws d env
      → Returns
          (λ r. IsWellFormed laws r.table × Describes laws r (update env x (eval env e)))
          (assign_linear_expr ops d x e)
  unfolding assign_linear_expr eval
  assign_linear_expr-Describes d env x e w h =
      Returns-bind (λ v. laws.IsGood v × laws.Has v (eval env e))
        (λ r. IsWellFormed laws r.table × Describes laws r (update env x (eval env e)))
        (project ops d e) (λ v. some (set_value ops d x v)) (project_covers d env e w h)
        (λ v g. set_value-Describes d env x v (eval env e) w g.0 h g.1)
