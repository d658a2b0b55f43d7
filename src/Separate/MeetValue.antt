-- ===== src/Separate/MeetValue.antt =====
-- separate_numerical_domain.hpp: `meet_value` on the environments that the domains describe.
use knight.Prelude.{
  ◌≡◌, refl, sym, ap, subst, ◌↔◌, ◌⊎◌, inl, inr, Bool-cases, Option-cases, true, false, none, some,
  List, ◌==◌, ==_iff,
}
use knight.Prelude.Assoc.{find, put, find-put, put-IsMap}
use knight.Linear.{Var}
use knight.Linear.Meaning.{Env}
use knight.Separate.{Values, Dom, set_to_bottom, set_value, meet_entry, meet_value}
use knight.Separate.Lookup.{none-some}
use knight.Separate.Laws.{IsNumerical}
use knight.Separate.Concrete.{Describes, IsWellFormed, entry_value, bottom-Describes, Describes-iff}

-- A domain that is not bottom, with the entries of a table.
abbrev pub live : {V : Type 0} → List (Var × V) → Dom V
live m = record { table = m; bottom_flag = false }

module _ {V : Type 0} {ops : Values V} (laws : IsNumerical V ops) where
  put-IsWellFormed :
      (m : List (Var × V)) (x : Var) (v : V)
      → IsWellFormed laws m
      → laws.IsGood v
      → IsWellFormed laws (put x v m)
  put-IsWellFormed m x v w g = record {
    map = put-IsMap x v m w.map;
    good = λ k u h. elim (Bool-cases (x == k)) [
      | inl s ↦
          let same : some v ≡ some u = rw (find-put x k v m, s) at h in
          rw (← ap (entry_value laws) same) g
      | inr s ↦ let same : find k m ≡ some u = rw (find-put x k v m, s) at h in w.good k u same
    ];
  }

  -- The narrowed entry of `x` in a domain that is not bottom.
  put-Describes :
      (d : Dom V) (x : Var) (v u : V) (env : Env)
      → d.bottom_flag ≡ false
      → laws.Has u (env x)
        ↔ (laws.Has (entry_value laws (find x d.table)) (env x) × laws.Has v (env x))
      → Describes laws (record { table = put x u d.table; bottom_flag = false }) env
        ↔ (Describes laws d env × laws.Has v (env x))
  put-Describes d x v u env b both = (
    λ h.
        let entries = (Describes-iff laws _ env refl).0 h in
        let own : laws.Has u (env x) =
          rw (find-put x x u d.table, (==_iff x x).1 refl) at (entries x) in
        (
          (Describes-iff laws d env b).1 (λ k. elim (Bool-cases (x == k)) [
            | inl s ↦ rw ((==_iff x k).0 s) at ((both.0 own).0)
            | inr s ↦ rw (find-put x k u d.table, s) at (entries k)
          ]),
          (both.0 own).1,
        ),
    λ h. (Describes-iff laws _ env refl).1 (λ k.
        rw (find-put x k u d.table) (elim (Bool-cases (x == k)) [
          | inl s ↦ rw (s, ← (==_iff x k).0 s) (both.1 ((Describes-iff laws d env b).0 h.0 x, h.1))
          | inr s ↦ rw s ((Describes-iff laws d env b).0 h.0 k)
        ])),
  )

  pub live-eq : (d : Dom V) → d.bottom_flag ≡ false → d ≡ live d.table
  live-eq d b = ap (λ f. record { table = d.table; bottom_flag = f }) b

  -- What `meet_value` does to a domain that is not bottom.
  pub data Met (m : List (Var × V)) (x : Var) (v : V) : Dom V → Type 0 where
    kept : ops.is_bottom_val v ≡ false → ops.is_top_val v ≡ true → Met m x v (live m)
    added : ops.is_bottom_val v ≡ false → find x m ≡ none → Met m x v (live (put x v m))
    narrowed :
        (u : V)
        → find x m ≡ some u
        → ops.is_bottom_val (ops.meet_val u v) ≡ false
        → Met m x v (live (put x (ops.meet_val u v) m))
    emptied :
        ((ops.is_bottom_val v ≡ true)
          ⊎ ((u : V) × (find x m ≡ some u) × (ops.is_bottom_val (ops.meet_val u v) ≡ true)))
        → Met m x v (set_to_bottom (live m))

  module _ (m : List (Var × V)) (x : Var) (v : V) where
    meet_value_bottom :
        ops.is_bottom_val v ≡ true → meet_value ops (live m) x v ≡ set_to_bottom (live m)
    unfolding meet_value set_to_bottom set_value
    meet_value_bottom e =
        rw e (elim (Bool-cases (ops.is_top_val v)) [ inl t ↦ rw t refl | inr t ↦ rw t (rw e refl) ])

    meet_value_top :
        ops.is_bottom_val v ≡ false → ops.is_top_val v ≡ true → meet_value ops (live m) x v ≡ live m
    unfolding meet_value
    meet_value_top e t = rw (e, t) refl

    meet_value_new :
        ops.is_bottom_val v ≡ false
        → ops.is_top_val v ≡ false
        → find x m ≡ none
        → meet_value ops (live m) x v ≡ live (put x v m)
    unfolding meet_value set_value
    meet_value_new e t f = rw (e, t, f) (rw (e, t) refl)

    meet_value_old :
        (u : V)
        → ops.is_bottom_val v ≡ false
        → ops.is_top_val v ≡ false
        → find x m ≡ some u
        → ops.is_bottom_val (ops.meet_val u v) ≡ false
        → meet_value ops (live m) x v ≡ live (put x (ops.meet_val u v) m)
    unfolding meet_value meet_entry
    meet_value_old u e t f g = rw (e, t, f, g) (rw e refl)

    meet_value_empty :
        (u : V)
        → ops.is_bottom_val v ≡ false
        → ops.is_top_val v ≡ false
        → find x m ≡ some u
        → ops.is_bottom_val (ops.meet_val u v) ≡ true
        → meet_value ops (live m) x v ≡ set_to_bottom (live m)
    unfolding meet_value meet_entry set_to_bottom
    meet_value_empty u e t f g = rw (e, t, f, g) refl

  meet_value_live : (m : List (Var × V)) (x : Var) (v : V) → Met m x v (meet_value ops (live m) x v)
  meet_value_live m x v = elim (Bool-cases (ops.is_bottom_val v)) [
    | inl e ↦ rw (meet_value_bottom m x v e) (Met.emptied (inl e))
    | inr e ↦ elim (Bool-cases (ops.is_top_val v)) [
      | inl t ↦ rw (meet_value_top m x v e t) (Met.kept e t)
      | inr t ↦ elim (Option-cases (find x m)) [
        | inl f ↦ rw (meet_value_new m x v e t f) (Met.added e f)
        | inr (u, f) ↦ elim (Bool-cases (ops.is_bottom_val (ops.meet_val u v))) [
          | inl g ↦ rw (meet_value_empty m x v u e t f g) (Met.emptied (inr (u, f, g)))
          | inr g ↦ rw (meet_value_old m x v u e t f g) (Met.narrowed u f g)
        ]
      ]
    ]
  ]

  pub Met-of_live :
      (d : Dom V) (x : Var) (v : V) → d.bottom_flag ≡ false → Met d.table x v (meet_value ops d x v)
  Met-of_live d x v b =
      subst (λ e. Met d.table x v (meet_value ops e x v)) (sym (live-eq d b))
        (meet_value_live d.table x v)

  emptied-IsWellFormed : (m : List (Var × V)) → IsWellFormed laws (set_to_bottom (live m)).table
  unfolding set_to_bottom
  emptied-IsWellFormed m = record { map = tt; good = λ k v h. absurd (none-some v h) }

  emptied-flag : (m : List (Var × V)) → (set_to_bottom (live m)).bottom_flag ≡ true
  unfolding set_to_bottom
  emptied-flag m = refl

  -- The outcome is the meet of the domain with the value for the variable.
  pub Narrows : (m : List (Var × V)) (x : Var) (v : V) → Dom V → Type 0
  Narrows m x v r =
      IsWellFormed laws r.table
      × ((env : Env) → Describes laws r env ↔ (Describes laws (live m) env × laws.Has v (env x)))

  Met-Narrows :
      (m : List (Var × V)) (x : Var) (v : V) (r : Dom V)
      → IsWellFormed laws m
      → laws.IsGood v
      → Met m x v r
      → Narrows m x v r
  unfolding Narrows
  Met-Narrows m x v r w g (Met.kept e t) =
      (w, λ env. (λ h. (h, laws.top_full v (env x) g t), λ h. h.0))
  Met-Narrows m x v r w g (Met.added e f) = (
    put-IsWellFormed m x v w g,
    λ env.
        put-Describes (live m) x v v env refl
          (rw f (λ h. (laws.default-full (env x), h), λ h. h.1)),
  )
  Met-Narrows m x v r w g (Met.narrowed u f e) = (
    put-IsWellFormed m x (ops.meet_val u v) w (laws.meet-good u v (w.good x u f) g),
    λ env.
        put-Describes (live m) x v (ops.meet_val u v) env refl
          (rw f (laws.meet-has u v (env x) (w.good x u f) g)),
  )
  Met-Narrows m x v r w g (Met.emptied why) = (
    emptied-IsWellFormed m,
    λ env. (
      λ h. absurd (bottom-Describes laws _ env (emptied-flag m) h),
      λ h. absurd (elim why [
        | inl e ↦ laws.bottom_empty v (env x) e h.1
        | inr (u, f, e) ↦ laws.bottom_empty (ops.meet_val u v) (env x) e (
            (laws.meet-has u v (env x) (w.good x u f) g).1
              (rw f at ((Describes-iff laws (live m) env refl).0 h.0 x), h.1))
      ]),
    ),
  )

  -- For a well-formed domain and a valid value, `meet_value` gives a well-formed domain that describes
  -- an environment exactly when the domain does and the value has the variable's integer.
  pub meet_value-Describes :
      (d : Dom V) (x : Var) (v : V)
      → IsWellFormed laws d.table
      → laws.IsGood v
      → IsWellFormed laws (meet_value ops d x v).table
        × ((env : Env)
            → Describes laws (meet_value ops d x v) env
              ↔ (Describes laws d env × laws.Has v (env x)))
  unfolding Narrows
  meet_value-Describes d x v w g = elim (Bool-cases d.bottom_flag) [
    | inl b ↦
        rw (meet_value_of_bottom d x v b)
          (w, λ env. (λ h. absurd (bottom-Describes laws d env b h), λ h. h.0))
    | inr b ↦
        let (good, iff) = Met-Narrows d.table x v _ w g (Met-of_live d x v b) in
        (
          good,
          λ env.
              subst
                (λ e.
                  Describes laws (meet_value ops d x v) env
                  ↔ (Describes laws e env × laws.Has v (env x)))
                (sym (live-eq d b)) (iff env),
        )
  ]
    where
      meet_value_of_bottom :
          (d : Dom V) (x : Var) (v : V) → d.bottom_flag ≡ true → meet_value ops d x v ≡ d
      meet_value_of_bottom d x v b = unfold meet_value in rw b refl
