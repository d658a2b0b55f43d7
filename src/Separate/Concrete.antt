-- ===== src/Separate/Concrete.antt =====
-- separate_numerical_domain.hpp: the environments that a domain describes, and the lattice operations.
use knight.Prelude.{
  ◌≡◌, refl, ◌∙◌, sym, ap, ◌↔◌, ◌⊎◌, inl, inr, Bool-cases, Option-cases, true, false, Option, none,
  some, List,
}
use knight.Prelude.Int.{ℤ}
use knight.Prelude.Assoc.{find, IsMap}
use knight.Linear.{Var}
use knight.Linear.Meaning.{Env}
use knight.Separate.{Values, Dom, merge_tables, get_value, merge_up, join_with, widen_with}
use knight.Separate.Lookup.{none-some, combine, find-merge_tables, merge_tables-IsMap}
use knight.Separate.Laws.{IsNumerical}

module _ {V : Type 0} {ops : Values V} (laws : IsNumerical V ops) where
  -- Every variable has one of the integers of its value, as `get_value` reads it.
  abbrev pub Describes : Dom V → Env → Type 0
  Describes d env = (k : Var) → laws.Has (get_value ops d k) (env k)

  -- Each variable has one entry at most, and the entries meet the invariant of their class.
  pub record IsWellFormed (m : List (Var × V)) : Type 0 where
    pub map : IsMap m
    pub good : (k : Var) (v : V) → find k m ≡ some v → laws.IsGood v

  abbrev pub entry_value : Option V → V
  entry_value none = ops.default_val
  entry_value (some v) = v

  pub get_value-of :
      (d : Dom V) (k : Var)
      → d.bottom_flag ≡ false
      → get_value ops d k ≡ entry_value (find k d.table)
  unfolding get_value
  get_value-of d k h = elim (Option-cases (find k d.table)) [
    | inl e ↦ rw (h, e) refl
    | inr (v, e) ↦ rw (h, e) refl
  ]

  pub bottom-Describes : (d : Dom V) (env : Env) → d.bottom_flag ≡ true → ¬ Describes d env
  unfolding get_value
  bottom-Describes d env h g = laws.bottom-empty (env 0) (rw h at (g 0))

  -- The same, entry by entry.
  pub Describes-iff :
      (d : Dom V) (env : Env)
      → d.bottom_flag ≡ false
      → Describes d env ↔ ((k : Var) → laws.Has (entry_value (find k d.table)) (env k))
  Describes-iff d env h =
      (λ g k. rw (← get_value-of d k h) (g k), λ g k. rw (get_value-of d k h) (g k))

  pub entry_good :
      (m : List (Var × V)) (k : Var) → IsWellFormed m → laws.IsGood (entry_value (find k m))
  entry_good m k w = elim (Option-cases (find k m)) [
    | inl e ↦ rw e laws.default-good
    | inr (v, e) ↦ rw e (w.good k v e)
  ]

  module _ (f : V → V → V) (d e : Dom V) where
    merge_up_bottom : e.bottom_flag ≡ true → merge_up f d e ≡ d
    unfolding merge_up
    merge_up_bottom b = rw b refl

    merge_up_from_bottom : d.bottom_flag ≡ true → e.bottom_flag ≡ false → merge_up f d e ≡ e
    unfolding merge_up
    merge_up_from_bottom c b = rw (c, b) refl

    merge_up_live :
        d.bottom_flag ≡ false
        → e.bottom_flag ≡ false
        → merge_up f d e ≡ record { table = merge_tables f d.table e.table; bottom_flag = false }
    unfolding merge_up
    merge_up_live c b = rw (c, b) refl

  -- An operation on values, lifted to the entries of a variable in two tables.
  module _ (f : V → V → V)
      (good : (u v : V) → laws.IsGood u → laws.IsGood v → laws.IsGood (f u v)) where
    combine-good :
        (a b : Option V) (v : V)
        → ((u : V) → a ≡ some u → laws.IsGood u)
        → ((u : V) → b ≡ some u → laws.IsGood u)
        → combine f a b ≡ some v
        → laws.IsGood v
    combine-good none b v p q h = q v h
    combine-good (some u) none v p q h = p v h
    combine-good (some u) (some w) v p q h =
        rw (← ap entry_value h) (good u w (p u refl) (q w refl))

    pub merge_tables-IsWellFormed :
        (m l : List (Var × V)) → IsWellFormed m → IsWellFormed l → IsWellFormed (merge_tables f m l)
    merge_tables-IsWellFormed m l w x = record {
      map = merge_tables-IsMap f m l w.map;
      good = λ k v h.
          combine-good (find k m) (find k l) v (w.good k) (x.good k)
            (sym (find-merge_tables f k m l x.map) ∙ h);
    }

    merge_up-IsWellFormed :
        (d e : Dom V)
        → IsWellFormed d.table
        → IsWellFormed e.table
        → IsWellFormed (merge_up f d e).table
    unfolding merge_up
    merge_up-IsWellFormed d e w x = elim (Bool-cases e.bottom_flag) [
      | inl b ↦ rw b w
      | inr b ↦ elim (Bool-cases d.bottom_flag) [
        | inl c ↦ rw (b, c) x
        | inr c ↦ rw (b, c) (merge_tables-IsWellFormed d.table e.table w x)
      ]
    ]

  -- The two domains have entries for the same variables, where neither is bottom.
  abbrev pub SameKeys : Dom V → Dom V → Type 0
  SameKeys d e =
      d.bottom_flag ≡ false
      → e.bottom_flag ≡ false
      → (k : Var) → (find k d.table ≡ none) ↔ (find k e.table ≡ none)

  module _ (f : V → V → V)
      (has : (u v : V) (n : ℤ)
        → laws.IsGood u
        → laws.IsGood v
        → (laws.Has u n ⊎ laws.Has v n)
        → laws.Has (f u v) n) where
    combine-has :
        (a b : Option V) (n : ℤ)
        → laws.IsGood (entry_value a)
        → laws.IsGood (entry_value b)
        → ((a ≡ none) ↔ (b ≡ none))
        → (laws.Has (entry_value a) n ⊎ laws.Has (entry_value b) n)
        → laws.Has (entry_value (combine f a b)) n
    combine-has none none n p q same h = laws.default-full n
    combine-has none (some v) n p q same h = absurd (none-some v (sym (same.0 refl)))
    combine-has (some u) none n p q same h = absurd (none-some u (sym (same.1 refl)))
    combine-has (some u) (some v) n p q same h = has u v n p q h

    merged :
        (d e : Dom V) (env : Env)
        → IsWellFormed d.table
        → IsWellFormed e.table
        → ((k : Var) → (find k d.table ≡ none) ↔ (find k e.table ≡ none))
        → d.bottom_flag ≡ false
        → e.bottom_flag ≡ false
        → ((k : Var)
            → laws.Has (entry_value (find k d.table)) (env k)
              ⊎ laws.Has (entry_value (find k e.table)) (env k))
        → Describes (merge_up f d e) env
    merged d e env w x same c b h = rw (merge_up_live f d e c b) (
        (Describes-iff _ env refl).1 (λ k. rw (find-merge_tables f k d.table e.table x.map) (
          combine-has _ _ (env k) (entry_good d.table k w) (entry_good e.table k x) (same k)
            (h k))))

    merge_up-Describes :
        (d e : Dom V) (env : Env)
        → IsWellFormed d.table
        → IsWellFormed e.table
        → SameKeys d e
        → (Describes d env ⊎ Describes e env)
        → Describes (merge_up f d e) env
    merge_up-Describes d e env w x same (inl h) = elim (Bool-cases e.bottom_flag) [
      | inl b ↦ rw (merge_up_bottom f d e b) h
      | inr b ↦ elim (Bool-cases d.bottom_flag) [
        | inl c ↦ absurd (bottom-Describes d env c h)
        | inr c ↦ merged d e env w x (same c b) c b (λ k. inl ((Describes-iff d env c).0 h k))
      ]
    ]
    merge_up-Describes d e env w x same (inr h) = elim (Bool-cases e.bottom_flag) [
      | inl b ↦ absurd (bottom-Describes e env b h)
      | inr b ↦ elim (Bool-cases d.bottom_flag) [
        | inl c ↦ rw (merge_up_from_bottom f d e c b) h
        | inr c ↦ merged d e env w x (same c b) c b (λ k. inr ((Describes-iff e env b).0 h k))
      ]
    ]

  -- For two well-formed domains with entries for the same variables (where neither is bottom),
  -- `join_with` and `widen_with` give well-formed domains that describe each environment that one
  -- of the operands describes.
  pub join_with-Describes :
      (d e : Dom V) (env : Env)
      → IsWellFormed d.table
      → IsWellFormed e.table
      → SameKeys d e
      → (Describes d env ⊎ Describes e env)
      → (IsWellFormed (join_with ops d e).table × Describes (join_with ops d e) env)
        × (IsWellFormed (widen_with ops d e).table × Describes (widen_with ops d e) env)
  unfolding join_with widen_with
  join_with-Describes d e env w x same h = (
    (
      merge_up-IsWellFormed ops.join_val laws.join-good d e w x,
      merge_up-Describes ops.join_val laws.join-has d e env w x same h,
    ),
    (
      merge_up-IsWellFormed ops.widen_val laws.widen-good d e w x,
      merge_up-Describes ops.widen_val laws.widen-has d e env w x same h,
    ),
  )
