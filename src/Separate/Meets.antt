-- ===== src/Separate/Meets.antt =====
-- separate_numerical_domain.hpp: `meet_with` and `leq` on the environments that the domains describe.
use knight.Prelude.{
  ◌≡◌, refl, ◌∙◌, sym, ap, ◌↔◌, ◌⊎◌, inl, inr, Bool-cases, Option-cases, Bool, true, false, Option,
  none, some, List, [], ◌∷◌, ◌==◌, ==_iff, arith, all, ◌&&◌,
}
use knight.Prelude.Int.{ℤ}
use knight.Prelude.Assoc.{find}
use knight.Linear.{Var}
use knight.Linear.Meaning.{Env}
use knight.Separate.{Values, Dom, meet_tables, bottom_dom, merge_down, meet_with, leq, leq_entry}
use knight.Separate.Lookup.{
  none-some, combine, find-merge_tables, MeetOutcome, meet_tables-MeetOutcome,
}
use knight.Separate.Laws.{IsNumerical}
use knight.Separate.Concrete.{
  Describes, IsWellFormed, entry_value, bottom-Describes, Describes-iff, entry_good,
  merge_tables-IsWellFormed,
}

module _ {V : Type 0} {ops : Values V} (laws : IsNumerical V ops) where
  combine-meet :
      (a b : Option V) (n : ℤ)
      → laws.IsGood (entry_value laws a)
      → laws.IsGood (entry_value laws b)
      → laws.Has (entry_value laws (combine ops.meet_val a b)) n
        ↔ (laws.Has (entry_value laws a) n × laws.Has (entry_value laws b) n)
  combine-meet none b n p q = (λ h. (laws.default-full n, h), λ h. h.1)
  combine-meet (some u) none n p q = (λ h. (h, laws.default-full n), λ h. h.0)
  combine-meet (some u) (some v) n p q = laws.meet-has u v n p q

  empty-IsWellFormed : IsWellFormed laws bottom_dom.table
  unfolding bottom_dom
  empty-IsWellFormed = record { map = tt; good = λ k v h. absurd (none-some v h) }

  bottom_dom-flag : (bottom_dom {V = V}).bottom_flag ≡ true
  unfolding bottom_dom
  bottom_dom-flag = refl

  module _ (f : V → V → V) (d e : Dom V) where
    merge_down_bottom : d.bottom_flag ≡ true → merge_down ops f d e ≡ d
    unfolding merge_down
    merge_down_bottom b = rw b refl

    merge_down_to_bottom : d.bottom_flag ≡ false → e.bottom_flag ≡ true → merge_down ops f d e ≡ e
    unfolding merge_down
    merge_down_to_bottom b c = rw (b, c) refl

    merge_down_live :
        d.bottom_flag ≡ false
        → e.bottom_flag ≡ false
        → merge_down ops f d e ≡ meet_tables ops f d.table e.table
    unfolding merge_down
    merge_down_live b c = rw (b, c) refl

  meet_outcome :
      (d e r : Dom V) (env : Env)
      → IsWellFormed laws d.table
      → IsWellFormed laws e.table
      → d.bottom_flag ≡ false
      → e.bottom_flag ≡ false
      → MeetOutcome ops.meet_val ops d.table e.table r
      → IsWellFormed laws r.table
        × (Describes laws r env ↔ (Describes laws d env × Describes laws e env))
  meet_outcome d e r env w x b c MeetOutcome.merged = (
    merge_tables-IsWellFormed laws ops.meet_val laws.meet-good d.table e.table w x,
    (
      λ h.
          let both = λ (k : Var). (entries k).0 (
            rw (find-merge_tables ops.meet_val k d.table e.table x.map) at
              ((Describes-iff laws _ env refl).0 h k)) in
          (
            (Describes-iff laws d env b).1 (λ k. (both k).0),
            (Describes-iff laws e env c).1 (λ k. (both k).1),
          ),
      λ h. (Describes-iff laws _ env refl).1 (λ k.
          rw (find-merge_tables ops.meet_val k d.table e.table x.map) (
            (entries k).1
              ((Describes-iff laws d env b).0 h.0 k, (Describes-iff laws e env c).0 h.1 k))),
    ),
  )
    where
      entries :
          (k : Var)
          → laws.Has
              (entry_value laws (combine ops.meet_val (find k d.table) (find k e.table)))
              (env k)
            ↔ (laws.Has (entry_value laws (find k d.table)) (env k)
                × laws.Has (entry_value laws (find k e.table)) (env k))
      entries k =
          combine-meet (find k d.table) (find k e.table) (env k) (entry_good laws d.table k w)
            (entry_good laws e.table k x)
  meet_outcome d e r env w x b c (MeetOutcome.stopped k u v p q t) = (
    empty-IsWellFormed,
    (
      λ h. absurd (bottom-Describes laws bottom_dom env bottom_dom-flag h),
      λ h. absurd (
          laws.bottom_empty (ops.meet_val u v) (env k) t (
            (laws.meet-has u v (env k) (w.good k u p) (x.good k v q)).1 (
              rw p at ((Describes-iff laws d env b).0 h.0 k),
              rw q at ((Describes-iff laws e env c).0 h.1 k),
            ))),
    ),
  )

  -- For two well-formed domains over values that meet the laws, `meet_with` gives a well-formed
  -- domain that describes an environment exactly when both do; the early returns on bottom values
  -- are included.
  pub meet_with-Describes :
      (d e : Dom V) (env : Env)
      → IsWellFormed laws d.table
      → IsWellFormed laws e.table
      → IsWellFormed laws (meet_with ops d e).table
        × (Describes laws (meet_with ops d e) env ↔ (Describes laws d env × Describes laws e env))
  unfolding meet_with
  meet_with-Describes d e env w x = elim (Bool-cases d.bottom_flag) [
    | inl b ↦
        rw (merge_down_bottom ops.meet_val d e b)
          (w, (λ h. absurd (bottom-Describes laws d env b h), λ h. h.0))
    | inr b ↦ elim (Bool-cases e.bottom_flag) [
      | inl c ↦
          rw (merge_down_to_bottom ops.meet_val d e b c)
            (x, (λ h. absurd (bottom-Describes laws e env c h), λ h. h.1))
      | inr c ↦ rw (merge_down_live ops.meet_val d e b c) (
          meet_outcome d e _ env w x b c
            (meet_tables-MeetOutcome ops.meet_val ops d.table e.table x.map))
    ]
  ]

  and_first : (a b : Bool) → (a && b) ≡ true → a ≡ true
  and_first a b h = ground arith

  leq_entry-some :
      (j : Var) (w : V) (l : List (Var × V)) (v : V)
      → find j l ≡ some v
      → leq_entry ops l (j, w) ≡ ops.leq_val w v
  unfolding leq_entry
  leq_entry-some j w l v h = rw (h, leq_entry) refl

  leq_live :
      (d e : Dom V)
      → d.bottom_flag ≡ false
      → leq ops d e ≡ true
      → (e.bottom_flag ≡ false) × (all (leq_entry ops e.table) d.table ≡ true)
  unfolding leq
  leq_live d e b h = elim (Bool-cases e.bottom_flag) [
    | inl c ↦ ground arith
    | inr c ↦ (c, rw (b, c) at h)
  ]

  leq_entries :
      (m l : List (Var × V)) (k : Var) (u v : V)
      → all (leq_entry ops l) m ≡ true
      → find k m ≡ some u
      → find k l ≡ some v
      → ops.leq_val u v ≡ true
  leq_entries [] l k u v h p q = absurd (none-some u p)
  leq_entries ((j, w) ∷ m) l k u v h p q = elim (Bool-cases (j == k)) [
    | inl s ↦
        let same : w ≡ u = ap (entry_value laws) (rw s at p) in
        rw (← same) (
          sym (leq_entry-some j w l v (rw ((==_iff j k).0 s) q))
          ∙ and_first (leq_entry ops l (j, w)) (all (leq_entry ops l) m) h)
    | inr s ↦ leq_entries m l k u v (ground arith) (rw s at p) q
  ]

  -- For two well-formed domains, the second without an entry for a variable that the first lacks,
  -- if `leq` is true then the second describes each environment that the first describes.
  pub leq-Describes :
      (d e : Dom V) (env : Env)
      → IsWellFormed laws d.table
      → IsWellFormed laws e.table
      → ((k : Var) → find k d.table ≡ none → find k e.table ≡ none)
      → leq ops d e ≡ true
      → Describes laws d env
      → Describes laws e env
  leq-Describes d e env w x keys h g = elim (Bool-cases d.bottom_flag) [
    | inl b ↦ absurd (bottom-Describes laws d env b g)
    | inr b ↦
        let (c, entries) = leq_live d e b h in
        (Describes-iff laws e env c).1 (λ k.
          above entries k ((Describes-iff laws d env b).0 g k) (Option-cases (find k d.table))
            (Option-cases (find k e.table)))
  ]
    where
      above :
          all (leq_entry ops e.table) d.table ≡ true
          → (k : Var) → laws.Has (entry_value laws (find k d.table)) (env k)
          → (find k d.table ≡ none) ⊎ ((u : V) × (find k d.table ≡ some u))
          → (find k e.table ≡ none) ⊎ ((v : V) × (find k e.table ≡ some v))
          → laws.Has (entry_value laws (find k e.table)) (env k)
      above all_leq k r a (inl q) = rw q (laws.default-full (env k))
      above all_leq k r (inl p) (inr (v, q)) = absurd (none-some v (sym (keys k p) ∙ q))
      above all_leq k r (inr (u, p)) (inr (v, q)) = rw q (
          laws.leq-has u v (env k) (w.good k u p) (x.good k v q)
            (leq_entries d.table e.table k u v all_leq p q) (rw p at r))
