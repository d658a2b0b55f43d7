-- ===== src/Separate/Lookup.antt =====
-- separate_numerical_domain.hpp: what a variable's entry is after the loops over the other table.
use knight.Prelude.{
  ◌≡◌, refl, ◌∙◌, sym, ap, inl, inr, Bool-cases, Option-cases, true, false, Option, none, some,
  List, [], ◌∷◌, ◌==◌, ==_iff, if◌then◌else◌, arith,
}
use knight.Prelude.Assoc.{find, find-put, IsMap, put-IsMap}
use knight.Linear.{Var}
use knight.Separate.{Values, Dom, merge_entry, merge_tables, meet_tables, bottom_dom}

-- Both entries of a variable, put together.
abbrev pub combine : {V : Type 0} → (V → V → V) → Option V → Option V → Option V
combine f none o = o
combine f (some u) none = some u
combine f (some u) (some v) = some (f u v)

module _ {V : Type 0} where
  pub none-some : (w : V) → none ≡ some w → ⊥
  none-some w h = ground arith

  other_key :
      (k j : Var) (w : V) (m : List (Var × V))
      → find k m ≡ none
      → find j m ≡ some w
      → (k == j) ≡ false
  other_key k j w m h g = elim (Bool-cases (k == j)) [
    | inl s ↦ absurd (none-some w (sym h ∙ ap (λ i. find i m) ((==_iff k j).0 s) ∙ g))
    | inr s ↦ s
  ]

module _ {V : Type 0} (f : V → V → V) where
  combine-none : (o : Option V) → combine f o none ≡ o
  combine-none none = refl
  combine-none (some u) = refl

  find-merge_entry :
      (j k : Var) (v : V) (m : List (Var × V))
      → find j (merge_entry f m k v) ≡ combine f (find j m) (if k == j then some v else none)
  unfolding merge_entry
  find-merge_entry j k v m = elim (Option-cases (find k m)) [
    | inl e ↦ rw (e, merge_entry) (rw (find-put k j v m) (absent e))
    | inr (u, e) ↦ rw (e, merge_entry) (rw (find-put k j (f u v) m) (present u e))
  ]
    where
      absent :
          find k m ≡ none
          → (if k == j then some v else find j m)
            ≡ combine f (find j m) (if k == j then some v else none)
      absent e = elim (Bool-cases (k == j)) [
        | inl d ↦ rw (d, ← (==_iff k j).0 d, e) refl
        | inr d ↦ rw d (sym (combine-none (find j m)))
      ]

      present :
          (u : V)
          → find k m ≡ some u
          → (if k == j then some (f u v) else find j m)
            ≡ combine f (find j m) (if k == j then some v else none)
      present u e = elim (Bool-cases (k == j)) [
        | inl d ↦ rw (d, ← (==_iff k j).0 d, e) refl
        | inr d ↦ rw d (sym (combine-none (find j m)))
      ]

  find-merge_entry_ne :
      (j k : Var) (v : V) (m : List (Var × V))
      → (k == j) ≡ false
      → find j (merge_entry f m k v) ≡ find j m
  find-merge_entry_ne j k v m s = find-merge_entry j k v m ∙ rw s (combine-none (find j m))

  -- The first entry of the other table and the rest of it hold the variable once between them.
  combine_step :
      (j k : Var) (v : V) (o : Option V) (m : List (Var × V))
      → find k m ≡ none
      → combine f (combine f o (if k == j then some v else none)) (find j m)
        ≡ combine f o (if k == j then some v else find j m)
  combine_step j k v o m h = elim (Bool-cases (k == j)) [
    | inl d ↦ rw (d, ← (==_iff k j).0 d, h) (combine-none (combine f o (some v)))
    | inr d ↦ rw (d, combine-none o) refl
  ]

  pub find-merge_tables :
      (j : Var) (m other : List (Var × V))
      → IsMap other
      → find j (merge_tables f m other) ≡ combine f (find j m) (find j other)
  unfolding merge_tables
  find-merge_tables j m [] h = sym (combine-none (find j m))
  find-merge_tables j m ((k, v) ∷ other) h =
      find-merge_tables j (merge_entry f m k v) other h.1
      ∙ rw (find-merge_entry j k v m) (combine_step j k v (find j m) other h.0)

  merge_entry-IsMap : (k : Var) (v : V) (m : List (Var × V)) → IsMap m → IsMap (merge_entry f m k v)
  unfolding merge_entry
  merge_entry-IsMap k v m h = elim (Option-cases (find k m)) [
    | inl e ↦ rw (e, merge_entry) (put-IsMap k v m h)
    | inr (u, e) ↦ rw (e, merge_entry) (put-IsMap k (f u v) m h)
  ]

  pub merge_tables-IsMap : (m other : List (Var × V)) → IsMap m → IsMap (merge_tables f m other)
  unfolding merge_tables
  merge_tables-IsMap m [] h = h
  merge_tables-IsMap m ((k, v) ∷ other) h =
      merge_tables-IsMap (merge_entry f m k v) other (merge_entry-IsMap k v m h)

  -- A run of the downward loop: the merged table, without a bottom entry for a variable of both tables,
  -- or bottom, since some variable's entries have none in common.
  pub data MeetOutcome (ops : Values V) (m other : List (Var × V)) : Dom V → Type 0 where
    merged :
        MeetOutcome ops m other (record { table = merge_tables f m other; bottom_flag = false })
    stopped :
        (k : Var) (u v : V)
        → find k m ≡ some u
        → find k other ≡ some v
        → ops.is_bottom_val (f u v) ≡ true
        → MeetOutcome ops m other bottom_dom

  meet_tables-none :
      (ops : Values V) (k : Var) (v : V) (m other : List (Var × V))
      → find k m ≡ none
      → meet_tables ops f m ((k, v) ∷ other) ≡ meet_tables ops f (merge_entry f m k v) other
  unfolding meet_tables merge_entry
  meet_tables-none ops k v m other e = rw (e, meet_tables, merge_entry) refl

  meet_tables-some :
      (ops : Values V) (k : Var) (u v : V) (m other : List (Var × V))
      → find k m ≡ some u
      → ops.is_bottom_val (f u v) ≡ false
      → meet_tables ops f m ((k, v) ∷ other) ≡ meet_tables ops f (merge_entry f m k v) other
  unfolding meet_tables merge_entry
  meet_tables-some ops k u v m other e b = rw (e, b, meet_tables, merge_entry) refl

  meet_tables-stop :
      (ops : Values V) (k : Var) (u v : V) (m other : List (Var × V))
      → find k m ≡ some u
      → ops.is_bottom_val (f u v) ≡ true
      → meet_tables ops f m ((k, v) ∷ other) ≡ bottom_dom
  unfolding meet_tables
  meet_tables-stop ops k u v m other e b = rw (e, b, meet_tables) refl

  -- A run on the rest of the table, seen from the whole.
  MeetOutcome-cons :
      (ops : Values V) (k : Var) (v : V) (m other : List (Var × V)) (d : Dom V)
      → find k other ≡ none
      → MeetOutcome ops (merge_entry f m k v) other d
      → MeetOutcome ops m ((k, v) ∷ other) d
  unfolding merge_tables
  MeetOutcome-cons ops k v m other d h MeetOutcome.merged = MeetOutcome.merged
  MeetOutcome-cons ops k v m other d h (MeetOutcome.stopped j u w e g b) =
      let apart = other_key k j w other h g in
      MeetOutcome.stopped j u w (sym (find-merge_entry_ne j k v m apart) ∙ e) (rw apart g) b

  pub meet_tables-MeetOutcome :
      (ops : Values V) (m other : List (Var × V))
      → IsMap other
      → MeetOutcome ops m other (meet_tables ops f m other)
  meet_tables-MeetOutcome ops m [] h =
      unfold meet_tables in unfold merge_tables in MeetOutcome.merged
  meet_tables-MeetOutcome ops m ((k, v) ∷ other) h =
      let rest = meet_tables-MeetOutcome ops (merge_entry f m k v) other h.1 in
      elim (Option-cases (find k m)) [
        | inl e ↦
            rw (meet_tables-none ops k v m other e) (MeetOutcome-cons ops k v m other _ h.0 rest)
        | inr (u, e) ↦ elim (Bool-cases (ops.is_bottom_val (f u v))) [
          | inl b ↦
              rw (meet_tables-stop ops k u v m other e b)
                (MeetOutcome.stopped k u v e (found k v other) b)
          | inr b ↦
              rw (meet_tables-some ops k u v m other e b)
                (MeetOutcome-cons ops k v m other _ h.0 rest)
        ]
      ]
    where
      found : (k : Var) (v : V) (other : List (Var × V)) → find k ((k, v) ∷ other) ≡ some v
      found k v other = ground arith
