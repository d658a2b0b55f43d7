-- ===== src/MapDom/Sizes.antt =====
-- map_domain.hpp: the order, and what its comparison of sizes adds.
use knight.Prelude.{
  ℕ, suc, ◌≤◌, ◌≡◌, refl, sym, ap, subst, ◌∙◌, ◌↔◌, ◌⊎◌, inl, inr, Bool, true, false, Bool-cases,
  Option-cases, none, some, List, [], ◌∷◌, length, if◌then◌else◌, all, ltb, ◌==◌, ==_iff, arith,
}
use knight.Prelude.Assoc.{find, erase, find-erase_ne, IsMap}
use knight.MapDom.{MapValues, MapDom, leq_entry, leq}

module _ {V : Type 0} where
  none-some : (w : V) → none ≡ some w → ⊥
  none-some w h = ground arith

  value_of : {v : V} (w : V) → some w ≡ some v → w ≡ v
  value_of w e = ap (λ o. elim o [ none ↦ w | some x ↦ x ]) e

  length-erase :
      (k : ℕ) (v : V) (m : List (ℕ × V)) → find k m ≡ some v → length m ≡ suc (length (erase k m))
  length-erase k v [] h = absurd (ground arith)
  length-erase k v ((j, w) ∷ m) h = elim (Bool-cases (j == k)) [
    | inl e ↦ rw e refl
    | inr e ↦ rw e (ap suc (length-erase k v m (if_false e h)))
  ]
    where
      if_false : j == k ≡ false → (if j == k then some w else find k m) ≡ some v → find k m ≡ some v
      if_false e h = ap (λ b. if b then some w else find k m) (sym e) ∙ h

  find-head : (j : ℕ) (w : V) (m : List (ℕ × V)) → find j ((j, w) ∷ m) ≡ some w
  find-head j w m = rw ((==_iff j j).1 refl) refl

  -- A key of the rest of a table is not the first key.
  other_key :
      (j k : ℕ) (v : V) (m : List (ℕ × V)) → find j m ≡ none → find k m ≡ some v → (j == k) ≡ false
  other_key j k v m h e = elim (Bool-cases (j == k)) [
    | inl d ↦ absurd (none-some v (sym h ∙ ap (λ i. find i m) ((==_iff j k).0 d) ∙ e))
    | inr d ↦ d
  ]

  find-rest :
      (j k : ℕ) (w v : V) (m : List (ℕ × V))
      → find j m ≡ none
      → find k m ≡ some v
      → find k ((j, w) ∷ m) ≡ some v
  find-rest j k w v m h e = rw (other_key j k v m h e) e

  -- A table whose keys are keys of another is no longer than it.
  length-le :
      (m n : List (ℕ × V))
      → IsMap m
      → ((k : ℕ) (v : V) → find k m ≡ some v → (u : V) × (find k n ≡ some u))
      → length m ≤ length n
  length-le [] n h s = ground arith
  length-le ((j, w) ∷ m) n h s =
      let has = s j w (find-head j w m) in
      omega (
        arith,
        length-erase j has.0 n has.1,
        length-le m (erase j n) h.1 (λ k v e.
            let u = s k v (find-rest j k w v m h.0 e) in
            (
              u.0,
              find-erase_ne j k n
                    (λ p. absurd (ground (arith, other_key j k v m h.0 e, (==_iff j k).1 p)))
                  ∙ u.1,
            )),
      )

module _ {V : Type 0} (ops : MapValues V) where
  -- Each entry of the first table has an entry of the second above it.
  abbrev pub Below : List (ℕ × V) → List (ℕ × V) → Type 0
  Below m n =
      (k : ℕ) (v : V)
      → find k m ≡ some v
      → (u : V) × ((find k n ≡ some u) × (ops.leq_val v u ≡ true))

  entry-below :
      (n : List (ℕ × V)) (k : ℕ) (v : V)
      → leq_entry ops n (k, v) ≡ true
      → (u : V) × ((find k n ≡ some u) × (ops.leq_val v u ≡ true))
  unfolding leq_entry
  entry-below n k v h = elim (Option-cases (find k n)) [
    | inl e ↦ absurd (false-true (sym (absent e) ∙ h))
    | inr (u, e) ↦ (u, (e, sym (present u e) ∙ h))
  ]
    where
      false-true : false ≡ true → ⊥
      false-true h = ground arith

      absent : find k n ≡ none → leq_entry ops n (k, v) ≡ false
      absent e = rw (leq_entry, e) refl

      present : (u : V) → find k n ≡ some u → leq_entry ops n (k, v) ≡ ops.leq_val v u
      present u e = rw (leq_entry, e) refl

  below-entry :
      (n : List (ℕ × V)) (k : ℕ) (v u : V)
      → find k n ≡ some u
      → ops.leq_val v u ≡ true
      → leq_entry ops n (k, v) ≡ true
  unfolding leq_entry
  below-entry n k v u e h = rw (leq_entry, e) h

  all-Below : (m n : List (ℕ × V)) → all (leq_entry ops n) m ≡ true → Below m n
  all-Below [] n h k v e = absurd (none-some v e)
  all-Below ((j, w) ∷ m) n h k v e = elim (Bool-cases (j == k)) [
    | inl d ↦
        let r = entry-below n j w (ground arith) in
        (
          r.0,
          (
            subst (λ i. find i n ≡ some r.0) ((==_iff j k).0 d) r.1.0,
            subst (λ x. ops.leq_val x r.0 ≡ true) (value_of w (sym (branch d) ∙ e)) r.1.1,
          ),
        )
    | inr d ↦ all-Below m n (ground arith) k v (sym (branch d) ∙ e)
  ]
    where
      branch : {b : Bool} → (j == k) ≡ b → find k ((j, w) ∷ m) ≡ (if b then some w else find k m)
      branch d = ap (λ b. if b then some w else find k m) d

  Below-all : (m n : List (ℕ × V)) → IsMap m → Below m n → all (leq_entry ops n) m ≡ true
  Below-all [] n h b = refl
  Below-all ((j, w) ∷ m) n h b =
      let first = b j w (find-head j w m) in
      rw
        (
          below-entry n j w first.0 first.1.0 first.1.1,
          Below-all m n h.1 (λ k v e. b k v (find-rest j k w v m h.0 e)),
        )
        refl

  -- For domains whose tables have each key once, `leq` is true exactly when the first is bottom, or
  -- the second is not and has for each entry of the first an entry of the same key above it.
  pub leq-Below :
      (d e : MapDom V)
      → IsMap d.table
      → (leq ops d e ≡ true)
        ↔ ((d.bottom_flag ≡ true) ⊎ ((e.bottom_flag ≡ false) × Below d.table e.table))
  unfolding leq
  leq-Below d e h = elim (Bool-cases d.bottom_flag) [
    | inl b ↦ rw b (λ g. inl refl, λ g. refl)
    | inr b ↦ elim (Bool-cases e.bottom_flag) [
      | inl c ↦ rw (b, c) (λ g. absurd (ground (arith, g)), λ g. absurd (not_both g))
      | inr c ↦ elim (Bool-cases (ltb (length e.table) (length d.table))) [
        | inl l ↦ rw (b, c, l) (λ g. absurd (ground (arith, g)), λ g. absurd (too_long l g))
        | inr l ↦
            rw (b, c, l)
              (
                λ g. inr (refl, all-Below d.table e.table g),
                λ g. Below-all d.table e.table h (below_of g),
              )
      ]
    ]
  ]
    where
      not_both : (false ≡ true) ⊎ ((true ≡ false) × Below d.table e.table) → ⊥
      not_both (inl g) = ground (arith, g)
      not_both (inr g) = ground (arith, g.0)

      below_of : (false ≡ true) ⊎ ((false ≡ false) × Below d.table e.table) → Below d.table e.table
      below_of (inl g) = absurd (ground (arith, g))
      below_of (inr g) = g.1

      too_long :
          ltb (length e.table) (length d.table) ≡ true
          → (false ≡ true) ⊎ ((false ≡ false) × Below d.table e.table)
          → ⊥
      too_long l g =
          let b = below_of g in
          ground (arith, l, length-le d.table e.table h (λ k v p. ((b k v p).0, (b k v p).1.0)))
