-- ===== src/Discrete/Sets.antt =====
-- discrete_domain.hpp: the keys that a domain holds, as `contains` says, after each operation.
use knight.Prelude.{
  ℕ, ◌≡◌, refl, ◌∙◌, sym, ◌↔◌, inl, inr, Bool-cases, Bool, true, false, not, ◌&&◌, ◌||◌, List, [],
  ◌∷◌, ◌==◌, arith, length,
}
use knight.Discrete.{
  DiscreteDom, set_to_bottom_set, has_key, is_bottom_set, contains_key, join_sets, widen_sets,
  meet_sets, narrow_sets, diff_with, leq_sets,
}
use knight.Discrete.Keys.{has_key-insert_keys, has_key-keep_keys, all_keys_iff, has_key-fresh}

no_keys : (d : DiscreteDom) → is_bottom_set d ≡ true → (d.top_flag ≡ false) × (d.set ≡ [])
unfolding is_bottom_set
no_keys d h = (ground arith, empty d.set (ground arith))
  where
    empty : (s : List ℕ) → (length s == 0) ≡ true → s ≡ []
    empty [] h = refl
    empty (k ∷ s) h = ground arith

bottom_keys : (d : DiscreteDom) (k : ℕ) → is_bottom_set d ≡ true → contains_key d k ≡ false
unfolding contains_key has_key
bottom_keys d k h = let (t, s) = no_keys d h in rw (t, s) refl

contains_key-bottom : (d : DiscreteDom) (k : ℕ) → contains_key (set_to_bottom_set d) k ≡ false
unfolding contains_key set_to_bottom_set has_key
contains_key-bottom d k = refl

or_true : (b : Bool) → true ≡ (b || true)
or_true b = ground arith

or_swap : (a b : Bool) → (a || b) ≡ (b || a)
or_swap a b = ground arith

and_true : (b : Bool) → b ≡ (b && true)
and_true b = ground arith

and_false : (b : Bool) → (b && false) ≡ false
and_false b = ground arith

module _ (d e : DiscreteDom) (k : ℕ) where
  contains_key-join_sets : contains_key (join_sets d e) k ≡ (contains_key d k || contains_key e k)
  unfolding contains_key join_sets
  contains_key-join_sets = elim (Bool-cases d.top_flag) [
    | inl t ↦ rw t refl
    | inr t ↦ elim (Bool-cases e.top_flag) [
      | inl u ↦ rw (t, u) (or_true (has_key k d.set))
      | inr u ↦
          rw (t, u)
            (has_key-insert_keys k e.set d.set ∙ or_swap (has_key k e.set) (has_key k d.set))
    ]
  ]

  join_sets_exact :
      (contains_key (join_sets d e) k ≡ (contains_key d k || contains_key e k))
      × (contains_key (widen_sets d e) k ≡ (contains_key d k || contains_key e k))
  unfolding widen_sets
  join_sets_exact = (contains_key-join_sets, contains_key-join_sets)

  contains_key-meet_sets : contains_key (meet_sets d e) k ≡ (contains_key d k && contains_key e k)
  unfolding meet_sets
  contains_key-meet_sets = elim (Bool-cases (is_bottom_set d)) [
    | inl b ↦ rw b (rw (bottom_keys d k b) refl)
    | inr b ↦ elim (Bool-cases e.top_flag) [
      | inl t ↦ rw (b, t) (unfold contains_key in and_true (d.top_flag || has_key k d.set))
      | inr t ↦ elim (Bool-cases (is_bottom_set e)) [
        | inl c ↦
            rw (bottom_keys e k c, c, b, t)
              (contains_key-bottom d k ∙ sym (and_false (contains_key d k)))
        | inr c ↦ elim (Bool-cases d.top_flag) [
          | inl u ↦ rw (c, b, t, u) (unfold contains_key in refl)
          | inr u ↦
              rw (c, b, t, u)
                (unfold contains_key in (has_key-keep_keys (λ k. has_key k e.set) k d.set))
        ]
      ]
    ]
  ]

  meet_sets_exact :
      (contains_key (meet_sets d e) k ≡ (contains_key d k && contains_key e k))
      × (contains_key (narrow_sets d e) k ≡ (contains_key d k && contains_key e k))
  unfolding narrow_sets
  meet_sets_exact = (contains_key-meet_sets, contains_key-meet_sets)

  -- For any two domains and any key, `join_with` and `widen_with` contain the key exactly when one
  -- of the operands does, and `meet_with` and `narrow_with` exactly when both do.
  pub lattice_sets_exact :
      ((contains_key (join_sets d e) k ≡ (contains_key d k || contains_key e k))
        × (contains_key (widen_sets d e) k ≡ (contains_key d k || contains_key e k)))
      × ((contains_key (meet_sets d e) k ≡ (contains_key d k && contains_key e k))
          × (contains_key (narrow_sets d e) k ≡ (contains_key d k && contains_key e k)))
  lattice_sets_exact = (join_sets_exact, meet_sets_exact)

  -- For any two domains and any key, `diff_with` contains a key that the left operand contains and
  -- the right does not, and contains no other unless the left operand is top and the right is not.
  pub diff_with_exact :
      (contains_key d k ≡ true → contains_key e k ≡ false → contains_key (diff_with d e) k ≡ true)
      × ((d.top_flag && not e.top_flag) ≡ false
          → contains_key (diff_with d e) k ≡ (contains_key d k && not (contains_key e k)))
  unfolding contains_key diff_with
  diff_with_exact = elim (Bool-cases e.top_flag) [
    | inl t ↦ rw t (λ h g. ground arith, λ g. sym (and_false (d.top_flag || has_key k d.set)))
    | inr t ↦ elim (Bool-cases d.top_flag) [
      | inl u ↦ rw (t, u) (λ h g. refl, λ g. ground arith)
      | inr u ↦
          rw (t, u, has_key-keep_keys (λ k. not (has_key k e.set)) k d.set)
            (λ h g. rw (h, g) refl, λ g. refl)
    ]
  ]

leq_sets-holds :
    (d e : DiscreteDom)
    → leq_sets d e ≡ true
    → (k : ℕ) → contains_key d k ≡ true
    → contains_key e k ≡ true
unfolding leq_sets contains_key
leq_sets-holds d e h k g = elim (Bool-cases e.top_flag) [
  | inl t ↦ rw t refl
  | inr t ↦ elim (Bool-cases d.top_flag) [
    | inl u ↦ ground (arith, all_keys_iff d.set e.set)
    | inr u ↦ rw t ((all_keys_iff d.set e.set).0 (ground arith) k (ground arith))
  ]
]

leq_sets-true :
    (d e : DiscreteDom)
    → ((k : ℕ) → contains_key d k ≡ true → contains_key e k ≡ true)
    → leq_sets d e ≡ true
unfolding leq_sets contains_key
leq_sets-true d e h = elim (Bool-cases e.top_flag) [
  | inl t ↦ rw t refl
  | inr t ↦ elim (Bool-cases d.top_flag) [
    | inl u ↦ let (k, f) = has_key-fresh e.set in absurd (ground (arith, h k))
    | inr u ↦ rw (t, u) ((all_keys_iff d.set e.set).1 (λ k g. ground (arith, h k)))
  ]
]

-- For any two domains, `leq` is true exactly when each key that the left contains is one that the
-- right contains.
pub leq_sets_iff :
    (d e : DiscreteDom)
    → (leq_sets d e ≡ true) ↔ ((k : ℕ) → contains_key d k ≡ true → contains_key e k ≡ true)
leq_sets_iff d e = (leq_sets-holds d e, leq_sets-true d e)
