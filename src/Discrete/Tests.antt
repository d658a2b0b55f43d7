-- ===== src/Discrete/Tests.antt =====
-- The theorems on `DiscreteDom` at small sets.
use knight.Prelude.{◌≡◌, ◌↔◌, true, false, not, ◌&&◌, ◌||◌, ℕ, [], ◌∷◌}
use knight.Discrete.{
  DiscreteDom, contains_key, join_sets, widen_sets, meet_sets, narrow_sets, diff_with, leq_sets,
}
use knight.Discrete.Sets.{lattice_sets_exact, diff_with_exact, leq_sets_iff}

abbrev evens : DiscreteDom
evens = record { set = 2 ∷ 4 ∷ []; top_flag = false }

abbrev powers : DiscreteDom
powers = record { set = 1 ∷ 2 ∷ 4 ∷ []; top_flag = false }

lattice_sets_exact_example :
    ((contains_key (join_sets evens powers) 1 ≡ (contains_key evens 1 || contains_key powers 1))
      × (contains_key (widen_sets evens powers) 1
          ≡ (contains_key evens 1 || contains_key powers 1)))
    × ((contains_key (meet_sets evens powers) 1 ≡ (contains_key evens 1 && contains_key powers 1))
        × (contains_key (narrow_sets evens powers) 1
            ≡ (contains_key evens 1 && contains_key powers 1)))
lattice_sets_exact_example = lattice_sets_exact evens powers 1

diff_with_exact_example :
    (contains_key powers 1 ≡ true
      → contains_key evens 1 ≡ false
      → contains_key (diff_with powers evens) 1 ≡ true)
    × ((powers.top_flag && not evens.top_flag) ≡ false
        → contains_key (diff_with powers evens) 1
          ≡ (contains_key powers 1 && not (contains_key evens 1)))
diff_with_exact_example = diff_with_exact powers evens 1

leq_sets_iff_example :
    (leq_sets evens powers ≡ true)
    ↔ ((k : ℕ) → contains_key evens k ≡ true → contains_key powers k ≡ true)
leq_sets_iff_example = leq_sets_iff evens powers
