-- ===== src/Separate/Tests.antt =====
-- The theorems on `SeparateNumericalDom` with intervals, at tables of one and two variables.
use knight.Prelude.{
  ◌≡◌, refl, sym, ap, ◌↔◌, inl, inr, true, false, none, [], ◌∷◌, ℕ, ◌==◌, Bool-cases,
}
use knight.Prelude.Int.{ℤ, pos}
use knight.Prelude.Assoc.{find}
use knight.Num.{Gmp}
use knight.Prelude.{Returns}
use knight.Linear.{LinearExpr}
use knight.Separate.Transfer.{assign_linear_expr}
use knight.Linear.Meaning.{Env, eval}
use knight.Interval
use knight.Interval.{Interval, contains, singleton}
use knight.Interval.Members.{singleton-IsValid}
use knight.Separate.{Dom, Values, set_value, join_with, widen_with, meet_with, leq, get_value}
use knight.Bound.Sides.{IsLower, IsUpper}
use knight.Interval.{top}
use knight.Separate.Lookup.{none-some}
use knight.Separate.Laws.{IsNumerical}
use knight.Separate.Concrete.{Describes, IsWellFormed, entry_value, SameKeys, join_with-Describes}
use knight.Separate.Meets.{meet_with-Describes, leq-Describes}
use knight.Separate.Assign.{assign_linear_expr-Describes, update, set_value-Describes}
use knight.Separate.OfIntervals.{interval_values, interval_laws, singleton-contains}

-- A library that answers 0: the operations below do not divide or shift.
abbrev gmp : Gmp
gmp = record {
  tdiv_q = λ a b. pos 0;
  tdiv_r = λ a b. a;
  mpz_mod = λ a b. a;
  mpz_and = λ a b. pos 0;
  mpz_ior = λ a b. a;
  mpz_xor = λ a b. a;
  mul_2exp = λ a n. a;
  fdiv_q_2exp = λ a n. a;
}

abbrev values : Values Interval
values = interval_values gmp

abbrev laws : IsNumerical Interval values
laws = interval_laws gmp

-- `{x0: [1, 5]}`, `{x0: [4, 4]}`, and every variable at 4.
abbrev wide : Dom Interval
wide = record {
  table =
      (
        0,
        record {
          lb = record { is_inf = false; val = pos 1 };
          ub = record { is_inf = false; val = pos 5 };
        },
      )
      ∷ [];
  bottom_flag = false;
}

abbrev point : Dom Interval
point = record {
  table =
      (
        0,
        record {
          lb = record { is_inf = false; val = pos 4 };
          ub = record { is_inf = false; val = pos 4 };
        },
      )
      ∷ [];
  bottom_flag = false;
}

abbrev fours : Env
fours x = pos 4

nine-good : laws.IsGood (singleton (pos 9))
unfolding interval_laws
nine-good = singleton-IsValid (pos 9)

nine-has : laws.Has (singleton (pos 9)) (pos 9)
unfolding interval_laws
nine-has = singleton-contains (pos 9)

good_entry :
    (a b : ℤ)
    → IsWellFormed laws (
        (
          0,
          record {
            lb = record { is_inf = false; val = a };
            ub = record { is_inf = false; val = b };
          },
        )
        ∷ [])
unfolding interval_laws
good_entry a b = record {
  map = (refl, tt);
  good = λ k v h. elim (Bool-cases (0 == k)) [
    | inl s ↦
        rw (← ap (entry_value laws) (rw s at h))
          (record { lower = IsLower.fin a; upper = IsUpper.fin b })
    | inr s ↦ absurd (none-some v (rw s at h))
  ];
}

wide-IsWellFormed : IsWellFormed laws wide.table
wide-IsWellFormed = good_entry (pos 1) (pos 5)

point-IsWellFormed : IsWellFormed laws point.table
point-IsWellFormed = good_entry (pos 4) (pos 4)

point-Describes : Describes laws point fours
unfolding get_value interval_laws interval_values contains top
point-Describes k = elim (Bool-cases (0 == k)) [ inl s ↦ rw s refl | inr s ↦ rw s refl ]

wide-Describes : Describes laws wide fours
unfolding get_value interval_laws interval_values contains top
wide-Describes k = elim (Bool-cases (0 == k)) [ inl s ↦ rw s refl | inr s ↦ rw s refl ]

no_entry : (u : Interval) (k : ℕ) → find k ((0, u) ∷ []) ≡ none → (0 == k) ≡ false
no_entry u k h = elim (Bool-cases (0 == k)) [
  | inl s ↦ absurd (none-some u (sym (rw s at h)))
  | inr s ↦ s
]

same_keys : (u v : Interval) (k : ℕ) → find k ((0, u) ∷ []) ≡ none → find k ((0, v) ∷ []) ≡ none
same_keys u v k h = rw (no_entry u k h) refl

wide-point-SameKeys : SameKeys laws wide point
wide-point-SameKeys a b k = (same_keys _ _ k, same_keys _ _ k)

point-in-wide : leq values point wide ≡ true
unfolding leq interval_values Interval.leq
point-in-wide = refl

meet_with-Describes_example :
    IsWellFormed laws (meet_with values wide point).table
    × (Describes laws (meet_with values wide point) fours
        ↔ (Describes laws wide fours × Describes laws point fours))
meet_with-Describes_example =
    meet_with-Describes laws wide point fours wide-IsWellFormed point-IsWellFormed

join_with-Describes_example :
    (IsWellFormed laws (join_with values wide point).table
      × Describes laws (join_with values wide point) fours)
    × (IsWellFormed laws (widen_with values wide point).table
        × Describes laws (widen_with values wide point) fours)
join_with-Describes_example =
    join_with-Describes laws wide point fours wide-IsWellFormed point-IsWellFormed
      wide-point-SameKeys (inl wide-Describes)

leq-Describes_example : Describes laws wide fours
leq-Describes_example =
    leq-Describes laws point wide fours point-IsWellFormed wide-IsWellFormed (same_keys _ _)
      point-in-wide point-Describes

set_value-Describes_example :
    IsWellFormed laws (set_value values wide 0 (singleton (pos 9))).table
    × Describes laws (set_value values wide 0 (singleton (pos 9))) (update laws fours 0 (pos 9))
set_value-Describes_example =
    set_value-Describes laws wide fours 0 (singleton (pos 9)) (pos 9) wide-IsWellFormed nine-good
      wide-Describes nine-has

-- `2 x0 + 1`.
abbrev doubled : LinearExpr
doubled = record { constant = pos 1; terms = (0, pos 2) ∷ [] }

assign_linear_expr-Describes_example :
    Returns
      (λ r. IsWellFormed laws r.table × Describes laws r (update laws fours 1 (eval fours doubled)))
      (assign_linear_expr values wide 1 doubled)
assign_linear_expr-Describes_example =
    assign_linear_expr-Describes laws wide fours 1 doubled wide-IsWellFormed wide-Describes
