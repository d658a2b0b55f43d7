-- ===== src/Interval/Tests.antt =====
-- The theorems on intervals at small intervals.
use knight.Prelude.{◌≡◌, refl, ◌⊎◌, ◌↔◌, true, false, [], ◌∷◌, ◌≤◌, Returns}
use knight.Prelude.Int.{ℤ, pos, negsuc, ◌+ℤ◌, ◌-ℤ◌, ◌*ℤ◌}
use knight.Bound.Sides.{IsLower, IsUpper}
use knight.Interval.{
  Interval, is_bottom, construct, contains, leq, equals, join_with, meet_with, widen_with,
  narrow_with, widen_with_threshold, narrow_with_threshold, plus, minus, plus_assign, minus_assign,
  trim_bound,
}
use knight.Bound.{finite}
use knight.Interval.Members.{IsValid, IsRange, construct-IsRange}
use knight.Interval.Meet.{meet_with_exact}
use knight.Interval.Equality.{equals_iff, join_with-least}
use knight.Interval.Lattice.{join_with_sound, leq_iff}
use knight.Interval.Widening.{Widens}
use knight.Interval.Growth.{growth, growth-le-three}
use knight.Interval.Narrowing.{Narrows, widenings_sound, narrowings_sound}
use knight.Interval.Sums.{Covers, sums_sound}
use knight.Interval.Ops.{times}
use knight.Interval.Times.{times_sound}
use knight.Interval.Trim.{Trims, trim_bound_exact}

-- [1, 5], [3, 9] and [-2, +oo].
abbrev small : Interval
small = record {
  lb = record { is_inf = false; val = pos 1 };
  ub = record { is_inf = false; val = pos 5 };
}

abbrev large : Interval
large = record {
  lb = record { is_inf = false; val = pos 3 };
  ub = record { is_inf = false; val = pos 9 };
}

abbrev ray : Interval
ray = record {
  lb = record { is_inf = false; val = negsuc 1 };
  ub = record { is_inf = true; val = pos 1 };
}

small-IsValid : IsValid small
small-IsValid = record { lower = IsLower.fin (pos 1); upper = IsUpper.fin (pos 5) }

large-IsValid : IsValid large
large-IsValid = record { lower = IsLower.fin (pos 3); upper = IsUpper.fin (pos 9) }

ray-IsValid : IsValid ray
ray-IsValid = record { lower = IsLower.fin (negsuc 1); upper = IsUpper.plus }

small-in-ray : leq small ray ≡ true
unfolding leq
small-in-ray = refl

large-in-ray : leq large ray ≡ true
unfolding leq
large-in-ray = refl

small-full : is_bottom small ≡ false
unfolding is_bottom
small-full = refl

join_with_sound_example :
    IsValid (join_with small large)
    × ((n : ℤ)
        → (contains small n ≡ true) ⊎ (contains large n ≡ true)
        → contains (join_with small large) n ≡ true)
join_with_sound_example = join_with_sound small-IsValid large-IsValid

meet_with_exact_example :
    IsValid (meet_with small large)
    × ((n : ℤ)
        → (contains (meet_with small large) n ≡ true)
          ↔ ((contains small n ≡ true) × (contains large n ≡ true)))
meet_with_exact_example = meet_with_exact small-IsValid large-IsValid

leq_iff_example :
    (leq small ray ≡ true) ↔ ((n : ℤ) → contains small n ≡ true → contains ray n ≡ true)
leq_iff_example = leq_iff small-IsValid ray-IsValid

equals_iff_example : (equals small large ≡ true) ↔ ((n : ℤ) → contains small n ≡ contains large n)
equals_iff_example = equals_iff small-IsValid large-IsValid

join_with-least_example : leq (join_with small large) ray ≡ true
join_with-least_example =
    join_with-least small-IsValid large-IsValid ray-IsValid small-in-ray large-in-ray

growth-le-three_example : growth small (large ∷ ray ∷ []) ≤ 3
growth-le-three_example =
    growth-le-three small (large ∷ ray ∷ []) small-IsValid (large-IsValid, (ray-IsValid, tt))

widenings_sound_example :
    Widens small large (widen_with small large)
    × ((t : ℤ) → Returns (Widens small large) (widen_with_threshold small large t))
widenings_sound_example = widenings_sound small-IsValid large-IsValid

narrowings_sound_example :
    Narrows ray small (narrow_with ray small)
    × ((t : ℤ) → Narrows ray small (narrow_with_threshold ray small t))
narrowings_sound_example = narrowings_sound ray-IsValid small-IsValid small-in-ray

sums_sound_example :
    Returns (Covers ◌+ℤ◌ small ray) (plus small ray)
    × Returns (Covers ◌+ℤ◌ small ray) (plus_assign small ray)
    × Returns (Covers ◌-ℤ◌ small ray) (minus small ray)
    × Returns (Covers ◌-ℤ◌ small ray) (minus_assign small ray)
sums_sound_example = sums_sound small-IsValid ray-IsValid

trim_bound_exact_example : Returns (Trims small (pos 5)) (trim_bound small (finite (pos 5)))
trim_bound_exact_example = trim_bound_exact small-IsValid (pos 5) small-full

construct-IsRange_example : Returns (IsRange small.lb small.ub) (construct small.lb small.ub)
construct-IsRange_example = construct-IsRange (IsLower.fin (pos 1)) (IsUpper.fin (pos 5))

times_sound_example : Returns (Covers ◌*ℤ◌ small ray) (times small ray)
times_sound_example = times_sound small-IsValid ray-IsValid
