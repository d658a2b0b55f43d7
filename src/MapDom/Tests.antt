-- ===== src/MapDom/Tests.antt =====
-- The theorems on `MapDom` at tables of numbers.
use knight.Prelude.{ℕ, ◌≡◌, refl, ◌⊎◌, ◌↔◌, true, false, [], ◌∷◌, leb, ◌==◌, if◌then◌else◌, arith}
use knight.MapDom.{
  MapValues, MapDom, leq, join_with, widen_with, join_with_at_loop_head, join_consecutive_iter_with,
}
use knight.MapDom.Sizes.{Below, leq-Below}
use knight.MapDom.Upper.{IsUpper, IsAbove, upward-IsAbove}

-- The larger of two numbers, and the smaller.
abbrev high : ℕ → ℕ → ℕ
high u v = if leb u v then v else u

abbrev low : ℕ → ℕ → ℕ
low u v = if leb u v then u else v

-- Numbers up to 9: 0 is bottom and 9 is top.
abbrev levels : MapValues ℕ
levels = record {
  bottom_val = 0;
  default_val = 9;
  is_bottom_val = λ v. v == 0;
  is_top_val = λ v. v == 9;
  join_val = high;
  join_at_loop_head_val = high;
  join_consecutive_iter_val = high;
  widen_val = high;
  meet_val = low;
  narrow_val = low;
  leq_val = leb;
  equals_val = λ u v. u == v;
}

high-IsUpper : IsUpper levels high
high-IsUpper = record {
  self = λ v. ground arith;
  left = λ u v. ground arith;
  right = λ u v. ground arith;
}

abbrev one_key : MapDom ℕ
one_key = record { table = (1, 4) ∷ []; bottom_flag = false }

abbrev two_keys : MapDom ℕ
two_keys = record { table = (1, 3) ∷ (2, 5) ∷ []; bottom_flag = false }

abbrev no_key : MapDom ℕ
no_key = record { table = []; bottom_flag = false }

-- The top domain is below one that has a key, and not above it.
top_below : leq levels no_key one_key ≡ true
unfolding leq
top_below = refl

top_not_above : leq levels one_key no_key ≡ false
unfolding leq
top_not_above = refl

leq-Below_example :
    (leq levels one_key two_keys ≡ true)
    ↔ ((false ≡ true) ⊎ ((false ≡ false) × Below levels one_key.table two_keys.table))
leq-Below_example = leq-Below levels one_key two_keys (refl, tt)

upward-IsAbove_example :
    (IsAbove levels one_key (join_with levels one_key two_keys)
      × IsAbove levels two_keys (join_with levels one_key two_keys))
    × ((IsAbove levels one_key (join_with_at_loop_head levels one_key two_keys)
          × IsAbove levels two_keys (join_with_at_loop_head levels one_key two_keys))
        × ((IsAbove levels one_key (join_consecutive_iter_with levels one_key two_keys)
              × IsAbove levels two_keys (join_consecutive_iter_with levels one_key two_keys))
            × (IsAbove levels one_key (widen_with levels one_key two_keys)
                × IsAbove levels two_keys (widen_with levels one_key two_keys))))
upward-IsAbove_example =
    upward-IsAbove levels one_key two_keys (refl, tt) (refl, (refl, tt)) high-IsUpper high-IsUpper
      high-IsUpper high-IsUpper
