-- ===== src/Bound.antt =====
-- analyzer/include/analyzer/core/domain/bound.hpp: a value that is an integer or infinite.
--
-- A failed `knight_assert_msg` and a reached `knight_unreachable` give `none`.
pub mod Order
pub mod Sides
use knight.Prelude.{Bool, true, false, not, ◌&&◌, ◌||◌, Option, none, some, if◌then◌else◌, ◌>>=◌}
use knight.Prelude.Int.{pos, negsuc, ◌+ℤ◌, ◌-ℤ◌, ◌*ℤ◌, neg_ℤ, leb_ℤ, eqb_ℤ}
use knight.Num.{ZNum, Gmp, div_num, shl_num, shr_num}

pub record Bound : Type 0 where
  pub is_inf : Bool
  pub val : ZNum

-- The private constructor, `normalize` included: an infinite bound keeps only its sign.
unfoldable pub make : Bool → ZNum → Bound
make false v = record { is_inf = false; val = v }
make true v = record { is_inf = true; val = if leb_ℤ (pos 0) v then pos 1 else negsuc 0 }

unfoldable pub finite : ZNum → Bound
unfolding make
finite n = make false n

unfoldable pub pinf : Bound
unfolding make
pinf = make true (pos 1)

unfoldable pub ninf : Bound
unfolding make
ninf = make true (negsuc 0)

abbrev pub is_finite : Bound → Bool
is_finite b = not b.is_inf

unfoldable pub is_pinf : Bound → Bool
is_pinf b = b.is_inf && eqb_ℤ b.val (pos 1)

unfoldable pub is_ninf : Bound → Bool
is_ninf b = b.is_inf && eqb_ℤ b.val (negsuc 0)

unfoldable pub is_num : Bound → ZNum → Bool
is_num b n = not b.is_inf && eqb_ℤ b.val n

unfoldable pub is_zero : Bound → Bool
unfolding is_num
is_zero b = is_num b (pos 0)

unfoldable pub get_num_opt : Bound → Option ZNum
get_num_opt b = if b.is_inf then none else some b.val

-- `operator<=`.
unfoldable pub leb : Bound → Bound → Bool
leb a b =
    if a.is_inf && not b.is_inf
    then eqb_ℤ a.val (negsuc 0)
    else (if not a.is_inf && b.is_inf then eqb_ℤ b.val (pos 1) else leb_ℤ a.val b.val)

-- `operator>=`.
unfoldable pub geb : Bound → Bound → Bool
geb a b =
    if a.is_inf && not b.is_inf
    then eqb_ℤ a.val (pos 1)
    else (if not a.is_inf && b.is_inf then eqb_ℤ b.val (negsuc 0) else leb_ℤ b.val a.val)

-- `operator<`.
unfoldable pub ltb : Bound → Bound → Bool
unfolding geb
ltb a b = not (geb a b)

-- `operator>`.
unfoldable pub gtb : Bound → Bound → Bool
unfolding leb
gtb a b = not (leb a b)

abbrev same_flag : Bool → Bool → Bool
same_flag true b = b
same_flag false b = not b

-- `operator==`.
unfoldable pub eqb : Bound → Bound → Bool
eqb a b = same_flag a.is_inf b.is_inf && eqb_ℤ a.val b.val

-- Unary `operator-`.
unfoldable pub neg : Bound → Bound
unfolding make
neg b = make b.is_inf (neg_ℤ b.val)

-- `operator+=`.
unfoldable pub add_assign : Bound → Bound → Option Bound
add_assign a b =
    if a.is_inf
    then (if b.is_inf && not (eqb_ℤ a.val b.val) then none else some a)
    else (if not b.is_inf then some (record a { val = a.val +ℤ b.val }) else some b)

-- `operator-=`.
unfoldable pub sub_assign : Bound → Bound → Option Bound
unfolding neg
sub_assign a b =
    if a.is_inf
    then (if b.is_inf && eqb_ℤ a.val b.val then none else some a)
    else (if not b.is_inf then some (record a { val = a.val -ℤ b.val }) else some (neg b))

-- `operator*=`.
unfoldable pub mul_assign : Bound → Bound → Bound
unfolding is_zero make
mul_assign a b =
    if is_zero a then a else (if is_zero b then b else make (a.is_inf || b.is_inf) (a.val *ℤ b.val))

-- The free `operator+`.
unfoldable pub add : Bound → Bound → Option Bound
unfolding finite
add a b =
    if not a.is_inf && not b.is_inf
    then some (finite (a.val +ℤ b.val))
    else (if not a.is_inf && b.is_inf
        then some b
        else (if a.is_inf && not b.is_inf
            then some a
            else (if eqb_ℤ a.val b.val then some a else none)))

-- The free `operator-`.
unfoldable pub sub : Bound → Bound → Option Bound
unfolding finite neg
sub a b =
    if not a.is_inf && not b.is_inf
    then some (finite (a.val -ℤ b.val))
    else (if not a.is_inf && b.is_inf
        then some (neg b)
        else (if a.is_inf && not b.is_inf
            then some a
            else (if not (eqb_ℤ a.val b.val) then some a else none)))

-- The free `operator*`.
unfoldable pub mul : Bound → Bound → Bound
unfolding finite is_zero make
mul a b =
    if is_zero a || is_zero b then finite (pos 0) else make (a.is_inf || b.is_inf) (a.val *ℤ b.val)

unfoldable pub min : Bound → Bound → Bound
unfolding ltb
min a b = if ltb a b then a else b

unfoldable pub min_of_four : Bound → Bound → Bound → Bound → Bound
unfolding min
min_of_four a b c d = min (min (min a b) c) d

unfoldable pub max : Bound → Bound → Bound
unfolding gtb
max a b = if gtb a b then a else b

unfoldable pub max_of_four : Bound → Bound → Bound → Bound → Bound
unfolding max
max_of_four a b c d = max (max (max a b) c) d

unfoldable pub abs : Bound → Bound
unfolding geb finite neg
abs b = if geb b (finite (pos 0)) then b else neg b

module _ (gmp : Gmp) where
  -- The free `operator/`.
  unfoldable pub div : Bound → Bound → Option Bound
  unfolding finite neg is_zero make
  div a b =
      if is_zero b
      then none
      else (if not a.is_inf && not b.is_inf
          then (do q ← div_num gmp a.val b.val; some (finite q))
          else (if not a.is_inf && b.is_inf
              then some (finite (pos 0))
              else (if a.is_inf && not b.is_inf
                  then some (if leb_ℤ (pos 0) b.val then a else neg a)
                  else (do q ← div_num gmp a.val b.val; some (make true q)))))

  -- `operator<<`.
  unfoldable pub shl : Bound → Bound → Option Bound
  unfolding finite geb is_zero make
  shl a b =
      if not (geb b (finite (pos 0)))
      then none
      else (if is_zero a
          then some a
          else (if a.is_inf
              then some a
              else (if b.is_inf
                  then some (make true a.val)
                  else (do v ← shl_num gmp a.val b.val; some (finite v)))))

  -- `operator>>`.
  unfoldable pub shr : Bound → Bound → Option Bound
  unfolding finite geb is_zero
  shr a b =
      if not (geb b (finite (pos 0)))
      then none
      else (if is_zero a
          then some a
          else (if a.is_inf
              then some a
              else (if b.is_inf
                  then some (finite (if leb_ℤ (pos 0) a.val then pos 0 else negsuc 0))
                  else (do v ← shr_num gmp a.val b.val; some (finite v)))))
