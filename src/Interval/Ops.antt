-- ===== src/Interval/Ops.antt =====
-- interval.hpp: `operator*`, `/`, `%`, `mod`, the shifts and the bitwise operators of `Interval`.
--
-- `operator/` and `operator>>` call themselves on the parts of an operand below and above zero. A part
-- does not contain zero, so the calls are at most three deep for `/` and two for `>>`: the fuel.
use knight.Prelude.{ℕ, zero, suc, Bool, false, ◌&&◌, ◌||◌, Option, none, some, if◌then◌else◌, ◌>>=◌}
use knight.Prelude.Int.{pos, negsuc, ◌+ℤ◌, ◌-ℤ◌, leb_ℤ, eqb_ℤ}
use knight.Num.{ZNum, Gmp, max_num, abs_num, rem_num, mod_num, shl_num}
use knight.Bound.{
  finite, pinf, is_finite, geb, ltb, gtb, neg, abs, sub, mul, div, shr, min, max, min_of_four,
  max_of_four, get_num_opt,
}
use knight.Interval.{
  Interval, bottom, top, construct, singleton, is_bottom, contains, get_singleton_opt, join_with,
  meet_with,
}

unfoldable pub times : Interval → Interval → Option Interval
unfolding is_bottom bottom construct mul min_of_four max_of_four
times x y =
    if is_bottom x || is_bottom y
    then some bottom
    else (let ll = mul x.lb y.lb in
        let lu = mul x.lb y.ub in
        let ul = mul x.ub y.lb in
        let uu = mul x.ub y.ub in construct (min_of_four ll lu ul uu) (max_of_four ll lu ul uu))

-- `*opt == n`, false where there is no value.
abbrev is_value : Option ZNum → ZNum → Bool
is_value none n = false
is_value (some m) n = eqb_ℤ m n

module _ (gmp : Gmp) where
  unfoldable pub divide_fuel : ℕ → Interval → Interval → Option Interval
  unfolding is_bottom bottom contains construct finite join_with singleton div min_of_four
      max_of_four
  divide_fuel zero x y = none
  divide_fuel (suc fuel) x y =
      let over_parts : Option Interval = do
        l ← construct y.lb (finite (negsuc 0))
        u ← construct (finite (pos 1)) y.ub
        res ← divide_fuel fuel x l
        rest ← divide_fuel fuel x u
        some (join_with res rest)
      in let of_parts : Option Interval = do
        l ← construct x.lb (finite (negsuc 0))
        u ← construct (finite (pos 1)) x.ub
        res ← divide_fuel fuel l y
        rest ← divide_fuel fuel u y
        some (join_with (join_with res rest) (singleton (pos 0)))
        in if is_bottom x || is_bottom y
          then some bottom
          else (if contains y (pos 0)
              then over_parts
              else (if contains x (pos 0) then of_parts else (do
                ll ← div gmp x.lb y.lb
                lu ← div gmp x.lb y.ub
                ul ← div gmp x.ub y.lb
                uu ← div gmp x.ub y.ub
                construct (min_of_four ll lu ul uu) (max_of_four ll lu ul uu))))

  unfoldable pub divide : Interval → Interval → Option Interval
  unfolding divide_fuel
  divide x y = divide_fuel 3 x y

  -- `operator%`.
  unfoldable pub remainder : Interval → Interval → Option Interval
  unfolding is_bottom bottom get_singleton_opt singleton construct finite rem_num max abs sub min
      ltb gtb neg
  remainder x y =
      let by_bounds : Option Interval = do
        d ← sub (max (abs y.lb) (abs y.ub)) (finite (pos 1))
        let u = min (max (abs x.lb) (abs x.ub)) d
        (if ltb x.lb (finite (pos 0))
            then (if gtb x.ub (finite (pos 0))
                then construct (neg u) u
                else construct (neg u) (finite (pos 0)))
            else construct (finite (pos 0)) u)
      in if is_bottom x || is_bottom y
        then some bottom
        else (if is_value (get_singleton_opt y) (pos 0)
            then some bottom
            else (elim (get_singleton_opt x) [
              | none ↦ by_bounds
              | some n ↦ elim (get_singleton_opt y) [
                | none ↦ by_bounds
                | some d ↦ (do r ← rem_num gmp n d; some (singleton r))
              ]
            ]))

  -- The branch of `mod` for a single divisor and finite bounds of the dividend.
  unfoldable pub modulo_finite : ZNum → ZNum → ZNum → Option Interval
  unfolding construct finite mod_num abs_num
  modulo_finite lb ub d = do
    mod_lb ← mod_num gmp lb d
    mod_ub ← mod_num gmp ub d
    (if eqb_ℤ (mod_ub -ℤ mod_lb) (ub -ℤ lb)
        then construct (finite mod_lb) (finite mod_ub)
        else construct (finite (pos 0)) (finite (abs_num d -ℤ pos 1)))

  -- `mod`.
  unfoldable pub modulo : Interval → Interval → Option Interval
  unfolding is_bottom bottom get_singleton_opt singleton construct finite mod_num max abs sub
      modulo_finite
  modulo x y =
      let by_bounds : Option Interval = do
        u ← sub (max (abs y.lb) (abs y.ub)) (finite (pos 1))
        construct (finite (pos 0)) u
      in if is_bottom x || is_bottom y
        then some bottom
        else (if is_value (get_singleton_opt y) (pos 0)
            then some bottom
            else (elim (get_singleton_opt y) [
              | none ↦ by_bounds
              | some d ↦ elim (get_singleton_opt x) [
                | some n ↦ (do r ← mod_num gmp n d; some (singleton r))
                | none ↦
                    if is_finite x.lb && is_finite x.ub
                    then modulo_finite x.lb.val x.ub.val d
                    else by_bounds
              ]
            ]))

  -- `operator<<`. The optional number that `*` takes of the lower bound is there.
  unfoldable pub shift_left : Interval → Interval → Option Interval
  unfolding is_bottom bottom meet_with construct finite pinf get_num_opt shl_num times
  shift_left x y = if is_bottom x || is_bottom y then some bottom else (do
    count ← construct (finite (pos 0)) pinf
    let shift = meet_with y count
    let shifted : Option Interval = do
      low ← get_num_opt shift.lb
      l ← shl_num gmp (pos 1) low
      coeff ←
          (if is_finite shift.ub
            then (do u ← shl_num gmp (pos 1) shift.ub.val; construct (finite l) (finite u))
            else construct (finite l) pinf)
      times x coeff
    if is_bottom shift then some bottom else shifted)

  unfoldable pub shift_right_fuel : ℕ → Interval → Interval → Option Interval
  unfolding is_bottom bottom meet_with construct finite pinf contains join_with singleton shr
      min_of_four max_of_four
  shift_right_fuel zero x y = none
  shift_right_fuel (suc fuel) x y =
      let of_parts : Option Interval = do
        l ← construct x.lb (finite (negsuc 0))
        u ← construct (finite (pos 1)) x.ub
        res ← shift_right_fuel fuel l y
        rest ← shift_right_fuel fuel u y
        some (join_with (join_with res rest) (singleton (pos 0)))
      in if is_bottom x || is_bottom y then some bottom else (do
        count ← construct (finite (pos 0)) pinf
        let shift = meet_with y count
        (if is_bottom shift
            then some bottom
            else (if contains x (pos 0) then of_parts else (do
              ll ← shr gmp x.lb shift.lb
              lu ← shr gmp x.lb shift.ub
              ul ← shr gmp x.ub shift.lb
              uu ← shr gmp x.ub shift.ub
              construct (min_of_four ll lu ul uu) (max_of_four ll lu ul uu)))))

  -- `operator>>`.
  unfoldable pub shift_right : Interval → Interval → Option Interval
  unfolding shift_right_fuel
  shift_right x y = shift_right_fuel 2 x y

  -- `operator&` where not both operands are single.
  unfoldable pub and_bounds : Interval → Interval → Option Interval
  unfolding construct finite geb min top
  and_bounds x y =
      if geb x.lb (finite (pos 0)) && geb y.lb (finite (pos 0))
      then construct (finite (pos 0)) (min x.ub y.ub)
      else (if geb x.lb (finite (pos 0))
          then construct (finite (pos 0)) x.ub
          else (if geb y.lb (finite (pos 0)) then construct (finite (pos 0)) y.ub else some top))

  -- `operator&`.
  unfoldable pub bit_and : Interval → Interval → Option Interval
  unfolding is_bottom bottom get_singleton_opt singleton and_bounds
  bit_and x y =
      let l = get_singleton_opt x in
      let r = get_singleton_opt y in
      let mixed : Option Interval =
        if is_value l (pos 0) || is_value r (pos 0)
        then some (singleton (pos 0))
        else (if is_value l (negsuc 0)
            then some y
            else (if is_value r (negsuc 0) then some x else and_bounds x y)) in
      if is_bottom x || is_bottom y then some bottom else (elim l [
        | none ↦ mixed
        | some m ↦ elim r [ none ↦ mixed | some n ↦ some (singleton (gmp.mpz_and m n)) ]
      ])

  -- The last branches of `operator|` and `operator^`: all bits below the greater upper bound.
  unfoldable pub bits_below : Interval → Interval → Option Interval
  unfolding construct finite geb top max_num shl_num
  bits_below x y =
      let m = max_num x.ub.val y.ub.val in
      let bounded : Option Interval = do
        p ← (if leb_ℤ (m +ℤ pos 1) (pos 1) then some (pos 1) else shl_num gmp (pos 1) m)
        construct (finite (pos 0)) (finite (p -ℤ pos 1))
      in if geb x.lb (finite (pos 0))
          && is_finite x.ub
          && geb y.lb (finite (pos 0))
          && is_finite y.ub
        then bounded
        else some top

  -- `operator|`.
  unfoldable pub bit_or : Interval → Interval → Option Interval
  unfolding is_bottom bottom get_singleton_opt singleton bits_below
  bit_or x y =
      let l = get_singleton_opt x in
      let r = get_singleton_opt y in
      let mixed : Option Interval =
        if is_value l (negsuc 0) || is_value r (negsuc 0)
        then some (singleton (negsuc 0))
        else (if is_value l (pos 0)
            then some y
            else (if is_value r (pos 0) then some x else bits_below x y)) in
      if is_bottom x || is_bottom y then some bottom else (elim l [
        | none ↦ mixed
        | some m ↦ elim r [ none ↦ mixed | some n ↦ some (singleton (gmp.mpz_ior m n)) ]
      ])

  -- `operator^`.
  unfoldable pub bit_xor : Interval → Interval → Option Interval
  unfolding is_bottom bottom get_singleton_opt singleton bits_below
  bit_xor x y =
      let l = get_singleton_opt x in
      let r = get_singleton_opt y in
      let mixed : Option Interval =
        if is_value l (pos 0)
        then some y
        else (if is_value r (pos 0) then some x else bits_below x y) in
      if is_bottom x || is_bottom y then some bottom else (elim l [
        | none ↦ mixed
        | some m ↦ elim r [ none ↦ mixed | some n ↦ some (singleton (gmp.mpz_xor m n)) ]
      ])
