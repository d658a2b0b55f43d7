-- ===== src/Num.antt =====
-- analyzer/include/analyzer/core/domain/num/znum.hpp: `ZNum`, a wrapper of GMP's `mpz_class`.
--
-- A `ZNum` is an integer of any size, with the sums, products and comparisons of the integers. The
-- calls of GMP that have conventions of their own are the parameter `Gmp`.
pub mod Quotient
use knight.Prelude.{ℕ, suc, ◌/◌, ◌≡◌, ◌≢◌, ◌^◌, Bool, ◌&&◌, Option, none, some, if◌then◌else◌, ltb}
use knight.Prelude.Int.{ℤ, pos, negsuc, neg_ℤ, nat_abs, pos_part, leb_ℤ, ltb_ℤ, eqb_ℤ}

abbrev pub ZNum : Type 0
ZNum = ℤ

-- `/`, `%`, `mpz_mod`, `&`, `|`, `^`, `<<` and `>>` of `mpz_class`.
pub record Gmp : Type 0 where
  pub tdiv_q : ZNum → ZNum → ZNum
  pub tdiv_r : ZNum → ZNum → ZNum
  pub mpz_mod : ZNum → ZNum → ZNum
  pub mpz_and : ZNum → ZNum → ZNum
  pub mpz_ior : ZNum → ZNum → ZNum
  pub mpz_xor : ZNum → ZNum → ZNum
  pub mul_2exp : ZNum → ℕ → ZNum
  pub fdiv_q_2exp : ZNum → ℕ → ZNum

unfoldable pub min_num : ZNum → ZNum → ZNum
min_num a b = if ltb_ℤ a b then a else b

unfoldable pub max_num : ZNum → ZNum → ZNum
max_num a b = if ltb_ℤ a b then b else a

unfoldable pub abs_num : ZNum → ZNum
abs_num n = pos (nat_abs n)

-- `fits_ulong_p`, for an `unsigned long` of 64 bits; the count is not negative either.
is_shift_count : ZNum → Bool
is_shift_count k = leb_ℤ (pos 0) k && ltb (pos_part k) (2 ^ 64)

module _ (gmp : Gmp) where
  unfoldable pub div_num : ZNum → ZNum → Option ZNum
  div_num a b = if eqb_ℤ b (pos 0) then none else some (gmp.tdiv_q a b)

  unfoldable pub rem_num : ZNum → ZNum → Option ZNum
  rem_num a b = if eqb_ℤ b (pos 0) then none else some (gmp.tdiv_r a b)

  unfoldable pub mod_num : ZNum → ZNum → Option ZNum
  mod_num a b = if eqb_ℤ b (pos 0) then none else some (gmp.mpz_mod a b)

  unfoldable pub shl_num : ZNum → ZNum → Option ZNum
  unfolding is_shift_count
  shl_num a k = if is_shift_count k then some (gmp.mul_2exp a (pos_part k)) else none

  unfoldable pub shr_num : ZNum → ZNum → Option ZNum
  unfolding is_shift_count
  shr_num a k = if is_shift_count k then some (gmp.fdiv_q_2exp a (pos_part k)) else none

-- The quotient rounded towards zero, for a divisor that is not zero.
unfoldable pub trunc : ZNum → ZNum → ZNum
trunc (pos a) (pos b) = pos (a / b)
trunc (pos a) (negsuc b) = neg_ℤ (pos (a / suc b))
trunc (negsuc a) (pos b) = neg_ℤ (pos (suc a / b))
trunc (negsuc a) (negsuc b) = pos (suc a / suc b)

-- What the manual of GMP says of the quotients: they are rounded towards zero.
pub record Truncates (gmp : Gmp) : Type 0 where
  pub tdiv_q_law : (n d : ZNum) → d ≢ pos 0 → gmp.tdiv_q n d ≡ trunc n d
