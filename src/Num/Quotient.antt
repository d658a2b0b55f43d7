-- ===== src/Num/Quotient.antt =====
-- znum.hpp: the order of truncated quotients.
use knight.Prelude.{
  ℕ, zero, suc, ◌+◌, ◌-◌, ◌*◌, ◌/◌, ◌≤◌, ◌<◌, ◌≡◌, ◌≢◌, refl, ◌∙◌, ap, arith, ◌⊎◌, inl, inr,
}
use knight.Prelude.Int.{ℤ, pos, negsuc, neg_ℤ, neg_ℤ_parts, ◌*ℤ◌, *ℤ_parts, ◌≤ℤ◌, ◌<ℤ◌, eq_of_parts}
use knight.Num.{trunc}
use native.Mathlib.Nat.{le-div_iff_mul-le, div-mul-le_self, mul-div_cancel_left, div-one}

div_mono : (a b k : ℕ) → 0 < k → a ≤ b → a / k ≤ b / k
div_mono a b k h p = (le-div_iff_mul-le h).1 (omega (arith, div-mul-le_self a k))

div_anti : (a j k : ℕ) → 0 < j → j ≤ k → a / k ≤ a / j
div_anti a j k h p =
    let u : ℕ = k - j in
    let e : k ≡ j + u = omega arith in
    (le-div_iff_mul-le h).1 (omega (arith, div-mul-le_self a k, ap (λ (s : ℕ). a / k * s) e))

suc_pred : (k : ℕ) → 0 < k → k ≡ 1 + (k - 1)
suc_pred k h = omega arith

zero_div : (k : ℕ) → 0 < k → 0 / k ≡ 0
zero_div k h = omega (arith, div-mul-le_self 0 k, ap (λ (s : ℕ). 0 / k * s) (suc_pred k h))

-- The quotient by a positive divisor keeps the order, and by a negative one reverses it.
pub trunc_mono : (m n d : ℤ) → pos 0 <ℤ d → m ≤ℤ n → trunc m d ≤ℤ trunc n d
unfolding trunc
trunc_mono (pos m) (pos n) (pos (suc d)) h p =
    omega (arith, div_mono m n (suc d) (omega arith) (omega arith))
trunc_mono (negsuc m) (pos n) (pos (suc d)) h p = omega (arith, neg_ℤ_parts (pos (suc m / suc d)))
trunc_mono (negsuc m) (negsuc n) (pos (suc d)) h p = omega (
  arith,
  neg_ℤ_parts (pos (suc m / suc d)),
  neg_ℤ_parts (pos (suc n / suc d)),
  div_mono (suc n) (suc m) (suc d) (omega arith) (omega arith),
)
trunc_mono m n d h p = absurd (omega arith)

pub trunc_anti : (m n d : ℤ) → d <ℤ pos 0 → m ≤ℤ n → trunc n d ≤ℤ trunc m d
unfolding trunc
trunc_anti (pos m) (pos n) (negsuc d) h p = omega (
  arith,
  neg_ℤ_parts (pos (m / suc d)),
  neg_ℤ_parts (pos (n / suc d)),
  div_mono m n (suc d) (omega arith) (omega arith),
)
trunc_anti (negsuc m) (pos n) (negsuc d) h p = omega (arith, neg_ℤ_parts (pos (n / suc d)))
trunc_anti (negsuc m) (negsuc n) (negsuc d) h p =
    omega (arith, div_mono (suc n) (suc m) (suc d) (omega arith) (omega arith))
trunc_anti m n d h p = absurd (omega arith)

-- Divisors of one sign: a larger one gives a lesser quotient of a number that is not negative.
pub trunc_divisor_anti :
    (m d e : ℤ) → pos 0 ≤ℤ m → d ≤ℤ e → pos 0 <ℤ d ⊎ e <ℤ pos 0 → trunc m e ≤ℤ trunc m d
unfolding trunc
trunc_divisor_anti (pos m) (pos (suc d)) (pos (suc e)) h p s =
    omega (arith, div_anti m (suc d) (suc e) (omega arith) (ground arith))
trunc_divisor_anti (pos m) (negsuc d) (negsuc e) h p s = omega (
  arith,
  neg_ℤ_parts (pos (m / suc d)),
  neg_ℤ_parts (pos (m / suc e)),
  div_anti m (suc e) (suc d) (omega arith) (ground arith),
)
trunc_divisor_anti m d e h p s = absurd (ground arith)

pub trunc_divisor_mono :
    (m d e : ℤ) → m ≤ℤ pos 0 → d ≤ℤ e → pos 0 <ℤ d ⊎ e <ℤ pos 0 → trunc m d ≤ℤ trunc m e
unfolding trunc
trunc_divisor_mono (pos zero) (pos (suc d)) (pos (suc e)) h p s =
    omega (arith, zero_div (suc d) (omega arith), zero_div (suc e) (omega arith))
trunc_divisor_mono (pos zero) (negsuc d) (negsuc e) h p s = omega (
  arith,
  zero_div (suc d) (omega arith),
  zero_div (suc e) (omega arith),
  neg_ℤ_parts (pos (0 / suc d)),
  neg_ℤ_parts (pos (0 / suc e)),
)
trunc_divisor_mono (negsuc m) (pos (suc d)) (pos (suc e)) h p s = omega (
  arith,
  neg_ℤ_parts (pos (suc m / suc d)),
  neg_ℤ_parts (pos (suc m / suc e)),
  div_anti (suc m) (suc d) (suc e) (omega arith) (ground arith),
)
trunc_divisor_mono (negsuc m) (negsuc d) (negsuc e) h p s =
    omega (arith, div_anti (suc m) (suc e) (suc d) (omega arith) (ground arith))
trunc_divisor_mono m d e h p s = absurd (ground arith)

pub trunc_zero : (d : ℤ) → (pos 0 <ℤ d ⊎ d <ℤ pos 0) → trunc (pos 0) d ≡ pos 0
unfolding trunc
trunc_zero (pos (suc d)) s = ap pos (zero_div (suc d) (omega arith))
trunc_zero (negsuc d) s =
    eq_of_parts _ _ (omega (arith, zero_div (suc d) (omega arith), neg_ℤ_parts (pos (0 / suc d))))
trunc_zero (pos zero) s = absurd (ground arith)

-- The sign of a quotient.
pub trunc_pos : (m d : ℤ) → pos 0 ≤ℤ m → pos 0 <ℤ d → pos 0 ≤ℤ trunc m d
trunc_pos m d h p = rw (trunc_zero d (inl p)) at (trunc_mono (pos 0) m d p h)

pub trunc_pos_neg : (m d : ℤ) → pos 0 ≤ℤ m → d <ℤ pos 0 → trunc m d ≤ℤ pos 0
trunc_pos_neg m d h p = rw (trunc_zero d (inr p)) at (trunc_anti (pos 0) m d p h)

pub trunc_neg_pos : (m d : ℤ) → m ≤ℤ pos 0 → pos 0 <ℤ d → trunc m d ≤ℤ pos 0
trunc_neg_pos m d h p = rw (trunc_zero d (inl p)) at (trunc_mono m (pos 0) d p h)

pub trunc_neg : (m d : ℤ) → m ≤ℤ pos 0 → d <ℤ pos 0 → pos 0 ≤ℤ trunc m d
trunc_neg m d h p = rw (trunc_zero d (inr p)) at (trunc_anti m (pos 0) d p h)

-- The products of integers by their signs.
pos_times : (m n : ℕ) → pos m *ℤ pos n ≡ pos (m * n)
pos_times m n = eq_of_parts _ _ (omega (arith, *ℤ_parts (pos m) (pos n)))

pos_times_neg : (m n : ℕ) → pos m *ℤ negsuc n ≡ neg_ℤ (pos (m * suc n))
pos_times_neg m n =
    eq_of_parts _ _ (omega (arith, *ℤ_parts (pos m) (negsuc n), neg_ℤ_parts (pos (m * suc n))))

neg_times_pos : (m n : ℕ) → negsuc m *ℤ pos n ≡ neg_ℤ (pos (suc m * n))
neg_times_pos m n =
    eq_of_parts _ _ (omega (arith, *ℤ_parts (negsuc m) (pos n), neg_ℤ_parts (pos (suc m * n))))

neg_times_neg : (m n : ℕ) → negsuc m *ℤ negsuc n ≡ pos (suc m * suc n)
neg_times_neg m n = eq_of_parts _ _ (omega (arith, *ℤ_parts (negsuc m) (negsuc n)))

neg_suc : (n : ℕ) → neg_ℤ (pos (suc n)) ≡ negsuc n
neg_suc n = eq_of_parts _ _ (omega (arith, neg_ℤ_parts (pos (suc n))))

neg_zero : neg_ℤ (pos 0) ≡ pos 0
neg_zero = eq_of_parts _ _ (omega (arith, neg_ℤ_parts (pos 0)))

-- The quotients of an opposite.
trunc_neg_dividend :
    (a d : ℕ)
    → (trunc (neg_ℤ (pos a)) (pos (suc d)) ≡ neg_ℤ (pos (a / suc d)))
      × (trunc (neg_ℤ (pos a)) (negsuc d) ≡ pos (a / suc d))
unfolding trunc
trunc_neg_dividend zero d =
    rw neg_zero (rw (zero_div (suc d) (omega arith)) (rw neg_zero (refl, refl)))
trunc_neg_dividend (suc a) d = rw (neg_suc a) (refl, refl)

unit_suc : (n : ℕ) → neg_ℤ (pos (1 * suc n)) ≡ negsuc n
unit_suc n = eq_of_parts _ _ (omega (arith, neg_ℤ_parts (pos (1 * suc n))))

negsuc_neg : (n : ℕ) → negsuc 0 *ℤ neg_ℤ (pos n) ≡ pos n
negsuc_neg n =
    eq_of_parts _ _ (omega (arith, *ℤ_parts (negsuc 0) (neg_ℤ (pos n)), neg_ℤ_parts (pos n)))

-- A quotient without remainder, and the quotients by 1 and -1.
pub trunc_times : (a x : ℤ) → a ≢ pos 0 → trunc (a *ℤ x) a ≡ x
unfolding trunc
trunc_times (pos (suc d)) (pos n) h =
    rw (pos_times (suc d) n) (ap pos (mul-div_cancel_left n (omega arith)))
trunc_times (pos (suc d)) (negsuc n) h = rw (pos_times_neg (suc d) n) (
    (trunc_neg_dividend (suc d * suc n) d).0
    ∙ rw (mul-div_cancel_left (suc n) {n = suc d} (omega arith)) (neg_suc n))
trunc_times (negsuc d) (pos n) h =
    rw (neg_times_pos d n)
      ((trunc_neg_dividend (suc d * n) d).1 ∙ ap pos (mul-div_cancel_left n (omega arith)))
trunc_times (negsuc d) (negsuc n) h =
    rw (neg_times_neg d n, mul-div_cancel_left (suc n) {n = suc d} (omega arith)) (neg_suc n)
trunc_times (pos zero) x h = absurd (h refl)

pub times_trunc_unit : (r a : ℤ) → (a ≡ pos 1) ⊎ (a ≡ negsuc 0) → a *ℤ trunc r a ≡ r
unfolding trunc
times_trunc_unit (pos n) a (inl h) = rw (h, div-one n, pos_times 1 n) (ap pos (omega arith))
times_trunc_unit (negsuc n) a (inl h) =
    rw (h, div-one (suc n), neg_suc n, pos_times_neg 1 n) (unit_suc n)
times_trunc_unit (pos n) a (inr h) = rw (h, div-one n) (negsuc_neg n)
times_trunc_unit (negsuc n) a (inr h) =
    rw (h, div-one (suc n), neg_times_pos 0 (suc n)) (unit_suc n)
