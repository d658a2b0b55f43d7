-- ===== src/Interval/Products.antt =====
-- interval.hpp: `operator*` on the integers of the intervals.
use knight.Prelude.{ℕ, ◌+◌, ◌*◌, ◌-◌, ◌≡◌, refl, ap, ◌∙◌, inl, inr, Bool-cases, Bool, ◌||◌, arith}
use knight.Prelude.Int.{ℤ, pos, negsuc, pos_part, neg_part, ◌*ℤ◌, ◌≤ℤ◌, *ℤ_parts, eq_of_parts}
use knight.Bound.{Bound, finite, make, leb, mul, is_zero, is_num}
use knight.Bound.Order.{IsNormal, Le, le_trans, le_total, make-IsNormal}
use knight.Interval.Members.{finite-IsNormal}

times_le : (k m n : ℤ) → pos 0 ≤ℤ k → m ≤ℤ n → k *ℤ m ≤ℤ k *ℤ n
times_le k m n h p =
    let t : ℕ = (pos_part n + neg_part m) - (pos_part m + neg_part n) in
    let e : pos_part n + neg_part m ≡ pos_part m + neg_part n + t = omega arith in
    let z : neg_part k ≡ 0 = nonneg k h in
    omega (
      arith,
      *ℤ_parts k m,
      *ℤ_parts k n,
      ap (λ (s : ℕ). pos_part k * s) e,
      ap (λ (s : ℕ). s * pos_part m) z,
      ap (λ (s : ℕ). s * neg_part m) z,
      ap (λ (s : ℕ). s * pos_part n) z,
      ap (λ (s : ℕ). s * neg_part n) z,
    )
  where
    nonneg : (k : ℤ) → pos 0 ≤ℤ k → neg_part k ≡ 0
    nonneg (pos a) h = refl
    nonneg (negsuc a) h = omega arith

times_ge : (k m n : ℤ) → k ≤ℤ pos 0 → m ≤ℤ n → k *ℤ n ≤ℤ k *ℤ m
times_ge k m n h p =
    let t : ℕ = (pos_part n + neg_part m) - (pos_part m + neg_part n) in
    let e : pos_part n + neg_part m ≡ pos_part m + neg_part n + t = omega arith in
    let z : pos_part k ≡ 0 = nonpos k h in
    omega (
      arith,
      *ℤ_parts k m,
      *ℤ_parts k n,
      ap (λ (s : ℕ). neg_part k * s) e,
      ap (λ (s : ℕ). s * pos_part m) z,
      ap (λ (s : ℕ). s * neg_part m) z,
      ap (λ (s : ℕ). s * pos_part n) z,
      ap (λ (s : ℕ). s * neg_part n) z,
    )
  where
    nonpos : (k : ℤ) → k ≤ℤ pos 0 → pos_part k ≡ 0
    nonpos (pos a) h = omega arith
    nonpos (negsuc a) h = refl

times_comm : (a b : ℤ) → a *ℤ b ≡ b *ℤ a
times_comm a b = eq_of_parts _ _ (omega (arith, *ℤ_parts a b, *ℤ_parts b a))

or_comm : (a b : Bool) → (a || b) ≡ (b || a)
or_comm a b = ground arith

mul_comm : (a b : Bound) → mul a b ≡ mul b a
unfolding mul
mul_comm a b =
    rw (times_comm a.val b.val, or_comm (is_zero a) (is_zero b), or_comm a.is_inf b.is_inf) refl

pub mul-IsNormal : (a b : Bound) → IsNormal (mul a b)
unfolding mul
mul-IsNormal a b = elim (Bool-cases (is_zero a || is_zero b)) [
  | inl e ↦ rw e (finite-IsNormal (pos 0))
  | inr e ↦ rw e (make-IsNormal (a.is_inf || b.is_inf) (a.val *ℤ b.val))
]

mul-finite : (m n : ℤ) → mul (finite m) (finite n) ≡ finite (m *ℤ n)
unfolding mul finite is_zero is_num make ◌*ℤ◌
mul-finite m n = ground arith

finite_le : (m n : ℤ) → m ≤ℤ n → Le (finite m) (finite n)
unfolding finite make leb
finite_le m n h = ground arith

fin_mono :
    (k m n : ℤ) → pos 0 ≤ℤ k → m ≤ℤ n → Le (mul (finite k) (finite m)) (mul (finite k) (finite n))
fin_mono k m n h p = rw (mul-finite k m, mul-finite k n) (finite_le _ _ (times_le k m n h p))

fin_anti :
    (k m n : ℤ) → k ≤ℤ pos 0 → m ≤ℤ n → Le (mul (finite k) (finite n)) (mul (finite k) (finite m))
fin_anti k m n h p = rw (mul-finite k m, mul-finite k n) (finite_le _ _ (times_ge k m n h p))

-- A product with a bound at or above zero keeps the order of the other factor.
mul_mono :
    {b c e : Bound}
    → IsNormal b
    → IsNormal c
    → IsNormal e
    → Le (finite (pos 0)) b
    → Le c e
    → Le (mul b c) (mul b e)
unfolding mul finite is_zero is_num make leb ◌*ℤ◌
mul_mono (IsNormal.fin k) (IsNormal.fin m) (IsNormal.fin n) h p =
    fin_mono k m n (ground (arith, h)) (ground (arith, p))
mul_mono (IsNormal.fin k) IsNormal.minus (IsNormal.fin n) h p = ground arith
mul_mono (IsNormal.fin k) (IsNormal.fin m) IsNormal.plus h p = ground arith
mul_mono (IsNormal.fin k) IsNormal.minus IsNormal.minus h p = ground arith
mul_mono (IsNormal.fin k) IsNormal.minus IsNormal.plus h p = ground arith
mul_mono (IsNormal.fin k) IsNormal.plus IsNormal.plus h p = ground arith
mul_mono IsNormal.plus (IsNormal.fin m) (IsNormal.fin n) h p = ground arith
mul_mono IsNormal.plus IsNormal.minus (IsNormal.fin n) h p = ground arith
mul_mono IsNormal.plus (IsNormal.fin m) IsNormal.plus h p = ground arith
mul_mono IsNormal.plus IsNormal.minus IsNormal.minus h p = refl
mul_mono IsNormal.plus IsNormal.minus IsNormal.plus h p = refl
mul_mono IsNormal.plus IsNormal.plus IsNormal.plus h p = refl
mul_mono _ _ _ h p = ground arith

-- One at or below zero reverses it.
mul_anti :
    {b c e : Bound}
    → IsNormal b
    → IsNormal c
    → IsNormal e
    → Le b (finite (pos 0))
    → Le c e
    → Le (mul b e) (mul b c)
unfolding mul finite is_zero is_num make leb ◌*ℤ◌
mul_anti (IsNormal.fin k) (IsNormal.fin m) (IsNormal.fin n) h p =
    fin_anti k m n (ground (arith, h)) (ground (arith, p))
mul_anti (IsNormal.fin k) IsNormal.minus (IsNormal.fin n) h p = ground arith
mul_anti (IsNormal.fin k) (IsNormal.fin m) IsNormal.plus h p = ground arith
mul_anti (IsNormal.fin k) IsNormal.minus IsNormal.minus h p = ground arith
mul_anti (IsNormal.fin k) IsNormal.minus IsNormal.plus h p = ground arith
mul_anti (IsNormal.fin k) IsNormal.plus IsNormal.plus h p = ground arith
mul_anti IsNormal.minus (IsNormal.fin m) (IsNormal.fin n) h p = ground arith
mul_anti IsNormal.minus IsNormal.minus (IsNormal.fin n) h p = ground arith
mul_anti IsNormal.minus (IsNormal.fin m) IsNormal.plus h p = ground arith
mul_anti IsNormal.minus IsNormal.minus IsNormal.minus h p = refl
mul_anti IsNormal.minus IsNormal.minus IsNormal.plus h p = refl
mul_anti IsNormal.minus IsNormal.plus IsNormal.plus h p = refl
mul_anti _ _ _ h p = ground arith

module _ {b c e f : Bound} (nb : IsNormal b) (nc : IsNormal c) (ne : IsNormal e)
    (nf : IsNormal f) where
  lower_between :
      {l : Bound} → IsNormal l → Le c e → Le e f → Le l (mul b c) → Le l (mul b f) → Le l (mul b e)
  lower_between nl p q r s = elim (le_total (finite-IsNormal (pos 0)) nb) [
    | inl z ↦ le_trans nl (mul-IsNormal b c) (mul-IsNormal b e) r (mul_mono nb nc ne z p)
    | inr z ↦ le_trans nl (mul-IsNormal b f) (mul-IsNormal b e) s (mul_anti nb ne nf z q)
  ]

  upper_between :
      {u : Bound} → IsNormal u → Le c e → Le e f → Le (mul b c) u → Le (mul b f) u → Le (mul b e) u
  upper_between nu p q r s = elim (le_total (finite-IsNormal (pos 0)) nb) [
    | inl z ↦ le_trans (mul-IsNormal b e) (mul-IsNormal b f) nu (mul_mono nb ne nf z q) s
    | inr z ↦ le_trans (mul-IsNormal b e) (mul-IsNormal b c) nu (mul_anti nb nc ne z p) r
  ]

-- The products of the bounds of two intervals bound the products of their integers.
module _ {a b c d : Bound} (na : IsNormal a) (nb : IsNormal b) (nc : IsNormal c) (nd : IsNormal d)
    (m n : ℤ) (p : Le a (finite m)) (q : Le (finite m) b) (r : Le c (finite n))
    (s : Le (finite n) d) where
  corner : mul (finite n) (finite m) ≡ finite (m *ℤ n)
  corner = mul_comm (finite n) (finite m) ∙ mul-finite m n

  pub product_above :
      {l : Bound}
      → IsNormal l
      → Le l (mul a c)
      → Le l (mul a d)
      → Le l (mul b c)
      → Le l (mul b d)
      → Le l (finite (m *ℤ n))
  product_above {l} nl ac ad bc bd =
      let left : Le l (mul (finite n) a) =
        rw (mul_comm (finite n) a) (lower_between na nc (finite-IsNormal n) nd nl r s ac ad) in
      let right : Le l (mul (finite n) b) =
        rw (mul_comm (finite n) b) (lower_between nb nc (finite-IsNormal n) nd nl r s bc bd) in
      rw (← corner) (lower_between (finite-IsNormal n) na (finite-IsNormal m) nb nl p q left right)

  pub product_below :
      {u : Bound}
      → IsNormal u
      → Le (mul a c) u
      → Le (mul a d) u
      → Le (mul b c) u
      → Le (mul b d) u
      → Le (finite (m *ℤ n)) u
  product_below {u} nu ac ad bc bd =
      let left : Le (mul (finite n) a) u =
        rw (mul_comm (finite n) a) (upper_between na nc (finite-IsNormal n) nd nu r s ac ad) in
      let right : Le (mul (finite n) b) u =
        rw (mul_comm (finite n) b) (upper_between nb nc (finite-IsNormal n) nd nu r s bc bd) in
      rw (← corner) (upper_between (finite-IsNormal n) na (finite-IsNormal m) nb nu p q left right)
