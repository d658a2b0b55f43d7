-- ===== src/Bound/Sides.antt =====
-- bound.hpp: lower bounds, which are never +oo, and upper bounds, which are never -oo, with the sums,
-- differences and opposites that interval.hpp takes of them.
use knight.Prelude.{◌≡◌, refl, true, false, arith, Bool-cases, inl, inr, Returns}
use knight.Prelude.Int.{ℤ, pos, negsuc, ◌+ℤ◌, ◌-ℤ◌, neg_ℤ, +ℤ_parts, -ℤ_parts, neg_ℤ_parts}
use knight.Bound.{Bound, finite, leb, neg, add, sub, add_assign, sub_assign, min, max, ltb, gtb}
use knight.Bound.Order.{IsNormal, Le}

pub data IsLower : Bound → Type 0 where
  minus : IsLower (record { is_inf = true; val = negsuc 0 })
  fin : (n : ℤ) → IsLower (record { is_inf = false; val = n })

pub data IsUpper : Bound → Type 0 where
  fin : (n : ℤ) → IsUpper (record { is_inf = false; val = n })
  plus : IsUpper (record { is_inf = true; val = pos 1 })

pub normal_of_lower : {a : Bound} → IsLower a → IsNormal a
normal_of_lower minus = IsNormal.minus
normal_of_lower (fin n) = IsNormal.fin n

pub normal_of_upper : {a : Bound} → IsUpper a → IsNormal a
normal_of_upper (fin n) = IsNormal.fin n
normal_of_upper plus = IsNormal.plus

-- `n` is not below the bound, and not above it.
abbrev pub Above : Bound → ℤ → Type 0
Above b n = Le b (finite n)

abbrev pub Below : Bound → ℤ → Type 0
Below b n = Le (finite n) b

pub min-IsLower : {a b : Bound} → IsLower a → IsLower b → IsLower (min a b)
unfolding min
min-IsLower {a} {b} p q = elim (Bool-cases (ltb a b)) [ inl e ↦ rw e p | inr e ↦ rw e q ]

pub max-IsLower : {a b : Bound} → IsLower a → IsLower b → IsLower (max a b)
unfolding max
max-IsLower {a} {b} p q = elim (Bool-cases (gtb a b)) [ inl e ↦ rw e p | inr e ↦ rw e q ]

pub min-IsUpper : {a b : Bound} → IsUpper a → IsUpper b → IsUpper (min a b)
unfolding min
min-IsUpper {a} {b} p q = elim (Bool-cases (ltb a b)) [ inl e ↦ rw e p | inr e ↦ rw e q ]

pub max-IsUpper : {a b : Bound} → IsUpper a → IsUpper b → IsUpper (max a b)
unfolding max
max-IsUpper {a} {b} p q = elim (Bool-cases (gtb a b)) [ inl e ↦ rw e p | inr e ↦ rw e q ]

pub neg-IsLower : {b : Bound} → IsUpper b → IsLower (neg b)
unfolding neg neg_ℤ
neg-IsLower (fin n) = fin _
neg-IsLower plus = minus

pub neg-IsUpper : {b : Bound} → IsLower b → IsUpper (neg b)
unfolding neg neg_ℤ
neg-IsUpper (fin n) = fin _
neg-IsUpper minus = plus

pub neg-Below : {b : Bound} (n : ℤ) → IsLower b → Above b n → Below (neg b) (neg_ℤ n)
unfolding neg leb finite
neg-Below n (fin b) h = ground (arith, neg_ℤ_parts n, neg_ℤ_parts b)
neg-Below n minus h = unfold neg_ℤ in refl

pub neg-Above : {b : Bound} (n : ℤ) → IsUpper b → Below b n → Above (neg b) (neg_ℤ n)
unfolding neg leb finite
neg-Above n (fin b) h = ground (arith, neg_ℤ_parts n, neg_ℤ_parts b)
neg-Above n plus h = unfold neg_ℤ in refl

-- Lower bounds of sums and differences.
abbrev pub IsLowerFor : (ℤ → ℤ → ℤ) → (ℤ → Type 0) → (ℤ → Type 0) → Bound → Type 0
IsLowerFor f P Q c = IsLower c × ((m n : ℤ) → P m → Q n → Above c (f m n))

abbrev pub IsUpperFor : (ℤ → ℤ → ℤ) → (ℤ → Type 0) → (ℤ → Type 0) → Bound → Type 0
IsUpperFor f P Q c = IsUpper c × ((m n : ℤ) → P m → Q n → Below c (f m n))

-- The sum of two lower bounds is defined, and a lower bound of the sums.
pub add_lower :
    {a b : Bound} → IsLower a → IsLower b → Returns (IsLowerFor ◌+ℤ◌ (Above a) (Above b)) (add a b)
unfolding add leb finite
add_lower (fin a) (fin b) = (fin (a +ℤ b), λ m n p q. ground (arith, +ℤ_parts m n, +ℤ_parts a b))
add_lower minus minus = (minus, λ m n p q. refl)
add_lower minus (fin b) = (minus, λ m n p q. refl)
add_lower (fin a) minus = (minus, λ m n p q. refl)

-- The same of upper bounds.
pub add_upper :
    {a b : Bound} → IsUpper a → IsUpper b → Returns (IsUpperFor ◌+ℤ◌ (Below a) (Below b)) (add a b)
unfolding add leb finite
add_upper (fin a) (fin b) = (fin (a +ℤ b), λ m n p q. ground (arith, +ℤ_parts m n, +ℤ_parts a b))
add_upper plus plus = (plus, λ m n p q. refl)
add_upper plus (fin b) = (plus, λ m n p q. refl)
add_upper (fin a) plus = (plus, λ m n p q. refl)

-- A lower bound less an upper bound, and an upper bound less a lower bound.
pub sub_lower :
    {a b : Bound} → IsLower a → IsUpper b → Returns (IsLowerFor ◌-ℤ◌ (Above a) (Below b)) (sub a b)
unfolding sub leb finite neg neg_ℤ
sub_lower (fin a) (fin b) = (fin (a -ℤ b), λ m n p q. ground (arith, -ℤ_parts m n, -ℤ_parts a b))
sub_lower minus plus = (minus, λ m n p q. refl)
sub_lower minus (fin b) = (minus, λ m n p q. refl)
sub_lower (fin a) plus = (minus, λ m n p q. refl)

pub sub_upper :
    {a b : Bound} → IsUpper a → IsLower b → Returns (IsUpperFor ◌-ℤ◌ (Below a) (Above b)) (sub a b)
unfolding sub leb finite neg neg_ℤ
sub_upper (fin a) (fin b) = (fin (a -ℤ b), λ m n p q. ground (arith, -ℤ_parts m n, -ℤ_parts a b))
sub_upper plus minus = (plus, λ m n p q. refl)
sub_upper plus (fin b) = (plus, λ m n p q. refl)
sub_upper (fin a) minus = (plus, λ m n p q. refl)

-- The assigning operators agree with the free ones on normalised bounds.
pub add_assign-eq-add : {a b : Bound} → IsNormal a → IsNormal b → add_assign a b ≡ add a b
unfolding add add_assign finite
add_assign-eq-add IsNormal.minus IsNormal.minus = refl
add_assign-eq-add IsNormal.plus IsNormal.plus = refl
add_assign-eq-add (IsNormal.fin a) (IsNormal.fin b) = refl
add_assign-eq-add _ _ = ground arith

pub sub_assign-eq-sub : {a b : Bound} → IsNormal a → IsNormal b → sub_assign a b ≡ sub a b
unfolding sub sub_assign finite
sub_assign-eq-sub IsNormal.minus IsNormal.minus = refl
sub_assign-eq-sub IsNormal.plus IsNormal.plus = refl
sub_assign-eq-sub (IsNormal.fin a) (IsNormal.fin b) = refl
sub_assign-eq-sub _ _ = ground arith
