-- ===== src/Interval/Quotients.antt =====
-- interval.hpp: the quotients of bounds bound the quotients of the integers between them.
use knight.Prelude.{
  ◌≡◌, refl, ◌≢◌, ap, ◌⊎◌, inl, inr, Bool-cases, true, false, not, ◌&&◌, some, arith, if◌then◌else◌,
}
use knight.Prelude.Int.{ℤ, pos, negsuc, neg_ℤ, leb_ℤ, eqb_ℤ}
use knight.Num.{Gmp, Truncates, trunc, div_num}
use knight.Num.Quotient.{
  trunc_mono, trunc_anti, trunc_divisor_anti, trunc_divisor_mono, trunc_pos, trunc_pos_neg,
  trunc_neg_pos, trunc_neg,
}
use knight.Bound.{Bound, finite, make, leb, neg, is_zero, is_num, div}
use knight.Bound.Order.{IsNormal, Le, le_trans, le_total, make-IsNormal}
use knight.Interval.Members.{finite-IsNormal}

-- The quotient of bounds for a divisor that is not zero.
unfoldable pub quot : Bound → Bound → Bound
unfolding finite neg make trunc
quot a b =
    if not a.is_inf && not b.is_inf
    then finite (trunc a.val b.val)
    else (if not a.is_inf && b.is_inf
        then finite (pos 0)
        else (if a.is_inf && not b.is_inf
            then (if leb_ℤ (pos 0) b.val then a else neg a)
            else make true (trunc a.val b.val)))

abbrev pub IsPositive : Bound → Type 0
IsPositive b = Le (finite (pos 1)) b

abbrev pub IsNegative : Bound → Type 0
IsNegative b = Le b (finite (negsuc 0))

pub quot-IsNormal : {a b : Bound} → IsNormal a → IsNormal b → IsNormal (quot a b)
unfolding quot neg neg_ℤ
quot-IsNormal (IsNormal.fin m) (IsNormal.fin n) = finite-IsNormal (trunc m n)
quot-IsNormal (IsNormal.fin m) IsNormal.minus = finite-IsNormal (pos 0)
quot-IsNormal (IsNormal.fin m) IsNormal.plus = finite-IsNormal (pos 0)
quot-IsNormal IsNormal.minus (IsNormal.fin n) = elim (Bool-cases (leb_ℤ (pos 0) n)) [
  | inl e ↦ rw e IsNormal.minus
  | inr e ↦ rw e IsNormal.plus
]
quot-IsNormal IsNormal.plus (IsNormal.fin n) = elim (Bool-cases (leb_ℤ (pos 0) n)) [
  | inl e ↦ rw e IsNormal.plus
  | inr e ↦ rw e IsNormal.minus
]
quot-IsNormal IsNormal.plus IsNormal.plus = make-IsNormal true (trunc (pos 1) (pos 1))
quot-IsNormal IsNormal.plus IsNormal.minus = make-IsNormal true (trunc (pos 1) (negsuc 0))
quot-IsNormal IsNormal.minus IsNormal.plus = make-IsNormal true (trunc (negsuc 0) (pos 1))
quot-IsNormal IsNormal.minus IsNormal.minus = make-IsNormal true (trunc (negsuc 0) (negsuc 0))

pub nonzero : (n : ℤ) → IsPositive (finite n) ⊎ IsNegative (finite n) → eqb_ℤ n (pos 0) ≡ false
unfolding leb finite make
nonzero n s = ground arith

unequal : (n : ℤ) → eqb_ℤ n (pos 0) ≡ false → n ≢ pos 0
unequal n h e = ground arith

module _ {gmp : Gmp} (law : Truncates gmp) where
  pub div-quot :
      {a b : Bound}
      → IsNormal a
      → IsNormal b
      → IsPositive b ⊎ IsNegative b
      → div gmp a b ≡ some (quot a b)
  unfolding div quot div_num is_zero is_num leb finite
  div-quot (IsNormal.fin m) (IsNormal.fin n) s =
      rw (nonzero n s, div, div_num)
        (ap (λ v. some (finite v)) (law.tdiv_q_law m n (unequal n (nonzero n s))))
  div-quot (IsNormal.fin m) IsNormal.minus s = refl
  div-quot (IsNormal.fin m) IsNormal.plus s = refl
  div-quot IsNormal.minus (IsNormal.fin m) s = rw (nonzero m s, div) refl
  div-quot IsNormal.plus (IsNormal.fin m) s = rw (nonzero m s, div) refl
  div-quot IsNormal.minus IsNormal.minus s =
      ap (λ v. some (make true v)) (law.tdiv_q_law _ _ (unequal _ refl))
  div-quot IsNormal.minus IsNormal.plus s =
      ap (λ v. some (make true v)) (law.tdiv_q_law _ _ (unequal _ refl))
  div-quot IsNormal.plus IsNormal.minus s =
      ap (λ v. some (make true v)) (law.tdiv_q_law _ _ (unequal _ refl))
  div-quot IsNormal.plus IsNormal.plus s =
      ap (λ v. some (make true v)) (law.tdiv_q_law _ _ (unequal _ refl))

pub quot_mono :
    {b c e : Bound}
    → IsNormal b
    → IsNormal c
    → IsNormal e
    → IsPositive b
    → Le c e
    → Le (quot c b) (quot e b)
unfolding quot leb finite make neg neg_ℤ
quot_mono (IsNormal.fin k) (IsNormal.fin m) (IsNormal.fin n) h p =
    ground (arith, trunc_mono m n k (ground arith) (ground arith))
quot_mono _ _ _ h p = ground arith

pub quot_anti :
    {b c e : Bound}
    → IsNormal b
    → IsNormal c
    → IsNormal e
    → IsNegative b
    → Le c e
    → Le (quot e b) (quot c b)
unfolding quot leb finite make neg neg_ℤ
quot_anti (IsNormal.fin k) (IsNormal.fin m) (IsNormal.fin n) h p =
    ground (arith, trunc_anti m n k (ground arith) (ground arith))
quot_anti _ _ _ h p = ground arith

abbrev pub HasSign : Bound → Bound → Type 0
HasSign e f = IsPositive e ⊎ IsNegative f

flags_true :
    (d e : ℤ)
    → IsPositive (finite d)
    → Le (finite d) (finite e)
    → (leb_ℤ (pos 0) d ≡ true) × (leb_ℤ (pos 0) e ≡ true)
unfolding leb finite make
flags_true d e s p = (ground arith, ground arith)

flags_false :
    (d e : ℤ)
    → IsNegative (finite e)
    → Le (finite d) (finite e)
    → (leb_ℤ (pos 0) d ≡ false) × (leb_ℤ (pos 0) e ≡ false)
unfolding leb finite make
flags_false d e s p = (ground arith, ground arith)

-- Divisors of one sign.
pub quot_divisor_anti :
    {a e f : Bound}
    → IsNormal a
    → IsNormal e
    → IsNormal f
    → Le (finite (pos 0)) a
    → Le e f
    → HasSign e f
    → Le (quot a f) (quot a e)
unfolding quot leb finite make neg neg_ℤ
quot_divisor_anti (IsNormal.fin m) (IsNormal.fin d) (IsNormal.fin e) h p s =
    ground (arith, trunc_divisor_anti m d e (ground arith) (ground arith) (ground arith))
quot_divisor_anti (IsNormal.fin m) (IsNormal.fin d) IsNormal.plus h p (inl s) =
    ground (arith, trunc_pos m d (ground arith) (ground arith))
quot_divisor_anti (IsNormal.fin m) IsNormal.minus (IsNormal.fin e) h p (inr s) =
    ground (arith, trunc_pos_neg m e (ground arith) (ground arith))
quot_divisor_anti (IsNormal.fin m) (IsNormal.fin d) IsNormal.plus h p (inr s) = ground arith
quot_divisor_anti (IsNormal.fin m) IsNormal.minus (IsNormal.fin e) h p (inl s) = ground arith
quot_divisor_anti IsNormal.plus (IsNormal.fin d) (IsNormal.fin e) h p (inl s) =
    let (x, y) = flags_true d e s p in rw (x, y) refl
quot_divisor_anti IsNormal.plus (IsNormal.fin d) (IsNormal.fin e) h p (inr s) =
    let (x, y) = flags_false d e s p in rw (x, y) refl
quot_divisor_anti _ _ _ h p (inl s) = ground arith
quot_divisor_anti _ _ _ h p (inr s) = ground arith

pub quot_divisor_mono :
    {a e f : Bound}
    → IsNormal a
    → IsNormal e
    → IsNormal f
    → Le a (finite (pos 0))
    → Le e f
    → HasSign e f
    → Le (quot a e) (quot a f)
unfolding quot leb finite make neg neg_ℤ
quot_divisor_mono (IsNormal.fin m) (IsNormal.fin d) (IsNormal.fin e) h p s =
    ground (arith, trunc_divisor_mono m d e (ground arith) (ground arith) (ground arith))
quot_divisor_mono (IsNormal.fin m) (IsNormal.fin d) IsNormal.plus h p (inl s) =
    ground (arith, trunc_neg_pos m d (ground arith) (ground arith))
quot_divisor_mono (IsNormal.fin m) IsNormal.minus (IsNormal.fin e) h p (inr s) =
    ground (arith, trunc_neg m e (ground arith) (ground arith))
quot_divisor_mono (IsNormal.fin m) (IsNormal.fin d) IsNormal.plus h p (inr s) = ground arith
quot_divisor_mono (IsNormal.fin m) IsNormal.minus (IsNormal.fin e) h p (inl s) = ground arith
quot_divisor_mono IsNormal.minus (IsNormal.fin d) (IsNormal.fin e) h p (inl s) =
    let (x, y) = flags_true d e s p in rw (x, y) refl
quot_divisor_mono IsNormal.minus (IsNormal.fin d) (IsNormal.fin e) h p (inr s) =
    let (x, y) = flags_false d e s p in rw (x, y) refl
quot_divisor_mono _ _ _ h p (inl s) = ground arith
quot_divisor_mono _ _ _ h p (inr s) = ground arith

-- A bound of the quotients by the ends of a range of divisors of one sign bounds those between.
module _ {a c e f : Bound} (na : IsNormal a) (nc : IsNormal c) (ne : IsNormal e) (nf : IsNormal f)
    (p : Le c e) (q : Le e f) (sign : HasSign c f) where
  left_sign : HasSign c e
  left_sign = elim sign [
    | inl s ↦ inl s
    | inr s ↦ inr (le_trans ne nf (finite-IsNormal (negsuc 0)) q s)
  ]

  right_sign : HasSign e f
  right_sign = elim sign [
    | inl s ↦ inl (le_trans (finite-IsNormal (pos 1)) nc ne s p)
    | inr s ↦ inr s
  ]

  lower_divisor : {l : Bound} → IsNormal l → Le l (quot a c) → Le l (quot a f) → Le l (quot a e)
  lower_divisor nl r s = elim (le_total (finite-IsNormal (pos 0)) na) [
    | inl z ↦
        le_trans nl (quot-IsNormal na nf) (quot-IsNormal na ne) s
          (quot_divisor_anti na ne nf z q right_sign)
    | inr z ↦
        le_trans nl (quot-IsNormal na nc) (quot-IsNormal na ne) r
          (quot_divisor_mono na nc ne z p left_sign)
  ]

  upper_divisor : {u : Bound} → IsNormal u → Le (quot a c) u → Le (quot a f) u → Le (quot a e) u
  upper_divisor nu r s = elim (le_total (finite-IsNormal (pos 0)) na) [
    | inl z ↦
        le_trans (quot-IsNormal na ne) (quot-IsNormal na nc) nu
          (quot_divisor_anti na nc ne z p left_sign) r
    | inr z ↦
        le_trans (quot-IsNormal na ne) (quot-IsNormal na nf) nu
          (quot_divisor_mono na ne nf z q right_sign) s
  ]

-- The same for the numbers that are divided.
module _ {b c e f : Bound} (nb : IsNormal b) (nc : IsNormal c) (ne : IsNormal e) (nf : IsNormal f)
    (p : Le c e) (q : Le e f) (sign : HasSign b b) where
  lower_dividend : {l : Bound} → IsNormal l → Le l (quot c b) → Le l (quot f b) → Le l (quot e b)
  lower_dividend nl r s = elim sign [
    | inl z ↦ le_trans nl (quot-IsNormal nc nb) (quot-IsNormal ne nb) r (quot_mono nb nc ne z p)
    | inr z ↦ le_trans nl (quot-IsNormal nf nb) (quot-IsNormal ne nb) s (quot_anti nb ne nf z q)
  ]

  upper_dividend : {u : Bound} → IsNormal u → Le (quot c b) u → Le (quot f b) u → Le (quot e b) u
  upper_dividend nu r s = elim sign [
    | inl z ↦ le_trans (quot-IsNormal ne nb) (quot-IsNormal nf nb) nu (quot_mono nb ne nf z q) s
    | inr z ↦ le_trans (quot-IsNormal ne nb) (quot-IsNormal nc nb) nu (quot_anti nb nc ne z p) r
  ]

-- The quotients of the bounds of two intervals bound the quotients of their integers.
module _ {a b c d : Bound} (na : IsNormal a) (nb : IsNormal b) (nc : IsNormal c) (nd : IsNormal d)
    (m n : ℤ) (p : Le a (finite m)) (q : Le (finite m) b) (r : Le c (finite n))
    (s : Le (finite n) d) (sign : HasSign c d) where
  nn : IsNormal (finite n)
  nn = finite-IsNormal n

  middle_sign : HasSign (finite n) (finite n)
  middle_sign = elim sign [
    | inl z ↦ inl (le_trans (finite-IsNormal (pos 1)) nc nn z r)
    | inr z ↦ inr (le_trans nn nd (finite-IsNormal (negsuc 0)) s z)
  ]

  quotient : quot (finite m) (finite n) ≡ finite (trunc m n)
  unfolding quot
  quotient = refl

  pub quotient_above :
      {l : Bound}
      → IsNormal l
      → Le l (quot a c)
      → Le l (quot a d)
      → Le l (quot b c)
      → Le l (quot b d)
      → Le l (finite (trunc m n))
  quotient_above nl ac ad bc bd = rw (← quotient) (
      lower_dividend nn na (finite-IsNormal m) nb p q middle_sign nl
        (lower_divisor na nc nn nd r s sign nl ac ad) (lower_divisor nb nc nn nd r s sign nl bc bd))

  pub quotient_below :
      {u : Bound}
      → IsNormal u
      → Le (quot a c) u
      → Le (quot a d) u
      → Le (quot b c) u
      → Le (quot b d) u
      → Le (finite (trunc m n)) u
  quotient_below nu ac ad bc bd = rw (← quotient) (
      upper_dividend nn na (finite-IsNormal m) nb p q middle_sign nu
        (upper_divisor na nc nn nd r s sign nu ac ad) (upper_divisor nb nc nn nd r s sign nu bc bd))
