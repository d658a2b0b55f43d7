-- ===== src/Bound/Order.antt =====
-- The order of bound.hpp on normalised bounds: `operator<=` and its companions, `min` and `max`.
use knight.Prelude.{◌≡◌, refl, ap, ◌⊎◌, inl, inr, Bool, true, false, arith, Bool-cases, ◌↔◌}
use knight.Prelude.Int.{ℤ, pos, negsuc, leb_ℤ, eq_of_parts}
use knight.Bound.{Bound, make, leb, geb, ltb, gtb, eqb, min, max}

-- What the constructors build: an infinite bound holds 1 or -1.
pub data IsNormal : Bound → Type 0 where
  minus : IsNormal (record { is_inf = true; val = negsuc 0 })
  fin : (n : ℤ) → IsNormal (record { is_inf = false; val = n })
  plus : IsNormal (record { is_inf = true; val = pos 1 })

pub make-IsNormal : (i : Bool) (v : ℤ) → IsNormal (make i v)
unfolding make
make-IsNormal false v = fin v
make-IsNormal true v = elim (Bool-cases (leb_ℤ (pos 0) v)) [
  | inl p ↦ rw p plus
  | inr p ↦ rw p minus
]

abbrev pub Le : Bound → Bound → Type 0
Le a b = leb a b ≡ true

pub le_refl : {a : Bound} → IsNormal a → Le a a
unfolding leb
le_refl minus = refl
le_refl (fin n) = ground arith
le_refl plus = refl

pub le_trans : {a b c : Bound} → IsNormal a → IsNormal b → IsNormal c → Le a b → Le b c → Le a c
unfolding leb
le_trans minus minus _ p q = q
le_trans minus _ minus p q = refl
le_trans minus _ (fin n) p q = refl
le_trans minus _ plus p q = refl
le_trans (fin m) (fin n) (fin k) p q = ground arith
le_trans _ _ plus p q = ground arith
le_trans _ _ _ p q = ground arith

pub le_total : {a b : Bound} → IsNormal a → IsNormal b → Le a b ⊎ Le b a
unfolding leb
le_total (fin m) (fin n) = ground arith
le_total _ _ = ground arith

pub geb-leb : {a b : Bound} → IsNormal a → IsNormal b → geb a b ≡ leb b a
unfolding leb geb
geb-leb (fin m) (fin n) = refl
geb-leb minus minus = refl
geb-leb plus plus = refl
geb-leb _ _ = ground arith

pub le_antisymm : {a b : Bound} → IsNormal a → IsNormal b → Le a b → Le b a → a ≡ b
unfolding leb
le_antisymm minus minus p q = refl
le_antisymm (fin m) (fin n) p q =
    ap (λ v. record { is_inf = false; val = v }) (eq_of_parts m n (ground arith))
le_antisymm plus plus p q = refl
le_antisymm _ _ p q = ground arith

-- `operator==` decides equality of normalised bounds.
pub eqb_iff : {a b : Bound} → IsNormal a → IsNormal b → (eqb a b ≡ true) ↔ (a ≡ b)
unfolding eqb
eqb_iff {a} {b} p q = (to p q, λ e. rw e (back q))
  where
    to : {a b : Bound} → IsNormal a → IsNormal b → eqb a b ≡ true → a ≡ b
    to minus minus e = refl
    to plus plus e = refl
    to (fin m) (fin n) e =
        ap (λ v. record { is_inf = false; val = v }) (eq_of_parts m n (ground arith))
    to _ _ e = ground arith

    back : {b : Bound} → IsNormal b → eqb b b ≡ true
    back minus = refl
    back (fin n) = ground arith
    back plus = refl

-- `operator<` and `operator>` are the strict parts of the order.
pub ltb_false : {a b : Bound} → IsNormal a → IsNormal b → ltb a b ≡ false → Le b a
unfolding ltb
ltb_false p q h = rw (← geb-leb p q) (ground arith)

pub ltb_true : {a b : Bound} → IsNormal a → IsNormal b → ltb a b ≡ true → Le a b
unfolding ltb
ltb_true {a} {b} p q h = elim (le_total p q) [ inl r ↦ r | inr r ↦ ground (arith, geb-leb p q) ]

pub gtb_false : {a b : Bound} → IsNormal a → IsNormal b → gtb a b ≡ false → Le a b
unfolding gtb
gtb_false p q h = ground arith

pub gtb_of_le : (a b : Bound) → Le a b → gtb a b ≡ false
unfolding gtb
gtb_of_le a b h = rw h refl

pub gtb_true : {a b : Bound} → IsNormal a → IsNormal b → gtb a b ≡ true → Le b a
unfolding gtb
gtb_true {a} {b} p q h = elim (le_total p q) [ inl r ↦ ground arith | inr r ↦ r ]

module _ {a b : Bound} (p : IsNormal a) (q : IsNormal b) where
  pub min-IsNormal : IsNormal (min a b)
  unfolding min
  min-IsNormal = elim (Bool-cases (ltb a b)) [ inl e ↦ rw e p | inr e ↦ rw e q ]

  pub max-IsNormal : IsNormal (max a b)
  unfolding max
  max-IsNormal = elim (Bool-cases (gtb a b)) [ inl e ↦ rw e p | inr e ↦ rw e q ]

  pub min-le_left : Le (min a b) a
  unfolding min
  min-le_left = elim (Bool-cases (ltb a b)) [
    | inl e ↦ rw e (le_refl p)
    | inr e ↦ rw e (ltb_false p q e)
  ]

  pub min-le_right : Le (min a b) b
  unfolding min
  min-le_right = elim (Bool-cases (ltb a b)) [
    | inl e ↦ rw e (ltb_true p q e)
    | inr e ↦ rw e (le_refl q)
  ]

  pub le-max_left : Le a (max a b)
  unfolding max
  le-max_left = elim (Bool-cases (gtb a b)) [
    | inl e ↦ rw e (le_refl p)
    | inr e ↦ rw e (gtb_false p q e)
  ]

  pub le-max_right : Le b (max a b)
  unfolding max
  le-max_right = elim (Bool-cases (gtb a b)) [
    | inl e ↦ rw e (gtb_true p q e)
    | inr e ↦ rw e (le_refl q)
  ]

module _ {a b c : Bound} (p : IsNormal a) (q : IsNormal b) (r : IsNormal c) where
  pub le-min : Le c a → Le c b → Le c (min a b)
  unfolding min
  le-min x y = elim (Bool-cases (ltb a b)) [ inl e ↦ rw e x | inr e ↦ rw e y ]

  pub max-le : Le a c → Le b c → Le (max a b) c
  unfolding max
  max-le x y = elim (Bool-cases (gtb a b)) [ inl e ↦ rw e x | inr e ↦ rw e y ]
