-- ===== src/Interval/Division.antt =====
-- interval.hpp: the calls that `operator/` makes on the parts of its operands.
use knight.Prelude.{
  ℕ, zero, suc, ◌≡◌, refl, ◌≢◌, ◌⊎◌, inl, inr, Bool-cases, true, false, ◌||◌, arith, Option, some,
  ◌>>=◌, Returns, Returns-bind, Returns-imp,
}
use knight.Prelude.Int.{ℤ, pos, negsuc, ◌≤ℤ◌, ◌<ℤ◌}
use knight.Num.{Gmp, Truncates, trunc}
use knight.Num.Quotient.{trunc_zero}
use knight.Bound.{finite, make, leb}
use knight.Bound.Sides.{IsLower, IsUpper, Above, Below}
use knight.Interval.{Interval, construct, contains, is_bottom, join_with, singleton}
use knight.Interval.Ops.{divide_fuel, divide}
use knight.Interval.Members.{
  IsValid, IsRange, construct-IsRange, singleton-IsValid, Above-of_contains, Below-of_contains,
  contains_of_between, finite-IsNormal,
}
use knight.Interval.Lattice.{join_with_sound}
use knight.Bound.Order.{le_refl}
use knight.Interval.Divide.{Divides, divide_of_bottom, divide_apart}

-- A part of an interval, which does not contain zero.
record Part (side : ℤ → Type 0) (x l : Interval) : Type 0 where
  valid : IsValid l
  holds : (n : ℤ) → contains x n ≡ true → side n → contains l n ≡ true
  apart : contains l (pos 0) ≡ false

abbrev Negative : ℤ → Type 0
Negative n = n ≤ℤ negsuc 0

abbrev Positive : ℤ → Type 0
Positive n = pos 1 ≤ℤ n

sides : (n : ℤ) → Negative n ⊎ ((n ≡ pos 0) ⊎ Positive n)
sides (pos zero) = inr (inl refl)
sides (pos (suc n)) = inr (inr (omega arith))
sides (negsuc n) = inl (omega arith)

finite_le : (m n : ℤ) → m ≤ℤ n → leb (finite m) (finite n) ≡ true
unfolding leb finite make
finite_le m n h = ground arith

zero-Below : ¬ Below (finite (negsuc 0)) (pos 0)
unfolding leb finite make
zero-Below h = ground arith

zero-Above : ¬ Above (finite (pos 1)) (pos 0)
unfolding leb finite make
zero-Above h = ground arith

not_contains : (r : Interval) (n : ℤ) → ¬ (contains r n ≡ true) → contains r n ≡ false
not_contains r n h = elim (Bool-cases (contains r n)) [ inl e ↦ absurd (h e) | inr e ↦ e ]

module _ {x : Interval} (v : IsValid x) where
  Negative-Part : Returns (Part Negative x) (construct x.lb (finite (negsuc 0)))
  unfolding finite
  Negative-Part =
      Returns-imp (IsRange x.lb (finite (negsuc 0))) (Part Negative x)
        (construct x.lb (finite (negsuc 0)))
        (λ l range. record {
          valid = range.valid;
          holds = λ n h s. range.holds n (Above-of_contains v n h) (finite_le n (negsuc 0) s);
          apart = not_contains l (pos 0) (λ h. zero-Below (range.only (pos 0) h).1);
        })
        (construct-IsRange v.lower (IsUpper.fin (negsuc 0)))

  Positive-Part : Returns (Part Positive x) (construct (finite (pos 1)) x.ub)
  unfolding finite
  Positive-Part =
      Returns-imp (IsRange (finite (pos 1)) x.ub) (Part Positive x)
        (construct (finite (pos 1)) x.ub)
        (λ u range. record {
          valid = range.valid;
          holds = λ n h s. range.holds n (finite_le (pos 1) n s) (Below-of_contains v n h);
          apart = not_contains u (pos 0) (λ h. zero-Above (range.only (pos 0) h).0);
        })
        (construct-IsRange (IsLower.fin (pos 1)) v.upper)

singleton-contains : (n : ℤ) → contains (singleton n) n ≡ true
unfolding singleton
singleton-contains n =
    contains_of_between (singleton-IsValid n) n (le_refl (finite-IsNormal n))
      (le_refl (finite-IsNormal n))

signed : (n : ℤ) → n ≢ pos 0 → pos 0 <ℤ n ⊎ n <ℤ pos 0
signed n h = elim (sides n) [
  | inl s ↦ inr (omega arith)
  | inr t ↦ elim t [ inl e ↦ absurd (h e) | inr s ↦ inl (omega arith) ]
]

-- The quotients by the parts, joined.
dividend_parts :
    {x y l u res rest : Interval}
    → Part Negative x l
    → Part Positive x u
    → Divides l y res
    → Divides u y rest
    → Divides x y (join_with (join_with res rest) (singleton (pos 0)))
dividend_parts {x} {y} {l} {u} {res} {rest} pl pu a b =
    let (jv, joined) = join_with_sound a.valid b.valid in
    let (kv, all) = join_with_sound jv (singleton-IsValid (pos 0)) in
    record {
      valid = kv;
      holds = λ m n h k nz. elim (sides m) [
        | inl s ↦
            all (trunc m n) (inl (joined (trunc m n) (inl (a.holds m n (pl.holds m h s) k nz))))
        | inr t ↦ elim t [
          | inl e ↦
              all (trunc m n)
                (inr (rw (e, trunc_zero n (signed n nz)) (singleton-contains (pos 0))))
          | inr s ↦
              all (trunc m n) (inl (joined (trunc m n) (inr (b.holds m n (pu.holds m h s) k nz))))
        ]
      ];
    }

divisor_parts :
    {x y l u res rest : Interval}
    → Part Negative y l
    → Part Positive y u
    → Divides x l res
    → Divides x u rest
    → Divides x y (join_with res rest)
divisor_parts pl pu a b =
    let (jv, joined) = join_with_sound a.valid b.valid in
    record {
      valid = jv;
      holds = λ m n h k nz. elim (sides n) [
        | inl s ↦ joined (trunc m n) (inl (a.holds m n h (pl.holds n k s) nz))
        | inr t ↦ elim t [
          | inl e ↦ absurd (nz e)
          | inr s ↦ joined (trunc m n) (inr (b.holds m n h (pu.holds n k s) nz))
        ]
      ];
    }

module _ (gmp : Gmp) (fuel : ℕ) (x y : Interval) where
  of_parts : Option Interval
  of_parts = do
    l ← construct x.lb (finite (negsuc 0))
    u ← construct (finite (pos 1)) x.ub
    res ← divide_fuel gmp fuel l y
    rest ← divide_fuel gmp fuel u y
    some (join_with (join_with res rest) (singleton (pos 0)))

  over_parts : Option Interval
  over_parts = do
    l ← construct y.lb (finite (negsuc 0))
    u ← construct (finite (pos 1)) y.ub
    res ← divide_fuel gmp fuel x l
    rest ← divide_fuel gmp fuel x u
    some (join_with res rest)

  divide-eq-of_parts :
      (is_bottom x || is_bottom y) ≡ false
      → contains y (pos 0) ≡ false
      → contains x (pos 0) ≡ true
      → divide_fuel gmp (suc fuel) x y ≡ of_parts
  unfolding divide_fuel of_parts finite
  divide-eq-of_parts e f g = rw (e, f, g) refl

  divide-eq-over_parts :
      (is_bottom x || is_bottom y) ≡ false
      → contains y (pos 0) ≡ true
      → divide_fuel gmp (suc fuel) x y ≡ over_parts
  unfolding divide_fuel over_parts finite
  divide-eq-over_parts e f = rw (e, f) refl

module _ {gmp : Gmp} (law : Truncates gmp) where
  of_parts_cover :
      {x y : Interval} (fuel : ℕ)
      → IsValid x
      → IsValid y
      → contains y (pos 0) ≡ false
      → Returns (Divides x y) (of_parts gmp (suc fuel) x y)
  unfolding of_parts
  of_parts_cover {x} {y} fuel v w f =
      Returns-bind (Part Negative x) (Divides x y) (construct x.lb (finite (negsuc 0))) _
        (Negative-Part v)
        (λ l pl.
          Returns-bind (Part Positive x) (Divides x y) (construct (finite (pos 1)) x.ub) _
            (Positive-Part v)
            (λ u pu.
              Returns-bind (Divides l y) (Divides x y) (divide_fuel gmp (suc fuel) l y) _
                (divide_apart law pl.valid w fuel f pl.apart)
                (λ res a.
                  Returns-bind (Divides u y) (Divides x y) (divide_fuel gmp (suc fuel) u y)
                    (λ rest. some (join_with (join_with res rest) (singleton (pos 0))))
                    (divide_apart law pu.valid w fuel f pu.apart)
                    (λ rest b. dividend_parts pl pu a b))))

  -- With two calls, by a divisor without zero.
  divide_outside :
      {x y : Interval} (fuel : ℕ)
      → IsValid x
      → IsValid y
      → contains y (pos 0) ≡ false
      → Returns (Divides x y) (divide_fuel gmp (suc (suc fuel)) x y)
  divide_outside {x} {y} fuel v w f = elim (Bool-cases (is_bottom x || is_bottom y)) [
    | inl e ↦ divide_of_bottom law v w (suc fuel) e
    | inr e ↦ elim (Bool-cases (contains x (pos 0))) [
      | inl g ↦ rw (divide-eq-of_parts gmp (suc fuel) x y e f g) (of_parts_cover fuel v w f)
      | inr g ↦ divide_apart law v w (suc fuel) f g
    ]
  ]

  over_parts_cover :
      {x y : Interval} (fuel : ℕ)
      → IsValid x
      → IsValid y
      → Returns (Divides x y) (over_parts gmp (suc (suc fuel)) x y)
  unfolding over_parts
  over_parts_cover {x} {y} fuel v w =
      Returns-bind (Part Negative y) (Divides x y) (construct y.lb (finite (negsuc 0))) _
        (Negative-Part w)
        (λ l pl.
          Returns-bind (Part Positive y) (Divides x y) (construct (finite (pos 1)) y.ub) _
            (Positive-Part w)
            (λ u pu.
              Returns-bind (Divides x l) (Divides x y) (divide_fuel gmp (suc (suc fuel)) x l) _
                (divide_outside fuel v pl.valid pl.apart)
                (λ res a.
                  Returns-bind (Divides x u) (Divides x y) (divide_fuel gmp (suc (suc fuel)) x u)
                    (λ rest. some (join_with res rest)) (divide_outside fuel v pu.valid pu.apart)
                    (λ rest b. divisor_parts pl pu a b))))

  -- For a library that truncates quotients and two valid intervals, `operator/` ends: three calls
  -- are deep enough.
  pub divide_sound :
      {x y : Interval} → IsValid x → IsValid y → Returns (Divides x y) (divide gmp x y)
  unfolding divide
  divide_sound {x} {y} v w = elim (Bool-cases (is_bottom x || is_bottom y)) [
    | inl e ↦ divide_of_bottom law v w 2 e
    | inr e ↦ elim (Bool-cases (contains y (pos 0))) [
      | inl f ↦ rw (divide-eq-over_parts gmp 2 x y e f) (over_parts_cover 0 v w)
      | inr f ↦ divide_outside 1 v w f
    ]
  ]
