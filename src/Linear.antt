-- ===== src/Linear.antt =====
-- analyzer/include/analyzer/core/constraint/linear.hpp: linear expressions over variables. The
-- operators between variables, numbers and expressions are in `Linear/Build`, constraints and systems
-- of them in `Linear/Constraint`.
--
-- A `Variable` is the address of its symbol. Expressions of a `SExprRef` are not modelled: the overload
-- that takes one does not compile.
pub mod Build
pub mod Constraint
pub mod Meaning
mod Tests
use knight.Prelude.{
  ℕ, Bool, true, false, not, ◌&&◌, ◌||◌, Option, none, some, List, [], ◌∷◌, if◌then◌else◌, length,
  ◌==◌, map, all,
}
use knight.Prelude.Assoc.{find, put, erase}
use knight.Prelude.Int.{pos, negsuc, ◌+ℤ◌, ◌-ℤ◌, ◌*ℤ◌, neg_ℤ, eqb_ℤ}
use knight.Num.{ZNum}

abbrev pub Var : Type 0
Var = ℕ

abbrev pub Terms : Type 0
Terms = List (Var × ZNum)

pub record LinearExpr : Type 0 where
  pub terms : Terms
  pub constant : ZNum

-- `LinearExpr()`.
unfoldable pub empty_expr : LinearExpr
empty_expr = record { terms = []; constant = pos 0 }

-- `LinearExpr(Num n)`.
unfoldable pub expr_of_num : ZNum → LinearExpr
expr_of_num n = record { terms = []; constant = n }

-- `LinearExpr(Var var)`.
unfoldable pub expr_of_var : Var → LinearExpr
expr_of_var x = record { terms = (x, pos 1) ∷ []; constant = pos 0 }

-- `LinearExpr(Num k, Var var)`.
unfoldable pub expr_of_term : ZNum → Var → LinearExpr
expr_of_term k x = record {
  terms = if not (eqb_ℤ k (pos 0)) then (x, k) ∷ [] else [];
  constant = pos 0;
}

-- `plus(const Num& n)` and `operator+=(const Num& n)`.
unfoldable pub plus_num : LinearExpr → ZNum → LinearExpr
plus_num e n = record e { constant = e.constant +ℤ n }

-- The change that `plus(const Num& factor, Var var)` makes to the terms.
unfoldable pub plus_terms : Terms → ZNum → Var → Terms
plus_terms m factor x = elim (find x m) [
  | none ↦ if not (eqb_ℤ factor (pos 0)) then put x factor m else m
  | some c ↦ if eqb_ℤ (c +ℤ factor) (pos 0) then erase x m else put x (c +ℤ factor) m
]

unfoldable pub plus_term : LinearExpr → ZNum → Var → LinearExpr
unfolding plus_terms
plus_term e factor x = record e { terms = plus_terms e.terms factor x }

-- `plus(Var var)` and `operator+=(Var var)`.
unfoldable pub plus_var : LinearExpr → Var → LinearExpr
unfolding plus_term
plus_var e x = plus_term e (pos 1) x

unfoldable pub set_to_constant : LinearExpr → ZNum → LinearExpr
set_to_constant e n = record { terms = []; constant = n }

unfoldable pub is_constant : LinearExpr → Bool
is_constant e = elim e.terms [ [] ↦ true | _ ↦ false ]

unfoldable pub num_variable_terms : LinearExpr → ℕ
num_variable_terms e = length e.terms

unfoldable pub get_factor_of : LinearExpr → Var → ZNum
get_factor_of e x = elim (find x e.terms) [ none ↦ pos 0 | some c ↦ c ]

-- The loop of `operator+=(const LinearExpr&)` over the terms of the other expression.
unfoldable pub add_terms : Terms → Terms → Terms
unfolding plus_terms
add_terms m [] = m
add_terms m ((x, c) ∷ rest) = add_terms (plus_terms m c x) rest

unfoldable pub plus_expr : LinearExpr → LinearExpr → LinearExpr
unfolding add_terms
plus_expr e f = record { terms = add_terms e.terms f.terms; constant = e.constant +ℤ f.constant }

unfoldable pub minus_num : LinearExpr → ZNum → LinearExpr
minus_num e n = record e { constant = e.constant -ℤ n }

unfoldable pub minus_var : LinearExpr → Var → LinearExpr
unfolding plus_term
minus_var e x = plus_term e (negsuc 0) x

-- The loop of `operator-=(const LinearExpr&)`.
unfoldable pub sub_terms : Terms → Terms → Terms
unfolding plus_terms
sub_terms m [] = m
sub_terms m ((x, c) ∷ rest) = sub_terms (plus_terms m (neg_ℤ c) x) rest

unfoldable pub minus_expr : LinearExpr → LinearExpr → LinearExpr
unfolding sub_terms
minus_expr e f = record { terms = sub_terms e.terms f.terms; constant = e.constant -ℤ f.constant }

-- `operator*=`.
unfoldable pub scale_terms : Terms → ZNum → Terms
scale_terms [] n = []
scale_terms ((x, c) ∷ rest) n = (x, c *ℤ n) ∷ scale_terms rest n

unfoldable pub scale : LinearExpr → ZNum → LinearExpr
unfolding scale_terms
scale e n =
    if eqb_ℤ n (pos 0)
    then record { terms = []; constant = pos 0 }
    else record { terms = scale_terms e.terms n; constant = e.constant *ℤ n }

-- Unary `operator-`.
unfoldable pub negated : LinearExpr → LinearExpr
unfolding scale
negated e = scale e (negsuc 0)

unfoldable pub get_as_single_variable : LinearExpr → Option Var
get_as_single_variable e = elim e.terms [
  | [] ↦ none
  | t ∷ rest ↦
      if eqb_ℤ e.constant (pos 0) && length rest == 0 && eqb_ℤ t.1 (pos 1) then some t.0 else none
]

-- `operator==` of the map of terms.
abbrev same_terms : Terms → Terms → Bool
same_terms a b =
    length a == length b
    && all (λ (t : Var × ZNum). elim (find t.0 b) [ none ↦ false | some c ↦ eqb_ℤ t.1 c ]) a

unfoldable pub equals_expr : LinearExpr → LinearExpr → Bool
unfolding get_factor_of
equals_expr e f =
    if not (eqb_ℤ e.constant f.constant) || not (same_terms e.terms f.terms)
    then false
    else all (λ (t : Var × ZNum). eqb_ℤ (get_factor_of f t.0) t.1) e.terms
