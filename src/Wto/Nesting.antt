-- ===== src/Wto/Nesting.antt =====
-- wto.hpp: the operators of `WtoNesting`, which stand on `compare`, and `get_common_prefix`: what they
-- say of the two paths of cycle heads.
use knight.Prelude.{
  ℕ, ◌≡◌, refl, ap, sym, ◌↔◌, inl, inr, Bool-cases, true, List, [], ◌∷◌, ◌++◌, ◌==◌, ==_iff, arith,
}
use knight.Prelude.Int.{pos, negsuc, leb_ℤ, eqb_ℤ}
use knight.Wto.{
  NodeRef, WtoNesting, common_prefix_nodes, get_common_prefix, compare_nodes, compare_nesting,
  leb_nesting, ltb_nesting, gtb_nesting, eqb_nesting,
}

abbrev pub IsPrefix : List NodeRef → List NodeRef → Type 0
IsPrefix p q = (s : List NodeRef) × (p ++ s ≡ q)

prefix_cons : (a : NodeRef) (p q : List NodeRef) → IsPrefix p q → IsPrefix (a ∷ p) (a ∷ q)
prefix_cons a p q (s, e) = (s, ap (λ l. a ∷ l) e)

common_prefix_nodes-prefix :
    (p q : List NodeRef)
    → IsPrefix (common_prefix_nodes p q) p × IsPrefix (common_prefix_nodes p q) q
unfolding common_prefix_nodes
common_prefix_nodes-prefix [] q = ((_, refl), (_, refl))
common_prefix_nodes-prefix (a ∷ p) [] = ((_, refl), (_, refl))
common_prefix_nodes-prefix (a ∷ p) (b ∷ q) = elim (Bool-cases (a == b)) [
  | inl e ↦
      let (l, r) = common_prefix_nodes-prefix p q in
      rw (e, ← (==_iff a b).0 e) (prefix_cons a _ p l, prefix_cons a _ q r)
  | inr e ↦ rw e ((_, refl), (_, refl))
]

common_prefix_nodes-append :
    (r s t : List NodeRef) → common_prefix_nodes (r ++ s) (r ++ t) ≡ r ++ common_prefix_nodes s t
unfolding common_prefix_nodes
common_prefix_nodes-append [] s t = refl
common_prefix_nodes-append (a ∷ r) s t =
    rw (same_node a) (ap (λ l. a ∷ l) (common_prefix_nodes-append r s t))
  where
    same_node : (a : ℕ) → (a == a) ≡ true
    same_node a = ground arith

common_prefix_nodes-longest :
    (p q r : List NodeRef) → IsPrefix r p → IsPrefix r q → IsPrefix r (common_prefix_nodes p q)
common_prefix_nodes-longest p q r (s, e) (t, d) =
    (common_prefix_nodes s t, rw (← e, ← d) (sym (common_prefix_nodes-append r s t)))

-- For any two nestings, the path of `get_common_prefix` is a prefix of both paths, and each common
-- prefix of the two is a prefix of it.
pub get_common_prefix_lem :
    (n m : WtoNesting)
    → IsPrefix (get_common_prefix n m).nodes n.nodes
      × IsPrefix (get_common_prefix n m).nodes m.nodes
      × ((r : List NodeRef)
          → IsPrefix r n.nodes
          → IsPrefix r m.nodes
          → IsPrefix r (get_common_prefix n m).nodes)
unfolding get_common_prefix
get_common_prefix_lem n m =
    let (l, r) = common_prefix_nodes-prefix n.nodes m.nodes in
    (l, r, common_prefix_nodes-longest n.nodes m.nodes)

-- The second path goes on below the first.
abbrev pub IsBelow : List NodeRef → List NodeRef → Type 0
IsBelow p q = (h : NodeRef) × (s : List NodeRef) × (p ++ h ∷ s ≡ q)

cons-nil : (a : NodeRef) (p : List NodeRef) → a ∷ p ≡ [] → ⊥
cons-nil a p e = ground arith

head_eq : {a b : NodeRef} {p q : List NodeRef} → a ∷ p ≡ b ∷ q → a ≡ b
head_eq {a} e = ap (λ l. elim l [ [] ↦ a | x ∷ _ ↦ x ]) e

tail_eq : {a b : NodeRef} {p q : List NodeRef} → a ∷ p ≡ b ∷ q → p ≡ q
tail_eq {a} {b} {p} e = ap (λ l. elim l [ [] ↦ p | _ ∷ t ↦ t ]) e

-- The operators on the paths, one node after the other.
leb_nodes_iff : (p q : List NodeRef) → (leb_ℤ (compare_nodes p q) (pos 0) ≡ true) ↔ IsPrefix p q
unfolding compare_nodes
leb_nodes_iff [] [] = (λ h. ([], refl), λ h. refl)
leb_nodes_iff [] (b ∷ q) = (λ h. (b ∷ q, refl), λ h. refl)
leb_nodes_iff (a ∷ p) [] = (λ h. absurd (ground arith), λ (s, e). absurd (cons-nil a (p ++ s) e))
leb_nodes_iff (a ∷ p) (b ∷ q) = elim (Bool-cases (a == b)) [
  | inl d ↦ rw d (
    λ h. rw ((==_iff a b).0 d) (prefix_cons b p q ((leb_nodes_iff p q).0 h)),
    λ (s, e). (leb_nodes_iff p q).1 (s, tail_eq e),
  )
  | inr d ↦
      rw d
        (λ h. absurd (ground arith), λ (s, e). absurd (ground (arith, (==_iff a b).1 (head_eq e))))
]

IsBelow-cons : (a : NodeRef) (p q : List NodeRef) → IsBelow p q → IsBelow (a ∷ p) (a ∷ q)
IsBelow-cons a p q (h, s, e) = (h, s, ap (λ l. a ∷ l) e)

IsBelow-nil : (p : List NodeRef) → IsBelow p [] → ⊥
IsBelow-nil [] (h, s, e) = cons-nil h s e
IsBelow-nil (a ∷ p) (h, s, e) = cons-nil a (p ++ h ∷ s) e

IsBelow-tail : (a b : NodeRef) (p q : List NodeRef) → IsBelow (a ∷ p) (b ∷ q) → IsBelow p q
IsBelow-tail a b p q (h, s, e) = (h, s, tail_eq e)

ltb_nodes_iff : (p q : List NodeRef) → (eqb_ℤ (compare_nodes p q) (negsuc 0) ≡ true) ↔ IsBelow p q
unfolding compare_nodes
ltb_nodes_iff [] [] = (λ h. absurd (ground arith), λ h. absurd (IsBelow-nil [] h))
ltb_nodes_iff [] (b ∷ q) = (λ h. (b, q, refl), λ h. refl)
ltb_nodes_iff (a ∷ p) [] = (λ h. absurd (ground arith), λ h. absurd (IsBelow-nil (a ∷ p) h))
ltb_nodes_iff (a ∷ p) (b ∷ q) = elim (Bool-cases (a == b)) [
  | inl d ↦ rw d (
    λ h. rw ((==_iff a b).0 d) (IsBelow-cons b p q ((ltb_nodes_iff p q).0 h)),
    λ h. (ltb_nodes_iff p q).1 (IsBelow-tail a b p q h),
  )
  | inr d ↦
      rw d (
        λ h. absurd (ground arith),
        λ (h, s, e). absurd (ground (arith, (==_iff a b).1 (head_eq e))),
      )
]

gtb_nodes_iff : (p q : List NodeRef) → (eqb_ℤ (compare_nodes p q) (pos 1) ≡ true) ↔ IsBelow q p
unfolding compare_nodes
gtb_nodes_iff [] [] = (λ h. absurd (ground arith), λ h. absurd (IsBelow-nil [] h))
gtb_nodes_iff [] (b ∷ q) = (λ h. absurd (ground arith), λ h. absurd (IsBelow-nil (b ∷ q) h))
gtb_nodes_iff (a ∷ p) [] = (λ h. (a, p, refl), λ h. refl)
gtb_nodes_iff (a ∷ p) (b ∷ q) = elim (Bool-cases (a == b)) [
  | inl d ↦ rw d (
    λ h. rw ((==_iff a b).0 d) (IsBelow-cons b q p ((gtb_nodes_iff p q).0 h)),
    λ h. (gtb_nodes_iff p q).1 (IsBelow-tail b a q p h),
  )
  | inr d ↦ rw d (
    λ h. absurd (ground arith),
    λ (h, s, e). absurd (ground (arith, (==_iff a b).1 (sym (head_eq e)))),
  )
]

eqb_nodes_iff : (p q : List NodeRef) → (eqb_ℤ (compare_nodes p q) (pos 0) ≡ true) ↔ (p ≡ q)
unfolding compare_nodes
eqb_nodes_iff [] [] = (λ h. refl, λ h. refl)
eqb_nodes_iff [] (b ∷ q) = (λ h. absurd (ground arith), λ e. absurd (cons-nil b q (sym e)))
eqb_nodes_iff (a ∷ p) [] = (λ h. absurd (ground arith), λ e. absurd (cons-nil a p e))
eqb_nodes_iff (a ∷ p) (b ∷ q) = elim (Bool-cases (a == b)) [
  | inl d ↦ rw d (
    λ h. rw ((==_iff a b).0 d) (ap (λ l. b ∷ l) ((eqb_nodes_iff p q).0 h)),
    λ e. (eqb_nodes_iff p q).1 (tail_eq e),
  )
  | inr d ↦
      rw d (λ h. absurd (ground arith), λ e. absurd (ground (arith, (==_iff a b).1 (head_eq e))))
]

-- For any two nestings, `<=` is true exactly when the path of the first is a prefix of that of the
-- second, `<` when the second goes on below the first, `>` when the first goes on below the second,
-- and `==` when the paths are equal. The documentation of `compare`, on which they stand, tells its
-- results -1 and 1 the other way round; the engine's test `nesting(pred) <= nesting(head)`, which
-- wants the predecessors that no further cycle encloses, goes with the code.
pub operators-IsPrefix :
    (n m : WtoNesting)
    → ((leb_nesting n m ≡ true) ↔ IsPrefix n.nodes m.nodes)
      × ((ltb_nesting n m ≡ true) ↔ IsBelow n.nodes m.nodes)
      × ((gtb_nesting n m ≡ true) ↔ IsBelow m.nodes n.nodes)
      × ((eqb_nesting n m ≡ true) ↔ (n.nodes ≡ m.nodes))
unfolding leb_nesting ltb_nesting gtb_nesting eqb_nesting compare_nesting
operators-IsPrefix n m = (
  leb_nodes_iff n.nodes m.nodes,
  ltb_nodes_iff n.nodes m.nodes,
  gtb_nodes_iff n.nodes m.nodes,
  eqb_nodes_iff n.nodes m.nodes,
)
