-- ===== src/Fixpoint/Checks.antt =====
-- wto_iterator_impl.tpp: what `WtoChecker` checks after a run.
use knight.Prelude.{
  ◌≡◌, refl, inl, inr, Bool, true, false, Bool-cases, List, [], ◌∷◌, ◌++◌, any, ◌==◌, ◌||◌, All,
  Returns, Returns-imp, ◌∙◌,
}
use knight.Wto.{NodeRef, WtoComponent, vertex, cycle, WtoComponents, no_components, next_component}
use knight.Fixpoint.Inputs.{Analysis}
use knight.Fixpoint.{FixpointIterator, run, check_component, check_components, get_pre, get_post}
use knight.Fixpoint.Concrete.{Program, IsSound, has_node, has_node_in}
use knight.Fixpoint.Outcomes.{IsEnough}
use knight.Fixpoint.Runs.{IsOrderOf, Reaches, Converges, run_sound, has_node-Reaches}

All-append : {A : Type 0} (P : A → Type 0) (xs ys : List A) → All P xs → All P ys → All P (xs ++ ys)
All-append P [] ys h k = k
All-append P (x ∷ xs) ys (h, hs) k = (h, All-append P xs ys hs k)

any-append :
    {A : Type 0} (p : A → Bool) (xs ys : List A) → any p (xs ++ ys) ≡ (any p xs || any p ys)
any-append p [] ys = refl
any-append p (x ∷ xs) ys = elim (Bool-cases (p x)) [
  | inl e ↦ rw e refl
  | inr e ↦ rw e (any-append p xs ys)
]

module _ {S : Type 0} (a : Analysis S) (r : FixpointIterator S) (P : NodeRef × S × S → Type 0)
    (each : (n : NodeRef) → P (n, get_pre a r n, get_post a r n)) where
  mutual
    unfolding check_component

    check_component-All : (c : WtoComponent) → All P (check_component a r c)
    check_component-All (vertex n) = (each n, tt)
    check_component-All (cycle h cs) = (each h, check_components-All cs)

    check_components-All : (cs : WtoComponents) → All P (check_components a r cs)
    check_components-All no_components = tt
    check_components-All (next_component c cs) =
        All-append P (check_component a r c) (check_components a r cs) (check_component-All c)
          (check_components-All cs)

-- A node is checked exactly if it stands in the order.
module _ {S : Type 0} (a : Analysis S) (r : FixpointIterator S) (n : NodeRef) where
  abbrev pub is_checked : List (NodeRef × S × S) → Bool
  is_checked checks = any (λ (e : NodeRef × S × S). e.0 == n) checks

  first_node : (k : NodeRef) → ((k == n) || false) ≡ (k == n)
  first_node k = elim (Bool-cases (k == n)) [ inl e ↦ rw e refl | inr e ↦ rw e refl ]

  mutual
    unfolding check_component

    is_checked-component : (c : WtoComponent) → is_checked (check_component a r c) ≡ has_node c n
    is_checked-component (vertex k) = first_node k
    is_checked-component (cycle h cs) = rw (is_checked-components cs) refl

    is_checked-components :
        (cs : WtoComponents) → is_checked (check_components a r cs) ≡ has_node_in cs n
    is_checked-components no_components = refl
    is_checked-components (next_component c cs) =
        any-append (λ (e : NodeRef × S × S). e.0 == n) (check_component a r c)
          (check_components a r cs)
        ∙ rw (is_checked-component c, is_checked-components cs) refl

module _ {S C : Type 0} {a : Analysis S} {p : Program C} (laws : IsSound a p)
    (enough : IsEnough laws) where
  -- The states of a check have all that the program can do at its node.
  abbrev pub Sound : NodeRef × S × S → Type 0
  Sound (n, before, after) =
      (c : C) → Reaches a p n c → laws.Has before c × ((d : C) → p.exec n c d → laws.Has after d)

  -- Under the conditions of `run_sound`, the checks after a run are made with states that have all that the
  -- program can do at their nodes, and each node that a run of the program reaches is checked.
  pub checks-Sound :
      (wto : WtoComponents) (it : FixpointIterator S) (s : S)
      → IsOrderOf a wto
      → ((c : C) → p.init c → laws.Has s c)
      → Returns
          (λ r.
            All Sound (check_components a r wto)
            × ((n : NodeRef) (c : C)
                → Reaches a p n c
                → is_checked a r n (check_components a r wto) ≡ true))
          (run a wto it s)
  checks-Sound wto it s o g =
      Returns-imp (Converges laws enough) _ (run a wto it s)
        (λ r v. (
          check_components-All a r Sound (λ n c z. (v.pre_has n c z, λ d. v.post_has n c d z)) wto,
          λ n c z. is_checked-components a r n wto ∙ has_node-Reaches laws enough o z,
        ))
        (run_sound laws enough wto it s o g)
