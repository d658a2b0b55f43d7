-- ===== src/Fixpoint/Flows.antt =====
-- wto_iterator_impl.tpp: where the concrete states that arrive in a cycle are after one iteration on it.
use knight.Prelude.{
  ◌≡◌, refl, ==_iff, sym, ◌∙◌, subst, ◌⊎◌, inl, inr, Bool, true, false, ◌==◌, ◌||◌,
}
use knight.Wto.{NodeRef}
use knight.Fixpoint.Inputs.{Analysis}
use knight.Fixpoint.{FixpointIterator, get_post, start_iteration}
use knight.Fixpoint.Concrete.{Program, IsSound, Inflow, inside, Visited, is_pred}
use knight.Fixpoint.Passes.{get_post-start_iteration, Collects}
use knight.Fixpoint.Vertices.{same}

pub or_cases : (b c : Bool) → (b || c) ≡ true → (b ≡ true) ⊎ ((b ≡ false) × (c ≡ true))
or_cases true c h = inl refl
or_cases false c h = inr (refl, h)

pub or_none : (b c : Bool) → (b || c) ≡ false → (b ≡ false) × (c ≡ false)
or_none true c h = cc (h)
or_none false c h = (refl, h)

-- An iteration on the cycle with head h and the nodes `body` below it: it starts with the state s at the
-- head, the visit of the body ends with `after`, and `front` is the state that comes back to the head.
module _ {S C : Type 0} {a : Analysis S} {p : Program C} (laws : IsSound a p) (h : NodeRef)
    (body : NodeRef → Bool) (origin it : FixpointIterator S) (s front : S) where
  abbrev pub part : NodeRef → Bool
  part k = (h == k) || body k

  abbrev pub started : FixpointIterator S
  started = start_iteration a it h s

  pub data Flowed (k : NodeRef) (c : C) : Type 0 where
    at_head : h ≡ k → laws.Has s c → laws.Has front c → Flowed k c
    in_body : body k ≡ true → Inflow laws body started k c → Flowed k c

  pub record IsPass (after : FixpointIterator S) : Type 0 where
    pub fresh : body h ≡ false
    pub not_entry : (h == a.entry) ≡ false
    pub outside : (m : NodeRef) → part m ≡ false → get_post a it m ≡ get_post a origin m
    pub visited : Visited laws body started after
    pub collects : Collects laws after h front

  module _ {after : FixpointIterator S} (w : IsPass after)
      (close : (c : C) → Inflow laws part origin h c → laws.Has front c → laws.Has s c) where
    -- The head's own state after the iteration.
    pub head_post : {c d : C} → laws.Has s c → p.exec h c d → laws.Has (get_post a started h) d
    head_post {c} {d} g x =
        rw (get_post-start_iteration a it h s h, (==_iff h h).1 refl)
          (laws.normalize-has _ d (laws.node-has h s c d g x))

    outer_post : (m : NodeRef) → part m ≡ false → get_post a started m ≡ get_post a origin m
    outer_post m o =
        get_post-start_iteration a it h s m ∙ rw (or_none (h == m) (body m) o).0 (w.outside m o)

    to_head :
        {k : NodeRef} {d : C} → h ≡ k → Inflow laws part origin k d → laws.Has front d → Flowed k d
    to_head {k} {d} e i g =
        Flowed.at_head e
          (close d (subst (λ (x : NodeRef). Inflow laws part origin x d) (sym e) i) g) g

    -- A state that a node outside the body sends, by its state when the iteration starts.
    sent :
        {m k : NodeRef} {c d : C}
        → Inflow laws part origin k d
        → body m ≡ false
        → is_pred a m k ≡ true
        → laws.Has (get_post a started m) c
        → p.flow m k c d
        → Flowed k d
    sent {m} {k} {c} {d} i o e g f = elim (or_cases (h == k) (body k) (inside laws i)) [
      | inl q ↦
          let z = same h k q in
          to_head z i (
            w.collects m c d (subst (λ (x : NodeRef). is_pred a m x ≡ true) (sym z) e)
              (subst (λ (x : S). laws.Has x c) (sym (w.visited.post_kept m o)) g)
              (subst (λ (x : NodeRef). p.flow m x c d) (sym z) f))
      | inr (q, b) ↦ Flowed.in_body b (Inflow.enter o b e g f)
    ]

    -- A state that a node of the body sends.
    passed :
        {m k : NodeRef} {c d e : C}
        → Inflow laws part origin k e
        → body m ≡ true
        → Inflow laws body started m c
        → p.exec m c d
        → is_pred a m k ≡ true
        → p.flow m k d e
        → Flowed k e
    passed {m} {k} {c} {d} {e} i b j x q f = elim (or_cases (h == k) (body k) (inside laws i)) [
      | inl t ↦
          let z = same h k t in
          to_head z i (
            w.collects m d e (subst (λ (y : NodeRef). is_pred a m y ≡ true) (sym z) q)
              (w.visited.covers_post m c d j x) (subst (λ (y : NodeRef). p.flow m y d e) (sym z) f))
      | inr (t, u) ↦ Flowed.in_body u (Inflow.inner j x u q f)
    ]

    next :
        {m k : NodeRef} {c d e : C}
        → Inflow laws part origin k e
        → Flowed m c
        → p.exec m c d
        → is_pred a m k ≡ true
        → p.flow m k d e
        → Flowed k e
    next {m} {k} {c} {d} {e} i (Flowed.at_head z g t) x q f =
        sent i (subst (λ (y : NodeRef). body y ≡ false) z w.fresh) q
          (subst (λ (y : NodeRef). laws.Has (get_post a started y) d) z
            (head_post g (subst (λ (y : NodeRef). p.exec y c d) (sym z) x)))
          f
    next i (Flowed.in_body b j) x q f = passed i b j x q f

    first :
        {k : NodeRef} {c : C} → Inflow laws part origin k c → k ≡ a.entry → p.init c → Flowed k c
    first {k} {c} i e z = elim (or_cases (h == k) (body k) (inside laws i)) [
      | inl q ↦
          (let t : (h == a.entry) ≡ true = subst (λ (x : NodeRef). (h == x) ≡ true) e q in
            cc (t, w.not_entry))
      | inr (q, b) ↦ Flowed.in_body b (Inflow.seed b e z)
    ]

    -- Each state that arrives in the cycle is at the head or in the body, if what comes back to the head
    -- closes the loop.
    pub flows : {k : NodeRef} {c : C} → Inflow laws part origin k c → Flowed k c
    flows (Inflow.seed q e z) = first (Inflow.seed q e z) e z
    flows (Inflow.enter {m = m} {c = c} o q e g f) =
        sent (Inflow.enter o q e g f) (or_none _ _ o).1 e
          (subst (λ (x : S). laws.Has x c) (sym (outer_post m o)) g) f
    flows (Inflow.inner i x q e f) = next (Inflow.inner i x q e f) (flows i) x e f
