-- ===== src/Fixpoint/Visits.antt =====
-- wto_iterator_impl.tpp: the visits of vertices, cycles and lists of components.
use knight.Prelude.{
  ◌+◌, ◌≡◌, refl, sym, ◌∙◌, subst, ◌⊎◌, inl, inr, true, false, arith, Returns, Returns-bind,
  Returns-imp, ◌>>=◌,
}
use knight.Wto.{
  NodeRef, WtoComponent, vertex, cycle, WtoComponents, no_components, next_component, NestingTable,
}
use knight.Fixpoint.Inputs.{Analysis}
use knight.Fixpoint.{
  FixpointIterator, increasing, enter_cycle, iterate_component, iterate_components, get_post,
}
use knight.Fixpoint.Concrete.{
  Program, IsSound, Inflow, inside, Visited, Seeded, has_node, has_node_in, is_pred, Precedes,
  IsOrdered, AreOrdered,
}
use knight.Fixpoint.Vertices.{visit_vertex-Visited}
use knight.Fixpoint.Passes.{enter_cycle-Returns}
use knight.Fixpoint.Flows.{or_none, or_cases}
use knight.Fixpoint.Outcomes.{IsEnough}
use knight.Fixpoint.Stages.{iterate-Visited}

module _ {S C : Type 0} {a : Analysis S} {p : Program C} (laws : IsSound a p) where
  -- A part without nodes.
  nothing-Visited :
      (it : FixpointIterator S) → Seeded laws it → Visited laws (has_node_in no_components) it it
  nothing-Visited it g = record {
    pre_kept = λ k o. refl;
    post_kept = λ k o. refl;
    seeded = g;
    covers_pre = λ k c i. (let e = inside laws i in cc (e));
    covers_post = λ k c d i x. (let e = inside laws i in cc (e));
  }

  module _ {c : WtoComponent} {cs : WtoComponents} {it after : FixpointIterator S}
      (order : Precedes a c cs) (v : Visited laws (has_node c) it after) where
    -- Where a state that arrives in the whole is: in the first component or in the rest.
    abbrev Sorted : NodeRef → C → Type 0
    Sorted k d =
        ((has_node c k ≡ true) × Inflow laws (has_node c) it k d)
        ⊎ ((has_node c k ≡ false) × Inflow laws (has_node_in cs) after k d)

    sort_enter :
        {m k : NodeRef} {d e : C}
        → has_node_in (next_component c cs) m ≡ false
        → has_node_in (next_component c cs) k ≡ true
        → is_pred a m k ≡ true
        → laws.Has (get_post a it m) d
        → p.flow m k d e
        → Sorted k e
    sort_enter {m} {k} {d} {e} o q f g z =
        let out = or_none (has_node c m) (has_node_in cs m) o in
        elim (or_cases (has_node c k) (has_node_in cs k) q) [
          | inl b ↦ inl (b, Inflow.enter out.0 b f g z)
          | inr (n, b) ↦ inr (
            n,
            Inflow.enter out.1 b f (subst (λ (x : S). laws.Has x d) (sym (v.post_kept m out.0)) g)
                z,
          )
        ]

    sort_inner :
        {m k : NodeRef} {d e u : C}
        → Sorted m d
        → p.exec m d e
        → has_node_in (next_component c cs) k ≡ true
        → is_pred a m k ≡ true
        → p.flow m k e u
        → Sorted k u
    sort_inner {m} {k} {d} {e} {u} (inl (y, i)) x q f z =
        elim (or_cases (has_node c k) (has_node_in cs k) q) [
          | inl b ↦ inl (b, Inflow.inner i x b f z)
          | inr (n, b) ↦ inr (n, Inflow.enter (order.apart m y) b f (v.covers_post m d e i x) z)
        ]
    sort_inner {m} {k} {d} {e} {u} (inr (y, i)) x q f z =
        elim (or_cases (has_node c k) (has_node_in cs k) q) [
          | inl b ↦ (let back = order.forward m k b f in let t = inside laws i in cc (back, t))
          | inr (n, b) ↦ inr (n, Inflow.inner i x b f z)
        ]

    sort :
        {k : NodeRef} {d : C} → Inflow laws (has_node_in (next_component c cs)) it k d → Sorted k d
    sort {k} (Inflow.seed q e i) = elim (or_cases (has_node c k) (has_node_in cs k) q) [
      | inl b ↦ inl (b, Inflow.seed b e i)
      | inr (n, b) ↦ inr (n, Inflow.seed b e i)
    ]
    sort (Inflow.enter o q f g z) = sort_enter o q f g z
    sort (Inflow.inner i x q f z) = sort_inner (sort i) x q f z

    -- A component, and then the rest.
    both-Visited :
        {r : FixpointIterator S}
        → Visited laws (has_node_in cs) after r
        → Visited laws (has_node_in (next_component c cs)) it r
    both-Visited {r} w = record {
      pre_kept = λ k o.
          (let n = or_none (has_node c k) (has_node_in cs k) o in
            w.pre_kept k n.1 ∙ v.pre_kept k n.0);
      post_kept = λ k o.
          (let n = or_none (has_node c k) (has_node_in cs k) o in
            w.post_kept k n.1 ∙ v.post_kept k n.0);
      seeded = w.seeded;
      covers_pre = λ k d i. elim (sort i) [
        | inl (b, j) ↦
            subst (λ (x : S). laws.Has x d) (sym (w.pre_kept k (order.apart k b)))
              (v.covers_pre k d j)
        | inr (_, j) ↦ w.covers_pre k d j
      ];
      covers_post = λ k d e i x. elim (sort i) [
        | inl (b, j) ↦
            subst (λ (y : S). laws.Has y e) (sym (w.post_kept k (order.apart k b)))
              (v.covers_post k d e j x)
        | inr (_, j) ↦ w.covers_post k d e j x
      ];
    }

  module _ (enough : IsEnough laws) (nestings : NestingTable) where
    mutual
      unfolding iterate_component

      iterate_component-Visited :
          (c : WtoComponent) (it : FixpointIterator S)
          → IsOrdered a nestings c
          → Seeded laws it
          → Returns (Visited laws (has_node c) it) (iterate_component a nestings c it)
      iterate_component-Visited (vertex n) it o g = visit_vertex-Visited laws it n o g
      iterate_component-Visited (cycle h cs) it o g =
          rw (o.0.known, ◌>>=◌)
            (Returns-bind (λ s. Unit {0}) _
              (enter_cycle a nestings o.0.nesting it h (a.preds h) a.bottom) _
              (enter_cycle-Returns a nestings o.0.nesting h it (a.preds h) a.bottom o.0.preds_known)
              (λ s _.
                iterate-Visited laws enough h (has_node_in cs) it nestings o.0.nesting cs o.0
                  (λ k. refl) (iterate_components a nestings cs)
                  (λ r. iterate_components-Visited cs r o.1)
                  (a.options.max_widening_iterations + a.options.max_narrowing_iterations)
                  increasing 1 it s
                  (record {
                    framed = record { pre = λ k _. refl; post = λ k _. refl; seeded = g };
                    allowed = (let k = enough.widenings in omega (arith, k));
                    fuelled = omega arith;
                    settling = (let k = laws.rank-le s in omega (arith, k));
                  })))

      pub iterate_components-Visited :
          (cs : WtoComponents) (it : FixpointIterator S)
          → AreOrdered a nestings cs
          → Seeded laws it
          → Returns (Visited laws (has_node_in cs) it) (iterate_components a nestings cs it)
      iterate_components-Visited no_components it o g = nothing-Visited it g
      iterate_components-Visited (next_component c cs) it o g =
          Returns-bind (Visited laws (has_node c) it) _ (iterate_component a nestings c it) _
            (iterate_component-Visited c it o.0 g)
            (λ after v.
              Returns-imp (Visited laws (has_node_in cs) after) _
                (iterate_components a nestings cs after) (λ r w. both-Visited o.1 v w)
                (iterate_components-Visited cs after o.2 v.seeded))
