-- ===== src/Fixpoint/Runs.antt =====
-- wto_iterator.hpp and wto_iterator_impl.tpp: `run`.
use knight.Prelude.{◌≡◌, refl, sym, subst, true, some, Returns, Returns-bind, [], ==_iff}
use knight.Wto.{
  NodeRef, WtoComponent, vertex, cycle, WtoComponents, no_components, next_component, NestingTable,
}
use knight.Wto
use knight.Fixpoint.Inputs.{Analysis}
use knight.Fixpoint.{FixpointIterator, run, clear, set_pre, get_pre, get_post}
use knight.Fixpoint.Concrete.{
  Program, IsSound, Inflow, Visited, Seeded, has_node_in, is_pred, AreOrdered,
}
use knight.Fixpoint.Tables.{get_pre-set_pre}
use knight.Fixpoint.Outcomes.{IsEnough}
use knight.Fixpoint.Visits.{iterate_components-Visited}

-- A weak topological order of the part of the graph that the entry reaches.
pub record IsOrderOf {S : Type 0} (a : Analysis S) (wto : WtoComponents) : Type 0 where
  pub ordered : AreOrdered a (Wto.visit_components (record { nodes = [] }) [] wto) wto
  pub has_entry : has_node_in wto a.entry ≡ true
  pub closed :
      (m n : NodeRef) → has_node_in wto m ≡ true → is_pred a m n ≡ true → has_node_in wto n ≡ true

-- The states of the program at the start of the nodes, in all its runs.
pub data Reaches {S C : Type 0} (a : Analysis S) (p : Program C) : NodeRef → C → Type 0 where
  begin : {n : NodeRef} {c : C} → n ≡ a.entry → p.init c → Reaches a p n c
  step :
      {m n : NodeRef} {c d e : C}
      → Reaches a p m c
      → p.exec m c d
      → is_pred a m n ≡ true
      → p.flow m n d e
      → Reaches a p n e

module _ {S C : Type 0} {a : Analysis S} {p : Program C} (laws : IsSound a p)
    (enough : IsEnough laws) where
  pub has_node-Reaches :
      {wto : WtoComponents} {n : NodeRef} {c : C}
      → IsOrderOf a wto
      → Reaches a p n c
      → has_node_in wto n ≡ true
  has_node-Reaches {wto} o (Reaches.begin e i) =
      subst (λ (x : NodeRef). has_node_in wto x ≡ true) (sym e) o.has_entry
  has_node-Reaches o (Reaches.step r x f z) = o.closed _ _ (has_node-Reaches o r) f

  Inflow-Reaches :
      {wto : WtoComponents} {it : FixpointIterator S} {n : NodeRef} {c : C}
      → IsOrderOf a wto
      → Reaches a p n c
      → Inflow laws (has_node_in wto) it n c
  Inflow-Reaches o (Reaches.begin e i) = Inflow.seed (has_node-Reaches o (Reaches.begin e i)) e i
  Inflow-Reaches o (Reaches.step r x f z) =
      Inflow.inner (Inflow-Reaches o r) x (has_node-Reaches o (Reaches.step r x f z)) f z

  -- What a run promises: the states of the nodes have all that the program can do there.
  pub record Converges (r : FixpointIterator S) : Type 0 where
    pub converged : r.converged ≡ true
    pub pre_has : (n : NodeRef) (c : C) → Reaches a p n c → laws.Has (get_pre a r n) c
    pub post_has :
        (n : NodeRef) (c d : C) → Reaches a p n c → p.exec n c d → laws.Has (get_post a r n) d

  init-Seeded :
      (it : FixpointIterator S) (s : S)
      → ((c : C) → p.init c → laws.Has s c)
      → Seeded laws (set_pre a (clear a it) a.entry s)
  init-Seeded it s g c i =
      rw (get_pre-set_pre a (clear a it) a.entry a.entry s, (==_iff a.entry a.entry).1 refl)
        (laws.normalize-has s c (g c i))

  -- For operations that meet the laws, options that leave the widenings room to settle, an order of the
  -- graph whose entry is no head of a cycle, and an initial state that has the program's, `run` ends and
  -- has converged. For each node, each state that reaches it in a run of the program is in the node's state
  -- before, and what the node makes of it in the state after.
  pub run_sound :
      (wto : WtoComponents) (it : FixpointIterator S) (s : S)
      → IsOrderOf a wto
      → ((c : C) → p.init c → laws.Has s c)
      → Returns Converges (run a wto it s)
  unfolding run get_pre get_post
  run_sound wto it s o g =
      Returns-bind (Visited laws (has_node_in wto) (set_pre a (clear a it) a.entry s)) _ _
        (λ done. some (record done { converged = true }))
        (iterate_components-Visited laws enough
          (Wto.visit_components (record { nodes = [] }) [] wto) wto
          (set_pre a (clear a it) a.entry s) o.ordered (init-Seeded it s g))
        (λ r v. record {
          converged = refl;
          pre_has = λ n c z. v.covers_pre n c (Inflow-Reaches o z);
          post_has = λ n c d z x. v.covers_post n c d (Inflow-Reaches o z) x;
        })
