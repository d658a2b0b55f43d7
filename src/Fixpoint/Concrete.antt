-- ===== src/Fixpoint/Concrete.antt =====
-- What the fixpoint iterator relies on in the operations of a client, and the concrete states of a program
-- that reach the nodes of a part of its graph.
use knight.Prelude.{ℕ, ◌≤◌, ◌<◌, ◌≡◌, ◌⊎◌, Bool, true, false, Option, any, ◌==◌, ◌||◌}
use knight.Prelude.Assoc.{find}
use knight.Num.{ZNum}
use knight.Wto.{
  NodeRef, WtoNesting, WtoComponent, vertex, cycle, WtoComponents, no_components, next_component,
  NestingTable,
}
use knight.Fixpoint.Inputs.{Analysis}
use knight.Fixpoint.{FixpointIterator, get_pre, get_post}

-- The program that is analysed: what a node does to a state, and the states that take an edge.
pub record Program (C : Type 0) : Type 1 where
  pub init : C → Type 0
  pub exec : NodeRef → C → C → Type 0
  pub flow : NodeRef → NodeRef → C → C → Type 0

-- The laws of the operations, by the concrete states of an abstract one. The rank bounds how often a
-- widening can change a state, and the widenings with thresholds too where the options ask for them.
pub record IsSound {S C : Type 0} (a : Analysis S) (p : Program C) : Type 1 where
  pub Has : S → C → Type 0
  pub join-has : (s t : S) (c : C) → Has s c ⊎ Has t c → Has (a.join s t) c
  pub loop_head-has : (s t : S) (c : C) → Has s c ⊎ Has t c → Has (a.join_at_loop_head s t) c
  pub consecutive-has : (s t : S) (c : C) → Has s c ⊎ Has t c → Has (a.join_consecutive_iter s t) c
  pub widen-has : (s t : S) (c : C) → Has s c ⊎ Has t c → Has (a.widen s t) c
  pub widen_threshold-has :
      (s t : S) (k : ZNum) (c : C) → Has s c ⊎ Has t c → Has (a.widen_with_threshold s t k) c
  pub narrow-has : (s t : S) (c : C) → Has s c → Has t c → Has (a.narrow s t) c
  pub narrow_threshold-has :
      (s t : S) (k : ZNum) (c : C) → Has s c → Has t c → Has (a.narrow_with_threshold s t k) c
  pub leq-has : (s t : S) (c : C) → a.leq s t ≡ true → Has s c → Has t c
  pub normalize-has : (s : S) (c : C) → Has s c → Has (a.normalize s) c
  pub node-has :
      (n : NodeRef) (s : S) (c d : C) → Has s c → p.exec n c d → Has (a.transfer_node n s) d
  pub edge-has :
      (m n : NodeRef) (s : S) (c d : C) → Has s c → p.flow m n c d → Has (a.transfer_edge m n s) d
  pub rank : S → ℕ
  pub height : ℕ
  pub rank-le : (s : S) → rank s ≤ height
  pub rank-normalize : (s : S) → rank (a.normalize s) ≤ rank s
  pub rank-widen :
      (s t : S)
      → a.leq (a.normalize (a.widen s t)) s ≡ false
      → rank (a.normalize (a.widen s t)) < rank s
  pub rank-widen_threshold :
      (s t : S) (k : ZNum)
      → a.options.analyze_with_threshold ≡ true
      → a.leq (a.normalize (a.widen_with_threshold s t k)) s ≡ false
      → rank (a.normalize (a.widen_with_threshold s t k)) < rank s

-- The nodes of a component.
abbrev mutual
  pub has_node : WtoComponent → NodeRef → Bool
  has_node (vertex n) k = n == k
  has_node (cycle h cs) k = (h == k) || has_node_in cs k

  pub has_node_in : WtoComponents → NodeRef → Bool
  has_node_in no_components k = false
  has_node_in (next_component c cs) k = has_node c k || has_node_in cs k

abbrev pub is_pred : {S : Type 0} → Analysis S → NodeRef → NodeRef → Bool
is_pred a m n = any (λ x. x == m) (a.preds n)

-- The edges between a component and those that follow it all go forward.
module _ {S : Type 0} (a : Analysis S) where
  pub record Precedes (c : WtoComponent) (cs : WtoComponents) : Type 0 where
    pub apart : (n : NodeRef) → has_node c n ≡ true → has_node_in cs n ≡ false
    pub forward :
        (m n : NodeRef) → has_node c n ≡ true → is_pred a m n ≡ true → has_node_in cs m ≡ false

-- What makes a list of components a weak topological order of the graph: no node stands twice, and an edge
-- that goes back in the order leads to the head of a cycle around its source. The nestings of the
-- predecessors of heads are known, and the entry is no head.
module _ {S : Type 0} (a : Analysis S) (nestings : NestingTable) where
  pub record IsHead (h : NodeRef) (cs : WtoComponents) : Type 0 where
    pub fresh : has_node_in cs h ≡ false
    pub not_entry : (h == a.entry) ≡ false
    pub nesting : WtoNesting
    pub known : find h nestings ≡ Option.some nesting
    pub preds_known :
        (m : NodeRef) → is_pred a m h ≡ true → (n : WtoNesting) × (find m nestings ≡ Option.some n)

  abbrev mutual
    pub IsOrdered : WtoComponent → Type 0
    IsOrdered (vertex n) = is_pred a n n ≡ false
    IsOrdered (cycle h cs) = IsHead h cs × AreOrdered cs

    pub AreOrdered : WtoComponents → Type 0
    AreOrdered no_components = Unit
    AreOrdered (next_component c cs) = IsOrdered c × Precedes a c cs × AreOrdered cs

module _ {S C : Type 0} {a : Analysis S} {p : Program C} (laws : IsSound a p) where
  -- The concrete states that arrive at the nodes of a part of the graph: those that start at the entry,
  -- those that enter from a node outside, by its state in the iterator, and those that the part passes on.
  pub data Inflow (part : NodeRef → Bool) (it : FixpointIterator S) : NodeRef → C → Type 0 where
    seed : {n : NodeRef} {c : C} → part n ≡ true → n ≡ a.entry → p.init c → Inflow part it n c
    enter :
        {m n : NodeRef} {c d : C}
        → part m ≡ false
        → part n ≡ true
        → is_pred a m n ≡ true
        → laws.Has (get_post a it m) c
        → p.flow m n c d
        → Inflow part it n d
    inner :
        {m n : NodeRef} {c d e : C}
        → Inflow part it m c
        → p.exec m c d
        → part n ≡ true
        → is_pred a m n ≡ true
        → p.flow m n d e
        → Inflow part it n e

  pub inside :
      {part : NodeRef → Bool} {it : FixpointIterator S} {n : NodeRef} {c : C}
      → Inflow part it n c
      → part n ≡ true
  inside (seed h e i) = h
  inside (enter o h e g f) = h
  inside (inner i x h e f) = h

  -- What a visit of a part of the graph does to the iterator.
  pub record Visited (part : NodeRef → Bool) (it r : FixpointIterator S) : Type 0 where
    pub pre_kept : (n : NodeRef) → part n ≡ false → get_pre a r n ≡ get_pre a it n
    pub post_kept : (n : NodeRef) → part n ≡ false → get_post a r n ≡ get_post a it n
    pub seeded : (c : C) → p.init c → laws.Has (get_pre a r a.entry) c
    pub covers_pre : (n : NodeRef) (c : C) → Inflow part it n c → laws.Has (get_pre a r n) c
    pub covers_post :
        (n : NodeRef) (c d : C) → Inflow part it n c → p.exec n c d → laws.Has (get_post a r n) d

  abbrev pub Seeded : FixpointIterator S → Type 0
  Seeded it = (c : C) → p.init c → laws.Has (get_pre a it a.entry) c
