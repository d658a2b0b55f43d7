-- ===== src/Wto/Builder.antt =====
-- wto.hpp: `NestingBuilder` against a search for the node, which carries the heads of the cycles that
-- it has entered.
use knight.Prelude.{
  ◌≡◌, refl, ◌∙◌, sym, inl, inr, Bool-cases, Option-cases, Option, none, some, List, [], ◌∷◌, ◌++◌,
  ◌==◌, ==_iff, if◌then◌else◌,
}
use knight.Prelude.Assoc.{find, find-put}
use knight.Wto.{
  NodeRef, WtoNesting, WtoComponent, WtoComponents, vertex, cycle, no_components, next_component,
  NestingTable, add_head, insert_nesting, visit_component, visit_components,
}

abbrev or_else : Option WtoNesting → Option WtoNesting → Option WtoNesting
or_else (some n) o = some n
or_else none o = o

or_else-none : (a : Option WtoNesting) → or_else a none ≡ a
or_else-none none = refl
or_else-none (some n) = refl

or_else_assoc : (a b c : Option WtoNesting) → or_else (or_else a b) c ≡ or_else a (or_else b c)
or_else_assoc none b c = refl
or_else_assoc (some n) b c = refl

-- The heads of the cycles around the first place of a node, outermost first.
abbrev mutual
  pub nesting_in : NodeRef → List NodeRef → WtoComponent → Option WtoNesting
  nesting_in k path (vertex j) = if j == k then some (record { nodes = path }) else none
  nesting_in k path (cycle h cs) =
      or_else (if h == k then some (record { nodes = path }) else none)
        (nesting_below k (path ++ h ∷ []) cs)

  pub nesting_below : NodeRef → List NodeRef → WtoComponents → Option WtoNesting
  nesting_below k path no_components = none
  nesting_below k path (next_component c cs) =
      or_else (nesting_in k path c) (nesting_below k path cs)

find-insert_nesting :
    (k j : NodeRef) (n : WtoNesting) (t : NestingTable)
    → find k (insert_nesting j n t) ≡ or_else (find k t) (if j == k then some n else none)
unfolding insert_nesting
find-insert_nesting k j n t = elim (Option-cases (find j t)) [
  | inl e ↦ rw (e, insert_nesting) (rw (find-put j k n t) (absent e))
  | inr (m, e) ↦ rw (e, insert_nesting) (present m e)
]
  where
    absent :
        find j t ≡ none
        → (if j == k then some n else find k t)
          ≡ or_else (find k t) (if j == k then some n else none)
    absent e = elim (Bool-cases (j == k)) [
      | inl d ↦ rw (d, ← (==_iff j k).0 d, e) refl
      | inr d ↦ rw d (sym (or_else-none (find k t)))
    ]

    present :
        (m : WtoNesting)
        → find j t ≡ some m
        → find k t ≡ or_else (find k t) (if j == k then some n else none)
    present m e = elim (Bool-cases (j == k)) [
      | inl d ↦ rw (d, ← (==_iff j k).0 d, e) refl
      | inr d ↦ rw d (sym (or_else-none (find k t)))
    ]

mutual
  unfolding visit_component add_head

  find-visit_component :
      (k : NodeRef) (n : WtoNesting) (t : NestingTable) (c : WtoComponent)
      → find k (visit_component n t c) ≡ or_else (find k t) (nesting_in k n.nodes c)
  find-visit_component k n t (vertex j) = find-insert_nesting k j n t
  find-visit_component k n t (cycle h cs) =
      find-visit_components k (add_head n h) (insert_nesting h n t) cs
      ∙ rw (find-insert_nesting k h n t) (or_else_assoc (find k t) _ _)

  find-visit_components :
      (k : NodeRef) (n : WtoNesting) (t : NestingTable) (cs : WtoComponents)
      → find k (visit_components n t cs) ≡ or_else (find k t) (nesting_below k n.nodes cs)
  find-visit_components k n t no_components = sym (or_else-none (find k t))
  find-visit_components k n t (next_component c cs) =
      find-visit_components k n (visit_component n t c) cs
      ∙ rw (find-visit_component k n t c) (or_else_assoc (find k t) _ _)

-- The table that `NestingBuilder` builds from an empty table and an empty nesting has for each
-- node exactly the nesting that a search for its first place in the order finds: the heads of the
-- cycles around it, and no entry for a node that the order lacks.
pub visit_components_lem :
    (k : NodeRef) (cs : WtoComponents)
    → find k (visit_components (record { nodes = [] }) [] cs) ≡ nesting_below k [] cs
visit_components_lem k cs = find-visit_components k (record { nodes = [] }) [] cs
