-- ===== src/Wto.antt =====
-- analyzer/include/analyzer/util/wto.hpp: the nestings of a weak topological order, its components,
-- and the visitor that gives each node its nesting. Nodes are numbers (addresses).
pub mod Nesting
pub mod Builder
mod Tests
use knight.Prelude.{
  ℕ, Bool, true, false, Option, none, some, List, [], ◌∷◌, ◌++◌, ◌==◌, if◌then◌else◌,
}
use knight.Prelude.Int.{ℤ, pos, negsuc, eqb_ℤ, leb_ℤ}
use knight.Prelude.Assoc.{find, put}

abbrev pub NodeRef : Type 0
NodeRef = ℕ

pub record WtoNesting : Type 0 where
  pub nodes : List NodeRef

unfoldable pub add_head : WtoNesting → NodeRef → WtoNesting
add_head n head = record { nodes = n.nodes ++ head ∷ [] }

unfoldable pub common_prefix_nodes : List NodeRef → List NodeRef → List NodeRef
common_prefix_nodes [] other = []
common_prefix_nodes (a ∷ nodes) [] = []
common_prefix_nodes (a ∷ nodes) (b ∷ other) =
    let rest = common_prefix_nodes nodes other in if a == b then a ∷ rest else []

unfoldable pub get_common_prefix : WtoNesting → WtoNesting → WtoNesting
unfolding common_prefix_nodes
get_common_prefix n m = record { nodes = common_prefix_nodes n.nodes m.nodes }

-- The loop of `compare`; the shortcut for one and the same object gives what the loop gives.
unfoldable pub compare_nodes : List NodeRef → List NodeRef → ℤ
compare_nodes [] [] = pos 0
compare_nodes [] (b ∷ other) = negsuc 0
compare_nodes (a ∷ nodes) [] = pos 1
compare_nodes (a ∷ nodes) (b ∷ other) =
    let rest = compare_nodes nodes other in if a == b then rest else pos 2

unfoldable pub compare_nesting : WtoNesting → WtoNesting → ℤ
unfolding compare_nodes
compare_nesting n m = compare_nodes n.nodes m.nodes

unfoldable pub ltb_nesting : WtoNesting → WtoNesting → Bool
unfolding compare_nesting
ltb_nesting n m = eqb_ℤ (compare_nesting n m) (negsuc 0)

unfoldable pub leb_nesting : WtoNesting → WtoNesting → Bool
unfolding compare_nesting
leb_nesting n m = leb_ℤ (compare_nesting n m) (pos 0)

unfoldable pub eqb_nesting : WtoNesting → WtoNesting → Bool
unfolding compare_nesting
eqb_nesting n m = eqb_ℤ (compare_nesting n m) (pos 0)

unfoldable pub gtb_nesting : WtoNesting → WtoNesting → Bool
unfolding compare_nesting
gtb_nesting n m = eqb_ℤ (compare_nesting n m) (pos 1)

-- `WtoComponent`: a vertex, or a cycle with its head and its components.
mutual
  pub data WtoComponent : Type 0 where
    vertex : NodeRef → WtoComponent
    cycle : NodeRef → WtoComponents → WtoComponent

  pub data WtoComponents : Type 0 where
    no_components : WtoComponents
    next_component : WtoComponent → WtoComponents → WtoComponents

abbrev pub NestingTable : Type 0
NestingTable = List (NodeRef × WtoNesting)

-- `std::unordered_map::insert`: a present entry stays.
unfoldable pub insert_nesting : NodeRef → WtoNesting → NestingTable → NestingTable
insert_nesting k n t = elim (find k t) [ none ↦ put k n t | some _ ↦ t ]

-- `NestingBuilder`: its member `m_nesting` is an argument, which a cycle's visit restores.
unfoldable mutual
  unfolding insert_nesting add_head

  pub visit_component : WtoNesting → NestingTable → WtoComponent → NestingTable
  visit_component n t (vertex k) = insert_nesting k n t
  visit_component n t (cycle h cs) = visit_components (add_head n h) (insert_nesting h n t) cs

  pub visit_components : WtoNesting → NestingTable → WtoComponents → NestingTable
  visit_components n t no_components = t
  visit_components n t (next_component c cs) = visit_components n (visit_component n t c) cs
