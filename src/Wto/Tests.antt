-- ===== src/Wto/Tests.antt =====
-- The theorems on nestings at small paths and at `1 (2 3 (4 5)) 6`.
use knight.Prelude.{◌≡◌, ◌↔◌, true, List, [], ◌∷◌}
use knight.Prelude.Assoc.{find}
use knight.Wto.{
  NodeRef, WtoNesting, WtoComponents, vertex, cycle, no_components, next_component, leb_nesting,
  ltb_nesting, gtb_nesting, eqb_nesting, get_common_prefix, visit_components,
}
use knight.Wto.Nesting.{IsPrefix, IsBelow, operators-IsPrefix, get_common_prefix_lem}
use knight.Wto.Builder.{nesting_below, visit_components_lem}

abbrev inside : WtoNesting
inside = record { nodes = 2 ∷ 4 ∷ [] }

abbrev aside : WtoNesting
aside = record { nodes = 2 ∷ 7 ∷ [] }

abbrev order : WtoComponents
order = next_component (vertex 1) (
    next_component
      (cycle 2 (
        next_component (vertex 3)
          (next_component (cycle 4 (next_component (vertex 5) no_components)) no_components)))
      (next_component (vertex 6) no_components))

abbrev outside : WtoNesting
outside = record { nodes = 2 ∷ [] }

operators-IsPrefix_example :
    ((leb_nesting outside inside ≡ true) ↔ IsPrefix outside.nodes inside.nodes)
    × ((ltb_nesting outside inside ≡ true) ↔ IsBelow outside.nodes inside.nodes)
    × ((gtb_nesting outside inside ≡ true) ↔ IsBelow inside.nodes outside.nodes)
    × ((eqb_nesting outside inside ≡ true) ↔ (outside.nodes ≡ inside.nodes))
operators-IsPrefix_example = operators-IsPrefix outside inside

get_common_prefix_lem_example :
    IsPrefix (get_common_prefix inside aside).nodes inside.nodes
    × IsPrefix (get_common_prefix inside aside).nodes aside.nodes
    × ((r : List NodeRef)
        → IsPrefix r inside.nodes
        → IsPrefix r aside.nodes
        → IsPrefix r (get_common_prefix inside aside).nodes)
get_common_prefix_lem_example = get_common_prefix_lem inside aside

visit_components_lem_example :
    find 5 (visit_components (record { nodes = [] }) [] order) ≡ nesting_below 5 [] order
visit_components_lem_example = visit_components_lem 5 order
