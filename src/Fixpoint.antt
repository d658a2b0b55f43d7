-- ===== src/Fixpoint.antt =====
-- analyzer/include/analyzer/core/engine: iterator.hpp, wto_iterator.hpp and wto_iterator_impl.tpp, the
-- iteration over the weak topological order of a control flow graph.
--
-- A run that asks for the nesting of a node that the order lacks, which an assertion forbids, is `none`.
-- The notifications of cycles do nothing, and location contexts only name new symbols: both are left
-- out. `iter_cnt` does not wrap, since the options stop the loop before.
pub mod Inputs
pub mod Concrete
pub mod Tables
pub mod Vertices
pub mod Passes
pub mod Flows
pub mod Outcomes
pub mod Cycles
pub mod Stages
pub mod Visits
pub mod Runs
pub mod Checks
pub mod OfIntervals
mod Tests
use knight.Prelude.{
  ℕ, zero, suc, ◌+◌, Bool, true, false, ◌||◌, Option, none, some, List, [], ◌∷◌, ◌++◌, ltb, ◌==◌,
  if◌then◌else◌, ◌>>=◌,
}
use knight.Prelude.Assoc.{find, put}
use knight.Num.{ZNum}
use knight.Wto.{
  NodeRef, WtoNesting, WtoComponent, vertex, cycle, WtoComponents, no_components, next_component,
  NestingTable, leb_nesting,
}
use knight.Wto
use knight.Fixpoint.Inputs.{Analysis, get_threshold}

pub data IterationKind : Type 0 where
  increasing decreasing : IterationKind

-- `WtoBasedFixPointIterator`: the members that change.
pub record FixpointIterator (S : Type 0) : Type 0 where
  pub pre : List (NodeRef × S)
  pub post : List (NodeRef × S)
  pub head_thresholds : List (NodeRef × Option ZNum)
  pub converged : Bool

-- How an iteration of the loop on a cycle ends: by `break`, or with what the next one starts from.
pub data Outcome (S : Type 0) : Type 0 where
  finished : FixpointIterator S → Outcome S
  again : IterationKind → ℕ → FixpointIterator S → S → Outcome S

module _ {S : Type 0} (a : Analysis S) where
  unfoldable pub get : List (NodeRef × S) → NodeRef → S
  get inv_map node = elim (find node inv_map) [ none ↦ a.bottom | some state ↦ state ]

  unfoldable pub get_pre : FixpointIterator S → NodeRef → S
  unfolding get
  get_pre it node = get it.pre node

  unfoldable pub get_post : FixpointIterator S → NodeRef → S
  unfolding get
  get_post it node = get it.post node

  unfoldable pub set : List (NodeRef × S) → NodeRef → S → List (NodeRef × S)
  set inv_map node state = put node (a.normalize state) inv_map

  unfoldable pub set_pre : FixpointIterator S → NodeRef → S → FixpointIterator S
  unfolding set
  set_pre it node state = record it { pre = set it.pre node state }

  unfoldable pub set_post : FixpointIterator S → NodeRef → S → FixpointIterator S
  unfolding set
  set_post it node state = record it { post = set it.post node state }

  unfoldable pub clear : FixpointIterator S → FixpointIterator S
  clear it = record it { pre = []; post = []; converged = false }

  -- The entry of `m_head_thresholds` for a head, made when it is first asked for.
  unfoldable pub head_threshold : FixpointIterator S → NodeRef → Option ZNum × FixpointIterator S
  unfolding get_threshold
  head_threshold it head = elim (find head it.head_thresholds) [
    | some threshold ↦ (threshold, it)
    | none ↦ (
      get_threshold a head,
      record it { head_thresholds = put head (get_threshold a head) it.head_thresholds },
    )
  ]

  unfoldable pub enlarge_at_head_when_increasing :
      FixpointIterator S → NodeRef → ℕ → S → S → S × FixpointIterator S
  unfolding head_threshold
  enlarge_at_head_when_increasing it head iter_cnt before after =
      let cached = head_threshold it head in
      if ltb iter_cnt (a.options.widening_delay + 1)
      then (a.join_consecutive_iter before after, it)
      else (if a.options.analyze_with_threshold
          then (
            elim cached.0 [
              | some threshold ↦ a.widen_with_threshold before after threshold
              | none ↦ a.widen before after
            ],
            cached.1,
          )
          else (a.widen before after, it))

  unfoldable pub is_increasing_fixpoint_reached : ℕ → S → S → Bool
  is_increasing_fixpoint_reached iter_cnt before after =
      iter_cnt == a.options.max_widening_iterations || a.leq after before

  unfoldable pub refine_at_loop_head_when_decreasing :
      FixpointIterator S → NodeRef → S → S → S × FixpointIterator S
  unfolding head_threshold
  refine_at_loop_head_when_decreasing it head before after =
      let cached = head_threshold it head in
      if a.options.analyze_with_threshold
      then (
        elim cached.0 [
          | some threshold ↦ a.narrow_with_threshold before after threshold
          | none ↦ a.narrow before after
        ],
        cached.1,
      )
      else (a.narrow before after, it)

  unfoldable pub is_decreasing_fixpoint_reached : ℕ → S → S → Bool
  is_decreasing_fixpoint_reached iter_cnt before after =
      iter_cnt == a.options.max_narrowing_iterations || a.leq before after

  -- The state that a predecessor sends to a node.
  abbrev pub incoming : FixpointIterator S → NodeRef → NodeRef → S
  incoming it node pred = a.transfer_edge pred node (get_post it pred)

  -- The loop over the predecessors in the visit of a vertex.
  unfoldable pub join_preds : FixpointIterator S → NodeRef → List NodeRef → S → S
  unfolding get_post
  join_preds it node [] state_pre = state_pre
  join_preds it node (pred ∷ preds) state_pre =
      join_preds it node preds (a.join state_pre (incoming it node pred))

  unfoldable pub visit_vertex : FixpointIterator S → NodeRef → FixpointIterator S
  unfolding get_pre join_preds set_pre set_post
  visit_vertex it node =
      let state_pre = join_preds it node (a.preds node) (get_pre it node) in
      set_post (set_pre it node state_pre) node (a.transfer_node node state_pre)

  -- The end of an iteration in the decreasing stage.
  unfoldable pub end_decreasing : FixpointIterator S → NodeRef → ℕ → S → S → Outcome S
  unfolding refine_at_loop_head_when_decreasing is_decreasing_fixpoint_reached set_pre
  end_decreasing it head iter_cnt state_pre new_state_front =
      let refined = refine_at_loop_head_when_decreasing it head state_pre new_state_front in
      if is_decreasing_fixpoint_reached iter_cnt state_pre (a.normalize refined.0)
      then finished (set_pre refined.1 head (a.normalize refined.0))
      else again decreasing (suc iter_cnt) refined.1 (a.normalize refined.0)

  unfoldable pub end_iteration :
      IterationKind → FixpointIterator S → NodeRef → ℕ → S → S → Outcome S
  unfolding end_decreasing enlarge_at_head_when_increasing is_increasing_fixpoint_reached
  end_iteration decreasing it head iter_cnt state_pre new_state_front =
      end_decreasing it head iter_cnt state_pre new_state_front
  end_iteration increasing it head iter_cnt state_pre new_state_front =
      let increased = enlarge_at_head_when_increasing it head iter_cnt state_pre new_state_front in
      if is_increasing_fixpoint_reached iter_cnt state_pre (a.normalize increased.0)
      then end_decreasing increased.1 head 1 state_pre new_state_front
      else again increasing (suc iter_cnt) increased.1 (a.normalize increased.0)

  -- The part of an iteration before the loop over the components.
  unfoldable pub start_iteration : FixpointIterator S → NodeRef → S → FixpointIterator S
  unfolding set_pre set_post
  start_iteration it head state_pre =
      set_post (set_pre it head state_pre) head (a.transfer_node head state_pre)

  module _ (nestings : NestingTable) where
    -- `wto.get_nesting(pred) <= nesting`.
    unfoldable pub is_outside : WtoNesting → NodeRef → Option Bool
    unfolding leb_nesting
    is_outside nesting pred = do
      pred_nesting ← find pred nestings
      some (leb_nesting pred_nesting nesting)

    -- The first loop over the predecessors of a head.
    unfoldable pub enter_cycle :
        WtoNesting → FixpointIterator S → NodeRef → List NodeRef → S → Option S
    unfolding is_outside get_post
    enter_cycle nesting it head [] state_pre = some state_pre
    enter_cycle nesting it head (pred ∷ preds) state_pre = do
      outside ← is_outside nesting pred
      enter_cycle nesting it head preds
          (if outside then a.join state_pre (incoming it head pred) else state_pre)

    -- The loop that joins the states from outside the cycle, and those from inside, after each pass.
    unfoldable pub split_preds :
        WtoNesting → FixpointIterator S → NodeRef → List NodeRef → S → S → Option (S × S)
    unfolding is_outside get_post
    split_preds nesting it head [] front back = some (front, back)
    split_preds nesting it head (pred ∷ preds) front back = do
      outside ← is_outside nesting pred
      split_preds nesting it head preds
          (if outside then a.join front (incoming it head pred) else front)
          (if outside then back else a.join back (incoming it head pred))

    -- The loop of the visit of a cycle; `body` visits its components.
    unfoldable pub iterate :
        WtoNesting
        → (FixpointIterator S → Option (FixpointIterator S))
        → NodeRef
        → ℕ
        → IterationKind
        → ℕ
        → FixpointIterator S
        → S
        → Option (FixpointIterator S)
    unfolding start_iteration split_preds end_iteration
    iterate nesting body head zero kind iter_cnt it state_pre = none
    iterate nesting body head (suc fuel) kind iter_cnt it state_pre = do
      visited ← body (start_iteration it head (a.normalize state_pre))
      states ← split_preds nesting visited head (a.preds head) a.bottom a.bottom
      elim (end_iteration kind visited head iter_cnt (a.normalize state_pre)
          (a.normalize (a.join_at_loop_head states.0 states.1))) [
            | finished done ↦ some done
            | again kind iter_cnt it state_pre ↦
                iterate nesting body head fuel kind iter_cnt it state_pre
          ]

    -- `WtoIterator`. As many iterations as the options allow in the two stages are enough.
    unfoldable mutual
      unfolding visit_vertex enter_cycle iterate

      pub iterate_component : WtoComponent → FixpointIterator S → Option (FixpointIterator S)
      iterate_component (vertex node) it = some (visit_vertex it node)
      iterate_component (cycle head components) it = do
        nesting ← find head nestings
        state_pre ← enter_cycle nesting it head (a.preds head) a.bottom
        iterate nesting (iterate_components components) head
            (a.options.max_widening_iterations + a.options.max_narrowing_iterations) increasing 1 it
            state_pre

      pub iterate_components : WtoComponents → FixpointIterator S → Option (FixpointIterator S)
      iterate_components no_components it = some it
      iterate_components (next_component c cs) it = do
        visited ← iterate_component c it
        iterate_components cs visited

  -- `WtoChecker`: the nodes in the order of the checks, with the states that they are checked with.
  unfoldable mutual
    unfolding get_pre get_post

    pub check_component : FixpointIterator S → WtoComponent → List (NodeRef × S × S)
    check_component it (vertex node) = (node, get_pre it node, get_post it node) ∷ []
    check_component it (cycle head components) =
        (head, get_pre it head, get_post it head) ∷ check_components it components

    pub check_components : FixpointIterator S → WtoComponents → List (NodeRef × S × S)
    check_components it no_components = []
    check_components it (next_component c cs) = check_component it c ++ check_components it cs

  -- `run`, up to the checks: the order comes with the graph.
  unfoldable pub run : WtoComponents → FixpointIterator S → S → Option (FixpointIterator S)
  unfolding clear set_pre iterate_components Wto.visit_components
  run wto it init_state = do
    done ←
        iterate_components (Wto.visit_components (record { nodes = [] }) [] wto) wto
          (set_pre (clear it) a.entry init_state)
    some (record done { converged = true })
